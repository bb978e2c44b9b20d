-- ===== src/Xz.antt =====
-- The XZ decoder of resources/lib/xz.
pub mod Types
pub mod Crc32
pub mod Vli
pub mod Dict
pub mod RangeCoder
pub mod Lzma
pub mod Lzma2
pub mod Stream
pub mod Bcj
pub mod Unxz
