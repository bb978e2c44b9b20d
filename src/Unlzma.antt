-- ===== src/Unlzma.antt =====
-- The range decoder of resources/lib/decompress_unlzma.c, the decoder of the older .lzma files.
-- `fill` is a parameter. The probabilities are one array, as in the source.
use galaxys2_kernel_repack.Base.{
  ℕ, zero, suc, ◌+◌, ◌-◌, ◌*◌, ◌/◌, ◌%◌, ◌^◌, bit_or, Bool, true, false,
}
use galaxys2_kernel_repack.Base.{List, [], length, get_or, ltb, leb, ◌==◌, if◌then◌else◌}
use galaxys2_kernel_repack.Base.Bytes.{u32, sub32, update}
pub mod RangeCoder
pub mod Decoder
pub mod Distances
pub mod Ends
mod Tests

abbrev pub lzma_iobuf_size : ℕ
lzma_iobuf_size = 0x10000

-- `fill`, with the bytes that it reads; none where it returns 0 or less, as `nofill` does.
pub record Reader : Type 1 where
  pub World : Type 0
  pub fill : World → ℕ → World × List ℕ

module _ (e : Reader) where
  -- `struct rc`: `ptr` is an index into `buffer`, and `size` is `buffer_size`, where 0 also stands
  -- for a negative one. `failed` says that `error` was called.
  pub record Rc : Type 0 where
    pub buffer : List ℕ
    pub size : ℕ
    pub ptr : ℕ
    pub code : ℕ
    pub range : ℕ
    pub bound : ℕ
    pub failed : Bool
    pub world : e.World

  pub rc_read : Rc → Rc
  rc_read rc =
      let (w, xs) = e.fill rc.world lzma_iobuf_size in
      if length xs == 0
      then record rc { size = 0; ptr = 0; failed = true; world = w }
      else record rc { buffer = xs; size = length xs; ptr = 0; world = w }

  pub rc_init : List ℕ → ℕ → e.World → Rc
  rc_init buffer bound w = record {
    buffer = buffer;
    size = length buffer;
    ptr = 0;
    code = 0;
    range = 0xFFFFFFFF;
    bound = bound;
    failed = false;
    world = w;
  }

  -- `if (rc->ptr >= rc->buffer_end) rc_read(rc);`
  pub at_byte : Rc → Rc
  at_byte rc = if leb rc.size rc.ptr then rc_read rc else rc

  -- `rc->code = (rc->code << 8) | *rc->ptr++;`
  pub shift_in : Rc → Rc
  shift_in rc = record rc {
    code = bit_or (u32 (rc.code * 2 ^ 8)) (get_or rc.buffer rc.ptr 0);
    ptr = rc.ptr + 1;
  }

  pub init_code_loop : ℕ → Rc → Rc
  init_code_loop zero rc = rc
  init_code_loop (suc left) rc = init_code_loop left (shift_in (at_byte rc))

  pub rc_init_code : Rc → Rc
  rc_init_code rc = init_code_loop 5 rc

  pub rc_do_normalize : Rc → Rc
  rc_do_normalize rc = let r = at_byte rc in shift_in (record r { range = u32 (r.range * 2 ^ 8) })

  pub rc_normalize : Rc → Rc
  rc_normalize rc = if ltb rc.range (2 ^ 24) then rc_do_normalize rc else rc

  -- `rc_is_bit_0` is `rc_is_bit_0_helper` and this comparison.
  pub rc_is_bit_0_helper : Rc → ℕ → Rc
  rc_is_bit_0_helper rc p =
      let r = rc_normalize rc in record r { bound = u32 (p * (r.range / 2 ^ 11)) }

  pub is_below : Rc → Bool
  is_below rc = ltb rc.code rc.bound

  -- A decoder with its probabilities, and what it decoded.
  pub record Got : Type 0 where
    pub bit : ℕ
    pub symbol : ℕ
    pub rc : Rc
    pub probs : ℕ → ℕ

  pub rc_update_bit_0 : Rc → (ℕ → ℕ) → ℕ → Rc × (ℕ → ℕ)
  rc_update_bit_0 rc probs i =
      let p = probs i in
      (record rc { range = rc.bound }, update probs i ((p + (2 ^ 11 - p) / 2 ^ 5) % 2 ^ 16))

  pub rc_update_bit_1 : Rc → (ℕ → ℕ) → ℕ → Rc × (ℕ → ℕ)
  rc_update_bit_1 rc probs i =
      let p = probs i in
      (
        record rc { range = sub32 rc.range rc.bound; code = sub32 rc.code rc.bound },
        update probs i (p - p / 2 ^ 5),
      )

  pub rc_get_bit : Rc → (ℕ → ℕ) → ℕ → ℕ → Got
  rc_get_bit rc probs i symbol =
      let r = rc_is_bit_0_helper rc (probs i) in
      let (rc0, probs0) = rc_update_bit_0 r probs i in
      let (rc1, probs1) = rc_update_bit_1 r probs i in
      if is_below r
      then record { bit = 0; symbol = symbol * 2; rc = rc0; probs = probs0 }
      else record { bit = 1; symbol = symbol * 2 + 1; rc = rc1; probs = probs1 }

  pub rc_direct_bit : Rc → ℕ × Rc
  rc_direct_bit rc =
      let n = rc_normalize rc in
      let r : Rc = record n { range = n.range / 2 } in
      if leb r.range r.code then (1, record r { code = sub32 r.code r.range }) else (0, r)

  -- The loop of `rc_bit_tree_decode` with its levels left, and the tree.
  pub tree_loop : ℕ → Rc → (ℕ → ℕ) → ℕ → ℕ → Got
  tree_loop zero rc probs base symbol = record { bit = 0; symbol = symbol; rc = rc; probs = probs }
  tree_loop (suc left) rc probs base symbol =
      let r = rc_get_bit rc probs (base + symbol) symbol in
      tree_loop left r.rc r.probs base r.symbol

  pub rc_bit_tree_decode : Rc → (ℕ → ℕ) → ℕ → ℕ → Got
  rc_bit_tree_decode rc probs base num_levels =
      let r = tree_loop num_levels rc probs base 1 in
      record r { symbol = r.symbol - 2 ^ num_levels }
