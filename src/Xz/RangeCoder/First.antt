-- ===== src/Xz/RangeCoder/First.antt =====
-- Taking the first bytes of a chunk.
use galaxys2_kernel_repack.Base.{ℕ, zero, suc, ◌+◌, ◌*◌, ◌^◌, ◌≤◌, ◌≡◌, refl, arith, ◌==◌, if_has}
use galaxys2_kernel_repack.Base.Bytes.{u32}
use galaxys2_kernel_repack.Xz.Types.{XzBuf, in_size, in_byte}
use galaxys2_kernel_repack.Xz.RangeCoder.{Rc, InitStep, read_init_loop, rc_read_init}
use galaxys2_kernel_repack.Xz.RangeCoder.Invariant.{IsRange}

-- The first bytes of a chunk go into the code; the range stays.
read_init_loop-IsRange :
    (left : ℕ) (rc : Rc) (b : XzBuf) → IsRange rc → IsRange (read_init_loop left rc b).rc
unfolding read_init_loop
read_init_loop-IsRange zero rc b h = h
read_init_loop-IsRange (suc left) rc b h =
    let next = u32 (u32 (rc.code * 2 ^ 8) + in_byte b b.in_pos) in
    if_has (λ (r : InitStep). IsRange r.rc) (b.in_pos == in_size b) (λ _. h)
      (λ _.
        read_init_loop-IsRange left (record rc { code = next; init_bytes_left = left })
          (record b { in_pos = b.in_pos + 1 })
          (record { low = h.low; high = h.high; word = omega arith; bytes = h.bytes }))

pub rc_read_init-IsRange : (rc : Rc) (b : XzBuf) → IsRange rc → IsRange (rc_read_init rc b).rc
unfolding rc_read_init
rc_read_init-IsRange rc b h = read_init_loop-IsRange rc.init_bytes_left rc b h

read_init_loop_moves :
    (left : ℕ) (rc : Rc) (b : XzBuf)
    → b.in_pos ≤ in_size b
    → let r = read_init_loop left rc b in
      (b.in_pos ≤ r.buf.in_pos)
      × (r.buf.in_pos ≤ in_size b)
      × (r.buf.input ≡ b.input)
      × (r.rc.input ≡ rc.input)
      × (r.buf.out_pos ≡ b.out_pos)
      × (r.buf.out_size ≡ b.out_size)
unfolding read_init_loop
read_init_loop_moves zero rc b h = (omega arith, h, refl, refl, refl, refl)
read_init_loop_moves (suc left) rc b h = ground (
  arith,
  read_init_loop_moves left
      (record rc {
        code = u32 (u32 (rc.code * 2 ^ 8) + in_byte b b.in_pos);
        init_bytes_left = left;
      })
      (record b { in_pos = b.in_pos + 1 }),
)

pub rc_read_init_moves :
    (rc : Rc) (b : XzBuf)
    → b.in_pos ≤ in_size b
    → let r = rc_read_init rc b in
      (b.in_pos ≤ r.buf.in_pos)
      × (r.buf.in_pos ≤ in_size b)
      × (r.buf.input ≡ b.input)
      × (r.rc.input ≡ rc.input)
      × (r.buf.out_pos ≡ b.out_pos)
      × (r.buf.out_size ≡ b.out_size)
unfolding rc_read_init
rc_read_init_moves rc b h = read_init_loop_moves rc.init_bytes_left rc b h
