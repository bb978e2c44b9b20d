-- ===== src/Xz/Dict/Invariant.antt =====
-- What the comment on `struct dictionary` promises of the positions, operation by operation.
use galaxys2_kernel_repack.Base.{zero, suc, min, ltb, leb, ◌||◌, ◌==◌, if◌then◌else◌, if_has}
use galaxys2_kernel_repack.Base.Bytes.{sub32}
use galaxys2_kernel_repack.Xz.Types.{Ptr, load, store}
use galaxys2_kernel_repack.Xz.Types.Memory.{IsBytes, store_at-IsBytes}
use galaxys2_kernel_repack.Xz.Dict.{Repeat, dict_get, dict_offset, repeat_loop, do_while_rounds}
use galaxys2_kernel_repack.Base.{ℕ, ◌+◌, ◌-◌, ◌<◌, ◌≤◌, ◌≡◌, refl, arith, true}
use galaxys2_kernel_repack.Base.Bytes.{IsU32}
use galaxys2_kernel_repack.Xz.Types.{Mem, XzBuf}
use galaxys2_kernel_repack.Xz.Dict.{
  Dictionary, dict_reset, dict_limit, dict_put, dict_repeat, copy_size, copy_round, dict_flush,
}

-- `start <= pos <= full <= end`, and the sizes are 32-bit words.
pub record IsDict (d : Dictionary) : Type 0 where
  pub started : d.start ≤ d.pos
  pub filled : d.pos ≤ d.full
  pub inside : d.full ≤ d.end
  pub word : IsU32 d.end

-- `pos <= limit <= end`.
pub record IsLimited (d : Dictionary) : Type 0 where
  pub before : d.pos ≤ d.limit
  pub within : d.limit ≤ d.end

pub dict_reset-IsDict :
    (d : Dictionary) (b : XzBuf)
    → IsU32 d.end
    → IsDict (dict_reset d b) × IsLimited (dict_reset d b)
unfolding dict_reset
dict_reset-IsDict d b h = ground arith

pub dict_limit-IsDict :
    (d : Dictionary) (out_max : ℕ)
    → IsDict d
    → IsDict (dict_limit d out_max)
      × IsLimited (dict_limit d out_max)
      × ((dict_limit d out_max).limit ≤ d.pos + out_max)
unfolding dict_limit
dict_limit-IsDict d out_max h = ground arith

pub dict_put-IsDict :
    (d : Dictionary) (m : Mem) (byte : ℕ)
    → IsDict d
    → IsLimited d
    → d.pos < d.limit
    → IsDict (dict_put d m byte).0 × IsLimited (dict_put d m byte).0
unfolding dict_put
dict_put-IsDict d m byte h l space = ground arith

-- With a valid dictionary and space, repeating some bytes keeps the positions of the dictionary in order: `pos` passes
-- neither the limit nor the end.
pub dict_repeat-IsDict :
    (d : Dictionary) (m : Mem) (len dist : ℕ)
    → IsDict d
    → IsLimited d
    → d.pos < d.limit
    → 0 < len
    → IsDict (dict_repeat d m len dist).dict × IsLimited (dict_repeat d m len dist).dict
unfolding dict_repeat
dict_repeat-IsDict d m len dist h l space some_len = ground arith

pub dict_flush-IsDict :
    (d : Dictionary) (m : Mem) (b : XzBuf) → IsDict d → IsDict (dict_flush d m b).dict
unfolding dict_flush
dict_flush-IsDict d m b h = ground arith

pub copy_round-IsDict :
    (d : Dictionary) (m : Mem) (b : XzBuf) (left : ℕ)
    → IsDict d
    → IsDict (copy_round d m b left).dict
unfolding copy_round copy_size
copy_round-IsDict d m b left h = ground arith

pub dict_put-moves :
    (d : Dictionary) (m : Mem) (byte : ℕ)
    → ((dict_put d m byte).0.pos ≡ d.pos + 1) × ((dict_put d m byte).0.limit ≡ d.limit)
unfolding dict_put
dict_put-moves d m byte = (refl, refl)

pub dict_repeat-moves :
    (d : Dictionary) (m : Mem) (len dist : ℕ)
    → ((dict_repeat d m len dist).dict.limit ≡ d.limit)
      × ((dict_repeat d m len dist).done ≡ true → d.pos < (dict_repeat d m len dist).dict.pos)
unfolding dict_repeat
dict_repeat-moves d m len dist = (ground arith, λ h. ground arith)

-- The dictionary holds bytes, and what it gives are bytes.
pub dict_get-IsByte : (d : Dictionary) (m : Mem) (dist : ℕ) → IsBytes m → dict_get d m dist < 256
unfolding dict_get
dict_get-IsByte d m dist h =
    if_has (λ (n : ℕ). n < 256) (ltb 0 d.full)
      (λ _. h d.buf.region (d.buf.offset + dict_offset d dist)) (λ _. omega arith)

pub dict_put-IsBytes :
    (d : Dictionary) (m : Mem) (byte : ℕ) → IsBytes m → byte < 256 → IsBytes (dict_put d m byte).1
unfolding dict_put
dict_put-IsBytes d m byte h hb = store_at-IsBytes m d.buf.region (d.buf.offset + d.pos) byte h hb

repeat_loop-IsBytes :
    (left : ℕ) (buf : Ptr) (end : ℕ) (m : Mem) (pos back : ℕ)
    → IsBytes m
    → IsBytes (repeat_loop left buf end m pos back)
unfolding repeat_loop
repeat_loop-IsBytes zero buf end m pos back h = h
repeat_loop-IsBytes (suc left) buf end m pos back h =
    repeat_loop-IsBytes left buf end (store m buf pos (load m buf back)) (pos + 1)
      (if back + 1 == end then 0 else back + 1)
      (store_at-IsBytes m buf.region (buf.offset + pos) (load m buf back) h
        (h buf.region (buf.offset + back)))

pub dict_repeat-IsBytes :
    (d : Dictionary) (m : Mem) (len dist : ℕ) → IsBytes m → IsBytes (dict_repeat d m len dist).mem
unfolding dict_repeat
dict_repeat-IsBytes d m len dist h =
    let rounds = do_while_rounds (min (sub32 d.limit d.pos) len) in
    if_has (λ (r : Repeat). IsBytes r.mem) (leb d.full dist || leb d.size dist) (λ _. h)
      (λ _. repeat_loop-IsBytes rounds d.buf d.end m d.pos (dict_offset d dist) h)

-- The frame stays, and the position does not move back.
pub dict_put_keeps :
    (d : Dictionary) (m : Mem) (byte : ℕ)
    → let e = (dict_put d m byte).0 in
      (e.start ≡ d.start)
      × (e.limit ≡ d.limit)
      × (e.end ≡ d.end)
      × (d.pos ≤ e.pos)
      × (e.buf ≡ d.buf)
unfolding dict_put
dict_put_keeps d m byte = (refl, refl, refl, ground arith, refl)

pub dict_repeat_keeps :
    (d : Dictionary) (m : Mem) (len dist : ℕ)
    → let e = (dict_repeat d m len dist).dict in
      (e.start ≡ d.start)
      × (e.limit ≡ d.limit)
      × (e.end ≡ d.end)
      × (d.pos ≤ e.pos)
      × (e.buf ≡ d.buf)
unfolding dict_repeat
dict_repeat_keeps d m len dist =
    let P = λ (r : Repeat).
      (r.dict.start ≡ d.start)
      × (r.dict.limit ≡ d.limit)
      × (r.dict.end ≡ d.end)
      × (d.pos ≤ r.dict.pos)
      × (r.dict.buf ≡ d.buf) in
    if_has P (leb d.full dist || leb d.size dist) (λ _. (refl, refl, refl, omega arith, refl))
      (λ _. (refl, refl, refl, omega arith, refl))

pub dict_limit_keeps :
    (d : Dictionary) (out_max : ℕ)
    → ((dict_limit d out_max).start ≡ d.start) × ((dict_limit d out_max).pos ≡ d.pos)
unfolding dict_limit
dict_limit_keeps d out_max = (refl, refl)

-- A flush hands out what lies between `start` and `pos`, and nothing is left between them.
pub dict_flush_counts :
    (d : Dictionary) (m : Mem) (b : XzBuf)
    → let f = dict_flush d m b in
      (f.count ≡ d.pos - d.start)
      × (f.buf.out_pos ≡ b.out_pos + f.count)
      × (f.buf.out_size ≡ b.out_size)
      × (f.dict.start ≡ f.dict.pos)
unfolding dict_flush
dict_flush_counts d m b = (refl, refl, refl, refl)
