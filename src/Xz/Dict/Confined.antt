-- ===== src/Xz/Dict/Confined.antt =====
-- Which bytes are written: those of the dictionary from `pos` up to the limit.
use galaxys2_kernel_repack.Base.{
  ℕ, zero, suc, ◌+◌, ◌<◌, ◌≤◌, ◌≡◌, ◌≢◌, ◌⊎◌, inl, inr, refl, sym, ◌∙◌, arith, min, leb, ◌||◌, ◌==◌,
  if◌then◌else◌, if_has,
}
use galaxys2_kernel_repack.Base.Bytes.{sub32}
use galaxys2_kernel_repack.Xz.Types.{Region, Mem, Ptr, load, store}
use galaxys2_kernel_repack.Xz.Types.Memory.{store_at_same, store_at_other}
use galaxys2_kernel_repack.Xz.Dict.{
  Dictionary, Repeat, dict_put, dict_repeat, repeat_loop, do_while_rounds, dict_offset,
}
use galaxys2_kernel_repack.Xz.Dict.Invariant.{IsDict, IsLimited}

-- In all of the memory, only the bytes from `low` up to `high` of a buffer differ. Addresses are those
-- of the region, so that the bytes before the buffer are among the others.
pub record Spares (buf : Ptr) (low high : ℕ) (m n : Mem) : Type 0 where
  pub outside :
      (j : ℕ) → (j < buf.offset + low) ⊎ (buf.offset + high ≤ j) → n buf.region j ≡ m buf.region j
  pub others : (r : Region) (j : ℕ) → r ≢ buf.region → n r j ≡ m r j

pub Spares-refl : (buf : Ptr) (low high : ℕ) (m : Mem) → Spares buf low high m m
Spares-refl buf low high m = record { outside = λ j h. refl; others = λ r j h. refl }

-- First one part of the memory, then a part that begins no earlier.
pub Spares-trans :
    {buf : Ptr} {low low' high : ℕ} {m n o : Mem}
    → low ≤ low'
    → Spares buf low high m n
    → Spares buf low' high n o
    → Spares buf low high m o
Spares-trans up h k = record {
  outside = λ j out.
      k.outside j (elim out [ inl p ↦ inl (omega (arith, p, up)) | inr p ↦ inr p ])
      ∙ h.outside j out;
  others = λ r j other. k.others r j other ∙ h.others r j other;
}

store-Spares :
    (buf : Ptr) (low high : ℕ) (m : Mem) (i v : ℕ)
    → low ≤ i
    → i < high
    → Spares buf low high m (store m buf i v)
store-Spares buf low high m i v above below = record {
  outside = λ j out.
      store_at_same m buf.region (buf.offset + i) v j
      ∙ if_has (λ (x : ℕ). x ≡ m buf.region j) (j == buf.offset + i)
          (λ same. absurd (elim out [
            | inl p ↦ ground (arith, same, p, above)
            | inr p ↦ ground (arith, same, p, below)
          ]))
          (λ _. refl);
  others = λ r j other. store_at_other m buf.region r (buf.offset + i) v j (λ e. other (sym e));
}

repeat_loop-Spares :
    (left : ℕ) (buf : Ptr) (end high : ℕ) (m : Mem) (pos back : ℕ)
    → pos + left ≤ high
    → Spares buf pos high m (repeat_loop left buf end m pos back)
unfolding repeat_loop
repeat_loop-Spares zero buf end high m pos back room = Spares-refl buf pos high m
repeat_loop-Spares (suc left) buf end high m pos back room =
    let m' = store m buf pos (load m buf back) in
    Spares-trans (omega arith)
      (store-Spares buf pos high m pos (load m buf back) (omega arith) (omega (arith, room)))
      (repeat_loop-Spares left buf end high m' (pos + 1) (if back + 1 == end then 0 else back + 1)
        (omega (arith, room)))

pub dict_repeat-Spares :
    (d : Dictionary) (m : Mem) (len dist : ℕ)
    → IsDict d
    → IsLimited d
    → d.pos < d.limit
    → 0 < len
    → Spares d.buf d.pos d.limit m (dict_repeat d m len dist).mem
unfolding dict_repeat
dict_repeat-Spares d m len dist h l space some_len =
    let left = min (sub32 d.limit d.pos) len in
    let rounds = do_while_rounds left in
    let few : d.pos + rounds ≤ d.limit =
      ground (arith, l.before, l.within, h.word, space, some_len) in
    if_has (λ (r : Repeat). Spares d.buf d.pos d.limit m r.mem) (leb d.full dist || leb d.size dist)
      (λ _. Spares-refl d.buf d.pos d.limit m)
      (λ _. repeat_loop-Spares rounds d.buf d.end d.limit m d.pos (dict_offset d dist) few)

pub dict_put-Spares :
    (d : Dictionary) (m : Mem) (byte : ℕ)
    → d.pos < d.limit
    → Spares d.buf d.pos d.limit m (dict_put d m byte).1
unfolding dict_put
dict_put-Spares d m byte space = store-Spares d.buf d.pos d.limit m d.pos byte (omega arith) space
