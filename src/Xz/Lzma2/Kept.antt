-- ===== src/Xz/Lzma2/Kept.antt =====
-- What `lzma2_lzma` leaves alone: the position in the sequence of chunks.
use galaxys2_kernel_repack.Base.{ℕ, ◌+◌, ◌-◌, ◌≡◌, refl, ◌∙◌}
use galaxys2_kernel_repack.Base.{Bool, ltb, leb, ◌==◌, if_has, not, ◌||◌}
use galaxys2_kernel_repack.Xz.Types.{XzBuf, in_size}
use galaxys2_kernel_repack.Xz.Lzma.{lzma_main}
use galaxys2_kernel_repack.Xz.Lzma2.{
  Lzma2, Seq, Feed, goes_on, returns_true, returns_false, with_input, run_temp, temp_room,
  feed_temp, feed_input, keep_rest, and_then, lzma2_lzma, lzma_in_required,
}

abbrev pub place : Lzma2 → Seq × Seq × Bool × Bool
place s = (s.sequence, s.next_sequence, s.need_props, s.need_dict_reset)

abbrev Keeps : Lzma2 → Feed → Type 0
Keeps s r = place r.dec ≡ place s

run_temp-Keeps : (s : Lzma2) (b : XzBuf) (n limit : ℕ) → Keeps s (run_temp s b n limit)
unfolding run_temp
run_temp-Keeps s b n limit =
    let r = lzma_main (with_input s.lzma s.temp_buf 0 limit) in
    let used = r.lzma.rc.in_pos in
    if_has (Keeps s) (not r.done || ltb (s.temp_size + n) used) (λ _. refl)
      (λ _. if_has (Keeps s) (ltb used s.temp_size) (λ _. refl) (λ _. refl))

feed_temp-Keeps : (s : Lzma2) (b : XzBuf) → Keeps s (feed_temp s b)
unfolding feed_temp
feed_temp-Keeps s b =
    let n = temp_room s b in
    let filled = s.temp_size + n in
    if_has (Keeps s) (ltb 0 s.temp_size || s.compressed == 0)
      (λ _.
        if_has (Keeps s) (filled == s.compressed) (λ _. run_temp-Keeps _ b n filled)
          (λ _.
            if_has (Keeps s) (ltb filled lzma_in_required) (λ _. refl)
              (λ _. run_temp-Keeps _ b n (filled - lzma_in_required))))
      (λ _. refl)

feed_input-Keeps : (s : Lzma2) (b : XzBuf) → Keeps s (feed_input s b)
unfolding feed_input
feed_input-Keeps s b =
    if_has (Keeps s) (leb lzma_in_required (in_size b - b.in_pos))
      (λ _. if_has (Keeps s) _ (λ _. refl) (λ _. refl)) (λ _. refl)

keep_rest-Keeps : (s : Lzma2) (b : XzBuf) → Keeps s (keep_rest s b)
unfolding keep_rest
keep_rest-Keeps s b =
    if_has (Keeps s) (ltb (in_size b - b.in_pos) lzma_in_required) (λ _. refl) (λ _. refl)

then-Keeps :
    (s : Lzma2) (r : Feed) (next : Lzma2 → XzBuf → Feed)
    → Keeps s r
    → Keeps r.dec (next r.dec r.buf)
    → Keeps s (and_then r next)
then-Keeps s r next h k =
    elim r.flow
      as (λ f.
        Keeps s (elim f [ goes_on ↦ next r.dec r.buf | returns_true ↦ r | returns_false ↦ r ])) [
          | goes_on ↦ k ∙ h
          | returns_true ↦ h
          | returns_false ↦ h
        ]

pub lzma2_lzma-Keeps : (s : Lzma2) (b : XzBuf) → Keeps s (lzma2_lzma s b)
unfolding lzma2_lzma
lzma2_lzma-Keeps s b =
    let t = feed_temp s b in
    let u = and_then t feed_input in
    then-Keeps s u keep_rest
      (then-Keeps s t feed_input (feed_temp-Keeps s b) (feed_input-Keeps t.dec t.buf))
      (keep_rest-Keeps u.dec u.buf)
