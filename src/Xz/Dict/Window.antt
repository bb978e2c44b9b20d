-- ===== src/Xz/Dict/Window.antt =====
-- The dictionary as a sliding window, the byte at distance `k` back being number `k`. The copy of
-- `dict_repeat` is the copy of LZ77, also where it overlaps itself or wraps.
use galaxys2_kernel_repack.Base.{ℕ, zero, suc, ◌+◌, ◌-◌, ◌<◌, ◌≤◌, ◌≡◌, refl, ap, ◌∙◌, arith, min}
use galaxys2_kernel_repack.Base.{◌⊎◌, ◌↔◌, ltb, ◌==◌, if◌then◌else◌, true, false}
use galaxys2_kernel_repack.Base.Bytes.{sub32}
use galaxys2_kernel_repack.Xz.Types.{Ptr, Mem, load, store}
use galaxys2_kernel_repack.Xz.Types.Memory.{load-store}
use galaxys2_kernel_repack.Xz.Dict.{
  Dictionary, dict_offset, dict_get, dict_put, dict_repeat, repeat_loop, raise_full,
  do_while_rounds,
}
use galaxys2_kernel_repack.Xz.Dict.Invariant.{IsDict, IsLimited}

-- Where the byte at distance `k` back stands.
abbrev place : ℕ → ℕ → ℕ → ℕ
place pos end k = if ltb k pos then pos - 1 - k else pos + end - 1 - k

abbrev window_at : Mem → Ptr → ℕ → ℕ → ℕ → ℕ
window_at m buf end pos k = load m buf (place pos end k)

-- The window of a dictionary.
abbrev pub window : Dictionary → Mem → ℕ → ℕ
window d m = window_at m d.buf d.end d.pos

-- A window after one more byte.
abbrev pub push : ℕ → (ℕ → ℕ) → ℕ → ℕ
push byte w zero = byte
push byte w (suc k) = w k

-- A window after a match: `n` times the byte at the distance.
abbrev pub lz_copy : ℕ → ℕ → (ℕ → ℕ) → ℕ → ℕ
lz_copy zero dist w = w
lz_copy (suc n) dist w = lz_copy n dist (push (w dist) w)

dict_offset-place :
    (d : Dictionary) (dist : ℕ)
    → IsDict d
    → dist < d.end
    → dict_offset d dist ≡ place d.pos d.end dist
unfolding dict_offset
dict_offset-place d dist h lt = ground arith

-- One byte stored at `pos` is the newest of the window, and all others are one further back.
window_at-store :
    (m : Mem) (buf : Ptr) (end pos byte k : ℕ)
    → pos < end
    → k < end
    → window_at (store m buf pos byte) buf end (pos + 1) k ≡ push byte (window_at m buf end pos) k
window_at-store m buf end pos byte zero lt hk =
    ground (arith, load-store m buf pos byte (place (pos + 1) end 0))
window_at-store m buf end pos byte (suc k) lt hk =
    ground (arith, load-store m buf pos byte (place (pos + 1) end (suc k)))

lz_copy_agree :
    (n dist end : ℕ) (w v : ℕ → ℕ)
    → dist < end
    → ((k : ℕ) → k < end → w k ≡ v k)
    → (k : ℕ) → k < end
    → lz_copy n dist w k ≡ lz_copy n dist v k
lz_copy_agree zero dist end w v hd h k hk = h k hk
lz_copy_agree (suc n) dist end w v hd h k hk =
    lz_copy_agree n dist end (push (w dist) w) (push (v dist) v) hd agree k hk
  where
    agree : (k : ℕ) → k < end → push (w dist) w k ≡ push (v dist) v k
    agree zero hk = h dist hd
    agree (suc k) hk = h k (omega arith)

next_back :
    (pos end dist : ℕ)
    → pos < end
    → dist < end
    → (if place pos end dist + 1 == end then 0 else place pos end dist + 1)
      ≡ place (pos + 1) end dist
next_back pos end dist hp hd = ground arith

repeat_loop-lz_copy :
    (n : ℕ) (m : Mem) (buf : Ptr) (end pos dist back k : ℕ)
    → pos + n ≤ end
    → dist < end
    → back ≡ place pos end dist
    → k < end
    → window_at (repeat_loop n buf end m pos back) buf end (pos + n) k
      ≡ lz_copy n dist (window_at m buf end pos) k
unfolding repeat_loop
repeat_loop-lz_copy zero m buf end pos dist back k hn hd e hk =
    let same : pos + 0 ≡ pos = omega arith in rw same refl
repeat_loop-lz_copy (suc n) m buf end pos dist back k hn hd e hk =
    let byte = load m buf back in
    let m' = store m buf pos byte in
    let moved : pos + suc n ≡ pos + 1 + n = omega arith in
    let inner =
      repeat_loop-lz_copy n m' buf end (pos + 1) dist (if back + 1 == end then 0 else back + 1) k
        (omega arith) hd (rw e (next_back pos end dist (omega arith) hd)) hk in
    ap
      (λ t.
        window_at (repeat_loop n buf end m' (pos + 1) (if back + 1 == end then 0 else back + 1)) buf
          end t k)
      moved
    ∙ inner
    ∙ lz_copy_agree n dist end (window_at m' buf end (pos + 1))
        (push (window_at m buf end pos dist) (window_at m buf end pos)) hd
        (λ j hj.
          window_at-store m buf end pos byte j (omega arith) hj
          ∙ ap (λ t. push (load m buf t) (window_at m buf end pos) j) e)
        k hk

accepted :
    (d : Dictionary) (m : Mem) (len dist : ℕ)
    → IsDict d
    → IsLimited d
    → d.pos < d.limit
    → 0 < len
    → dist < d.full
    → dist < d.size
    → dict_repeat d m len dist ≡ record {
      done = true;
      dict = raise_full (record d { pos = d.pos + min (d.limit - d.pos) len });
      mem = repeat_loop (min (d.limit - d.pos) len) d.buf d.end m d.pos (place d.pos d.end dist);
      len = len - min (d.limit - d.pos) len;
    }
unfolding dict_repeat
accepted d m len dist h l space some_len near small =
    rw (left, rounds, dict_offset-place d dist h (omega arith)) (ground arith)
  where
    left : sub32 d.limit d.pos ≡ d.limit - d.pos
    left = omega arith

    rounds : do_while_rounds (min (d.limit - d.pos) len) ≡ min (d.limit - d.pos) len
    rounds = ground arith

-- With a valid dictionary, space and something to repeat, a distance inside the window is accepted. The copy takes
-- as many bytes as the limit and the length allow, the rest of the length is left for the next
-- call, and the window afterwards is the LZ77 copy of the window before, for every distance that
-- the dictionary holds.
pub dict_repeat-lz_copy :
    (d : Dictionary) (m : Mem) (len dist k : ℕ)
    → IsDict d
    → IsLimited d
    → d.pos < d.limit
    → 0 < len
    → dist < d.full
    → dist < d.size
    → k < d.end
    → let r = dict_repeat d m len dist in
      let n = min (d.limit - d.pos) len in
      (r.done ≡ true)
      × (r.dict.pos ≡ d.pos + n)
      × (r.len ≡ len - n)
      × (window r.dict r.mem k ≡ lz_copy n dist (window d m) k)
dict_repeat-lz_copy d m len dist k h l space some_len near small hk =
    rw (accepted d m len dist h l space some_len near small) (
      refl,
      refl,
      refl,
      repeat_loop-lz_copy (min (d.limit - d.pos) len) m d.buf d.end d.pos dist
          (place d.pos d.end dist) k (omega arith) (omega arith) refl hk,
    )

-- A distance that reaches behind the data decoded so far, or behind the dictionary size of the
-- Block Header, is refused, and nothing is written; no other distance is.
pub dict_repeat_refuses :
    (d : Dictionary) (m : Mem) (len dist : ℕ)
    → ((dict_repeat d m len dist).done ≡ false) ↔ ((d.full ≤ dist) ⊎ (d.size ≤ dist))
unfolding dict_repeat
dict_repeat_refuses d m len dist = ground arith

-- A byte put into a valid dictionary before its end is the newest of the window and is what `dict_get`
-- reads at distance 0; every other byte is one further back.
pub dict_put-push :
    (d : Dictionary) (m : Mem) (byte k : ℕ)
    → IsDict d
    → d.pos < d.end
    → k < d.end
    → (dict_get (dict_put d m byte).0 (dict_put d m byte).1 0 ≡ byte)
      × (window (dict_put d m byte).0 (dict_put d m byte).1 k ≡ push byte (window d m) k)
unfolding dict_put
dict_put-push d m byte k h lt hk = (
  unfold dict_get dict_offset in ground (arith, load-store m d.buf d.pos byte d.pos),
  window_at-store m d.buf d.end d.pos byte k lt hk,
)
