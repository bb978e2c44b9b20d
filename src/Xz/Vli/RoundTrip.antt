-- ===== src/Xz/Vli/RoundTrip.antt =====
-- `dec_vli` against the encoding of the .xz format: it reads exactly the shortest encodings.
use galaxys2_kernel_repack.Base.{ℕ, zero, suc, ◌+◌, ◌*◌, ◌/◌, ◌%◌, ◌^◌, ◌<◌, ◌≤◌, ltb}
use galaxys2_kernel_repack.Base.{
  ◌≡◌, ◌≢◌, refl, ap, ap₂, ◌∙◌, arith, List, [], ◌∷◌, ◌++◌, All, length,
}
use galaxys2_kernel_repack.Base.{if◌then◌else◌, ◌⊎◌, inl, inr}
use galaxys2_kernel_repack.Base.Bytes.{IsByte}
use native.Mathlib.Nat.{div-add-mod', pow-suc, one-le-pow, mul-le-mul_right}
use galaxys2_kernel_repack.Xz.Types.{stream_end, data_error}
use galaxys2_kernel_repack.Xz.Vli.{VliStep, vli_loop, dec_vli}
use galaxys2_kernel_repack.Xz.Vli.Laws.{top_bit, add_group-add, pow_seven}

-- The encoding: groups of seven bits, the lowest first, and the top bit on every byte but the
-- last. The first argument is the number of further bytes that are allowed.
abbrev pub encoding : ℕ → ℕ → List ℕ
encoding zero v = v ∷ []
encoding (suc more) v =
    let rest = encoding more (v / 128) in if ltb v 128 then v ∷ [] else (v % 128 + 128) ∷ rest

split_group : (v p : ℕ) → v * 2 ^ p ≡ v % 128 * 2 ^ p + v / 128 * 2 ^ (p + 7)
split_group v p = rw pow_seven (omega (arith, ap (λ (t : ℕ). t * 2 ^ p) (div-add-mod' v 128)))

grown : (vli w p : ℕ) → vli < 2 ^ p → w < 128 → vli + w * 2 ^ p < 2 ^ (p + 7)
grown vli w p h hw =
    let most : w ≤ 127 = omega arith in omega (arith, pow_seven p, mul-le-mul_right (2 ^ p) most)

-- The last byte of a number: accepted unless it is a needless zero.
last_byte :
    (w in_pos pos vli : ℕ) (rest : List ℕ)
    → w < 128
    → (w ≢ 0) ⊎ (pos ≡ 0)
    → vli < 2 ^ pos
    → pos ≤ 56
    → vli_loop (w ∷ rest) in_pos pos vli
      ≡ record { ret = stream_end; in_pos = in_pos + 1; pos = 0; vli = vli + w * 2 ^ pos }
unfolding vli_loop
last_byte w in_pos pos vli rest hw short hv hp = ground (arith, top_bit w, add_group-add vli w pos)

inner_byte :
    (w in_pos pos vli : ℕ) (rest : List ℕ)
    → w < 128
    → vli < 2 ^ pos
    → pos < 56
    → vli_loop ((w + 128) ∷ rest) in_pos pos vli
      ≡ vli_loop rest (in_pos + 1) (pos + 7) (vli + w * 2 ^ pos)
unfolding vli_loop
inner_byte w in_pos pos vli rest hw hv hp =
    ground (arith, top_bit (w + 128), add_group-add vli (w + 128) pos)

vli_loop-encoding :
    (more v in_pos pos vli : ℕ) (rest : List ℕ)
    → v < 128 ^ suc more
    → pos + 7 * more ≤ 56
    → (v ≢ 0) ⊎ (pos ≡ 0)
    → vli < 2 ^ pos
    → vli_loop (encoding more v ++ rest) in_pos pos vli ≡ record {
      ret = stream_end;
      in_pos = in_pos + length (encoding more v);
      pos = 0;
      vli = vli + v * 2 ^ pos;
    }
vli_loop-encoding zero v in_pos pos vli rest hv hp short h =
    last_byte v in_pos pos vli rest hv short h (omega arith)
vli_loop-encoding (suc more) v in_pos pos vli rest hv hp short h = ground (
  arith,
  last_byte v in_pos pos vli rest,
  inner_byte (v % 128) in_pos pos vli (encoding more (v / 128) ++ rest),
  split_group v pos,
  grown vli (v % 128) pos,
  vli_loop-encoding more (v / 128) (in_pos + 1) (pos + 7) (vli + v % 128 * 2 ^ pos) rest
      (omega arith),
)

-- Reading back: from the encoding of a number below `2 ^ 63`, whatever bytes follow and whatever
-- an earlier number left in `vli`, a fresh call returns `XZ_STREAM_END` with the number, has
-- advanced by the bytes of the encoding, and has set `pos` back to 0.
pub dec_vli-encoding :
    (v in_pos old : ℕ) (rest : List ℕ)
    → v < 2 ^ 63
    → dec_vli (encoding 8 v ++ rest) in_pos 0 old
      ≡ record { ret = stream_end; in_pos = in_pos + length (encoding 8 v); pos = 0; vli = v }
unfolding dec_vli
dec_vli-encoding v in_pos old rest h =
    ground (arith, vli_loop-encoding 8 v in_pos 0 0 rest (omega arith) (omega arith))

encoding_small : (more v : ℕ) → v < 128 → encoding more v ≡ v ∷ []
encoding_small zero v h = refl
encoding_small (suc more) v h = ground arith

encoding_large :
    (more low high : ℕ)
    → low < 128
    → high ≢ 0
    → encoding (suc more) (low + high * 128) ≡ (low + 128) ∷ encoding more high
encoding_large more low high h ne =
    let tail : (low + high * 128) / 128 ≡ high = omega arith in rw tail (ground arith)

-- What an accepted input is: an encoding with something behind it, whose number was added.
record IsAccepted (more pos vli : ℕ) (bytes : List ℕ) (r : VliStep) : Type 0 where
  number : ℕ
  rest : List ℕ
  spelled : bytes ≡ encoding more number ++ rest
  added : r.vli ≡ vli + number * 2 ^ pos
  in_range : number < 128 ^ suc more
  shortest : (number ≢ 0) ⊎ (pos ≡ 0)

accept_last :
    (more b in_pos pos vli : ℕ) (bytes : List ℕ)
    → b < 128
    → pos ≤ 56
    → vli < 2 ^ pos
    → (vli_loop (b ∷ bytes) in_pos pos vli).ret ≡ stream_end
    → IsAccepted more pos vli (b ∷ bytes) (vli_loop (b ∷ bytes) in_pos pos vli)
accept_last more b in_pos pos vli bytes hb hp hv e = record {
  number = b;
  rest = bytes;
  spelled = rw (encoding_small more b hb) refl;
  added = unfold vli_loop in ground (arith, top_bit b, add_group-add vli b pos);
  in_range = omega (arith, pow-suc 128 more, one-le-pow more 128 (omega arith));
  shortest = unfold vli_loop in ground (arith, top_bit b);
}

inner_ok :
    (b in_pos pos vli : ℕ) (bytes : List ℕ)
    → IsByte b
    → 128 ≤ b
    → vli < 2 ^ pos
    → pos < 56
    → vli_loop (b ∷ bytes) in_pos pos vli
      ≡ vli_loop bytes (in_pos + 1) (pos + 7) (vli + b % 128 * 2 ^ pos)
unfolding vli_loop
inner_ok b in_pos pos vli bytes hb large hv hp = ground (arith, top_bit b, add_group-add vli b pos)

-- Nine continued bytes are too many.
last_continued :
    (b in_pos vli : ℕ) (bytes : List ℕ)
    → IsByte b
    → 128 ≤ b
    → (vli_loop (b ∷ bytes) in_pos 56 vli).ret ≡ data_error
unfolding vli_loop
last_continued b in_pos vli bytes hb large = ground (arith, top_bit b)

small_or_large : (b : ℕ) → (b < 128) ⊎ (128 ≤ b)
small_or_large b = omega arith

accept_inner :
    (more b pos vli : ℕ) (bytes : List ℕ) {r : VliStep}
    → IsByte b
    → 128 ≤ b
    → IsAccepted more (pos + 7) (vli + b % 128 * 2 ^ pos) bytes r
    → IsAccepted (suc more) pos vli (b ∷ bytes) r
accept_inner more b pos vli bytes hb large tail = record {
  number = b % 128 + tail.number * 128;
  rest = tail.rest;
  spelled =
      rw (encoding_large more (b % 128) tail.number (omega arith) high)
        (ap₂ ◌∷◌ (omega arith) tail.spelled);
  added = tail.added ∙ rw pow_seven (omega arith);
  in_range = omega (arith, tail.in_range, pow-suc 128 (suc more));
  shortest = inl (λ e. high (omega arith));
}
  where
    high : tail.number ≢ 0
    high = omega (arith, tail.shortest)

vli_loop-IsAccepted :
    (more : ℕ) (bytes : List ℕ) (in_pos pos vli : ℕ)
    → All IsByte bytes
    → pos + 7 * more ≡ 56
    → vli < 2 ^ pos
    → (vli_loop bytes in_pos pos vli).ret ≡ stream_end
    → IsAccepted more pos vli bytes (vli_loop bytes in_pos pos vli)
vli_loop-IsAccepted more [] in_pos pos vli h hp hv e = absurd (unfold vli_loop in cc)
vli_loop-IsAccepted zero (b ∷ bytes) in_pos pos vli (hb, h) hp hv e = elim (small_or_large b) [
  | inl small ↦ accept_last zero b in_pos pos vli bytes small (omega arith) hv e
  | inr large ↦
      let top : pos ≡ 56 = omega arith in
      absurd (cc (rw top at e, last_continued b in_pos vli bytes hb large))
]
vli_loop-IsAccepted (suc more) (b ∷ bytes) in_pos pos vli (hb, h) hp hv e =
    elim (small_or_large b) [
      | inl small ↦ accept_last (suc more) b in_pos pos vli bytes small (omega arith) hv e
      | inr large ↦
          let step = inner_ok b in_pos pos vli bytes hb large hv (omega arith) in
          rw step (
            accept_inner more b pos vli bytes hb large (
              vli_loop-IsAccepted more bytes (in_pos + 1) (pos + 7) (vli + b % 128 * 2 ^ pos) h
                (omega arith) (grown vli (b % 128) pos hv (omega arith)) (rw step at e)))
    ]

-- Only the shortest encodings are accepted: if a fresh call returns `XZ_STREAM_END`, the bytes
-- begin with the encoding of the number that it leaves in `vli`, and that number is below
-- `2 ^ 63`.
pub dec_vli-accepts :
    (bytes : List ℕ) (in_pos old : ℕ)
    → All IsByte bytes
    → (dec_vli bytes in_pos 0 old).ret ≡ stream_end
    → (rest : List ℕ) × (bytes ≡ encoding 8 (dec_vli bytes in_pos 0 old).vli ++ rest)
      × ((dec_vli bytes in_pos 0 old).vli < 2 ^ 63)
unfolding dec_vli
dec_vli-accepts bytes in_pos old h e =
    let a = vli_loop-IsAccepted 8 bytes in_pos 0 0 h (omega arith) (omega arith) e in
    let value : (vli_loop bytes in_pos 0 0).vli ≡ a.number = omega (arith, a.added) in
    (a.rest, rw value a.spelled, omega (arith, a.in_range))
