-- ===== src/Xz/Vli/Resume.antt =====
-- Decoding across calls: the input may be cut anywhere.
use galaxys2_kernel_repack.Base.{ℕ, ◌+◌, ◌≤◌, ◌<◌, ◌≡◌, refl, ◌∙◌, arith, List, [], ◌∷◌, ◌++◌}
use galaxys2_kernel_repack.Base.{◌==◌, if◌then◌else◌}
use galaxys2_kernel_repack.Xz.Types.{ok}
use galaxys2_kernel_repack.Xz.Vli.{VliStep, add_group, vli_loop, dec_vli}

-- A later call with more input, made only where the earlier one asked for it by `XZ_OK`.
abbrev pub call_again : (List ℕ → ℕ → ℕ → ℕ → VliStep) → VliStep → List ℕ → VliStep
call_again decode r more = elim r.ret [ ok ↦ decode more r.in_pos r.pos r.vli | _ ↦ r ]

vli_loop-append :
    (front back : List ℕ) (in_pos pos vli : ℕ)
    → vli_loop (front ++ back) in_pos pos vli
      ≡ call_again vli_loop (vli_loop front in_pos pos vli) back
unfolding vli_loop
vli_loop-append [] back in_pos pos vli = refl
vli_loop-append (b ∷ front) back in_pos pos vli =
    ground (arith, vli_loop-append front back (in_pos + 1) (pos + 7) (add_group vli b pos))

-- Between calls the shift is not 0 once a byte was taken.
vli_loop-pos :
    (bytes : List ℕ) (in_pos pos vli : ℕ)
    → (vli_loop bytes in_pos pos vli).ret ≡ ok
    → pos ≤ (vli_loop bytes in_pos pos vli).pos
unfolding vli_loop
vli_loop-pos [] in_pos pos vli e = omega arith
vli_loop-pos (b ∷ bytes) in_pos pos vli e =
    ground (arith, vli_loop-pos bytes (in_pos + 1) (pos + 7) (add_group vli b pos))

vli_loop_moved :
    (b : ℕ) (bytes : List ℕ) (in_pos pos vli : ℕ)
    → (vli_loop (b ∷ bytes) in_pos pos vli).ret ≡ ok
    → 0 < (vli_loop (b ∷ bytes) in_pos pos vli).pos
unfolding vli_loop
vli_loop_moved b bytes in_pos pos vli e =
    ground (arith, vli_loop-pos bytes (in_pos + 1) (pos + 7) (add_group vli b pos))

call_again_same :
    (r : VliStep) (more : List ℕ)
    → (r.ret ≡ ok → 0 < r.pos)
    → call_again vli_loop r more ≡ call_again dec_vli r more
unfolding dec_vli
call_again_same r more h = ground arith

-- Cutting the input anywhere does not change what is decoded: a call on the whole equals a call on
-- the front followed, if that returned `XZ_OK`, by a call on the back with the state it left.
-- Any other result of the first call is the result on the whole.
pub dec_vli-append :
    (front back : List ℕ) (in_pos pos vli : ℕ)
    → dec_vli (front ++ back) in_pos pos vli
      ≡ call_again dec_vli (dec_vli front in_pos pos vli) back
unfolding dec_vli
dec_vli-append [] back in_pos pos vli = ground arith
dec_vli-append (b ∷ front) back in_pos pos vli =
    let start : ℕ = if pos == 0 then 0 else vli in
    vli_loop-append (b ∷ front) back in_pos pos start
    ∙ call_again_same (vli_loop (b ∷ front) in_pos pos start) back
        (vli_loop_moved b front in_pos pos start)
