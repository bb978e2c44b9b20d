-- ===== src/Gunzip/Ends.antt =====
-- `gunzip` returns.
use galaxys2_kernel_repack.Base.{
  ℕ, zero, suc, ◌+◌, ◌-◌, ◌^◌, ◌<◌, ◌≤◌, ◌≡◌, ◌≢◌, refl, arith, true, false, ◌==◌, if◌then◌else◌,
  if_has, Bool-cases, inl, inr, List, [], ◌∷◌, length, length-append, take, drop, get_or, bit_and,
  not,
}
use galaxys2_kernel_repack.Malloc.{Heap, malloc, free}
use galaxys2_kernel_repack.Gunzip.{
  Zlib, Caller, Request, Skipped, Unpacked, ZRet, z_ok, is_ok, is_end, Loop, Pass, judge, write_out,
  inflate_some, pass, read, inflate_loop, has_header, skip_header, skip_name, first_input,
  unpack_buffer, inflate_from, refused, header_error, unpack, free_input, free_output,
  output_buffer, input_buffer, inflate_size, Done, gunzip,
}
use mathlib.Core.Option.{Option, none, some}

-- What zlib.h says of `inflate`: it takes no more than its input and writes no more than its
-- room, and `Z_OK` means that it did one or the other.
pub record IsZlib (z : Zlib) : Type 0 where
  pub within : (s : z.Stream) (xs : List ℕ) (room : ℕ) → (z.inflate s xs room).used ≤ length xs
  pub fits : (s : z.Stream) (xs : List ℕ) (room : ℕ) → length (z.inflate s xs room).output ≤ room
  pub progress :
      (s : z.Stream) (xs : List ℕ) (room : ℕ)
      → (z.inflate s xs room).ret ≡ z_ok
      → 0 < (z.inflate s xs room).used + length (z.inflate s xs room).output

pub length-take : (n : ℕ) (xs : List ℕ) → length (take n xs) ≤ n
length-take zero xs = omega arith
length-take (suc n) [] = omega arith
length-take (suc n) (x ∷ xs) = let l = length-take n xs in omega (arith, l)

ok_of : (r : ZRet) → is_ok r ≡ true → r ≡ z_ok
ok_of z_ok h = refl
ok_of _ h = cc

-- A result that is there is passed on.
kept {ℓ κ} :
    {A : Type ℓ} {B : Type κ} (f : A → B) (o : Option A)
    → o ≢ none
    → elim o as (λ _. Option B) [ none ↦ none | some x ↦ some (f x) ] ≢ none
kept f none h = absurd (h refl)
kept f (some x) h = λ wrong. cc

-- The header leaves no more than there was.
abbrev Less : ℕ → Option Skipped → Type 0
Less n none = Unit
Less n (some k) = k.avail_in ≤ n

skip_name-Less : (avail n i : ℕ) (zbuf : List ℕ) → avail ≤ n → Less n (skip_name avail zbuf i)
unfolding skip_name
skip_name-Less zero n i zbuf h = tt
skip_name-Less (suc avail) n i zbuf h =
    if_has (Less n) (get_or zbuf i 0 == 0) (λ _. omega (arith, h))
      (λ _. skip_name-Less avail n (i + 1) zbuf (omega (arith, h)))

skip_header-Less : (zbuf : List ℕ) → Less (length zbuf) (skip_header zbuf)
unfolding skip_header
skip_header-Less zbuf =
    if_has (Less (length zbuf)) (bit_and (get_or zbuf 3 0) 0x8 == 0) (λ _. omega arith)
      (λ _. skip_name-Less (length zbuf - 10) (length zbuf) 10 zbuf (omega arith))

module _ (z : Zlib) (e : Caller) (laws : IsZlib z) where
  -- What is left of the input and of the room.
  abbrev left : Loop z e → ℕ
  left m = m.avail_in + (0x7fffffff - length m.out)

  -- A pass that neither ends with `break` nor with an error.
  abbrev Continues : ℕ → Pass z e → Type 0
  Continues n p = p.breaks ≡ false → is_ok p.loop.rc ≡ true → left p.loop < n

  judge-Continues :
      (n : ℕ) (m : Loop z e) → (is_ok m.rc ≡ true → left m < n) → Continues n (judge z e m)
  unfolding judge
  judge-Continues n m less =
      if_has (Continues n) (is_end m.rc) (λ _ goes ok. cc)
        (λ _. if_has (Continues n) (is_ok m.rc) (λ _ goes ok. less ok) (λ _ goes ok. cc))

  inflate_some-Continues :
      (q : Request) (m : Loop z e) → q.has_flush ≡ false → Continues (left m) (inflate_some z e q m)
  unfolding inflate_some write_out
  inflate_some-Continues q m no_flush =
      let xs = take m.avail_in (drop m.next_in m.zbuf) in
      let room = 0x7fffffff - length m.out in
      let r = z.inflate m.stream xs room in
      let used = laws.within m.stream xs room in
      let fits = laws.fits m.stream xs room in
      let short = length-take m.avail_in (drop m.next_in m.zbuf) in
      let size = length-append m.out r.output in
      rw no_flush (
        judge-Continues (left m) _ (λ ok.
          let some_work = laws.progress m.stream xs room (ok_of r.ret ok) in
          omega (arith, used, fits, short, size, some_work)))

  pass-Continues :
      (q : Request) (m : Loop z e)
      → q.has_fill ≡ false
      → q.has_flush ≡ false
      → Continues (left m) (pass z e q m)
  unfolding pass read
  pass-Continues q m no_fill no_flush =
      if_has (Continues (left m)) (m.avail_in == 0) (λ _. rw no_fill (λ goes ok. cc))
        (λ _. inflate_some-Continues q m no_flush)

  -- Enough fuel: a round for each byte of input or room, and two more.
  inflate_loop-returns :
      (fuel : ℕ) (q : Request) (m : Loop z e)
      → q.has_fill ≡ false
      → q.has_flush ≡ false
      → left m + 1 < fuel
      → inflate_loop z e fuel q m ≢ none
  unfolding inflate_loop
  inflate_loop-returns zero q m no_fill no_flush enough = absurd (omega arith)
  inflate_loop-returns (suc zero) q m no_fill no_flush enough = absurd (omega arith)
  inflate_loop-returns (suc (suc fuel)) q m no_fill no_flush enough =
      let p = pass z e q m in
      let P = λ (o : Option (Loop z e)). o ≢ none in
      if_has P (is_ok m.rc)
        (λ _.
          if_has P p.breaks (λ _ wrong. cc)
            (λ goes. elim (Bool-cases (is_ok p.loop.rc)) [
              | inl ok ↦
                  let less = pass-Continues q m no_fill no_flush goes ok in
                  inflate_loop-returns (suc fuel) q p.loop no_fill no_flush
                    (omega (arith, less, enough))
              | inr stops ↦ rw stops (λ wrong. cc)
            ]))
        (λ _ wrong. cc)

  inflate_from-returns :
      (fuel : ℕ) (q : Request) (zbuf : List ℕ) (w : e.World) (k : Skipped)
      → q.has_fill ≡ false
      → q.has_flush ≡ false
      → k.avail_in + 2 ^ 31 < fuel
      → inflate_from z e fuel q zbuf w k ≢ none
  unfolding inflate_from
  inflate_from-returns fuel q zbuf w k no_fill no_flush enough =
      let m : Loop z e = record {
        rc = (z.init2).0;
        stream = if q.has_flush then (z.init2).1 else z.without_window (z.init2).1;
        zbuf = zbuf;
        next_in = k.next_in;
        avail_in = k.avail_in;
        out = [];
        message = none;
        world = w;
      } in
      kept
        (λ (m : Loop z e). record {
          rc = m.rc;
          message = m.message;
          pos = some (m.next_in + 8);
          out = m.out;
          world = m.world;
        })
        (inflate_loop z e fuel q m)
        (inflate_loop-returns fuel q m no_fill no_flush (omega (arith, enough)))

  unpack_buffer-returns :
      (fuel : ℕ) (q : Request) (zbuf : List ℕ) (w : e.World)
      → q.has_fill ≡ false
      → q.has_flush ≡ false
      → length zbuf + 2 ^ 31 < fuel
      → unpack_buffer z e fuel q zbuf w ≢ none
  unfolding unpack_buffer
  unpack_buffer-returns fuel q zbuf w no_fill no_flush enough =
      if_has (λ (o : Option (Unpacked z e)). o ≢ none) (not (has_header zbuf)) (λ _ wrong. cc)
        (λ _. skipped (skip_header zbuf) (skip_header-Less zbuf))
    where
      skipped :
          (o : Option Skipped)
          → Less (length zbuf) o
          → elim o as (λ _. Option (Unpacked z e)) [
            | none ↦ refused z e none header_error w
            | some k ↦ inflate_from z e fuel q zbuf w k
          ]
            ≢ none
      skipped none h = λ wrong. cc
      skipped (some k) h =
          inflate_from-returns fuel q zbuf w k no_fill no_flush (omega (arith, h, enough))

  -- Without callbacks, the bytes are those of the caller.
  first_input-size :
      (q : Request) (w : e.World) (file : List ℕ)
      → q.has_fill ≡ false
      → q.buf ≡ some file
      → length (first_input z e q w).0 ≤ length file
  unfolding first_input read
  first_input-size q w file no_fill given = rw (given, no_fill) (ground arith)

  -- Without callbacks `gunzip` returns, whatever the file in memory, the heap and the decisions of
  -- zlib are within what zlib.h says: the rounds of its loop are bounded by the bytes of the file
  -- and the 2 ^ 31 - 1 bytes of room.
  pub gunzip-returns :
      (fuel : ℕ) (q : Request) (h : Heap) (w : e.World) (file : List ℕ)
      → q.has_fill ≡ false
      → q.has_flush ≡ false
      → q.buf ≡ some file
      → length file + 2 ^ 31 < fuel
      → gunzip z e fuel q h w ≢ none
  unfolding gunzip unpack
  gunzip-returns fuel q h w file no_fill no_flush given enough =
      let r = first_input z e q w in
      let size = first_input-size q w file no_fill given in
      let body =
        unpack_buffer-returns fuel q r.0 r.1 no_fill no_flush (omega (arith, size, enough)) in
      let P = λ (o : Option (Done z e)). o ≢ none in
      let a = output_buffer q h in
      let b = input_buffer q a.1 in
      let c = malloc b.1 z.stream_size in
      let d = malloc c.1 (inflate_size z e q) in
      if_has P (a.0 == 0) (λ _. answered _)
        (λ _.
          if_has P (b.0 == 0) (λ _. answered _)
            (λ _.
              if_has P (c.0 == 0) (λ _. answered _)
                (λ _.
                  if_has P (d.0 == 0) (λ _. answered _)
                    (λ _.
                      kept
                        (λ (r : Unpacked z e). record {
                          result = r;
                          heap = free_output q (free_input q (free (free d.1)));
                        })
                        (unpack z e fuel q w) body))))
    where
      answered : (d : Done z e) → some d ≢ none
      answered d wrong = cc
