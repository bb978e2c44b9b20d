-- ===== src/Gunzip/File.antt =====
-- A gzip file in memory.
use galaxys2_kernel_repack.Base.{
  ℕ, zero, suc, ◌+◌, ◌-◌, ◌<◌, ◌≡◌, ◌≢◌, refl, sym, ap, ◌∙◌, arith, true, false, ◌==◌, ltb, if_has,
  List, [], ◌∷◌, ◌++◌, All, length, length-append, drop-append, drop-drop, get_or, get_or-drop,
  take, drop,
}
use galaxys2_kernel_repack.Gunzip.{
  Zlib, Caller, Request, Skipped, skip_name, skip_header, has_header, unpack, unpack_buffer,
  inflate_from, first_input, inflate_loop, pass, inflate_some, write_out, judge, z_ok, z_stream_end,
}
use mathlib.Core.Option.{Option, none, some}

-- The first ten bytes, with these flags and the time, the extra flags and the system.
abbrev pub header : ℕ → List ℕ → List ℕ
header flags rest = 0x1f ∷ 0x8b ∷ 0x08 ∷ flags ∷ rest

-- With a file name, or without.
abbrev pub gzip_file : List ℕ → Option (List ℕ) → List ℕ → List ℕ
gzip_file rest none body = header 0 rest ++ body
gzip_file rest (some name) body = header 8 rest ++ (name ++ 0 ∷ body)

abbrev pub name_size : Option (List ℕ) → ℕ
name_size none = 0
name_size (some name) = length name + 1

abbrev pub IsName : Option (List ℕ) → Type 0
IsName none = Unit
IsName (some name) = All (λ (c : ℕ). c ≢ 0) name

drop_one : (i : ℕ) (xs ys : List ℕ) (x : ℕ) → drop i xs ≡ x ∷ ys → drop (i + 1) xs ≡ ys
drop_one zero [] ys x h = absurd (omega (arith, ap length h))
drop_one zero (a ∷ xs) ys x h = ap (drop 1) h
drop_one (suc i) [] ys x h = absurd (omega (arith, ap length h))
drop_one (suc i) (a ∷ xs) ys x h =
    let e : suc i + 1 ≡ suc (i + 1) = omega arith in
    ap (λ (n : ℕ). drop n (a ∷ xs)) e ∙ drop_one i xs ys x h

first_of : (i : ℕ) (xs ys : List ℕ) (x : ℕ) → drop i xs ≡ x ∷ ys → get_or xs i 0 ≡ x
first_of i xs ys x h =
    ap (λ (k : ℕ). get_or xs k 0) (omega arith)
    ∙ sym (get_or-drop i xs 0 0)
    ∙ ap (λ (t : List ℕ). get_or t 0 0) h

-- The loop over a name stops behind its end.
skip_name-name :
    (zbuf : List ℕ) (i : ℕ) (name body : List ℕ)
    → All (λ (c : ℕ). c ≢ 0) name
    → drop i zbuf ≡ name ++ 0 ∷ body
    → skip_name (length (name ++ 0 ∷ body)) zbuf i
      ≡ some (record { next_in = i + (length name + 1); avail_in = length body })
unfolding skip_name
skip_name-name zbuf i [] body h e = rw (first_of i zbuf body 0 e) refl
skip_name-name zbuf i (c ∷ name) body (k, h) e =
    let c' = first_of i zbuf (name ++ 0 ∷ body) c e in
    let rest = skip_name-name zbuf (i + 1) name body h (drop_one i zbuf (name ++ 0 ∷ body) c e) in
    if_has
      (λ (o : Option Skipped).
        o ≡ some (record { next_in = i + (suc (length name) + 1); avail_in = length body }))
      (get_or zbuf i 0 == 0) (λ zero_byte. absurd (k (sym c' ∙ ground (arith, zero_byte))))
      (λ _.
        rest ∙ ap (λ (n : ℕ). some (record { next_in = n; avail_in = length body })) (omega arith))

header_end :
    (flags : ℕ) (rest tail : List ℕ) → length rest ≡ 6 → drop 10 (header flags rest ++ tail) ≡ tail
header_end flags rest tail six =
    ap (λ (n : ℕ). drop n (rest ++ tail)) (sym six) ∙ drop-append rest tail

-- The header is skipped, with the name.
skip_header-gzip_file :
    (rest : List ℕ) (name : Option (List ℕ)) (body : List ℕ)
    → length rest ≡ 6
    → IsName name
    → skip_header (gzip_file rest name body)
      ≡ some (record { next_in = 10 + name_size name; avail_in = length body })
unfolding skip_header
skip_header-gzip_file rest none body six named =
    ap (λ (n : ℕ). some (record { next_in = 10; avail_in = n }))
      (omega (arith, length-append rest body, six))
skip_header-gzip_file rest (some name) body six named =
    let tail = name ++ 0 ∷ body in
    let size : length (header 8 rest ++ tail) - 10 ≡ length tail =
      omega (arith, length-append rest tail, six) in
    ap (λ (n : ℕ). skip_name n (header 8 rest ++ tail) 10) size
    ∙ skip_name-name (header 8 rest ++ tail) 10 name body named (header_end 8 rest tail six)

-- It is a header, and the body follows it.
has_header-gzip_file :
    (rest : List ℕ) (name : Option (List ℕ)) (body : List ℕ)
    → length rest ≡ 6
    → has_header (gzip_file rest name body) ≡ true
has_header-gzip_file rest none body six =
    let long : ltb (length (header 0 rest ++ body)) 10 ≡ false =
      ground (arith, length-append rest body, six) in
    rw long refl
has_header-gzip_file rest (some name) body six =
    let tail = name ++ 0 ∷ body in
    let long : ltb (length (header 8 rest ++ tail)) 10 ≡ false =
      ground (arith, length-append rest tail, six) in
    rw long refl

take_whole : (xs : List ℕ) → take (length xs) xs ≡ xs
take_whole [] = refl
take_whole (x ∷ xs) = ap (λ (t : List ℕ). x ∷ t) (take_whole xs)

drop_name : (name body : List ℕ) → drop (length name + 1) (name ++ 0 ∷ body) ≡ body
drop_name name body =
    sym (drop-drop (length name) 1 (name ++ 0 ∷ body))
    ∙ ap (λ (t : List ℕ). drop 1 t) (drop-append name (0 ∷ body))

body_of :
    (rest : List ℕ) (name : Option (List ℕ)) (body : List ℕ)
    → length rest ≡ 6
    → take (length body) (drop (10 + name_size name) (gzip_file rest name body)) ≡ body
body_of rest none body six =
    ap (λ (t : List ℕ). take (length body) t) (header_end 0 rest body six) ∙ take_whole body
body_of rest (some name) body six =
    let tail = name ++ 0 ∷ body in
    ap (λ (t : List ℕ). take (length body) t)
      (sym (drop-drop 10 (length name + 1) (header 8 rest ++ tail))
        ∙ ap (λ (t : List ℕ). drop (length name + 1) t) (header_end 8 rest tail six)
        ∙ drop_name name body)
    ∙ take_whole body

module _ (z : Zlib) (e : Caller) where
  first_input-given :
      (q : Request) (w : e.World) (zbuf : List ℕ)
      → q.buf ≡ some zbuf
      → has_header zbuf ≡ true
      → first_input z e q w ≡ (zbuf, w)
  unfolding first_input
  first_input-given q w zbuf given has =
      let long : (length zbuf == 0) ≡ false = ground (arith, has) in rw (given, long) refl

  inflate_from-once :
      (fuel : ℕ) (q : Request) (w : e.World) (zbuf : List ℕ) (k : Skipped) (body : List ℕ)
      → q.has_flush ≡ false
      → take k.avail_in (drop k.next_in zbuf) ≡ body
      → (k.avail_in == 0) ≡ false
      → (z.init2).0 ≡ z_ok
      → let r = z.inflate (z.without_window (z.init2).1) body 0x7fffffff in
        r.ret ≡ z_stream_end
        → inflate_from z e (suc fuel) q zbuf w k
          ≡ some (record {
            rc = z_ok;
            message = none;
            pos = some (k.next_in + r.used + 8);
            out = r.output;
            world = w;
          })
  unfolding inflate_from inflate_loop pass inflate_some write_out judge
  inflate_from-once fuel q w zbuf k body no_flush whole more begun done =
      rw (begun, no_flush, inflate_from, inflate_loop, pass, more, inflate_some, whole, done) refl

  after_header :
      (fuel : ℕ) (q : Request) (w : e.World) (zbuf : List ℕ) (k : Skipped)
      → has_header zbuf ≡ true
      → skip_header zbuf ≡ some k
      → unpack_buffer z e fuel q zbuf w ≡ inflate_from z e fuel q zbuf w k
  unfolding unpack_buffer
  after_header fuel q w zbuf k has skipped = rw (has, skipped) refl

  -- If zlib is set up and takes the whole body of a gzip file in memory, which is not empty, in
  -- one call, then `gunzip`, once it has its memory and without `flush`, succeeds in its first
  -- pass, with any name in the header of the file or none: it gives the output of zlib, no
  -- message, and the position behind the trailer of 8 bytes after the part of the body that zlib
  -- used.
  pub unpack-gzip_file :
      (fuel : ℕ) (q : Request) (w : e.World) (rest : List ℕ) (name : Option (List ℕ))
      (body : List ℕ)
      → q.has_flush ≡ false
      → q.buf ≡ some (gzip_file rest name body)
      → length rest ≡ 6
      → IsName name
      → 0 < length body
      → (z.init2).0 ≡ z_ok
      → let r = z.inflate (z.without_window (z.init2).1) body 0x7fffffff in
        r.ret ≡ z_stream_end
        → unpack z e (suc fuel) q w
          ≡ some (record {
            rc = z_ok;
            message = none;
            pos = some (10 + name_size name + r.used + 8);
            out = r.output;
            world = w;
          })
  unfolding unpack
  unpack-gzip_file fuel q w rest name body no_flush given six named some_body begun done =
      let file = gzip_file rest name body in
      let has = has_header-gzip_file rest name body six in
      rw (first_input-given q w file given has) (
        after_header (suc fuel) q w file
          (record { next_in = 10 + name_size name; avail_in = length body }) has
          (skip_header-gzip_file rest name body six named)
        ∙ inflate_from-once fuel q w file
            (record { next_in = 10 + name_size name; avail_in = length body }) body no_flush
            (body_of rest name body six) (ground (arith, some_body)) begun done)
