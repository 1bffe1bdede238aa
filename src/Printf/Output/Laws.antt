-- ===== src/Printf/Output/Laws.antt =====
-- The output as the beginning of a stream of characters that has no bound.
use native.Mathlib.Decide.{dec_lt}
use libos.Prelude.{
  ℕ, zero, suc, ◌+◌, ◌-◌, ◌<◌, ◌≤◌, min, ◌^◌, ◌≡◌, refl, ap, sym, ◌∙◌, arith, some, none, le→leb,
  List, [], ◌∷◌, ◌++◌, lt→ltb, le→ltb, if◌then◌else◌, length, take, replicate, slice, splice, patch,
  patch-patch, splice_lem, length-patch, length-take, length-append, length-replicate,
}
use libos.Prelude.Words.{add64}
use libos.Printf.Output.{Output, olen, printf_string, printf_fill}

-- The buffer `buf` with as much of the stream as its first `limit` bytes hold; the position counts all
-- of the stream.
abbrev pub shown : List ℕ → ℕ → List ℕ → Output
shown buf limit stream = record { buf = patch buf 0 (take limit stream); opos = length stream }

pub take-append_le : (n : ℕ) (xs ys : List ℕ) → n ≤ length xs → take n (xs ++ ys) ≡ take n xs
take-append_le zero xs ys h = refl
take-append_le (suc n) [] ys h = absurd (omega arith)
take-append_le (suc n) (x ∷ xs) ys h = ap (λ l. x ∷ l) (take-append_le n xs ys (omega arith))

pub take-append_ge :
    (n : ℕ) (xs ys : List ℕ) → length xs ≤ n → take n (xs ++ ys) ≡ xs ++ take (n - length xs) ys
take-append_ge n [] ys h = ap (λ k. take k ys) (omega arith)
take-append_ge zero (x ∷ xs) ys h = absurd (omega arith)
take-append_ge (suc n) (x ∷ xs) ys h =
    ap (λ l. x ∷ l) (take-append_ge n xs ys (omega arith))
    ∙ ap (λ k. x ∷ (xs ++ take k ys)) {x = n - length xs} {y = suc n - suc (length xs)}
        (omega arith)

pub take-all : (n : ℕ) (xs : List ℕ) → length xs ≤ n → take n xs ≡ xs
take-all zero [] h = refl
take-all zero (x ∷ xs) h = elim h [ ]
take-all (suc n) [] h = refl
take-all (suc n) (x ∷ xs) h = ap (λ l. x ∷ l) (take-all n xs (omega arith))

pub take-min : (n : ℕ) (xs : List ℕ) → take (min n (length xs)) xs ≡ take n xs
take-min zero xs = ap (λ k. take k xs) {y = 0} (omega arith)
take-min (suc n) [] = ap (λ k. take k []) {y = 0} (omega arith)
take-min (suc n) (x ∷ xs) =
    ap (λ k. take k (x ∷ xs)) {y = suc (min n (length xs))} (omega arith)
    ∙ ap (λ l. x ∷ l) (take-min n xs)

-- Characters that are appended while there is room.
append_lem :
    (buf : List ℕ) (limit : ℕ) (stream more : List ℕ)
    → limit ≤ length buf
    → length stream ≤ limit
    → length stream + length more < 2 ^ 64
    → splice
        (patch buf 0 (take limit stream))
        (length stream)
        (take (olen (length stream) limit (length more)) more)
      ≡ some (patch buf 0 (take limit (stream ++ more)))
append_lem buf limit stream more room below fits =
    let n : ℕ = olen (length stream) limit (length more) in
    let whole : take limit stream ≡ stream = take-all limit stream below in
    let size : length (take n more) ≡ n = ground (arith, length-take n more) in
    let same : length (patch buf 0 stream) ≡ length buf = length-patch buf 0 stream (omega arith) in
    let cut : take n more ≡ take (limit - length stream) more =
      ap (λ k. take k more) (ground arith) ∙ take-min (limit - length stream) more in
    rw whole (
      splice_lem (patch buf 0 stream) (length stream) (take n more) (ground arith)
      ∙ ap (λ k. some (patch (patch buf 0 stream) k (take n more))) {y = 0 + length stream}
          (omega arith)
      ∙ ap some (
          patch-patch buf 0 stream (take n more) (ground arith)
          ∙ ap (λ l. patch buf 0 (stream ++ l)) cut
          ∙ ap (patch buf 0) (sym (take-append_ge limit stream more below))))

full_lem :
    (buf : List ℕ) (limit : ℕ) (stream more : List ℕ)
    → limit ≤ length stream
    → patch buf 0 (take limit stream) ≡ patch buf 0 (take limit (stream ++ more))
full_lem buf limit stream more full = ap (patch buf 0) (sym (take-append_le limit stream more full))

take-take : (n k : ℕ) (xs : List ℕ) → n ≤ k → take n (take k xs) ≡ take n xs
take-take zero k xs h = refl
take-take (suc n) zero xs h = elim h [ ]
take-take (suc n) (suc k) [] h = refl
take-take (suc n) (suc k) (x ∷ xs) h = ap (λ l. x ∷ l) (take-take n k xs (omega arith))

pub slice-take : (xs : List ℕ) (n : ℕ) → n ≤ length xs → slice xs 0 n ≡ some (take n xs)
unfolding slice
slice-take xs n h =
    ap (λ b. if b then some (take n xs) else none) (le→leb (0 + n) (length xs) (omega arith))

longer :
    (stream more : List ℕ) (len : ℕ)
    → length more ≡ len
    → length stream + len < 2 ^ 64
    → add64 (length stream) len ≡ length (stream ++ more)
longer stream more len e fits = omega (arith, length-append stream more)

-- `printf_string` writes the first `len` characters of its source behind the stream, however few of
-- them have room, and nothing outside the first `limit` bytes of the buffer.
pub printf_string_lem :
    (buf : List ℕ) (limit : ℕ) (stream src : List ℕ) (len : ℕ)
    → limit ≤ length buf
    → len ≤ length src
    → length stream + len < 2 ^ 64
    → printf_string (shown buf limit stream) limit src len
      ≡ some (shown buf limit (stream ++ take len src))
unfolding printf_string
printf_string_lem buf limit stream src len room have fits =
    let more : List ℕ = take len src in
    let size : length more ≡ len = omega (arith, length-take len src) in
    let grown = longer stream more len size fits in
    elim (dec_lt (length stream) limit) [
      | yes p ↦
          let n : ℕ = olen (length stream) limit len in
          let same : take n src ≡ take (olen (length stream) limit (length more)) more =
            sym (take-take n len src (ground arith))
            ∙ ap (λ k. take (olen (length stream) limit k) more) (sym size) in
          rw
            (
              lt→ltb _ _ p,
              slice-take src n (ground arith),
              same,
              append_lem buf limit stream more room (omega arith) (omega arith),
            )
            (ap (λ k. some (record { buf = patch buf 0 (take limit (stream ++ more)); opos = k }))
              grown)
      | no p ↦
          rw
            (
              le→ltb (length stream) limit (omega arith),
              full_lem buf limit stream more (omega arith),
            )
            (ap (λ k. some (record { buf = patch buf 0 (take limit (stream ++ more)); opos = k }))
              grown)
    ]

take-replicate : (n k ch : ℕ) → n ≤ k → take n (replicate k ch) ≡ replicate n ch
take-replicate zero k ch h = refl
take-replicate (suc n) zero ch h = elim h [ ]
take-replicate (suc n) (suc k) ch h = ap (λ l. ch ∷ l) (take-replicate n k ch (omega arith))

-- `printf_fill` writes `len` times its character in the same way.
pub printf_fill_lem :
    (buf : List ℕ) (limit : ℕ) (stream : List ℕ) (ch len : ℕ)
    → limit ≤ length buf
    → length stream + len < 2 ^ 64
    → printf_fill (shown buf limit stream) limit ch len
      ≡ some (shown buf limit (stream ++ replicate len ch))
unfolding printf_fill
printf_fill_lem buf limit stream ch len room fits =
    let more : List ℕ = replicate len ch in
    let size : length more ≡ len = length-replicate len ch in
    let grown = longer stream more len size fits in
    elim (dec_lt (length stream) limit) [
      | yes p ↦
          let n : ℕ = olen (length stream) limit len in
          let same : replicate n ch ≡ take (olen (length stream) limit (length more)) more =
            sym (take-replicate n len ch (ground arith))
            ∙ ap (λ k. take (olen (length stream) limit k) more) (sym size) in
          rw (lt→ltb _ _ p, same, append_lem buf limit stream more room (omega arith) (omega arith))
            (ap (λ k. some (record { buf = patch buf 0 (take limit (stream ++ more)); opos = k }))
              grown)
      | no p ↦
          rw
            (
              le→ltb (length stream) limit (omega arith),
              full_lem buf limit stream more (omega arith),
            )
            (ap (λ k. some (record { buf = patch buf 0 (take limit (stream ++ more)); opos = k }))
              grown)
    ]
