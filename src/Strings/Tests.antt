-- ===== src/Strings/Tests.antt =====
-- Runs of the string functions at fixed inputs.
use libos.Prelude.{refl, inr, ℕ, ◌≡◌, inl, arith, some, none, List, [], ◌∷◌}
use libos.Strings.Measure.{c_string}
use libos.Strings.Copy.{copy_bytes, memcpy, memmove}
use libos.Strings.Copy.Laws.{IsCopied, memmove-IsCopied, memcpy-eq-copy_bytes}
use libos.Strings.Number.{strtoull}
use libos.Strings.Number.Laws.{strtoull-from_digits}

abbrev abc : List ℕ
abc = b'a' ∷ b'b' ∷ b'c' ∷ []

abbrev abd : List ℕ
abd = b'a' ∷ b'b' ∷ b'd' ∷ []

abbrev ten : List ℕ
ten = 1 ∷ 2 ∷ 3 ∷ 4 ∷ 5 ∷ 6 ∷ 7 ∷ 8 ∷ 9 ∷ 10 ∷ []

memmove-IsCopied_example :
    (mem' : List ℕ) × (memmove ten 2 0 5 ≡ some mem') × IsCopied ten 2 0 5 mem'
memmove-IsCopied_example = memmove-IsCopied ten 2 0 5 (omega arith) (omega arith)

memcpy-eq-copy_bytes_example :
    (memcpy ten 0 4 6 ≡ copy_bytes ten 0 4 6)
    × ((mem' : List ℕ) × (memcpy ten 0 4 6 ≡ some mem') × IsCopied ten 0 4 6 mem')
memcpy-eq-copy_bytes_example =
    memcpy-eq-copy_bytes ten 0 4 6 (omega arith) (omega arith) (inl (omega arith))

-- "1fA"
strtoull-from_digits_example :
    strtoull 16 (c_string (b'1' ∷ b'f' ∷ b'A' ∷ []) [])
    ≡ some (record { value = 506; used = 3; errno = none })
strtoull-from_digits_example =
    strtoull-from_digits 16 (b'1', 1) ((b'f', 15) ∷ (b'A', 10) ∷ []) [] (omega arith) (omega arith)
      (
        inl (omega arith, refl),
        omega arith,
        (inr (omega arith, inl refl), omega arith, (inr (omega arith, inr refl), omega arith, tt)),
      )
      (omega arith)
