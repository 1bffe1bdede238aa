-- ===== src/Strings/Number/Laws.antt =====
-- What `strtoull` reads from a row of digits.
use native.Mathlib.Decide.{dec_lt}
use libos.Prelude.{
  ◌⊎◌, inl, inr, sym, ap₂, ℕ, suc, ◌+◌, ◌-◌, ◌*◌, ◌%◌, ◌^◌, ◌<◌, ◌≤◌, ◌≡◌, ◌≢◌, refl, ap, ◌∙◌,
  arith, Option, some, none, List, [], ◌∷◌, ◌++◌, map, ltb, le→ltb, ==_ne, if◌then◌else◌, length,
}
use libos.Errors.{Error, invalid}
use libos.Strings.Measure.{c_string}
use libos.Strings.Number.{digit_value, strtoull_loop, strtoull}

-- The character `c` stands for the digit `d`: a numeral, or a letter, small or capital.
abbrev pub IsDigit : ℕ → ℕ → Type 0
IsDigit c d = ((d < 10) × (c ≡ d + b'0')) ⊎ ((10 ≤ d) × ((c + 10 ≡ d + b'a') ⊎ (c + 10 ≡ d + b'A')))

-- A row of characters, each with its digit.
abbrev pub Spelled : ℕ → List (ℕ × ℕ) → Type 0
Spelled base [] = Unit
Spelled base ((c, d) ∷ row) = IsDigit c d × (d < base) × Spelled base row

abbrev pub chars : List (ℕ × ℕ) → List ℕ
chars [] = []
chars ((c, d) ∷ row) = c ∷ chars row

abbrev pub values : List (ℕ × ℕ) → List ℕ
values [] = []
values ((c, d) ∷ row) = d ∷ values row

abbrev pub digit_char : ℕ → ℕ
digit_char d = if ltb d 10 then d + b'0' else d - 10 + b'a'

abbrev pub Digits : ℕ → List ℕ → Type 0
Digits base [] = Unit
Digits base (d ∷ ds) = (d < base) × Digits base ds

-- The number that digits stand for, the highest first, behind a number already read.
abbrev pub from_digits : ℕ → ℕ → List ℕ → ℕ
from_digits base acc [] = acc
from_digits base acc (d ∷ ds) = from_digits base (acc * base + d) ds

digit_value-IsDigit :
    (base c d : ℕ) → 10 ≤ base → base ≤ 36 → d < base → IsDigit c d → digit_value base c ≡ some d
unfolding digit_value
digit_value-IsDigit base c d lo hi h (inl (p, e)) = ground arith
digit_value-IsDigit base c d lo hi h (inr (p, inl e)) = ground arith
digit_value-IsDigit base c d lo hi h (inr (p, inr e)) = ground arith

IsDigit-set : (c d : ℕ) → IsDigit c d → c ≢ 0
IsDigit-set c d (inl (p, e)) = ground arith
IsDigit-set c d (inr (p, inl e)) = ground arith
IsDigit-set c d (inr (p, inr e)) = ground arith

le-from_digits : (base acc : ℕ) (ds : List ℕ) → 1 ≤ base → acc ≤ from_digits base acc ds
le-from_digits base acc [] h = omega arith
le-from_digits base acc (d ∷ ds) h =
    let grows : acc ≤ acc * base = grind arith in
    omega (arith, le-from_digits base (acc * base + d) ds h)

step_lem :
    (base ret used c d : ℕ) (errno : Option Error) (str : List ℕ)
    → 10 ≤ base
    → base ≤ 36
    → IsDigit c d
    → d < base
    → ret * base + d < 2 ^ 64
    → strtoull_loop base ret used errno (c ∷ str)
      ≡ strtoull_loop base (ret * base + d) (used + 1) none str
unfolding strtoull_loop
step_lem base ret used c d errno str lo hi is h fits =
    let grows : ret ≤ ret * base = grind arith in
    let next : ((ret * base) % 2 ^ 64 + d) % 2 ^ 64 ≡ ret * base + d = omega arith in
    rw (
      ==_ne c 0 (IsDigit-set c d is),
      digit_value-IsDigit base c d lo hi h is,
      next,
      le→ltb (ret * base + d) ret (omega arith),
    )

abbrev errno_after : Option Error → List (ℕ × ℕ) → Option Error
errno_after e [] = e
errno_after e (x ∷ row) = none

errno_after-none : (row : List (ℕ × ℕ)) → errno_after none row ≡ none
errno_after-none [] = refl
errno_after-none (x ∷ row) = refl

loop_lem :
    (base ret used : ℕ) (errno : Option Error) (row : List (ℕ × ℕ)) (rest : List ℕ)
    → 10 ≤ base
    → base ≤ 36
    → Spelled base row
    → from_digits base ret (values row) < 2 ^ 64
    → strtoull_loop base ret used errno (chars row ++ rest)
      ≡ strtoull_loop base
          (from_digits base ret (values row))
          (used + length row)
          (errno_after errno row)
          rest
loop_lem base ret used errno [] rest lo hi h fits =
    ap (λ u. strtoull_loop base ret u errno rest) {y = used + 0} (omega arith)
loop_lem base ret used errno ((c, d) ∷ row) rest lo hi (is, below, h) fits =
    let next : ℕ = ret * base + d in
    step_lem base ret used c d errno (chars row ++ rest) lo hi is below
      (omega (arith, le-from_digits base next (values row) (omega arith)))
    ∙ loop_lem base next (used + 1) none row rest lo hi h fits
    ∙ ap
        (λ e.
          strtoull_loop base (from_digits base next (values row)) (used + 1 + length row) e rest)
        (errno_after-none row)
    ∙ ap (λ u. strtoull_loop base (from_digits base next (values row)) u none rest)
        {y = used + suc (length row)} (omega arith)

-- In a base from 10 to 36 a non-empty row of numerals, small and capital letters whose number fits 64 bits is read
-- as that number when the text ends behind it: all digits are used and `errno` is 0.
pub strtoull-from_digits :
    (base : ℕ) (x : ℕ × ℕ) (row : List (ℕ × ℕ)) (rest : List ℕ)
    → 10 ≤ base
    → base ≤ 36
    → Spelled base (x ∷ row)
    → from_digits base 0 (values (x ∷ row)) < 2 ^ 64
    → strtoull base (c_string (chars (x ∷ row)) rest)
      ≡ some (record {
        value = from_digits base 0 (values (x ∷ row));
        used = suc (length row);
        errno = none;
      })
unfolding strtoull
strtoull-from_digits base x row rest lo hi h fits =
    loop_lem base 0 0 (some invalid) (x ∷ row) (0 ∷ rest) lo hi h fits
    ∙ unfold strtoull_loop in
      ap
        (λ u.
          some (record { value = from_digits base 0 (values (x ∷ row)); used = u; errno = none }))
        {x = 0 + suc (length row)} (omega arith)

-- When another character than a digit stands behind the digits, the number that `strtoull` returns
-- is the base times too large (modulo 2 ^ 64), with `errno` 0: the code multiplies before it looks.
pub strtoull_scaled :
    (base : ℕ) (x : ℕ × ℕ) (c : ℕ) (row : List (ℕ × ℕ)) (rest : List ℕ)
    → 10 ≤ base
    → base ≤ 36
    → Spelled base (x ∷ row)
    → from_digits base 0 (values (x ∷ row)) < 2 ^ 64
    → c ≢ 0
    → digit_value base c ≡ none
    → strtoull base (chars (x ∷ row) ++ (c ∷ rest))
      ≡ some (record {
        value = (from_digits base 0 (values (x ∷ row)) * base) % 2 ^ 64;
        used = suc (length row);
        errno = none;
      })
unfolding strtoull
strtoull_scaled base x c row rest lo hi h fits nz bad =
    loop_lem base 0 0 (some invalid) (x ∷ row) (c ∷ rest) lo hi h fits
    ∙ unfold strtoull_loop in
      rw (==_ne c 0 nz, bad)
        (ap
          (λ u. some (record {
            value = (from_digits base 0 (values (x ∷ row)) * base) % 2 ^ 64;
            used = u;
            errno = none;
          }))
          {x = 0 + suc (length row)} (omega arith))

-- Digits written with small letters.
abbrev spell : List ℕ → List (ℕ × ℕ)
spell [] = []
spell (d ∷ ds) = (digit_char d, d) ∷ spell ds

digit_char-IsDigit : (d : ℕ) → IsDigit (digit_char d) d
digit_char-IsDigit d = elim (dec_lt d 10) [
  | yes p ↦ inl (p, ground arith)
  | no p ↦ inr (omega arith, inl (ground arith))
]

chars-spell : (ds : List ℕ) → chars (spell ds) ≡ map digit_char ds
chars-spell [] = refl
chars-spell (d ∷ ds) = ap (λ l. digit_char d ∷ l) (chars-spell ds)

values-spell : (ds : List ℕ) → values (spell ds) ≡ ds
values-spell [] = refl
values-spell (d ∷ ds) = ap (λ l. d ∷ l) (values-spell ds)

length-spell : (ds : List ℕ) → length (spell ds) ≡ length ds
length-spell [] = refl
length-spell (d ∷ ds) = ap suc (length-spell ds)

spell-Spelled : (base : ℕ) (ds : List ℕ) → Digits base ds → Spelled base (spell ds)
spell-Spelled base [] h = tt
spell-Spelled base (d ∷ ds) (below, h) = (digit_char-IsDigit d, below, spell-Spelled base ds h)

pub strtoull-digit_char :
    (base d : ℕ) (ds rest : List ℕ)
    → 10 ≤ base
    → base ≤ 36
    → Digits base (d ∷ ds)
    → from_digits base 0 (d ∷ ds) < 2 ^ 64
    → strtoull base (c_string (map digit_char (d ∷ ds)) rest)
      ≡ some (record { value = from_digits base 0 (d ∷ ds); used = suc (length ds); errno = none })
strtoull-digit_char base d ds rest lo hi h fits =
    let number : from_digits base 0 (values (spell (d ∷ ds))) ≡ from_digits base 0 (d ∷ ds) =
      ap (from_digits base 0) (values-spell (d ∷ ds)) in
    ap (λ l. strtoull base (c_string l rest)) (sym (chars-spell (d ∷ ds)))
    ∙ strtoull-from_digits base (digit_char d, d) (spell ds) rest lo hi
        (spell-Spelled base (d ∷ ds) h) (omega (arith, number))
    ∙ ap₂ (λ (n k : ℕ). some (record { value = n; used = k; errno = none })) number
        (ap suc (length-spell ds))

-- In a base below 10 no character is a digit: every text is refused with `ERR_INVALID` and nothing of
-- it is used.
pub strtoull_small_base :
    (base c : ℕ) (str : List ℕ)
    → base < 10
    → strtoull base (c ∷ str) ≡ some (record { value = 0; used = 0; errno = some invalid })
unfolding strtoull strtoull_loop digit_value
strtoull_small_base base c str h = ground arith
