-- ===== src/Printf/Numbers/Numeral.antt =====
-- The digits that the loop of `printf_num` produces.
use native.Mathlib.Nat.{mod-lt, mod-add-div'}
use libos.Prelude.{
  ℕ, zero, suc, ◌+◌, ◌-◌, ◌*◌, ◌/◌, ◌%◌, ◌^◌, ◌<◌, ◌≤◌, ◌≡◌, ◌⊎◌, refl, ap, sym, ◌∙◌, arith, Bool,
  true, false, List, [], ◌∷◌, ◌++◌, map, ltb, ◌==◌, ==_iff, if◌then◌else◌, Bool-cases, inl, inr,
}
use libos.Strings.Number.Laws.{Digits, from_digits}
use libos.Printf.Numbers.{digits_loop, num_char}

-- The character of a digit, with small or capital letters.
abbrev pub digit_text : Bool → ℕ → ℕ
digit_text capital d = if ltb d 10 then d + b'0' else d - 10 + (if capital then b'A' else b'a')

abbrev pub letter_of : Bool → ℕ
letter_of capital = if capital then b'A' - 10 else b'a' - 10

num_char-digit_text :
    (capital : Bool) (d : ℕ) → num_char (letter_of capital) d ≡ digit_text capital d
num_char-digit_text true d = ground arith
num_char-digit_text false d = ground arith

-- The digits `ds` stand for `uval`.
abbrev pub Reads : ℕ → ℕ → List ℕ → Type 0
Reads radix uval ds = Digits radix ds × (from_digits radix 0 ds ≡ uval)

from_digits-append :
    (base acc m : ℕ) (ds : List ℕ)
    → from_digits base acc (ds ++ (m ∷ [])) ≡ from_digits base acc ds * base + m
from_digits-append base acc m [] = refl
from_digits-append base acc m (d ∷ ds) = from_digits-append base (acc * base + d) m ds

Digits-append :
    (base m : ℕ) (ds : List ℕ) → Digits base ds → m < base → Digits base (ds ++ (m ∷ []))
Digits-append base m [] h lt = (lt, tt)
Digits-append base m (d ∷ ds) h lt = (h.0, Digits-append base m ds h.1 lt)

map-snoc :
    (capital : Bool) (m : ℕ) (ds buf : List ℕ)
    → map (digit_text capital) (ds ++ (m ∷ [])) ++ buf
      ≡ map (digit_text capital) ds ++ (digit_text capital m ∷ buf)
map-snoc capital m [] buf = refl
map-snoc capital m (d ∷ ds) buf = ap (λ l. digit_text capital d ∷ l) (map-snoc capital m ds buf)

half_lem : (rounds uval radix : ℕ) → 2 ≤ radix → uval < 2 ^ suc rounds → uval / radix < 2 ^ rounds
half_lem rounds uval radix lo small =
    let whole : uval % radix + uval / radix * radix ≡ uval = mod-add-div' uval radix in
    let twice : uval / radix * 2 ≤ uval / radix * radix = grind arith in omega arith

-- The digits of the loop, the first of which is no zero unless it stands alone.
abbrev pub Loops : Bool → ℕ → ℕ → ℕ → List ℕ → Type 0
Loops capital rounds uval radix buf =
    (d : ℕ) × (ds : List ℕ) × (digits_loop rounds uval radix (letter_of capital) buf
      ≡ map (digit_text capital) (d ∷ ds) ++ buf)
    × Reads radix uval (d ∷ ds)
    × ((0 < d) ⊎ (ds ≡ []))

last_digit :
    (capital : Bool) (rounds uval radix : ℕ) (buf : List ℕ)
    → 2 ≤ radix
    → uval / radix ≡ 0
    → Loops capital (suc rounds) uval radix buf
unfolding digits_loop
last_digit capital rounds uval radix buf lo zero_left =
    let whole : uval % radix + uval / radix * radix ≡ uval = mod-add-div' uval radix in
    let only_digit : 0 * radix + uval % radix ≡ uval =
      ap (λ q. q * radix + uval % radix) (sym zero_left) ∙ omega arith in
    (
      uval % radix,
      [],
      rw (zero_left, num_char-digit_text capital (uval % radix)) refl,
      ((mod-lt uval (omega arith), tt), only_digit),
      inr refl,
    )

none_left : (uval radix : ℕ) → 2 ≤ radix → uval < 1 → uval / radix ≡ 0
none_left uval radix lo small = omega (arith, half_lem 0 uval radix lo (omega arith))

-- A single digit is the number.
single :
    (radix uval d : ℕ) (ds : List ℕ)
    → (uval == 0) ≡ false
    → from_digits radix 0 (d ∷ ds) ≡ uval
    → (0 < d) ⊎ (ds ≡ [])
    → 0 < d
single radix uval d ds some_left v (inl pos) = pos
single radix uval d ds some_left v (inr e) =
    let alone : 0 * radix + d ≡ uval = ap (λ l. from_digits radix 0 (d ∷ l)) (sym e) ∙ v in
    let nought : 0 * radix ≡ 0 = omega arith in ground arith

pub digits_loop_lem :
    (capital : Bool) (rounds uval radix : ℕ) (buf : List ℕ)
    → 2 ≤ radix
    → uval < 2 ^ rounds
    → Loops capital (suc rounds) uval radix buf
unfolding digits_loop
digits_loop_lem capital zero uval radix buf lo small =
    last_digit capital zero uval radix buf lo (none_left uval radix lo small)
digits_loop_lem capital (suc rounds) uval radix buf lo small =
    elim (Bool-cases (uval / radix == 0)) [
      | inl t ↦ last_digit capital (suc rounds) uval radix buf lo ((==_iff _ _).0 t)
      | inr f ↦
          let m : ℕ = uval % radix in
          let below : m < radix = mod-lt uval (omega arith) in
          let (d, ds, e, (h, v), leading) =
            digits_loop_lem capital rounds (uval / radix) radix (digit_text capital m ∷ buf) lo
              (half_lem rounds uval radix lo small) in
          (
            d,
            ds ++ (m ∷ []),
            rw (f, num_char-digit_text capital m) (e ∙ sym (map-snoc capital m (d ∷ ds) buf)),
            (
              Digits-append radix m (d ∷ ds) h below,
              from_digits-append radix 0 m (d ∷ ds)
                  ∙ ap (λ k. k * radix + m) v
                  ∙ omega (arith, mod-add-div' uval radix),
            ),
            inl (single radix (uval / radix) d ds f v leading),
          )
    ]
