-- ===== src/Printf/Numbers/Shown.antt =====
-- What `printf_num` prints, in terms of digits in positional notation.
use libos.Prelude.{
  ℕ, ◌+◌, ◌-◌, ◌^◌, ◌<◌, ◌≡◌, ◌⊎◌, Bool, true, false, List, [], ◌∷◌, ◌++◌, map, leb, not, ◌==◌,
  ◌&&◌, if◌then◌else◌, length,
}
use libos.Strings.Number.Laws.{Digits, from_digits}
use libos.Printf.Numbers.{Flags}
use libos.Printf.Numbers.Laws.{sign_text, prefix_text, layout}
use libos.Printf.Numbers.Numeral.{digit_text}

-- The absolute value of a 64-bit pattern.
abbrev pub absolute : ℕ → Flags → ℕ
absolute value flags = if flags.num_signed && leb (2 ^ 63) value then 2 ^ 64 - value else value

-- An explicit precision of 0 leaves the number 0 without digits.
abbrev pub suppressed : ℕ → ℕ → Flags → Bool
suppressed n precision flags = flags.has_precision && (precision == 0 && n == 0)

-- The digits of `n`, the highest first and without a leading zero, unless it is the only one.
abbrev pub Numeral : Bool → ℕ → ℕ → List ℕ → Type 0
Numeral true radix n ds = ds ≡ []
Numeral false radix n [] = ⊥
Numeral false radix n (d ∷ ds) =
    Digits radix (d ∷ ds) × (from_digits radix 0 (d ∷ ds) ≡ n) × ((0 < d) ⊎ (ds ≡ []))

-- The zeros before `len` digits: those up to the precision, and at least one before an octal number in the
-- alternative form.
abbrev pub needed_zeros : ℕ → ℕ → ℕ → ℕ → Flags → ℕ
needed_zeros value radix precision len flags =
    let missing = if flags.has_precision then precision - len else 0 in
    if flags.alt_form && (radix == 8 && (not (value == 0) && missing == 0)) then 1 else missing

-- Sign and prefix, then blanks or zeros up to the field width, then zeros, the digits, and blanks when the number
-- stands on the left.
abbrev pub number_text : ℕ → ℕ → ℕ → ℕ → Flags → List ℕ → List ℕ
number_text value radix fieldwidth precision flags ds =
    let zeros = needed_zeros value radix precision (length ds) flags in
    let bare =
      length ds
      + zeros
      + (length (sign_text value flags) + length (prefix_text value radix flags)) in
    (sign_text value flags ++ prefix_text value radix flags)
    ++ layout flags (map (digit_text flags.capital_hex) ds) zeros bare fieldwidth
