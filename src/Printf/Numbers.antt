-- ===== src/Printf/Numbers.antt =====
-- `printf_num`: a number in a radix, with its sign, prefix, precision and field width.
pub mod Laws
pub mod Rendered
pub mod RoundTrip
pub mod Numeral
pub mod Shown
use libos.Prelude.{
  none, ℕ, zero, suc, ◌+◌, ◌-◌, ◌*◌, ◌/◌, ◌%◌, ◌^◌, Bool, true, false, Option, some, List, [], ◌∷◌,
  ltb, leb, not, ◌==◌, ◌&&◌, ◌||◌, if◌then◌else◌, ◌>>=◌, length,
}
use libos.Prelude.Words.{sub64}
use libos.Printf.Output.{Output, printf_string, printf_fill}

-- The bits of `flags`.
pub record Flags : Type 0 where
  pub alt_form : Bool
  pub zero_pad : Bool
  pub left_justify : Bool
  pub leave_blank : Bool
  pub always_sign : Bool
  pub group_thousands : Bool
  pub long_arg : Bool
  pub long_long_arg : Bool
  pub short_arg : Bool
  pub short_short_arg : Bool
  pub intmax_arg : Bool
  pub ptrdiff_arg : Bool
  pub size_t_arg : Bool
  pub capital_hex : Bool
  pub num_signed : Bool
  pub has_precision : Bool

-- An `int64_t` is its bit pattern.
abbrev pub is_negative : ℕ → Bool
is_negative value = leb (2 ^ 63) value

abbrev pub magnitude : Flags → ℕ → ℕ
magnitude flags value = if flags.num_signed && is_negative value then sub64 0 value else value

abbrev pub num_char : ℕ → ℕ → ℕ
num_char letter ch = if ltb ch 10 then ch + b'0' else ch + letter

-- The `do … while (uval)` loop with the characters that stand in `buf` so far; 65 rounds fill `buf`.
unfoldable pub digits_loop : ℕ → ℕ → ℕ → ℕ → List ℕ → List ℕ
digits_loop zero uval radix letter buf = buf
digits_loop (suc rounds) uval radix letter buf =
    let buf' = num_char letter (uval % radix) ∷ buf in
    let rest = digits_loop rounds (uval / radix) radix letter buf' in
    if uval / radix == 0 then buf' else rest

unfoldable pub digits : ℕ → ℕ → ℕ → Flags → List ℕ
digits value radix precision flags =
    let letter = if flags.capital_hex then b'A' - 10 else b'a' - 10 in
    let uval = magnitude flags value in
    if not (uval == 0) || (not flags.has_precision || not (precision == 0))
    then digits_loop 65 uval radix letter []
    else []

-- The sign, with the length that counts against the field width.
unfoldable pub printf_sign : Output → ℕ → ℕ → Flags → Option (Output × ℕ)
printf_sign out limit value flags =
    if flags.num_signed
    then (if is_negative value
        then (do o ← printf_fill out limit b'-' 1; some (o, 1))
        else if flags.always_sign
        then (do o ← printf_fill out limit b'+' 1; some (o, 1))
        else if flags.leave_blank
        then (do o ← printf_fill out limit b' ' 1; some (o, 1))
        else some (out, 0))
    else some (out, 0)

-- The alternative form: the precision that octal numbers get, and the prefix of hexadecimal ones.
abbrev pub octal_precision : ℕ → ℕ → ℕ → ℕ → Flags → Bool
octal_precision value radix precision len flags =
    flags.alt_form
    && not (value == 0)
    && (radix == 8 && (not flags.has_precision || leb precision len))

unfoldable pub printf_prefix : Output → ℕ → ℕ → ℕ → Flags → Option (Output × ℕ)
printf_prefix out limit value radix flags =
    if flags.alt_form && not (value == 0) && (radix == 16)
    then (do o ← printf_string out limit (b'0' ∷ b'x' ∷ []) 2; some (o, 2))
    else some (out, 0)

-- The zeros that the precision demands before `len` digits.
abbrev pub precision_zeros : ℕ → ℕ → ℕ → ℕ → Flags → ℕ
precision_zeros value radix precision len flags =
    if octal_precision value radix precision len flags
    then 1
    else if flags.has_precision && ltb len precision
    then precision - len
    else 0

abbrev pub fill_if : Bool → Output → ℕ → ℕ → ℕ → Option Output
fill_if b out limit ch len = if b then printf_fill out limit ch len else some out

-- The digits in radix 0 divide by zero, and in radix 1 they do not end and overrun `buf`.
abbrev pub radix_fault : ℕ → ℕ → ℕ → Flags → Bool
radix_fault value radix precision flags =
    let uval = magnitude flags value in
    (not (uval == 0) || (not flags.has_precision || not (precision == 0)))
    && (radix == 0 || (radix == 1 && not (uval == 0)))

-- An `int` that overflows.
abbrev pub in_int : {A : Type 0} → ℕ → Option A → Option A
in_int len next = if leb (2 ^ 31) len then none else next

unfoldable pub printf_num : Output → ℕ → ℕ → ℕ → ℕ → ℕ → Flags → Option Output
printf_num out limit value radix fieldwidth precision flags =
    let text = digits value radix precision flags in
    let zeros = precision_zeros value radix precision (length text) flags in
    if radix_fault value radix precision flags then none else (do
      (o₁, sign_len) ← printf_sign out limit value flags
      (o₂, prefix_len) ← printf_prefix o₁ limit value radix flags
      let len = length text + zeros + (sign_len + prefix_len)
      let pad = fieldwidth - len
      in_int len (do
        o₃ ←
            fill_if (not flags.left_justify && ltb len fieldwidth) o₂ limit
              (if flags.zero_pad then b'0' else b' ') pad
        o₄ ← fill_if (not (zeros == 0)) o₃ limit b'0' zeros
        o₅ ← printf_string o₄ limit text (length text)
        fill_if (flags.left_justify && ltb len fieldwidth) o₅ limit b' ' pad))
