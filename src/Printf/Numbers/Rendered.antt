-- ===== src/Printf/Numbers/Rendered.antt =====
-- The whole text that `printf_num` adds to the output.
use libos.Prelude.{
  refl, false, true, Bool, leb, lt→leb, ==_ne, ◌&&◌, ℕ, zero, suc, ◌+◌, ◌/◌, ◌^◌, ◌<◌, ◌≤◌, ◌≡◌, ap,
  sym, ◌∙◌, arith, some, List, ◌++◌, ◌==◌, length, append_assoc, Bool-cases, inl, inr,
  length-append,
}
use libos.Printf.Output.Laws.{shown}
use libos.Printf.Numbers.{Flags, digits, digits_loop, printf_num, precision_zeros, radix_fault}
use libos.Printf.Numbers.Laws.{
  sign_text, prefix_text, layout, layout_lem, printf_sign_lem, printf_prefix_lem,
}

abbrev pub lead : ℕ → ℕ → Flags → List ℕ
lead value radix flags = sign_text value flags ++ prefix_text value radix flags

-- The number of characters without the padding.
abbrev pub bare_length : ℕ → ℕ → ℕ → Flags → ℕ
bare_length value radix precision flags =
    length (digits value radix precision flags)
    + precision_zeros value radix precision (length (digits value radix precision flags)) flags
    + (length (sign_text value flags) + length (prefix_text value radix flags))

-- Sign and prefix, then blanks or zeros up to the field width, then the zeros of the precision, the
-- digits, and blanks when the number stands on the left.
abbrev pub rendered : ℕ → ℕ → ℕ → ℕ → Flags → List ℕ
rendered value radix fieldwidth precision flags =
    lead value radix flags
    ++ layout flags (digits value radix precision flags)
        (precision_zeros value radix precision (length (digits value radix precision flags)) flags)
        (bare_length value radix precision flags) fieldwidth

length-digits_loop_le :
    (rounds uval radix letter : ℕ) (buf : List ℕ)
    → length (digits_loop rounds uval radix letter buf) ≤ rounds + length buf
unfolding digits_loop
length-digits_loop_le zero uval radix letter buf = omega arith
length-digits_loop_le (suc rounds) uval radix letter buf =
    let grown = length-digits_loop_le rounds (uval / radix) radix letter in
    elim (Bool-cases (uval / radix == 0)) [
      | inl t ↦ rw t (omega arith)
      | inr f ↦ rw f (omega (arith, grown _))
    ]

length-digits_le :
    (value radix precision : ℕ) (flags : Flags) → length (digits value radix precision flags) ≤ 65
unfolding digits
length-digits_le value radix precision flags = grind (arith, length-digits_loop_le)

precision_zeros_le :
    (value radix precision len : ℕ) (flags : Flags)
    → precision_zeros value radix precision len flags ≤ precision + 1
precision_zeros_le value radix precision len flags = ground arith

length-sign_text_le : (value : ℕ) (flags : Flags) → length (sign_text value flags) ≤ 1
length-sign_text_le value flags = ground arith

length-prefix_text_le :
    (value radix : ℕ) (flags : Flags) → length (prefix_text value radix flags) ≤ 2
length-prefix_text_le value radix flags = ground arith

zeros_le :
    (value radix precision len : ℕ) (flags : Flags)
    → len + precision_zeros value radix precision len flags ≤ len + 1 + precision
    → len ≤ 65
    → precision + 3 < 2 ^ 31
    → len + precision_zeros value radix precision len flags + 3 < 2 ^ 31
zeros_le value radix precision len flags rough small precise = ground arith

no_fault :
    (value radix precision : ℕ) (flags : Flags)
    → 2 ≤ radix
    → radix_fault value radix precision flags ≡ false
no_fault value radix precision flags lo =
    rw (==_ne radix 0 (omega arith), ==_ne radix 1 (omega arith)) (and_false _)
  where
    and_false : (b : Bool) → b && false ≡ false
    and_false true = refl
    and_false false = refl

-- `printf_num` never writes outside the first `limit` bytes of the buffer. It appends `rendered` to the
-- output, of which the buffer shows what fits, and moves the position by the length of the whole.
pub printf_num-rendered :
    (buf : List ℕ) (limit : ℕ) (stream : List ℕ) (value radix fieldwidth precision : ℕ)
    (flags : Flags)
    → limit ≤ length buf
    → length stream < 2 ^ 63
    → 2 ≤ radix
    → fieldwidth < 2 ^ 31
    → precision + 3 < 2 ^ 31
    → printf_num (shown buf limit stream) limit value radix fieldwidth precision flags
      ≡ some (shown buf limit (stream ++ rendered value radix fieldwidth precision flags))
unfolding printf_num
printf_num-rendered buf limit stream value radix fieldwidth precision flags room small lo wide
      precise =
    let sign : List ℕ = sign_text value flags in
    let prefix : List ℕ = prefix_text value radix flags in
    let text : List ℕ = digits value radix precision flags in
    let zeros : ℕ = precision_zeros value radix precision (length text) flags in
    let l₁ = length-append stream sign in
    let l₂ = length-append (stream ++ sign) prefix in
    let b₁ = length-sign_text_le value flags in
    let b₂ = length-prefix_text_le value radix flags in
    let b₃ = length-digits_le value radix precision flags in
    let b₄ = precision_zeros_le value radix precision (length text) flags in
    let b₅ = zeros_le value radix precision (length text) flags (omega arith) b₃ precise in
    let int : leb (2 ^ 31) (bare_length value radix precision flags) ≡ false =
      lt→leb _ _ (omega arith) in
    rw
      (
        no_fault value radix precision flags lo,
        printf_sign_lem buf limit room stream (omega arith) value flags,
        printf_prefix_lem buf limit room (stream ++ sign) (omega arith) value radix flags,
        int,
        layout_lem buf limit ((stream ++ sign) ++ prefix) text zeros
            (bare_length value radix precision flags) fieldwidth flags room (omega arith),
      )
      (ap (λ l. some (shown buf limit l))
        (append_assoc (stream ++ sign) prefix _
          ∙ append_assoc stream sign _
          ∙ ap (λ l. stream ++ l) (sym (append_assoc sign prefix _))))
