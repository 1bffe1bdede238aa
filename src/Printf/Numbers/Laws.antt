-- ===== src/Printf/Numbers/Laws.antt =====
-- The text of a number, and that it can be read back.
use native.Mathlib.Decide.{dec_lt}
use libos.Prelude.{
  leb, ℕ, zero, suc, ◌+◌, ◌-◌, ◌^◌, ◌<◌, ◌≤◌, ◌≡◌, refl, ap, sym, ◌∙◌, arith, Bool, true, false,
  Option, some, List, [], ◌∷◌, ◌++◌, ltb, lt→ltb, le→ltb, ==_ne, length-append, length-replicate,
  not, ◌==◌, ◌&&◌, if◌then◌else◌, ◌>>=◌, length, replicate, append-nil, append_assoc, Bool-cases,
  inl, inr,
}
use libos.Printf.Output.{Output, printf_string, printf_fill}
use libos.Printf.Output.Laws.{shown, printf_string_lem, printf_fill_lem, take-all}
use libos.Printf.Numbers.{Flags, is_negative, printf_sign, printf_prefix, fill_if}

abbrev pub sign_text : ℕ → Flags → List ℕ
sign_text value flags =
    if flags.num_signed
    then (if leb (2 ^ 63) value
        then b'-' ∷ []
        else if flags.always_sign
        then b'+' ∷ []
        else if flags.leave_blank
        then b' ' ∷ []
        else [])
    else []

abbrev pub prefix_text : ℕ → ℕ → Flags → List ℕ
prefix_text value radix flags =
    if flags.alt_form && not (value == 0) && (radix == 16) then b'0' ∷ b'x' ∷ [] else []

-- Padding up to the field width, on the side that the flags choose.
abbrev pub padding : Bool → ℕ → ℕ → List ℕ
padding here ch n = if here then replicate n ch else []

module _ (buf : List ℕ) (limit : ℕ) (room : limit ≤ length buf) (stream : List ℕ) where
  abbrev Shows : Option (Output × ℕ) → List ℕ → Type 0
  Shows result more = result ≡ some (shown buf limit (stream ++ more), length more)

  nothing_lem : Shows (some (shown buf limit stream, 0)) []
  nothing_lem = ap (λ l. some (shown buf limit l, 0)) (sym (append-nil stream))

  module _ (fits : length stream + 2 < 2 ^ 64) where
    one_lem :
        (ch : ℕ)
        → Shows (do o ← printf_fill (shown buf limit stream) limit ch 1; some (o, 1)) (ch ∷ [])
    one_lem ch = rw (printf_fill_lem buf limit stream ch 1 room (omega arith)) refl

    pub printf_sign_lem :
        (value : ℕ) (flags : Flags)
        → Shows (printf_sign (shown buf limit stream) limit value flags) (sign_text value flags)
    unfolding printf_sign
    printf_sign_lem value flags = elim (Bool-cases flags.num_signed) [
      | inr f ↦ rw f nothing_lem
      | inl t ↦ elim (Bool-cases (is_negative value)) [
        | inl n ↦ rw (t, n) (one_lem b'-')
        | inr n ↦ elim (Bool-cases flags.always_sign) [
          | inl a ↦ rw (t, n, a) (one_lem b'+')
          | inr a ↦ elim (Bool-cases flags.leave_blank) [
            | inl b ↦ rw (t, n, a, b) (one_lem b' ')
            | inr b ↦ rw (t, n, a, b) nothing_lem
          ]
        ]
      ]
    ]

    pub printf_prefix_lem :
        (value radix : ℕ) (flags : Flags)
        → Shows
            (printf_prefix (shown buf limit stream) limit value radix flags)
            (prefix_text value radix flags)
    unfolding printf_prefix
    printf_prefix_lem value radix flags =
        elim (Bool-cases (flags.alt_form && not (value == 0) && (radix == 16))) [
          | inl t ↦
              rw
                (
                  t,
                  printf_string_lem buf limit stream (b'0' ∷ b'x' ∷ []) 2 room (omega arith)
                      (omega arith),
                )
                refl
          | inr f ↦ rw f nothing_lem
        ]

  fill_if_lem :
      (here : Bool) (ch n : ℕ)
      → length stream + n < 2 ^ 64
      → fill_if here (shown buf limit stream) limit ch n
        ≡ some (shown buf limit (stream ++ padding here ch n))
  fill_if_lem true ch n fits = printf_fill_lem buf limit stream ch n room fits
  fill_if_lem false ch n fits = ap (λ l. some (shown buf limit l)) (sym (append-nil stream))

  fill_pad_lem :
      (here : Bool) (ch len fieldwidth : ℕ)
      → length stream + fieldwidth < 2 ^ 64
      → fill_if (here && ltb len fieldwidth) (shown buf limit stream) limit ch (fieldwidth - len)
        ≡ some (shown buf limit (stream ++ padding here ch (fieldwidth - len)))
  fill_pad_lem here ch len fieldwidth fits =
      fill_if_lem (here && ltb len fieldwidth) ch (fieldwidth - len) (omega arith)
      ∙ ap (λ l. some (shown buf limit (stream ++ l))) (same here)
    where
      same :
          (b : Bool)
          → padding (b && ltb len fieldwidth) ch (fieldwidth - len)
            ≡ padding b ch (fieldwidth - len)
      same false = refl
      same true = elim (dec_lt len fieldwidth) [
        | yes p ↦ rw (lt→ltb len fieldwidth p) refl
        | no p ↦
            rw (le→ltb len fieldwidth (omega arith))
              (ap (λ k. replicate k ch) {x = 0} {y = fieldwidth - len} (omega arith))
      ]

  fill_zeros_lem :
      (n : ℕ)
      → length stream + n < 2 ^ 64
      → fill_if (not (n == 0)) (shown buf limit stream) limit b'0' n
        ≡ some (shown buf limit (stream ++ replicate n b'0'))
  fill_zeros_lem zero fits = fill_if_lem false b'0' 0 fits
  fill_zeros_lem (suc n) fits =
      rw (==_ne (suc n) 0 (omega arith)) (fill_if_lem true b'0' (suc n) fits)

-- What stands behind the sign and the prefix.
abbrev pub layout : Flags → List ℕ → ℕ → ℕ → ℕ → List ℕ
layout flags text zeros len fieldwidth =
    padding (not flags.left_justify) (if flags.zero_pad then b'0' else b' ') (fieldwidth - len)
    ++ (replicate zeros b'0' ++ (text ++ padding flags.left_justify b' ' (fieldwidth - len)))

length-padding_le : (b : Bool) (ch n : ℕ) → length (padding b ch n) ≤ n
length-padding_le true ch n = omega (arith, length-replicate n ch)
length-padding_le false ch n = omega arith

pub layout_lem :
    (buf : List ℕ) (limit : ℕ) (stream text : List ℕ) (zeros len fieldwidth : ℕ) (flags : Flags)
    → limit ≤ length buf
    → length stream + (fieldwidth + fieldwidth + zeros + length text) < 2 ^ 64
    → (do
      o₃ ←
          fill_if
            (not flags.left_justify && ltb len fieldwidth)
            (shown buf limit stream)
            limit
            (if flags.zero_pad then b'0' else b' ')
            (fieldwidth - len)
      o₄ ← fill_if (not (zeros == 0)) o₃ limit b'0' zeros
      o₅ ← printf_string o₄ limit text (length text)
      fill_if (flags.left_justify && ltb len fieldwidth) o₅ limit b' ' (fieldwidth - len))
      ≡ some (shown buf limit (stream ++ layout flags text zeros len fieldwidth))
layout_lem buf limit stream text zeros len fieldwidth flags room fits =
    let ch : ℕ = if flags.zero_pad then b'0' else b' ' in
    let left : List ℕ = padding (not flags.left_justify) ch (fieldwidth - len) in
    let nought : List ℕ = replicate zeros b'0' in
    let right : List ℕ = padding flags.left_justify b' ' (fieldwidth - len) in
    let l₁ : length (stream ++ left) ≤ length stream + fieldwidth = omega (
      arith,
      length-append stream left,
      length-padding_le (not flags.left_justify) ch (fieldwidth - len),
    ) in
    let l₂ : length ((stream ++ left) ++ nought) ≤ length stream + fieldwidth + zeros =
      omega (arith, length-append (stream ++ left) nought, length-replicate {A = ℕ} zeros b'0') in
    let l₃ : length (((stream ++ left) ++ nought) ++ text)
        ≤ length stream + fieldwidth + zeros + length text =
      omega (arith, length-append ((stream ++ left) ++ nought) text) in
    rw
      (
        fill_pad_lem buf limit room stream (not flags.left_justify) ch len fieldwidth (omega arith),
        fill_zeros_lem buf limit room (stream ++ left) zeros (omega arith),
        printf_string_lem buf limit ((stream ++ left) ++ nought) text (length text) room
            (omega arith) (omega arith),
        take-all (length text) text (omega arith),
        fill_pad_lem buf limit room (((stream ++ left) ++ nought) ++ text) flags.left_justify b' '
            len fieldwidth (omega arith),
      )
      (ap (λ l. some (shown buf limit l))
        (append_assoc ((stream ++ left) ++ nought) text right
          ∙ append_assoc (stream ++ left) nought (text ++ right)
          ∙ append_assoc stream left (nought ++ (text ++ right))))
