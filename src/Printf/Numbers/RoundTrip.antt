-- ===== src/Printf/Numbers/RoundTrip.antt =====
-- The digits of `printf_num` are read back by `strtoull`.
use libos.Prelude.{
  ℕ, suc, ◌-◌, ◌^◌, ◌<◌, ◌≤◌, ◌≡◌, refl, ap, ◌∙◌, arith, false, some, none, List, [], ◌∷◌, map,
  ◌==◌, length, append-nil, Bool-cases, inl, inr,
}
use libos.Strings.Measure.{c_string}
use libos.Strings.Number.{strtoull}
use libos.Strings.Number.Laws.{digit_char, strtoull-digit_char}
use libos.Printf.Numbers.Numeral.{Reads, digits_loop_lem}
use libos.Printf.Numbers.{Flags, digits, digits_loop, magnitude}

length-map : (f : ℕ → ℕ) (ds : List ℕ) → length (map f ds) ≡ length ds
length-map f [] = refl
length-map f (d ∷ ds) = omega (arith, length-map f ds)

read_lem :
    (radix value d : ℕ) (ds text rest : List ℕ)
    → 10 ≤ radix
    → radix ≤ 36
    → value < 2 ^ 64
    → text ≡ map digit_char (d ∷ ds)
    → Reads radix value (d ∷ ds)
    → strtoull radix (c_string text rest)
      ≡ some (record { value = value; used = length text; errno = none })
read_lem radix value d ds text rest lo hi small e (h, v) =
    let size : suc (length ds) ≡ length text =
      omega (arith, ap (λ l. length l) e, length-map digit_char ds) in
    ap (λ l. strtoull radix (c_string l rest)) e
    ∙ strtoull-digit_char radix d ds rest lo hi h (omega (arith, v))
    ∙ ap (λ n. some (record { value = n; used = suc (length ds); errno = none })) v
    ∙ ap (λ n. some (record { value = value; used = n; errno = none })) size

digits-digits_loop :
    (value radix precision : ℕ) (flags : Flags)
    → flags.capital_hex ≡ false
    → flags.has_precision ≡ false
    → digits value radix precision flags
      ≡ digits_loop 65 (magnitude flags value) radix (b'a' - 10) []
unfolding digits
digits-digits_loop value radix precision flags lower free =
    elim (Bool-cases (magnitude flags value == 0)) [
      | inl t ↦ rw (lower, free, t) refl
      | inr f ↦ rw (lower, free, f) refl
    ]

-- The digits that `printf_num` prints of a 64-bit value in a radix from 10 to 36 with small letters, when
-- no precision suppresses them, are read back by `strtoull` in that radix as the magnitude of the value:
-- all are used and `errno` is 0.
pub digits-strtoull :
    (value radix precision : ℕ) (flags : Flags) (rest : List ℕ)
    → value < 2 ^ 64
    → 10 ≤ radix
    → radix ≤ 36
    → flags.capital_hex ≡ false
    → flags.has_precision ≡ false
    → strtoull radix (c_string (digits value radix precision flags) rest)
      ≡ some (record {
        value = magnitude flags value;
        used = length (digits value radix precision flags);
        errno = none;
      })
digits-strtoull value radix precision flags rest small lo hi lower free =
    let size : magnitude flags value < 2 ^ 64 = ground arith in
    let (d, ds, e, reads, leading) =
      digits_loop_lem false 64 (magnitude flags value) radix [] (omega arith) size in
    read_lem radix (magnitude flags value) d ds (digits value radix precision flags) rest lo hi size
      (digits-digits_loop value radix precision flags lower free
        ∙ e
        ∙ append-nil (map digit_char (d ∷ ds)))
      reads
