-- ===== src/Printf/Tests.antt =====
-- Runs of the number output at fixed inputs.
use libos.Prelude.{ℕ, List, ◌≡◌, refl, arith, true, false, some, none, [], ◌∷◌, length}
use libos.Prelude.Words.{sub64}
use libos.Strings.Measure.{c_string}
use libos.Strings.Number.{strtoull}
use libos.Printf.Numbers.{Flags, digits, digits_loop}
use libos.Printf.Numbers.Rendered.{rendered}
use libos.Printf.Numbers.RoundTrip.{digits-strtoull}
use libos.Printf.Format.{
  number, Parse, modifier, signed_conversion, unsigned_conversion, char_conversion, next_number,
  int_width,
}
use libos.Printf.Format.Machine.{
  format_loop, format_step, plain_character, directive, unmodified, conversion, perform_all, start,
}
use libos.Printf.Format.Refine.{described, append}

abbrev plain : Flags
plain = record {
  alt_form = false;
  zero_pad = false;
  left_justify = false;
  leave_blank = false;
  always_sign = false;
  group_thousands = false;
  long_arg = false;
  long_long_arg = false;
  short_arg = false;
  short_short_arg = false;
  intmax_arg = false;
  ptrdiff_arg = false;
  size_t_arg = false;
  capital_hex = false;
  num_signed = false;
  has_precision = false;
}

abbrev signed : Flags
signed = record plain { num_signed = true }

-- "%5d" of -42 has its sign before the blanks.
sign_before_blanks : rendered (sub64 0 42) 10 5 0 signed ≡ b'-' ∷ b' ' ∷ b' ' ∷ b'4' ∷ b'2' ∷ []
unfolding digits digits_loop
sign_before_blanks = refl

digits-strtoull_example :
    strtoull 16 (c_string (digits 48879 16 0 plain) [])
    ≡ some (record { value = 48879; used = length (digits 48879 16 0 plain); errno = none })
digits-strtoull_example =
    digits-strtoull 48879 16 0 plain [] (omega arith) (omega arith) (omega arith) refl refl

-- "n=%d" of 42 and "%c%u" of 120 and 7, with a NUL.
abbrev count_format : List ℕ
count_format = b'n' ∷ b'=' ∷ b'%' ∷ b'd' ∷ 0 ∷ []

abbrev char_format : List ℕ
char_format = b'%' ∷ b'c' ∷ b'%' ∷ b'u' ∷ 0 ∷ []

abbrev after_count : Parse
after_count = record (start []) { flags = signed }

described_count :
    described 3 count_format (number 42 ∷ []) ≡ some (b'n' ∷ b'=' ∷ b'4' ∷ b'2' ∷ [], after_count)
unfolding described format_loop format_step plain_character directive modifier unmodified conversion
    signed_conversion next_number int_width perform_all append digits digits_loop
described_count = refl

-- In a buffer of one byte `%c` leaves its argument to `%u`: the answer is 4, the length of "?120".
char_without_room :
    described 0 char_format (number 120 ∷ number 7 ∷ [])
    ≡ some (0 ∷ b'1' ∷ b'2' ∷ b'0' ∷ [], record (start (number 7 ∷ [])) { flags = plain })
unfolding described format_loop format_step plain_character directive modifier unmodified conversion
    char_conversion unsigned_conversion next_number int_width perform_all append digits digits_loop
char_without_room = refl
