-- ===== src/Printf/Format.antt =====
-- `vsnprintf`: the state machine over a format. A character of the format is read to what it asks the
-- output functions for; `perform` calls them.
pub mod Machine
pub mod Refine
pub mod Rest
pub mod Full
use libos.Prelude.{
  ℕ, zero, suc, ◌+◌, ◌-◌, ◌*◌, ◌/◌, ◌%◌, ◌^◌, Bool, true, false, Option, some, none, List, [], ◌∷◌,
  ltb, leb, not, ◌==◌, ◌&&◌, ◌||◌, if◌then◌else◌, ◌>>=◌, min, length, store,
}
use libos.Prelude.Words.{u32, add64, sub64}
use libos.Strings.Measure.{strlen, strnlen}
use libos.Printf.Output.{Output, printf_string, printf_fill}
use libos.Printf.Numbers.{Flags, printf_num}

-- An argument: a slot of 64 bits, or a pointer to a text, `NULL`, or a pointer that `%n` stores through.
pub data Arg : Type 0 where
  number : ℕ → Arg
  text : List ℕ → Arg
  null : Arg
  place : ℕ → Arg

-- The calls of the output functions; `put_char` is `if (opos < size - 1) buf[opos] = c; opos++`.
pub data Action : Type 0 where
  put_char : ℕ → Action
  put_fill : ℕ → ℕ → Action
  put_string : List ℕ → ℕ → Action
  put_num : ℕ → ℕ → ℕ → ℕ → Flags → Action

-- The variables of the loop; `percent` is `state == 1`. A store through a pointer is its place and value.
pub record Parse : Type 0 where
  pub percent : Bool
  pub flags : Flags
  pub radix : ℕ
  pub fieldwidth : ℕ
  pub precision : ℕ
  pub args : List Arg
  pub stores : List (ℕ × ℕ)

abbrev pub no_flags : Flags
no_flags = record {
  alt_form = false;
  zero_pad = false;
  left_justify = false;
  leave_blank = false;
  always_sign = false;
  group_thousands = false;
  long_arg = false;
  long_long_arg = false;
  short_arg = false;
  short_short_arg = false;
  intmax_arg = false;
  ptrdiff_arg = false;
  size_t_arg = false;
  capital_hex = false;
  num_signed = false;
  has_precision = false;
}

-- What a character leads to: calls, the variables after it, and the rest of the format. `none` is an
-- access outside an object, an argument of the wrong kind or a signed overflow.
abbrev pub Outcome : Type 0
Outcome = Option (List Action × (Parse × List ℕ))

abbrev pub is_digit : ℕ → Bool
is_digit c = leb b'0' c && leb c b'9'

unfoldable pub read_digits : ℕ → List ℕ → Option (ℕ × List ℕ)
read_digits n [] = none
read_digits n (c ∷ rest) =
    let n' = n * 10 + (c - b'0') in
    let more = read_digits n' rest in
    if is_digit c then (if leb (2 ^ 31) n' then none else more) else some (n, c ∷ rest)

-- The flag characters and length modifiers.
unfoldable pub modifier : Flags → ℕ → Option Flags
modifier f c =
    if c == b'#'
    then some (record f { alt_form = true })
    else if c == b'-'
    then some (record f { left_justify = true })
    else if c == b' '
    then some (record f { leave_blank = true })
    else if c == b'+'
    then some (record f { always_sign = true })
    else if c == 39
    then some (record f { group_thousands = true })
    else if c == b'l'
    then some (record f { long_arg = true; long_long_arg = f.long_arg || f.long_long_arg })
    else if c == b'h'
    then some (record f { short_arg = true; short_short_arg = f.short_arg || f.short_short_arg })
    else if c == b'j'
    then some (record f { intmax_arg = true })
    else if c == b't'
    then some (record f { ptrdiff_arg = true })
    else if c == b'z'
    then some (record f { size_t_arg = true })
    else none

-- The bits of the type that an integer conversion reads, or that `%n` stores.
unfoldable pub int_width : Flags → ℕ
int_width f =
    if f.intmax_arg || f.long_long_arg
    then 64
    else if f.size_t_arg
    then 64
    else if f.ptrdiff_arg
    then 64
    else if f.long_arg
    then 64
    else if f.short_short_arg
    then 8
    else if f.short_arg
    then 16
    else 32

-- A value of `width` bits as an `int64_t` or as a `uint64_t`.
abbrev pub sign_extend : ℕ → ℕ → ℕ
sign_extend width n =
    if leb (2 ^ (width - 1)) (n % 2 ^ width)
    then 2 ^ 64 - 2 ^ width + n % 2 ^ width
    else n % 2 ^ width

abbrev pub zero_extend : ℕ → ℕ → ℕ
zero_extend width n = n % 2 ^ width

unfoldable pub next_number : List Arg → Option (ℕ × List Arg)
next_number (number n ∷ args) = some (n, args)
next_number (text s ∷ args) = none
next_number (null ∷ args) = none
next_number (place q ∷ args) = none
next_number [] = none

-- The end of a conversion.
abbrev pub finished : Parse → List Arg → Parse
finished p args = record p { percent = false; args = args }

unfoldable pub other : Parse → ℕ → List ℕ → Outcome
other p c rest = some (put_char c ∷ [], (finished p p.args, rest))

-- `*` as field width and after the point.
unfoldable pub star_width : Parse → List ℕ → Outcome
star_width p rest = do
  (n, args) ← next_number p.args
  let w = n % 2 ^ 32
  if w == 2 ^ 31
      then none
      else some (
        [],
        (
          record p {
            args = args;
            fieldwidth = if ltb w (2 ^ 31) then w else 2 ^ 32 - w;
            flags = record p.flags { left_justify = p.flags.left_justify || leb (2 ^ 31) w };
          },
          rest,
        ),
      )

unfoldable pub star_precision : Parse → List ℕ → Outcome
star_precision p rest = do
  (n, args) ← next_number p.args
  let w = n % 2 ^ 32
  some (
    [],
    (
      record p {
        args = args;
        precision = if ltb w (2 ^ 31) then w else 0;
        flags = record p.flags { has_precision = true };
      },
      rest,
    ),
  )

unfoldable pub digit_precision : Parse → List ℕ → Outcome
digit_precision p rest = do
  (n, rest') ← read_digits p.precision rest
  some ([], (record p { precision = n; flags = record p.flags { has_precision = true } }, rest'))

-- `.`, which looks at the character behind it.
unfoldable pub point : Parse → List ℕ → Outcome
point p [] = none
point p (c ∷ rest) = if c == b'*' then star_precision p rest else digit_precision p (c ∷ rest)

unfoldable pub signed_conversion : Parse → List ℕ → Outcome
signed_conversion p rest = do
  (n, args) ← next_number p.args
  let flags' = record p.flags { num_signed = true }
  some (
    put_num (sign_extend (int_width p.flags) n) 10 p.fieldwidth p.precision flags' ∷ [],
    (finished (record p { flags = flags' }) args, rest),
  )

unfoldable pub unsigned_conversion : Parse → ℕ → List ℕ → Outcome
unsigned_conversion p c rest = do
  (n, args) ← next_number p.args
  let flags' = record p.flags { capital_hex = p.flags.capital_hex || c == b'X' }
  let radix' = if c == b'X' || c == b'x' then 18 - 2 else if c == b'o' then p.radix - 2 else p.radix
  some (
    put_num (zero_extend (int_width p.flags) n) radix' p.fieldwidth p.precision flags' ∷ [],
    (finished (record p { flags = flags'; radix = radix' }) args, rest),
  )

-- The argument of `%c` is read only when there is room for it.
unfoldable pub char_conversion : Bool → Parse → List ℕ → Outcome
char_conversion true p rest = do
  (n, args) ← next_number p.args
  some (put_char (n % 2 ^ 8) ∷ [], (finished p args, rest))
char_conversion false p rest = some (put_char 0 ∷ [], (finished p p.args, rest))

unfoldable pub string_argument : List Arg → Option (List ℕ × List Arg)
string_argument (text s ∷ args) = some (s, args)
string_argument (null ∷ args) = some (b'(' ∷ b'n' ∷ b'u' ∷ b'l' ∷ b'l' ∷ b')' ∷ 0 ∷ [], args)
string_argument (number n ∷ args) = none
string_argument (place q ∷ args) = none
string_argument [] = none

abbrev pub blanks_if : Bool → ℕ → List Action → List Action
blanks_if b len acts = if b then put_fill b' ' len ∷ acts else acts

-- The characters of the argument that are printed.
unfoldable pub string_length : Parse → List ℕ → Option ℕ
string_length p s =
    if p.flags.has_precision
    then (do n ← strnlen s p.precision; some (min p.precision n))
    else strlen s

unfoldable pub string_conversion : Parse → List ℕ → Outcome
string_conversion p rest = do
  (s, args) ← string_argument p.args
  len ← string_length p s
  let pad = p.fieldwidth - len
  let narrow = ltb len p.fieldwidth
  some (
    blanks_if (not p.flags.left_justify && narrow) pad
        (put_string s len ∷ blanks_if (p.flags.left_justify && narrow) pad []),
    (finished p args, rest),
  )

-- The place and the value of a store, from the position of the output.
unfoldable pub store_conversion : ℕ → Parse → List ℕ → Outcome
store_conversion opos p rest = elim p.args [
  | [] ↦ none
  | a ∷ args ↦ elim a [
    | place q ↦ some (
      [],
      (
        record (finished p args) { stores = (q, zero_extend (int_width p.flags) opos) ∷ p.stores },
        rest,
      ),
    )
    | number n ↦ none
    | text s ↦ none
    | null ↦ none
  ]
]

-- A pointer that `%p` prints is given as a number.
unfoldable pub pointer_conversion : Parse → List ℕ → Outcome
pointer_conversion p rest = do
  (n, args) ← next_number p.args
  some (put_num n 16 p.fieldwidth p.precision p.flags ∷ [], (finished p args, rest))
