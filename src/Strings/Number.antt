-- ===== src/Strings/Number.antt =====
-- `strtoull` and `strtoll`. `cpu->errno` is part of the result, `none` for 0; `used` is `*endptr - str`.
pub mod Laws
use libos.Prelude.{
  ℕ, zero, suc, ◌+◌, ◌-◌, ◌*◌, ◌%◌, ◌^◌, Option, some, none, List, [], ◌∷◌, leb, ltb, ◌==◌, ◌&&◌,
  if◌then◌else◌, ◌>>=◌, Bool, true, false,
}
use libos.Prelude.Words.{sub64}
use libos.Prelude.Int.{ℤ, pos, negsuc}
use libos.Errors.{Error, invalid, range}

pub record Parsed : Type 0 where
  pub value : ℕ
  pub used : ℕ
  pub errno : Option Error

-- The value that the code adds for a character, `none` where it breaks off.
unfoldable pub digit_value : ℕ → ℕ → Option ℕ
digit_value base c =
    let max_num_digit = if leb 10 base then b'9' else base - 1 in
    if leb b'0' c && leb c max_num_digit
    then some (c - b'0')
    else if leb b'a' c && ltb (c + 10) (b'a' + base)
    then some (c - b'a' + 10)
    else if leb b'A' c && ltb (c + 10) (b'A' + base)
    then some (c - b'A' + 10)
    else none

-- `ret` is multiplied before the character is looked at.
unfoldable pub strtoull_loop : ℕ → ℕ → ℕ → Option Error → List ℕ → Option Parsed
strtoull_loop base ret used errno [] = none
strtoull_loop base ret used errno (c ∷ str) =
    let scaled = (ret * base) % 2 ^ 64 in
    if c == 0
    then some (record { value = ret; used = used; errno = errno })
    else elim (digit_value base c) [
      | none ↦ some (record { value = scaled; used = used; errno = errno })
      | some d ↦
          let next = (scaled + d) % 2 ^ 64 in
          let rest = strtoull_loop base next (used + 1) none str in
          if ltb next ret
          then some (record { value = 0; used = used; errno = some range })
          else rest
    ]

unfoldable pub strtoull : ℕ → List ℕ → Option Parsed
strtoull base str = strtoull_loop base 0 0 (some invalid) str

pub record Signed : Type 0 where
  pub value : ℤ
  pub used : ℕ
  pub errno : Option Error

-- A 64-bit pattern read as `long long`.
abbrev pub signed64 : ℕ → ℤ
signed64 w = if ltb w (2 ^ 63) then pos w else negsuc (2 ^ 64 - w - 1)

unfoldable pub apply_sign : Bool → Parsed → Signed
apply_sign true r = record {
  value = signed64 (sub64 0 r.value);
  used = r.used + 1;
  errno = if ltb (2 ^ 63) r.value then some range else r.errno;
}
apply_sign false r = record {
  value = signed64 r.value;
  used = r.used;
  errno = if ltb (2 ^ 63 - 1) r.value then some range else r.errno;
}

unfoldable pub finish : Bool → ℕ → Parsed → Signed
finish neg skipped r = elim r.errno [
  | some e ↦ record { value = pos 0; used = skipped + r.used; errno = some e }
  | none ↦ apply_sign neg r
]

unfoldable pub strtoll : ℕ → List ℕ → Option Signed
strtoll base [] = none
strtoll base (c ∷ str) =
    if c == b'-'
    then (do r ← strtoull base str; some (finish true 1 r))
    else (do r ← strtoull base (c ∷ str); some (finish false 0 r))
