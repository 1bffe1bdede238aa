-- ===== src/Printf/Format/Rest.antt =====
-- Each step of the loop takes the characters of the format that it has read.
use libos.Prelude.{
  ℕ, ◌+◌, ◌-◌, ◌*◌, ◌%◌, ◌^◌, ◌≤◌, ◌≡◌, inl, inr, arith, Bool, true, false, Bool-cases, Option,
  some, none, List, [], ◌∷◌, leb, not, ◌==◌, ◌&&◌, ◌||◌, if◌then◌else◌, ◌>>=◌, length,
}
use libos.Printf.Format.{
  Arg, number, text, null, place, Parse, Outcome, is_digit, read_digits, modifier, other,
  next_number, star_width, star_precision, digit_precision, point, signed_conversion,
  unsigned_conversion, char_conversion, string_conversion, string_argument, string_length,
  store_conversion, pointer_conversion,
}
use libos.Printf.Format.Machine.{
  format_step, plain_character, directive, unmodified, conversion, width_digits,
}
use libos.Printf.Format.Refine.{Option-cases}

-- The rest of the format that an outcome leaves has at most `n` characters.
abbrev pub Leaves : ℕ → Outcome → Type 0
Leaves n none = Unit
Leaves n (some next) = length next.1.1 ≤ n

abbrev pub LeavesDigits : ℕ → Option (ℕ × List ℕ) → Type 0
LeavesDigits n none = Unit
LeavesDigits n (some r) = length r.1 ≤ n

read_digits-LeavesDigits :
    (k : ℕ) (str : List ℕ) (n : ℕ) → length str ≤ n → LeavesDigits n (read_digits k str)
unfolding read_digits
read_digits-LeavesDigits k [] n h = tt
read_digits-LeavesDigits k (c ∷ rest) n h =
    let k' : ℕ = k * 10 + (c - b'0') in
    elim (Bool-cases (is_digit c)) [
      | inr other ↦ rw other h
      | inl digit ↦ elim (Bool-cases (leb (2 ^ 31) k')) [
        | inl large ↦ rw (digit, large) tt
        | inr small ↦ rw (digit, small) (read_digits-LeavesDigits k' rest n (omega arith))
      ]
    ]

bind-Leaves :
    {A : Type 0} (o : Option A) (f : A → Outcome) (n : ℕ)
    → ((a : A) → Leaves n (f a))
    → Leaves n (o >>= f)
bind-Leaves none f n h = tt
bind-Leaves (some a) f n h = h a

digits-Leaves :
    (o : Option (ℕ × List ℕ)) (f : ℕ × List ℕ → Outcome) (n : ℕ)
    → LeavesDigits n o
    → ((a : ℕ × List ℕ) → length a.1 ≤ n → Leaves n (f a))
    → Leaves n (o >>= f)
digits-Leaves none f n small h = tt
digits-Leaves (some a) f n small h = h a small

if-Leaves :
    (b : Bool) (x y : Outcome) (n : ℕ) → Leaves n x → Leaves n y → Leaves n (if b then x else y)
if-Leaves true x y n h k = h
if-Leaves false x y n h k = k

signed_conversion-Leaves :
    (p : Parse) (rest : List ℕ) (n : ℕ) → length rest ≤ n → Leaves n (signed_conversion p rest)
unfolding signed_conversion
signed_conversion-Leaves p rest n h = bind-Leaves (next_number p.args) _ n (λ a. h)

unsigned_conversion-Leaves :
    (p : Parse) (c : ℕ) (rest : List ℕ) (n : ℕ)
    → length rest ≤ n
    → Leaves n (unsigned_conversion p c rest)
unfolding unsigned_conversion
unsigned_conversion-Leaves p c rest n h = bind-Leaves (next_number p.args) _ n (λ a. h)

pointer_conversion-Leaves :
    (p : Parse) (rest : List ℕ) (n : ℕ) → length rest ≤ n → Leaves n (pointer_conversion p rest)
unfolding pointer_conversion
pointer_conversion-Leaves p rest n h = bind-Leaves (next_number p.args) _ n (λ a. h)

char_conversion-Leaves :
    (room : Bool) (p : Parse) (rest : List ℕ) (n : ℕ)
    → length rest ≤ n
    → Leaves n (char_conversion room p rest)
unfolding char_conversion
char_conversion-Leaves true p rest n h = bind-Leaves (next_number p.args) _ n (λ a. h)
char_conversion-Leaves false p rest n h = h

string_conversion-Leaves :
    (p : Parse) (rest : List ℕ) (n : ℕ) → length rest ≤ n → Leaves n (string_conversion p rest)
unfolding string_conversion
string_conversion-Leaves p rest n h =
    bind-Leaves (string_argument p.args) _ n
      (λ a. elim (Option-cases (string_length p a.0)) [ inl e ↦ rw e tt | inr (len, e) ↦ rw e h ])

store_conversion-Leaves :
    (opos : ℕ) (p : Parse) (rest : List ℕ) (n : ℕ)
    → length rest ≤ n
    → Leaves n (store_conversion opos p rest)
unfolding store_conversion
store_conversion-Leaves opos p rest n h = by_args p.args
  where
    by_args : (args : List Arg) → Leaves n (store_conversion opos (record p { args = args }) rest)
    by_args [] = tt
    by_args (number k ∷ args) = tt
    by_args (text s ∷ args) = tt
    by_args (null ∷ args) = tt
    by_args (place q ∷ args) = h

star_width-Leaves :
    (p : Parse) (rest : List ℕ) (n : ℕ) → length rest ≤ n → Leaves n (star_width p rest)
unfolding star_width
star_width-Leaves p rest n h =
    bind-Leaves (next_number p.args) _ n
      (λ a. elim (Bool-cases (a.0 % 2 ^ 32 == 2 ^ 31)) [ inl e ↦ rw e tt | inr e ↦ rw e h ])

width_digits-Leaves :
    (p : Parse) (c : ℕ) (rest : List ℕ) (n : ℕ)
    → length rest ≤ n
    → is_digit c ≡ true
    → Leaves n (width_digits p c rest)
unfolding width_digits read_digits
width_digits-Leaves p c rest n h digit =
    let k' : ℕ = p.fieldwidth * 10 + (c - b'0') in
    rw digit (elim (Bool-cases (leb (2 ^ 31) k')) [
      | inl large ↦ rw large tt
      | inr small ↦ rw small (
          digits-Leaves (read_digits k' rest) _ n (read_digits-LeavesDigits k' rest n h)
            (λ a small. small))
    ])

point-Leaves : (p : Parse) (rest : List ℕ) (n : ℕ) → length rest ≤ n → Leaves n (point p rest)
unfolding point star_precision digit_precision
point-Leaves p [] n h = tt
point-Leaves p (c ∷ rest) n h =
    if-Leaves _ _ _ n (bind-Leaves (next_number p.args) _ n (λ a. omega arith)) (
      digits-Leaves (read_digits p.precision (c ∷ rest)) _ n
        (read_digits-LeavesDigits p.precision (c ∷ rest) n h) (λ a small. small))

conversion-Leaves :
    (room : Bool) (opos : ℕ) (p : Parse) (c : ℕ) (rest : List ℕ) (n : ℕ)
    → length rest ≤ n
    → Leaves n (conversion room opos p c rest)
unfolding conversion other
conversion-Leaves room opos p c rest n h = elim (Bool-cases (c == b'd' || c == b'i')) [
  | inl y ↦ rw (y, conversion) (signed_conversion-Leaves p rest n h)
  | inr e0 ↦ elim (Bool-cases ((c == b'X' || c == b'x') || (c == b'o' || c == b'u'))) [
    | inl y ↦ rw (e0, y, conversion) (unsigned_conversion-Leaves p c rest n h)
    | inr e1 ↦ elim (Bool-cases (c == b'c')) [
      | inl y ↦ rw (e0, e1, y, conversion) (char_conversion-Leaves room p rest n h)
      | inr e2 ↦ elim (Bool-cases (c == b's')) [
        | inl y ↦ rw (e0, e1, e2, y, conversion) (string_conversion-Leaves p rest n h)
        | inr e3 ↦ elim (Bool-cases (c == b'p')) [
          | inl y ↦ rw (e0, e1, e2, e3, y, conversion) (pointer_conversion-Leaves p rest n h)
          | inr e4 ↦ elim (Bool-cases (c == b'n')) [
            | inl y ↦
                rw (e0, e1, e2, e3, e4, y, conversion) (store_conversion-Leaves opos p rest n h)
            | inr e5 ↦ rw (e0, e1, e2, e3, e4, e5, conversion) h
          ]
        ]
      ]
    ]
  ]
]

unmodified-Leaves :
    (room : Bool) (opos : ℕ) (p : Parse) (c : ℕ) (rest : List ℕ) (n : ℕ)
    → length rest ≤ n
    → Leaves n (unmodified room opos p c rest)
unfolding unmodified other
unmodified-Leaves room opos p c rest n h =
    elim (Bool-cases (c == b'0' && not p.flags.has_precision)) [
      | inl y ↦ rw (y, unmodified) h
      | inr e0 ↦ elim (Bool-cases (is_digit c)) [
        | inl y ↦
            rw (e0, y, unmodified)
              (if-Leaves p.flags.has_precision (other p c rest) (width_digits p c rest) n h
                (width_digits-Leaves p c rest n h y))
        | inr e1 ↦ elim (Bool-cases (c == b'*')) [
          | inl y ↦
              rw (e0, e1, y, unmodified)
                (if-Leaves (not (p.fieldwidth == 0) || p.flags.has_precision) (other p c rest)
                  (star_width p rest) n h (star_width-Leaves p rest n h))
          | inr e2 ↦ elim (Bool-cases (c == b'.')) [
            | inl y ↦ rw (e0, e1, e2, y, unmodified) (point-Leaves p rest n h)
            | inr e3 ↦ rw (e0, e1, e2, e3, unmodified) (conversion-Leaves room opos p c rest n h)
          ]
        ]
      ]
    ]

directive-Leaves :
    (room : Bool) (opos : ℕ) (p : Parse) (c : ℕ) (rest : List ℕ) (n : ℕ)
    → length rest ≤ n
    → Leaves n (directive room opos p c rest)
unfolding directive
directive-Leaves room opos p c rest n h = elim (Option-cases (modifier p.flags c)) [
  | inr (f, e) ↦ rw (e, directive) h
  | inl e ↦ rw (e, directive) (unmodified-Leaves room opos p c rest n h)
]

pub format_step-Leaves :
    (room : Bool) (opos : ℕ) (p : Parse) (c : ℕ) (rest : List ℕ)
    → Leaves (length rest) (format_step room opos p c rest)
unfolding format_step plain_character
format_step-Leaves room opos p c rest =
    if-Leaves p.percent (directive room opos p c rest) (plain_character p c rest) (length rest)
      (directive-Leaves room opos p c rest (length rest) (omega arith))
      (elim (Bool-cases (c == b'%')) [ inl y ↦ rw y (omega arith) | inr y ↦ rw y (omega arith) ])
