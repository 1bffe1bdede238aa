-- ===== src/Printf/Format/Machine.antt =====
-- The loop of `vsnprintf` over the format, and its output.
use libos.Prelude.{
  ℕ, zero, suc, ◌-◌, Bool, true, false, Option, some, none, List, [], ◌∷◌, ltb, not, ◌==◌, ◌&&◌,
  ◌||◌, if◌then◌else◌, ◌>>=◌, length, store,
}
use libos.Prelude.Words.{u32, add64, sub64}
use libos.Printf.Output.{Output, printf_string, printf_fill}
use libos.Printf.Numbers.{printf_num}
use libos.Printf.Format.{
  Arg, Action, put_char, put_fill, put_string, put_num, Parse, no_flags, Outcome, is_digit,
  read_digits, modifier, other, star_width, point, signed_conversion, unsigned_conversion,
  char_conversion, string_conversion, store_conversion, pointer_conversion,
}

-- The conversions, and the character that is none.
unfoldable pub conversion : Bool → ℕ → Parse → ℕ → List ℕ → Outcome
conversion room opos p c rest =
    if c == b'd' || c == b'i'
    then signed_conversion p rest
    else if (c == b'X' || c == b'x') || (c == b'o' || c == b'u')
    then unsigned_conversion p c rest
    else if c == b'c'
    then char_conversion room p rest
    else if c == b's'
    then string_conversion p rest
    else if c == b'p'
    then pointer_conversion p rest
    else if c == b'n'
    then store_conversion opos p rest
    else other p c rest

unfoldable pub width_digits : Parse → ℕ → List ℕ → Outcome
width_digits p c rest = do
  (n, rest') ← read_digits p.fieldwidth (c ∷ rest)
  some ([], (record p { fieldwidth = n }, rest'))

-- The inner `switch`, for a character that is no flag and no length modifier.
unfoldable pub unmodified : Bool → ℕ → Parse → ℕ → List ℕ → Outcome
unmodified room opos p c rest =
    if c == b'0' && not p.flags.has_precision
    then some ([], (record p { flags = record p.flags { zero_pad = true } }, rest))
    else if is_digit c
    then (if p.flags.has_precision then other p c rest else width_digits p c rest)
    else if c == b'*'
    then (if not (p.fieldwidth == 0) || p.flags.has_precision
        then other p c rest
        else star_width p rest)
    else if c == b'.'
    then point p rest
    else conversion room opos p c rest

-- The inner `switch`.
unfoldable pub directive : Bool → ℕ → Parse → ℕ → List ℕ → Outcome
directive room opos p c rest = elim (modifier p.flags c) [
  | some f ↦ some ([], (record p { flags = f }, rest))
  | none ↦ unmodified room opos p c rest
]

-- The outer `switch`, with its case 0 apart.
unfoldable pub plain_character : Parse → ℕ → List ℕ → Outcome
plain_character p c rest =
    if c == b'%'
    then some (
      [],
      (
        record p { percent = true; flags = no_flags; radix = 10; fieldwidth = 0; precision = 0 },
        rest,
      ),
    )
    else some (put_char c ∷ [], (p, rest))

unfoldable pub format_step : Bool → ℕ → Parse → ℕ → List ℕ → Outcome
format_step room opos p c rest =
    if p.percent then directive room opos p c rest else plain_character p c rest

-- Where the calls of the output functions go.
pub record Sink (O : Type 0) : Type 0 where
  pub room : O → Bool
  pub count : O → ℕ
  pub perform : O → Action → Option O

module _ {O : Type 0} (sink : Sink O) where
  unfoldable pub perform_all : O → List Action → Option O
  perform_all out [] = some out
  perform_all out (a ∷ acts) = elim (sink.perform out a) [
    | none ↦ none
    | some out' ↦ perform_all out' acts
  ]

  -- The loop, on fuel; each round takes at least one character of the format.
  unfoldable pub format_loop : ℕ → O → Parse → List ℕ → Option (O × Parse)
  format_loop zero out p str = none
  format_loop (suc fuel) out p [] = none
  format_loop (suc fuel) out p (c ∷ rest) = elim (c == 0) [
    | true ↦ some (out, p)
    | false ↦ elim (format_step (sink.room out) (sink.count out) p c rest) [
      | none ↦ none
      | some next ↦ elim (perform_all out next.0) [
        | none ↦ none
        | some out' ↦ format_loop fuel out' next.1.0 next.1.1
      ]
    ]
  ]

abbrev pub start : List Arg → Parse
start args = record {
  percent = false;
  flags = no_flags;
  radix = 10;
  fieldwidth = 0;
  precision = 0;
  args = args;
  stores = [];
}

unfoldable pub printf_char : Output → ℕ → ℕ → Option Output
printf_char out limit c =
    if ltb out.opos limit
    then (do buf' ← store out.buf out.opos c; some (record { buf = buf'; opos = add64 out.opos 1 }))
    else some (record out { opos = add64 out.opos 1 })

unfoldable pub perform : ℕ → Output → Action → Option Output
perform limit out (put_char c) = printf_char out limit c
perform limit out (put_fill c len) = printf_fill out limit c len
perform limit out (put_string s len) = printf_string out limit s len
perform limit out (put_num value radix fieldwidth precision flags) =
    printf_num out limit value radix fieldwidth precision flags

-- The buffer of `vsnprintf`, with `size - 1` as it wraps around.
abbrev pub buffer : ℕ → Sink Output
buffer limit = record {
  room = λ out. ltb out.opos limit;
  count = λ out. out.opos;
  perform = perform limit;
}

-- The NUL at the end.
unfoldable pub terminate : ℕ → Output → Option (List ℕ)
terminate size out =
    if ltb out.opos size
    then store out.buf out.opos 0
    else if ltb 0 size
    then store out.buf (size - 1) 0
    else some out.buf

-- The result, the buffer and the stores of `%n`.
unfoldable pub vsnprintf : List ℕ → ℕ → List ℕ → List Arg → Option (ℕ × (List ℕ × List (ℕ × ℕ)))
vsnprintf buf size str args = do
  (out, p) ←
      format_loop (buffer (sub64 size 1)) (length str) (record { buf = buf; opos = 0 }) (start args)
        str
  buf' ← terminate size out
  some (u32 out.opos, (buf', p.stores))
