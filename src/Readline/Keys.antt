-- ===== src/Readline/Keys.antt =====
-- The keys: the `switch` of `readline_rx`, and what stands before and behind it.
use libos.Prelude.{
  ℕ, ◌+◌, ◌-◌, ◌*◌, Bool, true, false, Option, some, none, List, [], ◌∷◌, ltb, leb, not, ◌==◌, ◌&&◌,
  ◌||◌, if◌then◌else◌, ◌>>=◌, slice,
}
use libos.Prelude.Words.{u32}
use libos.Readline.{
  Line, chars, State, normal, escape, bracket, numeric, action, Readline, emit, set_cursor_temp,
  set_cursor, hide_line, unhide_line,
}
use libos.Readline.Edit.{Fresh, get_newline, rev_onto, delete_char, backspace, insert_char}

-- The new state, and the command that a key completes, for `rl->action`.
abbrev pub Outcome : Type 0
Outcome = Option (Readline × Option (List ℕ))

abbrev pub plain : Option Readline → Outcome
plain r = r >>= λ rl. some (rl, none)

-- `break` behind a `switch` that ends with `rl->state = st_normal`.
abbrev pub to_normal : Option Readline → Option Readline
to_normal r = r >>= λ rl. some (record rl { state = normal })

-- `if (rl->width) set_cursor(rl, pos)`.
unfoldable pub jump : Readline → ℕ → Option Readline
jump rl pos = if not (rl.width == 0) then set_cursor rl pos else some rl

-- The cursor at the end of the line, before it is left.
unfoldable pub leave_line : Readline → Option Readline
leave_line rl = if rl.line.pos == rl.line.end then some rl else set_cursor_temp rl rl.line.end

abbrev pub cleared : Line → Line
cleared l = record l { pos = 0; end = 0 }

-- The lines after a command: the one that was issued goes to the newest place, and the next one follows.
abbrev pub next_lines : Readline → Fresh → Readline
next_lines rl f =
    let others = rev_onto f.newer f.older in
    elim f.found [
      | none ↦ record rl { older = others; line = cleared rl.line; newer = [] }
      | some l ↦ record rl { older = rl.line ∷ others; line = cleared l; newer = [] }
    ]

-- `'\r'` up to the call of `rl->action`, which gets the text of the line.
unfoldable pub enter : Bool → Readline → Outcome
enter has_room rl = do
  f ← get_newline has_room rl
  r ← leave_line rl
  command ← slice rl.line.buf 0 rl.line.end
  some (record (next_lines (emit r (chars (13 ∷ 10 ∷ []))) f) { state = action }, some command)

-- What follows the call, when it returns 0; it may have suspended the editor.
unfoldable pub finish_action : Readline → Readline
finish_action rl =
    let r = record rl { state = normal } in if rl.suspended then r else emit r (chars rl.prompt)

unfoldable pub normal_key : Bool → Readline → ℕ → Outcome
normal_key has_room rl ch =
    if ch == 27
    then some (record rl { state = escape; num₀ = 0; num₁ = 0; num_idx = 0 }, none)
    else if ch == 13
    then enter has_room rl
    else if ch == 8 || ch == 127
    then plain (backspace has_room rl)
    else if ch == 1
    then plain (jump rl 0)
    else if ch == 5
    then plain (jump rl rl.line.end)
    else if leb 32 ch && leb ch 126
    then plain (insert_char has_room rl ch)
    else some (rl, none)

unfoldable pub escape_key : Readline → ℕ → Readline
escape_key rl ch = record rl { state = if ch == b'[' then bracket else normal }

-- `num:`
unfoldable pub number_digit : Readline → ℕ → Option Readline
number_digit rl ch =
    if rl.num_idx == 0
    then some (record rl { state = numeric; num₀ = u32 (rl.num₀ * 10 + (ch - b'0')) })
    else if rl.num_idx == 1
    then some (record rl { state = numeric; num₁ = u32 (rl.num₁ * 10 + (ch - b'0')) })
    else none

unfoldable pub up_to : Readline → List Line → Option Readline
up_to rl [] = some rl
up_to rl (l ∷ ls) = do
  r ← hide_line rl
  unhide_line (record r { older = ls; line = l; newer = rl.line ∷ rl.newer })

unfoldable pub up : Readline → Option Readline
up rl = up_to rl rl.older

unfoldable pub down_to : Readline → List Line → Option Readline
down_to rl [] = some rl
down_to rl (l ∷ ls) = do
  r ← hide_line rl
  unhide_line (record r { newer = ls; line = l; older = rl.line ∷ rl.older })

unfoldable pub down : Readline → Option Readline
down rl = down_to rl rl.newer

unfoldable pub left : Readline → Option Readline
left rl = if rl.line.pos == 0 || rl.width == 0 then some rl else set_cursor rl (rl.line.pos - 1)

unfoldable pub right : Readline → Option Readline
right rl =
    if rl.line.pos == rl.line.end
    then some rl
    else if rl.width == 0 || not (ltb rl.line.pos rl.line.end)
    then none
    else set_cursor rl (rl.line.pos + 1)

abbrev pub is_digit : ℕ → Bool
is_digit ch = leb b'0' ch && leb ch b'9'

unfoldable pub arrow : Readline → ℕ → Option Readline
arrow rl ch =
    if ch == b'A'
    then up rl
    else if ch == b'B'
    then down rl
    else if ch == b'D'
    then left rl
    else if ch == b'C'
    then right rl
    else if ch == b'H'
    then jump rl 0
    else if ch == b'F'
    then jump rl rl.line.end
    else some rl

unfoldable pub bracket_key : Readline → ℕ → Option Readline
bracket_key rl ch = if is_digit ch then number_digit rl ch else to_normal (arrow rl ch)

-- `'R'`, `'n'` and `'~'`. The texts are `"\0338"` and `"\033[?7h\0337\033[999C\033[6n"`.
unfoldable pub report_width : Readline → Readline
report_width rl =
    if rl.num_idx == 1 then emit (record rl { width = rl.num₁ }) (chars (27 ∷ b'8' ∷ [])) else rl

abbrev pub ask_width : List ℕ
ask_width =
    27 ∷ b'[' ∷ b'?' ∷ b'7' ∷ b'h' ∷ 27 ∷ b'7' ∷ 27 ∷ b'[' ∷ b'9' ∷ b'9' ∷ b'9' ∷ b'C' ∷ 27 ∷ b'['
    ∷ b'6' ∷ b'n' ∷ []

unfoldable pub report_status : Readline → Readline
report_status rl = if rl.num_idx == 0 && rl.num₀ == 0 then emit rl (chars ask_width) else rl

unfoldable pub tilde : Bool → Readline → Option Readline
tilde has_room rl =
    if not (rl.num_idx == 0)
    then some rl
    else if rl.num₀ == 1
    then jump rl 0
    else if rl.num₀ == 3
    then delete_char has_room rl
    else if rl.num₀ == 4
    then jump rl rl.line.end
    else some rl

unfoldable pub numeric_key : Bool → Readline → ℕ → Option Readline
numeric_key has_room rl ch =
    if is_digit ch
    then number_digit rl ch
    else if ch == b';'
    then some (
        if leb 2 rl.num_idx
        then record rl { state = normal }
        else record rl { num_idx = rl.num_idx + 1 })
    else if ch == b'R'
    then some (record (report_width rl) { state = normal })
    else if ch == b'n'
    then some (record (report_status rl) { state = normal })
    else if ch == b'~'
    then to_normal (tilde has_room rl)
    else some (record rl { state = normal })

-- The outer `switch`.
unfoldable pub key_in : State → Bool → Readline → ℕ → Outcome
key_in normal has_room rl ch = normal_key has_room rl ch
key_in escape has_room rl ch = some (escape_key rl ch, none)
key_in bracket has_room rl ch = plain (bracket_key rl ch)
key_in numeric has_room rl ch = plain (numeric_key has_room rl ch)
key_in action has_room rl ch = none

unfoldable pub key_step : Bool → Readline → ℕ → Outcome
key_step has_room rl ch = key_in rl.state has_room rl ch

-- The loop of `readline_rx` over the keys that arrive while nothing else is printed, with the commands that
-- are called. `rl->action` ends the session where it does not return 0.
module _ (quits : List ℕ → Bool) where
  unfoldable pub run : Bool → Readline → List ℕ → Option (Readline × List (List ℕ))
  run has_room rl [] = some (rl, [])
  run has_room rl (ch ∷ keys) = elim (key_step has_room rl ch) [
    | none ↦ none
    | some (rl', command) ↦ elim command [
      | none ↦ run has_room rl' keys
      | some line ↦ elim (quits line) [
        | true ↦ some (rl', line ∷ [])
        | false ↦ (do
          (last, lines) ← run has_room (finish_action rl') keys
          some (last, line ∷ lines))
      ]
    ]
  ]
