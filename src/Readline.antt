-- ===== src/Readline.antt =====
-- lib/readline.c: the line editor's state and what it draws. The lines are a list with a place in it:
-- those before `rl->line`, nearest first, and those behind it. `none` is a failed `assert`, an access
-- outside an object or a division by zero.
pub mod Edit
pub mod Keys
pub mod Draw
pub mod Text
pub mod History
pub mod Editing
pub mod Safe
pub mod Commands
pub mod Total
pub mod Screen
pub mod Typing
pub mod Faults
pub mod Tests
use libos.Prelude.{
  ℕ, zero, suc, ◌+◌, ◌-◌, ◌*◌, ◌/◌, ◌%◌, ◌^◌, Bool, true, false, Option, some, none, List, [], ◌∷◌,
  ◌++◌, ltb, leb, not, ◌==◌, ◌&&◌, ◌||◌, if◌then◌else◌, ◌>>=◌, length, take, drop, replicate, slice,
}

-- `line_t` without its links.
pub record Line : Type 0 where
  pub pos : ℕ
  pub end : ℕ
  pub buf : List ℕ

abbrev pub line_size : ℕ
line_size = 256

-- What `alloc_type` gives.
abbrev pub new_line : Line
new_line = record { pos = 0; end = 0; buf = replicate 256 0 }

pub data State : Type 0 where
  normal escape bracket numeric action : State

-- What is given to `rl->out`, which drops what it has no room for: bytes, and the two escape sequences
-- that `set_cursor_temp` makes with `snprintf`.
pub data Output : Type 0 where
  chars : List ℕ → Output
  vertical : Bool → ℕ → Output
  column : ℕ → Output

-- `struct readline`, without the thread, the callback and the lock. `num` past its two elements is a fault.
pub record Readline : Type 0 where
  pub prompt : List ℕ
  pub older : List Line
  pub line : Line
  pub newer : List Line
  pub state : State
  pub num₀ : ℕ
  pub num₁ : ℕ
  pub num_idx : ℕ
  pub width : ℕ
  pub suspended : Bool
  pub out : List Output

abbrev pub emit : Readline → Output → Readline
emit rl o = record rl { out = rl.out ++ (o ∷ []) }

unfoldable pub line_at : Readline → ℕ → ℕ
line_at rl pos = (pos + length rl.prompt) / rl.width

unfoldable pub column_at : Readline → ℕ → ℕ
column_at rl pos = (pos + length rl.prompt) % rl.width

-- The two `snprintf` of `set_cursor_temp`, each left out at 0.
abbrev pub move_vertical : Readline → Bool → ℕ → Readline
move_vertical rl back virt = if virt == 0 then rl else emit rl (vertical back virt)

abbrev pub move_column : Readline → ℕ → Readline
move_column rl horiz = if horiz == 0 then rl else emit rl (column horiz)

unfoldable pub set_cursor_temp : Readline → ℕ → Option Readline
set_cursor_temp rl pos =
    if rl.width == 0
    then none
    else (let to = line_at rl pos in
        let from = line_at rl rl.line.pos in
        if ltb to from
        then (if ltb pos rl.line.pos
            then some (move_column (move_vertical rl true (from - to)) (column_at rl pos))
            else none)
        else some (move_column (move_vertical rl false (to - from)) (column_at rl pos)))

abbrev pub at_pos : Readline → ℕ → Readline
at_pos rl pos = record rl { line = record rl.line { pos = pos } }

unfoldable pub set_cursor : Readline → ℕ → Option Readline
set_cursor rl pos = do r ← set_cursor_temp rl pos; some (at_pos r pos)

-- `" \b"`, for a text that ends with a line of the screen.
abbrev pub scroll : Readline → ℕ → Readline
scroll rl col = if col == 0 then emit rl (chars (b' ' ∷ 8 ∷ [])) else rl

unfoldable pub display_to_end : Readline → Option Readline
display_to_end rl =
    if rl.line.end == rl.line.pos then some rl else if rl.width == 0 then none else (do
      bytes ← slice rl.line.buf rl.line.pos (rl.line.end - rl.line.pos)
      let pos = rl.line.pos
      let shown = scroll (emit rl (chars bytes)) (column_at rl rl.line.end)
      r ← set_cursor_temp (at_pos shown rl.line.end) pos
      some (at_pos r pos))

-- `"\r\033[2K"` and `"\033[A\033[2K"`.
abbrev pub clear_line : List ℕ
clear_line = 13 ∷ 27 ∷ b'[' ∷ b'2' ∷ b'K' ∷ []

abbrev pub clear_above : List ℕ
clear_above = 27 ∷ b'[' ∷ b'A' ∷ 27 ∷ b'[' ∷ b'2' ∷ b'K' ∷ []

unfoldable pub hide_line : Readline → Option Readline
hide_line rl = do
  r ← set_cursor_temp rl rl.line.end
  some (record r {
    out = r.out ++ (chars clear_line ∷ replicate (line_at rl rl.line.end) (chars clear_above));
  })

unfoldable pub unhide_line : Readline → Option Readline
unhide_line rl =
    let prompted = emit rl (chars rl.prompt) in
    if not (rl.width == 0)
    then (do r ← display_to_end (at_pos prompted 0); set_cursor r rl.line.pos)
    else (do bytes ← slice rl.line.buf 0 rl.line.end; some (emit prompted (chars bytes)))
