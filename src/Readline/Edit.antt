-- ===== src/Readline/Edit.antt =====
-- The lines of the history, and the editing of one.

use libos.Prelude.{
  ℕ, ◌+◌, ◌-◌, Bool, true, false, Option, some, none, List, [], ◌∷◌, ltb, leb, not, ◌==◌, ◌||◌,
  if◌then◌else◌, ◌>>=◌, store,
}
use libos.Strings.Copy.{memmove}
use libos.Readline.{
  Line, line_size, new_line, chars, Readline, emit, at_pos, set_cursor, display_to_end,
}

-- A list of lines without its last one, and that one.
unfoldable pub split_last : Line → List Line → List Line × Line
split_last l [] = ([], l)
split_last l (l' ∷ ls) = let (before, last) = split_last l' ls in (l ∷ before, last)

-- The lines that are left, and the one that `get_newline` returns beside `rl->line` itself.
pub record Fresh : Type 0 where
  pub older : List Line
  pub newer : List Line
  pub found : Option Line

-- The end of `get_newline`: `alloc_type` where it succeeds, else the oldest line. Where that is the line
-- being edited the code takes it out of the list and goes on, which is a fault here.
unfoldable pub allocate_line : Bool → Readline → Option Fresh
allocate_line true rl = some (record { older = rl.older; newer = rl.newer; found = some new_line })
allocate_line false rl = elim rl.older [
  | [] ↦ none
  | l ∷ ls ↦
      some
        (record { older = (split_last l ls).0; newer = rl.newer; found = some (split_last l ls).1 })
]

-- The newest line, for a line that has newer ones, when it is empty.
unfoldable pub reuse_newest : Bool → Readline → List Line → Option Fresh
reuse_newest has_room rl [] = allocate_line has_room rl
reuse_newest has_room rl (l ∷ ls) =
    let (before, newest) = split_last l ls in
    if newest.end == 0
    then some (record { older = rl.older; newer = before; found = some newest })
    else allocate_line has_room rl

-- Whether a link to other lines is `NULL`.
abbrev pub is_nil : List Line → Bool
is_nil [] = true
is_nil (l ∷ ls) = false

-- `get_newline`; `found` is `none` for `rl->line`.
unfoldable pub get_newline : Bool → Readline → Option Fresh
get_newline has_room rl =
    if rl.width == 0 || rl.line.end == 0
    then (if is_nil rl.newer
        then some (record { older = rl.older; newer = rl.newer; found = none })
        else none)
    else reuse_newest has_room rl rl.newer

-- `dup_line`. The lines from the old one up to the copy are in the reverse order behind it.
unfoldable pub rev_onto : List Line → List Line → List Line
rev_onto [] back = back
rev_onto (l ∷ ls) back = rev_onto ls (l ∷ back)

abbrev pub copied : Readline → Fresh → Readline
copied rl f = elim f.found [
  | none ↦ rl
  | some copy ↦ record rl {
    older = rev_onto f.newer (rl.line ∷ f.older);
    line = record copy { pos = rl.line.pos; end = rl.line.end; buf = rl.line.buf };
    newer = [];
  }
]

unfoldable pub dup_line : Bool → Readline → Option Readline
dup_line has_room rl =
    if rl.width == 0 || is_nil rl.newer
    then none
    else (do f ← get_newline has_room rl; some (copied rl f))

-- `if (rl->line->next) dup_line(rl)`.
unfoldable pub own_line : Bool → Readline → Option Readline
own_line has_room rl = if is_nil rl.newer then some rl else dup_line has_room rl

abbrev pub with_buf : Readline → List ℕ → Readline
with_buf rl buf = record rl { line = record rl.line { buf = buf } }

-- `rl->line->end--`.
abbrev pub shorten : Readline → Readline
shorten rl = record rl { line = record rl.line { end = rl.line.end - 1 } }

unfoldable pub delete_char : Bool → Readline → Option Readline
delete_char has_room rl =
    if ltb rl.line.end rl.line.pos
    then none
    else if rl.line.pos == rl.line.end
    then some rl
    else if rl.width == 0
    then none
    else (do
      r ← own_line has_room rl
      moved ← memmove r.line.buf r.line.pos (r.line.pos + 1) (r.line.end - r.line.pos - 1)
      blanked ← store moved (r.line.end - 1) b' '
      d ← display_to_end (with_buf r blanked)
      some (shorten d))

-- `memmove` of `backspace`, left out at the end of the line.
unfoldable pub close_gap : Line → Option (List ℕ)
close_gap l = if l.pos == l.end then some l.buf else memmove l.buf (l.pos - 1) l.pos (l.end - l.pos)

unfoldable pub backspace : Bool → Readline → Option Readline
backspace has_room rl =
    if rl.line.pos == 0
    then some rl
    else if not (rl.width == 0)
    then (do
      r ← own_line has_room rl
      moved ← close_gap r.line
      blanked ← store moved (r.line.end - 1) b' '
      c ← set_cursor (with_buf r blanked) (r.line.pos - 1)
      d ← display_to_end c
      some (shorten d))
    else some (shorten (emit (at_pos rl (rl.line.pos - 1)) (chars (8 ∷ b' ' ∷ 8 ∷ []))))

unfoldable pub open_gap : Line → Option (List ℕ)
open_gap l = if l.end == l.pos then some l.buf else memmove l.buf (l.pos + 1) l.pos (l.end - l.pos)

-- A printable character.
unfoldable pub insert_char : Bool → Readline → ℕ → Option Readline
insert_char has_room rl ch =
    if leb line_size rl.line.end
    then none
    else if rl.line.end + 1 == line_size
    then some rl
    else (do
      r ← own_line has_room rl
      moved ← open_gap r.line
      buf' ← store moved r.line.pos ch
      display_to_end (
          emit
            (record r { line = record { pos = r.line.pos + 1; end = r.line.end + 1; buf = buf' } })
            (chars (ch ∷ []))))
