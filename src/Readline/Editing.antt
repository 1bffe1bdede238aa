-- ===== src/Readline/Editing.antt =====
-- The three edits of a line against the text that it stands for.
use libos.Prelude.{
  ℕ, ◌+◌, ◌-◌, ◌≡◌, ◌≢◌, ◌<◌, ◌⊎◌, inl, inr, refl, arith, true, Bool-cases, some, List, [], ◌∷◌,
  ◌++◌, le→ltb, lt→leb, ◌==◌, ==_ne, ==_iff,
}
use libos.Readline.{Line, Readline, Output, chars, emit, at_pos}
use libos.Readline.Edit.{insert_char, delete_char, backspace, shorten}
use libos.Readline.Draw.{IsLine, moves, display_to_end_lem, set_cursor_lem}
use libos.Readline.Text.{
  text, insert_at, erase_idx, text-insert, text-erase, delete_gap_lem, close_gap_lem,
}
use libos.Readline.History.{IsValid, AllStored, Newest-head, Kept, own_line_lem}

-- The state after an edit: the line is the newest one, with this text and the cursor at this place, and
-- what is not of the lines or the output is as before.
pub record IsEdited (rl rl' : Readline) (pos' : ℕ) (text' : List ℕ) : Type 0 where
  pub valid : IsValid rl'
  pub place : rl'.line.pos ≡ pos'
  pub contents : text rl'.line ≡ text'
  pub newest : rl'.newer ≡ []
  pub kept : Kept rl rl'.older
  pub same :
      rl' ≡ record rl { older = rl'.older; line = rl'.line; newer = rl'.newer; out = rl'.out }

edited :
    (rl : Readline) (older' : List Line) (l : Line) (out : List Output) (text' : List ℕ)
    → rl.width ≢ 0
    → AllStored older'
    → Kept rl older'
    → IsLine l
    → text l ≡ text'
    → IsEdited rl (record rl { older = older'; line = l; newer = []; out = out }) l.pos text'
edited rl older' l out text' wide stored kept line e = record {
  valid = record { stored = stored; newest = line; narrow = inl wide };
  place = refl;
  contents = e;
  newest = refl;
  kept = kept;
  same = refl;
}

-- A printable character goes in at the cursor, which moves behind it. A line of 255 characters stays.
pub insert_char-IsEdited :
    (rl : Readline) (ch : ℕ)
    → IsValid rl
    → rl.width ≢ 0
    → (rl.line.end + 1 ≡ 256) × (insert_char true rl ch ≡ some rl)
      ⊎ ((rl' : Readline) × (insert_char true rl ch ≡ some rl')
          × IsEdited rl rl' (rl.line.pos + 1) (insert_at (text rl.line) rl.line.pos ch))
unfolding insert_char
insert_char-IsEdited rl ch v wide =
    let line = Newest-head rl.line rl.newer v.newest in
    let short = line.short in
    let inside = line.inside in
    elim (Bool-cases (rl.line.end + 1 == 256)) [
      | inl full ↦
          inl ((==_iff (rl.line.end + 1) 256).0 full, rw (lt→leb rl.line.end 256 short, full) refl)
      | inr room ↦
          let fits : rl.line.end + 1 < 256 = ground arith in
          let (older', own, stored, kept) = own_line_lem rl v wide in
          let (mem, buf', opened, put, size, e) = text-insert rl.line ch line fits in
          let l : Line = record { pos = rl.line.pos + 1; end = rl.line.end + 1; buf = buf' } in
          let r : Readline =
            emit (record rl { older = older'; newer = []; line = l }) (chars (ch ∷ [])) in
          let (out, shown) = display_to_end_lem r wide (omega arith) (omega arith) in
          inr (
            record r { out = out },
            rw (lt→leb rl.line.end 256 short, room, own, opened, put) shown,
            edited rl older' l out (insert_at (text rl.line) rl.line.pos ch) wide stored kept
                (record { inside = omega arith; short = fits; size = size }) e,
          )
    ]

-- The delete key takes out the character at the cursor, which stays; at the end nothing happens.
pub delete_char-IsEdited :
    (rl : Readline)
    → IsValid rl
    → rl.width ≢ 0
    → ((rl.line.pos ≡ rl.line.end) × (delete_char true rl ≡ some rl))
      ⊎ ((rl' : Readline) × (delete_char true rl ≡ some rl')
          × IsEdited rl rl' rl.line.pos (erase_idx (text rl.line) rl.line.pos))
unfolding delete_char
delete_char-IsEdited rl v wide =
    let line = Newest-head rl.line rl.newer v.newest in
    let short = line.short in
    let inside = line.inside in
    elim (Bool-cases (rl.line.pos == rl.line.end)) [
      | inl at_end ↦ inl (
        (==_iff rl.line.pos rl.line.end).0 at_end,
        rw (le→ltb rl.line.end rl.line.pos inside, at_end) refl,
      )
      | inr more ↦
          let before : rl.line.pos < rl.line.end = ground arith in
          let (older', own, stored, kept) = own_line_lem rl v wide in
          let (mem, moved, size, at) = delete_gap_lem rl.line line before in
          let (buf', put, size', e) = text-erase rl.line rl.line.pos mem line before size at in
          let l : Line = record rl.line { buf = buf' } in
          let r : Readline = record rl { older = older'; newer = []; line = l } in
          let (out, shown) = display_to_end_lem r wide (omega arith) inside in
          inr (
            shorten (record r { out = out }),
            rw
                (
                  le→ltb rl.line.end rl.line.pos inside,
                  more,
                  ==_ne rl.width 0 wide,
                  own,
                  moved,
                  put,
                  shown,
                )
                refl,
            edited rl older' (record l { end = rl.line.end - 1 }) out
                (erase_idx (text rl.line) rl.line.pos) wide stored kept
                (record { inside = omega arith; short = omega arith; size = size' }) e,
          )
    ]

-- Backspace takes out the character before the cursor, which moves back; at the start nothing happens.
pub backspace-IsEdited :
    (rl : Readline)
    → IsValid rl
    → rl.width ≢ 0
    → ((rl.line.pos ≡ 0) × (backspace true rl ≡ some rl))
      ⊎ ((rl' : Readline) × (backspace true rl ≡ some rl')
          × IsEdited rl rl' (rl.line.pos - 1) (erase_idx (text rl.line) (rl.line.pos - 1)))
unfolding backspace
backspace-IsEdited rl v wide =
    let line = Newest-head rl.line rl.newer v.newest in
    let short = line.short in
    let inside = line.inside in
    elim (Bool-cases (rl.line.pos == 0)) [
      | inl start ↦ inl ((==_iff rl.line.pos 0).0 start, rw start refl)
      | inr more ↦
          let some_left : 0 < rl.line.pos = ground arith in
          let (older', own, stored, kept) = own_line_lem rl v wide in
          let (mem, closed, size, at) = close_gap_lem rl.line line some_left in
          let (buf', put, size', e) =
            text-erase rl.line (rl.line.pos - 1) mem line (omega arith) size at in
          let r : Readline = record rl {
            older = older';
            newer = [];
            line = record rl.line { buf = buf' };
          } in
          let c : Readline = record (at_pos r (rl.line.pos - 1)) {
            out = r.out ++ moves r (rl.line.pos - 1);
          } in
          let (out, shown) = display_to_end_lem c wide (omega arith) (omega arith) in
          inr (
            shorten (record c { out = out }),
            rw
                (
                  more,
                  ==_ne rl.width 0 wide,
                  own,
                  closed,
                  put,
                  set_cursor_lem r (rl.line.pos - 1) wide,
                  shown,
                )
                refl,
            edited rl older' (record c.line { end = rl.line.end - 1 }) out
                (erase_idx (text rl.line) (rl.line.pos - 1)) wide stored kept
                (record { inside = omega arith; short = omega arith; size = size' }) e,
          )
    ]
