-- ===== src/Readline/History.antt =====
-- The lines beside the one that is edited, which may only be empty at the newest place.
use libos.Prelude.{
  ◌≡◌, ◌≢◌, ◌⊎◌, inl, inr, refl, ap, arith, true, false, Bool-cases, some, List, [], ◌∷◌, ◌==◌,
  ==_ne, ==_iff,
}
use libos.Readline.{Line, new_line, Readline}
use libos.Readline.Edit.{
  split_last, reuse_newest, allocate_line, get_newline, dup_line, own_line, rev_onto, is_nil,
}
use libos.Readline.Draw.{IsLine}

-- A line with a text in it, and lists of such.
abbrev pub IsStored : Line → Type 0
IsStored l = IsLine l × (l.end ≢ 0)

abbrev pub AllStored : List Line → Type 0
AllStored [] = Unit
AllStored (l ∷ ls) = IsStored l × AllStored ls

-- The same, but for the last line, which may be empty.
abbrev pub Newest : List Line → Type 0
Newest [] = Unit
Newest (l ∷ []) = IsLine l
Newest (l ∷ l' ∷ ls) = IsStored l × Newest (l' ∷ ls)

-- The state between two keys. Before the terminal has said its width there is one line, with the cursor
-- at its end.
pub record IsValid (rl : Readline) : Type 0 where
  pub stored : AllStored rl.older
  pub newest : Newest (rl.line ∷ rl.newer)
  pub narrow : (rl.width ≢ 0) ⊎ ((rl.older ≡ []) × (rl.newer ≡ []) × (rl.line.pos ≡ rl.line.end))

pub Newest-head : (l : Line) (ls : List Line) → Newest (l ∷ ls) → IsLine l
Newest-head l [] h = h
Newest-head l (l' ∷ ls) h = h.0.0

pub Newest-filled : (l l' : Line) (ls : List Line) → Newest (l ∷ l' ∷ ls) → l.end ≢ 0
Newest-filled l l' ls h = h.0.1

split_last_lem :
    (l : Line) (ls : List Line)
    → Newest (l ∷ ls)
    → AllStored (split_last l ls).0 × IsLine (split_last l ls).1
unfolding split_last
split_last_lem l [] h = (tt, h)
split_last_lem l (l' ∷ ls) h = let (a, b) = split_last_lem l' ls h.1 in ((h.0, a), b)

all_filled :
    (l : Line) (ls : List Line) → Newest (l ∷ ls) → (split_last l ls).1.end ≢ 0 → AllStored (l ∷ ls)
unfolding split_last
all_filled l [] h filled = ((h, filled), tt)
all_filled l (l' ∷ ls) h filled = (h.0, all_filled l' ls h.1 filled)

pub rev_onto-AllStored :
    (ls back : List Line) → AllStored ls → AllStored back → AllStored (rev_onto ls back)
unfolding rev_onto
rev_onto-AllStored [] back h k = k
rev_onto-AllStored (l ∷ ls) back h k = rev_onto-AllStored ls (l ∷ back) h.1 (h.0, k)

new_line-IsLine : IsLine new_line
new_line-IsLine = record { inside = omega arith; short = omega arith; size = refl }

reuse_newest_lem :
    (rl : Readline) (newer : List Line)
    → AllStored rl.older
    → rl.newer ≡ newer
    → Newest newer
    → (newer' : List Line) × (l : Line) × (reuse_newest true rl newer
        ≡ some (record { older = rl.older; newer = newer'; found = some l }))
      × AllStored newer'
      × IsLine l
unfolding reuse_newest allocate_line
reuse_newest_lem rl [] old e h = (
  [],
  new_line,
  ap (λ n. some (record { older = rl.older; newer = n; found = some new_line })) e,
  tt,
  new_line-IsLine,
)
reuse_newest_lem rl (l ∷ ls) old e h =
    let (before, last) = split_last_lem l ls h in
    elim (Bool-cases ((split_last l ls).1.end == 0)) [
      | inl z ↦ ((split_last l ls).0, (split_last l ls).1, rw z refl, before, last)
      | inr z ↦ (
        l ∷ ls,
        new_line,
        rw z (ap (λ n. some (record { older = rl.older; newer = n; found = some new_line })) e),
        all_filled l ls h (λ q. cc ((==_iff (split_last l ls).1.end 0).1 q)),
        new_line-IsLine,
      )
    ]

-- While there is memory a new line is found for a line with a text in it.
pub get_newline_lem :
    (rl : Readline)
    → AllStored rl.older
    → Newest rl.newer
    → rl.width ≢ 0
    → rl.line.end ≢ 0
    → (newer' : List Line) × (l : Line) × (get_newline true rl
        ≡ some (record { older = rl.older; newer = newer'; found = some l }))
      × AllStored newer'
      × IsLine l
unfolding get_newline
get_newline_lem rl old new wide filled =
    let (newer', l, e, a, b) = reuse_newest_lem rl rl.newer old refl new in
    (newer', l, rw (==_ne rl.width 0 wide, ==_ne rl.line.end 0 filled) e, a, b)

pub Newest-tail : (l : Line) (ls : List Line) → Newest (l ∷ ls) → Newest ls
Newest-tail l [] h = tt
Newest-tail l (l' ∷ ls) h = h.1

pub is_nil-nil : (ls : List Line) → is_nil ls ≡ true → ls ≡ []
is_nil-nil [] h = refl
is_nil-nil (l ∷ ls) h = cc

pub some_newer : (l : Line) (ls : List Line) → is_nil ls ≡ false → Newest (l ∷ ls) → l.end ≢ 0
some_newer l [] e h = cc
some_newer l (l' ∷ ls) e h = h.0.1

-- The lines behind the copy: where the line had newer ones, it and those before it are kept.
abbrev pub Kept : Readline → List Line → Type 0
Kept rl older' =
    ((rl.newer ≡ []) × (older' ≡ rl.older))
    ⊎ ((newer' : List Line) × (older' ≡ rev_onto newer' (rl.line ∷ rl.older)))

-- Before an edit the line is a copy at the newest place; all lines that were there with a text, the
-- original too, are kept.
pub own_line_lem :
    (rl : Readline)
    → IsValid rl
    → rl.width ≢ 0
    → (older' : List Line) × (own_line true rl ≡ some (record rl { older = older'; newer = [] }))
      × AllStored older'
      × Kept rl older'
unfolding own_line dup_line
own_line_lem rl v wide = elim (Bool-cases (is_nil rl.newer)) [
  | inl e ↦ (
    rl.older,
    simp e (ap (λ n. some (record rl { newer = n })) (is_nil-nil rl.newer e)),
    v.stored,
    inl (is_nil-nil rl.newer e, refl),
  )
  | inr e ↦
      let filled = some_newer rl.line rl.newer e v.newest in
      let (newer', copy, g, a, b) =
        get_newline_lem rl v.stored (Newest-tail rl.line rl.newer v.newest) wide filled in
      (
        rev_onto newer' (rl.line ∷ rl.older),
        simp (e, ==_ne rl.width 0 wide, g),
        rev_onto-AllStored newer' (rl.line ∷ rl.older) a
            ((Newest-head rl.line rl.newer v.newest, filled), v.stored),
        inr (newer', refl),
      )
]
