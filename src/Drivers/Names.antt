-- ===== src/Drivers/Names.antt =====
-- The strings that `strlist_iterate` finds.
use libos.Prelude.{
  ℕ, zero, suc, ◌+◌, ◌-◌, ◌≡◌, ◌≤◌, refl, ap, arith, some, none, List, [], ◌∷◌, ◌++◌, length, drop,
  lt→leb, le→leb, ◌<◌, ==_ne,
}
use libos.Strings.Measure.{NoNul, c_string}
use libos.Strings.Search.{memchr}
use libos.Drivers.{strlist_iterate}

memchr-c_string :
    (name rest : List ℕ) (len : ℕ)
    → NoNul name
    → length name ≤ len
    → memchr (c_string name rest) 0 len ≡ some (some (length name))
unfolding memchr
memchr-c_string [] rest zero h k = refl
memchr-c_string [] rest (suc len) h k = refl
memchr-c_string (c ∷ name) rest zero h k = absurd (omega arith)
memchr-c_string (c ∷ name) rest (suc len) h k =
    rw (==_ne c 0 h.0, memchr-c_string name rest len h.1 (omega arith))
      (ap (λ k. some (some k)) (omega arith))

pub drop-length : (before xs : List ℕ) → drop (length before) (before ++ xs) ≡ xs
drop-length [] xs = refl
drop-length (x ∷ before) xs = drop-length before xs

-- At the start of a string in the list, the string is found, and the position behind its NUL; at the end of
-- the list nothing is found.
pub strlist_iterate-c_string :
    (before name rest : List ℕ) (len : ℕ)
    → NoNul name
    → length before + length name < len
    → (strlist_iterate (before ++ c_string name rest) len (length before)
        ≡ some (some (length before, length before + length name + 1)))
      × (strlist_iterate (before ++ c_string name rest) len len ≡ some none)
unfolding strlist_iterate
strlist_iterate-c_string before name rest len h inside = (
  rw
      (
        lt→leb (length before) len (omega arith),
        drop-length before (c_string name rest),
        memchr-c_string name rest (len - length before) h (omega arith),
      )
      refl,
  rw (le→leb len len (omega arith)) refl,
)
