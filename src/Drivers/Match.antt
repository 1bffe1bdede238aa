-- ===== src/Drivers/Match.antt =====
-- `match_compat` on lists of strings.
use libos.Prelude.{
  true, false, ==_ne, ℕ, zero, suc, ◌+◌, ◌≡◌, ◌≢◌, ◌≤◌, ◌<◌, ◌⊎◌, inl, inr, refl, ap, sym, ◌∙◌,
  arith, Option, some, none, List, [], ◌∷◌, ◌++◌, append_assoc, length, length-append, get_elem?,
  le→leb,
}
use libos.Prelude.Int.{ℤ, pos, negsuc}
use libos.Strings.Measure.{NoNul, c_string}
use libos.Strings.Search.{is_zero}
use libos.Strings.Compare.Laws.{strcmp_iff}
use libos.Drivers.{strlist_iterate, find_compat, match_loop, match_compat}
use libos.Drivers.Names.{drop-length, strlist_iterate-c_string}

-- A list of strings in memory, one behind the other, and the strings of a driver.
unfoldable pub flat : List (List ℕ) → List ℕ
flat [] = []
flat (name ∷ names) = c_string name (flat names)

unfoldable pub strings : List (List ℕ) → List (List ℕ)
strings [] = []
strings (name ∷ names) = c_string name [] ∷ strings names

abbrev pub AllNoNul : List (List ℕ) → Type 0
AllNoNul [] = Unit {0}
AllNoNul (name ∷ names) = NoNul name × AllNoNul names

abbrev pub Absent : List ℕ → List (List ℕ) → Type 0
Absent str [] = Unit {0}
Absent str (name ∷ names) = (str ≢ name) × Absent str names

-- No string stands in both lists.
abbrev pub Disjoint : List (List ℕ) → List (List ℕ) → Type 0
Disjoint [] names = Unit {0}
Disjoint (str ∷ strs) names = Absent str names × Disjoint strs names

-- The answer of a search for `str` among the names, of which the first has the number `i`.
abbrev pub Found : List ℕ → List (List ℕ) → ℕ → Option ℕ → Type 0
Found str names i none = Absent str names
Found str names i (some k) = (j : ℕ) × (k ≡ i + j) × (get_elem? names j ≡ some str)

-- The same for each of the strings `strs`.
abbrev pub Matched : List (List ℕ) → List (List ℕ) → Option ℕ → Type 0
Matched strs names none = Disjoint strs names
Matched strs names (some k) =
    (m : ℕ) × (str : List ℕ) × (get_elem? strs m ≡ some str) × (get_elem? names k ≡ some str)

is_zero-cases : (z : ℤ) → ((is_zero z ≡ true) × (z ≡ pos 0)) ⊎ ((is_zero z ≡ false) × (z ≢ pos 0))
is_zero-cases (pos zero) = inl (refl, refl)
is_zero-cases (pos (suc n)) = inr (==_ne (suc n) 0 (omega arith), λ e. cc)
is_zero-cases (negsuc n) = inr (refl, λ e. cc)

find_compat-Found :
    (str rest : List ℕ) (names : List (List ℕ)) (i : ℕ)
    → NoNul str
    → AllNoNul names
    → (found : Option ℕ) × (find_compat (c_string str rest) (strings names) i ≡ some found)
      × Found str names i found
unfolding find_compat strings
find_compat-Found str rest [] i h hs = (none, refl, tt)
find_compat-Found str rest (name ∷ names) i h (hn, hs) =
    let (z, e, same) = strcmp_iff str name rest [] h hn in
    let (found, f, later) = find_compat-Found str rest names (i + 1) h hs in
    elim (is_zero-cases z) [
      | inl (yz, zero_z) ↦
          (some i, rw (e, yz) refl, (0, omega arith, ap some (sym (same.0 zero_z))))
      | inr (nz, other) ↦ (found, rw (e, nz) f, next found (λ q. other (same.1 q)) later)
    ]
  where
    next :
        (found : Option ℕ)
        → str ≢ name
        → Found str names (i + 1) found
        → Found str (name ∷ names) i found
    next none ne a = (ne, a)
    next (some k) ne (j, at, e) = (suc j, omega arith, e)

at_end :
    (strlist : List ℕ) (position : ℕ)
    → length strlist ≤ position
    → strlist_iterate strlist (length strlist) position ≡ some none
unfolding strlist_iterate
at_end strlist position h = rw (le→leb (length strlist) position h) refl

-- The outer loop, from the string behind `before` on.
match_loop-Matched :
    (fuel : ℕ) (before : List ℕ) (strs names : List (List ℕ))
    → length strs < fuel
    → AllNoNul strs
    → AllNoNul names
    → (found : Option ℕ) × (match_loop fuel
          (before ++ flat strs)
          (length (before ++ flat strs))
          (length before)
          (strings names)
        ≡ some found)
      × Matched strs names found
unfolding match_loop flat
match_loop-Matched zero before strs names enough h hs = absurd (omega arith)
match_loop-Matched (suc fuel) before [] names enough h hs = (
  none,
  rw (at_end (before ++ []) (length before) (omega (arith, length-append before []))) refl,
  tt,
)
match_loop-Matched (suc fuel) before (str ∷ strs) names enough (h, ht) hs =
    let full = before ++ c_string str (flat strs) in
    let inside : length before + length str < length full =
      omega (
        arith,
        length-append before (c_string str (flat strs)),
        length-append str (0 ∷ flat strs),
      ) in
    let here = (strlist_iterate-c_string before str (flat strs) (length full) h inside).0 in
    let (found, e, answer) = find_compat-Found str (flat strs) names 0 h hs in
    let (later, f, rest) =
      match_loop-Matched fuel (before ++ (str ++ (0 ∷ []))) strs names (omega arith) ht hs in
    let behind = before ++ (str ++ (0 ∷ [])) in
    let same : full ≡ behind ++ flat strs =
      ap (λ l. before ++ l) (sym (append_assoc str (0 ∷ []) (flat strs)))
      ∙ sym (append_assoc before (str ++ (0 ∷ [])) (flat strs)) in
    let size : length before + length str + 1 ≡ length behind =
      omega (arith, length-append before (str ++ (0 ∷ [])), length-append str (0 ∷ [])) in
    let onward : match_loop fuel full (length full) (length before + length str + 1) (strings names)
        ≡ some later =
      ap (λ l. match_loop fuel l (length l) (length before + length str + 1) (strings names)) same
      ∙ ap
          (λ n.
            match_loop fuel (behind ++ flat strs) (length (behind ++ flat strs)) n (strings names))
          size
      ∙ f in
    rw (here, drop-length before (c_string str (flat strs)), e)
      (by_found found answer later onward rest)
  where
    by_found :
        (found : Option ℕ)
        → Found str names 0 found
        → (later : Option ℕ)
        → match_loop fuel
            (before ++ c_string str (flat strs))
            (length (before ++ c_string str (flat strs)))
            (length before + length str + 1)
            (strings names)
          ≡ some later
        → Matched strs names later
        → (x : Option ℕ) × ((elim found [
          | some i ↦ some (some i)
          | none ↦
              match_loop fuel
                (before ++ c_string str (flat strs))
                (length (before ++ c_string str (flat strs)))
                (length before + length str + 1)
                (strings names)
        ])
            ≡ some x)
          × Matched (str ∷ strs) names x
    by_found none absent none f rest = (none, f, (absent, rest))
    by_found none absent (some k) f (m, s, at, in_names) = (some k, f, (suc m, s, at, in_names))
    by_found (some k) (j, place, e) later f rest =
        (some k, refl, (0, str, refl, ap (get_elem? names) {y = j} (place ∙ omega arith) ∙ e))

flat-length_le : (strs : List (List ℕ)) → length strs ≤ length (flat strs)
unfolding flat
flat-length_le [] = omega arith
flat-length_le (str ∷ strs) = omega (arith, flat-length_le strs, length-append str (0 ∷ flat strs))

-- On well-formed lists the search ends, and finds a string that both have, if there is one.
pub match_compat-Matched :
    (strs names : List (List ℕ))
    → AllNoNul strs
    → AllNoNul names
    → (found : Option ℕ) × (match_compat (flat strs) (length (flat strs)) (strings names)
        ≡ some found)
      × Matched strs names found
unfolding match_compat
match_compat-Matched strs names h hs =
    match_loop-Matched (length (flat strs) + 1) [] strs names (omega (arith, flat-length_le strs)) h
      hs
