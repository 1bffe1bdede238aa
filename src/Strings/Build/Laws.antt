-- ===== src/Strings/Build/Laws.antt =====
-- What the building functions leave in the destination.
use libos.Prelude.{
  ℕ, zero, suc, ◌+◌, ◌-◌, ◌<◌, ◌≤◌, ◌≡◌, refl, ap, ◌∙◌, arith, some, none, List, [], ◌∷◌, ◌++◌,
  ==_ne, length, drop, store, patch, patch-patch, splice_lem, length-patch, length-append,
}
use libos.Strings.Measure.{NoNul, c_string, strlen-c_string}
use libos.Strings.Build.{copy_string, strcpy, strcat, copy_bounded, strncat}

copy_string_lem :
    (dest : List ℕ) (i : ℕ) (text rest : List ℕ)
    → NoNul text
    → i + length text < length dest
    → copy_string dest i (c_string text rest) ≡ some (patch dest i (text ++ (0 ∷ [])))
unfolding copy_string store
copy_string_lem dest i [] rest h fits = rw (splice_lem dest i (0 ∷ []) (omega arith)) refl
copy_string_lem dest i (c ∷ text) rest h fits =
    let same = length-patch dest i (c ∷ []) (omega arith) in
    rw (splice_lem dest i (c ∷ []) (omega arith), ==_ne c 0 h.0)
      (copy_string_lem (patch dest i (c ∷ [])) (i + 1) text rest h.1 (omega arith)
        ∙ ap some (
            patch-patch dest i (c ∷ []) (text ++ (0 ∷ []))
              (omega (arith, length-append text (0 ∷ [])))))

-- With room for the text and its NUL, `strcpy` writes both at the start of the destination, and
-- `strcat` both at the end of the text that stands there; nothing else changes.
pub strcpy-strcat :
    (dest text rest old pad : List ℕ)
    → NoNul text
    → NoNul old
    → length text < length dest
    → length text ≤ length pad
    → (strcpy dest (c_string text rest) ≡ some (patch dest 0 (text ++ (0 ∷ []))))
      × (strcat (c_string old pad) (c_string text rest)
          ≡ some (patch (c_string old pad) (length old) (text ++ (0 ∷ []))))
unfolding strcpy strcat
strcpy-strcat dest text rest old pad h ho fits room = (
  copy_string_lem dest 0 text rest h (omega arith),
  rw ((strlen-c_string old pad 0 ho).0) (
      copy_string_lem (c_string old pad) (length old) text rest h
        (omega (arith, length-append old (0 ∷ pad)))),
)

-- `strncat` reads the source from the length of the text in the destination on: a source object that
-- is not longer than that text is read outside itself whenever the limit asks for a character.
pub strncat_overrun :
    (old pad src : List ℕ) (limit : ℕ)
    → NoNul old
    → length src ≤ length old
    → length old < limit
    → strncat (c_string old pad) src limit ≡ none
unfolding strncat
strncat_overrun old pad src limit h short lt =
    let left : limit - length old ≡ suc (limit - length old - 1) = omega arith in
    rw ((strlen-c_string old pad 0 h).0, drop-all (length old) src short, left)
      (unfold copy_bounded in refl)
  where
    drop-all : (n : ℕ) (xs : List ℕ) → length xs ≤ n → drop n xs ≡ []
    drop-all zero [] h = refl
    drop-all zero (x ∷ xs) h = elim h [ ]
    drop-all (suc n) [] h = refl
    drop-all (suc n) (x ∷ xs) h = drop-all n xs (omega arith)
