-- ===== src/Readline/Text.antt =====
-- Editing one line: the text before and behind the cursor.
use libos.Prelude.{
  ℕ, zero, suc, ◌+◌, ◌-◌, ◌≡◌, ◌≤◌, ◌<◌, inl, inr, refl, ◌∙◌, arith, Bool-cases, some, List, [],
  ◌∷◌, ◌++◌, ltb, ◌==◌, if◌then◌else◌, length, get_or, take, drop, store, splice_lem, patch,
  length-patch, get_or-patch, get_or-append, get_or-take, get_or-drop, length-append, length-take,
  length-drop, list_ext,
}
use libos.Strings.Copy.{memmove}
use libos.Strings.Copy.Laws.{memmove-IsCopied}
use libos.Readline.{Line}
use libos.Readline.Edit.{open_gap, close_gap}
use libos.Readline.Draw.{IsLine}

abbrev pub text : Line → List ℕ
text l = take l.end l.buf

abbrev pub insert_at : List ℕ → ℕ → ℕ → List ℕ
insert_at xs i y = take i xs ++ (y ∷ drop i xs)

abbrev pub erase_idx : List ℕ → ℕ → List ℕ
erase_idx xs i = take i xs ++ drop (i + 1) xs

length-insert_at :
    (xs : List ℕ) (i y : ℕ) → i ≤ length xs → length (insert_at xs i y) ≡ length xs + 1
length-insert_at xs i y h =
    omega (arith, length-append (take i xs) (y ∷ drop i xs), length-take i xs, length-drop i xs)

length-erase_idx : (xs : List ℕ) (i : ℕ) → i < length xs → length (erase_idx xs i) ≡ length xs - 1
length-erase_idx xs i h =
    omega
      (arith, length-append (take i xs) (drop (i + 1) xs), length-take i xs, length-drop (i + 1) xs)

get_or-cons :
    (y : ℕ) (xs : List ℕ) (j : ℕ)
    → get_or (y ∷ xs) j 0 ≡ (if j == 0 then y else get_or xs (j - 1) 0)
get_or-cons y xs zero = refl
get_or-cons y xs (suc j) = ground arith

get_or-insert_at :
    (xs : List ℕ) (i y j : ℕ)
    → i ≤ length xs
    → get_or (insert_at xs i y) j 0
      ≡ (if ltb j i then get_or xs j 0 else if j == i then y else get_or xs (j - 1) 0)
get_or-insert_at xs i y j h =
    let size = length-take i xs in
    elim (Bool-cases (ltb j i)) [
      | inl b ↦ get_or-append (take i xs) (y ∷ drop i xs) j ∙ ground (arith, get_or-take i xs j 0)
      | inr b ↦
          get_or-append (take i xs) (y ∷ drop i xs) j
          ∙ ground (
            arith,
            get_or-cons y (drop i xs) (j - length (take i xs)),
            get_or-drop i xs (j - i - 1) 0,
          )
    ]

get_or-erase_idx :
    (xs : List ℕ) (i j : ℕ)
    → i ≤ length xs
    → get_or (erase_idx xs i) j 0 ≡ (if ltb j i then get_or xs j 0 else get_or xs (j + 1) 0)
get_or-erase_idx xs i j h =
    let size = length-take i xs in
    elim (Bool-cases (ltb j i)) [
      | inl b ↦ get_or-append (take i xs) (drop (i + 1) xs) j ∙ ground (arith, get_or-take i xs j 0)
      | inr b ↦
          get_or-append (take i xs) (drop (i + 1) xs) j
          ∙ ground (arith, get_or-drop (i + 1) xs (j - i) 0)
    ]

-- The buffer with the bytes behind the cursor moved by one.
pub open_gap_lem :
    (l : Line)
    → IsLine l
    → l.end + 1 < 256
    → (mem : List ℕ) × (open_gap l ≡ some mem)
      × (length mem ≡ 256)
      × ((j : ℕ)
          → get_or mem j 0 ≡ (
              if ltb j (l.pos + 1)
              then get_or l.buf j 0
              else if ltb j (l.end + 1)
              then get_or l.buf (j - 1) 0
              else get_or l.buf j 0))
unfolding open_gap
open_gap_lem l v room =
    let inside = v.inside in
    let size = v.size in
    elim (Bool-cases (l.end == l.pos)) [
      | inl e ↦ (l.buf, rw e refl, size, λ j. ground arith)
      | inr e ↦
          let (mem, m, c) =
            memmove-IsCopied l.buf (l.pos + 1) l.pos (l.end - l.pos) (omega arith) (omega arith) in
          (mem, rw e m, omega (arith, c.same_length), λ j. ground (arith, c.bytes j))
    ]

pub close_gap_lem :
    (l : Line)
    → IsLine l
    → 0 < l.pos
    → (mem : List ℕ) × (close_gap l ≡ some mem)
      × (length mem ≡ 256)
      × ((j : ℕ)
          → get_or mem j 0 ≡ (
              if ltb j (l.pos - 1)
              then get_or l.buf j 0
              else if ltb j (l.end - 1)
              then get_or l.buf (j + 1) 0
              else get_or l.buf j 0))
unfolding close_gap
close_gap_lem l v some_left =
    let inside = v.inside in
    let size = v.size in
    let short = v.short in
    elim (Bool-cases (l.pos == l.end)) [
      | inl e ↦ (l.buf, rw e refl, size, λ j. ground arith)
      | inr e ↦
          let (mem, m, c) =
            memmove-IsCopied l.buf (l.pos - 1) l.pos (l.end - l.pos) (omega arith) (omega arith) in
          (mem, rw e m, omega (arith, c.same_length), λ j. ground (arith, c.bytes j))
    ]

pub delete_gap_lem :
    (l : Line)
    → IsLine l
    → l.pos < l.end
    → (mem : List ℕ) × (memmove l.buf l.pos (l.pos + 1) (l.end - l.pos - 1) ≡ some mem)
      × (length mem ≡ 256)
      × ((j : ℕ)
          → get_or mem j 0 ≡ (
              if ltb j l.pos
              then get_or l.buf j 0
              else if ltb j (l.end - 1)
              then get_or l.buf (j + 1) 0
              else get_or l.buf j 0))
delete_gap_lem l v more =
    let inside = v.inside in
    let size = v.size in
    let short = v.short in
    let (mem, m, c) =
      memmove-IsCopied l.buf l.pos (l.pos + 1) (l.end - l.pos - 1) (omega arith) (omega arith) in
    (mem, m, omega (arith, c.same_length), λ j. ground (arith, c.bytes j))

store_lem :
    (mem : List ℕ) (i c : ℕ)
    → i < length mem
    → (store mem i c ≡ some (patch mem i (c ∷ [])))
      × (length (patch mem i (c ∷ [])) ≡ length mem)
      × ((j : ℕ) → get_or (patch mem i (c ∷ [])) j 0 ≡ (if j == i then c else get_or mem j 0))
unfolding store
store_lem mem i c h = (
  splice_lem mem i (c ∷ []) (omega arith),
  length-patch mem i (c ∷ []) (omega arith),
  λ j. get_or-patch mem i (c ∷ []) j (omega arith) ∙ ground (arith, get_or-cons c [] (j - i)),
)

-- The text after a character is put in, and after one is taken out.
pub text-insert :
    (l : Line) (ch : ℕ)
    → IsLine l
    → l.end + 1 < 256
    → (mem : List ℕ) × (buf' : List ℕ) × (open_gap l ≡ some mem)
      × (store mem l.pos ch ≡ some buf')
      × (length buf' ≡ 256)
      × (take (l.end + 1) buf' ≡ insert_at (text l) l.pos ch)
text-insert l ch v room =
    let inside = v.inside in
    let size = v.size in
    let (mem, opened, size', at) = open_gap_lem l v room in
    let (stored, same, at') = store_lem mem l.pos ch (omega arith) in
    let buf' : List ℕ = patch mem l.pos (ch ∷ []) in
    let whole = length-take l.end l.buf in
    (
      mem,
      buf',
      opened,
      stored,
      same ∙ size',
      list_ext 0 (take (l.end + 1) buf') (insert_at (text l) l.pos ch)
          (omega
            (arith, length-take (l.end + 1) buf', length-insert_at (text l) l.pos ch (omega arith)))
          (λ j p.
            let here : j < l.end + 1 = omega (arith, length-take (l.end + 1) buf') in
            ground (
              arith,
              get_or-take (l.end + 1) buf' j 0,
              at' j,
              at j,
              get_or-insert_at (text l) l.pos ch j,
              get_or-take l.end l.buf j 0,
              get_or-take l.end l.buf (j - 1) 0,
            )),
    )

-- For a buffer in which the bytes behind place `i` have moved down.
pub text-erase :
    (l : Line) (i : ℕ) (mem : List ℕ)
    → IsLine l
    → i < l.end
    → length mem ≡ 256
    → ((j : ℕ)
        → get_or mem j 0 ≡ (
            if ltb j i
            then get_or l.buf j 0
            else if ltb j (l.end - 1)
            then get_or l.buf (j + 1) 0
            else get_or l.buf j 0))
    → (buf' : List ℕ) × (store mem (l.end - 1) b' ' ≡ some buf')
      × (length buf' ≡ 256)
      × (take (l.end - 1) buf' ≡ erase_idx (text l) i)
text-erase l i mem v low size' at =
    let inside = v.inside in
    let size = v.size in
    let short = v.short in
    let (stored, same, at') = store_lem mem (l.end - 1) b' ' (omega arith) in
    let buf' : List ℕ = patch mem (l.end - 1) (b' ' ∷ []) in
    let whole = length-take l.end l.buf in
    (
      buf',
      stored,
      same ∙ size',
      list_ext 0 (take (l.end - 1) buf') (erase_idx (text l) i)
          (omega (arith, length-take (l.end - 1) buf', length-erase_idx (text l) i (omega arith)))
          (λ j p.
            let here : j < l.end - 1 = omega (arith, length-take (l.end - 1) buf') in
            ground (
              arith,
              get_or-take (l.end - 1) buf' j 0,
              at' j,
              at j,
              get_or-erase_idx (text l) i j,
              get_or-take l.end l.buf j 0,
              get_or-take l.end l.buf (j + 1) 0,
            )),
    )
