-- ===== src/Prelude/Arrays.antt =====
-- Objects in memory as lists of bytes: a range read, a range written, and a byte written, each a
-- fault when it leaves the object.
use Prim.Native.Nat.{ℕ, ◌+◌, ◌-◌, ◌≤◌, ◌<◌}
use mathlib.Core.Path.{◌≡◌, refl, ap, sym, ◌∙◌}
use mathlib.Core.List.{List, [], ◌∷◌, ◌++◌}
use mathlib.Core.Option.{Option, none, some}
use native.Mathlib.Decide.{dec_lt}
use native.Mathlib.Omega.{arith}
use libos.Prelude.Tests.{ltb, leb, if◌then◌else◌, le→leb}
use libos.Prelude.Lists.{
  length, get_or, take, drop, tabulate, length-append, take-append-drop, length-take, length-drop,
  get_or-append_left, get_or-append_right, get_or-take, get_or-drop, take-tabulate, tabulate-ext,
  list_ext,
}

-- `mem[off .. off + len)`
unfoldable pub slice : List ℕ → ℕ → ℕ → Option (List ℕ)
slice mem off len = if leb (off + len) (length mem) then some (take len (drop off mem)) else none

-- `mem` with `bytes` at `off`
unfoldable pub patch : List ℕ → ℕ → List ℕ → List ℕ
patch mem off bytes = take off mem ++ (bytes ++ drop (off + length bytes) mem)

-- A write of `bytes` at `off`.
unfoldable pub splice : List ℕ → ℕ → List ℕ → Option (List ℕ)
splice mem off bytes =
    if leb (off + length bytes) (length mem) then some (patch mem off bytes) else none

-- `mem[off] = c`
unfoldable pub store : List ℕ → ℕ → ℕ → Option (List ℕ)
store mem off c = splice mem off (c ∷ [])

pub slice_lem :
    (mem : List ℕ) (off len : ℕ)
    → off + len ≤ length mem
    → slice mem off len ≡ some (tabulate len (λ i. get_or mem (off + i) 0))
unfolding slice
slice_lem mem off len h =
    ap (λ b. if b then some (take len (drop off mem)) else none) (le→leb _ _ h)
    ∙ ap some (
        take-tabulate len (drop off mem) 0 (omega (arith, length-drop off mem))
        ∙ tabulate-ext len (λ i. get_or (drop off mem) i 0) (λ i. get_or mem (off + i) 0)
            (λ i p. get_or-drop off mem i 0))

pub splice_lem :
    (mem : List ℕ) (off : ℕ) (bytes : List ℕ)
    → off + length bytes ≤ length mem
    → splice mem off bytes ≡ some (patch mem off bytes)
unfolding splice
splice_lem mem off bytes h = ap (λ b. if b then some (patch mem off bytes) else none) (le→leb _ _ h)

pub length-patch :
    (mem : List ℕ) (off : ℕ) (bytes : List ℕ)
    → off + length bytes ≤ length mem
    → length (patch mem off bytes) ≡ length mem
unfolding patch
length-patch mem off bytes h = omega (
  arith,
  length-append (take off mem) (bytes ++ drop (off + length bytes) mem),
  length-append bytes (drop (off + length bytes) mem),
  length-take off mem,
  length-drop (off + length bytes) mem,
)

pub patch-nil : (mem : List ℕ) → patch mem 0 [] ≡ mem
unfolding patch
patch-nil mem = refl

-- Inside the range the new bytes stand, outside it the old ones.
pub get_or-patch_inside :
    (mem : List ℕ) (off : ℕ) (bytes : List ℕ) (i : ℕ)
    → off ≤ length mem
    → i < length bytes
    → get_or (patch mem off bytes) (off + i) 0 ≡ get_or bytes i 0
unfolding patch
get_or-patch_inside mem off bytes i h p =
    ap (λ k. get_or (patch mem off bytes) k 0) (omega (arith, length-take off mem))
    ∙ get_or-append_right (take off mem) (bytes ++ drop (off + length bytes) mem) i 0
    ∙ get_or-append_left bytes (drop (off + length bytes) mem) i 0 p

pub get_or-patch_below :
    (mem : List ℕ) (off : ℕ) (bytes : List ℕ) (j : ℕ)
    → off ≤ length mem
    → j < off
    → get_or (patch mem off bytes) j 0 ≡ get_or mem j 0
unfolding patch
get_or-patch_below mem off bytes j h p =
    get_or-append_left (take off mem) (bytes ++ drop (off + length bytes) mem) j 0
      (omega (arith, length-take off mem))
    ∙ get_or-take off mem j 0 p

pub get_or-patch_above :
    (mem : List ℕ) (off : ℕ) (bytes : List ℕ) (j : ℕ)
    → off ≤ length mem
    → off + length bytes ≤ j
    → get_or (patch mem off bytes) j 0 ≡ get_or mem j 0
unfolding patch
get_or-patch_above mem off bytes j h p =
    ap (λ k. get_or (patch mem off bytes) k 0) (omega (arith, length-take off mem))
    ∙ get_or-append_right (take off mem) (bytes ++ drop (off + length bytes) mem)
        (length bytes + (j - off - length bytes)) 0
    ∙ get_or-append_right bytes (drop (off + length bytes) mem) (j - off - length bytes) 0
    ∙ get_or-drop (off + length bytes) mem (j - off - length bytes) 0
    ∙ ap (λ k. get_or mem k 0) (omega arith)

pub get_or-patch :
    (mem : List ℕ) (off : ℕ) (bytes : List ℕ) (j : ℕ)
    → off ≤ length mem
    → get_or (patch mem off bytes) j 0 ≡ (
        if ltb j off
        then get_or mem j 0
        else if ltb j (off + length bytes)
        then get_or bytes (j - off) 0
        else get_or mem j 0)
get_or-patch mem off bytes j h = elim (dec_lt j off) [
  | yes p ↦ get_or-patch_below mem off bytes j h p ∙ ground arith
  | no p ↦ elim (dec_lt j (off + length bytes)) [
    | yes r ↦
        ap (λ k. get_or (patch mem off bytes) k 0) {y = off + (j - off)} (omega arith)
        ∙ get_or-patch_inside mem off bytes (j - off) h (omega arith)
        ∙ ground arith
    | no r ↦ get_or-patch_above mem off bytes j h (omega arith) ∙ ground arith
  ]
]

pub get_or-append :
    (xs ys : List ℕ) (j : ℕ)
    → get_or (xs ++ ys) j 0
      ≡ (if ltb j (length xs) then get_or xs j 0 else get_or ys (j - length xs) 0)
get_or-append xs ys j = elim (dec_lt j (length xs)) [
  | yes p ↦ get_or-append_left xs ys j 0 p ∙ ground arith
  | no p ↦
      ap (λ k. get_or (xs ++ ys) k 0) {y = length xs + (j - length xs)} (omega arith)
      ∙ get_or-append_right xs ys (j - length xs) 0
      ∙ ground arith
]

-- Two adjacent writes are one.
pub patch-patch :
    (mem : List ℕ) (off : ℕ) (xs ys : List ℕ)
    → off + length xs + length ys ≤ length mem
    → patch (patch mem off xs) (off + length xs) ys ≡ patch mem off (xs ++ ys)
patch-patch mem off xs ys h =
    let both = length-append xs ys in
    let once = length-patch mem off xs (omega arith) in
    list_ext 0 (patch (patch mem off xs) (off + length xs) ys) (patch mem off (xs ++ ys))
      (length-patch (patch mem off xs) (off + length xs) ys (omega arith)
        ∙ once
        ∙ sym (length-patch mem off (xs ++ ys) (omega arith)))
      (λ j p. ground (
        arith,
        get_or-patch (patch mem off xs) (off + length xs) ys j (omega arith),
        get_or-patch mem off xs j (omega arith),
        get_or-patch mem off (xs ++ ys) j (omega arith),
        get_or-append xs ys (j - off),
        ap (λ k. get_or ys k 0) {x = j - off - length xs} {y = j - (off + length xs)} (omega arith),
      ))

pub patch-nil_at : (mem : List ℕ) (off : ℕ) → patch mem off [] ≡ mem
unfolding patch
patch-nil_at mem off =
    ap (λ k. take off mem ++ drop k mem) {y = off} (omega arith) ∙ take-append-drop off mem

-- Two adjacent writes, the upper one first.
pub patch-patch_below :
    (mem : List ℕ) (off : ℕ) (xs ys : List ℕ)
    → off + length xs + length ys ≤ length mem
    → patch (patch mem (off + length xs) ys) off xs ≡ patch mem off (xs ++ ys)
patch-patch_below mem off xs ys h =
    let both = length-append xs ys in
    let once = length-patch mem (off + length xs) ys (omega arith) in
    list_ext 0 (patch (patch mem (off + length xs) ys) off xs) (patch mem off (xs ++ ys))
      (length-patch (patch mem (off + length xs) ys) off xs (omega arith)
        ∙ once
        ∙ sym (length-patch mem off (xs ++ ys) (omega arith)))
      (λ j p. ground (
        arith,
        get_or-patch (patch mem (off + length xs) ys) off xs j (omega arith),
        get_or-patch mem (off + length xs) ys j (omega arith),
        get_or-patch mem off (xs ++ ys) j (omega arith),
        get_or-append xs ys (j - off),
        ap (λ k. get_or ys k 0) {x = j - off - length xs} {y = j - (off + length xs)} (omega arith),
      ))
