-- ===== src/Segments/Cover.antt =====
-- Which addresses the segments cover.
use libos.Prelude.{
  ℕ, zero, suc, ◌+◌, ◌-◌, ◌≤◌, ◌≡◌, ◌⊎◌, inl, inr, refl, ap, arith, Bool, true, false, Option, some,
  none, List, [], ◌∷◌, ◌++◌, ltb, le→ltb, ◌||◌, if◌then◌else◌, length, get_elem?, take,
}
use libos.Segments.{
  Segment, add_segment, set_segment, replace_by_last, exclude_one, exclude_loop, exclude_segment,
}

abbrev pub In : ℕ → Segment → Type 0
In x s = (s.start ≤ x) × (x ≤ s.end)

abbrev pub Covered : ℕ → List Segment → Type 0
Covered x [] = ⊥
Covered x (s ∷ segments) = In x s ⊎ Covered x segments

Covered-elem :
    (x i : ℕ) (segments : List Segment) (s : Segment)
    → get_elem? segments i ≡ some s
    → In x s
    → Covered x segments
Covered-elem x i [] s e h = absurd (cc)
Covered-elem x zero (t ∷ segments) s e h = inl (grind arith)
Covered-elem x (suc i) (t ∷ segments) s e h = inr (Covered-elem x i segments s e h)

Covered-append : (x : ℕ) (xs ys : List Segment) → Covered x (xs ++ ys) → Covered x xs ⊎ Covered x ys
Covered-append x [] ys h = inr h
Covered-append x (s ∷ xs) ys (inl h) = inl (inl h)
Covered-append x (s ∷ xs) ys (inr h) = elim (Covered-append x xs ys h) [
  | inl k ↦ inl (inr k)
  | inr k ↦ inr k
]

Covered-set :
    (x i : ℕ) (segments : List Segment) (t : Segment)
    → Covered x (set_segment segments i t)
    → Covered x segments ⊎ In x t
unfolding set_segment
Covered-set x i [] t h = inl h
Covered-set x zero (s ∷ segments) t (inl h) = inr h
Covered-set x zero (s ∷ segments) t (inr h) = inl (inr h)
Covered-set x (suc i) (s ∷ segments) t (inl h) = inl (inl h)
Covered-set x (suc i) (s ∷ segments) t (inr h) = elim (Covered-set x i segments t h) [
  | inl k ↦ inl (inr k)
  | inr k ↦ inr k
]

Covered-take :
    (x n : ℕ) (segments : List Segment) → Covered x (take n segments) → Covered x segments
Covered-take x zero segments h = elim h [ ]
Covered-take x (suc n) [] h = h
Covered-take x (suc n) (s ∷ segments) (inl h) = inl h
Covered-take x (suc n) (s ∷ segments) (inr h) = inr (Covered-take x n segments h)

if_lem :
    (x : ℕ) (segments p q : List Segment) (b : Bool)
    → (b ≡ true → Covered x p → Covered x segments)
    → (b ≡ false → Covered x q → Covered x segments)
    → Covered x (if b then p else q)
    → Covered x segments
if_lem x segments p q true f g h = f refl h
if_lem x segments p q false f g h = g refl h

Covered-replace_by_last :
    (x i : ℕ) (segments : List Segment)
    → Covered x (replace_by_last segments i)
    → Covered x segments
unfolding replace_by_last
Covered-replace_by_last x i segments h = by_last (get_elem? segments (length segments - 1)) refl h
  where
    by_last :
        (found : Option Segment)
        → get_elem? segments (length segments - 1) ≡ found
        → Covered x (elim found [
          | none ↦ segments
          | some last ↦ take (length segments - 1) (set_segment segments i last)
        ])
        → Covered x segments
    by_last none e h = h
    by_last (some last) e h =
        elim (Covered-set x i segments last
          (Covered-take x (length segments - 1) (set_segment segments i last) h)) [
            | inl k ↦ k
            | inr k ↦ Covered-elem x (length segments - 1) segments last e k
          ]

meets_lem :
    (s : Segment) (start end : ℕ)
    → (ltb s.end start || ltb end s.start) ≡ false
    → (start ≤ s.end) × (s.start ≤ end)
meets_lem s start end b = (ground arith, ground arith)

Covered-add_segment :
    (x start end : ℕ) (segments : List Segment)
    → Covered x (add_segment segments start end)
    → Covered x segments ⊎ In x (record { start = start; end = end })
unfolding add_segment
Covered-add_segment x start end segments h = by_room (ltb (length segments) 64) h
  where
    by_room :
        (b : Bool)
        → Covered x (if b then segments ++ (record { start = start; end = end } ∷ []) else segments)
        → Covered x segments ⊎ In x (record { start = start; end = end })
    by_room false h = inl h
    by_room true h = elim (Covered-append x segments (record { start = start; end = end } ∷ []) h) [
      | inl k ↦ inl k
      | inr (inl k) ↦ inr k
      | inr (inr k) ↦ elim k [ ]
    ]

lower_part :
    (x start : ℕ) (s : Segment)
    → start ≤ s.end
    → In x (record { start = s.start; end = start - 1 })
    → In x s
lower_part x start s reaches (lo, hi) = (lo, omega arith)

upper_part :
    (x end : ℕ) (s : Segment)
    → s.start ≤ end
    → In x (record { start = end + 1; end = s.end })
    → In x s
upper_part x end s begins (lo, hi) = (omega arith, hi)

-- The segments with the part of `s` behind `end` as another one.
abbrev grown : List Segment → Segment → ℕ → List Segment
grown segments s end = if ltb end s.end then add_segment segments (end + 1) s.end else segments

Covered-grown :
    (x : ℕ) (segments : List Segment) (s : Segment) (end : ℕ)
    → s.start ≤ end
    → Covered x (grown segments s end)
    → Covered x segments ⊎ In x s
Covered-grown x segments s end begins h = by_test (ltb end s.end) h
  where
    by_test :
        (b : Bool)
        → Covered x (if b then add_segment segments (end + 1) s.end else segments)
        → Covered x segments ⊎ In x s
    by_test false h = inl h
    by_test true h = elim (Covered-add_segment x (end + 1) s.end segments h) [
      | inl k ↦ inl k
      | inr k ↦ inr (upper_part x end s begins k)
    ]

-- What one round leaves was covered before.
Covered-exclude_one :
    (x i : ℕ) (segments : List Segment) (s : Segment) (start end : ℕ)
    → get_elem? segments i ≡ some s
    → Covered x (exclude_one segments i s start end)
    → Covered x segments
unfolding exclude_one
Covered-exclude_one x i segments s start end e h =
    if_lem x segments segments _ (ltb s.end start || ltb end s.start) (λ b k. k)
      (λ b.
        let (reaches, begins) = meets_lem s start end b in
        if_lem x segments _ _ (ltb s.start start)
          (λ b₁ k.
            elim (Covered-set x i (grown segments s end)
              (record { start = s.start; end = start - 1 }) k) [
                | inr t ↦ Covered-elem x i segments s e (lower_part x start s reaches t)
                | inl t ↦ elim (Covered-grown x segments s end begins t) [
                  | inl m ↦ m
                  | inr m ↦ Covered-elem x i segments s e m
                ]
              ])
          (λ b₁.
            if_lem x segments _ _ (ltb end s.end)
              (λ b₂ k. elim (Covered-set x i segments (record { start = end + 1; end = s.end }) k) [
                | inl t ↦ t
                | inr t ↦ Covered-elem x i segments s e (upper_part x end s begins t)
              ])
              (λ b₂ k. Covered-replace_by_last x i segments k)))
      h

exclude_loop_lem :
    (fuel x i : ℕ) (segments : List Segment) (start end : ℕ)
    → Covered x (exclude_loop fuel i segments start end)
    → Covered x segments
unfolding exclude_loop
exclude_loop_lem zero x i segments start end h = h
exclude_loop_lem (suc fuel) x i segments start end h =
    by_place (get_elem? segments i) refl
      (λ s k. exclude_loop_lem fuel x (i + 1) (exclude_one segments i s start end) start end k) h
  where
    by_place :
        (found : Option Segment)
        → get_elem? segments i ≡ found
        → ((s : Segment)
            → Covered x (exclude_loop fuel (i + 1) (exclude_one segments i s start end) start end)
            → Covered x (exclude_one segments i s start end))
        → Covered x (elim found [
          | none ↦ segments
          | some s ↦ exclude_loop fuel (i + 1) (exclude_one segments i s start end) start end
        ])
        → Covered x segments
    by_place none e later h = h
    by_place (some s) e later h = Covered-exclude_one x i segments s start end e (later s h)

-- Excluding a range never makes an address free that no segment had before, in whatever way the segments
-- are cut, moved or dropped.
pub exclude_segment-Covered :
    (x : ℕ) (segments : List Segment) (start end : ℕ)
    → Covered x (exclude_segment segments start end)
    → Covered x segments
unfolding exclude_segment
exclude_segment-Covered x segments start end h = exclude_loop_lem 64 x 0 segments start end h

swallowed :
    (s t : Segment) (start end : ℕ)
    → start ≤ s.start
    → s.start ≤ s.end
    → s.end ≤ end
    → exclude_one (s ∷ t ∷ []) 0 s start end ≡ t ∷ []
unfolding exclude_one replace_by_last set_segment
swallowed s t start end below order above =
    let outside : (ltb s.end start || ltb end s.start) ≡ false = ground arith in
    rw (outside, le→ltb s.start start below, le→ltb end s.end above) refl

-- When a range holds both of two segments, the second is moved to the place of the first and then passed
-- over: it stays free although it was to be excluded.
pub exclude_segment_skips :
    (s t : Segment) (start end : ℕ)
    → start ≤ s.start
    → s.start ≤ s.end
    → s.end ≤ end
    → exclude_segment (s ∷ t ∷ []) start end ≡ t ∷ []
unfolding exclude_segment exclude_loop
exclude_segment_skips s t start end below order above =
    ap (λ l. exclude_loop 63 1 l start end) (swallowed s t start end below order above)
