-- ===== src/Strings/Copy/Laws.antt =====
-- All ways of copying agree with one simultaneous write of the source's bytes.
use native.Mathlib.Decide.{dec_lt}
use libos.Prelude.{
  ℕ, zero, suc, ◌+◌, ◌-◌, ◌%◌, ◌≤◌, ◌≡◌, ◌⊎◌, inl, inr, refl, ap, sym, ◌∙◌, arith, Option, some,
  List, [], ◌∷◌, ltb, lt→ltb, le→ltb, ◌==◌, Bool-cases, if◌then◌else◌, length, get_or, tabulate,
  slice, splice, patch, slice_lem, splice_lem, patch-patch, patch-patch_below, get_or-tabulate,
  patch-nil_at, get_or-patch, length-patch, length-tabulate, tabulate-ext, tabulate-add,
}
use libos.Strings.Copy.{copy_bytes, align_loop, word_loop, memcpy, copy_down, memmove, Cursor}

-- The `n` bytes from `s` on, and the memory with them at `d`.
abbrev pub bytes_at : List ℕ → ℕ → ℕ → List ℕ
bytes_at mem s n = tabulate n (λ i. get_or mem (s + i) 0)

unfoldable pub moved : List ℕ → ℕ → ℕ → ℕ → List ℕ
moved mem d s n = patch mem d (bytes_at mem s n)

length-bytes_at : (mem : List ℕ) (s n : ℕ) → length (bytes_at mem s n) ≡ n
length-bytes_at mem s n = length-tabulate n (λ i. get_or mem (s + i) 0)

pub length-moved :
    (mem : List ℕ) (d s n : ℕ) → d + n ≤ length mem → length (moved mem d s n) ≡ length mem
unfolding moved
length-moved mem d s n h =
    length-patch mem d (bytes_at mem s n) (omega (arith, length-bytes_at mem s n))

moved-zero : (mem : List ℕ) (d s : ℕ) → moved mem d s 0 ≡ mem
unfolding moved
moved-zero mem d s = patch-nil_at mem d

-- One chunk of `w` bytes.
chunk_lem :
    (mem : List ℕ) (d s w : ℕ)
    → d + w ≤ length mem
    → s + w ≤ length mem
    → (slice mem s w ≡ some (bytes_at mem s w))
      × (splice mem d (bytes_at mem s w) ≡ some (moved mem d s w))
unfolding moved
chunk_lem mem d s w hd hs = (
  slice_lem mem s w hs,
  splice_lem mem d (bytes_at mem s w) (omega (arith, length-bytes_at mem s w)),
)

-- Going up: a chunk of `w` bytes and then the rest are one move, if the target does not lie above
-- the source, or lies behind its end.
moved-add :
    (mem : List ℕ) (d s w n : ℕ)
    → d + (w + n) ≤ length mem
    → (d ≤ s) ⊎ (s + (w + n) ≤ d)
    → moved (moved mem d s w) (d + w) (s + w) n ≡ moved mem d s (w + n)
unfolding moved
moved-add mem d s w n fits safe =
    let one = length-bytes_at mem s w in
    ap (patch (patch mem d (bytes_at mem s w)) (d + w)) (
      tabulate-ext n (λ i. get_or (patch mem d (bytes_at mem s w)) (s + w + i) 0)
        (λ i. get_or mem (s + (w + i)) 0)
        (λ i p.
          get_or-patch mem d (bytes_at mem s w) (s + w + i) (omega arith)
          ∙ ground (
            arith,
            one,
            ap (λ j. get_or mem j 0) {x = s + w + i} {y = s + (w + i)} (omega arith),
          )))
    ∙ ap
        (λ j.
          patch (patch mem d (bytes_at mem s w)) j (tabulate n (λ i. get_or mem (s + (w + i)) 0)))
        {x = d + w} {y = d + length (bytes_at mem s w)} (omega arith)
    ∙ patch-patch mem d (bytes_at mem s w) (tabulate n (λ i. get_or mem (s + (w + i)) 0))
        (omega (arith, length-tabulate n (λ i. get_or mem (s + (w + i)) 0)))
    ∙ ap (patch mem d) (sym (tabulate-add w n (λ i. get_or mem (s + i) 0)))

-- One loop is described from any point of the way: `k` bytes have been moved and `r` are left.
module _ (mem : List ℕ) (d s n : ℕ) (fits_d : d + n ≤ length mem) (fits_s : s + n ≤ length mem)
    (safe : (d ≤ s) ⊎ (s + n ≤ d)) where
  abbrev at : ℕ → ℕ → Cursor
  at k r = (moved mem d s k, d + k, s + k, r)

  abbrev Reaches : Option Cursor → Type 0
  Reaches result = (k : ℕ) × (r : ℕ) × (result ≡ some (at k r)) × (k + r ≡ n)

  chunk_at :
      (k w : ℕ)
      → k + w ≤ n
      → (slice (moved mem d s k) (s + k) w ≡ some (bytes_at (moved mem d s k) (s + k) w))
        × (splice (moved mem d s k) (d + k) (bytes_at (moved mem d s k) (s + k) w)
            ≡ some (moved mem d s (k + w)))
  chunk_at k w le =
      let same = length-moved mem d s k (omega arith) in
      let (got, put) = chunk_lem (moved mem d s k) (d + k) (s + k) w (omega arith) (omega arith) in
      (got, put ∙ ap some (moved-add mem d s k w (omega arith) (ground arith)))

  copy_bytes_at :
      (r k : ℕ)
      → k + r ≡ n
      → copy_bytes (moved mem d s k) (d + k) (s + k) r ≡ some (moved mem d s n)
  unfolding copy_bytes
  copy_bytes_at zero k e = ap (λ j. some (moved mem d s j)) (omega arith)
  copy_bytes_at (suc r) k e =
      let (got, put) = chunk_at k 1 (omega arith) in
      rw (got, put)
        (ap (λ j. copy_bytes (moved mem d s (k + 1)) j (s + k + 1) r) {y = d + (k + 1)}
            (omega arith)
          ∙ ap (λ j. copy_bytes (moved mem d s (k + 1)) (d + (k + 1)) j r) {y = s + (k + 1)}
              (omega arith)
          ∙ copy_bytes_at r (k + 1) (omega arith))

  align_at : (r k : ℕ) → k + r ≡ n → Reaches (align_loop (moved mem d s k) (d + k) (s + k) r)
  unfolding align_loop
  align_at zero k e = (k, 0, refl, e)
  align_at (suc r) k e = elim (Bool-cases ((d + k) % 8 == 0)) [
    | inl t ↦ (k, suc r, rw t refl, e)
    | inr f ↦
        let (got, put) = chunk_at k 1 (omega arith) in
        let (k', r', e', sum) = align_at r (k + 1) (omega arith) in
        (
          k',
          r',
          rw (f, got, put)
              (ap (λ j. align_loop (moved mem d s (k + 1)) j (s + k + 1) r) {y = d + (k + 1)}
                  (omega arith)
                ∙ ap (λ j. align_loop (moved mem d s (k + 1)) (d + (k + 1)) j r) {y = s + (k + 1)}
                    (omega arith)
                ∙ e'),
          sum,
        )
  ]

  word_at :
      (fuel r k : ℕ) → k + r ≡ n → Reaches (word_loop fuel (moved mem d s k) (d + k) (s + k) r)
  unfolding word_loop
  word_at zero r k e = (k, r, refl, e)
  word_at (suc fuel) r k e = elim (dec_lt 7 r) [
    | no p ↦ (k, r, rw (le→ltb 7 r (omega arith)) refl, e)
    | yes p ↦
        let (got, put) = chunk_at k 8 (omega arith) in
        let (k', r', e', sum) = word_at fuel (r - 8) (k + 8) (omega arith) in
        (
          k',
          r',
          rw (lt→ltb 7 r p, got, put)
              (ap (λ j. word_loop fuel (moved mem d s (k + 8)) j (s + k + 8) (r - 8))
                  {y = d + (k + 8)} (omega arith)
                ∙ ap (λ j. word_loop fuel (moved mem d s (k + 8)) (d + (k + 8)) j (r - 8))
                    {y = s + (k + 8)} (omega arith)
                ∙ e'),
          sum,
        )
  ]

  from_start :
      {A : Type 0} (f : List ℕ → ℕ → ℕ → A) → f mem d s ≡ f (moved mem d s 0) (d + 0) (s + 0)
  from_start f =
      ap (λ m. f m d s) (sym (moved-zero mem d s))
      ∙ ap (λ j. f (moved mem d s 0) j s) {y = d + 0} (omega arith)
      ∙ ap (λ j. f (moved mem d s 0) (d + 0) j) {y = s + 0} (omega arith)

  copy_bytes-moved : copy_bytes mem d s n ≡ some (moved mem d s n)
  copy_bytes-moved = from_start (λ m j i. copy_bytes m j i n) ∙ copy_bytes_at n 0 (omega arith)

  memcpy-moved : memcpy mem d s n ≡ some (moved mem d s n)
  unfolding memcpy
  memcpy-moved = elim (Bool-cases (d % 8 == s % 8)) [
    | inr f ↦ rw f copy_bytes-moved
    | inl t ↦
        let (k₁, r₁, e₁, sum₁) = align_at n 0 (omega arith) in
        let (k₂, r₂, e₂, sum₂) = word_at r₁ r₁ k₁ sum₁ in
        rw (t, from_start (λ m j i. align_loop m j i n) ∙ e₁, e₂) (copy_bytes_at r₂ k₂ sum₂)
  ]

module _ (mem : List ℕ) (d s n : ℕ) (fits_d : d + n ≤ length mem) (fits_s : s + n ≤ length mem)
    (below : s ≤ d) where
  moved_down :
      (i r : ℕ)
      → suc i + r ≡ n
      → moved (moved mem (d + suc i) (s + suc i) r) (d + i) (s + i) 1
        ≡ moved mem (d + i) (s + i) (suc r)
  unfolding moved
  moved_down i r e =
      let c : ℕ = get_or mem (s + i + 0) 0 in
      let upper : List ℕ = bytes_at mem (s + suc i) r in
      let size = length-bytes_at mem (s + suc i) r in
      ap (λ x. patch (patch mem (d + suc i) upper) (d + i) (x ∷ []))
        (get_or-patch mem (d + suc i) upper (s + i + 0) (omega arith) ∙ ground arith)
      ∙ ap (λ j. patch (patch mem j upper) (d + i) (c ∷ [])) {y = d + i + 1} (omega arith)
      ∙ patch-patch_below mem (d + i) (c ∷ []) upper (omega arith)
      ∙ ap (λ l. patch mem (d + i) (c ∷ l))
          (tabulate-ext r (λ j. get_or mem (s + suc i + j) 0) (λ j. get_or mem (s + i + suc j) 0)
            (λ j p. ap (λ k. get_or mem k 0) (omega arith)))

  copy_down_at :
      (i r : ℕ) → i + r ≡ n → copy_down (moved mem (d + i) (s + i) r) d s i ≡ some (moved mem d s n)
  unfolding copy_down
  copy_down_at zero r e =
      ap (λ j. some (moved mem j (s + 0) r)) {y = d} (omega arith)
      ∙ ap (λ j. some (moved mem d j r)) {y = s} (omega arith)
      ∙ ap (λ j. some (moved mem d s j)) (omega arith)
  copy_down_at (suc i) r e =
      let here : List ℕ = moved mem (d + suc i) (s + suc i) r in
      let same = length-moved mem (d + suc i) (s + suc i) r (omega arith) in
      let (got, put) = chunk_lem here (d + i) (s + i) 1 (omega arith) (omega arith) in
      rw (got, put, moved_down i r e) (copy_down_at i (suc r) (omega arith))

  copy_down-moved : copy_down mem d s n ≡ some (moved mem d s n)
  copy_down-moved =
      ap (λ m. copy_down m d s n) (sym (moved-zero mem (d + n) (s + n)))
      ∙ copy_down_at n 0 (omega arith)

-- The memory `mem'` is `mem` with the `n` bytes from `s` on copied to `d`, as if all were read first.
pub record IsCopied (mem : List ℕ) (d s n : ℕ) (mem' : List ℕ) : Type 0 where
  pub same_length : length mem' ≡ length mem
  pub bytes :
      (j : ℕ)
      → get_or mem' j 0 ≡ (
          if ltb j d
          then get_or mem j 0
          else if ltb j (d + n)
          then get_or mem (s + (j - d)) 0
          else get_or mem j 0)

moved-IsCopied :
    (mem : List ℕ) (d s n : ℕ) → d + n ≤ length mem → IsCopied mem d s n (moved mem d s n)
unfolding moved
moved-IsCopied mem d s n fits =
    let size = length-bytes_at mem s n in
    record {
      same_length = length-patch mem d (bytes_at mem s n) (omega arith);
      bytes = λ j.
          get_or-patch mem d (bytes_at mem s n) j (omega arith)
          ∙ ground (arith, get_or-tabulate n (λ k. get_or mem (s + k) 0) (j - d) 0);
    }

-- For ranges inside the memory, overlapping in any way, `memmove` returns, without an access outside
-- the memory, the memory in which the `n` bytes of the source, as they were before the call, stand
-- at the destination and all else is unchanged.
pub memmove-IsCopied :
    (mem : List ℕ) (d s n : ℕ)
    → d + n ≤ length mem
    → s + n ≤ length mem
    → (mem' : List ℕ) × (memmove mem d s n ≡ some mem') × IsCopied mem d s n mem'
unfolding memmove
memmove-IsCopied mem d s n hd hs = elim (dec_lt d s) [
  | yes p ↦ (
    moved mem d s n,
    rw (lt→ltb d s p) (memcpy-moved mem d s n hd hs (inl (omega arith))),
    moved-IsCopied mem d s n hd,
  )
  | no p ↦ (
    moved mem d s n,
    rw (le→ltb d s (omega arith)) (copy_down-moved mem d s n hd hs (omega arith)),
    moved-IsCopied mem d s n hd,
  )
]

-- For ranges inside the memory where the destination does not lie inside the source behind its
-- start, the word loop of `memcpy` gives the same memory as the plain loop over bytes, and that is
-- a faithful copy.
pub memcpy-eq-copy_bytes :
    (mem : List ℕ) (d s n : ℕ)
    → d + n ≤ length mem
    → s + n ≤ length mem
    → (d ≤ s) ⊎ (s + n ≤ d)
    → (memcpy mem d s n ≡ copy_bytes mem d s n)
      × ((mem' : List ℕ) × (memcpy mem d s n ≡ some mem') × IsCopied mem d s n mem')
memcpy-eq-copy_bytes mem d s n hd hs safe = (
  memcpy-moved mem d s n hd hs safe ∙ sym (copy_bytes-moved mem d s n hd hs safe),
  (moved mem d s n, memcpy-moved mem d s n hd hs safe, moved-IsCopied mem d s n hd),
)
