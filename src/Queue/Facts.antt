-- ===== src/Queue/Facts.antt =====
-- The invariant of a queue, and what its masked index arithmetic computes under it.
use native.Mathlib.Nat.{mod-eq_of_lt, mod-eq-sub-mod, one-le-pow}
use native.Mathlib.Decide.{dec_lt}
use libos.Prelude.{
  ℕ, zero, suc, ◌+◌, ◌-◌, ◌*◌, ◌%◌, ◌^◌, ◌≤◌, ◌<◌, ◌≡◌, ap, sym, ◌∙◌, arith, length, bit_and,
  if◌then◌else◌, ltb,
}
use libos.Prelude.Bits.{IsPowerOfTwo, IsPowerOfTwo-small, bit_and_mask, mod_unique}
use libos.Prelude.Words.{sub32, sub64}
use libos.Queue.{Queue, wrap, get_avail, get_space}

pub record IsValid (q : Queue) : Type 0 where
  pub order : IsPowerOfTwo q.size
  pub small : q.size ≤ 2 ^ 31
  pub storage : q.size ≤ length q.buf
  pub head_in : q.head < q.size
  pub tail_in : q.tail < q.size

-- The number of bytes from index `h` on up to index `t`, going round at `size`.
abbrev pub distance : ℕ → ℕ → ℕ → ℕ
distance size h t = if ltb t h then t + size - h else t - h

-- An index below `2 * size`, going round at `size`.
abbrev pub round : ℕ → ℕ → ℕ
round size x = if ltb x size then x else x - size

module _ {q : Queue} (v : IsValid q) where
  pub wrap_lem : (x : ℕ) → wrap q x ≡ x % q.size
  unfolding wrap
  wrap_lem x =
      let (k, e) = v.order in
      let mask : sub32 q.size 1 ≡ q.size - 1 = omega (arith, v.small, v.head_in) in
      ap (λ (t : ℕ). bit_and x t) mask
      ∙ ap (λ (t : ℕ). bit_and x (t - 1)) e
      ∙ bit_and_mask k x
      ∙ ap (λ (t : ℕ). x % t) (sym e)

  pub wrap-round : (x : ℕ) → x < q.size + q.size → wrap q x ≡ round q.size x
  wrap-round x h = ground (
    arith,
    wrap_lem x,
    mod-eq_of_lt {n = x} {m = q.size},
    mod-eq-sub-mod {n = x} {m = q.size},
    mod-eq_of_lt {n = x - q.size} {m = q.size},
  )

  -- A difference that wrapped at a larger power of two is masked to the right one.
  pub wrap-below : (j x d : ℕ) → 31 ≤ j → 0 < d → d ≤ q.size → x ≡ 2 ^ j - d → wrap q x ≡ q.size - d
  wrap-below j x d hj pos le e =
      let (c, m) = IsPowerOfTwo-small q.size v.order v.small j hj in
      let whole : 0 < 2 ^ j = one-le-pow j 2 (omega arith) in
      wrap_lem x ∙ mod_unique x (c - 1) (q.size - d) q.size (multiple c m whole) (omega arith)
    where
      multiple : (c : ℕ) → 2 ^ j ≡ c * q.size → 0 < 2 ^ j → x ≡ q.size - d + (c - 1) * q.size
      multiple zero m h = omega arith
      multiple (suc c) m h =
          omega (arith, ap (λ (t : ℕ). t * q.size) (let r : suc c - 1 ≡ c = omega arith in r))

  wrap-sub :
      (j x a b : ℕ)
      → 31 ≤ j
      → a < q.size
      → b < q.size
      → x ≡ (if ltb a b then 2 ^ j - (b - a) else a - b)
      → wrap q x ≡ distance q.size b a
  wrap-sub j x a b hj ha hb e = elim (dec_lt a b) [
    | yes p ↦ wrap-below j x (b - a) hj (omega arith) (omega arith) (ground arith) ∙ ground arith
    | no p ↦ wrap-round x (ground arith) ∙ ground arith
  ]

  pub get_avail_lem : get_avail q ≡ distance q.size q.head q.tail
  unfolding get_avail
  get_avail_lem =
      wrap-sub 32 (sub32 q.tail q.head) q.tail q.head (omega arith) v.tail_in v.head_in
        (ground (arith, v.small, v.head_in, v.tail_in))

  pub avail_lem : wrap q (sub64 q.tail q.head) ≡ distance q.size q.head q.tail
  avail_lem =
      wrap-sub 64 (sub64 q.tail q.head) q.tail q.head (omega arith) v.tail_in v.head_in
        (ground (arith, v.small, v.head_in, v.tail_in))

  wrap-sub-one :
      (j x a b : ℕ)
      → 31 ≤ j
      → a < q.size
      → b < q.size
      → x ≡ (if ltb b a then a - b - 1 else 2 ^ j - (b - a + 1))
      → wrap q x ≡ q.size - 1 - distance q.size a b
  wrap-sub-one j x a b hj ha hb e = elim (dec_lt b a) [
    | yes p ↦ wrap-round x (ground arith) ∙ ground arith
    | no p ↦ wrap-below j x (b - a + 1) hj (omega arith) (omega arith) (ground arith) ∙ ground arith
  ]

  pub get_space_lem : get_space q ≡ q.size - 1 - distance q.size q.head q.tail
  unfolding get_space
  get_space_lem =
      wrap-sub-one 32 (sub32 (sub32 q.head q.tail) 1) q.head q.tail (omega arith) v.head_in
        v.tail_in (ground (arith, v.small, v.head_in, v.tail_in))

  pub space_lem :
      wrap q (sub64 (sub64 q.head q.tail) 1) ≡ q.size - 1 - distance q.size q.head q.tail
  space_lem =
      wrap-sub-one 64 (sub64 (sub64 q.head q.tail) 1) q.head q.tail (omega arith) v.head_in
        v.tail_in (ground (arith, v.small, v.head_in, v.tail_in))

pub distance-lt : (size h t : ℕ) → h < size → t < size → distance size h t < size
distance-lt size h t p r = ground arith

pub round-lt : (size x : ℕ) → x < size + size → round size x < size
round-lt size x p = ground arith
