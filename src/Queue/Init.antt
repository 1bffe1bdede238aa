-- ===== src/Queue/Init.antt =====
-- `queue_init`: which sizes it takes, and the queue that it leaves.
use native.Mathlib.Nat.{one-le-pow}
use libos.Prelude.{
  ℕ, ◌-◌, ◌^◌, ◌≤◌, ◌<◌, ◌≡◌, ◌↔◌, inl, inr, Bool-cases, refl, arith, Bool, true, not, [], ◌==◌,
  ==_iff, if◌then◌else◌, bit_and, replicate, length-replicate,
}
use libos.Prelude.Bits.{IsPowerOfTwo, IsPowerOfTwo-test, test-IsPowerOfTwo}
use libos.Prelude.Words.{u32, sub64}
use libos.Errors.{ok, err, invalid}
use libos.Queue.{Queue, wrap, get_space, init}
use libos.Queue.Facts.{IsValid}
use libos.Queue.View.{contents}

fresh : Queue → ℕ → Queue
fresh q size = record q { buf = replicate size 0; head = 0; tail = 0; size = size }

init_lem :
    (has_room : ℕ → Bool) (q : Queue) (size : ℕ)
    → 0 < size
    → size ≤ 2 ^ 31
    → has_room size ≡ true
    → init has_room q size
      ≡ (if not (bit_and size (size - 1) == 0) then (err invalid, q) else (ok tt, fresh q size))
unfolding init fresh
init_lem has_room q size pos small room =
    let minus : sub64 size 1 ≡ size - 1 = omega arith in
    let word : u32 size ≡ size = omega arith in rw (minus, room, word)

-- For a size from 1 up to `2 ^ 31` with memory for it, `init` succeeds exactly when the size is a
-- power of two, and else returns `ERR_INVALID` and leaves the queue alone.
pub init_iff :
    (has_room : ℕ → Bool) (q : Queue) (size : ℕ)
    → 0 < size
    → size ≤ 2 ^ 31
    → has_room size ≡ true
    → (((init has_room q size).0 ≡ ok tt) ↔ IsPowerOfTwo size)
      × ((init has_room q size ≡ (err invalid, q)) ↔ (¬ IsPowerOfTwo size))
init_iff has_room q size pos small room =
    rw (init_lem has_room q size pos small room) (elim (Bool-cases (bit_and size (size - 1) == 0)) [
      | inl t ↦
          let p = test-IsPowerOfTwo size pos ((==_iff _ _).0 t) in
          rw t (((λ e. p), λ _. refl), ((λ e. cc), λ n. absurd (n p)))
      | inr f ↦
          let n : ¬ IsPowerOfTwo size = λ p. cc ((==_iff _ _).1 (IsPowerOfTwo-test size p)) in
          rw f (((λ e. cc), λ p. absurd (n p)), ((λ e. n), λ _. refl))
    ])

-- For a power of two up to `2 ^ 31` with memory for it, `init` leaves a valid queue of that size with
-- nothing in it.
pub init-IsValid :
    (has_room : ℕ → Bool) (q : Queue) (size : ℕ)
    → IsPowerOfTwo size
    → size ≤ 2 ^ 31
    → has_room size ≡ true
    → IsValid (init has_room q size).1
      × ((init has_room q size).1.size ≡ size)
      × (contents (init has_room q size).1 ≡ [])
unfolding fresh
init-IsValid has_room q size p small room =
    let pos : 0 < size = omega (arith, p.1, one-le-pow p.0 2 (omega arith)) in
    rw (init_lem has_room q size pos small room, IsPowerOfTwo-test size p)
      (
        record {
          order = p;
          small = small;
          storage = omega (arith, length-replicate size (let z : ℕ = 0 in z));
          head_in = pos;
          tail_in = pos;
        },
        refl,
        refl,
      )

-- A size of 0 passes the test for a power of two: with an allocator that serves it, `init` reports
-- success, and the queue, which has no storage, reports room for `2 ^ 32 - 1` bytes.
pub init-zero :
    (has_room : ℕ → Bool) (q : Queue)
    → has_room 0 ≡ true
    → ((init has_room q 0).0 ≡ ok tt) × (get_space (init has_room q 0).1 ≡ 2 ^ 32 - 1)
unfolding init get_space wrap
init-zero has_room q room = rw room (refl, refl)
