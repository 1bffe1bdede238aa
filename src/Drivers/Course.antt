-- ===== src/Drivers/Course.antt =====
-- How the loop of `libos_bind_driver` goes through the drivers, as a relation.
use libos.Prelude.{ℕ, ◌+◌, ◌≡◌, ◌≢◌, ◌⊎◌, inl, inr, refl, true, false, some, none, List, [], ◌∷◌}
use libos.Errors.{
  Error, Result, ok, err, bad_tree, no_mem, no_trans, busy, invalid, bad_image, bad_addr, range,
  unhandled, not_found, would_block, unknown, hardware, no_resource,
}
use libos.Drivers.{Device, is_unhandled}
use libos.Drivers.Match.{Matched}

-- The courses of a search through the drivers, of which the first has the number `i`, for a device with the
-- strings `strs`: a driver without a common string is passed over; one that has a common string is probed and
-- declines, refuses with another error, which ends the search, or accepts. The indices are the state that the
-- probes change, the value returned and the device at the end.
pub data Course {D : Type 0} (probe : ℕ → ℕ → D → Result (Unit {0}) × D) (strs : List (List ℕ))
    : List (List (List ℕ)) → ℕ → D → Result (Unit {0}) → Device D → Type 0 where
  exhausted :
      (i : ℕ) (x : D)
      → Course probe strs [] i x (err unhandled) (record { driver = none; priv = x })
  passed_over :
      (names : List (List ℕ)) (drivers : List (List (List ℕ))) (i : ℕ) (x : D)
      (ret : Result (Unit {0})) (dev : Device D)
      → Matched strs names none
      → Course probe strs drivers (i + 1) x ret dev
      → Course probe strs (names ∷ drivers) i x ret dev
  declined :
      (names : List (List ℕ)) (drivers : List (List (List ℕ))) (i k : ℕ) (x y : D)
      (ret : Result (Unit {0})) (dev : Device D)
      → Matched strs names (some k)
      → probe i k x ≡ (err unhandled, y)
      → Course probe strs drivers (i + 1) y ret dev
      → Course probe strs (names ∷ drivers) i x ret dev
  refused :
      (names : List (List ℕ)) (drivers : List (List (List ℕ))) (i k : ℕ) (x y : D) (e : Error)
      → Matched strs names (some k)
      → probe i k x ≡ (err e, y)
      → e ≢ unhandled
      → Course probe strs (names ∷ drivers) i x (err e) (record { driver = none; priv = y })
  accepted :
      (names : List (List ℕ)) (drivers : List (List (List ℕ))) (i k : ℕ) (x y : D)
      → Matched strs names (some k)
      → probe i k x ≡ (ok tt, y)
      → Course probe strs (names ∷ drivers) i x (ok tt) (record { driver = some i; priv = y })

pub is_unhandled-cases :
    (e : Error)
    → ((is_unhandled e ≡ true) × (e ≡ unhandled)) ⊎ ((is_unhandled e ≡ false) × (e ≢ unhandled))
unfolding is_unhandled
is_unhandled-cases unhandled = inl (refl, refl)
is_unhandled-cases bad_tree = inr (refl, λ q. cc)
is_unhandled-cases no_mem = inr (refl, λ q. cc)
is_unhandled-cases no_trans = inr (refl, λ q. cc)
is_unhandled-cases busy = inr (refl, λ q. cc)
is_unhandled-cases invalid = inr (refl, λ q. cc)
is_unhandled-cases bad_image = inr (refl, λ q. cc)
is_unhandled-cases bad_addr = inr (refl, λ q. cc)
is_unhandled-cases range = inr (refl, λ q. cc)
is_unhandled-cases not_found = inr (refl, λ q. cc)
is_unhandled-cases would_block = inr (refl, λ q. cc)
is_unhandled-cases unknown = inr (refl, λ q. cc)
is_unhandled-cases hardware = inr (refl, λ q. cc)
is_unhandled-cases no_resource = inr (refl, λ q. cc)
