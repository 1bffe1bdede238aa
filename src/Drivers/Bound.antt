-- ===== src/Drivers/Bound.antt =====
-- When a device has a driver after `libos_bind_driver`.
use libos.Prelude.{
  ℕ, suc, ◌+◌, ◌≡◌, ◌⊎◌, inl, inr, refl, ap, ◌∙◌, arith, true, false, Option, some, none, List, [],
  ◌∷◌, get_elem?, length,
}
use libos.Errors.{Error, Result, ok, err, unhandled}
use libos.Drivers.{Device, is_unhandled, bind_loop, bind_driver}
use libos.Drivers.Match.{flat, strings, AllNoNul, Matched, match_compat-Matched}
use libos.Drivers.Course.{
  Course, exhausted, passed_over, declined, refused, accepted, is_unhandled-cases,
}

-- The drivers with their names in memory.
unfoldable pub tables : List (List (List ℕ)) → List (List (List ℕ))
tables [] = []
tables (names ∷ drivers) = strings names ∷ tables drivers

abbrev pub AllNames : List (List (List ℕ)) → Type 0
AllNames [] = Unit {0}
AllNames (names ∷ drivers) = AllNoNul names × AllNames drivers

-- The device has the driver that accepted it, of which one name is one of the device's; or it has none, and the
-- call failed.
abbrev pub IsBound :
    {D : Type 0} → List (List ℕ) → List (List (List ℕ)) → ℕ → Result (Unit {0}) → Device D → Type 0
IsBound strs drivers i ret dev =
    ((d : ℕ) × (names : List (List ℕ)) × (m : ℕ) × (j : ℕ) × (str : List ℕ) × (ret ≡ ok tt)
      × (dev.driver ≡ some (i + d))
      × (get_elem? drivers d ≡ some names)
      × (get_elem? strs m ≡ some str)
      × (get_elem? names j ≡ some str))
    ⊎ ((e : Error) × (ret ≡ err e) × (dev.driver ≡ none))

-- That a call returns, after a course of the search, and binds.
abbrev Binds :
    {D : Type 0}
    → (ℕ → ℕ → D → Result (Unit {0}) × D)
    → List (List ℕ)
    → List (List (List ℕ))
    → ℕ
    → D
    → Option (Result (Unit {0}) × Device D)
    → Type 0
Binds {D} probe strs drivers i priv outcome =
    (ret : Result (Unit {0})) × (dev : Device D) × (outcome ≡ some (ret, dev))
    × Course probe strs drivers i priv ret dev
    × IsBound strs drivers i ret dev

later :
    {D : Type 0} (strs names : List (List ℕ)) (drivers : List (List (List ℕ))) (i : ℕ)
    (ret : Result (Unit {0})) (dev : Device D)
    → IsBound strs drivers (i + 1) ret dev
    → IsBound strs (names ∷ drivers) i ret dev
later strs names drivers i ret dev (inr failed) = inr failed
later strs names drivers i ret dev (inl (d, found, m, j, str, good, driver, at, a, b)) =
    inl (suc d, found, m, j, str, good, driver ∙ ap some (omega arith), at, a, b)

module _ {D : Type 0} (probe : ℕ → ℕ → D → Result (Unit {0}) × D) where
  -- One driver of which a name matched, with the rest of the loop as it goes on.
  probed :
      (strs names : List (List ℕ)) (drivers : List (List (List ℕ))) (i k : ℕ) (priv : D)
      → Matched strs names (some k)
      → ((x : D)
          → Binds probe strs drivers (i + 1) x (
              bind_loop probe
                (tables drivers)
                (i + 1)
                (record { driver = none; priv = x })
                (flat strs)
                (length (flat strs))))
      → (ret : Result (Unit {0})) (x : D) → probe i k priv ≡ (ret, x)
      → Binds probe strs (names ∷ drivers) i priv (elim ret [
        | ok u ↦ some (ok u, record { driver = some i; priv = x })
        | err e ↦ elim (is_unhandled e) [
          | true ↦
              bind_loop probe
                (tables drivers)
                (i + 1)
                (record { driver = none; priv = x })
                (flat strs)
                (length (flat strs))
          | false ↦ some (err e, record { driver = none; priv = x })
        ]
      ])
  probed strs names drivers i k priv (m, str, a, b) next (ok tt) x answer = (
    ok tt,
    _,
    refl,
    accepted names drivers i k priv x (m, str, a, b) answer,
    inl (0, names, m, k, str, refl, ap some (omega arith), refl, a, b),
  )
  probed strs names drivers i k priv found next (err e) x answer =
      let (ret, dev, r, course, bound) = next x in
      elim (is_unhandled-cases e) [
        | inl (t, same) ↦ (
          ret,
          dev,
          rw t r,
          declined names drivers i k priv x ret dev found (answer ∙ ap (λ c. (err c, x)) same)
              course,
          later strs names drivers i ret dev bound,
        )
        | inr (f, other) ↦ (
          err e,
          _,
          rw f refl,
          refused names drivers i k priv x e found answer other,
          inr (e, refl, refl),
        )
      ]

  bind_loop-Binds :
      (strs : List (List ℕ)) (drivers : List (List (List ℕ))) (i : ℕ) (priv : D)
      → AllNoNul strs
      → AllNames drivers
      → Binds probe strs drivers i priv (
          bind_loop probe
            (tables drivers)
            i
            (record { driver = none; priv = priv })
            (flat strs)
            (length (flat strs)))
  unfolding bind_loop tables
  bind_loop-Binds strs [] i priv h hs =
      (err unhandled, _, refl, exhausted i priv, inr (unhandled, refl, refl))
  bind_loop-Binds strs (names ∷ drivers) i priv h (hn, hs) =
      let (found, e, matched) = match_compat-Matched strs names h hn in
      rw (e, bind_loop) (by_found found matched (λ x. bind_loop-Binds strs drivers (i + 1) x h hs))
    where
      by_found :
          (found : Option ℕ)
          → Matched strs names found
          → ((x : D)
              → Binds probe strs drivers (i + 1) x (
                  bind_loop probe
                    (tables drivers)
                    (i + 1)
                    (record { driver = none; priv = x })
                    (flat strs)
                    (length (flat strs))))
          → Binds probe strs (names ∷ drivers) i priv (elim found [
            | none ↦
                bind_loop probe
                  (tables drivers)
                  (i + 1)
                  (record { driver = none; priv = priv })
                  (flat strs)
                  (length (flat strs))
            | some k ↦
                let (ret, x) = probe i k priv in
                elim ret [
                  | ok u ↦ some (ok u, record { driver = some i; priv = x })
                  | err e ↦ elim (is_unhandled e) [
                    | true ↦
                        bind_loop probe
                          (tables drivers)
                          (i + 1)
                          (record { driver = none; priv = x })
                          (flat strs)
                          (length (flat strs))
                    | false ↦ some (err e, record { driver = none; priv = x })
                  ]
                ]
          ])
      by_found none m next =
          let (ret, dev, r, course, bound) = next priv in
          (
            ret,
            dev,
            r,
            passed_over names drivers i priv ret dev m course,
            later strs names drivers i ret dev bound,
          )
      by_found (some k) m next =
          probed strs names drivers i k priv m next (probe i k priv).0 (probe i k priv).1 refl

-- With lists of strings in memory, `libos_bind_driver` returns, whatever the probes do. A device without a driver
-- then has one exactly if the call succeeds, and one of that driver's names is one of the device's; after a
-- failure, of a probe too, it has none. The driver is the first with a common string that does not decline, and
-- its answer is returned; that the device is not handled is returned if there is none.
pub bind_driver-IsBound :
    {D : Type 0} (probe : ℕ → ℕ → D → Result (Unit {0}) × D) (drivers : List (List (List ℕ)))
    (strs : List (List ℕ)) (priv : D)
    → AllNoNul strs
    → AllNames drivers
    → (ret : Result (Unit {0})) × (dev : Device D) × (bind_driver probe
          (tables drivers)
          (record { driver = none; priv = priv })
          (flat strs)
          (length (flat strs))
        ≡ some (ret, dev))
      × Course probe strs drivers 0 priv ret dev
      × IsBound strs drivers 0 ret dev
unfolding bind_driver
bind_driver-IsBound probe drivers strs priv h hs = bind_loop-Binds probe strs drivers 0 priv h hs
