-- ===== src/Drivers/Tests.antt =====
-- A device with two names and two drivers.
use libos.Prelude.{ℕ, ◌+◌, ◌≡◌, refl, arith, some, none, List, [], ◌∷◌, length}
use libos.Errors.{Result, ok}
use libos.Strings.Search.{memchr}
use libos.Strings.Compare.{strcmp}
use libos.Drivers.{
  Device, strlist_iterate, find_compat, match_loop, match_compat, bind_loop, bind_driver,
}
use libos.Drivers.Match.{flat, strings}
use libos.Drivers.Course.{Course}
use libos.Drivers.Bound.{tables, IsBound, bind_driver-IsBound}

abbrev names : List (List ℕ)
names = (b'p' ∷ b'q' ∷ []) ∷ (b's' ∷ []) ∷ []

-- A driver for "r", and one for "t" and "s".
abbrev drivers : List (List (List ℕ))
drivers = ((b'r' ∷ []) ∷ []) ∷ ((b't' ∷ []) ∷ (b's' ∷ []) ∷ []) ∷ []

-- The probe counts its calls and accepts.
abbrev accepts : ℕ → ℕ → ℕ → Result (Unit {0}) × ℕ
accepts i k calls = (ok tt, calls + 1)

abbrev unbound : Device ℕ
unbound = record { driver = none; priv = 0 }

abbrev bound : Device ℕ
bound = record { driver = some 1; priv = 1 }

second_driver : bind_driver accepts (tables drivers) unbound (flat names) 5 ≡ some (ok tt, bound)
unfolding bind_driver bind_loop match_compat match_loop strlist_iterate find_compat memchr strcmp
    flat strings tables
second_driver = refl

bind_driver-IsBound_example :
    (ret : Result (Unit {0})) × (dev : Device ℕ) × (bind_driver accepts
        (tables drivers)
        unbound
        (flat names)
        (length (flat names))
      ≡ some (ret, dev))
    × Course accepts names drivers 0 0 ret dev
    × IsBound names drivers 0 ret dev
bind_driver-IsBound_example =
    bind_driver-IsBound accepts drivers names 0
      (
        (λ e. absurd (omega arith), (λ e. absurd (omega arith), tt)),
        ((λ e. absurd (omega arith), tt), tt),
      )
      (
        ((λ e. absurd (omega arith), tt), tt),
        (((λ e. absurd (omega arith), tt), ((λ e. absurd (omega arith), tt), tt)), tt),
      )
