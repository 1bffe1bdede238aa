-- ===== src/Drivers.antt =====
-- lib/driver.c: the drivers of a program, and which one a device gets.
pub mod Bound
pub mod Names
pub mod Match
pub mod Course
pub mod Tests
use libos.Prelude.{
  ℕ, zero, suc, ◌+◌, ◌-◌, Bool, true, false, Option, some, none, List, [], ◌∷◌, ltb, leb, ◌==◌,
  if◌then◌else◌, ◌>>=◌, length, drop,
}
use libos.Prelude.Int.{ℤ, pos, negsuc}
use libos.Errors.{
  Error, Result, ok, err, bad_tree, no_mem, no_trans, busy, invalid, bad_image, bad_addr, range,
  unhandled, not_found, would_block, unknown, hardware, no_resource,
}
use libos.Strings.Search.{memchr, is_zero}
use libos.Strings.Compare.{strcmp}

-- `strlist_iterate`: the position of the next string of the list and the position behind it. The outer
-- `none` is an access outside the list's object.
unfoldable pub strlist_iterate : List ℕ → ℕ → ℕ → Option (Option (ℕ × ℕ))
strlist_iterate strlist len position = if leb len position then some none else (do
  next ← memchr (drop position strlist) 0 (len - position)
  elim next [ none ↦ some none | some k ↦ some (some (position, position + k + 1)) ])

-- The inner loop of `match_compat`, over the strings `compat_list[i].compatible` from number `i` on.
unfoldable pub find_compat : List ℕ → List (List ℕ) → ℕ → Option (Option ℕ)
find_compat str [] i = some none
find_compat str (compatible ∷ compat_list) i =
    let rest = find_compat str compat_list (i + 1) in
    do z ← strcmp str compatible; if is_zero z then some (some i) else rest

-- The outer loop, on fuel: each round moves the position forward.
unfoldable pub match_loop : ℕ → List ℕ → ℕ → ℕ → List (List ℕ) → Option (Option ℕ)
match_loop zero strlist len position compat_list = none
match_loop (suc fuel) strlist len position compat_list = do
  next ← strlist_iterate strlist len position
  elim next [
    | none ↦ some none
    | some place ↦ do
      found ← find_compat (drop place.0 strlist) compat_list 0
      elim found [ some i ↦ some (some i) | none ↦ match_loop fuel strlist len place.1 compat_list ]
  ]

unfoldable pub match_compat : List ℕ → ℕ → List (List ℕ) → Option (Option ℕ)
match_compat strlist len compat_list = match_loop (len + 1) strlist len 0 compat_list

-- A device: the number of its driver, and what a probe changes beside it.
pub record Device (D : Type 0) : Type 0 where
  pub driver : Option ℕ
  pub priv : D

-- A test for the one error that goes on with the next driver.
unfoldable pub is_unhandled : Error → Bool
is_unhandled unhandled = true
is_unhandled bad_tree = false
is_unhandled no_mem = false
is_unhandled no_trans = false
is_unhandled busy = false
is_unhandled invalid = false
is_unhandled bad_image = false
is_unhandled bad_addr = false
is_unhandled range = false
is_unhandled not_found = false
is_unhandled would_block = false
is_unhandled unknown = false
is_unhandled hardware = false
is_unhandled no_resource = false

-- `libos_bind_driver`: a driver is its list of names, and `probe` what its function does, given the numbers
-- of the driver and of the name.
module _ {D : Type 0} (probe : ℕ → ℕ → D → Result (Unit {0}) × D) where
  unfoldable pub bind_loop :
      List (List (List ℕ)) → ℕ → Device D → List ℕ → ℕ → Option (Result (Unit {0}) × Device D)
  bind_loop [] i dev strlist len = some (err unhandled, dev)
  bind_loop (compatibles ∷ drivers) i dev strlist len =
      elim (match_compat strlist len compatibles) [
        | none ↦ none
        | some found ↦ elim found [
          | none ↦ bind_loop drivers (i + 1) dev strlist len
          | some k ↦
              let (ret, priv) = probe i k dev.priv in
              elim ret [
                | ok x ↦ some (ok x, record { driver = some i; priv = priv })
                | err e ↦ elim (is_unhandled e) [
                  | true ↦
                      bind_loop drivers (i + 1) (record { driver = none; priv = priv }) strlist len
                  | false ↦ some (err e, record { driver = none; priv = priv })
                ]
              ]
        ]
      ]

  unfoldable pub bind_driver :
      List (List (List ℕ)) → Device D → List ℕ → ℕ → Option (Result (Unit {0}) × Device D)
  bind_driver drivers dev strlist len = bind_loop drivers 0 dev strlist len
