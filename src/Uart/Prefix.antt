-- ===== src/Uart/Prefix.antt =====
-- What `ns16550_tx` has sent when it returns, whatever the line does.
use mathlib.Core.Option.{some-injective}
use libos.Prelude.{
  take_all, drop-drop, ℕ, ◌+◌, ◌-◌, ◌≡◌, ◌≤◌, ◌<◌, refl, ap, sym, ◌∙◌, subst, arith, Bool, true,
  false, some, List, [], ◌∷◌, ◌++◌, length-drop, ltb, ltb→lt, if◌then◌else◌, length, take, drop,
  min, take-add,
}
use libos.Printf.Format.Refine.{none_some}
use libos.Uart.{Uart, tx_loop, tx}
use libos.Uart.Send.{sending, sending_nil}
use libos.Uart.Round.{ltb→le, sending_append, after_round, tx_loop-ready}

-- That `n` bytes in all are out where the loop began at `ret`.
abbrev Sent : Uart → List ℕ → ℕ → Uart → ℕ → Type 0
Sent u buf ret u' n =
    (ret ≤ n) × (n ≤ length buf) × (u' ≡ sending u (take (n - ret) (drop ret buf)))

nothing-Sent : (u : Uart) (buf : List ℕ) (ret : ℕ) → ret ≤ length buf → Sent u buf ret u ret
nothing-Sent u buf ret h = (
  omega arith,
  h,
  sym (ap (λ k. sending u (take k (drop ret buf))) {y = 0} (omega arith) ∙ sending_nil u),
)

more-Sent :
    (u : Uart) (buf : List ℕ) (ret k : ℕ) (u' : Uart) (n : ℕ)
    → Sent (sending u (take k (drop ret buf))) buf (ret + k) u' n
    → Sent u buf ret u' n
more-Sent u buf ret k u' n (le, in_buf, e) = (
  omega arith,
  in_buf,
  e
      ∙ sending_append u _ _
      ∙ ap (sending u) (
          ap (λ l. take k (drop ret buf) ++ take (n - (ret + k)) l) (sym (drop-drop ret k buf))
          ∙ take-add k (n - (ret + k)) (drop ret buf)
          ∙ ap (λ m. take m (drop ret buf)) {x = k + (n - (ret + k))} (omega arith)),
)

-- Where as many are taken as are left.
rest-Sent :
    (u : Uart) (buf : List ℕ) (ret k : ℕ)
    → ret ≤ length buf
    → length buf - ret ≤ k
    → Sent u buf ret (sending u (take k (drop ret buf))) (length buf)
rest-Sent u buf ret k h all = (
  h,
  omega arith,
  ap (sending u) (
      take_all k (drop ret buf) (omega (arith, length-drop ret buf))
      ∙ sym (take_all (length buf - ret) (drop ret buf) (omega (arith, length-drop ret buf)))),
)

after_round-Sent :
    (more : Bool) (polls : List Bool) (blocking : Bool) (k : ℕ) (u : Uart) (buf : List ℕ) (ret : ℕ)
    (u' : Uart) (n : ℕ)
    → ret ≤ length buf
    → ltb (ret + min k (length buf - ret)) (length buf) ≡ more
    → ((v : Uart) (at : ℕ)
        → at ≤ length buf
        → tx_loop polls blocking v buf (length buf) at ≡ some (u', n)
        → Sent v buf at u' n)
    → after_round more polls blocking k u buf ret ≡ some (u', n)
    → Sent u buf ret u' n
after_round-Sent true polls blocking k u buf ret u' n h e next r =
    let inside : ret + min k (length buf - ret) < length buf = ltb→lt _ _ e in
    let place : ret + min k (length buf - ret) ≡ ret + k = omega arith in
    more-Sent u buf ret k u' n (
      subst (λ at. Sent (sending u (take k (drop ret buf))) buf at u' n) place
        (next _ _ (omega arith) r))
after_round-Sent false polls blocking k u buf ret u' n h e next r =
    let outside : length buf ≤ ret + min k (length buf - ret) = ltb→le _ _ e in
    let whole : ret + min k (length buf - ret) ≡ length buf = omega arith in
    let same = some-injective _ _ r in
    subst (λ (t : Uart × ℕ). Sent u buf ret t.0 t.1)
      (ap (λ m. (sending u (take k (drop ret buf)), m)) (sym whole) ∙ same)
      (rest-Sent u buf ret k h (omega arith))

tx_loop-Sent :
    (polls : List Bool) (blocking : Bool) (u : Uart) (buf : List ℕ) (ret : ℕ) (u' : Uart) (n : ℕ)
    → ret ≤ length buf
    → tx_loop polls blocking u buf (length buf) ret ≡ some (u', n)
    → Sent u buf ret u' n
unfolding tx_loop
tx_loop-Sent [] blocking u buf ret u' n h e = absurd (none_some e)
tx_loop-Sent (true ∷ []) blocking u buf ret u' n h e = absurd (none_some e)
tx_loop-Sent (false ∷ polls) true u buf ret u' n h e = tx_loop-Sent polls true u buf ret u' n h e
tx_loop-Sent (false ∷ polls) false u buf ret u' n h e =
    subst (λ (t : Uart × ℕ). Sent u buf ret t.0 t.1) (some-injective _ _ e)
      (nothing-Sent u buf ret h)
tx_loop-Sent (true ∷ still ∷ polls) blocking u buf ret u' n h e =
    after_round-Sent _ polls blocking (if still then u.txfifo else 0) u buf ret u' n h refl
      (λ v at in_buf r. tx_loop-Sent polls blocking v buf at u' n in_buf r)
      (sym (tx_loop-ready still polls blocking u buf ret) ∙ e)

-- Whatever is read from LSR, a call that returns `n` has sent the first `n` bytes of the buffer, and `n` is at most
-- its length.
pub tx-prefix :
    (polls : List Bool) (blocking : Bool) (u : Uart) (buf : List ℕ) (u' : Uart) (n : ℕ)
    → tx polls blocking u buf (length buf) ≡ some (u', n)
    → (n ≤ length buf) × (u' ≡ sending u (take n buf))
unfolding tx
tx-prefix polls blocking u buf u' n e =
    let (le, in_buf, same) = tx_loop-Sent polls blocking u buf 0 u' n (omega arith) e in
    (in_buf, same ∙ ap (λ k. sending u (take k buf)) {y = n} (omega arith))
