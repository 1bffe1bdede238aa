-- ===== src/Uart/Round.antt =====
-- What one round of `ns16550_tx` sends.
use libos.Prelude.{
  drop_all, ℕ, zero, suc, ◌+◌, ◌-◌, ◌≡◌, ◌≤◌, ◌<◌, refl, ap, ap₂, sym, ◌∙◌, arith, Bool, true,
  false, Bool-cases, inl, inr, Option, some, List, [], ◌∷◌, ◌++◌, append_assoc, length-append, ltb,
  ltb→lt, if◌then◌else◌, length, take, drop, min, get_elem?,
}
use libos.Uart.{Uart, put_thr, fill_fifo, tx_loop}
use libos.Uart.Send.{sending, sending_nil, sending_cons}

pub ltb→le : (a b : ℕ) → ltb a b ≡ false → b ≤ a
ltb→le a b h = ground arith

-- The byte at a place, and what follows it.
pub drop-get_elem? :
    (i : ℕ) (xs : List ℕ)
    → i < length xs
    → (c : ℕ) × (get_elem? xs i ≡ some c) × (drop i xs ≡ c ∷ drop (i + 1) xs)
drop-get_elem? i [] h = absurd (omega arith)
drop-get_elem? zero (x ∷ xs) h = (x, refl, refl)
drop-get_elem? (suc i) (x ∷ xs) h =
    let (c, e, rest) = drop-get_elem? i xs (omega arith) in
    (c, e, rest ∙ ap (λ n. c ∷ drop n (x ∷ xs)) {x = suc (i + 1)} (omega arith))

-- The inner loop sends the next bytes, as many as are left and as the transmitter takes.
pub fill_fifo_lem :
    (left : ℕ) (u : Uart) (buf : List ℕ) (ret : ℕ)
    → fill_fifo left u buf (length buf) ret
      ≡ some (sending u (take left (drop ret buf)), ret + min left (length buf - ret))
unfolding fill_fifo
fill_fifo_lem zero u buf ret =
    ap₂ (λ (x : Uart) (n : ℕ). some (x, n)) (sym (sending_nil u)) (omega arith)
fill_fifo_lem (suc left) u buf ret = elim (Bool-cases (ltb ret (length buf))) [
  | inl e ↦
      let (c, found, rest) = drop-get_elem? ret buf (ltb→lt _ _ e) in
      rw (e, found, rest)
        (fill_fifo_lem left (put_thr u c) buf (ret + 1)
          ∙ ap₂ (λ (x : Uart) (n : ℕ). some (x, n))
              (sending_cons u c (take left (drop (ret + 1) buf))) (omega (arith, ltb→lt _ _ e)))
  | inr e ↦
      rw (e, drop_all ret buf (ltb→le _ _ e))
        (ap₂ (λ (x : Uart) (n : ℕ). some (x, n)) (sym (sending_nil u))
          (omega (arith, ltb→le _ _ e)))
]

pub sending_append : (u : Uart) (a b : List ℕ) → sending (sending u a) b ≡ sending u (a ++ b)
sending_append u a b = λ i. record u { sent = append_assoc u.sent a b i; tx_counter = counted i }
  where
    counted : u.tx_counter + length a + length b ≡ u.tx_counter + length (a ++ b)
    counted = omega (arith, length-append a b)

-- A round in which `n` bytes at most are taken, and whether there are more.
abbrev pub after_round : Bool → List Bool → Bool → ℕ → Uart → List ℕ → ℕ → Option (Uart × ℕ)
after_round more polls blocking n u buf ret =
    let ret' = ret + min n (length buf - ret) in
    elim more [
      | true ↦ tx_loop polls blocking (sending u (take n (drop ret buf))) buf (length buf) ret'
      | false ↦ some (sending u (take n (drop ret buf)), ret')
    ]

abbrev pub tx_round : List Bool → Bool → ℕ → Uart → List ℕ → ℕ → Option (Uart × ℕ)
tx_round polls blocking n u buf ret =
    after_round (ltb (ret + min n (length buf - ret)) (length buf)) polls blocking n u buf ret

pub tx_loop-ready :
    (still : Bool) (polls : List Bool) (blocking : Bool) (u : Uart) (buf : List ℕ) (ret : ℕ)
    → tx_loop (true ∷ still ∷ polls) blocking u buf (length buf) ret
      ≡ tx_round polls blocking (if still then u.txfifo else 0) u buf ret
unfolding tx_loop
tx_loop-ready still polls blocking u buf ret =
    rw (fill_fifo_lem (if still then u.txfifo else 0) u buf ret, tx_loop) refl
