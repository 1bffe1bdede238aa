-- ===== src/Queue/Transfer/Sends.antt =====
-- What `queue_to_chardev` hands to the device.
use native.Mathlib.Decide.{dec_lt, ℕ_discrete}
use libos.Prelude.{
  ℕ, zero, suc, ◌+◌, ◌-◌, ◌≤◌, ◌<◌, min, ◌≡◌, refl, ap, sym, ◌∙◌, arith, Bool, true, false, Option,
  some, List, [], ◌++◌, lt→ltb, le→ltb, ==_iff, ==_ne, if◌then◌else◌, length, get_or, take, drop,
  slice, slice_lem, tabulate-ext, take-tabulate_le, drop-tabulate, take-add,
}
use libos.Prelude.Words.{u32, add64, sub64}
use libos.Queue.{Queue, wrap}
use libos.Queue.Facts.{IsValid}
use libos.Queue.View.{byte_at, count, contents, length-contents}
use libos.Queue.Transfer.{send_chunk, to_chardev_rest, to_chardev}
use libos.Queue.Transfer.Moves.{ahead, moved_to, ahead_lem, moved_to-contents}

slice-ahead :
    {q : Queue} (k n : ℕ)
    → IsValid q
    → k + n ≤ count q
    → ahead q k + n ≤ q.size
    → slice q.buf (ahead q k) n ≡ some (take n (drop k (contents q)))
slice-ahead {q} k n v le fits =
    slice_lem q.buf (ahead q k) n (omega (arith, v.storage))
    ∙ ap some (
        tabulate-ext n (λ i. get_or q.buf (ahead q k + i) 0) (λ i. byte_at q (k + i))
          (λ i p. ap (λ j. get_or q.buf j 0) (ground (arith, v.head_in, v.tail_in)))
        ∙ sym (take-tabulate_le n (count q - k) (λ i. byte_at q (k + i)) (omega arith))
        ∙ ap (take n) (sym (drop-tabulate k (count q) (byte_at q))))

module _ {ℓ} {D : Type ℓ} (tx : D → List ℕ → D) (peek : Bool) where
  send_chunk_lem :
      (dest : D) {src : Queue} (k chunk : ℕ)
      → IsValid src
      → k + chunk ≤ count src
      → ahead src k + chunk ≤ src.size
      → send_chunk tx dest (moved_to src k peek) (ahead src k) chunk peek
        ≡ some (
          ahead src (k + chunk),
          tx dest (take chunk (drop k (contents src))),
          moved_to src (k + chunk) peek,
        )
  unfolding send_chunk wrap
  send_chunk_lem dest {src} k chunk s le fits =
      let (next, word) = ahead_lem k chunk s le in go peek (slice-ahead k chunk s le fits) next word
    where
      go :
          (p : Bool)
          → slice src.buf (ahead src k) chunk ≡ some (take chunk (drop k (contents src)))
          → wrap src (add64 (ahead src k) chunk) ≡ ahead src (k + chunk)
          → u32 (ahead src (k + chunk)) ≡ ahead src (k + chunk)
          → send_chunk tx dest (moved_to src k p) (ahead src k) chunk p
            ≡ some (
              ahead src (k + chunk),
              tx dest (take chunk (drop k (contents src))),
              moved_to src (k + chunk) p,
            )
      go true e next word = rw (e, next)
      go false e next word = rw e (
          ap
            (λ h.
              some (h, tx dest (take chunk (drop k (contents src))), record src { head = u32 h }))
            next
          ∙ ap
              (λ h. some (
                ahead src (k + chunk),
                tx dest (take chunk (drop k (contents src))),
                record src { head = h },
              ))
              word)

  rest_step :
      (dest : D) (src : Queue) (head tail orig len chunk h : ℕ) (dest' : D) (src' : Queue)
      → 0 < len
      → min len (sub64 tail head) ≡ chunk
      → send_chunk tx dest src head chunk peek ≡ some (h, dest', src')
      → to_chardev_rest tx dest src head tail orig len peek
        ≡ some (orig - (len - chunk), dest', src')
  unfolding to_chardev_rest
  rest_step dest src head tail orig len chunk h dest' src' pos short e =
      rw (lt→ltb 0 len pos, short, e) refl

  around_step :
      (dest : D) (src : Queue) (len chunk h : ℕ) (dest' : D) (src' : Queue)
      → src.tail < src.head
      → min len (sub64 src.size src.head) ≡ chunk
      → send_chunk tx dest src src.head chunk peek ≡ some (h, dest', src')
      → to_chardev tx dest src len peek
        ≡ to_chardev_rest tx dest' src' h src.tail len (len - chunk) peek
  unfolding to_chardev
  around_step dest src len chunk h dest' src' around far e =
      rw (==_ne src.head src.tail (omega arith), lt→ltb _ _ around, far, e) refl

  straight_step :
      (dest : D) (src : Queue) (len : ℕ)
      → src.head < src.tail
      → to_chardev tx dest src len peek ≡ to_chardev_rest tx dest src src.head src.tail len len peek
  unfolding to_chardev
  straight_step dest src len h =
      rw (==_ne src.head src.tail (omega arith), le→ltb src.tail src.head (omega arith)) refl

  empty_step :
      (dest : D) (src : Queue) (len : ℕ)
      → src.head ≡ src.tail
      → to_chardev tx dest src len peek ≡ some (0, dest, src)
  unfolding to_chardev
  empty_step dest src len e = rw ((==_iff src.head src.tail).1 e) refl

-- `Sent n r`: the call sent the oldest `n` bytes and reported it.
abbrev Sent {ℓ} :
    {D : Type ℓ} → (D → List ℕ → D) → Bool → D → Queue → ℕ → Option (ℕ × D × Queue) → Type ℓ
Sent tx peek dest src n r = r ≡ some (n, tx dest (take n (contents src)), moved_to src n peek)

module _ {ℓ} {D : Type ℓ} (tx : D → List ℕ → D) (tx-nil : (d : D) → tx d [] ≡ d)
    (tx-append : (d : D) (xs ys : List ℕ) → tx (tx d xs) ys ≡ tx d (xs ++ ys)) (peek : Bool)
    (dest : D) {src : Queue} (s : IsValid src) where
  moved_zero : moved_to src 0 peek ≡ src
  moved_zero = go peek
    where
      go : (p : Bool) → moved_to src 0 p ≡ src
      go true = refl
      go false = ap (λ h. record src { head = h }) {y = src.head} (ground (arith, s.head_in))

  to_chardev_rest_lem :
      (k len orig m : ℕ)
      → k ≤ count src
      → m ≡ min len (count src - k)
      → (0 < len → ahead src k + (count src - k) ≡ src.tail)
      → to_chardev_rest tx
          (tx dest (take k (contents src)))
          (moved_to src k peek)
          (ahead src k)
          src.tail
          orig
          len
          peek
        ≡ some (orig - (len - m), tx dest (take (k + m) (contents src)), moved_to src (k + m) peek)
  unfolding to_chardev_rest
  to_chardev_rest_lem k zero orig m le em straight =
      ap (λ j. some (orig - 0, tx dest (take j (contents src)), moved_to src j peek)) {x = k}
        {y = k + m} (omega arith)
      ∙ ap (λ j. some (j, tx dest (take (k + m) (contents src)), moved_to src (k + m) peek))
          {x = orig - 0} {y = orig - (0 - m)} (omega arith)
  to_chardev_rest_lem k (suc len) orig m le em straight =
      let end : ahead src k + (count src - k) ≡ src.tail = straight (omega arith) in
      let short : min (suc len) (sub64 src.tail (ahead src k)) ≡ m =
        ap (min (suc len)) (omega (arith, s.tail_in, s.small)) ∙ sym em in
      rest_step tx peek (tx dest (take k (contents src))) (moved_to src k peek) (ahead src k)
        src.tail orig (suc len) m (ahead src (k + m))
        (tx (tx dest (take k (contents src))) (take m (drop k (contents src))))
        (moved_to src (k + m) peek) (omega arith) short
        (send_chunk_lem tx peek (tx dest (take k (contents src))) k m s (omega arith)
          (omega (arith, s.tail_in)))
      ∙ ap (λ d. some (orig - (suc len - m), d, moved_to src (k + m) peek))
          (tx-append dest (take k (contents src)) (take m (drop k (contents src)))
            ∙ ap (tx dest) (take-add k m (contents src)))

  -- Bytes up to the end of the ring go out first, then those from its beginning.
  around_lem :
      (len n : ℕ)
      → src.tail < src.head
      → n ≡ min len (count src)
      → Sent tx peek dest src n (to_chardev tx dest src len peek)
  around_lem len n around en =
      let chunk : ℕ = min len (src.size - src.head) in
      let total : count src ≡ src.tail + src.size - src.head = ground arith in
      let m : ℕ = min (len - chunk) (count src - chunk) in
      let far : min len (sub64 src.size src.head) ≡ chunk =
        ap (min len) (omega (arith, s.head_in, s.small)) in
      let start : ahead src 0 ≡ src.head = ground (arith, s.head_in) in
      let first : send_chunk tx dest src src.head chunk peek
          ≡ some (ahead src chunk, tx dest (take chunk (contents src)), moved_to src chunk peek) =
        ap (λ q. send_chunk tx dest q src.head chunk peek) (sym moved_zero)
        ∙ ap (λ h. send_chunk tx dest (moved_to src 0 peek) h chunk peek) (sym start)
        ∙ send_chunk_lem tx peek dest 0 chunk s (omega arith) (omega arith)
        ∙ ap (λ j. some (ahead src j, tx dest (take chunk (contents src)), moved_to src j peek))
            {x = 0 + chunk} {y = chunk} (omega arith) in
      around_step tx peek dest src len chunk (ahead src chunk) (tx dest (take chunk (contents src)))
        (moved_to src chunk peek) around far first
      ∙ to_chardev_rest_lem chunk (len - chunk) len m (omega arith) refl
          (straight_after len chunk around refl)
      ∙ finish (chunk + m) (len - (len - chunk - m)) (omega arith) (omega arith)
    where
      straight_after :
          (len chunk : ℕ)
          → src.tail < src.head
          → chunk ≡ min len (src.size - src.head)
          → 0 < len - chunk
          → ahead src chunk + (count src - chunk) ≡ src.tail
      straight_after len chunk around ec more = ground (arith, s.head_in, s.tail_in)

      finish :
          (j k : ℕ)
          → j ≡ n
          → k ≡ n
          → ◌≡◌ {A = Option (ℕ × D × Queue)}
              (some (k, tx dest (take j (contents src)), moved_to src j peek))
              (some (n, tx dest (take n (contents src)), moved_to src n peek))
      finish j k ej ek =
          ap (λ i. some (k, tx dest (take i (contents src)), moved_to src i peek)) ej
          ∙ ap (λ i. some (i, tx dest (take n (contents src)), moved_to src n peek)) ek

  straight_lem :
      (len n : ℕ)
      → src.head < src.tail
      → n ≡ min len (count src)
      → Sent tx peek dest src n (to_chardev tx dest src len peek)
  straight_lem len n h en =
      straight_step tx peek dest src len h
      ∙ ap (λ q. to_chardev_rest tx dest q src.head src.tail len len peek) (sym moved_zero)
      ∙ ap (λ h. to_chardev_rest tx dest (moved_to src 0 peek) h src.tail len len peek)
          {y = ahead src 0} (ground (arith, s.head_in))
      ∙ ap (λ d. to_chardev_rest tx d (moved_to src 0 peek) (ahead src 0) src.tail len len peek)
          (sym (tx-nil dest))
      ∙ to_chardev_rest_lem 0 len len n (omega arith) (omega arith) (λ _. ground (arith, s.head_in))
      ∙ ap (λ j. some (len - (len - n), tx dest (take j (contents src)), moved_to src j peek))
          {x = 0 + n} {y = n} (omega arith)
      ∙ ap (λ j. some (j, tx dest (take n (contents src)), moved_to src n peek))
          {x = len - (len - n)} {y = n} (omega arith)

  empty_lem :
      (len n : ℕ)
      → src.head ≡ src.tail
      → n ≡ min len (count src)
      → Sent tx peek dest src n (to_chardev tx dest src len peek)
  empty_lem len n e en =
      let z : 0 ≡ n = ground arith in
      empty_step tx peek dest src len e
      ∙ ap (λ d. some (0, d, src)) (sym (tx-nil dest))
      ∙ ap (λ q. some (0, tx dest [], q)) (sym moved_zero)
      ∙ ap (λ j. some (j, tx dest (take j (contents src)), moved_to src j peek)) z

-- For a device that takes a stream of bytes, of a valid queue `queue_to_chardev` sends the oldest
-- `min(held, len)` bytes in order without an access outside the buffer, returns their number, takes
-- them off the queue unless it peeks, and keeps the queue valid.
pub to_chardev_refines {ℓ} :
    {D : Type ℓ} (tx : D → List ℕ → D)
    → ((d : D) → tx d [] ≡ d)
    → ((d : D) (xs ys : List ℕ) → tx (tx d xs) ys ≡ tx d (xs ++ ys))
    → (dest : D) {src : Queue} (len : ℕ) (peek : Bool) → IsValid src
    → let n = min len (length (contents src)) in
      (src' : Queue) × (to_chardev tx dest src len peek
        ≡ some (n, tx dest (take n (contents src)), src'))
      × IsValid src'
      × (contents src' ≡ (if peek then contents src else drop n (contents src)))
to_chardev_refines tx tx-nil tx-append dest {src} len peek s =
    let n : ℕ = min len (length (contents src)) in
    let en : n ≡ min len (count src) = omega (arith, length-contents src) in
    let (s', left) = moved_to-contents n peek s (omega arith) in
    (
      moved_to src n peek,
      elim (ℕ_discrete src.head src.tail) [
        | yes e ↦ empty_lem tx tx-nil tx-append peek dest s len n e en
        | no ne ↦ elim (dec_lt src.tail src.head) [
          | yes p ↦ around_lem tx tx-nil tx-append peek dest s len n p en
          | no p ↦ straight_lem tx tx-nil tx-append peek dest s len n (omega arith) en
        ]
      ],
      s',
      left,
    )
