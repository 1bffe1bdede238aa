-- ===== src/ByteChan/Send.antt =====
-- What `byte_chan_tx` sends.
use native.Mathlib.Decide.{ℕ_discrete}
use libos.Prelude.{
  drop-drop, take-take, ℕ, ◌+◌, ◌-◌, ◌^◌, ◌≡◌, ◌≤◌, ◌<◌, ◌⊎◌, inl, inr, refl, ap, ap₂, sym, ◌∙◌,
  arith, Bool, true, false, some, none, List, [], ◌∷◌, ◌++◌, append-nil, append_assoc, min, not,
  ◌&&◌, ◌==◌, ==_ne, if◌then◌else◌, length, take, drop, slice, leb, take-add, le→leb,
}
use libos.Prelude.Words.{sub64}
use libos.ByteChan.{Sent, eagain, finish, returned, outside, tx_loop, byte_chan_tx}

-- The hypervisor takes at most as many bytes as it is given, and at least one unless it asks to be called again;
-- it takes `count` bytes in all.
abbrev pub Delivers : ℕ → List Sent → Type 0
Delivers count [] = count ≡ 0
Delivers count (r ∷ replies) =
    (r.sent ≤ min count 16)
    × ((0 < r.sent) ⊎ ((r.sent ≡ 0) × (r.ret ≡ eagain)))
    × Delivers (count - r.sent) replies

finish_some : (total ret : ℕ) → 0 < total → finish total ret ≡ total
finish_some total ret pos = rw (==_ne total 0 (omega arith)) (either (ret == 0))
  where
    either : (b : Bool) → (if not b then total else total) ≡ total
    either true = refl
    either false = refl

goes_on :
    (r : Sent)
    → (0 < r.sent) ⊎ ((r.sent ≡ 0) × (r.ret ≡ eagain))
    → (r.sent == 0 && not (r.ret == eagain && true)) ≡ false
goes_on r (inl pos) = rw (==_ne r.sent 0 (omega arith)) refl
goes_on r (inr (none_sent, asked)) = rw (none_sent, asked) refl

slice-drop :
    (xs : List ℕ) (off n : ℕ) → off + n ≤ length xs → slice xs off n ≡ some (take n (drop off xs))
unfolding slice
slice-drop xs off n h =
    ap (λ b. if b then some (take n (drop off xs)) else none) (le→leb (off + n) (length xs) h)

-- The bytes of one call and of those after it.
joined :
    (out : List ℕ) (k count : ℕ) (buf : List ℕ) (pos : ℕ)
    → k ≤ 16
    → k ≤ count
    → (out ++ take k (take 16 (drop pos buf))) ++ take (count - k) (drop (pos + k) buf)
      ≡ out ++ take count (drop pos buf)
joined out k count buf pos few fits =
    append_assoc out (take k (take 16 (drop pos buf))) (take (count - k) (drop (pos + k) buf))
    ∙ ap₂ (λ a b. out ++ (a ++ take (count - k) b)) (take-take k 16 (drop pos buf) few)
        (sym (drop-drop pos k buf))
    ∙ ap (λ l. out ++ l)
        (take-add k (count - k) (drop pos buf)
          ∙ ap (λ n. take n (drop pos buf)) {x = k + (count - k)} (omega arith))

tx_loop-Delivers :
    (replies : List Sent) (buf : List ℕ) (pos total count ret : ℕ) (out : List ℕ)
    → pos + count + 15 ≤ length buf
    → count < 2 ^ 64
    → 0 < total + count
    → Delivers count replies
    → tx_loop replies true buf pos total count ret out
      ≡ returned (total + count) (out ++ take count (drop pos buf))
unfolding tx_loop
tx_loop-Delivers [] buf pos total count ret out room small pos_count d =
    rw d (ap₂ returned (finish_some total ret (omega arith) ∙ omega arith) (sym (append-nil out)))
tx_loop-Delivers (r ∷ replies) buf pos total count ret out room small pos_count
      (fits, some_sent, d) =
    elim (ℕ_discrete count 0) [
      | yes e ↦
          rw e (
            ap₂ returned (finish_some total ret (omega arith) ∙ omega arith) (sym (append-nil out)))
      | no ne ↦
          let next =
            tx_loop-Delivers replies buf (pos + r.sent) (total + r.sent) (count - r.sent) r.ret
              (out ++ take r.sent (take 16 (drop pos buf))) (omega arith) (omega arith)
              (omega arith) d in
          let whole : sub64 count r.sent ≡ count - r.sent = omega arith in
          rw (==_ne count 0 ne, slice-drop buf pos 16 (omega arith), goes_on r some_sent, whole)
            (next
              ∙ ap₂ returned (omega arith)
                  (joined out r.sent count buf pos (omega arith) (omega arith)))
    ]

-- A blocking call sends its whole buffer, in order, and returns the length, in every course of replies that takes
-- all of it. That holds if 15 more bytes can be read behind the buffer.
pub byte_chan_tx-delivered :
    (replies : List Sent) (buf : List ℕ) (count : ℕ)
    → 0 < count
    → count + 15 ≤ length buf
    → count < 2 ^ 64
    → Delivers count replies
    → byte_chan_tx replies true buf count ≡ returned count (take count buf)
unfolding byte_chan_tx
byte_chan_tx-delivered replies buf count pos room small d =
    tx_loop-Delivers replies buf 0 0 count 0 [] (omega arith) small (omega arith) d
    ∙ ap (λ n. returned n (take count buf)) {x = 0 + count} (omega arith)

-- A call with fewer bytes than 16 reads outside of them, and no byte of it is sent.
pub byte_chan_tx-overrun :
    (r : Sent) (replies : List Sent) (blocking : Bool) (buf : List ℕ)
    → 0 < length buf
    → length buf < 16
    → byte_chan_tx (r ∷ replies) blocking buf (length buf) ≡ outside
unfolding byte_chan_tx tx_loop slice
byte_chan_tx-overrun r replies blocking buf pos small =
    let no_room : leb (0 + 16) (length buf) ≡ false = ground arith in
    rw (==_ne (length buf) 0 (omega arith), no_room) refl
