-- ===== src/ByteChan/Receive.antt =====
-- Where `byte_chan_rx` goes wrong.
use libos.Prelude.{
  ◌*◌, ◌-◌, ◌++◌, ℕ, ◌+◌, ◌^◌, ◌≡◌, ◌≤◌, ◌<◌, refl, arith, Bool, true, false, List, [], ◌∷◌, ==_ne,
  if◌then◌else◌, length, splice, splice_lem, patch, length-patch, leb,
}
use libos.Prelude.Words.{sub64}
use libos.ByteChan.{Received, Outcome, unfinished, outside, rx_loop, byte_chan_rx}

-- Nothing was received: success, with a count of 0.
abbrev pub Empty : List Received → Type 0
Empty [] = Unit {0}
Empty (r ∷ replies) = (r.ret ≡ 0) × (r.this_count ≡ 0) × (length r.bytes ≡ 16) × Empty replies

rx_loop-Empty :
    (replies : List Received) (blocking : Bool) (buf : List ℕ) (count : ℕ)
    → 0 < count
    → count < 2 ^ 64
    → 16 ≤ length buf
    → Empty replies
    → rx_loop replies blocking buf 0 0 count ≡ unfinished
unfolding rx_loop
rx_loop-Empty [] blocking buf count pos small room e = rw (==_ne count 0 (omega arith)) refl
rx_loop-Empty (r ∷ replies) blocking buf count pos small room (e0, e1, len, rest) =
    let buf' = patch buf 0 r.bytes in
    let next =
      rx_loop-Empty replies blocking buf' count pos small
        (omega (arith, length-patch buf 0 r.bytes)) rest in
    let whole : sub64 count 0 ≡ count = omega arith in
    rw (==_ne count 0 (omega arith), splice_lem buf 0 r.bytes (omega arith), e0, e1, whole)
      (again blocking next)
  where
    again : (b : Bool) → {x : Outcome} → x ≡ unfinished → (if b then x else x) ≡ unfinished
    again true e = e
    again false e = e

-- When the channel has no bytes, a call that asks for some does not return, whether or not it is to block: however
-- often the hypervisor says that there is nothing, it is asked again.
pub byte_chan_rx-waits :
    (replies : List Received) (blocking : Bool) (buf : List ℕ) (count : ℕ)
    → 0 < count
    → count < 2 ^ 64
    → 16 ≤ length buf
    → Empty replies
    → byte_chan_rx replies blocking buf count ≡ unfinished
unfolding byte_chan_rx
byte_chan_rx-waits = rx_loop-Empty

-- Every call of the hypervisor brought 16 bytes.
abbrev pub Full : List Received → Type 0
Full [] = Unit {0}
Full (r ∷ replies) = (r.ret ≡ 0) × (r.this_count ≡ 16) × (length r.bytes ≡ 16) × Full replies

rx_loop-overrun :
    (full : List Received) (r : Received) (replies : List Received) (blocking : Bool) (buf : List ℕ)
    (pos total count : ℕ)
    → Full full
    → length r.bytes ≡ 16
    → pos + count ≡ length buf
    → count < 2 ^ 64
    → length full * 16 < count
    → count < length full * 16 + 16
    → rx_loop (full ++ (r ∷ replies)) blocking buf pos total count ≡ outside
unfolding rx_loop splice
rx_loop-overrun [] r replies blocking buf pos total count h len room word some_left few =
    let no_room : leb (pos + length r.bytes) (length buf) ≡ false = ground arith in
    rw (==_ne count 0 (omega arith), no_room) refl
rx_loop-overrun (f ∷ full) r replies blocking buf pos total count (e0, e1, e2, h) len room word
      some_left few =
    let whole : sub64 count 16 ≡ count - 16 = omega arith in
    let size = length-patch buf pos f.bytes (omega arith) in
    rw (==_ne count 0 (omega arith), splice_lem buf pos f.bytes (omega arith), e0, e1, whole)
      (rx_loop-overrun full r replies blocking (patch buf pos f.bytes) (pos + 16) (total + 16)
        (count - 16) h len (omega arith) (omega arith) (omega arith) (omega arith))

-- A call for `count` bytes in an object of `count` bytes, where `count` is no multiple of 16, writes outside of the
-- object when the hypervisor has brought the full 16 bytes each time and is asked for the last few: what it
-- says then does not matter.
pub byte_chan_rx-overrun :
    (full : List Received) (r : Received) (replies : List Received) (blocking : Bool) (buf : List ℕ)
    → Full full
    → length r.bytes ≡ 16
    → length buf < 2 ^ 64
    → length full * 16 < length buf
    → length buf < length full * 16 + 16
    → byte_chan_rx (full ++ (r ∷ replies)) blocking buf (length buf) ≡ outside
unfolding byte_chan_rx
byte_chan_rx-overrun full r replies blocking buf h len word some_left few =
    rx_loop-overrun full r replies blocking buf 0 0 (length buf) h len (omega arith) word some_left
      few
