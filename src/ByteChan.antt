-- ===== src/ByteChan.antt =====
-- lib/byte-chan.c: a byte channel of the hypervisor. The replies of the hypercalls are an argument; those of
-- include/libos/epapr_hcalls.h read and write 16 bytes each, whatever the count.
pub mod Send
pub mod Receive
mod Tests
use libos.Prelude.{
  ℕ, ◌+◌, ◌-◌, Bool, true, false, Option, some, none, List, [], ◌∷◌, ◌++◌, min, not, ◌&&◌, ◌==◌,
  if◌then◌else◌, take, slice, splice,
}
use libos.Prelude.Words.{sub64}

abbrev pub eagain : ℕ
eagain = 4

-- What `ev_byte_channel_send` returns, and the count that it leaves.
pub record Sent : Type 0 where
  pub ret : ℕ
  pub sent : ℕ

-- The same of `ev_byte_channel_receive`, with the 16 bytes of its registers.
pub record Received : Type 0 where
  pub ret : ℕ
  pub this_count : ℕ
  pub bytes : List ℕ

-- The `ssize_t` that both functions return.
abbrev pub finish : ℕ → ℕ → ℕ
finish total ret = if not (ret == 0) then (if total == 0 then ret else total) else total

-- A call returns a value and leaves some bytes, or the replies end before it returns, or it accesses memory
-- outside its buffer.
pub data Outcome : Type 0 where
  returned : ℕ → List ℕ → Outcome
  unfinished : Outcome
  outside : Outcome

-- The loop of `byte_chan_tx`. `pos` is the place in the object `buf`; `out` has the bytes that the hypervisor
-- took.
unfoldable pub tx_loop : List Sent → Bool → List ℕ → ℕ → ℕ → ℕ → ℕ → List ℕ → Outcome
tx_loop [] blocking buf pos total count ret out =
    if count == 0 then returned (finish total ret) out else unfinished
tx_loop (r ∷ replies) blocking buf pos total count ret out =
    if count == 0 then returned (finish total ret) out else elim (slice buf pos 16) [
      | none ↦ outside
      | some registers ↦
          if r.sent == 0 && not (r.ret == eagain && blocking)
          then returned (finish total r.ret) out
          else tx_loop replies blocking buf (pos + r.sent) (total + r.sent) (sub64 count r.sent)
              r.ret (out ++ take r.sent registers)
    ]

unfoldable pub byte_chan_tx : List Sent → Bool → List ℕ → ℕ → Outcome
byte_chan_tx replies blocking buf count = tx_loop replies blocking buf 0 0 count 0 []

-- The loop of `byte_chan_rx`. What it returns, and `buf` after it.
unfoldable pub rx_loop : List Received → Bool → List ℕ → ℕ → ℕ → ℕ → Outcome
rx_loop [] blocking buf pos total count = if count == 0 then returned total buf else unfinished
rx_loop (r ∷ replies) blocking buf pos total count =
    if count == 0 then returned total buf else elim (splice buf pos r.bytes) [
      | none ↦ outside
      | some buf' ↦
          if not (r.ret == 0)
          then returned (if total == 0 then r.ret else total) buf'
          else if r.this_count == 0 && blocking
          then rx_loop replies blocking buf' pos total count
          else rx_loop replies blocking buf' (pos + r.this_count) (total + r.this_count)
              (sub64 count r.this_count)
    ]

unfoldable pub byte_chan_rx : List Received → Bool → List ℕ → ℕ → Outcome
byte_chan_rx replies blocking buf count = rx_loop replies blocking buf 0 0 count
