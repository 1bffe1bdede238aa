-- ===== src/ByteChan/Tests.antt =====
-- Runs of the byte channel's operations.
use libos.Prelude.{ℕ, ◌≡◌, refl, inl, inr, arith, true, false, List, [], ◌∷◌, replicate}
use libos.ByteChan.{
  Sent, Received, eagain, returned, unfinished, outside, byte_chan_tx, byte_chan_rx,
}
use libos.ByteChan.Send.{Delivers, byte_chan_tx-delivered}
use libos.ByteChan.Receive.{byte_chan_rx-waits, byte_chan_rx-overrun}

-- Three bytes with room behind them.
abbrev three_bytes : List ℕ
three_bytes = 7 ∷ 8 ∷ 9 ∷ replicate 15 0

-- The hypervisor takes two bytes, asks to be called again, and takes the third.
abbrev slowly : List Sent
slowly =
    record { ret = 0; sent = 2 }
    ∷ record { ret = eagain; sent = 0 }
    ∷ record { ret = 0; sent = 1 }
    ∷ []

slowly-Delivers : Delivers 3 slowly
slowly-Delivers = (
  omega arith,
  inl (omega arith),
  (omega arith, inr (refl, refl), (omega arith, inl (omega arith), refl)),
)

byte_chan_tx-delivered_example :
    byte_chan_tx slowly true three_bytes 3 ≡ returned 3 (7 ∷ 8 ∷ 9 ∷ [])
byte_chan_tx-delivered_example =
    byte_chan_tx-delivered slowly three_bytes 3 (omega arith) (omega arith) (omega arith)
      slowly-Delivers

abbrev nothing : Received
nothing = record { ret = 0; this_count = 0; bytes = replicate 16 0 }

byte_chan_rx-waits_example :
    byte_chan_rx (nothing ∷ nothing ∷ []) false (replicate 16 1) 16 ≡ unfinished
byte_chan_rx-waits_example =
    byte_chan_rx-waits (nothing ∷ nothing ∷ []) false (replicate 16 1) 16 (omega arith)
      (omega arith) (omega arith) (refl, refl, refl, (refl, refl, refl, tt))

-- Sixteen bytes come, and the call is for twenty.
abbrev sixteen : Received
sixteen = record { ret = 0; this_count = 16; bytes = replicate 16 7 }

byte_chan_rx-overrun_example :
    byte_chan_rx (sixteen ∷ nothing ∷ []) true (replicate 20 1) 20 ≡ outside
byte_chan_rx-overrun_example =
    byte_chan_rx-overrun (sixteen ∷ []) nothing [] true (replicate 20 1) (refl, refl, refl, tt) refl
      (omega arith) (omega arith) (omega arith)
