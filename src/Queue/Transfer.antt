-- ===== src/Queue/Transfer.antt =====
-- `queue_to_queue` without blocking and `queue_to_chardev` (lib/queue.c). The two queues do not share
-- memory. A device is any type with its `tx` operation, whose result the source does not look at.
pub mod Moves
pub mod Sends
use libos.Prelude.{
  ℕ, ◌+◌, ◌-◌, min, Bool, Option, some, List, ltb, ◌==◌, if◌then◌else◌, ◌>>=◌, drop, slice,
}
use libos.Prelude.Words.{u32, add64, sub64}
use libos.Queue.{Queue, wrap, write}

-- `raw_out32(&src->head, head)` unless it peeks.
abbrev pub set_head : Queue → ℕ → Bool → Queue
set_head q h peek = if peek then q else record q { head = u32 h }

-- One chunk: `chunk` bytes of `src` from index `head` on are written to `dest`. The result is the
-- number that it took, the local head behind them, and both queues.
unfoldable pub move_chunk : Queue → Queue → ℕ → ℕ → Bool → Option (ℕ × ℕ × Queue × Queue)
move_chunk dest src head chunk peek = do
  (ret, dest') ← write dest (drop head src.buf) chunk
  let h = wrap src (add64 head ret)
  some (ret, h, dest', set_head src h peek)

-- The second chunk, up to the tail.
unfoldable pub to_queue_rest : Queue → Queue → ℕ → ℕ → ℕ → ℕ → Bool → Option (ℕ × Queue × Queue)
to_queue_rest dest src head tail orig_len len peek =
    if ltb 0 len
    then (do
      (ret, h, dest', src') ← move_chunk dest src head (min len (sub64 tail head)) peek
      some (orig_len - (len - ret), dest', src'))
    else some (orig_len - len, dest, src)

unfoldable pub to_queue : Queue → Queue → ℕ → Bool → Option (ℕ × Queue × Queue)
to_queue dest src len peek =
    if src.head == src.tail
    then some (0, dest, src)
    else if ltb src.tail src.head
    then (do
      let chunk = min len (sub64 src.size src.head)
      (ret, h, dest', src') ← move_chunk dest src src.head chunk peek
      if ltb ret chunk
          then some (ret, dest', src')
          else to_queue_rest dest' src' h src.tail len (len - ret) peek)
    else to_queue_rest dest src src.head src.tail len len peek

module _ {ℓ} {D : Type ℓ} (tx : D → List ℕ → D) where
  unfoldable pub send_chunk : D → Queue → ℕ → ℕ → Bool → Option (ℕ × D × Queue)
  send_chunk dest src head chunk peek = do
    bytes ← slice src.buf head chunk
    let h = wrap src (add64 head chunk)
    some (h, tx dest bytes, set_head src h peek)

  unfoldable pub to_chardev_rest : D → Queue → ℕ → ℕ → ℕ → ℕ → Bool → Option (ℕ × D × Queue)
  to_chardev_rest dest src head tail orig_len len peek =
      if ltb 0 len
      then (do
        let chunk = min len (sub64 tail head)
        (h, dest', src') ← send_chunk dest src head chunk peek
        some (orig_len - (len - chunk), dest', src'))
      else some (orig_len - len, dest, src)

  unfoldable pub to_chardev : D → Queue → ℕ → Bool → Option (ℕ × D × Queue)
  to_chardev dest src len peek =
      if src.head == src.tail
      then some (0, dest, src)
      else if ltb src.tail src.head
      then (do
        let chunk = min len (sub64 src.size src.head)
        (h, dest', src') ← send_chunk dest src src.head chunk peek
        to_chardev_rest dest' src' h src.tail len (len - chunk) peek)
      else to_chardev_rest dest src src.head src.tail len len peek
