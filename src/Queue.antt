-- ===== src/Queue.antt =====
-- lib/queue.c and include/libos/queue.h: the lockless single-producer, single-consumer byte queue.
-- A function that updates `*q` returns the new queue. `none` is an access outside a buffer. Reads
-- and writes of one index word are atomic, and `smp_lwsync` orders them.
pub mod Facts
pub mod Init
pub mod View
pub mod Fifo
pub mod Chars
pub mod Run
pub mod Transfer
pub mod Read
mod Tests
pub mod Write
use libos.Prelude.{
  ℕ, suc, ◌+◌, ◌-◌, min, bit_and, Bool, true, false, Option, none, some, List, [], ◌∷◌, ltb, ◌==◌,
  if◌then◌else◌, ◌>>=◌, length, get_elem?, replicate, slice, splice, store, not,
}
use libos.Prelude.Words.{u32, add32, sub32, add64, sub64}
use libos.Errors.{Error, Result, ok, err, no_mem, invalid, busy, would_block}

-- `struct queue`. A NULL `buf` is the object with no bytes. The callbacks and the private data are
-- addresses, 0 for NULL.
pub record Queue : Type 0 where
  pub buf : List ℕ
  pub head : ℕ
  pub tail : ℕ
  pub size : ℕ
  pub data_avail : ℕ
  pub consumer : ℕ
  pub space_avail : ℕ
  pub producer : ℕ

unfoldable pub wrap : Queue → ℕ → ℕ
wrap q index = bit_and index (sub32 q.size 1)

unfoldable pub get_avail : Queue → ℕ
get_avail q = wrap q (sub32 q.tail q.head)

unfoldable pub get_space : Queue → ℕ
get_space q = wrap q (sub32 (sub32 q.head q.tail) 1)

unfoldable pub empty : Queue → Bool
empty q = q.head == q.tail

unfoldable pub full : Queue → Bool
full q = get_space q == 0

-- The callback that is called, with its `blocking` argument.
unfoldable pub notify_consumer : Queue → ℕ → Option (ℕ × ℕ)
notify_consumer q blocking = if q.data_avail == 0 then none else some (q.data_avail, blocking)

unfoldable pub notify_producer : Queue → Option ℕ
notify_producer q = if q.space_avail == 0 then none else some q.space_avail

-- `alloc` gives zeroed memory where the allocator has some: `has_room` says whether it has.
unfoldable pub init : (ℕ → Bool) → Queue → ℕ → Result (Unit {0}) × Queue
init has_room q size =
    if not (bit_and size (sub64 size 1) == 0)
    then (err invalid, q)
    else if has_room size
    then (ok tt, record q { buf = replicate size 0; head = 0; tail = 0; size = u32 size })
    else (err no_mem, record q { buf = [] })

unfoldable pub destroy : Queue → Queue
destroy q = record q { buf = [] }

-- The second `memcpy` of `read_at`, from the start of the ring.
unfoldable pub read_rest : Queue → List ℕ → ℕ → ℕ → Option (List ℕ)
read_rest q out first len =
    if ltb 0 len then (do bytes ← slice q.buf 0 len; splice out first bytes) else some out

-- `out` is the destination, written from its start.
unfoldable pub read_at : Queue → List ℕ → ℕ → ℕ → Option (List ℕ)
read_at q out off len =
    let start = wrap q (add64 q.head off) in
    let first = min len (sub64 q.size start) in
    do
      bytes ← slice q.buf start first
      out' ← splice out 0 bytes
      read_rest q out' first (len - first)

unfoldable pub read : Queue → List ℕ → ℕ → Bool → Option (ℕ × List ℕ × Queue)
read q out len peek =
    let n = min (wrap q (sub64 q.tail q.head)) len in
    do
      out' ← read_at q out 0 n
      some (n, out', if peek then q else record q { head = u32 (wrap q (add64 q.head n)) })

unfoldable pub readchar : Queue → Bool → Option (Result ℕ × Queue)
readchar q peek = if q.head == q.tail then some (err would_block, q) else do
  c ← get_elem? q.buf q.head
  some (ok c, if peek then q else record q { head = u32 (wrap q (add32 q.head 1)) })

-- The second `memcpy` of `write_at`, to the start of the ring.
unfoldable pub write_rest : List ℕ → List ℕ → ℕ → ℕ → Option (List ℕ)
write_rest buf src first len =
    if ltb 0 len then (do bytes ← slice src first len; splice buf 0 bytes) else some buf

-- The new content of `q->buf`.
unfoldable pub write_at : Queue → List ℕ → ℕ → ℕ → Option (List ℕ)
write_at q src off len =
    let first = min len (sub64 q.size off) in
    do
      bytes ← slice src 0 first
      buf' ← splice q.buf off bytes
      write_rest buf' src first (len - first)

unfoldable pub write : Queue → List ℕ → ℕ → Option (ℕ × Queue)
write q src len =
    let n = min (wrap q (sub64 (sub64 q.head q.tail) 1)) len in
    do
      buf' ← write_at q src q.tail n
      some (n, record q { buf = buf'; tail = u32 (wrap q (add64 q.tail n)) })

unfoldable pub writechar : Queue → ℕ → Option (Result (Unit {0}) × Queue)
writechar q c = if q.tail == wrap q (sub32 q.head 1) then some (err busy, q) else do
  buf' ← store q.buf q.tail c
  some (ok tt, record q { buf = buf'; tail = u32 (wrap q (add32 q.tail 1)) })

unfoldable pub discard : Queue → ℕ → ℕ × Queue
discard q num =
    let n = min num (get_avail q) in (n, record q { head = u32 (wrap q (add64 q.head n)) })

unfoldable pub purge : Queue → Queue
purge q = record q { head = q.tail }
