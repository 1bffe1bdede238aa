-- ===== src/Queue/Fifo.antt =====
-- What a client may rely on: a bounded first-in-first-out list of bytes, oldest first. It knows
-- nothing of buffers and indices.
use libos.Prelude.{
  ℕ, ◌-◌, min, Bool, List, [], ◌∷◌, ◌++◌, ltb, if◌then◌else◌, length, take, drop, replicate, patch,
}
use libos.Errors.{Result, ok, err, busy, would_block}

-- The calls of producer and consumer, and what each returns.
pub data Op : Type 0 where
  put : ℕ → Op
  get : Bool → Op
  write : List ℕ → Op
  read : ℕ → Bool → Op
  discard : ℕ → Op
  purge : Op

pub data Reply : Type 0 where
  stored : Result (Unit {0}) → Reply
  char : Result ℕ → Reply
  moved : ℕ → Reply
  bytes : ℕ → List ℕ → Reply
  purged : Reply

unfoldable pub get_char : List ℕ → Bool → Result ℕ × List ℕ
get_char [] peek = (err would_block, [])
get_char (x ∷ xs) peek = (ok x, if peek then x ∷ xs else xs)

unfoldable pub put_char : ℕ → List ℕ → ℕ → Result (Unit {0}) × List ℕ
put_char cap xs c = if ltb (length xs) cap then (ok tt, xs ++ (c ∷ [])) else (err busy, xs)

-- A FIFO of at most `cap` bytes. A read is into zeroed memory of the size asked for.
unfoldable pub step : ℕ → List ℕ → Op → Reply × List ℕ
unfolding get_char put_char
step cap xs (put c) = let (r, ys) = put_char cap xs c in (stored r, ys)
step cap xs (get peek) = let (r, ys) = get_char xs peek in (char r, ys)
step cap xs (write src) = let n = min (cap - length xs) (length src) in (moved n, xs ++ take n src)
step cap xs (read len peek) =
    let n = min (length xs) len in
    (bytes n (patch (replicate len 0) 0 (take n xs)), if peek then xs else drop n xs)
step cap xs (discard len) = let n = min len (length xs) in (moved n, drop n xs)
step cap xs purge = (purged, [])

unfoldable pub run : ℕ → List ℕ → List Op → List Reply
run cap xs [] = []
run cap xs (op ∷ ops) = let (r, ys) = step cap xs op in r ∷ run cap ys ops
