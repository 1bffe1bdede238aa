-- ===== src/Queue/Run.antt =====
-- Any sequence of calls, by the functions of the source.
use libos.Prelude.{
  ℕ, ◌-◌, ◌≡◌, refl, arith, Option, some, List, [], ◌∷◌, ◌>>=◌, length, replicate, length-replicate,
}
use libos.Queue.{Queue, readchar, writechar, read, write, discard, purge}
use libos.Queue.Facts.{IsValid}
use libos.Queue.View.{contents}
use libos.Queue.Read.{read_refines, discard_refines, purge_refines}
use libos.Queue.Write.{write_refines}
use libos.Queue.Chars.{readchar_refines, writechar_refines}
use libos.Queue.Fifo
use libos.Queue.Fifo.{Op, Reply}

unfoldable pub step : Queue → Op → Option (Reply × Queue)
step q (Op.put c) = do (r, q') ← writechar q c; some (Reply.stored r, q')
step q (Op.get peek) = do (r, q') ← readchar q peek; some (Reply.char r, q')
step q (Op.write src) = do (n, q') ← write q src (length src); some (Reply.moved n, q')
step q (Op.read len peek) = do
  (n, out, q') ← read q (replicate len 0) len peek
  some (Reply.bytes n out, q')
step q (Op.discard n) = let (k, q') = discard q n in some (Reply.moved k, q')
step q Op.purge = some (Reply.purged, purge q)

unfoldable pub run : Queue → List Op → Option (List Reply)
run q [] = some []
run q (op ∷ ops) = do (r, q') ← step q op; rs ← run q' ops; some (r ∷ rs)

-- One call on a valid queue answers as the FIFO does and leaves it holding the FIFO's bytes.
pub step_refines :
    {q : Queue} (op : Op)
    → IsValid q
    → let (r, xs) = Fifo.step (q.size - 1) (contents q) op in
      (q' : Queue) × (step q op ≡ some (r, q'))
      × IsValid q'
      × (contents q' ≡ xs)
      × (q'.size ≡ q.size)
unfolding step Fifo.step
step_refines {q} (Op.put c) v =
    let (q', e, v', held, size) = writechar_refines c v in (q', rw e refl, v', held, size)
step_refines {q} (Op.get peek) v =
    let (q', e, v', held, size) = readchar_refines peek v in (q', rw e refl, v', held, size)
step_refines {q} (Op.write src) v =
    let (q', e, v', held, size) = write_refines src (length src) v (omega arith) in
    (q', rw e refl, v', held, size)
step_refines {q} (Op.read len peek) v =
    let (q', e, v', held, size) =
      read_refines (replicate len 0) len peek v
        (omega (arith, length-replicate len (let z : ℕ = 0 in z))) in
    (q', rw e refl, v', held, size)
step_refines {q} (Op.discard n) v =
    let (e, v', held) = discard_refines n v in
    ((discard q n).1, rw e refl, v', held, unfold discard in refl)
step_refines {q} Op.purge v =
    let (v', held) = purge_refines v in (purge q, refl, v', held, unfold purge in refl)

-- No sequence of calls of producer and consumer tells a valid queue from the FIFO of `size - 1` bytes
-- that holds its contents: every call returns, and returns the same.
pub run_refines :
    (ops : List Op) {q : Queue}
    → IsValid q
    → run q ops ≡ some (Fifo.run (q.size - 1) (contents q) ops)
unfolding run Fifo.run
run_refines [] v = refl
run_refines (op ∷ ops) {q} v =
    let (q', e, v', held, size) = step_refines op v in rw (e, run_refines ops v', held, size)
