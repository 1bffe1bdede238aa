-- ===== src/Queue/Tests.antt =====
-- Runs of the queue at fixed inputs.
use libos.Prelude.{
  ℕ, ◌≡◌, refl, arith, true, false, some, List, [], ◌∷◌, ◌++◌, patch, slice, splice, append_assoc,
  append-nil,
}
use libos.Queue.{Queue, wrap, read, read_at, read_rest, write, write_at, write_rest}
use libos.Queue.Facts.{IsValid}
use libos.Queue.View.{contents}
use libos.Queue.Fifo
use libos.Queue.Fifo.{Op, Reply}
use libos.Queue.Run
use libos.Queue.Run.{run_refines}
use libos.Queue.Transfer.{to_queue, to_chardev}
use libos.Queue.Transfer.Moves.{to_queue_refines}
use libos.Queue.Transfer.Sends.{to_chardev_refines}

-- 8, 9, 5 round the end of a ring of four.
abbrev wrapped : Queue
wrapped = record {
  buf = 9 ∷ 5 ∷ 7 ∷ 8 ∷ [];
  head = 3;
  tail = 2;
  size = 4;
  data_avail = 0;
  consumer = 0;
  space_avail = 0;
  producer = 0;
}

abbrev roomy : Queue
roomy = record wrapped { buf = 1 ∷ 2 ∷ 3 ∷ 4 ∷ 5 ∷ 6 ∷ 7 ∷ 8 ∷ []; head = 6; tail = 7; size = 8 }

abbrev wrapped-IsValid : IsValid wrapped
wrapped-IsValid = record {
  order = (2, refl);
  small = omega arith;
  storage = omega arith;
  head_in = omega arith;
  tail_in = omega arith;
}

abbrev roomy-IsValid : IsValid roomy
roomy-IsValid = record {
  order = (3, refl);
  small = omega arith;
  storage = omega arith;
  head_in = omega arith;
  tail_in = omega arith;
}

contents-wrapped : contents wrapped ≡ 8 ∷ 9 ∷ 5 ∷ []
contents-wrapped = refl

read-wrapped :
    read wrapped (0 ∷ 0 ∷ 0 ∷ []) 2 false ≡ some (2, 8 ∷ 9 ∷ 0 ∷ [], record wrapped { head = 1 })
unfolding read read_at read_rest wrap slice splice patch
read-wrapped = refl

write-roomy :
    write roomy (10 ∷ 11 ∷ 12 ∷ []) 3
    ≡ some (3, record roomy { buf = 11 ∷ 12 ∷ 3 ∷ 4 ∷ 5 ∷ 6 ∷ 7 ∷ 10 ∷ []; tail = 2 })
unfolding write write_at write_rest wrap slice splice patch
write-roomy = refl

abbrev script : List Op
script =
    Op.put 6 ∷ Op.get false ∷ Op.write (1 ∷ 2 ∷ []) ∷ Op.read 2 true ∷ Op.discard 1 ∷ Op.purge ∷ []

run_refines_example : Run.run wrapped script ≡ some (Fifo.run 3 (8 ∷ 9 ∷ 5 ∷ []) script)
run_refines_example = run_refines script wrapped-IsValid

to_queue_refines_example :
    (dest : Queue) × (src : Queue) × (to_queue roomy wrapped 3 false ≡ some (3, dest, src))
    × IsValid dest
    × IsValid src
    × (contents dest ≡ 7 ∷ 8 ∷ 9 ∷ 5 ∷ [])
    × (contents src ≡ [])
to_queue_refines_example = to_queue_refines 3 false roomy-IsValid wrapped-IsValid

to_chardev_refines_example :
    (src : Queue) × (to_chardev {D = List ℕ} ◌++◌ [] wrapped 2 false ≡ some (2, 8 ∷ 9 ∷ [], src))
    × IsValid src
    × (contents src ≡ 5 ∷ [])
to_chardev_refines_example =
    to_chardev_refines ◌++◌ append-nil append_assoc [] 2 false wrapped-IsValid
