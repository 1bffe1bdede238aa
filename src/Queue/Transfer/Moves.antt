-- ===== src/Queue/Transfer/Moves.antt =====
-- What `queue_to_queue` moves: chunk by chunk, then as a whole.
use native.Mathlib.Decide.{dec_lt, ℕ_discrete}
use libos.Prelude.{
  ℕ, zero, suc, ◌+◌, ◌-◌, ◌≤◌, ◌<◌, min, ◌≡◌, refl, ap, sym, subst, ◌∙◌, arith, Bool, true, false,
  Option, some, ◌++◌, ltb, lt→ltb, le→ltb, ==_iff, ==_ne, if◌then◌else◌, length, get_or, take, drop,
  append-nil, append_assoc, length-drop, take-tabulate, get_or-drop, tabulate-ext, take-tabulate_le,
  drop-tabulate, take-add, length-append, length-take,
}
use libos.Prelude.Words.{u32, add64, sub64}
use libos.Queue.{Queue, wrap, write}
use libos.Queue.Facts.{IsValid, distance-lt, round, wrap-round}
use libos.Queue.View.{byte_at, count, contents, length-contents}
use libos.Queue.Read.{advance-contents}
use libos.Queue.Write.{write_refines}
use libos.Queue.Transfer.{move_chunk, to_queue_rest, to_queue}

-- The index `k` bytes behind the head, and the queue with its head there.
abbrev pub ahead : Queue → ℕ → ℕ
ahead q k = round q.size (q.head + k)

abbrev pub moved_to : Queue → ℕ → Bool → Queue
moved_to q k peek = if peek then q else record q { head = ahead q k }

-- Bytes of the buffer that do not go round are bytes of the contents.
pub segment :
    {q : Queue} (k n : ℕ)
    → IsValid q
    → k + n ≤ count q
    → ahead q k + n ≤ q.size
    → take n (drop (ahead q k) q.buf) ≡ take n (drop k (contents q))
segment {q} k n v le fits =
    take-tabulate n (drop (ahead q k) q.buf) 0
      (omega (arith, length-drop (ahead q k) q.buf, v.storage))
    ∙ tabulate-ext n (λ i. get_or (drop (ahead q k) q.buf) i 0) (λ i. byte_at q (k + i))
        (λ i p.
          get_or-drop (ahead q k) q.buf i 0
          ∙ ap (λ j. get_or q.buf j 0) (ground (arith, v.head_in, v.tail_in)))
    ∙ sym (take-tabulate_le n (count q - k) (λ i. byte_at q (k + i)) (omega arith))
    ∙ ap (take n) (sym (drop-tabulate k (count q) (byte_at q)))

-- The head that the code computes after `m` more bytes.
pub ahead_lem :
    {q : Queue} (k m : ℕ)
    → IsValid q
    → k + m ≤ count q
    → (wrap q (add64 (ahead q k) m) ≡ ahead q (k + m)) × (u32 (ahead q (k + m)) ≡ ahead q (k + m))
ahead_lem {q} k m v le =
    let small = distance-lt q.size q.head q.tail v.head_in v.tail_in in
    (
      ap (wrap q) {y = ahead q k + m} (ground (arith, v.head_in, v.small))
          ∙ wrap-round v (ahead q k + m) (ground (arith, v.head_in, v.small))
          ∙ ground (arith, v.head_in, v.small),
      ground (arith, v.head_in, v.small),
    )

-- The two functions over the result of a chunk.
rest_step :
    (dest src : Queue) (head tail orig len chunk m h : ℕ) (peek : Bool) (dest' src' : Queue)
    → 0 < len
    → min len (sub64 tail head) ≡ chunk
    → move_chunk dest src head chunk peek ≡ some (m, h, dest', src')
    → to_queue_rest dest src head tail orig len peek ≡ some (orig - (len - m), dest', src')
unfolding to_queue_rest
rest_step dest src head tail orig len chunk m h peek dest' src' pos short e =
    rw (lt→ltb 0 len pos, short, e) refl

around_step :
    (dest src : Queue) (len chunk m h : ℕ) (peek : Bool) (dest' src' : Queue)
    → src.tail < src.head
    → min len (sub64 src.size src.head) ≡ chunk
    → move_chunk dest src src.head chunk peek ≡ some (m, h, dest', src')
    → to_queue dest src len peek ≡ (
        if ltb m chunk
        then some (m, dest', src')
        else to_queue_rest dest' src' h src.tail len (len - m) peek)
unfolding to_queue
around_step dest src len chunk m h peek dest' src' around far e =
    rw (==_ne src.head src.tail (omega arith), lt→ltb _ _ around, far, e) refl

straight_step :
    (dest src : Queue) (len : ℕ) (peek : Bool)
    → src.head < src.tail
    → to_queue dest src len peek ≡ to_queue_rest dest src src.head src.tail len len peek
unfolding to_queue
straight_step dest src len peek h =
    rw (==_ne src.head src.tail (omega arith), le→ltb src.tail src.head (omega arith)) refl

-- The numbers of two chunks, for `free` bytes in the destination and `end` up to the end of the ring.
pub two_chunks :
    (len end held free chunk rest : ℕ)
    → chunk ≡ min len end
    → end ≤ held
    → chunk ≤ free
    → rest ≡ min (free - chunk) (min (len - chunk) (held - chunk))
    → (chunk + rest ≡ min free (min len held))
      × (len - (len - chunk - rest) ≡ min free (min len held))
two_chunks len end held free chunk rest ec le fits er =
    let sum : chunk + rest ≡ min free (min len held) = omega arith in
    let fit : chunk + rest ≤ len = omega arith in (sum, omega (arith, sum))

abbrev pub space : Queue → ℕ
space q = q.size - 1 - length (contents q)

-- The second chunk moved `m` bytes.
abbrev Rest : Queue → Queue → Bool → ℕ → ℕ → ℕ → ℕ → Type 0
Rest dest src peek k len orig m =
    (dest' : Queue) × (to_queue_rest dest (moved_to src k peek) (ahead src k) src.tail orig len peek
      ≡ some (orig - (len - m), dest', moved_to src (k + m) peek))
    × IsValid dest'
    × (contents dest' ≡ contents dest ++ take m (drop k (contents src)))
    × (dest'.size ≡ dest.size)

module _ {dest src : Queue} (d : IsValid dest) (s : IsValid src) (peek : Bool) where
  move_chunk_lem :
      (k chunk : ℕ)
      → k + chunk ≤ count src
      → ahead src k + chunk ≤ src.size
      → let m = min (space dest) chunk in
        (dest' : Queue) × (move_chunk dest (moved_to src k peek) (ahead src k) chunk peek
          ≡ some (m, ahead src (k + m), dest', moved_to src (k + m) peek))
        × IsValid dest'
        × (contents dest' ≡ contents dest ++ take m (drop k (contents src)))
        × (dest'.size ≡ dest.size)
  unfolding move_chunk wrap
  move_chunk_lem k chunk le fits =
      let m : ℕ = min (space dest) chunk in
      let (dest', e, d', held, size) =
        write_refines (drop (ahead src k) src.buf) chunk d
          (omega (arith, length-drop (ahead src k) src.buf, s.storage)) in
      let (next, word) = ahead_lem k m s (omega arith) in
      (
        dest',
        go peek dest' e next word,
        d',
        held ∙ ap (λ l. contents dest ++ l) (segment k m s (omega arith) (omega arith)),
        size,
      )
    where
      go :
          (p : Bool) (dest' : Queue)
          → write dest (drop (ahead src k) src.buf) chunk ≡ some (min (space dest) chunk, dest')
          → wrap src (add64 (ahead src k) (min (space dest) chunk))
            ≡ ahead src (k + min (space dest) chunk)
          → u32 (ahead src (k + min (space dest) chunk)) ≡ ahead src (k + min (space dest) chunk)
          → move_chunk dest (moved_to src k p) (ahead src k) chunk p
            ≡ some (
              min (space dest) chunk,
              ahead src (k + min (space dest) chunk),
              dest',
              moved_to src (k + min (space dest) chunk) p,
            )
      go true dest' e next word = rw (e, next)
      go false dest' e next word = rw e (
          ap (λ h. some (min (space dest) chunk, h, dest', record src { head = u32 h })) next
          ∙ ap
              (λ h. some (
                min (space dest) chunk,
                ahead src (k + min (space dest) chunk),
                dest',
                record src { head = h },
              ))
              word)

  -- The second chunk, when `k` bytes have gone and the rest does not go round.
  to_queue_rest_lem :
      (k len orig : ℕ)
      → k ≤ count src
      → len ≤ orig
      → (0 < len → ahead src k + (count src - k) ≡ src.tail)
      → Rest dest src peek k len orig (min (space dest) (min len (count src - k)))
  unfolding to_queue_rest
  to_queue_rest_lem k zero orig le more straight =
      let none_left : 0 ≡ min (space dest) (min 0 (count src - k)) = omega arith in
      subst (λ m. Rest dest src peek k 0 orig m) none_left
        (
          dest,
          ap (λ j. some (orig - 0, dest, moved_to src j peek)) {x = k} {y = k + 0} (omega arith),
          d,
          sym (append-nil (contents dest)),
          refl,
        )
  to_queue_rest_lem k (suc len) orig le more straight =
      let chunk : ℕ = min (suc len) (count src - k) in
      let end : ahead src k + (count src - k) ≡ src.tail = straight (omega arith) in
      let short : min (suc len) (sub64 src.tail (ahead src k)) ≡ chunk =
        ap (min (suc len)) (omega (arith, s.tail_in, s.small)) in
      let (dest', e, d', held, size) =
        move_chunk_lem k chunk (omega arith) (omega (arith, s.tail_in)) in
      (
        dest',
        rest_step dest (moved_to src k peek) (ahead src k) src.tail orig (suc len) chunk
            (min (space dest) chunk) (ahead src (k + min (space dest) chunk)) peek dest'
            (moved_to src (k + min (space dest) chunk) peek) (omega arith) short e,
        d',
        held,
        size,
      )

abbrev pub Moved : Queue → Queue → ℕ → Bool → ℕ → Option (ℕ × Queue × Queue) → Type 0
Moved dest src len peek n r =
    (dest' : Queue) × (r ≡ some (n, dest', moved_to src n peek))
    × IsValid dest'
    × (contents dest' ≡ contents dest ++ take n (contents src))

module _ {dest src : Queue} (d : IsValid dest) (s : IsValid src) (peek : Bool) where
  moved_zero : moved_to src 0 peek ≡ src
  moved_zero = go peek
    where
      go : (p : Bool) → moved_to src 0 p ≡ src
      go true = refl
      go false = ap (λ h. record src { head = h }) {y = src.head} (ground (arith, s.head_in))

  -- The bytes do not go round: one chunk.
  straight_lem :
      (len : ℕ)
      → ahead src 0 + (count src - 0) ≡ src.tail
      → Moved dest src len peek
          (min (space dest) (min len (count src)))
          (to_queue_rest dest src src.head src.tail len len peek)
  straight_lem len straight =
      let (dest', e, d', held, size) =
        to_queue_rest_lem d s peek 0 len len (omega arith) (omega arith) (λ _. straight) in
      let n : ℕ = min (space dest) (min len (count src)) in
      let m : ℕ = min (space dest) (min len (count src - 0)) in
      let same : m ≡ n = omega arith in
      (
        dest',
        ap (λ q. to_queue_rest dest q src.head src.tail len len peek) (sym moved_zero)
            ∙ ap (λ h. to_queue_rest dest (moved_to src 0 peek) h src.tail len len peek)
                {y = ahead src 0} (ground (arith, s.head_in))
            ∙ e
            ∙ ap (λ a. some (a, dest', moved_to src (0 + m) peek)) {y = n} (omega arith)
            ∙ ap (λ b. some (n, dest', moved_to src b peek)) {x = 0 + m} {y = n} (omega arith),
        d',
        held ∙ ap (λ j. contents dest ++ take j (contents src)) same,
      )

  -- Two chunks in a row are one.
  join :
      (dest' dest₂ : Queue) (len chunk m n : ℕ) (r : Option (ℕ × Queue × Queue))
      → chunk + m ≡ n
      → len - (len - chunk - m) ≡ n
      → r ≡ some (len - (len - chunk - m), dest₂, moved_to src (chunk + m) peek)
      → IsValid dest₂
      → contents dest' ≡ contents dest ++ take chunk (contents src)
      → contents dest₂ ≡ contents dest' ++ take m (drop chunk (contents src))
      → Moved dest src len peek n r
  join dest' dest₂ len chunk m n r sum number e d₂ held held₂ = (
    dest₂,
    e
        ∙ ap (λ a. some (a, dest₂, moved_to src (chunk + m) peek)) number
        ∙ ap (λ b. some (n, dest₂, moved_to src b peek)) sum,
    d₂,
    held₂
        ∙ ap (λ l. l ++ take m (drop chunk (contents src))) held
        ∙ append_assoc (contents dest) (take chunk (contents src))
            (take m (drop chunk (contents src)))
        ∙ ap (λ l. contents dest ++ l) (take-add chunk m (contents src))
        ∙ ap (λ j. contents dest ++ take j (contents src)) sum,
  )

  -- The bytes go round and `dest` took all of the chunk up to the end of the ring: then one from its
  -- beginning.
  whole_lem :
      (dest' : Queue) (len chunk m n : ℕ) (r : Option (ℕ × Queue × Queue))
      → chunk + m ≡ n
      → len - (len - chunk - m) ≡ n
      → contents dest' ≡ contents dest ++ take chunk (contents src)
      → r
        ≡ to_queue_rest dest'
            (moved_to src chunk peek)
            (ahead src chunk)
            src.tail
            len
            (len - chunk)
            peek
      → Rest dest' src peek chunk (len - chunk) len m
      → Moved dest src len peek n r
  whole_lem dest' len chunk m n r sum number held step (dest₂, e₂, d₂, held₂, size₂) =
      join dest' dest₂ len chunk m n r sum number (step ∙ e₂) d₂ held held₂

  -- The room that is left, and where the rest begins.
  space_after :
      (dest' : Queue) (chunk : ℕ)
      → chunk ≤ count src
      → contents dest' ≡ contents dest ++ take chunk (contents src)
      → dest'.size ≡ dest.size
      → space dest' ≡ space dest - chunk
  space_after dest' chunk le held size =
      let long : length (contents dest') ≡ length (contents dest) + chunk =
        ap length held
        ∙ length-append (contents dest) (take chunk (contents src))
        ∙ ap (λ j. length (contents dest) + j)
            (length-take chunk (contents src) ∙ omega (arith, length-contents src)) in
      omega arith

  straight_after :
      (len chunk : ℕ)
      → src.tail < src.head
      → chunk ≡ min len (src.size - src.head)
      → 0 < len - chunk
      → ahead src chunk + (count src - chunk) ≡ src.tail
  straight_after len chunk around ec more = ground (arith, s.head_in, s.tail_in)

  -- The bytes go round: one chunk up to the end of the ring, then one from its beginning.
  round_lem :
      (len : ℕ)
      → src.tail < src.head
      → Moved dest src len peek
          (min (space dest) (min len (count src)))
          (to_queue dest src len peek)
  round_lem len around =
      let chunk : ℕ = min len (src.size - src.head) in
      let m : ℕ = min (space dest) chunk in
      let n : ℕ = min (space dest) (min len (count src)) in
      let total : count src ≡ src.tail + src.size - src.head = ground arith in
      let start : ahead src 0 ≡ src.head = ground (arith, s.head_in) in
      let far : min len (sub64 src.size src.head) ≡ chunk =
        ap (min len) (omega (arith, s.head_in, s.small)) in
      let (dest', e, d', held, size) =
        move_chunk_lem d s peek 0 chunk (omega arith) (omega arith) in
      let first : move_chunk dest src src.head chunk peek
          ≡ some (m, ahead src m, dest', moved_to src m peek) =
        ap (λ q. move_chunk dest q src.head chunk peek) (sym moved_zero)
        ∙ ap (λ h. move_chunk dest (moved_to src 0 peek) h chunk peek) (sym start)
        ∙ e
        ∙ ap (λ j. some (m, ahead src j, dest', moved_to src j peek)) {x = 0 + m} {y = m}
            (omega arith) in
      let step =
        around_step dest src len chunk m (ahead src m) peek dest' (moved_to src m peek) around far
          first in
      elim (dec_lt m chunk) [
        | yes p ↦ (
          dest',
          step
              ∙ ap
                  (λ b.
                    if b
                    then some (m, dest', moved_to src m peek)
                    else to_queue_rest dest' (moved_to src m peek) (ahead src m) src.tail len
                        (len - m) peek)
                  (lt→ltb m chunk p)
              ∙ ap (λ j. some (j, dest', moved_to src j peek)) {x = m} {y = n} (omega arith),
          d',
          held ∙ ap (λ j. contents dest ++ take j (contents src)) {x = m} {y = n} (omega arith),
        )
        | no p ↦
            let all : m ≡ chunk = omega arith in
            let held' : contents dest' ≡ contents dest ++ take chunk (contents src) =
              held ∙ ap (λ j. contents dest ++ take j (contents src)) all in
            let left : space dest' ≡ space dest - chunk =
              space_after dest' chunk (omega arith) held' size in
            let rest : ℕ = min (space dest') (min (len - chunk) (count src - chunk)) in
            let (sum, number) =
              two_chunks len (src.size - src.head) (count src) (space dest) chunk rest refl
                (omega arith) (omega arith)
                (ap (λ f. min f (min (len - chunk) (count src - chunk))) left) in
            whole_lem dest' len chunk rest n (to_queue dest src len peek) sum number held'
              (step
                ∙ ap
                    (λ b.
                      if b
                      then some (m, dest', moved_to src m peek)
                      else to_queue_rest dest' (moved_to src m peek) (ahead src m) src.tail len
                          (len - m) peek)
                    (le→ltb m chunk (omega arith))
                ∙ ap
                    (λ j.
                      to_queue_rest dest' (moved_to src j peek) (ahead src j) src.tail len (len - j)
                        peek)
                    all)
              (to_queue_rest_lem d' s peek chunk (len - chunk) len (omega arith) (omega arith)
                (straight_after len chunk around refl))
      ]

pub moved_to-contents :
    {src : Queue} (n : ℕ) (peek : Bool)
    → IsValid src
    → n ≤ count src
    → IsValid (moved_to src n peek)
      × (contents (moved_to src n peek) ≡ (if peek then contents src else drop n (contents src)))
moved_to-contents n true s le = (s, refl)
moved_to-contents n false s le = advance-contents n s le

-- Of valid queues that share no memory, `queue_to_queue` without blocking moves as many bytes as were
-- asked for, are held by the source and are free in the destination: it appends exactly the oldest
-- of the source, in order and without an access outside a buffer, returns their number, takes them
-- off the source unless it peeks, and keeps both queues valid.
pub to_queue_refines :
    {dest src : Queue} (len : ℕ) (peek : Bool)
    → IsValid dest
    → IsValid src
    → let n = min (dest.size - 1 - length (contents dest)) (min len (length (contents src))) in
      (dest' : Queue) × (src' : Queue) × (to_queue dest src len peek ≡ some (n, dest', src'))
      × IsValid dest'
      × IsValid src'
      × (contents dest' ≡ contents dest ++ take n (contents src))
      × (contents src' ≡ (if peek then contents src else drop n (contents src)))
to_queue_refines {dest} {src} len peek d s =
    finish (min (space dest) (min len (count src)))
      (min (space dest) (min len (length (contents src)))) (omega (arith, length-contents src))
      (omega arith) moved
  where
    nothing :
        (n : ℕ)
        → 0 ≡ n
        → src.head ≡ src.tail
        → Moved dest src len peek n (to_queue dest src len peek)
    nothing n z e = (
      dest,
      unfold to_queue in
          rw ((==_iff src.head src.tail).1 e) refl
          ∙ ap (λ q. some (0, dest, q)) (sym (moved_zero d s peek))
          ∙ ap (λ j. some (j, dest, moved_to src j peek)) z,
      d,
      sym (append-nil (contents dest)) ∙ ap (λ j. contents dest ++ take j (contents src)) z,
    )

    moved :
        Moved dest src len peek
          (min (space dest) (min len (count src)))
          (to_queue dest src len peek)
    moved = elim (ℕ_discrete src.head src.tail) [
      | yes e ↦
          let n : ℕ = min (space dest) (min len (count src)) in
          let zero_n : 0 ≡ n = ground (arith, ap (λ (t : ℕ). t) e) in nothing n zero_n e
      | no ne ↦ elim (dec_lt src.tail src.head) [
        | yes p ↦ round_lem d s peek len p
        | no p ↦
            let (dest', e, d', held) = straight_lem d s peek len (ground (arith, s.head_in)) in
            (dest', straight_step dest src len peek (omega arith) ∙ e, d', held)
      ]
    ]

    finish :
        (m n : ℕ)
        → m ≡ n
        → m ≤ count src
        → Moved dest src len peek m (to_queue dest src len peek)
        → (dest' : Queue) × (src' : Queue) × (to_queue dest src len peek ≡ some (n, dest', src'))
          × IsValid dest'
          × IsValid src'
          × (contents dest' ≡ contents dest ++ take n (contents src))
          × (contents src' ≡ (if peek then contents src else drop n (contents src)))
    finish m n e le (dest', r, d', held) =
        let (s', left) = moved_to-contents m peek s le in
        (
          dest',
          moved_to src m peek,
          r ∙ ap (λ j. some (j, dest', moved_to src m peek)) e,
          d',
          s',
          held ∙ ap (λ j. contents dest ++ take j (contents src)) e,
          left ∙ ap (λ j. if peek then contents src else drop j (contents src)) e,
        )
