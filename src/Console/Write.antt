-- ===== src/Console/Write.antt =====
-- What `console_write_nolock` brings to the device.
use libos.Prelude.{
  ℕ, ◌-◌, ◌/◌, ◌≡◌, ◌≤◌, refl, ap, sym, ◌∙◌, arith, Bool, true, false, not, ◌==◌, ◌&&◌, ◌||◌,
  Option, some, List, [], ◌∷◌, ◌++◌, append-nil, ltb, if◌then◌else◌, ◌>>=◌, length, take, take_all,
  drop_all, min, take-nil,
}
use libos.Errors.{Result}
use libos.Queue.{Queue, get_space}
use libos.Queue.Facts.{IsValid}
use libos.Queue.View.{contents, length-contents}
use libos.Queue.Transfer.Sends.{to_chardev_refines}
use libos.Console.{
  Console, cd_callback, console_write_nolock, write_direct, write_loop, putchar_nolock, put_one,
  to_buffer, notify_q, call_back, drain_cd, drain_to_device, drain_consolebuf,
}
use libos.Console.Push.{room_for, Pushed, Pushed-append, writechar-Pushed}

-- The characters that a call is to write: up to the NUL, and at most `len`.
unfoldable pub shown : List ℕ → ℕ → List ℕ
shown [] len = []
shown (c ∷ text) len =
    let rest = shown text (len - 1) in if c == 0 || len == 0 then [] else c ∷ rest

-- The object has a NUL, or more than `len` characters.
unfoldable pub ends : List ℕ → ℕ → Bool
ends [] len = false
ends (c ∷ text) len = let rest = ends text (len - 1) in if c == 0 || len == 0 then true else rest

-- With a carriage return before each newline.
unfoldable pub crlf : List ℕ → List ℕ
crlf [] = []
crlf (c ∷ text) = (if c == 10 then 13 ∷ c ∷ [] else c ∷ []) ++ crlf text

-- A console with a device, on a core whose `crashing` is `n`: 0 in normal operation.
abbrev pub working : {D : Type 0} → ℕ → Queue → Option Queue → D → Console D
working n buf q d = record {
  consolebuf = buf;
  data_avail = cd_callback;
  qconsole = q;
  console = some d;
  console_ok = true;
  crashing = n;
}

Pushed-nil : {q : Queue} → IsValid q → Pushed q [] q
Pushed-nil {q} v = record {
  valid = v;
  held = sym (ap (λ l. contents q ++ l) (take-nil (room_for q)) ∙ append-nil (contents q));
  same_size = refl;
}

pub false_true : {A : Type 0} → false ≡ true → A
false_true {A} e = absurd (clash e)
  where
    clash : false ≡ true → ⊥
    clash h = cc

module _ {D : Type 0} (tx : D → List ℕ → D) (notify : Queue → Bool → Queue) where
  -- That the bytes `xs` have gone to the buffer.
  abbrev Buffered : Queue → Option Queue → D → List ℕ → Option (Console D) → Type 0
  Buffered buf q d xs o = (buf' : Queue) × (o ≡ some (working 0 buf' q d)) × Pushed buf xs buf'

  put_one-Buffered :
      (buf : Queue) (q : Option Queue) (d : D) (ch : ℕ)
      → IsValid buf
      → Buffered buf q d (ch ∷ []) (put_one tx notify false ch (working 0 buf q d))
  unfolding put_one to_buffer
  put_one-Buffered buf q d ch v =
      let (r, buf', e, p) = writechar-Pushed ch v in (buf', ap (λ o. o >>= kept) e, p)
    where
      kept : Result (Unit {0}) × Queue → Option (Console D)
      kept r = some (working 0 r.1 q d)

  putchar_nolock-Buffered :
      (buf : Queue) (q : Option Queue) (d : D) (c : ℕ)
      → IsValid buf
      → Buffered buf q d
          (if c == 10 then 13 ∷ c ∷ [] else c ∷ [])
          (putchar_nolock tx notify false c (working 0 buf q d))
  unfolding putchar_nolock
  putchar_nolock-Buffered buf q d c v = by_newline (c == 10)
    where
      by_newline :
          (newline : Bool)
          → Buffered buf q d (if newline then 13 ∷ c ∷ [] else c ∷ []) (
              (if newline
                then put_one tx notify false 13 (working 0 buf q d)
                else some (working 0 buf q d))
              >>= put_one tx notify false c)
      by_newline true =
          let (b1, e1, p1) = put_one-Buffered buf q d 13 v in
          let (b2, e2, p2) = put_one-Buffered b1 q d c p1.valid in
          (
            b2,
            ap (λ o. o >>= put_one tx notify false c) e1 ∙ e2,
            Pushed-append (13 ∷ []) (c ∷ []) p1 p2,
          )
      by_newline false = put_one-Buffered buf q d c v

  write_loop-Buffered :
      (text : List ℕ) (len : ℕ) (buf : Queue) (q : Option Queue) (d : D)
      → IsValid buf
      → ends text len ≡ true
      → Buffered buf q d
          (crlf (shown text len))
          (write_loop tx notify false text len (working 0 buf q d))
  unfolding write_loop ends shown crlf
  write_loop-Buffered [] len buf q d v e = false_true e
  write_loop-Buffered (c ∷ text) len buf q d v e =
      by_end (c == 0 || len == 0) e (λ b w t. write_loop-Buffered text (len - 1) b q d w t)
    where
      by_end :
          (last : Bool)
          → (if last then true else ends text (len - 1)) ≡ true
          → ((b : Queue)
              → IsValid b
              → ends text (len - 1) ≡ true
              → Buffered b q d
                  (crlf (shown text (len - 1)))
                  (write_loop tx notify false text (len - 1) (working 0 b q d)))
          → Buffered buf q d (crlf (if last then [] else c ∷ shown text (len - 1))) (
              if last
              then some (working 0 buf q d)
              else putchar_nolock tx notify false c (working 0 buf q d)
                >>= write_loop tx notify false text (len - 1))
      by_end true t next = (buf, refl, Pushed-nil v)
      by_end false t next =
          let (b1, e1, p1) = putchar_nolock-Buffered buf q d c v in
          let (b2, e2, p2) = next b1 p1.valid t in
          (
            b2,
            ap (λ o. o >>= write_loop tx notify false text (len - 1)) e1 ∙ e2,
            Pushed-append _ _ p1 p2,
          )

  -- The device has taken all that was in the buffer.
  pub drained :
      (n : ℕ) (buf : Queue) (q : Option Queue) (d : D)
      → ((x : D) → tx x [] ≡ x)
      → ((x : D) (xs ys : List ℕ) → tx (tx x xs) ys ≡ tx x (xs ++ ys))
      → IsValid buf
      → (buf' : Queue) × (drain_cd tx notify (working n buf q d)
          ≡ some (working n buf' q (tx d (contents buf))))
        × IsValid buf'
        × (contents buf' ≡ [])
  unfolding drain_cd drain_to_device
  drained n buf q d tx-nil tx-add v =
      let (buf', e, v', left) = to_chardev_refines tx tx-nil tx-add d buf.size false v in
      let whole : length (contents buf) ≤ min buf.size (length (contents buf)) =
        ground (arith, length-contents buf, v.head_in, v.tail_in) in
      (
        buf',
        ap (λ o. o >>= kept) e
            ∙ ap (λ l. some (working n buf' q (tx d l))) (take_all _ (contents buf) whole),
        v',
        left ∙ drop_all _ (contents buf) whole,
      )
    where
      kept : ℕ × D × Queue → Option (Console D)
      kept r = some (working n r.2 q r.1)

  -- Draining an empty buffer once more changes nothing.
  pub drained_again :
      (n : ℕ) (more : Bool) (buf : Queue) (q : Option Queue) (d : D)
      → ((x : D) → tx x [] ≡ x)
      → ((x : D) (xs ys : List ℕ) → tx (tx x xs) ys ≡ tx x (xs ++ ys))
      → IsValid buf
      → contents buf ≡ []
      → (buf' : Queue) × ((if more
            then drain_consolebuf tx notify (working n buf q d)
            else some (working n buf q d))
          ≡ some (working n buf' q d))
        × IsValid buf'
        × (contents buf' ≡ [])
  unfolding drain_consolebuf
  drained_again n false buf q d tx-nil tx-add v none_held = (buf, refl, v, none_held)
  drained_again n true buf q d tx-nil tx-add v none_held =
      let (buf', e, v', left) = drained n buf q d tx-nil tx-add v in
      (buf', e ∙ ap (λ x. some (working n buf' q x)) (ap (tx d) none_held ∙ tx-nil d), v', left)

  -- In normal operation, with a device whose output adds up and with a string that ends, the device gets what was in
  -- the buffer and then the characters of the string, a carriage return before each newline, as many as the buffer
  -- has room for; the rest is lost. The buffer is empty then.
  pub console_write_nolock-transmitted :
      (text : List ℕ) (len : ℕ) (buf : Queue) (q : Option Queue) (d : D)
      → ((x : D) → tx x [] ≡ x)
      → ((x : D) (xs ys : List ℕ) → tx (tx x xs) ys ≡ tx x (xs ++ ys))
      → IsValid buf
      → ends text len ≡ true
      → (buf' : Queue) × (console_write_nolock tx notify text len (working 0 buf q d)
          ≡ some (
              working 0 buf' q
                (tx d (contents buf ++ take (room_for buf) (crlf (shown text len))))))
        × IsValid buf'
        × (contents buf' ≡ [])
  unfolding console_write_nolock write_direct notify_q call_back
  console_write_nolock-transmitted text len buf q d tx-nil tx-add v e =
      let (b1, e1, p1) = write_loop-Buffered text len buf q d v e in
      let (b2, e2, v2, left2) = drained 0 b1 q d tx-nil tx-add p1.valid in
      let (b3, e3, v3, left3) =
        drained_again 0 (ltb (get_space b2) (b2.size / 2)) b2 q (tx d (contents b1)) tx-nil tx-add
          v2 left2 in
      (
        b3,
        ap (λ o. o >>= called) e1
            ∙ ap (λ o. o >>= checked) e2
            ∙ e3
            ∙ ap (λ l. some (working 0 b3 q (tx d l))) p1.held,
        v3,
        left3,
      )
    where
      checked : Console D → Option (Console D)
      checked s =
          if not false && ltb (get_space s.consolebuf) (s.consolebuf.size / 2)
          then drain_consolebuf tx notify s
          else some s

      called : Console D → Option (Console D)
      called s = notify_q tx notify false s.qconsole (not (s.crashing == 0)) s >>= checked
