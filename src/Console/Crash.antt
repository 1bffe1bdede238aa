-- ===== src/Console/Crash.antt =====
-- Output while the core crashes.
use libos.Prelude.{
  ℕ, ◌+◌, ◌-◌, ◌/◌, ◌≡◌, ◌≤◌, ◌<◌, refl, ap, sym, ◌∙◌, arith, Bool, true, false, not, ◌==◌, ==_ne,
  ◌&&◌, ◌||◌, Option, some, none, List, [], ◌∷◌, ◌++◌, ltb, le→ltb, if◌then◌else◌, ◌>>=◌,
}
use libos.Queue.{Queue, get_space}
use libos.Queue.Facts.{IsValid}
use libos.Queue.View.{contents}
use libos.Console.{
  Console, crash_in_print, console_write, console_write_nolock, write_direct, write_loop,
  putchar_nolock, put_one, to_device, notify_q, call_back, drain_consolebuf,
}
use libos.Console.Write.{working, shown, ends, crlf, false_true, drained, drained_again}

module _ {D : Type 0} (tx : D → List ℕ → D) (notify : Queue → Bool → Queue)
    (tx-nil : (x : D) → tx x [] ≡ x)
    (tx-add : (x : D) (xs ys : List ℕ) → tx (tx x xs) ys ≡ tx x (xs ++ ys)) where
  put_one-direct :
      (n : ℕ) (buf : Queue) (d : D) (ch : ℕ)
      → 0 < n
      → put_one tx notify false ch (working n buf none d)
        ≡ some (working n buf none (tx d (ch ∷ [])))
  unfolding put_one to_device
  put_one-direct n buf d ch h = rw (==_ne n 0 (omega arith)) refl

  putchar_nolock-direct :
      (n : ℕ) (buf : Queue) (d : D) (c : ℕ)
      → 0 < n
      → putchar_nolock tx notify false c (working n buf none d)
        ≡ some (working n buf none (tx d (if c == 10 then 13 ∷ c ∷ [] else c ∷ [])))
  unfolding putchar_nolock
  putchar_nolock-direct n buf d c h = by_newline (c == 10)
    where
      by_newline :
          (newline : Bool)
          → ((if newline
                then put_one tx notify false 13 (working n buf none d)
                else some (working n buf none d))
              >>= put_one tx notify false c)
            ≡ some (working n buf none (tx d (if newline then 13 ∷ c ∷ [] else c ∷ [])))
      by_newline true =
          ap (λ o. o >>= put_one tx notify false c) (put_one-direct n buf d 13 h)
          ∙ put_one-direct n buf (tx d (13 ∷ [])) c h
          ∙ ap (λ x. some (working n buf none x)) (tx-add d (13 ∷ []) (c ∷ []))
      by_newline false = put_one-direct n buf d c h

  write_loop-direct :
      (text : List ℕ) (len n : ℕ) (buf : Queue) (d : D)
      → 0 < n
      → ends text len ≡ true
      → write_loop tx notify false text len (working n buf none d)
        ≡ some (working n buf none (tx d (crlf (shown text len))))
  unfolding write_loop ends shown crlf
  write_loop-direct [] len n buf d h e = false_true e
  write_loop-direct (c ∷ text) len n buf d h e =
      by_end (c == 0 || len == 0) e (λ x t. write_loop-direct text (len - 1) n buf x h t)
    where
      by_end :
          (last : Bool)
          → (if last then true else ends text (len - 1)) ≡ true
          → ((x : D)
              → ends text (len - 1) ≡ true
              → write_loop tx notify false text (len - 1) (working n buf none x)
                ≡ some (working n buf none (tx x (crlf (shown text (len - 1))))))
          → (if last
              then some (working n buf none d)
              else putchar_nolock tx notify false c (working n buf none d)
                >>= write_loop tx notify false text (len - 1))
            ≡ some
                (working n buf none (tx d (crlf (if last then [] else c ∷ shown text (len - 1)))))
      by_end true t next = ap (λ x. some (working n buf none x)) (sym (tx-nil d))
      by_end false t next =
          ap (λ o. o >>= write_loop tx notify false text (len - 1))
            (putchar_nolock-direct n buf d c h)
          ∙ next _ t
          ∙ ap (λ x. some (working n buf none x)) (tx-add d _ (crlf (shown text (len - 1))))

  nolock-direct :
      (text : List ℕ) (len n : ℕ) (buf : Queue) (d : D)
      → 0 < n
      → IsValid buf
      → ends text len ≡ true
      → (buf' : Queue) × (console_write_nolock tx notify text len (working n buf none d)
          ≡ some (working n buf' none (tx d (crlf (shown text len) ++ contents buf))))
        × IsValid buf'
        × (contents buf' ≡ [])
  unfolding console_write_nolock write_direct notify_q call_back
  nolock-direct text len n buf d h v e =
      let d1 = tx d (crlf (shown text len)) in
      let (b2, e2, v2, left2) = drained tx notify n buf none d1 tx-nil tx-add v in
      let (b3, e3, v3, left3) =
        drained_again tx notify n (ltb (get_space b2) (b2.size / 2)) b2 none (tx d1 (contents buf))
          tx-nil tx-add v2 left2 in
      (
        b3,
        rw (==_ne n 0 (omega arith)) (
            ap (λ o. o >>= called) (write_loop-direct text len n buf d h e)
            ∙ ap (λ o. o >>= checked) e2
            ∙ e3
            ∙ ap (λ x. some (working n b3 none x))
                (tx-add d (crlf (shown text len)) (contents buf))),
        v3,
        left3,
      )
    where
      checked : Console D → Option (Console D)
      checked s =
          if not false && ltb (get_space s.consolebuf) (s.consolebuf.size / 2)
          then drain_consolebuf tx notify s
          else some s

      called : Console D → Option (Console D)
      called s = notify_q tx notify false s.qconsole (not (s.crashing == 0)) s >>= checked

  -- While the core crashes, with a device, no queue for the console and a string that ends, the device gets all
  -- characters of the string, however full the buffer is, and then what was buffered; the count of crashes is
  -- what it was. That holds up to a count of 10000, and for a device whose output adds up.
  pub console_write-direct :
      (text : List ℕ) (len n : ℕ) (buf : Queue) (d : D)
      → 0 < n
      → n ≤ crash_in_print
      → IsValid buf
      → ends text len ≡ true
      → (buf' : Queue) × (console_write tx notify text len (working n buf none d)
          ≡ some (working n buf' none (tx d (crlf (shown text len) ++ contents buf))))
        × IsValid buf'
        × (contents buf' ≡ [])
  unfolding console_write
  console_write-direct text len n buf d h small v e =
      let (b, e1, v1, left) = nolock-direct text len (n + crash_in_print) buf d (omega arith) v e in
      (
        b,
        rw (==_ne n 0 (omega arith), le→ltb crash_in_print n small)
            (ap (λ o. o >>= back) e1
              ∙ ap (λ k. some (working k b none (tx d (crlf (shown text len) ++ contents buf))))
                  {x = n + crash_in_print - crash_in_print} (omega arith)),
        v1,
        left,
      )
    where
      back : Console D → Option (Console D)
      back s = some (record s { crashing = s.crashing - crash_in_print })
