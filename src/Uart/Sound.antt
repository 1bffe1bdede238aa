-- ===== src/Uart/Sound.antt =====
-- In operation no byte is left waiting without the interrupt that sends it.
use libos.Prelude.{
  drop_all, ℕ, ◌+◌, ◌≡◌, ◌⊎◌, inl, inr, refl, ap, sym, ◌∙◌, subst, arith, Bool, true, false, not,
  ◌==◌, ◌||◌, ==_iff, Option, some, none, List, [], ◌∷◌, ltb, ltb→lt, if◌then◌else◌, ◌>>=◌, length,
  take, drop, bit_and,
}
use libos.Errors.{Result, err, invalid}
use libos.Queue.{Queue, empty, notify_producer}
use libos.Queue.Facts.{IsValid}
use libos.Queue.View.{contents, length-contents}
use libos.Queue.Chars.{writechar_refines}
use libos.Uart.{
  Uart, Served, isr, iid, receive, receive_from, line_status, count_if, transmit, transmit_from,
  notified, tx_callback, set_ier, clear_ier, set_tx_queue, set_rx_queue, change_tx, change_rx,
  attach_tx, ier_ethrei,
}
use libos.Uart.Send.{sending, tx_callback-sending}
use libos.Uart.Receive.{receive_loop_lem}
use libos.Uart.Enable.{set_ethrei-on, set_erdai-same, clear_erdai-same}
use libos.Uart.Events.{
  Event, interrupt, put, set_tx, set_rx, put_byte, step, run, EthreiOn, ValidQueue, IsServed,
  Proper, AllProper,
}

contents_nil-empty : {q : Queue} → IsValid q → contents q ≡ [] → not (empty q) ≡ false
unfolding empty
contents_nil-empty {q} v e =
    let none_held = sym (length-contents q) ∙ ap length e in
    ap not ((==_iff q.head q.tail).1 (ground (arith, v.head_in, v.tail_in)))

-- After the callback, the queue is empty or its interrupt is on.
abbrev Called : Uart → Option (Uart × Queue) → Type 0
Called u o =
    (u' : Uart) × (q' : Queue) × (o ≡ some (u', q'))
    × IsValid q'
    × ((not (empty q') ≡ false) ⊎ EthreiOn u'.ier)
    × (u'.rx ≡ u.rx)

tx_callback-Called :
    (ready : Bool) (u : Uart) (q : Queue) → IsValid q → Called u (tx_callback ready u q)
unfolding tx_callback
tx_callback-Called false u q v = (set_ier u ier_ethrei, q, refl, v, inr (set_ethrei-on u.ier), refl)
tx_callback-Called true u q v =
    let (q', e, v', held) = tx_callback-sending u q v in
    by_rest q' v' held (ltb (length (contents q)) u.txfifo) refl e
  where
    by_rest :
        (q' : Queue)
        → IsValid q'
        → contents q' ≡ drop u.txfifo (contents q)
        → (short : Bool) → ltb (length (contents q)) u.txfifo ≡ short
        → tx_callback true u q
          ≡ some (
            if short
                then clear_ier (sending u (take u.txfifo (contents q))) ier_ethrei
                else set_ier (sending u (take u.txfifo (contents q))) ier_ethrei,
            q',
          )
        → Called u (tx_callback true u q)
    by_rest q' v' held true short e =
        let less = ltb→lt _ _ short in
        (
          _,
          q',
          e,
          v',
          inl (contents_nil-empty v' (held ∙ drop_all u.txfifo (contents q) (omega arith))),
          refl,
        )
    by_rest q' v' held false short e = (_, q', e, v', inr (set_ethrei-on u.ier), refl)

-- What an interrupt leaves.
abbrev Handled : {A : Type 0} → Option (Uart × A) → Type 0
Handled {A} o = (u' : Uart) × (s : A) × (o ≡ some (u', s)) × IsServed u'

notified-IsValid :
    (produce : Queue → Queue) {q : Queue}
    → IsValid q
    → IsValid (produce q)
    → (callback : Option ℕ) → IsValid (elim callback [ none ↦ q | some f ↦ produce q ])
notified-IsValid produce v w none = v
notified-IsValid produce v w (some f) = w

asked-IsServed :
    (u : Uart) (q : Queue)
    → IsValid q
    → ValidQueue u.rx
    → (more : Bool) → not (empty q) ≡ more
    → IsServed (record (if more then set_ier u ier_ethrei else u) { tx = some q })
asked-IsServed u q v w true e = record {
  enabled = inr (set_ethrei-on u.ier);
  tx_queue = v;
  rx_queue = w;
}
asked-IsServed u q v w false e = record { enabled = inl e; tx_queue = v; rx_queue = w }

transmit_from-Handled :
    (held : Option Queue) (ready : Bool) (produce : Queue → Queue) (u : Uart)
    → IsServed u
    → ValidQueue held
    → ((q : Queue) → IsValid q → IsValid (produce q))
    → Handled (transmit_from held ready produce u)
unfolding transmit_from
transmit_from-Handled none ready produce u s v sound = (u, false, refl, s)
transmit_from-Handled (some q) ready produce u s v sound =
    let (u', q', e, v', on, rx) = tx_callback-Called ready u q v in
    let v'' : IsValid (notified produce q') =
      notified-IsValid produce v' (sound q' v') (notify_producer q') in
    (
      _,
      true,
      ap (λ r. r >>= told) e,
      asked-IsServed u' (notified produce q') v'' (subst ValidQueue (sym rx) s.rx_queue) _ refl,
    )
  where
    told : Uart × Queue → Option (Uart × Bool)
    told r =
        let q'' = notified produce r.1 in
        some
          (record (if not (empty q'') then set_ier r.0 ier_ethrei else r.0) { tx = some q'' }, true)

-- What the receiver counts is no concern of the transmitter.
counted-IsServed :
    (u : Uart) (rx_counter err_counter : ℕ)
    → IsServed u
    → IsServed (record u { rx_counter = rx_counter; err_counter = err_counter })
counted-IsServed u r c s = record {
  enabled = s.enabled;
  tx_queue = s.tx_queue;
  rx_queue = s.rx_queue;
}

receive_from-Handled :
    (held : Option Queue) (received : List ℕ) (u : Uart)
    → IsServed u
    → ValidQueue held
    → Handled (receive_from held received u)
unfolding receive_from
receive_from-Handled none received u s v = (_, false, refl, counted-IsServed u _ _ s)
receive_from-Handled (some q) received u s v =
    let (q', e, v', all, size) = receive_loop_lem received u q false v in
    (
      _,
      _,
      ap (λ r. r >>= kept) e,
      record { enabled = s.enabled; tx_queue = s.tx_queue; rx_queue = v' },
    )
  where
    kept : Uart × (Queue × Bool) → Option (Uart × Bool)
    kept r = some (record r.0 { rx = some r.1.0 }, r.1.1)

count_if-IsServed : (b : Bool) (u : Uart) → IsServed u → IsServed (count_if b u)
count_if-IsServed true u s = counted-IsServed u u.rx_counter (u.err_counter + 1) s
count_if-IsServed false u s = s

line_status-IsServed : (lsr : ℕ) (u : Uart) → IsServed u → IsServed (line_status lsr u)
unfolding line_status
line_status-IsServed lsr u s = count_if-IsServed _ _ (count_if-IsServed _ u s)

if-Handled :
    {A : Type 0} {x y : Option (Uart × A)} (b : Bool)
    → Handled x
    → Handled y
    → Handled (if b then x else y)
if-Handled true x y = x
if-Handled false x y = y

isr-Handled :
    (iir lsr : ℕ) (ready : Bool) (produce : Queue → Queue) (received : List ℕ) (u : Uart)
    → IsServed u
    → ((q : Queue) → IsValid q → IsValid (produce q))
    → Handled (isr iir lsr ready produce received u)
unfolding isr receive transmit
isr-Handled iir lsr ready produce received u s sound =
    if-Handled (not (bit_and iir 0x01 == 0)) (u, _, refl, s)
      (if-Handled (iid iir == 0x06) (_, _, refl, line_status-IsServed lsr u s)
        (if-Handled (iid iir == 0x04 || iid iir == 0x0c)
          (let (u', b, e, t) = receive_from-Handled u.rx received u s s.rx_queue in
            (u', _, ap (λ r. r >>= (λ x. some (x.0, received_by x.1))) e, t))
          (if-Handled (iid iir == 0x02)
            (let (u', b, e, t) = transmit_from-Handled u.tx ready produce u s s.tx_queue sound in
              (u', _, ap (λ r. r >>= (λ x. some (x.0, sent_by x.1))) e, t))
            (u, _, refl, s))))
  where
    received_by : Bool → Served
    received_by b = record { own = true; rx_notify = b; tx_notify = false }

    sent_by : Bool → Served
    sent_by b = record { own = true; rx_notify = false; tx_notify = b }

put_byte-IsServed :
    (held : Option Queue) (c : ℕ) (ready : Bool) (u : Uart)
    → IsServed u
    → ValidQueue held
    → (u' : Uart) × (put_byte held c ready u ≡ some u') × IsServed u'
unfolding put_byte
put_byte-IsServed none c ready u s v = (u, refl, s)
put_byte-IsServed (some q) c ready u s v =
    let (q', e, v', all, size) = writechar_refines c v in
    let (u', q'', e', v'', on, rx) = tx_callback-Called ready u q' v' in
    (
      _,
      ap (λ r. r >>= called) e ∙ ap (λ r. r >>= kept) e',
      record { enabled = on; tx_queue = v''; rx_queue = subst ValidQueue (sym rx) s.rx_queue },
    )
  where
    kept : Uart × Queue → Option Uart
    kept r = some (record r.0 { tx = some r.1 })

    called : Result (Unit {0}) × Queue → Option Uart
    called r = tx_callback ready u r.1 >>= kept

changed :
    {q : Queue} {consumer data_avail : ℕ}
    → IsValid q
    → IsValid (record q { consumer = consumer; data_avail = data_avail })
changed v = record {
  order = v.order;
  small = v.small;
  storage = v.storage;
  head_in = v.head_in;
  tail_in = v.tail_in;
}

attach_tx-IsServed :
    (self callback : ℕ) (u : Uart) (q : Queue) (more : Bool)
    → not (empty q) ≡ more
    → IsValid q
    → ValidQueue u.rx
    → IsServed (
        let u' = record u { tx = some (record q { consumer = self; data_avail = callback }) } in
        if more then set_ier u' ier_ethrei else u')
unfolding empty
attach_tx-IsServed self callback u q true e v w = record {
  enabled = inr (set_ethrei-on u.ier);
  tx_queue = changed v;
  rx_queue = w;
}
attach_tx-IsServed self callback u q false e v w = record {
  enabled = inl e;
  tx_queue = changed v;
  rx_queue = w;
}

change_tx-IsServed :
    (self callback : ℕ) (u : Uart) (wanted held : Option Queue)
    → IsServed u
    → ValidQueue wanted
    → IsServed (change_tx self callback u wanted held).1.0
unfolding change_tx attach_tx
change_tx-IsServed self callback u (some q) (some old) s v = s
change_tx-IsServed self callback u (some q) none s v =
    attach_tx-IsServed self callback u q _ refl v s.rx_queue
change_tx-IsServed self callback u none (some old) s v = record {
  enabled = inl refl;
  tx_queue = tt;
  rx_queue = s.rx_queue;
}
change_tx-IsServed self callback u none none s v = s

set_tx_queue-IsServed :
    (self callback : ℕ) (u : Uart) (wanted : Option Queue) (has_irq : Bool)
    → IsServed u
    → ValidQueue wanted
    → IsServed
        (if not has_irq
          then (err invalid, (u, none))
          else change_tx self callback u wanted u.tx).1.0
set_tx_queue-IsServed self callback u wanted true s v =
    change_tx-IsServed self callback u wanted u.tx s v
set_tx_queue-IsServed self callback u wanted false s v = s

-- The other bit of IER.
still_enabled :
    (x y : ℕ) {b : Bool}
    → bit_and y 2 ≡ bit_and x 2
    → (b ≡ false) ⊎ EthreiOn x
    → (b ≡ false) ⊎ EthreiOn y
still_enabled x y e (inl h) = inl h
still_enabled x y e (inr h) = inr (e ∙ h)

change_rx-IsServed :
    (u : Uart) (wanted held : Option Queue)
    → IsServed u
    → ValidQueue wanted
    → IsServed (change_rx u wanted held).1
unfolding change_rx
change_rx-IsServed u (some q) (some old) s v = s
change_rx-IsServed u (some q) none s v = record {
  enabled = still_enabled _ _ (set_erdai-same u.ier) s.enabled;
  tx_queue = s.tx_queue;
  rx_queue = v;
}
change_rx-IsServed u none held s v = record {
  enabled = still_enabled _ _ (clear_erdai-same u.ier) s.enabled;
  tx_queue = s.tx_queue;
  rx_queue = tt;
}

set_rx_queue-IsServed :
    (u : Uart) (wanted : Option Queue) (has_irq : Bool)
    → IsServed u
    → ValidQueue wanted
    → IsServed (if not has_irq then (err invalid, u) else change_rx u wanted u.rx).1
set_rx_queue-IsServed u wanted true s v = change_rx-IsServed u wanted u.rx s v
set_rx_queue-IsServed u wanted false s v = s

module _ (self callback : ℕ) (produce : Queue → Queue)
    (sound : (q : Queue) → IsValid q → IsValid (produce q)) where
  step-IsServed :
      (e : Event) (u : Uart)
      → IsServed u
      → Proper e
      → (u' : Uart) × (step self callback produce e u ≡ some u') × IsServed u'
  unfolding step set_tx_queue set_rx_queue
  step-IsServed (interrupt iir lsr ready received) u s p =
      let (u', r, e, s') = isr-Handled iir lsr ready produce received u s sound in
      (u', ap (λ o. o >>= (λ x. some x.0)) e, s')
  step-IsServed (put c ready) u s p = put_byte-IsServed u.tx c ready u s s.tx_queue
  step-IsServed (set_tx wanted) u s p =
      (_, refl, set_tx_queue-IsServed self callback u wanted u.has_irq s p)
  step-IsServed (set_rx wanted) u s p = (_, refl, set_rx_queue-IsServed u wanted u.has_irq s p)

  -- From a state in which no byte waits without the transmit interrupt, and the queues are well formed, every
  -- course of interrupts, of bytes put into the transmit queue and of calls that set well-formed queues runs to
  -- its end, and the state after it is of that kind again. The producer's callback keeps its queue well formed.
  pub run-IsServed :
      (events : List Event) (u : Uart)
      → IsServed u
      → AllProper events
      → (u' : Uart) × (run self callback produce events u ≡ some u') × IsServed u'
  unfolding run
  run-IsServed [] u s p = (u, refl, s)
  run-IsServed (e ∷ events) u s (p, ps) =
      let (u1, e1, s1) = step-IsServed e u s p in
      let (u2, e2, s2) = run-IsServed events u1 s1 ps in
      (u2, ap (λ o. o >>= run self callback produce events) e1 ∙ e2, s2)
