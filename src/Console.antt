-- ===== src/Console.antt =====
-- lib/console.c with queues, before a line editor takes over the console. The device is any type with its
-- blocking `tx`, the consumer of `qconsole` is the function `notify`; locks are left out.
pub mod Push
pub mod Write
pub mod Crash
pub mod Past
mod Tests
use libos.Prelude.{
  ℕ, ◌+◌, ◌-◌, ◌/◌, Bool, true, false, Option, some, none, List, [], ◌∷◌, ltb, not, ◌==◌, ◌&&◌,
  ◌||◌, if◌then◌else◌, ◌>>=◌,
}
use libos.Queue.{Queue, writechar, get_space}
use libos.Queue.Transfer.{to_queue, to_chardev}

-- The callback that `consolebuf` has.
pub data Callback : Type 0 where
  no_callback : Callback
  cd_callback : Callback
  queue_callback : Callback

-- The variables of the file, and those of the core that it uses.
pub record Console (D : Type 0) : Type 0 where
  pub consolebuf : Queue
  pub data_avail : Callback
  pub qconsole : Option Queue
  pub console : Option D
  pub console_ok : Bool
  pub crashing : ℕ

abbrev pub crash_in_print : ℕ
crash_in_print = 10000

module _ {D : Type 0} (tx : D → List ℕ → D) (notify : Queue → Bool → Queue) where
  -- `none` is a null pointer that is used.
  unfoldable pub drain_to_device : Option D → Console D → Option (Console D)
  drain_to_device none s = none
  drain_to_device (some d) s = do
    (n, d', buf) ← to_chardev tx d s.consolebuf s.consolebuf.size false
    some (record s { consolebuf = buf; console = some d' })

  unfoldable pub drain_to_queue : Option Queue → Bool → Console D → Option (Console D)
  drain_to_queue none blocking s = none
  drain_to_queue (some q) blocking s = do
    (n, q', buf) ← to_queue q s.consolebuf s.consolebuf.size false
    some (record s { consolebuf = buf; qconsole = some (notify q' blocking) })

  -- `drain_consolebuf_cd` and `drain_consolebuf_queue`.
  unfoldable pub drain_cd : Console D → Option (Console D)
  drain_cd s = if s.console_ok then drain_to_device s.console s else some s

  unfoldable pub drain_queue : Bool → Console D → Option (Console D)
  drain_queue blocking s = if s.console_ok then drain_to_queue s.qconsole blocking s else some s

  abbrev pub is_some : {A : Type 0} → Option A → Bool
  is_some none = false
  is_some (some a) = true

  unfoldable pub drain_consolebuf : Console D → Option (Console D)
  drain_consolebuf s =
      if is_some s.console && s.console_ok
      then drain_cd s
      else if is_some s.qconsole
      then drain_queue true s
      else some s

  -- `queue_notify_consumer` of `consolebuf`.
  unfoldable pub call_back : Callback → Bool → Console D → Option (Console D)
  call_back no_callback blocking s = some s
  call_back cd_callback blocking s = drain_cd s
  call_back queue_callback blocking s = drain_queue blocking s

  -- One character of `putchar_nolock`, to `consolebuf`, or with `direct` to `qconsole`.
  unfoldable pub to_buffer : Bool → Option Queue → ℕ → Console D → Option (Console D)
  to_buffer false q ch s = do
    (r, buf) ← writechar s.consolebuf ch
    some (record s { consolebuf = buf })
  to_buffer true none ch s = none
  to_buffer true (some q) ch s = do (r, q') ← writechar q ch; some (record s { qconsole = some q' })

  unfoldable pub to_device : Option D → ℕ → Console D → Console D
  to_device none ch s = s
  to_device (some d) ch s = record s { console = some (tx d (ch ∷ [])) }

  unfoldable pub put_one : Bool → ℕ → Console D → Option (Console D)
  put_one direct ch s =
      if not (not (s.crashing == 0) && (is_some s.console && s.console_ok))
      then to_buffer direct s.qconsole ch s
      else some (to_device s.console ch s)

  unfoldable pub putchar_nolock : Bool → ℕ → Console D → Option (Console D)
  putchar_nolock direct c s = do
    s' ← if c == 10 then put_one direct 13 s else some s
    put_one direct c s'

  -- The loop of `console_write_nolock` over the object that `s` points into.
  unfoldable pub write_loop : Bool → List ℕ → ℕ → Console D → Option (Console D)
  write_loop direct [] len s = none
  write_loop direct (c ∷ text) len s =
      if c == 0 || len == 0
      then some s
      else (do s' ← putchar_nolock direct c s; write_loop direct text (len - 1) s')

  -- `queue_notify_consumer(q, ...)`.
  unfoldable pub notify_q : Bool → Option Queue → Bool → Console D → Option (Console D)
  notify_q false held blocking s = call_back s.data_avail blocking s
  notify_q true none blocking s = none
  notify_q true (some q) blocking s = some (record s { qconsole = some (notify q blocking) })

  unfoldable pub write_direct : Bool → List ℕ → ℕ → Console D → Option (Console D)
  write_direct direct text len s = do
    s1 ← if direct then notify_q true s.qconsole true s else some s
    s2 ← write_loop direct text len s1
    s3 ← notify_q direct s2.qconsole (not (s2.crashing == 0)) s2
    if not direct && ltb (get_space s3.consolebuf) (s3.consolebuf.size / 2)
        then drain_consolebuf s3
        else some s3

  unfoldable pub console_write_nolock : List ℕ → ℕ → Console D → Option (Console D)
  console_write_nolock text len s =
      write_direct (not (s.crashing == 0) && is_some s.qconsole) text len s

  unfoldable pub console_write : List ℕ → ℕ → Console D → Option (Console D)
  console_write text len s =
      if s.crashing == 0
      then console_write_nolock text len s
      else if ltb crash_in_print s.crashing
      then some s
      else (do
        s' ← console_write_nolock text len (record s { crashing = s.crashing + crash_in_print })
        some (record s' { crashing = s'.crashing - crash_in_print }))

-- `console_init` and `qconsole_init`; `none` is the failed assertion.
unfoldable pub console_init : {D : Type 0} → D → Console D → Option (Console D)
console_init cd s = elim s.data_avail [
  | no_callback ↦ some (record s { data_avail = cd_callback; console = some cd })
  | _ ↦ none
]

unfoldable pub qconsole_init : {D : Type 0} → Queue → Console D → Option (Console D)
qconsole_init q s = elim s.data_avail [
  | no_callback ↦ some (record s { data_avail = queue_callback; qconsole = some q })
  | _ ↦ none
]
