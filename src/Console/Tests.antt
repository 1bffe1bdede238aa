-- ===== src/Console/Tests.antt =====
-- Runs of the console.
use libos.Prelude.{
  ℕ, ◌≡◌, refl, arith, Bool, some, none, List, [], ◌∷◌, ◌++◌, append-nil, append_assoc,
}
use libos.Queue.{Queue}
use libos.Queue.Facts.{IsValid}
use libos.Queue.View.{contents}
use libos.Console.{console_write, console_write_nolock}
use libos.Console.Write.{working, shown, ends, crlf, console_write_nolock-transmitted}
use libos.Console.Past.{no_nul, console_write_past}
use libos.Console.Crash.{console_write-direct}

-- A buffer of four places, with one byte.
abbrev one_byte : Queue
one_byte = record {
  buf = 7 ∷ 0 ∷ 0 ∷ 0 ∷ [];
  head = 0;
  tail = 1;
  size = 4;
  data_avail = 0;
  consumer = 0;
  space_avail = 0;
  producer = 0;
}

one_byte-IsValid : IsValid one_byte
one_byte-IsValid = record {
  order = (2, refl);
  small = omega arith;
  storage = omega arith;
  head_in = omega arith;
  tail_in = omega arith;
}

-- A device that keeps what it gets.
abbrev printed : List ℕ → List ℕ → List ℕ
printed d xs = d ++ xs

abbrev no_notify : Queue → Bool → Queue
no_notify q blocking = q

-- The buffer has room for the carriage return and the newline only.
console_write_nolock-transmitted_example :
    (buf' : Queue) × (console_write_nolock printed no_notify
        (10 ∷ 65 ∷ 0 ∷ [])
        9
        (working 0 one_byte none [])
      ≡ some (working 0 buf' none (7 ∷ 13 ∷ 10 ∷ [])))
    × IsValid buf'
    × (contents buf' ≡ [])
unfolding shown ends crlf
console_write_nolock-transmitted_example =
    console_write_nolock-transmitted printed no_notify (10 ∷ 65 ∷ 0 ∷ []) 9 one_byte none []
      append-nil append_assoc one_byte-IsValid refl

console_write-direct_example :
    (buf' : Queue) × (console_write printed no_notify
        (10 ∷ 65 ∷ 0 ∷ [])
        9
        (working 1 one_byte none [])
      ≡ some (working 1 buf' none (13 ∷ 10 ∷ 65 ∷ 7 ∷ [])))
    × IsValid buf'
    × (contents buf' ≡ [])
unfolding shown ends crlf
console_write-direct_example =
    console_write-direct printed no_notify append-nil append_assoc (10 ∷ 65 ∷ 0 ∷ []) 9 1 one_byte
      [] (omega arith) (omega arith) one_byte-IsValid refl

console_write_past_example :
    console_write printed no_notify (65 ∷ []) 1 (working 0 one_byte none []) ≡ none
unfolding no_nul
console_write_past_example =
    console_write_past printed no_notify (65 ∷ []) (working 0 one_byte none []) refl refl
