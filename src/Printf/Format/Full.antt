-- ===== src/Printf/Format/Full.antt =====
-- The fuel of the loop of `vsnprintf`, and a buffer of no size.
use libos.Prelude.{
  ℕ, zero, suc, ◌≤◌, ◌≡◌, ◌≢◌, inl, inr, refl, sym, subst, ◌∙◌, arith, Bool, Bool-cases, some, none,
  List, [], ◌∷◌, ltb, ◌==◌, ==_ne, length, store, splice,
}
use libos.Prelude.Words.{sub64}
use libos.Printf.Format.{Arg, put_char, Parse}
use libos.Printf.Format.Machine.{
  Sink, perform_all, format_loop, format_step, plain_character, start, printf_char, perform, buffer,
  vsnprintf,
}
use libos.Printf.Format.Rest.{Leaves, format_step-Leaves}
use libos.Printf.Format.Refine.{Option-cases}

format_loop-nil :
    {O : Type 0} (sink : Sink O) (fuel : ℕ) (out : O) (p : Parse)
    → format_loop sink fuel out p [] ≡ none
unfolding format_loop
format_loop-nil sink zero out p = refl
format_loop-nil sink (suc fuel) out p = refl

-- Any two amounts of fuel that are enough for the format give the same.
enough_lem :
    {O : Type 0} (sink : Sink O) (fuel fuel' : ℕ) (out : O) (p : Parse) (str : List ℕ)
    → length str ≤ fuel
    → length str ≤ fuel'
    → format_loop sink fuel out p str ≡ format_loop sink fuel' out p str
unfolding format_loop
enough_lem sink fuel fuel' out p [] h k =
    format_loop-nil sink fuel out p ∙ sym (format_loop-nil sink fuel' out p)
enough_lem sink zero fuel' out p (c ∷ rest) h k = absurd (omega arith)
enough_lem sink (suc fuel) zero out p (c ∷ rest) h k = absurd (omega arith)
enough_lem sink (suc fuel) (suc fuel') out p (c ∷ rest) h k = elim (Bool-cases (c == 0)) [
  | inl nul ↦ rw (nul, format_loop) refl
  | inr more ↦ elim (Option-cases (format_step (sink.room out) (sink.count out) p c rest)) [
    | inl e ↦ rw (more, e, format_loop) refl
    | inr (next, e) ↦
        let less : length next.1.1 ≤ length rest =
          subst (Leaves (length rest)) e
            (format_step-Leaves (sink.room out) (sink.count out) p c rest) in
        elim (Option-cases (perform_all sink out next.0)) [
          | inl f ↦ rw (more, e, f, format_loop) refl
          | inr (u, f) ↦
              rw (more, e, f, format_loop)
                (enough_lem sink fuel fuel' u next.1.0 next.1.1 (omega arith) (omega arith))
        ]
  ]
]

-- The loop ends by itself: each round takes a character of the format, so that more rounds than its
-- object has bytes change nothing, wherever the output goes.
pub format_loop-enough :
    {O : Type 0} (sink : Sink O) (fuel : ℕ) (out : O) (p : Parse) (str : List ℕ)
    → length str ≤ fuel
    → format_loop sink fuel out p str ≡ format_loop sink (length str) out p str
format_loop-enough sink fuel out p str h =
    enough_lem sink fuel (length str) out p str h (omega arith)

plain_step :
    (room : Bool) (opos c : ℕ) (rest : List ℕ) (args : List Arg)
    → c ≢ b'%'
    → format_step room opos (start args) c rest ≡ some (put_char c ∷ [], (start args, rest))
unfolding format_step plain_character
plain_step room opos c rest args plain = rw (==_ne c b'%' plain) refl

no_bytes :
    (c : ℕ)
    → perform_all (buffer (sub64 0 1)) (record { buf = []; opos = 0 }) (put_char c ∷ []) ≡ none
unfolding perform_all perform printf_char store splice
no_bytes c = refl

-- With size 0, `size - 1` wraps around and there is room for every character: the first one is written to
-- a buffer of no bytes.
pub vsnprintf-zero :
    (c : ℕ) (rest : List ℕ) (args : List Arg)
    → c ≢ 0
    → c ≢ b'%'
    → vsnprintf [] 0 (c ∷ rest) args ≡ none
unfolding vsnprintf format_loop
vsnprintf-zero c rest args set plain =
    let step = plain_step (ltb 0 (sub64 0 1)) 0 c rest args plain in
    let failed : format_loop (buffer (sub64 0 1)) (suc (length rest))
          (record { buf = []; opos = 0 }) (start args) (c ∷ rest)
        ≡ none =
      rw (==_ne c 0 set, step, no_bytes c, format_loop) refl in
    rw failed refl
