-- ===== src/Printf/Format/Refine.antt =====
-- `vsnprintf` against the stream of characters that the format describes.
use libos.Prelude.{
  ℕ, zero, suc, ◌+◌, ◌-◌, ◌^◌, ◌<◌, ◌≤◌, ◌≡◌, ◌⊎◌, inl, inr, refl, ap, sym, ◌∙◌, arith, Bool, true,
  Bool-cases, Option, some, none, List, [], ◌∷◌, ◌++◌, ltb, leb, lt→ltb, ◌==◌, ◌&&◌, if◌then◌else◌,
  length, take, replicate, store, patch, splice, splice_lem, patch-patch, patch-nil, length-patch,
  length-take,
}
use libos.Prelude.Words.{u32, sub64, sub64-le}
use libos.Strings.Measure.{c_string}
use libos.Printf.Output.{Output, olen, printf_fill}
use libos.Printf.Output.Laws.{shown, take-all, printf_string_lem, printf_fill_lem}
use libos.Printf.Numbers.Rendered.{rendered, printf_num-rendered}
use libos.Printf.Format.{Arg, Action, put_char, put_fill, put_string, put_num, Parse}
use libos.Printf.Format.Machine.{
  Sink, perform_all, format_loop, format_step, start, printf_char, perform, buffer, terminate,
  vsnprintf,
}

-- The characters that a call adds.
abbrev pub text_of : Action → List ℕ
text_of (put_char c) = c ∷ []
text_of (put_fill c len) = replicate len c
text_of (put_string s len) = take len s
text_of (put_num value radix fieldwidth precision flags) =
    rendered value radix fieldwidth precision flags

-- Positions stay below 2 ^ 64, and a string has the characters that are read.
abbrev pub fits : List ℕ → Action → Bool
fits t (put_char c) = ltb (length t + 1) (2 ^ 64)
fits t (put_fill c len) = ltb (length t + len) (2 ^ 64)
fits t (put_string s len) = ltb (length t + len) (2 ^ 64) && leb len (length s)
fits t (put_num value radix fieldwidth precision flags) =
    ltb (length t) (2 ^ 63)
    && (leb 2 radix && (ltb fieldwidth (2 ^ 31) && ltb (precision + 3) (2 ^ 31)))

unfoldable pub append : List ℕ → Action → Option (List ℕ)
append t a = if fits t a then some (t ++ text_of a) else none

-- The stream, which has no bound; `limit` only says when `%c` reads its argument.
abbrev pub stream : ℕ → Sink (List ℕ)
stream limit = record { room = λ t. ltb (length t) limit; count = λ t. length t; perform = append }

unfoldable pub described : ℕ → List ℕ → List Arg → Option (List ℕ × Parse)
described limit str args = format_loop (stream limit) (length str) [] (start args) str

-- One character is a fill of length one.
printf_char_fill :
    (out : Output) (limit c : ℕ)
    → limit < 2 ^ 64
    → printf_char out limit c ≡ printf_fill out limit c 1
unfolding printf_char printf_fill splice store
printf_char_fill out limit c word = elim (Bool-cases (ltb out.opos limit)) [
  | inr full ↦ rw full refl
  | inl room ↦ let one : olen out.opos limit 1 ≡ 1 = ground arith in rw (room, one) refl
]

perform-fits :
    (buf : List ℕ) (limit : ℕ) (t : List ℕ) (a : Action)
    → limit ≤ length buf
    → limit < 2 ^ 64
    → fits t a ≡ true
    → perform limit (shown buf limit t) a ≡ some (shown buf limit (t ++ text_of a))
unfolding perform
perform-fits buf limit t (put_char c) room word h =
    printf_char_fill (shown buf limit t) limit c word
    ∙ printf_fill_lem buf limit t c 1 room (ground arith)
perform-fits buf limit t (put_fill c len) room word h =
    printf_fill_lem buf limit t c len room (ground arith)
perform-fits buf limit t (put_string s len) room word h =
    printf_string_lem buf limit t s len room (ground arith) (ground arith)
perform-fits buf limit t (put_num value radix fieldwidth precision flags) room word h =
    printf_num-rendered buf limit t value radix fieldwidth precision flags room (ground arith)
      (ground arith) (ground arith) (ground arith)

pub none_some : {A : Type 0} {x : A} {B : Type 0} → none ≡ some x → B
none_some {A} {x} e = absurd (clash e)
  where
    clash : none ≡ some x → ⊥
    clash e = cc

perform-append :
    (buf : List ℕ) (limit : ℕ) (t t' : List ℕ) (a : Action)
    → limit ≤ length buf
    → limit < 2 ^ 64
    → append t a ≡ some t'
    → perform limit (shown buf limit t) a ≡ some (shown buf limit t')
unfolding append
perform-append buf limit t t' a room word h = elim (Bool-cases (fits t a)) [
  | inr bad ↦ let e : append t a ≡ none = rw bad refl in none_some (sym e ∙ h)
  | inl good ↦
      let e : append t a ≡ some (t ++ text_of a) = rw good refl in
      perform-fits buf limit t a room word good
      ∙ ap (λ u. some (shown buf limit u)) (same (sym e ∙ h))
]
  where
    same : some (t ++ text_of a) ≡ some t' → t ++ text_of a ≡ t'
    same e = cc

pub Option-cases : {A : Type 0} (o : Option A) → (o ≡ none) ⊎ ((x : A) × (o ≡ some x))
Option-cases none = inl refl
Option-cases (some x) = inr (x, refl)

perform_all-append :
    (buf : List ℕ) (limit : ℕ) (t t' : List ℕ) (acts : List Action)
    → limit ≤ length buf
    → limit < 2 ^ 64
    → perform_all (stream limit) t acts ≡ some t'
    → perform_all (buffer limit) (shown buf limit t) acts ≡ some (shown buf limit t')
unfolding perform_all
perform_all-append buf limit t t' [] room word h =
    ap (λ o. elim o as (λ _. Option Output) [ none ↦ none | some u ↦ some (shown buf limit u) ]) h
perform_all-append buf limit t t' (a ∷ acts) room word h = elim (Option-cases (append t a)) [
  | inl e ↦ none_some (sym (rw (e, perform_all) refl) ∙ h)
  | inr (u, e) ↦
      let h' : perform_all (stream limit) u acts ≡ some t' = sym (rw (e, perform_all) refl) ∙ h in
      rw (perform-append buf limit t u a room word e, perform_all)
        (perform_all-append buf limit u t' acts room word h')
]

-- The position that the buffer counts is the length of the stream, so that both take the same steps.
format_loop-append :
    (buf : List ℕ) (limit fuel : ℕ) (t t' : List ℕ) (p p' : Parse) (str : List ℕ)
    → limit ≤ length buf
    → limit < 2 ^ 64
    → format_loop (stream limit) fuel t p str ≡ some (t', p')
    → format_loop (buffer limit) fuel (shown buf limit t) p str ≡ some (shown buf limit t', p')
unfolding format_loop
format_loop-append buf limit zero t t' p p' str room word h = none_some h
format_loop-append buf limit (suc fuel) t t' p p' [] room word h = none_some h
format_loop-append buf limit (suc fuel) t t' p p' (c ∷ rest) room word h =
    elim (Bool-cases (c == 0)) [
      | inl nul ↦
          let h' : some (t, p) ≡ some (t', p') = sym (rw (nul, format_loop) refl) ∙ h in
          rw (nul, format_loop)
            (ap
              (λ o. elim o as (λ _. Option (Output × Parse)) [
                | none ↦ none
                | some u ↦ some (shown buf limit u.0, u.1)
              ])
              h')
      | inr more ↦ elim (Option-cases (format_step (ltb (length t) limit) (length t) p c rest)) [
        | inl e ↦ none_some (sym (rw (more, e, format_loop) refl) ∙ h)
        | inr (next, e) ↦ elim (Option-cases (perform_all (stream limit) t next.0)) [
          | inl f ↦ none_some (sym (rw (more, e, f, format_loop) refl) ∙ h)
          | inr (u, f) ↦
              let h' : format_loop (stream limit) fuel u next.1.0 next.1.1 ≡ some (t', p') =
                sym (rw (more, e, f, format_loop) refl) ∙ h in
              rw (more, e, perform_all-append buf limit t u next.0 room word f, format_loop)
                (format_loop-append buf limit fuel u t' next.1.0 p' next.1.1 room word h')
        ]
      ]
    ]

terminate-shown :
    (buf : List ℕ) (size : ℕ) (t : List ℕ)
    → 0 < size
    → size ≤ length buf
    → terminate size (shown buf (size - 1) t) ≡ some (patch buf 0 (c_string (take (size - 1) t) []))
unfolding terminate store
terminate-shown buf size t some_room room = elim (Bool-cases (ltb (length t) size)) [
  | inl below ↦
      let whole : take (size - 1) t ≡ t = take-all (size - 1) t (ground arith) in
      rw (below, whole) (at_end t (ground arith))
  | inr full ↦
      let cut : length (take (size - 1) t) ≡ size - 1 = ground (arith, length-take (size - 1) t) in
      rw (full, lt→ltb 0 size some_room)
        (ap (λ k. splice (patch buf 0 (take (size - 1) t)) k (0 ∷ [])) (sym cut)
          ∙ at_end (take (size - 1) t) (omega arith))
]
  where
    at_end :
        (s : List ℕ)
        → length s < length buf
        → splice (patch buf 0 s) (length s) (0 ∷ []) ≡ some (patch buf 0 (s ++ (0 ∷ [])))
    at_end s h =
        let same = length-patch buf 0 s (omega arith) in
        splice_lem (patch buf 0 s) (length s) (0 ∷ []) (omega arith)
        ∙ ap (λ k. some (patch (patch buf 0 s) k (0 ∷ []))) {x = length s} {y = 0 + length s}
            (omega arith)
        ∙ ap some (patch-patch buf 0 s (0 ∷ []) (omega arith))

-- Where the format describes a stream of characters, `vsnprintf` writes the first `size - 1` of them and a
-- NUL, nothing else of the buffer, and returns the length of the whole stream as an `int`. The stream
-- depends on the size in one way: a `%c` reads its argument only if its character has room.
pub vsnprintf-described :
    (buf : List ℕ) (size : ℕ) (str : List ℕ) (args : List Arg) (t : List ℕ) (p : Parse)
    → 0 < size
    → size ≤ length buf
    → size < 2 ^ 64
    → described (size - 1) str args ≡ some (t, p)
    → vsnprintf buf size str args
      ≡ some (u32 (length t), (patch buf 0 (c_string (take (size - 1) t) []), p.stores))
unfolding vsnprintf described
vsnprintf-described buf size str args t p some_room room word h =
    let limit : sub64 size 1 ≡ size - 1 = sub64-le size 1 (omega arith) word in
    let run =
      format_loop-append buf (size - 1) (length str) [] t (start args) p str (omega arith)
        (omega arith) h in
    let begun : patch buf 0 (take (size - 1) []) ≡ buf =
      ap (patch buf 0) (take-all (size - 1) [] (omega arith)) ∙ patch-nil buf in
    let from_buf =
      ap
        (λ b.
          format_loop (buffer (size - 1)) (length str) (record { buf = b; opos = 0 }) (start args)
            str)
        (sym begun)
      ∙ run in
    rw (limit, from_buf, terminate-shown buf size t some_room room) refl
