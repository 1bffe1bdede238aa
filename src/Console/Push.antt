-- ===== src/Console/Push.antt =====
-- What is left in a queue of the bytes that are put into it one by one.
use libos.Prelude.{
  ℕ, zero, suc, ◌-◌, ◌≡◌, inl, inr, refl, ap, ap₂, sym, ◌∙◌, arith, Bool-cases, some, List, [], ◌∷◌,
  ◌++◌, append-nil, append_assoc, length-append, ltb, ltb→lt, length, take, take_all,
}
use libos.Errors.{Result}
use libos.Queue.{Queue, writechar}
use libos.Queue.Facts.{IsValid}
use libos.Queue.View.{contents}
use libos.Queue.Chars.{writechar_refines}
use libos.Queue.Fifo

abbrev pub room_for : Queue → ℕ
room_for q = q.size - 1 - length (contents q)

-- That `xs` were put into `q`, as far as there was room.
pub record Pushed (q : Queue) (xs : List ℕ) (q' : Queue) : Type 0 where
  pub valid : IsValid q'
  pub held : contents q' ≡ contents q ++ take (room_for q) xs
  pub same_size : q'.size ≡ q.size

take-append :
    (n : ℕ) (xs ys : List ℕ) → take n (xs ++ ys) ≡ take n xs ++ take (n - length (take n xs)) ys
take-append zero xs ys = refl
take-append (suc n) [] ys = ap (λ k. take k ys) {x = suc n} {y = suc n - 0} (omega arith)
take-append (suc n) (x ∷ xs) ys =
    ap (λ l. x ∷ l)
      (take-append n xs ys
        ∙ ap (λ k. take n xs ++ take k ys) {x = n - length (take n xs)}
            {y = suc n - suc (length (take n xs))} (omega arith))

pub Pushed-append :
    {q q1 q2 : Queue} (xs ys : List ℕ) → Pushed q xs q1 → Pushed q1 ys q2 → Pushed q (xs ++ ys) q2
Pushed-append {q} {q1} xs ys a b =
    let left : room_for q1 ≡ room_for q - length (take (room_for q) xs) =
      ap₂ (λ (t : ℕ) (l : List ℕ). t - 1 - length l) a.same_size a.held
      ∙ omega (arith, length-append (contents q) (take (room_for q) xs)) in
    record {
      valid = b.valid;
      held =
          b.held
          ∙ ap₂ (λ (l : List ℕ) (n : ℕ). l ++ take n ys) a.held left
          ∙ append_assoc (contents q) (take (room_for q) xs)
              (take (room_for q - length (take (room_for q) xs)) ys)
          ∙ ap (λ l. contents q ++ l) (sym (take-append (room_for q) xs ys));
      same_size = b.same_size ∙ a.same_size;
    }

put_char-take :
    (cap : ℕ) (xs : List ℕ) (c : ℕ)
    → (Fifo.put_char cap xs c).1 ≡ xs ++ take (cap - length xs) (c ∷ [])
unfolding Fifo.put_char
put_char-take cap xs c = elim (Bool-cases (ltb (length xs) cap)) [
  | inl e ↦
      rw e (
        ap (λ l. xs ++ l) (sym (take_all (cap - length xs) (c ∷ []) (omega (arith, ltb→lt _ _ e)))))
  | inr e ↦ rw e (sym (append-nil xs) ∙ ap (λ n. xs ++ take n (c ∷ [])) {x = 0} (ground arith))
]

pub writechar-Pushed :
    {q : Queue} (c : ℕ)
    → IsValid q
    → (r : Result (Unit {0})) × (q' : Queue) × (writechar q c ≡ some (r, q')) × Pushed q (c ∷ []) q'
writechar-Pushed {q} c v =
    let (q', e, v', held, size) = writechar_refines c v in
    (
      _,
      q',
      e,
      record {
        valid = v';
        held = held ∙ put_char-take (q.size - 1) (contents q) c;
        same_size = size;
      },
    )
