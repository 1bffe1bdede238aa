-- ===== src/Console/Past.antt =====
-- The test that ends the loop of `console_write_nolock`.
use libos.Prelude.{
  ℕ, suc, ◌+◌, ◌-◌, ◌≡◌, refl, ap, sym, ◌∙◌, arith, Bool, true, false, not, ◌==◌, ==_ne, ◌&&◌, ◌||◌,
  Option, some, none, List, [], ◌∷◌, ltb, if◌then◌else◌, ◌>>=◌, length,
}
use libos.Queue.{Queue}
use libos.Console.{
  Console, crash_in_print, console_write, console_write_nolock, write_direct, write_loop,
  putchar_nolock,
}
use libos.Console.Write.{false_true}

-- No NUL among the characters.
unfoldable pub no_nul : List ℕ → Bool
no_nul [] = true
no_nul (c ∷ text) = not (c == 0) && no_nul text

bind-none :
    {A B : Type 0} (o : Option A) (f : A → Option B) → ((a : A) → f a ≡ none) → o >>= f ≡ none
bind-none none f h = refl
bind-none (some a) f h = h a

none-bind : {A B : Type 0} {o : Option A} (f : A → Option B) → o ≡ none → o >>= f ≡ none
none-bind f e = ap (λ o. o >>= f) e

module _ {D : Type 0} (tx : D → List ℕ → D) (notify : Queue → Bool → Queue) where
  write_loop_past :
      (direct : Bool) (text : List ℕ) (s : Console D)
      → no_nul text ≡ true
      → write_loop tx notify direct text (length text) s ≡ none
  unfolding write_loop no_nul
  write_loop_past direct [] s e = refl
  write_loop_past direct (c ∷ text) s e = by_nul (c == 0) e (λ s' t.
      ap (λ n. write_loop tx notify direct text n s') {x = suc (length text) - 1} {y = length text}
        (omega arith)
      ∙ write_loop_past direct text s' t)
    where
      by_nul :
          (nul : Bool)
          → (not nul && no_nul text) ≡ true
          → ((s' : Console D)
              → no_nul text ≡ true
              → write_loop tx notify direct text (suc (length text) - 1) s' ≡ none)
          → (if nul || suc (length text) == 0
              then some s
              else putchar_nolock tx notify direct c s
                >>= write_loop tx notify direct text (suc (length text) - 1))
            ≡ none
      by_nul true t next = false_true t
      by_nul false t next =
          rw (==_ne (suc (length text)) 0 (omega arith)) (bind-none _ _ (λ s'. next s' t))

  nolock_past :
      (text : List ℕ) (s : Console D)
      → no_nul text ≡ true
      → console_write_nolock tx notify text (length text) s ≡ none
  unfolding console_write_nolock write_direct
  nolock_past text s e = bind-none _ _ (λ s1. none-bind _ (write_loop_past _ text s1 e))

  -- The loop looks at a character before it looks at `len`: a string of `len` characters without a NUL, in an object
  -- of its own, is read beyond its end, whatever the state. In a crash that holds up to a count of 10000.
  pub console_write_past :
      (text : List ℕ) (s : Console D)
      → no_nul text ≡ true
      → ltb crash_in_print s.crashing ≡ false
      → console_write tx notify text (length text) s ≡ none
  unfolding console_write
  console_write_past text s e small =
      by_crash (s.crashing == 0) (ltb crash_in_print s.crashing) small
    where
      by_crash :
          (calm nested : Bool)
          → nested ≡ false
          → (if calm
              then console_write_nolock tx notify text (length text) s
              else if nested
              then some s
              else (do
                s' ←
                    console_write_nolock tx notify text
                      (length text)
                      (record s { crashing = s.crashing + crash_in_print })
                some (record s' { crashing = s'.crashing - crash_in_print })))
            ≡ none
      by_crash true nested h = nolock_past text s e
      by_crash false true h = false_true (sym h)
      by_crash false false h =
          none-bind _ (nolock_past text (record s { crashing = s.crashing + crash_in_print }) e)
