-- ===== src/Mpic/Nesting.antt =====
-- The nesting of masks in lib/interrupts.c, and the registration that goes past it.
use native.Mathlib.Decide.{ℕ_discrete}
use libos.Prelude.{
  ℕ, ◌+◌, ◌-◌, ◌^◌, ◌<◌, ◌≡◌, ◌≢◌, refl, sym, subst, ◌⊎◌, ◌∙◌, arith, true, false, ◌==◌, ==_ne,
  ==_iff, if◌then◌else◌, Bool-cases, inl, inr, some, none, ◌∷◌,
}
use libos.Errors.{ok}
use libos.Mpic.{
  Source, irq_mask, irq_unmask, irq_get_mask, irq_get_activity, irq_set_delivery_type,
  interrupt_reset, interrupt_mask, interrupt_unmask, register,
}
use libos.Mpic.Vector.{irq_mask-unmask}

-- The calls of clients that nest masks, and what they may lead to.
pub data Step (s : Source) (t : Source) : Type 0 where
  masked : t ≡ interrupt_mask s → Step s t
  unmasked : interrupt_unmask s ≡ some t → Step s t

pub data Reach (s : Source) : Source → Type 0 where
  here : Reach s s
  next : {t u : Source} → Reach s t → Step t u → Reach s u

-- The source is disabled in the controller exactly while the count is not zero.
pub record IsNested (s : Source) : Type 0 where
  pub word : s.vecpri < 2 ^ 32
  pub disabled : irq_get_mask s ≡ (if s.maskcnt == 0 then false else true)

pub interrupt_reset-IsNested : (s : Source) → s.vecpri < 2 ^ 32 → IsNested (interrupt_reset s)
unfolding interrupt_reset irq_mask
interrupt_reset-IsNested s h =
    let t : Source = record s { maskcnt = 1; oldmask = 1 } in
    let (on, (v, p, c, a, w), off, rest) = irq_mask-unmask t h in record { word = w; disabled = on }

interrupt_mask-IsNested : (s : Source) → IsNested s → IsNested (interrupt_mask s)
unfolding interrupt_mask irq_mask irq_get_mask
interrupt_mask-IsNested s n = elim (Bool-cases (s.maskcnt == 0)) [
  | inl z ↦
      let (on, (v, p, c, a, w), off, kept) = irq_mask-unmask (record s { maskcnt = 1 }) n.word in
      rw z (record { word = w; disabled = on })
  | inr z ↦
      let same : irq_get_mask s ≡ true = n.disabled ∙ rw z refl in
      rw z (record {
        word = n.word;
        disabled = same ∙ rw (==_ne (s.maskcnt + 1) 0 (omega arith)) refl;
      })
]

-- What `interrupt_unmask` leaves when it does not fail.
after_unmask : Source → Source
after_unmask s =
    if s.maskcnt - 1 == 0
    then irq_unmask (record s { maskcnt = 0 })
    else record s { maskcnt = s.maskcnt - 1 }

after_unmask-IsNested : (s : Source) → s.maskcnt ≢ 0 → IsNested s → IsNested (after_unmask s)
unfolding after_unmask irq_unmask irq_get_mask
after_unmask-IsNested s more n = elim (Bool-cases (s.maskcnt - 1 == 0)) [
  | inl z ↦
      let (on, kept, off, (v, p, c, a, w)) = irq_mask-unmask (record s { maskcnt = 0 }) n.word in
      rw z (record { word = w; disabled = off })
  | inr z ↦
      let same : irq_get_mask s ≡ true = n.disabled ∙ rw (==_ne s.maskcnt 0 more) refl in
      rw z (record { word = n.word; disabled = same ∙ rw z refl })
]

interrupt_unmask_cases :
    (s : Source)
    → ((s.maskcnt ≡ 0) × (interrupt_unmask s ≡ none))
      ⊎ ((s.maskcnt ≢ 0) × (interrupt_unmask s ≡ some (after_unmask s)))
unfolding interrupt_unmask after_unmask
interrupt_unmask_cases s = elim (ℕ_discrete s.maskcnt 0) [
  | yes e ↦ inl (e, rw ((==_iff s.maskcnt 0).1 e) refl)
  | no n ↦ inr (n, rw (==_ne s.maskcnt 0 n) refl)
]

Step-IsNested : {s t : Source} → Step s t → IsNested s → IsNested t
Step-IsNested {s} {t} (masked e) n = subst IsNested (sym e) (interrupt_mask-IsNested s n)
Step-IsNested {s} {t} (unmasked e) n = elim (interrupt_unmask_cases s) [
  | inl (z, f) ↦ absurd (no_some (sym f ∙ e))
  | inr (z, f) ↦ subst IsNested (some_inj (sym f ∙ e)) (after_unmask-IsNested s z n)
]
  where
    no_some : none ≡ some t → ⊥
    no_some h = cc

    some_inj : some (after_unmask s) ≡ some t → after_unmask s ≡ t
    some_inj h = cc

-- From a reset on, however masks and unmasks nest, the controller has the source disabled exactly while
-- the count of masks is not zero.
pub Reach-IsNested : (s t : Source) → s.vecpri < 2 ^ 32 → Reach (interrupt_reset s) t → IsNested t
Reach-IsNested s t h here = interrupt_reset-IsNested s h
Reach-IsNested s t h (next {t = u} r st) = Step-IsNested st (Reach-IsNested s u h r)

-- The delivery type does not touch the mask.
delivery_lem :
    (s : Source) (flags : ℕ)
    → ((irq_set_delivery_type s flags).1.vecpri ≡ s.vecpri)
      × ((irq_set_delivery_type s flags).1.maskcnt ≡ s.maskcnt)
unfolding irq_set_delivery_type
delivery_lem s flags = elim (Bool-cases (irq_get_activity s)) [
  | inl b ↦ (rw b refl, rw b refl)
  | inr b ↦ (rw b refl, rw b refl)
]

unmasked_lem :
    (t : Source)
    → t.vecpri < 2 ^ 32
    → t.maskcnt ≡ 1
    → (irq_get_mask (irq_unmask t) ≡ false) × (irq_get_mask (interrupt_mask (irq_unmask t)) ≡ false)
unfolding interrupt_mask irq_unmask irq_get_mask
unmasked_lem t h one =
    let (on, kept, off, rest) = irq_mask-unmask t h in
    (off, rw (==_ne t.maskcnt 0 (omega arith), interrupt_mask) off)

-- Registration unmasks the source in the controller but leaves the count alone: after a reset and a
-- registration the source is enabled, and a mask does not disable it.
pub register_past_count :
    (s : Source) (handler flags : ℕ)
    → s.vecpri < 2 ^ 32
    → ((register true (interrupt_reset s) handler flags).0 ≡ ok tt)
      × (irq_get_mask (register true (interrupt_reset s) handler flags).1 ≡ false)
      × (irq_get_mask (interrupt_mask (register true (interrupt_reset s) handler flags).1) ≡ false)
unfolding register interrupt_reset irq_mask
register_past_count s handler flags h =
    let pending : Source = record (interrupt_reset s) { actions = handler ∷ s.actions } in
    let (word, count) = delivery_lem pending flags in
    let n = interrupt_reset-IsNested s h in
    let (first, second) =
      unmasked_lem (irq_set_delivery_type pending flags).1 (omega (arith, word, n.word)) count in
    (refl, first, second)
