-- ===== src/Mpic/Initial.antt =====
-- What `mpic_init` leaves of each source.
use libos.Prelude.{
  ℕ, zero, suc, ◌+◌, ◌*◌, ◌/◌, ◌%◌, ◌^◌, ◌<◌, ◌≤◌, ◌≡◌, ◌≢◌, ◌⊎◌, inl, inr, refl, ap, ap₂, ◌∙◌,
  arith, Bool, true, false, none, ltb, leb, ◌==◌, ◌&&◌, ==_ne, if◌then◌else◌, Bool-cases, bit_or,
}
use libos.Prelude.Fields.{set_bf, get_bf, set_bf_lem, get_bf_lem}
use libos.Mpic.{
  irq_set_destcpu, irq_get_activity, interrupt_reset, irq_mask, Source, msk, polarity, sense,
  priority, vector, irq_get_mask, irq_get_vector, irq_get_priority, irq_get_config,
}
use libos.Mpic.Vector.{irq_get_mask_lem}
use libos.Mpic.Setup.{
  Mpic, put, init_sources, source_loop, ext_source, msi_source, initial_ext, initial_msi, get_irq,
  configure, device,
}
use libos.Mpic.Lookup.{get_irq-short}

-- A loop changes each of its sources once, and no other.
source_loop-out :
    (body : ℕ → Source → Source) (left i j : ℕ) (irqs : ℕ → Source)
    → (j < i) ⊎ (i + left ≤ j)
    → source_loop body left i irqs j ≡ irqs j
unfolding source_loop
source_loop-out body zero i j irqs h = refl
source_loop-out body (suc left) i j irqs h =
    source_loop-out body left (i + 1) j (put irqs i (body i (irqs i))) (ground arith)
    ∙ rw (==_ne j i (λ e. ground arith)) refl

source_loop-in :
    (body : ℕ → Source → Source) (left i j : ℕ) (irqs : ℕ → Source)
    → i ≤ j
    → j < i + left
    → source_loop body left i irqs j ≡ body j (irqs j)
unfolding source_loop
source_loop-in body zero i j irqs low high = absurd (omega arith)
source_loop-in body (suc left) i j irqs low high = elim (Bool-cases (j == i)) [
  | inl e ↦
      source_loop-out body left (i + 1) j (put irqs i (body i (irqs i))) (ground arith)
      ∙ rw e (ap (λ k. body k (irqs k)) {x = i} {y = j} (ground arith))
  | inr n ↦
      source_loop-in body left (i + 1) j (put irqs i (body i (irqs i))) (ground arith) (omega arith)
      ∙ rw n refl
]

-- The sources that are no external, internal or message source are not set up.
sources_beyond :
    (m : Mpic) (coreint : Bool) (n : ℕ) → 528 ≤ n → (init_sources m coreint).irqs n ≡ m.irqs n
unfolding init_sources
sources_beyond m coreint n h =
    source_loop-out msi_source 24 0xe0 n (source_loop ext_source 528 0 m.irqs) (inr (omega arith))
    ∙ source_loop-out ext_source 528 0 n m.irqs (inr (omega arith))

configure_absent :
    (m : Mpic) (n spec : ℕ)
    → ((m.irqs n).has_hw ≡ false)
    → ((m.irqs n).config_done ≡ false)
    → configure m n spec (device n) false ≡ none
unfolding configure
configure_absent m n spec hw first = elim (Bool-cases (leb 632 n)) [
  | inl out ↦ rw out refl
  | inr known ↦ rw (known, first, hw) refl
]

-- The sources from 528 to 631 are in the table, but `mpic_init` does not set their registers: looking one
-- up after the initialisation, or number 632, which is behind the table, ends in a bad access.
pub get_irq-init_sources :
    (m : Mpic) (coreint rev1 : Bool) (intspec : ℕ → ℕ) (ncells : ℕ)
    → 2 ≤ ncells
    → ncells ≢ 4
    → intspec 1 ≤ 3
    → 528 ≤ intspec 0
    → intspec 0 ≤ 632
    → (m.irqs (intspec 0)).has_hw ≡ false
    → (m.irqs (intspec 0)).config_done ≡ false
    → get_irq (init_sources m coreint) rev1 intspec ncells ≡ none
get_irq-init_sources m coreint rev1 intspec ncells cells four sort low high hw first =
    let m' : Mpic = init_sources m coreint in
    let same = sources_beyond m coreint (intspec 0) low in
    get_irq-short m' rev1 intspec ncells cells four sort high
    ∙ configure_absent m' (intspec 0) (intspec 1) (ap (λ (s : Source). s.has_hw) same ∙ hw)
        (ap (λ (s : Source). s.config_done) same ∙ first)

-- What a priority register holds that masks vector `n` at priority 0, with the configuration given.
abbrev pub IsInitial : ℕ → ℕ → ℕ → Type 0
IsInitial v n config =
    (v ≡ n + (config % 2) * 2 ^ 23 + (config / 2) * 2 ^ 22 + 2 ^ 31) × (n < 2 ^ 16) × (config < 4)

initial_ext-IsInitial : (n : ℕ) → n < 528 → IsInitial (initial_ext n) n (if ltb n 12 then 3 else 1)
unfolding initial_ext
initial_ext-IsInitial n h =
    let v : ℕ = set_bf (set_bf (set_bf 0 vector n) msk 1) polarity 1 in
    let e₁ = set_bf_lem 0 vector 16 n refl (omega arith) (omega arith) in
    let e₂ = set_bf_lem (set_bf 0 vector n) msk 1 1 refl (omega arith) (omega arith) in
    let e₃ =
      set_bf_lem (set_bf (set_bf 0 vector n) msk 1) polarity 1 1 refl (omega arith) (omega arith) in
    let e₄ = set_bf_lem v sense 1 1 refl (omega arith) (omega arith) in
    let whole : v ≡ n + 2 ^ 31 + 2 ^ 23 = omega arith in
    elim (Bool-cases (ltb n 12)) [
      | inl level ↦
          let e₅ = set_bf_lem (set_bf v sense 1) priority 4 0 refl (omega arith) (omega arith) in
          rw level (omega arith, omega arith, omega arith)
      | inr edge ↦
          let e₅ = set_bf_lem v priority 4 0 refl (omega arith) (omega arith) in
          rw edge (omega arith, omega arith, omega arith)
    ]

initial_msi-IsInitial : (n : ℕ) → n < 528 → IsInitial (initial_msi n) n 0
unfolding initial_msi
initial_msi-IsInitial n h =
    let e₁ = set_bf_lem 0 vector 16 n refl (omega arith) (omega arith) in
    let e₂ = set_bf_lem (set_bf 0 vector n) msk 1 1 refl (omega arith) (omega arith) in
    let e₃ =
      set_bf_lem (set_bf (set_bf 0 vector n) msk 1) priority 4 0 refl (omega arith) (omega arith) in
    (omega arith, omega arith, omega arith)

-- A source as the initialisation leaves it: masked once, with its number as vector.
pub record IsReset (s : Source) (n config : ℕ) : Type 0 where
  pub masked : irq_get_mask s ≡ true
  pub number : irq_get_vector s ≡ n
  pub lowest : irq_get_priority s ≡ 0
  pub sensed : irq_get_config s ≡ config
  pub counted : s.maskcnt ≡ 1
  pub attached : s.has_hw ≡ true

reset_lem :
    (s : Source) (n config : ℕ)
    → IsInitial s.vecpri n config
    → s.maskcnt ≡ 1
    → s.has_hw ≡ true
    → IsReset s n config
unfolding irq_get_vector irq_get_priority irq_get_config
reset_lem s n config (v, small, bits) count hw = record {
  masked = irq_get_mask_lem s true (omega arith);
  number = omega (arith, get_bf_lem s.vecpri vector 16 refl);
  lowest = omega (arith, get_bf_lem s.vecpri priority 4 refl);
  sensed =
      ap₂ (λ (a b : ℕ). bit_or a (b * 2)) {x = get_bf s.vecpri polarity} {y = config % 2}
        (omega (arith, get_bf_lem s.vecpri polarity 1 refl))
        (omega (arith, get_bf_lem s.vecpri sense 1 refl))
      ∙ both config bits;
  counted = count;
  attached = hw;
}
  where
    both : (c : ℕ) → c < 4 → bit_or (c % 2) (c / 2 * 2) ≡ c
    both zero h = refl
    both (suc zero) h = refl
    both (suc (suc zero)) h = refl
    both (suc (suc (suc zero))) h = refl
    both (suc (suc (suc (suc c)))) h = absurd (omega arith)

-- The destination of an active source cannot be set, which changes neither what it has nor its masks.
attached_lem : (s : Source) → (irq_set_destcpu (record s { has_hw = true }) 1).1.has_hw ≡ true
unfolding irq_set_destcpu
attached_lem s = elim (Bool-cases (irq_get_activity (record s { has_hw = true }))) [
  | inl busy ↦ rw busy refl
  | inr idle ↦ rw idle refl
]

ext_source-IsReset :
    (n : ℕ) (s : Source) → n < 528 → IsReset (ext_source n s) n (if ltb n 12 then 3 else 1)
unfolding ext_source interrupt_reset irq_mask
ext_source-IsReset n s h =
    reset_lem _ n (if ltb n 12 then 3 else 1) (initial_ext-IsInitial n h) refl (attached_lem s)

msi_source-IsReset : (n : ℕ) (s : Source) → n < 528 → IsReset (msi_source n s) n 0
unfolding msi_source interrupt_reset irq_mask
msi_source-IsReset n s h = reset_lem _ n 0 (initial_msi-IsInitial n h) refl (attached_lem s)

-- After the initialisation, whatever the state before it, each external, internal and message source is
-- masked, once, with its own number as vector and priority 0. The message sources 0xe0 to 0xf7 read as edge
-- and active low, the external ones below 12 as level and active high, and the others as edge and active high.
pub init_sources-IsReset :
    (m : Mpic) (coreint : Bool) (n : ℕ)
    → n < 528
    → IsReset
        ((init_sources m coreint).irqs n)
        n
        (if leb 0xe0 n && ltb n 0xf8 then 0 else if ltb n 12 then 3 else 1)
unfolding init_sources
init_sources-IsReset m coreint n h =
    let first : ℕ → Source = source_loop ext_source 528 0 m.irqs in
    let done = source_loop-in ext_source 528 0 n m.irqs (omega arith) h in
    elim (Bool-cases (leb 0xe0 n && ltb n 0xf8)) [
      | inl msi ↦
          rw (msi, source_loop-in msi_source 24 0xe0 n first (ground arith) (ground arith))
            (msi_source-IsReset n (first n) h)
      | inr ext ↦
          rw (ext, source_loop-out msi_source 24 0xe0 n first (ground arith), done)
            (ext_source-IsReset n (m.irqs n) h)
    ]
