-- ===== src/Mpic/Lookup.antt =====
-- Looking a source up, which configures it the first time.
use libos.Prelude.{
  ℕ, zero, suc, ◌%◌, ◌^◌, ◌<◌, ◌≤◌, ◌≡◌, ◌≢◌, ◌⊎◌, inl, inr, refl, ap, ◌∙◌, arith, Bool, true,
  false, some, le→ltb, lt→leb, ==_ne, ==_refl, Bool-cases, bit_or,
}
use libos.Mpic.{Source, irq_get_config, write_config}
use libos.Mpic.Vector.{irq_get_config-write_config}
use libos.Mpic.Setup.{Mpic, Target, device, get_irq, configure, intspec_to_config, put}

configuration_lem :
    (spec : ℕ) → spec ≤ 3 → bit_or (intspec_to_config spec) 4 % 4 ≡ intspec_to_config spec
configuration_lem zero h = refl
configuration_lem (suc zero) h = refl
configuration_lem (suc (suc zero)) h = refl
configuration_lem (suc (suc (suc zero))) h = refl
configuration_lem (suc (suc (suc (suc n)))) h = absurd (omega arith)

-- A specifier of two cells, or of three, names a source alone.
pub get_irq-short :
    (m : Mpic) (rev1 : Bool) (intspec : ℕ → ℕ) (ncells : ℕ)
    → 2 ≤ ncells
    → ncells ≢ 4
    → intspec 1 ≤ 3
    → intspec 0 ≤ 632
    → get_irq m rev1 intspec ncells ≡ configure m (intspec 0) (intspec 1) (device (intspec 0)) false
unfolding get_irq
get_irq-short m rev1 intspec ncells cells four spec known =
    rw
      (
        le→ltb ncells 2 (omega arith),
        le→ltb 3 (intspec 1) (omega arith),
        le→ltb 632 (intspec 0) (omega arith),
        ==_ne ncells 4 four,
      )
      refl

-- What the first lookup leaves of the source.
abbrev pub configured : Source → ℕ → Source
configured s spec =
    let config = bit_or (intspec_to_config spec) 4 in
    record (write_config (record s { config = config }) config) { config_done = true }

configure_first :
    (m : Mpic) (n spec : ℕ) (target : Target)
    → n < 632
    → (m.irqs n).has_hw ≡ true
    → (m.irqs n).config_done ≡ false
    → configure m n spec target false
      ≡ some (some target, record m { irqs = put m.irqs n (configured (m.irqs n) spec) })
unfolding configure
configure_first m n spec target known hw first = rw (lt→leb n 632 (omega arith), first, hw) refl

configure_again :
    (m : Mpic) (n spec : ℕ) (target : Target)
    → n < 632
    → (m.irqs n).config_done ≡ true
    → configure m n spec target false ≡ some (some target, m)
unfolding configure
configure_again m n spec target known done = rw (lt→leb n 632 (omega arith), done) refl

-- What is found of source `n`: nothing changes when it has been configured before, else the specifier's
-- configuration is read back from its register.
abbrev pub IsConfigured : Mpic → ℕ → ℕ → Mpic → Type 0
IsConfigured m n spec m' =
    (((m.irqs n).config_done ≡ true) × (m' ≡ m))
    ⊎ (((m.irqs n).config_done ≡ false) × (irq_get_config (m'.irqs n) ≡ intspec_to_config spec))

lookup_parts :
    (m : Mpic) (n spec j : ℕ)
    → n < 632
    → j ≢ n
    → (m.irqs n).has_hw ≡ true
    → (m.irqs n).vecpri < 2 ^ 32
    → spec ≤ 3
    → (m' : Mpic) × (configure m n spec (device n) false ≡ some (some (device n), m'))
      × IsConfigured m n spec m'
      × (configure m' n spec (device n) false ≡ some (some (device n), m'))
      × (m'.irqs j ≡ m.irqs j)
unfolding irq_get_config write_config
lookup_parts m n spec j known other hw word sort = elim (Bool-cases (m.irqs n).config_done) [
  | inl done ↦
      let again = configure_again m n spec (device n) known done in
      (m, again, inl (done, refl), again, refl)
  | inr first ↦
      let new : Source = configured (m.irqs n) spec in
      let m' : Mpic = record m { irqs = put m.irqs n new } in
      let at : m'.irqs n ≡ new = rw (==_refl n) refl in
      (
        m',
        configure_first m n spec (device n) known hw first,
        inr (
          first,
          ap irq_get_config at
              ∙ irq_get_config-write_config (m.irqs n) (bit_or (intspec_to_config spec) 4) word
              ∙ configuration_lem spec sort,
        ),
        configure_again m' n spec (device n) known (ap (λ (t : Source). t.config_done) at),
        rw (==_ne j n other) refl,
      )
]

-- With a specifier of two cells or of three, a source that has registers is found. The first lookup
-- configures it, so that the configuration read back is the one the specifier's second cell stands for; a
-- second lookup changes nothing, and other sources are left alone.
pub get_irq-IsConfigured :
    (m : Mpic) (rev1 : Bool) (intspec : ℕ → ℕ) (ncells j : ℕ)
    → 2 ≤ ncells
    → ncells ≢ 4
    → intspec 1 ≤ 3
    → intspec 0 < 632
    → j ≢ intspec 0
    → (m.irqs (intspec 0)).has_hw ≡ true
    → (m.irqs (intspec 0)).vecpri < 2 ^ 32
    → (m' : Mpic) × (get_irq m rev1 intspec ncells ≡ some (some (device (intspec 0)), m'))
      × IsConfigured m (intspec 0) (intspec 1) m'
      × (get_irq m' rev1 intspec ncells ≡ some (some (device (intspec 0)), m'))
      × (m'.irqs j ≡ m.irqs j)
get_irq-IsConfigured m rev1 intspec ncells j cells four sort known other hw word =
    let (m', found, done, again, kept) =
      lookup_parts m (intspec 0) (intspec 1) j known other hw word sort in
    (
      m',
      get_irq-short m rev1 intspec ncells cells four sort (omega arith) ∙ found,
      done,
      get_irq-short m' rev1 intspec ncells cells four sort (omega arith) ∙ again,
      kept,
    )
