-- ===== src/Mpic/Setup.antt =====
-- The controller as a whole: initialisation, lookup of a source, and the shared error interrupts.
use libos.Prelude.{
  ℕ, zero, suc, ◌+◌, ◌-◌, ◌/◌, ◌^◌, Bool, true, false, Option, some, none, List, [], ◌∷◌, ltb, leb,
  not, ◌==◌, ◌&&◌, if◌then◌else◌, bit_and, bit_or,
}
use libos.Prelude.Fields.{set_bf}
use libos.Errors.{Result, ok, err, no_mem}
use libos.Mpic.{
  Source, msk, polarity, sense, priority, vector, irq_set_destcpu, interrupt_reset, write_config,
  register,
}
use libos.Mpic.ErrorInt.{error_int_unmask}

-- `error_sub_int_t`; the parent is the number of its source.
pub record ErrorSub : Type 0 where
  pub parent : Option ℕ
  pub subintnum : ℕ
  pub config : ℕ
  pub maskcnt : ℕ
  pub oldmask : ℕ
  pub actions : List ℕ

pub record Mpic : Type 0 where
  pub irqs : ℕ → Source
  pub ipi_irqs : ℕ → Source
  pub error_subints : ℕ → ErrorSub
  pub ctpr : ℕ
  pub gcr : ℕ
  pub eimr0 : ℕ
  pub coreint : Bool

abbrev pub mpic_num_srcs : ℕ
mpic_num_srcs = 632

abbrev pub mpic_num_err_srcs : ℕ
mpic_num_err_srcs = 32

abbrev pub put {ℓ} : {A : Type ℓ} → (ℕ → A) → ℕ → A → ℕ → A
put table i x j = if j == i then x else table j

unfoldable pub irq_set_ctpr : Mpic → ℕ → Mpic
irq_set_ctpr m p = record m { ctpr = bit_and p 15 }

unfoldable pub irq_get_ctpr : Mpic → ℕ
irq_get_ctpr m = m.ctpr

-- The `vpr` of the three loops of `mpic_init`.
unfoldable pub initial_ext : ℕ → ℕ
initial_ext i =
    let v = set_bf (set_bf (set_bf 0 vector i) msk 1) polarity 1 in
    set_bf (if ltb i 12 then set_bf v sense 1 else v) priority 0

unfoldable pub initial_msi : ℕ → ℕ
initial_msi j = set_bf (set_bf (set_bf 0 vector j) msk 1) priority 0

unfoldable pub initial_ipi : ℕ
initial_ipi = set_bf (set_bf 0 msk 1) priority 0

-- What the three loops end with.
abbrev pub init_source : Source → ℕ → Source
init_source s vpr = record (interrupt_reset s) { vecpri = vpr }

unfoldable pub ext_source : ℕ → Source → Source
ext_source i s = init_source (irq_set_destcpu (record s { has_hw = true }) 1).1 (initial_ext i)

unfoldable pub msi_source : ℕ → Source → Source
msi_source j s = init_source (irq_set_destcpu (record s { has_hw = true }) 1).1 (initial_msi j)

unfoldable pub ipi_source : ℕ → Source → Source
ipi_source i s = init_source (record s { has_hw = true; dispatch_cpu_mask = 0 }) initial_ipi

-- A loop over `left` sources from number `i` on.
unfoldable pub source_loop : (ℕ → Source → Source) → ℕ → ℕ → (ℕ → Source) → ℕ → Source
source_loop body zero i irqs = irqs
source_loop body (suc left) i irqs = source_loop body left (i + 1) (put irqs i (body i (irqs i)))

-- The tables and registers that `mpic_init` leaves before it resets the core.
unfoldable pub init_sources : Mpic → Bool → Mpic
init_sources m coreint =
    let first = irq_set_ctpr (record m { coreint = coreint }) 0xf in
    let mode = if coreint then bit_or m.gcr 0x60000000 else m.gcr in
    record first {
      gcr = bit_or mode 0x20000000;
      irqs = source_loop msi_source 24 0xe0 (source_loop ext_source 528 0 m.irqs);
      ipi_irqs = source_loop ipi_source 4 0 m.ipi_irqs;
    }

-- `mpic_reset_core`, with the registers `IACK` and `EOI` as operations of the hardware.
module _ {ℓ} {D : Type ℓ} (iack : D → ℕ × D) (eoi : D → D) where
  unfoldable pub reset_loop : ℕ → Bool → D → D
  reset_loop zero coreint d = d
  reset_loop (suc left) coreint d = elim coreint [
    | true ↦ reset_loop left true (eoi d)
    | false ↦
        let (vec, d') = iack d in
        let rest = reset_loop left false (eoi d') in if vec == 0xffff then d' else rest
  ]

  unfoldable pub reset_core : Mpic → ℕ → D → Mpic × D
  reset_core m frr d = (irq_set_ctpr m 0, reset_loop (bit_and frr 0x07ff0000 / 2 ^ 16) m.coreint d)

  -- `mpic_init`.
  unfoldable pub init : Mpic → Bool → ℕ → D → Mpic × D
  init m coreint frr d = reset_core (init_sources m coreint) frr d

-- `mpic_intspec_to_config`.
abbrev pub intspec_to_config : ℕ → ℕ
intspec_to_config spec =
    if spec == 0 then 1 else if spec == 1 then 2 else if spec == 2 then 3 else 0

-- `error_int_init`, for the source `irqnum`: each error interrupt is reset, which masks it.
unfoldable pub error_int_init : Mpic → ℕ → Mpic
error_int_init m irqnum = record m {
  eimr0 = 2 ^ 32 - 1;
  error_subints = λ i.
      if ltb i mpic_num_err_srcs
      then record (m.error_subints i) {
        parent = some irqnum;
        subintnum = i;
        maskcnt = 1;
        oldmask = 1;
      }
      else m.error_subints i;
}

-- What `get_irq` finds.
pub data Target : Type 0 where
  device : ℕ → Target
  error : ℕ → Target

-- The end of `get_mpic_irq`; `none` is an access outside `mpic_irqs`, or to the
-- registers of a source that has none.
unfoldable pub configure : Mpic → ℕ → ℕ → Target → Bool → Option (Option Target × Mpic)
configure m irqnum spec target error_int =
    if leb mpic_num_srcs irqnum
    then none
    else if (m.irqs irqnum).config_done
    then some (some target, m)
    else if not (m.irqs irqnum).has_hw
    then none
    else (let config = bit_or (intspec_to_config spec) 4 in
        let s = write_config (record (m.irqs irqnum) { config = config }) config in
        let m' = record m { irqs = put m.irqs irqnum (record s { config_done = true }) } in
        some (some target, if error_int then error_int_init m' irqnum else m'))

-- `get_mpic_irq`. The inner `none` is `NULL`, the outer one an access outside a table.
unfoldable pub get_irq : Mpic → Bool → (ℕ → ℕ) → ℕ → Option (Option Target × Mpic)
get_irq m rev1 intspec ncells =
    if ltb ncells 2
    then some (none, m)
    else if ltb 3 (intspec 1)
    then some (none, m)
    else if ltb mpic_num_srcs (intspec 0)
    then some (none, m)
    else if ncells == 4 && not rev1
    then (if intspec 2 == 0
        then configure m (intspec 0) (intspec 1) (device (intspec 0)) false
        else if intspec 2 == 1
        then (if leb mpic_num_err_srcs (intspec 3)
            then none
            else configure
                (record m {
                  error_subints =
                      put m.error_subints (intspec 3) (record (m.error_subints (intspec 3)) {
                        config = intspec_to_config (intspec 1);
                        subintnum = intspec 3;
                      });
                })
                (intspec 0) (intspec 1) (error (intspec 3)) true)
        else some (none, m))
    else configure m (intspec 0) (intspec 1) (device (intspec 0)) false

-- `error_int_register`, with the handler of the parent as number `shared`. `none` is a failed `assert`.
unfoldable pub error_int_register :
    Bool → Bool → ℕ → Mpic → ℕ → ℕ → Option (Result (Unit {0}) × Mpic)
error_int_register parent_room room shared m subint handler =
    let e = m.error_subints subint in
    elim e.parent [
      | none ↦ none
      | some p ↦
          let m₁ : Mpic = elim (m.irqs p).actions [
            | [] ↦ record m { irqs = put m.irqs p (register parent_room (m.irqs p) shared 2).1 }
            | a ∷ actions ↦ m
          ] in
          if not room then some (err no_mem, m₁) else elim e.actions [
            | a ∷ actions ↦ some (
              ok tt,
              record m₁ {
                error_subints =
                    put m₁.error_subints subint (record e { actions = handler ∷ a ∷ actions });
              },
            )
            | [] ↦
                if e.maskcnt == 0
                then none
                else some (
                  ok tt,
                  record m₁ {
                    error_subints =
                        put m₁.error_subints subint
                          (record e { actions = handler ∷ []; maskcnt = e.maskcnt - 1 });
                    eimr0 =
                        if e.maskcnt - 1 == 0
                        then error_int_unmask m₁.eimr0 e.subintnum
                        else m₁.eimr0;
                  },
                )
          ]
    ]
