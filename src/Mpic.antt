-- ===== src/Mpic.antt =====
-- lib/mpic.c and lib/interrupts.c: the interrupt sources and their registers. Registers are words that
-- only this code changes, but for the `active` bit, which is part of the state that a call begins with.
-- Locks are left out: one context runs at a time. The part for `TOPAZ` is left out.
pub mod Vector
pub mod Nesting
pub mod Summary
pub mod ErrorInt
pub mod Setup
pub mod Lookup
pub mod Initial
pub mod Tests
use libos.Prelude.{
  ℕ, zero, suc, ◌+◌, ◌-◌, ◌*◌, ◌/◌, ◌%◌, ◌^◌, Bool, true, false, Option, some, none, List, [], ◌∷◌,
  ltb, leb, not, ◌==◌, ◌&&◌, ◌||◌, if◌then◌else◌, bit_and, bit_or,
}
use libos.Prelude.Words.{u32}
use libos.Prelude.Fields.{Field, set_bf, get_bf}
use libos.Errors.{Result, ok, err, invalid, no_mem}

-- The fields of `vpr_t`.
abbrev pub msk : Field
msk = record { mask = 0x80000000; shift = 31 }

abbrev pub active : Field
active = record { mask = 0x40000000; shift = 30 }

abbrev pub polarity : Field
polarity = record { mask = 0x800000; shift = 23 }

abbrev pub sense : Field
sense = record { mask = 0x400000; shift = 22 }

abbrev pub priority : Field
priority = record { mask = 0xf0000; shift = 16 }

abbrev pub vector : Field
vector = record { mask = 0xffff; shift = 0 }

-- `mpic_interrupt_t`: the three registers `hw`, whether `hw` is set, and what `irq` holds. A handler is a number.
pub record Source : Type 0 where
  pub vecpri : ℕ
  pub destcpu : ℕ
  pub intlevel : ℕ
  pub actions : List ℕ
  pub config : ℕ
  pub maskcnt : ℕ
  pub oldmask : ℕ
  pub config_done : Bool
  pub has_hw : Bool
  pub dispatch_cpu_mask : ℕ

unfoldable pub irq_mask : Source → Source
irq_mask s = record s { vecpri = bit_or s.vecpri 0x80000000 }

unfoldable pub irq_unmask : Source → Source
irq_unmask s = record s { vecpri = bit_and s.vecpri (2 ^ 32 - 1 - 0x80000000) }

unfoldable pub irq_get_mask : Source → Bool
irq_get_mask s = not (bit_and s.vecpri 0x80000000 == 0)

unfoldable pub irq_set_vector : Source → ℕ → Source
irq_set_vector s v = record s { vecpri = set_bf s.vecpri vector v }

unfoldable pub irq_get_vector : Source → ℕ
irq_get_vector s = get_bf s.vecpri vector

unfoldable pub irq_get_activity : Source → Bool
irq_get_activity s = not (bit_and s.vecpri 0x40000000 == 0)

abbrev pub Reply : Type 0
Reply = Result (Unit {0}) × Source

unfoldable pub irq_set_priority : Source → ℕ → Reply
irq_set_priority s p =
    if irq_get_activity s
    then (err invalid, s)
    else (ok tt, record s { vecpri = set_bf s.vecpri priority p })

unfoldable pub irq_get_priority : Source → ℕ
irq_get_priority s = get_bf s.vecpri priority

-- `!!(config & IRQ_HIGH)` and `!!(config & IRQ_LEVEL)`.
abbrev pub test_bit : ℕ → ℕ → ℕ
test_bit config bit = if bit_and config bit == 0 then 0 else 1

-- `__mpic_irq_set_config`.
unfoldable pub write_config : Source → ℕ → Source
write_config s config = record s {
  vecpri = set_bf (set_bf s.vecpri polarity (test_bit config 1)) sense (test_bit config 2);
}

unfoldable pub irq_set_config : Source → ℕ → Reply
irq_set_config s config =
    if irq_get_activity s then (err invalid, s) else (ok tt, write_config s config)

unfoldable pub irq_get_config : Source → ℕ
irq_get_config s = bit_or (get_bf s.vecpri polarity) (get_bf s.vecpri sense * 2)

unfoldable pub irq_set_destcpu : Source → ℕ → Reply
irq_set_destcpu s cpu =
    if irq_get_activity s then (err invalid, s) else (ok tt, record s { destcpu = cpu })

unfoldable pub irq_get_destcpu : Source → ℕ
irq_get_destcpu s = s.destcpu

unfoldable pub irq_set_delivery_type : Source → ℕ → Reply
irq_set_delivery_type s inttype =
    if irq_get_activity s then (err invalid, s) else (ok tt, record s { intlevel = u32 inttype })

unfoldable pub irq_get_delivery_type : Source → ℕ
irq_get_delivery_type s = s.intlevel

unfoldable pub ipi_irq_set_destcpu : Source → ℕ → Source
ipi_irq_set_destcpu s cpu = record s { dispatch_cpu_mask = bit_or s.dispatch_cpu_mask cpu }

-- `has_room` says whether `alloc_type` succeeds; the result of the delivery type is not looked at.
unfoldable pub register : Bool → Source → ℕ → ℕ → Reply
register has_room s handler flags =
    if has_room
    then (
      ok tt,
      irq_unmask (irq_set_delivery_type (record s { actions = handler ∷ s.actions }) flags).1,
    )
    else (err no_mem, s)

-- `call_irq_handler`: `none` is its failed `assert`.
module _ {ℓ} {W : Type ℓ} (run : ℕ → W → W) where
  unfoldable pub call_actions : List ℕ → W → W
  call_actions [] w = w
  call_actions (a ∷ actions) w = call_actions actions (run a w)

  unfoldable pub call_irq_handler : Source → W → Option W
  call_irq_handler s w = elim s.actions [
    | [] ↦ none
    | a ∷ actions ↦ some (call_actions (a ∷ actions) w)
  ]

-- lib/interrupts.c, for a source of the controller. `none` is a failed `assert`.
unfoldable pub interrupt_reset : Source → Source
interrupt_reset s = irq_mask (record s { maskcnt = 1; oldmask = 1 })

unfoldable pub interrupt_mask : Source → Source
interrupt_mask s =
    if s.maskcnt == 0
    then irq_mask (record s { maskcnt = 1 })
    else record s { maskcnt = s.maskcnt + 1 }

unfoldable pub interrupt_unmask : Source → Option Source
interrupt_unmask s =
    if s.maskcnt == 0
    then none
    else some (
        if s.maskcnt - 1 == 0
        then irq_unmask (record s { maskcnt = 0 })
        else record s { maskcnt = s.maskcnt - 1 })
