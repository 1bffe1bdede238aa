-- ===== src/Mpic/Tests.antt =====
-- The theorems on the interrupt controller at example sources.
use libos.Prelude.{
  List, some, if◌then◌else◌, ◌==◌, ℕ, ◌^◌, ◌<◌, ◌≡◌, refl, arith, true, false, some, none, [], ◌∷◌,
  ◌==◌, if◌then◌else◌,
}
use libos.Prelude.Fields.{count_msb_zeroes}
use libos.Errors.{ok}
use libos.Mpic.{
  Source, irq_mask, irq_unmask, irq_get_mask, register, interrupt_reset, interrupt_mask,
}
use libos.Mpic.Vector.{SameButMask, irq_mask-unmask}
use libos.Mpic.Nesting.{masked, Reach, here, next, IsNested, Reach-IsNested, register_past_count}
use libos.Mpic.Summary.{get_int, get_ext_int, get_internal_int, internal_loop}
use libos.Mpic.ErrorInt.{
  handler_loop, set_bits, all_handled, handlers_of, error_int_handler-set_bits,
}
use libos.Mpic.Setup.{Mpic, get_irq, init_sources, device}
use libos.Mpic.Lookup.{IsConfigured, get_irq-IsConfigured}
use libos.Mpic.Initial.{IsReset, get_irq-init_sources, init_sources-IsReset}

-- An idle source with vector 7, priority 5, unmasked.
abbrev idle : Source
idle = record {
  vecpri = 0x50007;
  destcpu = 1;
  intlevel = 0;
  actions = [];
  config = 0;
  maskcnt = 0;
  oldmask = 0;
  config_done = false;
  has_hw = true;
  dispatch_cpu_mask = 0;
}

irq_mask-unmask_example :
    (irq_get_mask (irq_mask idle) ≡ true)
    × SameButMask idle (irq_mask idle)
    × (irq_get_mask (irq_unmask idle) ≡ false)
    × SameButMask idle (irq_unmask idle)
irq_mask-unmask_example = irq_mask-unmask idle (omega arith)

-- Masked a second time after the reset.
twice : Reach (interrupt_reset idle) (interrupt_mask (interrupt_reset idle))
twice = next here (masked refl)

Reach-IsNested_example : IsNested (interrupt_mask (interrupt_reset idle))
Reach-IsNested_example =
    Reach-IsNested idle (interrupt_mask (interrupt_reset idle)) (omega arith) twice

register_past_count_example :
    ((register true (interrupt_reset idle) 4 0).0 ≡ ok tt)
    × (irq_get_mask (register true (interrupt_reset idle) 4 0).1 ≡ false)
    × (irq_get_mask (interrupt_mask (register true (interrupt_reset idle) 4 0).1) ≡ false)
register_past_count_example = register_past_count idle 4 0 (omega arith)

-- Internal register 2 has its bits 4 and 6 set.
abbrev internal : ℕ → ℕ
internal k = if k == 2 then 0x0a000000 else 0

internal-words : (k : ℕ) → internal k < 2 ^ 32
internal-words k = ground arith

reported : get_int 0 internal ≡ some 84
unfolding get_int get_ext_int get_internal_int internal_loop count_msb_zeroes
reported = refl

-- Error interrupt 31 has two handlers, the others one each.
abbrev error_actions : ℕ → List ℕ
error_actions i = if i == 31 then 7 ∷ 8 ∷ [] else i ∷ []

error_int_handler-set_bits_example :
    handler_loop error_actions 32 0x80000005 ≡ some (7 ∷ 8 ∷ 29 ∷ 0 ∷ [])
unfolding set_bits all_handled handlers_of
error_int_handler-set_bits_example =
    error_int_handler-set_bits error_actions 0x80000005 32 (omega arith) (omega arith)

abbrev absent : Source
absent = record idle { has_hw = false }

-- A controller whose sources all are `s`.
abbrev controller : Source → Mpic
controller s = record {
  irqs = λ i. s;
  ipi_irqs = λ i. s;
  error_subints = λ i. record {
    parent = none;
    subintnum = i;
    config = 0;
    maskcnt = 0;
    oldmask = 0;
    actions = [];
  };
  ctpr = 0;
  gcr = 0;
  eimr0 = 0;
  coreint = false;
}

-- Source 20, level and active high; and source 600.
abbrev spec_20 : ℕ → ℕ
spec_20 i = if i == 0 then 20 else 2

abbrev spec_600 : ℕ → ℕ
spec_600 i = if i == 0 then 600 else 2

get_irq-IsConfigured_example :
    (m' : Mpic) × (get_irq (controller idle) false spec_20 2 ≡ some (some (device 20), m'))
    × IsConfigured (controller idle) 20 2 m'
    × (get_irq m' false spec_20 2 ≡ some (some (device 20), m'))
    × (m'.irqs 3 ≡ idle)
get_irq-IsConfigured_example =
    get_irq-IsConfigured (controller idle) false spec_20 2 3 (omega arith) (omega arith)
      (omega arith) (omega arith) (omega arith) refl (omega arith)

get_irq-init_sources_example :
    get_irq (init_sources (controller absent) true) false spec_600 2 ≡ none
get_irq-init_sources_example =
    get_irq-init_sources (controller absent) true false spec_600 2 (omega arith) (omega arith)
      (omega arith) (omega arith) (omega arith) refl refl

init_sources-IsReset_example : IsReset ((init_sources (controller absent) true).irqs 230) 230 0
init_sources-IsReset_example = init_sources-IsReset (controller absent) true 230 (omega arith)
