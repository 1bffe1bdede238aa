-- ===== src/Pamu.antt =====
-- lib/pamu.c and the table entries of include/libos/pamu.h. A table is a function of the index; `fault`
-- stands for an access outside it. Locks and barriers are left out: one context runs at a time.
pub mod Config
pub mod Entry
pub mod Window
pub mod Access
pub mod Fspi
pub mod Hw
pub mod Layout
mod Tests
use libos.Prelude.{
  ℕ, ◌+◌, ◌-◌, ◌*◌, ◌/◌, ◌%◌, ◌^◌, Bool, Option, some, none, ltb, leb, not, ◌==◌, ◌||◌,
  if◌then◌else◌, bit_or,
}
use libos.Prelude.Words.{u32, sub32, add32}
use libos.Prelude.Fields.{Field, set_bf, count_lsb_zeroes}

pub record Paace : Type 0 where
  pub wbah : ℕ
  pub addr_bitfields : ℕ
  pub did : ℕ
  pub pid : ℕ
  pub snpid : ℕ
  pub coherency_required : ℕ
  pub impl_attr : ℕ
  pub twbah : ℕ
  pub win_bitfields : ℕ
  pub fspi : ℕ
  pub omi : ℕ

-- `ppaact` is `NULL` until `hw_init` has run; `pamu_fspi` is the first free secondary entry.
pub record Pamu : Type 0 where
  pub has_tables : Bool
  pub ppaact : ℕ → Paace
  pub spaact : ℕ → Paace
  pub pamu_fspi : ℕ
  pub max_subwindow_count : ℕ

abbrev pub paace_number_entries : ℕ
paace_number_entries = 0x500

abbrev pub spaace_number_entries : ℕ
spaace_number_entries = 0x8000

abbrev pub ome_number_entries : ℕ
ome_number_entries = 16

abbrev pub ppaace_af_wbal : Field
ppaace_af_wbal = record { mask = 0xfffff000; shift = 12 }

abbrev pub ppaace_af_wse : Field
ppaace_af_wse = record { mask = 0xfc0; shift = 6 }

abbrev pub ppaace_af_mw : Field
ppaace_af_mw = record { mask = 0x20; shift = 5 }

abbrev pub spaace_af_liodn : Field
spaace_af_liodn = record { mask = 0xffff0000; shift = 16 }

abbrev pub paace_af_ap : Field
paace_af_ap = record { mask = 0x18; shift = 3 }

abbrev pub paace_af_pt : Field
paace_af_pt = record { mask = 0x2; shift = 1 }

abbrev pub paace_af_v : Field
paace_af_v = record { mask = 0x1; shift = 0 }

abbrev pub paace_da_host_cr : Field
paace_da_host_cr = record { mask = 0x80; shift = 7 }

abbrev pub paace_ia_cid : Field
paace_ia_cid = record { mask = 0xff0000; shift = 16 }

abbrev pub paace_ia_wce : Field
paace_ia_wce = record { mask = 0xf0; shift = 4 }

abbrev pub paace_ia_atm : Field
paace_ia_atm = record { mask = 0xc; shift = 2 }

abbrev pub paace_ia_otm : Field
paace_ia_otm = record { mask = 0x3; shift = 0 }

abbrev pub paace_win_twbal : Field
paace_win_twbal = record { mask = 0xfffff000; shift = 12 }

abbrev pub paace_win_swse : Field
paace_win_swse = record { mask = 0xfc0; shift = 6 }

-- The table with another entry at index `i`.
abbrev pub put : (ℕ → Paace) → ℕ → Paace → ℕ → Paace
put table i e j = if j == i then e else table j

-- The result is a code with which the function returns; its `assert` has been tested by the callers.
unfoldable pub map_addrspace_size_to_wse : ℕ → ℕ
map_addrspace_size_to_wse addrspace_size =
    sub32 (add32 (count_lsb_zeroes 64 (addrspace_size / 2 ^ 12)) 12) 1

unfoldable pub map_subwindow_cnt_to_wce : ℕ → ℕ
map_subwindow_cnt_to_wce subwindow_cnt = sub32 (count_lsb_zeroes 32 subwindow_cnt) 1

unfoldable pub get_ppaace : Pamu → ℕ → Option Paace
get_ppaace p liodn =
    if not p.has_tables || leb paace_number_entries liodn then none else some (p.ppaact liodn)

-- The index; the code does not look whether the table has it.
unfoldable pub get_spaace : ℕ → ℕ → ℕ
get_spaace fspi_index wnum = add32 (u32 fspi_index) (u32 wnum)

unfoldable pub get_fspi_and_allocate : Pamu → ℕ → Option (ℕ × Pamu)
get_fspi_and_allocate p subwindow_cnt =
    if ltb spaace_number_entries (p.pamu_fspi + subwindow_cnt)
    then none
    else some (p.pamu_fspi, record p { pamu_fspi = p.pamu_fspi + subwindow_cnt })

unfoldable pub setup_default_xfer_to_host_ppaace : Paace → Paace
setup_default_xfer_to_host_ppaace e = record e {
  addr_bitfields = set_bf e.addr_bitfields paace_af_pt 0;
  coherency_required = set_bf e.coherency_required paace_da_host_cr 1;
}

unfoldable pub setup_default_xfer_to_host_spaace : Paace → Paace
setup_default_xfer_to_host_spaace e = record e {
  addr_bitfields = set_bf e.addr_bitfields paace_af_pt 1;
  coherency_required = set_bf e.coherency_required paace_da_host_cr 1;
}

-- `e->addr_bitfields |= PAACE_V_VALID`.
abbrev pub validate : Paace → Paace
validate e = record e { addr_bitfields = bit_or e.addr_bitfields 1 }

-- `set_bf(impl_attr, PAACE_IA_ATM, PAACE_ATM_WINDOW_XLATE)` and the page number that it goes to.
abbrev pub translate : Paace → ℕ → Paace
translate e rpn = record e {
  impl_attr = set_bf e.impl_attr paace_ia_atm 1;
  twbah = u32 (rpn / 2 ^ 20);
  win_bitfields = set_bf e.win_bitfields paace_win_twbal rpn;
}

-- `set_bf(addr_bitfields, PAACE_AF_AP, x)`.
abbrev pub permit : Paace → ℕ → Paace
permit e x = record e { addr_bitfields = set_bf e.addr_bitfields paace_af_ap x }
