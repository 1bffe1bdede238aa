-- ===== src/Pamu/Tests.antt =====
-- Runs of the PAMU functions at fixed inputs.
use libos.Prelude.{◌+◌, ◌^◌, ◌<◌, ◌≤◌, ◌≡◌, ◌⊎◌, inl, refl, arith, true, false, [], ◌∷◌}
use libos.Prelude.Fields.{get_bf}
use libos.Errors.{ok, err, range}
use libos.Alloc.Served.{Packed}
use libos.Pamu.{Paace, Pamu}
use libos.Pamu.Config.{set_primary, config_ppaace}
use libos.Pamu.Entry.{window_base, window_size, real_page, permissions, valid_bit}
use libos.Pamu.Window.{config_ppaace-reads}
use libos.Pamu.Fspi.{fspi_all, fspi_all-Packed}
use libos.Pamu.Hw.{Hw, hw_init}
use libos.Pamu.Layout.{AreLaid, tables_size, hw_init-AreLaid}

abbrev blank : Paace
blank = record {
  wbah = 0;
  addr_bitfields = 0;
  did = 0;
  pid = 0;
  snpid = 0;
  coherency_required = 0;
  impl_attr = 0;
  twbah = 0;
  win_bitfields = 0;
  fspi = 0;
  omi = 0;
}

-- A window of a megabyte, and page number 5.
abbrev sized : Paace
sized = record blank { addr_bitfields = 0x4c0; win_bitfields = 0x5000 }

abbrev fresh_pamu : Pamu
fresh_pamu = record {
  has_tables = true;
  ppaact = λ i. blank;
  spaact = λ i. blank;
  pamu_fspi = 0;
  max_subwindow_count = 16;
}

abbrev sized_pamu : Pamu
sized_pamu = record fresh_pamu { ppaact = λ i. sized }

config_ppaace-reads_example :
    (e : Paace) × (config_ppaace fresh_pamu 7 0x300000 (2 ^ 20) 3 0x12345 1 2 0
      ≡ (ok tt, set_primary fresh_pamu 7 e))
    × (window_base e ≡ 0x300000)
    × (window_size e ≡ 2 ^ 20)
    × (real_page e ≡ 0x12345)
    × (permissions e ≡ 3)
    × (valid_bit e ≡ valid_bit blank)
config_ppaace-reads_example =
    config_ppaace-reads fresh_pamu 7 0x300000 20 3 0x12345 1 2 refl (omega arith)
      (record { addr_word = omega arith; impl_word = omega arith; win_word = omega arith })
      (unfold get_bf in refl) (omega arith, omega arith, omega arith, omega arith)
      (inl (omega arith)) (omega arith)

fspi_all-Packed_example : Packed 0 0x8000 (fspi_all fresh_pamu (100 ∷ 0x8000 ∷ 200 ∷ []))
fspi_all-Packed_example = fspi_all-Packed fresh_pamu (100 ∷ 0x8000 ∷ 200 ∷ []) (omega arith)

abbrev unset : Hw
unset = record {
  regs = λ a. 0;
  reg_space_vaddr = 0;
  reg_space_size = 0;
  bypenr_vaddr = 0;
  ppaact = 0;
  spaact = 0;
  omt = 0;
  max_subwindow_count = 0;
}

hw_init-AreLaid_example :
    ((tables_size ≤ 0x300000)
      × ((hw_init (λ v. v + 16) unset 0x20000 0x5000 0x4 0x100000 0x300000 false).0 ≡ ok tt)
      × AreLaid 0x100000
          (0x100000 + 0x300000)
          (hw_init (λ v. v + 16) unset 0x20000 0x5000 0x4 0x100000 0x300000 false).1)
    ⊎ ((0x300000 < tables_size)
        × ((hw_init (λ v. v + 16) unset 0x20000 0x5000 0x4 0x100000 0x300000 false).0 ≡ err range))
hw_init-AreLaid_example =
    hw_init-AreLaid (λ v. v + 16) unset 0x20000 0x5000 0x4 0x100000 0x300000 false (omega arith)
      (omega arith) (omega arith)
