-- ===== src/Pamu/Hw.antt =====
-- `pamu_hw_init` and `pamu_enable_interrupts`: the registers of the PAMUs. A register is a word of
-- memory at an address; what the hardware does with it by itself is not modelled.
use libos.Prelude.{
  ℕ, zero, suc, ◌+◌, ◌-◌, ◌*◌, ◌/◌, ◌^◌, Bool, ltb, ◌==◌, if◌then◌else◌, bit_and, bit_or,
}
use libos.Prelude.Words.{u32, add64, sub64}
use libos.Errors.{Result, ok, err, range, invalid}
use libos.Pamu.{paace_number_entries, spaace_number_entries, ome_number_entries}

abbrev pub Regs : Type 0
Regs = ℕ → ℕ

abbrev pub out32 : Regs → ℕ → ℕ → Regs
out32 r a v b = if b == a then u32 v else r b

-- The static variables that `hw_init` sets; addresses are numbers, `NULL` is 0.
pub record Hw : Type 0 where
  pub regs : Regs
  pub reg_space_vaddr : ℕ
  pub reg_space_size : ℕ
  pub bypenr_vaddr : ℕ
  pub ppaact : ℕ
  pub spaact : ℕ
  pub omt : ℕ
  pub max_subwindow_count : ℕ

abbrev pub write : Hw → ℕ → ℕ → Hw
write h a v = record h { regs = out32 h.regs a v }

-- `sizeof(paace_t)` is 64, `sizeof(ome_t)` is 128, and the tables are aligned to 4096.
abbrev pub ppaact_size : ℕ
ppaact_size = 64 * paace_number_entries

abbrev pub spaact_size : ℕ
spaact_size = 64 * spaace_number_entries

abbrev pub omt_size : ℕ
omt_size = 128 * ome_number_entries

abbrev pub align_table : ℕ → ℕ
align_table x = bit_and (x + 4096 - 1) (2 ^ 64 - 4096)

-- `PAMU_PC`, `PAMU_PC3`, `PAMU_PICS`, `PAMU_EECTL`, `PAMU_EEDIS`, `PAMU_EEINTEN`.
abbrev pub pamu_pc : ℕ
pamu_pc = 0xc10

abbrev pub pamu_pc3 : ℕ
pamu_pc3 = 0xc08

abbrev pub pamu_pics : ℕ
pamu_pics = 0xc1c

abbrev pub pamu_eectl : ℕ
pamu_eectl = 0x60

abbrev pub pamu_eedis : ℕ
pamu_eedis = 0x64

abbrev pub pamu_eeinten : ℕ
pamu_eeinten = 0x68

abbrev pub pamu_pc_pe : ℕ
pamu_pc_pe = 0x40000000

abbrev pub pamu_pc_oce : ℕ
pamu_pc_oce = 0x1000

-- A base address goes to two registers, the high word first.
abbrev pub write_base : (ℕ → ℕ) → Hw → ℕ → ℕ → Hw
write_base virt_to_phys h a ptr =
    write (write h a (virt_to_phys ptr / 2 ^ 32)) (add64 a 4) (virt_to_phys ptr)

-- The static variables before the tests.
abbrev pub place_tables : Hw → ℕ → ℕ → ℕ → ℕ → Hw
place_tables h reg_vaddr reg_size bypenr tbl_vbase = record h {
  reg_space_vaddr = reg_vaddr;
  reg_space_size = reg_size;
  bypenr_vaddr = bypenr;
  ppaact = tbl_vbase;
  spaact = add64 tbl_vbase (align_table (ppaact_size + 1));
  omt = add64 (add64 tbl_vbase (align_table (ppaact_size + 1))) (align_table (spaact_size + 1));
}

module _ (virt_to_phys : ℕ → ℕ) where
  -- One PAMU, whose registers begin at `pamu_offset`.
  unfoldable pub init_one : Hw → ℕ → Hw
  init_one h pamu_offset =
      let pc = add64 pamu_offset pamu_pc in
      let off = record h {
        regs =
            if bit_and (h.regs pc) pamu_pc_pe == 0
            then h.regs
            else out32 h.regs pc (bit_and (h.regs pc) (2 ^ 32 - 1 - pamu_pc_pe));
      } in
      let cached = write off pc pamu_pc_oce in
      let h₁ = write_base virt_to_phys cached pamu_offset h.ppaact in
      let h₂ = write_base virt_to_phys h₁ (add64 pamu_offset 8) (add64 h.ppaact ppaact_size) in
      let h₃ = write_base virt_to_phys h₂ (add64 pamu_offset 16) h.spaact in
      let h₄ = write_base virt_to_phys h₃ (add64 pamu_offset 24) (add64 h.spaact spaact_size) in
      let h₅ = write_base virt_to_phys h₄ (add64 pamu_offset 32) h.omt in
      let h₆ = write_base virt_to_phys h₅ (add64 pamu_offset 40) (add64 h.omt omt_size) in
      let bypass = 0x80000000 / 2 ^ (sub64 pamu_offset h.reg_space_vaddr / 2 ^ 12) in
      write h₆ h.bypenr_vaddr (bit_and (h₆.regs h.bypenr_vaddr) (2 ^ 32 - 1 - bypass))

  -- The loop over the PAMUs, of which `n` are left from offset `off` on.
  unfoldable pub init_loop : ℕ → Hw → ℕ → Hw
  init_loop zero h pamu_offset = h
  init_loop (suc n) h pamu_offset = init_loop n (init_one h pamu_offset) (add64 pamu_offset 0x1000)

  unfoldable pub hw_init : Hw → ℕ → ℕ → ℕ → ℕ → ℕ → Bool → Result (Unit {0}) × Hw
  hw_init h reg_vaddr reg_size bypenr tbl_vbase tbl_size hw_ready =
      let h₁ = place_tables h reg_vaddr reg_size bypenr tbl_vbase in
      if ltb (add64 tbl_vbase tbl_size) (add64 h₁.omt omt_size)
      then (err range, h₁)
      else if tbl_vbase == 0
      then (err invalid, h₁)
      else if ltb (add64 reg_vaddr reg_size) reg_vaddr
      then (err range, h₁)
      else (let mwce = bit_and (h.regs (add64 reg_vaddr pamu_pc3) / 2 ^ 21) 0xf in
          let h₂ = record h₁ { max_subwindow_count = u32 (2 ^ (1 + mwce)) } in
          (ok tt, if hw_ready then h₂ else init_loop ((reg_size + 0xfff) / 0x1000) h₂ reg_vaddr))

-- What `enable_interrupts` collects over the loop: `pics_val` and `ecc_val`.
unfoldable pub enable_one : ℕ → ℕ → Regs → ℕ → ℕ → ℕ → Regs
enable_one ints threshold r pamu_offset pics_val ecc_val =
    let r₁ =
      if bit_and ints 2 == 0
      then r
      else out32 r (add64 pamu_offset pamu_eectl) (threshold * 2 ^ 16) in
    let r₂ = out32 r₁ (add64 pamu_offset pamu_pics) pics_val in
    let r₃ = out32 r₂ (add64 pamu_offset pamu_eeinten) ecc_val in
    let r₄ = out32 r₃ (add64 pamu_offset pamu_eedis) (bit_and (2 ^ 32 - 1 - ecc_val) 0xc) in
    out32 r₄ (add64 pamu_offset pamu_pc) (pamu_pc_pe + pamu_pc_oce + 0x10 + 0x1)

-- `if (ints & bit) val |= flag;`
abbrev pub flag_if : ℕ → ℕ → ℕ → ℕ → ℕ
flag_if ints bit flag val = if bit_and ints bit == 0 then val else bit_or val flag

unfoldable pub enable_loop : ℕ → ℕ → ℕ → Regs → ℕ → ℕ → ℕ → Regs
enable_loop zero ints threshold r pamu_offset pics_val ecc_val = r
enable_loop (suc n) ints threshold r pamu_offset pics_val ecc_val =
    let pics = flag_if ints 1 1 (flag_if ints 8 4 pics_val) in
    let ecc = flag_if ints 4 8 (flag_if ints 2 4 ecc_val) in
    enable_loop n ints threshold (enable_one ints threshold r pamu_offset pics ecc)
      (add64 pamu_offset 0x1000) pics ecc

unfoldable pub enable_interrupts : Hw → ℕ → ℕ → ℕ → Hw
enable_interrupts h reg_vaddr ints threshold = record h {
  regs = enable_loop ((h.reg_space_size + 0xfff) / 0x1000) ints threshold h.regs reg_vaddr 0 0;
}
