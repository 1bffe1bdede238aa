-- ===== src/Pamu/Layout.antt =====
-- Where `pamu_hw_init` lays the tables.
use native.Mathlib.Decide.{dec_lt}
use libos.Prelude.{
  ℕ, zero, suc, ◌+◌, ◌/◌, bit_and, ◌<◌, ◌≤◌, ◌^◌, ◌≡◌, ◌≢◌, ◌⊎◌, inl, inr, refl, arith, Bool, true,
  false, lt→ltb, le→ltb, ==_ne, if◌then◌else◌,
}
use libos.Prelude.Words.{add64, u32}
use libos.Errors.{ok, err, range}
use libos.Pamu.Hw.{
  Hw, init_one, init_loop, hw_init, ppaact_size, spaact_size, omt_size, align_table, place_tables,
  pamu_pc3,
}

-- The bytes that the tables need, with the gaps between them.
abbrev pub tables_size : ℕ
tables_size = align_table (ppaact_size + 1) + align_table (spaact_size + 1) + omt_size

-- The tables lie in `[base, limit)` one behind the other.
pub record AreLaid (base limit : ℕ) (h : Hw) : Type 0 where
  pub primary_first : h.ppaact ≡ base
  pub primary_below : h.ppaact + ppaact_size ≤ h.spaact
  pub secondary_below : h.spaact + spaact_size ≤ h.omt
  pub mapping_below : h.omt + omt_size ≤ limit

module _ (virt_to_phys : ℕ → ℕ) where
  init_loop-AreLaid :
      (n : ℕ) (base limit pamu_offset : ℕ) (h : Hw)
      → AreLaid base limit h
      → AreLaid base limit (init_loop virt_to_phys n h pamu_offset)
  unfolding init_loop init_one
  init_loop-AreLaid zero base limit pamu_offset h laid = laid
  init_loop-AreLaid (suc n) base limit pamu_offset h laid =
      init_loop-AreLaid n base limit (add64 pamu_offset 0x1000)
        (init_one virt_to_phys h pamu_offset) (kept h laid pamu_offset)
    where
      kept :
          (h : Hw) → AreLaid base limit h → (o : ℕ) → AreLaid base limit (init_one virt_to_phys h o)
      kept h laid o = record {
        primary_first = laid.primary_first;
        primary_below = laid.primary_below;
        secondary_below = laid.secondary_below;
        mapping_below = laid.mapping_below;
      }

  init_if-AreLaid :
      (ready : Bool) (n : ℕ) (base limit pamu_offset : ℕ) (h : Hw)
      → AreLaid base limit h
      → AreLaid base limit (if ready then h else init_loop virt_to_phys n h pamu_offset)
  init_if-AreLaid true n base limit pamu_offset h laid = laid
  init_if-AreLaid false n base limit pamu_offset h laid =
      init_loop-AreLaid n base limit pamu_offset h laid

  -- For addresses that do not wrap, `hw_init` succeeds exactly when the space has room for the tables, and
  -- then the three tables lie in it without overlap; else it returns `ERR_RANGE`.
  pub hw_init-AreLaid :
      (h : Hw) (reg_vaddr reg_size bypenr tbl_vbase tbl_size : ℕ) (hw_ready : Bool)
      → tbl_vbase ≢ 0
      → reg_vaddr + reg_size < 2 ^ 64
      → tbl_vbase + tbl_size + tables_size < 2 ^ 64
      → ((tables_size ≤ tbl_size)
          × ((hw_init virt_to_phys h reg_vaddr reg_size bypenr tbl_vbase tbl_size hw_ready).0
              ≡ ok tt)
          × AreLaid tbl_vbase
              (tbl_vbase + tbl_size)
              (hw_init virt_to_phys h reg_vaddr reg_size bypenr tbl_vbase tbl_size hw_ready).1)
        ⊎ ((tbl_size < tables_size)
            × ((hw_init virt_to_phys h reg_vaddr reg_size bypenr tbl_vbase tbl_size hw_ready).0
                ≡ err range))
  unfolding hw_init
  hw_init-AreLaid h reg_vaddr reg_size bypenr tbl_vbase tbl_size hw_ready there regs_fit
        tables_fit =
      let limit : ℕ = add64 tbl_vbase tbl_size in
      let last : ℕ =
        add64
          (add64 (add64 tbl_vbase (align_table (ppaact_size + 1))) (align_table (spaact_size + 1)))
          omt_size in
      elim (dec_lt tbl_size tables_size) [
        | yes few ↦ inr (few, rw (lt→ltb limit last (omega arith)) refl)
        | no many ↦ inl (
          omega arith,
          rw
              (
                le→ltb limit last (omega arith),
                ==_ne tbl_vbase 0 there,
                le→ltb (add64 reg_vaddr reg_size) reg_vaddr (omega arith),
              )
              refl,
          rw
              (
                le→ltb limit last (omega arith),
                ==_ne tbl_vbase 0 there,
                le→ltb (add64 reg_vaddr reg_size) reg_vaddr (omega arith),
              )
              (init_if-AreLaid hw_ready ((reg_size + 0xfff) / 0x1000) tbl_vbase
                (tbl_vbase + tbl_size) reg_vaddr
                (record (place_tables h reg_vaddr reg_size bypenr tbl_vbase) {
                  max_subwindow_count =
                      u32 (2 ^ (1 + bit_and (h.regs (add64 reg_vaddr pamu_pc3) / 2 ^ 21) 0xf));
                })
                (record {
                  primary_first = refl;
                  primary_below = omega arith;
                  secondary_below = omega arith;
                  mapping_below = omega arith;
                })),
        )
      ]
