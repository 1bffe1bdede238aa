-- ===== src/Pamu/Config.antt =====
-- The operations of lib/pamu.c on the tables.
use libos.Prelude.{
  ℕ, ◌-◌, ◌*◌, ◌/◌, ◌%◌, ◌^◌, Bool, Option, some, none, ltb, leb, not, ◌==◌, ◌||◌, if◌then◌else◌,
  bit_and, bit_or,
}
use libos.Prelude.Words.{u32, sub64}
use libos.Prelude.Fields.{set_bf, get_bf}
use libos.Errors.{Result, ok, err, bad_tree, not_found, busy, invalid, no_trans}
use libos.Pamu.{
  Paace, Pamu, ome_number_entries, spaace_number_entries, ppaace_af_wbal, ppaace_af_wse,
  ppaace_af_mw, spaace_af_liodn, paace_af_v, paace_ia_cid, paace_ia_wce, paace_ia_otm,
  paace_win_twbal, paace_win_swse, put, map_addrspace_size_to_wse, map_subwindow_cnt_to_wce,
  get_ppaace, get_spaace, get_fspi_and_allocate, setup_default_xfer_to_host_ppaace,
  setup_default_xfer_to_host_spaace, validate, translate, permit,
}

abbrev pub Reply : Type 0
Reply = Result (Unit {0}) × Pamu

abbrev pub set_primary : Pamu → ℕ → Paace → Pamu
set_primary p liodn e = record p { ppaact = put p.ppaact liodn e }

unfoldable pub enable_liodn : Pamu → ℕ → Reply
enable_liodn p liodn = elim (get_ppaace p liodn) [
  | none ↦ (err not_found, p)
  | some e ↦
      if get_bf e.addr_bitfields ppaace_af_wse == 0
      then (err invalid, p)
      else (ok tt, set_primary p liodn (validate e))
]

unfoldable pub disable_liodn : Pamu → ℕ → Reply
disable_liodn p liodn = elim (get_ppaace p liodn) [
  | none ↦ (err not_found, p)
  | some e ↦ (
    ok tt,
    set_primary p liodn (record e { addr_bitfields = set_bf e.addr_bitfields paace_af_v 0 }),
  )
]

-- The tests of a window's size: a power of two of a page at least.
abbrev pub bad_size : ℕ → Bool
bad_size size = not (bit_and size (sub64 size 1) == 0) || ltb size 4096

-- `pamu_config_ppaace` up to the window's base.
unfoldable pub set_window : Paace → ℕ → ℕ → Paace
set_window e win_addr win_size =
    let sized = record e {
      addr_bitfields = set_bf e.addr_bitfields ppaace_af_wse (map_addrspace_size_to_wse win_size);
    } in
    let host = setup_default_xfer_to_host_ppaace sized in
    record host {
      wbah = u32 (win_addr / 2 ^ 32);
      addr_bitfields = set_bf host.addr_bitfields ppaace_af_wbal (win_addr / 2 ^ 12);
    }

-- The operation mapping, if there is one.
abbrev pub set_omi : Paace → ℕ → Paace
set_omi e omi = record e { impl_attr = set_bf e.impl_attr paace_ia_otm 2; omi = omi % 2 ^ 16 }

-- Stash and snoop id, where `~id != 0`.
abbrev pub set_stash : Paace → ℕ → Paace
set_stash e stashid =
    if stashid == 2 ^ 32 - 1
    then e
    else record e { impl_attr = set_bf e.impl_attr paace_ia_cid stashid }

abbrev pub set_snoop : Paace → ℕ → Paace
set_snoop e snoopid = if snoopid == 2 ^ 32 - 1 then e else record e { snpid = snoopid % 2 ^ 8 }

-- `pamu_config_ppaace` from `if (subwin_cnt)` on.
unfoldable pub set_target : Pamu → ℕ → Paace → ℕ → ℕ → Reply
set_target p liodn e rpn subwin_cnt =
    if subwin_cnt == 0
    then (ok tt, set_primary p liodn (permit (translate e rpn) 3))
    else elim (get_fspi_and_allocate p (subwin_cnt - 1)) [
      | none ↦ (err invalid, set_primary p liodn e)
      | some (fspi, p') ↦ (
        ok tt,
        set_primary p' liodn (record e {
          impl_attr = set_bf e.impl_attr paace_ia_wce (map_subwindow_cnt_to_wce subwin_cnt);
          addr_bitfields = set_bf e.addr_bitfields ppaace_af_mw 1;
          fspi = u32 fspi;
        }),
      )
    ]

unfoldable pub config_ppaace : Pamu → ℕ → ℕ → ℕ → ℕ → ℕ → ℕ → ℕ → ℕ → Reply
config_ppaace p liodn win_addr win_size omi rpn snoopid stashid subwin_cnt =
    if bad_size win_size
    then (err bad_tree, p)
    else if not (bit_and win_addr (sub64 win_size 1) == 0)
    then (err bad_tree, p)
    else elim (get_ppaace p liodn) [
      | none ↦ (err not_found, p)
      | some e ↦
          if not (get_bf e.addr_bitfields ppaace_af_wse == 0)
          then (err busy, p)
          else if ltb omi ome_number_entries
          then set_target p liodn
              (set_snoop (set_stash (set_omi (set_window e win_addr win_size) omi) stashid) snoopid)
              rpn subwin_cnt
          else if not (omi == 2 ^ 32 - 1)
          then (err bad_tree, set_primary p liodn (set_window e win_addr win_size))
          else set_target p liodn
              (set_snoop (set_stash (set_window e win_addr win_size) stashid) snoopid) rpn
              subwin_cnt
    ]

-- Where `pamu_config_spaace` writes: in the primary or the secondary table.
abbrev pub store_entry : Pamu → ℕ → ℕ → ℕ → Paace → Pamu
store_entry p liodn subwin_addr index e =
    if subwin_addr == 0 then set_primary p liodn e else record p { spaact = put p.spaact index e }

-- `pamu_config_spaace` behind its tests.
unfoldable pub set_subwindow : Paace → ℕ → ℕ → ℕ → ℕ → ℕ → Paace
set_subwindow e subwin_size omi rpn snoopid stashid =
    let sized = record e {
      win_bitfields = set_bf e.win_bitfields paace_win_swse (map_addrspace_size_to_wse subwin_size);
    } in
    let open_entry = set_snoop (permit (translate sized rpn) 3) snoopid in
    validate (if omi == 2 ^ 32 - 1 then open_entry else set_stash (set_omi open_entry omi) stashid)

-- The tests, with the entry found.
unfoldable pub config_found : Pamu → ℕ → ℕ → ℕ → Paace → ℕ → ℕ → ℕ → ℕ → ℕ → Reply
config_found p liodn subwin_addr index e subwin_size omi rpn snoopid stashid =
    if bad_size subwin_size
    then (err bad_tree, store_entry p liodn subwin_addr index e)
    else if rpn == 2 ^ 64 - 1
    then (err no_trans, store_entry p liodn subwin_addr index e)
    else (
      ok tt,
      store_entry p liodn subwin_addr index (set_subwindow e subwin_size omi rpn snoopid stashid),
    )

-- `none` is a fault: the secondary table is left.
unfoldable pub config_spaace : Pamu → ℕ → ℕ → ℕ → ℕ → ℕ → ℕ → ℕ → ℕ → Option Reply
config_spaace p liodn subwin_cnt subwin_addr subwin_size omi rpn snoopid stashid =
    if subwin_cnt == 0 then some (ok tt, p) else elim (get_ppaace p liodn) [
      | none ↦ some (err not_found, p)
      | some e ↦
          let index = get_spaace e.fspi (subwin_addr - 1) in
          if subwin_addr == 0
          then some (config_found p liodn subwin_addr 0 e subwin_size omi rpn snoopid stashid)
          else if leb spaace_number_entries index
          then none
          else (let host = setup_default_xfer_to_host_spaace (p.spaact index) in
              some (
                config_found p liodn subwin_addr index
                  (record host {
                    addr_bitfields = set_bf host.addr_bitfields spaace_af_liodn liodn;
                  })
                  subwin_size omi rpn snoopid stashid))
    ]

-- `twbah << 20 | get_bf(win_bitfields, PAACE_WIN_TWBAL)`, in 32 bits.
unfoldable pub current_rpn : Paace → ℕ
current_rpn e = bit_or (u32 (e.twbah * 2 ^ 20)) (get_bf e.win_bitfields paace_win_twbal)

-- Access is denied while the page number changes.
unfoldable pub retarget : Paace → ℕ → Paace
retarget e rpn = if current_rpn e == rpn then e else permit (translate (permit e 0) rpn) 3

unfoldable pub reconfig_liodn : Pamu → ℕ → ℕ → Reply
reconfig_liodn p liodn rpn = elim (get_ppaace p liodn) [
  | none ↦ (err not_found, p)
  | some e ↦ (ok tt, set_primary p liodn (retarget e rpn))
]

unfoldable pub reconfig_subwin : Pamu → ℕ → ℕ → ℕ → Option Reply
reconfig_subwin p liodn subwin rpn = elim (get_ppaace p liodn) [
  | none ↦ some (err not_found, p)
  | some e ↦
      let index = get_spaace e.fspi (subwin - 1) in
      if subwin == 0
      then some (ok tt, set_primary p liodn (retarget e rpn))
      else if leb spaace_number_entries index
      then none
      else some (ok tt, record p { spaact = put p.spaact index (retarget (p.spaact index) rpn) })
]
