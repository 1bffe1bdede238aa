-- ===== src/Pamu/Access.antt =====
-- Switching entries on and off, moving their target, and an entry that is left half configured.
use libos.Prelude.{
  ℕ, ◌+◌, ◌*◌, ◌^◌, ◌<◌, ◌≡◌, ◌≢◌, inl, inr, refl, ap, ◌∙◌, arith, true, ◌==◌, ==_iff, ==_ne,
  ==_refl, bit_or, Bool-cases,
}
use libos.Prelude.Words.{u32}
use libos.Prelude.Fields.{set_bf, get_bf, set_bf_lem, get_bf_lem, bit_or_above}
use libos.Errors.{ok}
use libos.Pamu.{
  Paace, Pamu, ppaace_af_wse, paace_af_v, paace_win_twbal, paace_number_entries, validate,
}
use libos.Pamu.Config.{set_primary, enable_liodn, disable_liodn, current_rpn, retarget}
use libos.Pamu.Entry.{
  IsEntry, window_size, window_base, real_page, permissions, valid_bit, valid_words, page_words,
}
use libos.Pamu.Window.{get_ppaace_lem}

-- An entry with a window is switched on without a change of its window and its permissions, and it is
-- switched off again by `disable_liodn`.
pub enable_liodn-disable :
    (p : Pamu) (liodn : ℕ)
    → p.has_tables ≡ true
    → liodn < paace_number_entries
    → IsEntry (p.ppaact liodn)
    → get_bf (p.ppaact liodn).addr_bitfields ppaace_af_wse ≢ 0
    → (e : Paace) × (off : Paace) × (enable_liodn p liodn ≡ (ok tt, set_primary p liodn e))
      × (valid_bit e ≡ 1)
      × (window_base e ≡ window_base (p.ppaact liodn))
      × (window_size e ≡ window_size (p.ppaact liodn))
      × (permissions e ≡ permissions (p.ppaact liodn))
      × (disable_liodn (set_primary p liodn e) liodn
          ≡ (ok tt, set_primary (set_primary p liodn e) liodn off))
      × (valid_bit off ≡ 0)
unfolding enable_liodn disable_liodn
enable_liodn-disable p liodn ready listed v set =
    let e : Paace = validate (p.ppaact liodn) in
    let (on, wse, wbal, ap_same, word) = valid_words (p.ppaact liodn).addr_bitfields v.addr_word in
    (
      e,
      record e { addr_bitfields = set_bf e.addr_bitfields paace_af_v 0 },
      rw (get_ppaace_lem p liodn ready listed, ==_ne _ 0 set, enable_liodn) refl,
      on,
      ap (λ b. (p.ppaact liodn).wbah * 2 ^ 32 + b * 2 ^ 12) wbal,
      ap (λ (t : ℕ). 2 ^ (t + 1)) wse,
      ap_same,
      rw (get_ppaace_lem (set_primary p liodn e) liodn ready listed, ==_refl liodn, disable_liodn)
          refl,
      omega (
        arith,
        get_bf_lem (set_bf e.addr_bitfields paace_af_v 0) paace_af_v 1 refl,
        set_bf_lem e.addr_bitfields paace_af_v 1 0 refl (omega arith) word,
      ),
    )

-- A new target is what the hardware reads, from an entry whose page number fits 32 bits.
pub retarget-real_page :
    (e : Paace) (rpn : ℕ)
    → IsEntry e
    → e.twbah < 2 ^ 12
    → rpn < 2 ^ 52
    → real_page (retarget e rpn) ≡ rpn
unfolding retarget current_rpn
retarget-real_page e rpn v small fits =
    let low : get_bf e.win_bitfields paace_win_twbal < 2 ^ 20 =
      omega (arith, get_bf_lem e.win_bitfields paace_win_twbal 20 refl) in
    let now : bit_or (u32 (e.twbah * 2 ^ 20)) (get_bf e.win_bitfields paace_win_twbal)
        ≡ real_page e =
      ap (λ t. bit_or t (get_bf e.win_bitfields paace_win_twbal)) {y = e.twbah * 2 ^ 20}
        (omega arith)
      ∙ bit_or_above 20 e.twbah (get_bf e.win_bitfields paace_win_twbal) low in
    elim (Bool-cases (real_page e == rpn)) [
      | inl same ↦ rw (now, same) ((==_iff (real_page e) rpn).0 same)
      | inr new ↦ rw (now, new) (page_words e.win_bitfields rpn v.win_word fits)
    ]
