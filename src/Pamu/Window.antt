-- ===== src/Pamu/Window.antt =====
-- What the hardware reads from an entry that `pamu_config_ppaace` has filled in.
use native.Mathlib.Nat.{pow-le-pow_right, mod_self, mod-add-div'}
use libos.Prelude.{
  ℕ, ◌+◌, ◌-◌, ◌*◌, ◌/◌, ◌%◌, ◌^◌, ◌<◌, ◌≤◌, ◌≡◌, ◌≢◌, ◌⊎◌, refl, ap, ap₂, ◌∙◌, arith, true, false,
  ltb, le→ltb, lt→leb, if◌then◌else◌, some, bit_and,
}
use libos.Prelude.Bits.{bit_and_mask, pow-multiple, mod_unique}
use libos.Prelude.Words.{sub64}
use libos.Prelude.Fields.{get_bf}
use libos.Errors.{ok}
use libos.Pamu.{
  Paace, Pamu, ppaace_af_wbal, ppaace_af_wse, paace_af_v, paace_number_entries, ome_number_entries,
  map_addrspace_size_to_wse, setup_default_xfer_to_host_ppaace, translate, permit, get_ppaace,
}
use libos.Pamu.Config.{
  set_primary, bad_size, set_window, set_omi, set_stash, set_snoop, set_target, config_ppaace,
}
use libos.Pamu.Entry.{
  IsEntry, window_size, window_base, real_page, permissions, valid_bit, window_words, permit_words,
  page_words, map_addrspace_size_to_wse-pow,
}

-- A window of `2 ^ k` bytes at a multiple of its size, in a 64-bit address space.
abbrev pub IsWindow : ℕ → ℕ → Type 0
IsWindow k win_addr = (12 ≤ k) × (k < 64) × (win_addr % 2 ^ k ≡ 0) × (win_addr < 2 ^ 64)

pow_bounds : (k : ℕ) → 12 ≤ k → k < 64 → (2 ^ 12 ≤ 2 ^ k) × (2 ^ k ≤ 2 ^ 63)
pow_bounds k lo hi = (
  pow-le-pow_right {n = 2} (omega arith) {i = 12} {j = k} lo,
  pow-le-pow_right {n = 2} (omega arith) {i = k} {j = 63} (omega arith),
)

pub aligned-pow : (k a : ℕ) → 12 ≤ k → k < 64 → bit_and a (sub64 (2 ^ k) 1) ≡ a % 2 ^ k
aligned-pow k a lo hi =
    let bounds = pow_bounds k lo hi in
    ap (λ (t : ℕ). bit_and a t) {x = sub64 (2 ^ k) 1} {y = 2 ^ k - 1} (omega arith)
    ∙ bit_and_mask k a

pub bad_size-pow : (k : ℕ) → 12 ≤ k → k < 64 → bad_size (2 ^ k) ≡ false
bad_size-pow k lo hi =
    let bounds = pow_bounds k lo hi in
    rw (aligned-pow k (2 ^ k) lo hi ∙ mod_self (2 ^ k), le→ltb (2 ^ k) 4096 (omega arith)) refl

-- An address aligned to a window is aligned to a page.
page_multiple : (k a : ℕ) → 12 ≤ k → a % 2 ^ k ≡ 0 → a % 2 ^ 12 ≡ 0
page_multiple k a lo e =
    let (c, q) = pow-multiple 12 (k - 12) in
    let whole : a % 2 ^ k + a / 2 ^ k * 2 ^ k ≡ a = mod-add-div' a (2 ^ k) in
    let size : 2 ^ k ≡ c * 2 ^ 12 = ap (λ (t : ℕ). 2 ^ t) {y = 12 + (k - 12)} (omega arith) ∙ q in
    mod_unique a (a / 2 ^ k * c) 0 (2 ^ 12) (omega (arith, ap (λ (t : ℕ). a / 2 ^ k * t) size))
      (omega arith)

-- Operation mapping, stash and snoop id as `config_ppaace` sets them.
abbrev pub set_ids : Paace → ℕ → ℕ → ℕ → Paace
set_ids e omi snoopid stashid =
    set_snoop (set_stash (if ltb omi ome_number_entries then set_omi e omi else e) stashid) snoopid

-- They touch neither the window nor the translation.
set_ids_lem :
    (e : Paace) (omi snoopid stashid : ℕ)
    → ((set_ids e omi snoopid stashid).addr_bitfields ≡ e.addr_bitfields)
      × ((set_ids e omi snoopid stashid).win_bitfields ≡ e.win_bitfields)
      × ((set_ids e omi snoopid stashid).wbah ≡ e.wbah)
set_ids_lem e omi snoopid stashid = (ground arith, ground arith, ground arith)

pub get_ppaace_lem :
    (p : Pamu) (liodn : ℕ)
    → p.has_tables ≡ true
    → liodn < paace_number_entries
    → get_ppaace p liodn ≡ some (p.ppaact liodn)
unfolding get_ppaace
get_ppaace_lem p liodn ready listed = rw (ready, lt→leb liodn paace_number_entries listed) refl

-- A call of `config_ppaace` that reaches the last part.
module _ (p : Pamu) (liodn win_addr k omi snoopid stashid : ℕ) (ready : p.has_tables ≡ true)
    (listed : liodn < paace_number_entries) (window : IsWindow k win_addr)
    (fresh : get_bf (p.ppaact liodn).addr_bitfields ppaace_af_wse ≡ 0) where
  config_ppaace_lem :
      (rpn subwin_cnt : ℕ)
      → (omi < ome_number_entries) ⊎ (omi ≡ 2 ^ 32 - 1)
      → config_ppaace p liodn win_addr (2 ^ k) omi rpn snoopid stashid subwin_cnt
        ≡ set_target p liodn
            (set_ids (set_window (p.ppaact liodn) win_addr (2 ^ k)) omi snoopid stashid)
            rpn
            subwin_cnt
  unfolding config_ppaace
  config_ppaace_lem rpn subwin_cnt mapping =
      rw
        (
          bad_size-pow k window.0 window.1,
          aligned-pow k win_addr window.0 window.1 ∙ window.2,
          get_ppaace_lem p liodn ready listed,
          fresh,
        )
        (ground arith)

pub set_window_lem :
    (e : Paace) (win_addr k : ℕ)
    → IsEntry e
    → IsWindow k win_addr
    → (window_size (set_window e win_addr (2 ^ k)) ≡ 2 ^ k)
      × (window_base (set_window e win_addr (2 ^ k)) ≡ win_addr)
      × (valid_bit (set_window e win_addr (2 ^ k)) ≡ valid_bit e)
      × (get_bf (set_window e win_addr (2 ^ k)).addr_bitfields ppaace_af_wse ≢ 0)
      × ((set_window e win_addr (2 ^ k)).addr_bitfields < 2 ^ 32)
      × ((set_window e win_addr (2 ^ k)).win_bitfields < 2 ^ 32)
unfolding set_window setup_default_xfer_to_host_ppaace
set_window_lem e win_addr k v (lo, hi, aligned, word) =
    let code : map_addrspace_size_to_wse (2 ^ k) ≡ k - 1 =
      ap (λ t. map_addrspace_size_to_wse (2 ^ t)) {x = k} {y = k - 12 + 12} (omega arith)
      ∙ map_addrspace_size_to_wse-pow (k - 12) (omega arith)
      ∙ omega arith in
    let (size, base, valid, bound) =
      window_words e.addr_bitfields (map_addrspace_size_to_wse (2 ^ k)) (win_addr / 2 ^ 12)
        v.addr_word in
    (
      ap (λ (t : ℕ). 2 ^ (t + 1)) (size ∙ omega (arith, code))
          ∙ ap (λ (t : ℕ). 2 ^ t) {x = k - 1 + 1} {y = k} (omega arith),
      omega (arith, page_multiple k win_addr lo aligned, base),
      valid,
      λ z. absurd (omega (arith, size, code)),
      bound,
      v.win_word,
    )

-- A free entry that is given a window without subwindows: the hardware reads that window, the real page
-- and all permissions from it, the entry stays as valid as it was, and no other entry changes.
pub config_ppaace-reads :
    (p : Pamu) (liodn win_addr k omi rpn snoopid stashid : ℕ)
    → p.has_tables ≡ true
    → liodn < paace_number_entries
    → IsEntry (p.ppaact liodn)
    → get_bf (p.ppaact liodn).addr_bitfields ppaace_af_wse ≡ 0
    → IsWindow k win_addr
    → (omi < ome_number_entries) ⊎ (omi ≡ 2 ^ 32 - 1)
    → rpn < 2 ^ 52
    → (e : Paace) × (config_ppaace p liodn win_addr (2 ^ k) omi rpn snoopid stashid 0
        ≡ (ok tt, set_primary p liodn e))
      × (window_base e ≡ win_addr)
      × (window_size e ≡ 2 ^ k)
      × (real_page e ≡ rpn)
      × (permissions e ≡ 3)
      × (valid_bit e ≡ valid_bit (p.ppaact liodn))
unfolding set_target
config_ppaace-reads p liodn win_addr k omi rpn snoopid stashid ready listed v fresh window mapping
      small =
    let e₀ : Paace = set_window (p.ppaact liodn) win_addr (2 ^ k) in
    let e₁ : Paace = set_ids e₀ omi snoopid stashid in
    let (size, base, valid, set, addr, win) = set_window_lem (p.ppaact liodn) win_addr k v window in
    let (same_addr, same_win, same_wbah) = set_ids_lem e₀ omi snoopid stashid in
    let (ap_set, ap_wse, ap_wbal, ap_v, ap_word) =
      permit_words e₁.addr_bitfields 3 (omega (arith, same_addr, addr)) in
    (
      permit (translate e₁ rpn) 3,
      config_ppaace_lem p liodn win_addr k omi snoopid stashid ready listed window fresh rpn 0
          mapping,
      ap₂ (λ (a b : ℕ). a * 2 ^ 32 + b * 2 ^ 12) same_wbah
            (ap_wbal ∙ ap (λ a. get_bf a ppaace_af_wbal) same_addr)
          ∙ base,
      ap (λ (t : ℕ). 2 ^ (t + 1)) (ap_wse ∙ ap (λ a. get_bf a ppaace_af_wse) same_addr) ∙ size,
      page_words e₁.win_bitfields rpn (omega (arith, same_win, win)) small,
      ap_set,
      ap_v ∙ ap (λ a. get_bf a paace_af_v) same_addr ∙ valid,
    )
