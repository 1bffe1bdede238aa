-- ===== src/Pamu/Entry.antt =====
-- What the words of a table entry say, and what the steps of the configuration do to that.
use native.Mathlib.Nat.{two-pow-succ}
use libos.Prelude.{ℕ, zero, suc, ◌+◌, ◌*◌, ◌/◌, ◌%◌, ◌^◌, ◌<◌, ◌≡◌, refl, ap, ◌∙◌, arith, bit_or}
use libos.Prelude.Words.{u32, sub32, add32}
use libos.Prelude.Fields.{
  set_bf, get_bf, set_bf_lem, get_bf_lem, count_lsb_zeroes, count_lsb_zeroes-pow, bit_or-one,
}
use libos.Pamu.{
  Paace, ppaace_af_wbal, ppaace_af_wse, paace_af_ap, paace_af_pt, paace_af_v, paace_win_twbal,
  map_addrspace_size_to_wse,
}

-- The hardware's reading: the window has `2 ^ (WSE + 1)` bytes, and addresses are joined from two words.
abbrev pub window_size : Paace → ℕ
window_size e = 2 ^ (get_bf e.addr_bitfields ppaace_af_wse + 1)

abbrev pub window_base : Paace → ℕ
window_base e = e.wbah * 2 ^ 32 + get_bf e.addr_bitfields ppaace_af_wbal * 2 ^ 12

abbrev pub real_page : Paace → ℕ
real_page e = e.twbah * 2 ^ 20 + get_bf e.win_bitfields paace_win_twbal

abbrev pub permissions : Paace → ℕ
permissions e = get_bf e.addr_bitfields paace_af_ap

abbrev pub valid_bit : Paace → ℕ
valid_bit e = get_bf e.addr_bitfields paace_af_v

-- The words have 32 bits.
pub record IsEntry (e : Paace) : Type 0 where
  pub addr_word : e.addr_bitfields < 2 ^ 32
  pub impl_word : e.impl_attr < 2 ^ 32
  pub win_word : e.win_bitfields < 2 ^ 32

pow-page : (k : ℕ) → 2 ^ (k + 12) ≡ 2 ^ k * 2 ^ 12
pow-page zero = refl
pow-page (suc k) = omega (
  arith,
  two-pow-succ k,
  two-pow-succ (k + 12),
  pow-page k,
  ap (λ (t : ℕ). 2 ^ t) {x = suc k + 12} {y = suc (k + 12)} (omega arith),
)

-- The size `2 ^ k` of a window becomes the code `k - 1`.
pub map_addrspace_size_to_wse-pow :
    (k : ℕ) → k < 52 → map_addrspace_size_to_wse (2 ^ (k + 12)) ≡ k + 11
unfolding map_addrspace_size_to_wse
map_addrspace_size_to_wse-pow k h =
    let page : 2 ^ (k + 12) / 2 ^ 12 ≡ 2 ^ k = omega (arith, pow-page k) in
    ap (λ t. sub32 (add32 (count_lsb_zeroes 64 t) 12) 1) page
    ∙ ap (λ t. sub32 (add32 t 12) 1) (count_lsb_zeroes-pow 64 k (omega arith))
    ∙ omega arith

-- The other fields of the word, whatever is written to one of them.
pub window_words :
    (a size base : ℕ)
    → a < 2 ^ 32
    → (get_bf
          (set_bf (set_bf (set_bf a ppaace_af_wse size) paace_af_pt 0) ppaace_af_wbal base)
          ppaace_af_wse
        ≡ size % 64)
      × (get_bf
            (set_bf (set_bf (set_bf a ppaace_af_wse size) paace_af_pt 0) ppaace_af_wbal base)
            ppaace_af_wbal
          ≡ base % 2 ^ 20)
      × (get_bf
            (set_bf (set_bf (set_bf a ppaace_af_wse size) paace_af_pt 0) ppaace_af_wbal base)
            paace_af_v
          ≡ get_bf a paace_af_v)
      × (set_bf (set_bf (set_bf a ppaace_af_wse size) paace_af_pt 0) ppaace_af_wbal base < 2 ^ 32)
window_words a size base h =
    let e₁ = set_bf_lem a ppaace_af_wse 6 size refl (omega arith) h in
    let l₁ : set_bf a ppaace_af_wse size < 2 ^ 32 = omega arith in
    let e₂ = set_bf_lem (set_bf a ppaace_af_wse size) paace_af_pt 1 0 refl (omega arith) l₁ in
    let l₂ : set_bf (set_bf a ppaace_af_wse size) paace_af_pt 0 < 2 ^ 32 = omega arith in
    let e₃ =
      set_bf_lem (set_bf (set_bf a ppaace_af_wse size) paace_af_pt 0) ppaace_af_wbal 20 base refl
        (omega arith) l₂ in
    let last : ℕ =
      set_bf (set_bf (set_bf a ppaace_af_wse size) paace_af_pt 0) ppaace_af_wbal base in
    (
      omega (arith, get_bf_lem last ppaace_af_wse 6 refl),
      omega (arith, get_bf_lem last ppaace_af_wbal 20 refl),
      omega (arith, get_bf_lem last paace_af_v 1 refl, get_bf_lem a paace_af_v 1 refl),
      omega arith,
    )

-- The permissions are a field of their own.
pub permit_words :
    (a x : ℕ)
    → a < 2 ^ 32
    → (get_bf (set_bf a paace_af_ap x) paace_af_ap ≡ x % 4)
      × (get_bf (set_bf a paace_af_ap x) ppaace_af_wse ≡ get_bf a ppaace_af_wse)
      × (get_bf (set_bf a paace_af_ap x) ppaace_af_wbal ≡ get_bf a ppaace_af_wbal)
      × (get_bf (set_bf a paace_af_ap x) paace_af_v ≡ get_bf a paace_af_v)
      × (set_bf a paace_af_ap x < 2 ^ 32)
permit_words a x h =
    let e = set_bf_lem a paace_af_ap 2 x refl (omega arith) h in
    let b : ℕ = set_bf a paace_af_ap x in
    (
      omega (arith, get_bf_lem b paace_af_ap 2 refl),
      omega (arith, get_bf_lem b ppaace_af_wse 6 refl, get_bf_lem a ppaace_af_wse 6 refl),
      omega (arith, get_bf_lem b ppaace_af_wbal 20 refl, get_bf_lem a ppaace_af_wbal 20 refl),
      omega (arith, get_bf_lem b paace_af_v 1 refl, get_bf_lem a paace_af_v 1 refl),
      omega arith,
    )

-- `|= PAACE_V_VALID`.
pub valid_words :
    (a : ℕ)
    → a < 2 ^ 32
    → (get_bf (bit_or a 1) paace_af_v ≡ 1)
      × (get_bf (bit_or a 1) ppaace_af_wse ≡ get_bf a ppaace_af_wse)
      × (get_bf (bit_or a 1) ppaace_af_wbal ≡ get_bf a ppaace_af_wbal)
      × (get_bf (bit_or a 1) paace_af_ap ≡ get_bf a paace_af_ap)
      × (bit_or a 1 < 2 ^ 32)
valid_words a h =
    let e : bit_or a 1 ≡ a / 2 * 2 + 1 = bit_or-one a in
    (
      omega (arith, get_bf_lem (bit_or a 1) paace_af_v 1 refl),
      omega
          (arith, get_bf_lem (bit_or a 1) ppaace_af_wse 6 refl, get_bf_lem a ppaace_af_wse 6 refl),
      omega (
        arith,
        get_bf_lem (bit_or a 1) ppaace_af_wbal 20 refl,
        get_bf_lem a ppaace_af_wbal 20 refl,
      ),
      omega (arith, get_bf_lem (bit_or a 1) paace_af_ap 2 refl, get_bf_lem a paace_af_ap 2 refl),
      omega arith,
    )

-- The page number is read back from its two words.
pub page_words :
    (v rpn : ℕ)
    → v < 2 ^ 32
    → rpn < 2 ^ 52
    → u32 (rpn / 2 ^ 20) * 2 ^ 20 + get_bf (set_bf v paace_win_twbal rpn) paace_win_twbal ≡ rpn
page_words v rpn h small = omega (
  arith,
  get_bf_lem (set_bf v paace_win_twbal rpn) paace_win_twbal 20 refl,
  set_bf_lem v paace_win_twbal 20 rpn refl (omega arith) h,
)
