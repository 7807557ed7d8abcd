-- ===== src/Sms/Udh/Payload.antt =====
-- gsm-parser/sms.c: what is read behind a user data header leaves the lengths and the numbers of
-- the fragment alone.
use srlabs.Base.{ℕ, ◌≤◌, ◌≡◌, refl, inl, inr}
use srlabs.Base.{
  Bool, true, false, ◌||◌, List, [], ◌∷◌, ◌∙◌, ltb, ◌==◌, if◌then◌else◌, Bool-cases, nonzero, bit,
  low_bits, mem_of, Mem, shift, bytes,
}
use srlabs.Radio.{text}
use srlabs.Sms.Meta.{SmsMeta, append_info, dcs_none, dcs_7bit_default, dcs_ucs2, dcs_8bit_data}
use srlabs.Sms.Text.{handle_text, handle_data}
use srlabs.Sms.Ota.{
  spi1, set_counter_type, set_encryption, set_signature, set_tar, set_counter, handle_sec_cp,
  handle_sec_rp,
}
use srlabs.Sms.Udh.{user_data}

-- The number of this fragment is at most the number of all.
abbrev pub IsCounted : SmsMeta → Type 0
IsCounted sm = sm.concat_frag ≤ sm.concat_total

-- An element leaves that so, and the lengths alone.
abbrev pub Kept : SmsMeta → SmsMeta → Type 0
Kept old sm = IsCounted sm × (sm.udh_length ≡ old.udh_length) × (sm.real_length ≡ old.real_length)

Kept-if :
    (old : SmsMeta) (b : Bool) (x y : SmsMeta)
    → Kept old x
    → Kept old y
    → Kept old (if b then x else y)
Kept-if old true x y hx hy = hx
Kept-if old false x y hx hy = hy

pub Kept-trans : (old mid new : SmsMeta) → Kept old mid → Kept mid new → Kept old new
Kept-trans old mid new (ok, udh, real) (ok', udh', real') = (ok', udh' ∙ udh, real' ∙ real)

handle_data-Kept : (sm : SmsMeta) → IsCounted sm → Kept sm (handle_data sm)
unfolding handle_data
handle_data-Kept sm ok =
    elim (Bool-cases (sm.pid == 124 || sm.pid == 127 || sm.dcs == 246 || sm.dcs == 22)) [
      | inl e ↦ rw e (ok, refl, refl)
      | inr e ↦ rw e (ok, refl, refl)
    ]

handle_text-Kept :
    (decode_7bit : Mem → ℕ → List ℕ × ℕ) (p : Mem) (len : ℕ) (sm : SmsMeta)
    → IsCounted sm
    → Kept sm (handle_text decode_7bit p len sm)
unfolding handle_text handle_data
handle_text-Kept decode_7bit p len sm ok =
    let same : Kept sm sm = (ok, refl, refl) in
    let pick : (b : Bool) (x y : SmsMeta) → Kept sm x → Kept sm y → Kept sm (if b then x else y) =
      Kept-if sm in
    pick (len == 0) _ _ same (
      pick (bit 7 sm.alphabet == 1) _ _ same (
        pick (sm.alphabet == dcs_7bit_default) _ _
          (pick (nonzero (mem_of (decode_7bit p len).0 0)) _ _ same same)
          (pick (sm.alphabet == dcs_ucs2) _ _ same (
            pick (sm.alphabet == dcs_none || sm.alphabet == dcs_8bit_data) _ _
              (handle_data-Kept sm ok) same))))

set_encryption-Kept : (p : Mem) (sm : SmsMeta) → IsCounted sm → Kept sm (set_encryption p sm)
unfolding set_encryption
set_encryption-Kept p sm ok = Kept-if sm (bit 2 (spi1 p) == 1) _ _ (ok, refl, refl) (ok, refl, refl)

set_signature-Kept : (p : Mem) (sm : SmsMeta) → IsCounted sm → Kept sm (set_signature p sm)
unfolding set_signature
set_signature-Kept p sm ok =
    Kept-if sm (nonzero (low_bits (spi1 p) 2)) _ _ (ok, refl, refl) (ok, refl, refl)

set_counter-Kept : (p : Mem) (sm : SmsMeta) → IsCounted sm → Kept sm (set_counter p sm)
unfolding set_counter
set_counter-Kept p sm ok = Kept-if sm (bit 2 (spi1 p) == 0) _ _ (ok, refl, refl) (ok, refl, refl)

handle_sec_cp-Kept : (p : Mem) (sm : SmsMeta) → IsCounted sm → Kept sm (handle_sec_cp p sm)
unfolding handle_sec_cp set_counter_type set_tar
handle_sec_cp-Kept p sm ok =
    let counted = set_counter_type p sm in
    let encrypted = set_encryption p counted in
    let signed = set_signature p encrypted in
    let tar = set_tar (bytes (shift p 7) 3) signed in
    let e : Kept sm encrypted = set_encryption-Kept p counted ok in
    let g : Kept sm signed =
      Kept-trans sm encrypted signed e (set_signature-Kept p encrypted e.0) in
    Kept-trans sm tar (set_counter p tar) g (set_counter-Kept p tar g.0)

handle_sec_rp-Kept :
    (p : Mem) (len : ℕ) (sm : SmsMeta) → IsCounted sm → Kept sm (handle_sec_rp p len sm)
unfolding handle_sec_rp set_tar
handle_sec_rp-Kept p len sm ok = Kept-if sm (ltb 13 len) _ _ (ok, refl, refl) (ok, refl, refl)

-- What follows the header leaves the numbers alone.
pub user_data-Kept :
    (decode_7bit : Mem → ℕ → List ℕ × ℕ) (p : Mem) (len : ℕ) (cmd : Bool) (sm : SmsMeta)
    → IsCounted sm
    → Kept sm (user_data decode_7bit p len cmd sm)
unfolding user_data
user_data-Kept decode_7bit p len cmd sm ok =
    let ota = append_info (text "OTA " ∷ []) sm in
    Kept-if sm sm.ota _ _
      (Kept-if sm cmd _ _ (handle_sec_cp-Kept p ota ok) (handle_sec_rp-Kept p len ota ok))
      (handle_text-Kept decode_7bit p len sm ok)
