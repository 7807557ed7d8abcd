-- ===== src/L3/Cc/Laws.antt =====
-- gsm-parser/l3_handler.c: call control never asserts, keeps all of the core but one counter, and
-- knows the direction of a call.
use srlabs.Base.{ℕ, ◌≡◌, ◌⊎◌, refl, arith, Bool, true, false, Option, none, some}
use srlabs.Base.{Mem, if◌then◌else◌, Returns, low_bits, ◌==◌, ◌∙◌, inl, inr, ◌||◌, not}
use srlabs.Session.{Ctx, set_msg_info}
use srlabs.L3.Core.{Keeps, IsHeld, core, Keeps-bind, set_msg_info-Keeps, set_msg_info-held, with_tr}
use srlabs.L3.Env.{Env}
use srlabs.L3.Cc.{
  CcType, proceeding, setup, cc_type, store_number, store_numbers, handle_cc_type, handle_cc,
  handle_ss,
}

core-store_number :
    (env : Env) (v : Option (Mem × ℕ)) (c : Ctx) → core (store_number env v c) ≡ core c
unfolding store_number
core-store_number env none c = refl
core-store_number env (some (v, len)) c = refl

module _ (env : Env) (dtap : Mem) (len : ℕ) (ul : Bool) (c : Ctx) (held : IsHeld c) where
  handle_cc_type-Keeps : (t : CcType) → Keeps c (handle_cc_type env t dtap len ul c)
  unfolding handle_cc_type set_msg_info store_numbers
  handle_cc_type-Keeps setup =
      Keeps-bind c (set_msg_info _ c) _ (set_msg_info-Keeps _ c held)
        λ c' e. core-store_number env _ _ ∙ core-store_number env _ _ ∙ ground arith
  handle_cc_type-Keeps proceeding = ground arith
  handle_cc_type-Keeps _ = ground arith

pub handle_cc-Keeps :
    (env : Env) (dtap : Mem) (len : ℕ) (ul : Bool) (c : Ctx)
    → IsHeld c
    → Keeps c (handle_cc env dtap len ul c)
unfolding handle_cc
handle_cc-Keeps env dtap len ul c held = handle_cc_type-Keeps env dtap len ul _ held _

pub handle_ss-Keeps : (dtap : Mem) (len : ℕ) (c : Ctx) → IsHeld c → Keeps c (handle_ss dtap len c)
unfolding handle_ss set_msg_info
handle_ss-Keeps dtap len c held = ground arith

tr-store_number :
    (env : Env) (v : Option (Mem × ℕ)) (c : Ctx) → (store_number env v c).s.tr ≡ c.s.tr
unfolding store_number
tr-store_number env none c = refl
tr-store_number env (some (v, len)) c = refl

tr-store_numbers :
    (env : Env) (p : Mem) (len : ℕ) (c : Ctx) → (store_numbers env p len c).s.tr ≡ c.s.tr
unfolding store_numbers
tr-store_numbers env p len c = tr-store_number env _ _ ∙ tr-store_number env _ _

-- A call setup sent by the network marks the call as mobile terminated, one sent by the mobile as
-- mobile originated, and a confirmation the other way round; each leaves the other mark alone.
pub handle_cc-direction :
    (env : Env) (dtap : Mem) (len : ℕ) (ul : Bool) (c : Ctx)
    → IsHeld c
    → (low_bits (dtap 1) 6 ≡ 0x05) ⊎ (low_bits (dtap 1) 6 ≡ 0x08)
    → let originated = if low_bits (dtap 1) 6 == 0x08 then not ul else ul in
      Returns
        (λ c'.
          (c'.s.tr.mo ≡ (originated || c.s.tr.mo))
          × (c'.s.tr.mt ≡ (not originated || c.s.tr.mt))
          × (c'.s.tr.call ≡ true))
        (handle_cc env dtap len ul c)
unfolding handle_cc handle_cc_type cc_type
handle_cc-direction env dtap len true c held (inl e) =
    rw (e, set_msg_info-held _ (with_tr _ c) held, tr-store_numbers) (refl, refl, refl)
handle_cc-direction env dtap len false c held (inl e) =
    rw (e, set_msg_info-held _ (with_tr _ c) held, tr-store_numbers) (refl, refl, refl)
handle_cc-direction env dtap len true c held (inr e) =
    rw (e, set_msg_info-held _ (with_tr _ c) held) (refl, refl, refl)
handle_cc-direction env dtap len false c held (inr e) =
    rw (e, set_msg_info-held _ (with_tr _ c) held) (refl, refl, refl)
