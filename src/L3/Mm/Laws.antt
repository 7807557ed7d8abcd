-- ===== src/L3/Mm/Laws.antt =====
-- gsm-parser/l3_handler.c: mobility management fails no assertion and keeps the invariant.
use srlabs.Base.{ℕ, ◌-◌, refl, arith, true, false, none}
use srlabs.Base.{
  Safe, Outcome, Mem, shift, ◌>>=◌, Returns-Safe, Bool-cases, inl, inr, ltb, low_bits,
}
use srlabs.Session.{Ctx, set_msg_info, session_reset}
use srlabs.L3.Core.{Keeps, IsHeld, Keeps-bind, Keeps-from, IsHeld-core, set_msg_info-Keeps}
use srlabs.L3.Inv.{HeldInv, Stays, Stays-bind, HeldInv-Keeps, session_reset-HeldInv}
use srlabs.L3.Env.{Env}
use srlabs.L3.Ie.{MiType, mi_imsi, mi_imei, mi_type, handle_mi}
use srlabs.L3.Ie.Laws.{
  handle_mi-Keeps, handle_mi-Keeps_from, core-handle_lai, handle_cmreq-Keeps_from,
  handle_loc_upd_acc-Keeps, handle_loc_upd_req-Keeps, handle_detach-Keeps_from,
}
use srlabs.L3.Mm.{
  MmType, imsi_detach, lu_accept, lu_request, auth_request, auth_response, identity_request,
  identity_response, tmsi_command, cm_request, mm_type, start, mark_imsi, mark_imei,
  mark_auth_request, mark_auth_response, handle_identity_request, handle_identity_response,
  checked_lu_request, handle_mm_type, handle_mm,
}

handle_identity_request-Keeps :
    (t : MiType) (c : Ctx) → IsHeld c → Keeps c (handle_identity_request t c)
unfolding handle_identity_request set_msg_info mark_imsi mark_imei
handle_identity_request-Keeps mi_imsi c held = ground arith
handle_identity_request-Keeps mi_imei c held = ground arith
handle_identity_request-Keeps _ c held = refl

handle_identity_response-Keeps :
    (t : MiType) (c : Ctx) → IsHeld c → Keeps c (handle_identity_response t c)
unfolding handle_identity_response set_msg_info mark_imsi mark_imei
handle_identity_response-Keeps mi_imsi c held = ground arith
handle_identity_response-Keeps mi_imei c held = ground arith
handle_identity_response-Keeps _ c held = refl

checked_lu_request-Keeps :
    (p : Mem) (len : ℕ) (c : Ctx) → IsHeld c → Keeps c (checked_lu_request p len c)
unfolding checked_lu_request
checked_lu_request-Keeps p len c held = elim (Bool-cases (ltb len 8)) [
  | inl e ↦ rw e (set_msg_info-Keeps _ c held)
  | inr e ↦ rw e (
      Keeps-bind c (set_msg_info _ c) _ (set_msg_info-Keeps _ c held)
        λ c' k. handle_loc_upd_req-Keeps p c' (IsHeld-core c c' k held))
]

-- A forced reset, and then a handler that keeps the core.
pub reset_then :
    (env : Env) (f : Ctx → Outcome Ctx) (c : Ctx)
    → HeldInv c
    → ((c' : Ctx) → IsHeld c' → Keeps c' (f c'))
    → Safe (Stays c) (session_reset env.cfg true c >>= f)
reset_then env f c inv keep =
    Stays-bind c (session_reset env.cfg true c) f
      (Returns-Safe (Stays c) (Stays c) _ (λ c' h. h) (session_reset-HeldInv env.cfg c inv))
      (λ c' inv'. HeldInv-Keeps c' (f c') inv' (keep c' (inv'.0)))

module _ (env : Env) (type : ℕ) (p : Mem) (len fn : ℕ) (c : Ctx) (inv : HeldInv c) where
  -- The cases that reset no session.
  mm-Keeps :
      (t : MmType)
      → Keeps c (handle_mm_type env t type p len fn c)
      → Safe (Stays c) (handle_mm_type env t type p len fn c)
  mm-Keeps t k = HeldInv-Keeps c (handle_mm_type env t type p len fn c) inv k

  handle_mm_type-Stays : (t : MmType) → Safe (Stays c) (handle_mm_type env t type p len fn c)
  unfolding handle_mm_type set_msg_info mark_auth_request mark_auth_response start
  handle_mm_type-Stays imsi_detach = reset_then env _ c inv λ c' held.
      Keeps-from c' (start c') _ refl (
        Keeps-bind (start c') (set_msg_info _ (start c')) _ (set_msg_info-Keeps _ (start c') held)
          λ d k. handle_detach-Keeps_from p d _ refl (IsHeld-core (start c') d k held))
  handle_mm_type-Stays lu_accept = mm-Keeps lu_accept (
      Keeps-bind c (set_msg_info _ c) _ (set_msg_info-Keeps _ c inv.0)
        λ c' k. handle_loc_upd_acc-Keeps p (len - 2) c' (IsHeld-core c c' k inv.0))
  handle_mm_type-Stays lu_request = reset_then env _ c inv (checked_lu_request-Keeps p len)
  handle_mm_type-Stays identity_request =
      mm-Keeps identity_request (handle_identity_request-Keeps (mi_type (p 0)) c inv.0)
  handle_mm_type-Stays identity_response = mm-Keeps identity_response (
      Keeps-bind c (handle_mi _ _ false c) _ (handle_mi-Keeps _ _ false c inv.0)
        λ c' k. handle_identity_response-Keeps (mi_type (p 1)) c' (IsHeld-core c c' k inv.0))
  handle_mm_type-Stays tmsi_command = mm-Keeps tmsi_command (
      Keeps-bind c (set_msg_info _ c) _ (set_msg_info-Keeps _ c inv.0) λ c' k.
        handle_mi-Keeps_from _ _ true c' _ (core-handle_lai p none _) (IsHeld-core c c' k inv.0))
  handle_mm_type-Stays cm_request =
      Stays-bind c (set_msg_info _ c) _ (HeldInv-Keeps c _ inv (set_msg_info-Keeps _ c inv.0))
        λ c' inv'. reset_then env _ c' inv' λ d held. handle_cmreq-Keeps_from p d _ refl held
  handle_mm_type-Stays auth_request = mm-Keeps auth_request (ground arith)
  handle_mm_type-Stays auth_response = mm-Keeps auth_response (ground arith)
  handle_mm_type-Stays t = mm-Keeps t (ground arith)

-- Mobility management fails no assertion, and the session afterwards satisfies the invariant and
-- still holds the message, whatever the message says.
pub handle_mm-Stays :
    (env : Env) (dtap : Mem) (len fn : ℕ) (c : Ctx)
    → HeldInv c
    → Safe (Stays c) (handle_mm env dtap len fn c)
unfolding handle_mm
handle_mm-Stays env dtap len fn c inv = elim (Bool-cases (ltb len 2)) [
  | inl e ↦ rw e (HeldInv-Keeps c _ inv (set_msg_info-Keeps _ c inv.0))
  | inr e ↦ rw e (
      handle_mm_type-Stays env (low_bits (dtap 1) 6) (shift dtap 2) len fn c inv
        (mm_type (low_bits (dtap 1) 6)))
]
