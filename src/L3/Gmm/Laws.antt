-- ===== src/L3/Gmm/Laws.antt =====
-- gsm-parser/l3_handler.c: the messages of the packet domain fail no assertion and keep the
-- invariant.
use srlabs.Base.{ℕ, ◌≡◌, refl, ap, arith, true, false, not}
use srlabs.Base.{Safe, Mem, Bool-cases, inl, inr, low_bits, ◌==◌}
use srlabs.Radio.{domain_ps}
use srlabs.Session.{Ctx, set_msg_info}
use srlabs.L3.Core.{
  Keeps, IsHeld, Keeps-bind, Keeps-from, IsHeld-core, set_msg_info-Keeps, with_tr, open_session,
}
use srlabs.L3.Inv.{HeldInv, Stays, Stays-bind, HeldInv-Keeps}
use srlabs.L3.Env.{Env}
use srlabs.L3.Ie.Laws.{
  handle_mi-Keeps_from, core-handle_lai, core-with_initial_seq, handle_serv_req-Keeps,
}
use srlabs.L3.Mm.Laws.{reset_then}
use srlabs.L3.Gmm.{
  GmmType, attach_accept, update_request, update_accept, service_request, auth_reject, gmm_type,
  handle_attach_acc, handle_ra_upd_acc, on_ps, handle_gmm_type, handle_gmm, SmType, activate,
  other_sm, named, handle_sm_type, handle_sm, mark_auth, mark_attach, mark_update,
}

handle_attach_acc-Keeps : (p : Mem) (c : Ctx) → IsHeld c → Keeps c (handle_attach_acc p c)
unfolding handle_attach_acc
handle_attach_acc-Keeps p c held = elim (Bool-cases (p 13 == 0x18)) [
  | inl more ↦ rw more (handle_mi-Keeps_from _ _ true c _ (core-handle_lai _ _ _) held)
  | inr less ↦ rw less (core-handle_lai _ _ _)
]

handle_ra_upd_acc-Keeps : (p : Mem) (c : Ctx) → IsHeld c → Keeps c (handle_ra_upd_acc p c)
unfolding handle_ra_upd_acc
handle_ra_upd_acc-Keeps p c held = elim (Bool-cases (p 8 == 0x18)) [
  | inl more ↦ rw more (handle_mi-Keeps_from _ _ true c _ (core-handle_lai _ _ _) held)
  | inr less ↦ rw less (core-handle_lai _ _ _)
]

on_ps-HeldInv : (c : Ctx) → HeldInv c → HeldInv (on_ps c)
unfolding on_ps
on_ps-HeldInv c (held, inv) = (
  held,
  record {
    apart = inv.apart;
    known = omega arith;
    alive = inv.alive;
    pads = inv.pads;
    counters = inv.counters;
  },
)

module _ (env : Env) (type : ℕ) (p : Mem) (c : Ctx) (inv : HeldInv c) where
  kept :
      (t : GmmType)
      → Keeps c (handle_gmm_type env t type p c)
      → Safe (Stays c) (handle_gmm_type env t type p c)
  kept t k = HeldInv-Keeps c (handle_gmm_type env t type p c) inv k

  handle_gmm_type-Stays : (t : GmmType) → Safe (Stays c) (handle_gmm_type env t type p c)
  unfolding handle_gmm_type set_msg_info mark_auth mark_attach mark_update
  handle_gmm_type-Stays attach_accept = kept attach_accept (
      Keeps-bind c (set_msg_info _ c) _ (set_msg_info-Keeps _ c inv.0)
        λ c' k. handle_attach_acc-Keeps p c' (IsHeld-core c c' k inv.0))
  handle_gmm_type-Stays update_accept = kept update_accept (
      Keeps-bind c (set_msg_info _ c) _ (set_msg_info-Keeps _ c inv.0)
        λ c' k. handle_ra_upd_acc-Keeps p c' (IsHeld-core c c' k inv.0))
  handle_gmm_type-Stays update_request =
      Stays-bind c (set_msg_info _ c) _ (HeldInv-Keeps c _ inv (set_msg_info-Keeps _ c inv.0))
        λ c' inv'. reset_then env _ c' inv' λ d held.
          core-with_initial_seq _
            (open_session (with_tr (record (d.s.tr) { raupd = true; mo = true }) d))
  handle_gmm_type-Stays service_request =
      Stays-bind c (set_msg_info _ c) _ (HeldInv-Keeps c _ inv (set_msg_info-Keeps _ c inv.0))
        λ c' inv'. reset_then env _ c' inv' λ d held.
          Keeps-from d (with_tr (record (d.s.tr) { serv_req = true }) (open_session d)) _ refl
            (handle_serv_req-Keeps p _ held)
  handle_gmm_type-Stays auth_reject =
      kept auth_reject
        (Keeps-from c (mark_auth c) _ refl (set_msg_info-Keeps _ (mark_auth c) inv.0))
  handle_gmm_type-Stays t = kept t (ground arith)

-- Mobility management of the packet domain fails no assertion, and the session afterwards
-- satisfies the invariant and still holds the message, whatever the message says.
pub handle_gmm-Stays :
    (env : Env) (dtap : Mem) (len : ℕ) (c : Ctx)
    → HeldInv c
    → Safe (Stays c) (handle_gmm env dtap len c)
unfolding handle_gmm on_ps
handle_gmm-Stays env dtap len c inv = rw not_missing (elim (Bool-cases (len == 0)) [
  | inl e ↦ rw e (inv, refl)
  | inr e ↦ elim (Bool-cases (c.s.domain == domain_ps)) [
    | inl d ↦
        rw (e, d)
          (handle_gmm_type-Stays env _ _ (on_ps c) (on_ps-HeldInv c inv)
            (gmm_type (low_bits (dtap 1) 6)))
    | inr d ↦ rw (e, d) (HeldInv-Keeps c _ inv (set_msg_info-Keeps _ c inv.0))
  ]
])
  where
    not_missing : not c.s.new_msg ≡ false
    not_missing = ap not inv.0.0

handle_sm_type-Keeps :
    (t : SmType) (type : ℕ) (c : Ctx) → IsHeld c → Keeps c (handle_sm_type t type c)
unfolding handle_sm_type set_msg_info
handle_sm_type-Keeps t type c held = elim t [
  | activate ↦ ground arith
  | other_sm ↦ ground arith
  | named x ↦ ground arith
]

-- Session management fails no assertion, and the session afterwards satisfies the invariant and
-- still holds the message, whatever the message says.
pub handle_sm-Stays :
    (dtap : Mem) (len : ℕ) (c : Ctx) → HeldInv c → Safe (Stays c) (handle_sm dtap len c)
unfolding handle_sm on_ps
handle_sm-Stays dtap len c inv = rw not_missing (elim (Bool-cases (len == 0)) [
  | inl e ↦ rw e (inv, refl)
  | inr e ↦ elim (Bool-cases (c.s.domain == domain_ps)) [
    | inl d ↦
        rw (e, d)
          (HeldInv-Keeps (on_ps c) _ (on_ps-HeldInv c inv)
            (handle_sm_type-Keeps _ _ (on_ps c) inv.0))
    | inr d ↦ rw (e, d) (HeldInv-Keeps c _ inv (set_msg_info-Keeps _ c inv.0))
  ]
])
  where
    not_missing : not c.s.new_msg ≡ false
    not_missing = ap not inv.0.0
