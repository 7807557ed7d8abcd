-- ===== src/L3/Gmm.antt =====
-- gsm-parser/l3_handler.c: `handle_gmm` and `handle_sm`, mobility and session management of the
-- packet domain. The session is that of the packet domain where each domain has one.
pub mod Laws
use srlabs.Base.{ℕ, ◌-◌, Bool, true, false, not, List, [], ◌∷◌, some}
use srlabs.Base.{Outcome, done, undefined, ◌>>=◌, ◌==◌, if◌then◌else◌, low_bits, shr, Mem, shift}
use srlabs.Radio.{Piece, text, hex2, domain_ps}
use srlabs.Session.{Session, Ctx, Report, set_msg_info, session_reset}
use srlabs.L3.Core.{with_tr, with_sec, open_session}
use srlabs.L3.Env.{Env}
use srlabs.L3.Ie.{handle_mi, handle_lai, handle_serv_req, with_initial_seq}

-- The cases of the switch on the message type; `plain` is a message that is only named.
pub data GmmType : Type 0 where
  attach_request attach_accept attach_complete detach_request : GmmType
  update_request update_accept update_complete service_request : GmmType
  auth_request auth_response auth_reject other_gmm : GmmType
  plain : Piece → GmmType

pub gmm_type : ℕ → GmmType
gmm_type t =
    if t == 0x01
    then attach_request
    else if t == 0x02
    then attach_accept
    else if t == 0x03
    then attach_complete
    else if t == 0x04
    then plain (text "ATTACH REJECT")
    else if t == 0x05
    then detach_request
    else if t == 0x06
    then plain (text "DETACH ACCEPT")
    else if t == 0x08
    then update_request
    else if t == 0x09
    then update_accept
    else if t == 0x0a
    then update_complete
    else if t == 0x0b
    then plain (text "RA UPDATE REJECT")
    else if t == 0x0c
    then service_request
    else if t == 0x0d
    then plain (text "SERVICE ACCEPT")
    else if t == 0x0e
    then plain (text "SERVICE REJECT")
    else if t == 0x10
    then plain (text "PTMSI REALLOC COMMAND")
    else if t == 0x11
    then plain (text "PTMSI REALLOC COMPLETE")
    else if t == 0x12
    then auth_request
    else if t == 0x13
    then auth_response
    else if t == 0x14
    then auth_reject
    else if t == 0x15
    then plain (text "IDENTITY REQUEST")
    else if t == 0x16
    then plain (text "IDENTITY RESPONSE")
    else if t == 0x20
    then plain (text "GMM STATUS")
    else if t == 0x21
    then plain (text "GMM INFORMATION")
    else other_gmm

-- Assignments to the report.
mark_attach : Ctx → Ctx
mark_attach c = with_tr (record (c.s.tr) { attach = true }) c

mark_update : Ctx → Ctx
mark_update c = with_tr (record (c.s.tr) { raupd = true }) c

mark_auth : Ctx → Ctx
mark_auth c = with_sec (record (c.s.sec) { auth = 1 }) c

pub handle_attach_acc : Mem → Ctx → Outcome Ctx
handle_attach_acc p c =
    let c =
      handle_lai (shift p 3) (some (p 8))
        (with_tr (record (c.s.tr) { attach = true; att_acc = true }) c) in
    if p 13 == 0x18 then handle_mi (shift p 15) (p 14) true c else done c

pub handle_ra_upd_acc : Mem → Ctx → Outcome Ctx
handle_ra_upd_acc p c =
    let c =
      handle_lai (shift p 2) (some (p 7))
        (with_tr (record (c.s.tr) { raupd = true; lu_acc = true }) c) in
    if p 8 == 0x18 then handle_mi (shift p 10) (p 9) true c else done c

-- `s->new_msg->domain = DOMAIN_PS`.
pub on_ps : Ctx → Ctx
on_ps c = record c { m = record (c.m) { domain = domain_ps } }

module _ (env : Env) where
  -- `t` is shown by the default case.
  pub handle_gmm_type : GmmType → ℕ → Mem → Ctx → Outcome Ctx
  handle_gmm_type attach_request t p c = do
    c ← set_msg_info (text "ATTACH REQUEST" ∷ []) c
    done (open_session (mark_attach c))
  handle_gmm_type attach_accept t p c = do
    c ← set_msg_info (text "ATTACH ACCEPT" ∷ []) c
    handle_attach_acc p c
  handle_gmm_type attach_complete t p c = do
    c ← set_msg_info (text "ATTACH COMPLETE" ∷ []) c
    done (with_tr (record (c.s.tr) { att_acc = true }) c)
  handle_gmm_type detach_request t p c = do
    c ← set_msg_info (text "DETACH REQUEST" ∷ []) c
    done (record c { s = record (c.s) { started = true } })
  handle_gmm_type update_request t p c = do
    c ← set_msg_info (text "RA UPDATE REQUEST" ∷ []) c
    c ← session_reset env.cfg true c
    done (
        with_initial_seq (low_bits (shr (p 0) 4) 3)
          (open_session (with_tr (record (c.s.tr) { raupd = true; mo = true }) c)))
  handle_gmm_type update_accept t p c = do
    c ← set_msg_info (text "RA UPDATE ACCEPT" ∷ []) c
    handle_ra_upd_acc p c
  handle_gmm_type update_complete t p c = do
    c ← set_msg_info (text "RA UPDATE COMPLETE" ∷ []) c
    done (mark_update c)
  handle_gmm_type service_request t p c = do
    c ← set_msg_info (text "SERVICE REQUEST" ∷ []) c
    c ← session_reset env.cfg true c
    handle_serv_req p (with_tr (record (c.s.tr) { serv_req = true }) (open_session c))
  handle_gmm_type auth_request t p c = do
    c ← set_msg_info (text "AUTH AND CIPHER REQUEST" ∷ []) c
    done (mark_auth c)
  handle_gmm_type auth_response t p c = do
    c ← set_msg_info (text "AUTH AND CIPHER RESPONSE" ∷ []) c
    done (mark_auth c)
  handle_gmm_type auth_reject t p c =
      set_msg_info (text "AUTH AND CIPHER REJECT" ∷ []) (mark_auth c)
  handle_gmm_type (plain name) t p c = set_msg_info (name ∷ []) c
  handle_gmm_type other_gmm t p c = set_msg_info (text "UNKNOWN GMM (" ∷ hex2 t ∷ text ")" ∷ []) c

  -- `set_msg_info` asserts that the session has a message; so does the assignment to its domain.
  pub handle_gmm : Mem → ℕ → Ctx → Outcome Ctx
  handle_gmm dtap len c =
      if len == 0
      then done c
      else if not (c.s.domain == domain_ps)
      then set_msg_info (text "FAILED SANITY CHECKS (GMM_IN_CS)" ∷ []) c
      else if not c.s.new_msg
      then undefined
      else handle_gmm_type (gmm_type (low_bits (dtap 1) 6)) (low_bits (dtap 1) 6) (shift dtap 2)
          (on_ps c)

pub data SmType : Type 0 where
  activate other_sm : SmType
  named : Piece → SmType

pub sm_type : ℕ → SmType
sm_type t =
    if t == 0x01
    then activate
    else if t == 0x02
    then named (text "ACTIVATE PDP ACCEPT")
    else if t == 0x06
    then named (text "DEACTIVATE PDP REQUEST")
    else if t == 0x07
    then named (text "DEACTIVATE PDP ACCEPT")
    else if t == 0x08
    then named (text "MODIFY PDP REQUEST")
    else if t == 0x09
    then named (text "MODIFY PDP ACCEPT")
    else if t == 0x0a
    then named (text "DEACTIVATE PDP ACCEPT")
    else if t == 0x15
    then named (text "SM STATUS")
    else other_sm

pub handle_sm_type : SmType → ℕ → Ctx → Outcome Ctx
handle_sm_type activate t c = do
  c ← set_msg_info (text "ACTIVATE PDP REQUEST" ∷ []) c
  done (with_tr (record (c.s.tr) { pdp_activate = true }) c)
handle_sm_type (named name) t c = set_msg_info (name ∷ []) c
handle_sm_type other_sm t c = set_msg_info (text "UNKNOWN SM (" ∷ hex2 t ∷ text ")" ∷ []) c

pub handle_sm : Mem → ℕ → Ctx → Outcome Ctx
handle_sm dtap len c =
    if len == 0
    then done c
    else if not (c.s.domain == domain_ps)
    then set_msg_info (text "FAILED SANITY CHECKS (SM_IN_CS)" ∷ []) c
    else if not c.s.new_msg
    then undefined
    else handle_sm_type (sm_type (low_bits (dtap 1) 6)) (low_bits (dtap 1) 6) (on_ps c)
