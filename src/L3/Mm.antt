-- ===== src/L3/Mm.antt =====
-- gsm-parser/l3_handler.c: `handle_mm`, mobility management.
pub mod Laws
use srlabs.Base.{ℕ, ◌+◌, ◌-◌, Bool, true, false, ◌&&◌, List, [], ◌∷◌, none}
use srlabs.Base.{Outcome, done, ◌>>=◌, ltb, ◌==◌, nonzero, if◌then◌else◌, low_bits, Mem, shift}
use srlabs.Radio.{Piece, text, dec, hex2, chars}
use srlabs.Session.{Ctx, Report, set_msg_info, session_reset}
use srlabs.L3.Core.{mark_mo, mark_unknown, with_tr, with_sec, open_session, seen_fn}
use srlabs.L3.Env.{Env}
use srlabs.L3.Ie.{
  MiType, mi_none, mi_imsi, mi_imei, mi_tmsi, mi_other, mi_type, handle_mi, handle_lai,
  handle_loc_upd_acc, handle_loc_upd_req, handle_cmreq, handle_detach,
}

-- The cases of the switch on the message type.
pub data MmType : Type 0 where
  imsi_detach lu_accept lu_reject lu_request auth_request auth_response : MmType
  identity_request identity_response tmsi_command tmsi_complete : MmType
  cm_accept cm_abort cm_request mm_abort mm_information other_mm : MmType

pub mm_type : ℕ → MmType
mm_type t =
    if t == 0x01
    then imsi_detach
    else if t == 0x02
    then lu_accept
    else if t == 0x04
    then lu_reject
    else if t == 0x08
    then lu_request
    else if t == 0x12
    then auth_request
    else if t == 0x14
    then auth_response
    else if t == 0x18
    then identity_request
    else if t == 0x19
    then identity_response
    else if t == 0x1a
    then tmsi_command
    else if t == 0x1b
    then tmsi_complete
    else if t == 0x21
    then cm_accept
    else if t == 0x23
    then cm_abort
    else if t == 0x24
    then cm_request
    else if t == 0x29
    then mm_abort
    else if t == 0x32
    then mm_information
    else other_mm

-- `s->started = 1`.
pub start : Ctx → Ctx
start c = record c { s = record (c.s) { started = true } }

-- Identity procedures before and after ciphering has begun.
pub mark_imsi : Ctx → Ctx
mark_imsi c =
    with_tr
      (if nonzero c.s.sec.cipher
        then record (c.s.tr) { iden_imsi_ac = true }
        else record (c.s.tr) { iden_imsi_bc = true })
      c

pub mark_imei : Ctx → Ctx
mark_imei c =
    with_tr
      (if nonzero c.s.sec.cipher
        then record (c.s.tr) { iden_imei_ac = true }
        else record (c.s.tr) { iden_imei_bc = true })
      c

-- The first request sets the kind of authentication and the frame number, which stays.
pub mark_auth_request : ℕ → ℕ → Ctx → Ctx
mark_auth_request kind fn c =
    with_sec
      (record (c.s.sec) {
        auth = kind;
        auth_req_fn = if nonzero c.s.sec.auth_req_fn then c.s.sec.auth_req_fn else seen_fn fn;
      })
      c

pub mark_auth_response : ℕ → ℕ → Ctx → Ctx
mark_auth_response kind fn c =
    with_sec
      (record (c.s.sec) {
        auth = if nonzero c.s.sec.auth then c.s.sec.auth else kind;
        auth_resp_fn = if nonzero c.s.sec.auth_resp_fn then c.s.sec.auth_resp_fn else seen_fn fn;
      })
      c

-- A UMTS challenge carries an AUTN at offset 17, a UMTS response an extension at offset 4.
pub is_umts_request : Mem → ℕ → Bool
is_umts_request p len = ltb 19 len && p 17 == 0x20 && p 18 == 0x10

pub is_umts_response : Mem → ℕ → Bool
is_umts_response p len = ltb 6 len && p 4 == 0x21 && p 5 == 0x04

pub handle_identity_request : MiType → Ctx → Outcome Ctx
handle_identity_request mi_imsi c = do
  c ← set_msg_info (text "IDENTITY REQUEST, IMSI" ∷ []) c
  done (mark_imsi c)
handle_identity_request mi_imei c = do
  c ← set_msg_info (text "IDENTITY REQUEST, IMEI" ∷ []) c
  done (mark_imei c)
handle_identity_request _ c = done c

pub handle_identity_response : MiType → Ctx → Outcome Ctx
handle_identity_response mi_imsi c = do
  c ← set_msg_info (text "IDENTITY RESPONSE, IMSI " ∷ chars c.s.who.imsi ∷ []) c
  done (mark_imsi c)
handle_identity_response mi_imei c = do
  c ← set_msg_info (text "IDENTITY RESPONSE, IMEI " ∷ chars c.s.who.imei ∷ []) c
  done (mark_imei c)
handle_identity_response _ c = done c

-- A location updating request has at least the eight bytes of its struct.
pub checked_lu_request : Mem → ℕ → Ctx → Outcome Ctx
checked_lu_request p len c =
    if ltb len 8
    then set_msg_info (text "FAILED SANITY CHECKS (LUR_DTAP_SIZE)" ∷ []) c
    else (do c ← set_msg_info (text "LOC UPD REQUEST" ∷ []) c; handle_loc_upd_req p c)

module _ (env : Env) where
  -- `type` is shown by the default case.
  pub handle_mm_type : MmType → ℕ → Mem → ℕ → ℕ → Ctx → Outcome Ctx
  handle_mm_type imsi_detach type p len fn c = do
    c ← session_reset env.cfg true c
    c ← set_msg_info (text "IMSI DETACH" ∷ []) (start c)
    handle_detach p (with_tr (record (c.s.tr) { detach = true; mo = true }) c)
  handle_mm_type lu_accept type p len fn c = do
    c ← set_msg_info (text "LOC UPD ACCEPT" ∷ []) c
    handle_loc_upd_acc p (len - 2) c
  handle_mm_type lu_reject type p len fn c = do
    c ← set_msg_info (text "LOC UPD REJECT cause=" ∷ dec (p 0) ∷ []) c
    done (
        with_tr (record (c.s.tr) { locupd = true; lu_reject = true; lu_rej_cause = p 0; mo = true })
          c)
  handle_mm_type lu_request type p len fn c = do
    c ← session_reset env.cfg true c
    checked_lu_request p len c
  handle_mm_type auth_request type p len fn c =
      if is_umts_request p len
      then (do
        c ← set_msg_info (text "AUTH REQUEST (UMTS)" ∷ []) c
        done (mark_auth_request 2 fn c))
      else (do c ← set_msg_info (text "AUTH REQUEST (GSM)" ∷ []) c; done (mark_auth_request 1 fn c))
  handle_mm_type auth_response type p len fn c =
      if is_umts_response p len
      then (do
        c ← set_msg_info (text "AUTH RESPONSE (UMTS)" ∷ []) c
        done (mark_auth_response 2 fn c))
      else (do
        c ← set_msg_info (text "AUTH RESPONSE (GSM)" ∷ []) c
        done (mark_auth_response 1 fn c))
  handle_mm_type identity_request type p len fn c = handle_identity_request (mi_type (p 0)) c
  handle_mm_type identity_response type p len fn c = do
    c ← handle_mi (shift p 1) (p 0) false c
    handle_identity_response (mi_type (p 1)) c
  handle_mm_type tmsi_command type p len fn c = do
    c ← set_msg_info (text "TMSI REALLOC COMMAND" ∷ []) c
    let c = handle_lai p none (with_tr (record (c.s.tr) { tmsi_realloc = true }) c)
    handle_mi (shift p 6) (p 5) true c
  handle_mm_type tmsi_complete type p len fn c = do
    c ← set_msg_info (text "TMSI REALLOC COMPLETE" ∷ []) c
    done (with_tr (record (c.s.tr) { tmsi_realloc = true }) c)
  handle_mm_type cm_accept type p len fn c = do
    c ← set_msg_info (text "CM SERVICE ACCEPT" ∷ []) c
    done (mark_mo c)
  handle_mm_type cm_abort type p len fn c = do
    c ← set_msg_info (text "CM SERVICE ABORT" ∷ []) c
    done (mark_mo c)
  handle_mm_type cm_request type p len fn c = do
    c ← set_msg_info (text "CM SERVICE REQUEST" ∷ []) c
    c ← session_reset env.cfg true c
    let c = open_session c
    handle_cmreq p (with_tr (record (c.s.tr) { serv_req = true; mo = true }) c)
  handle_mm_type mm_abort type p len fn c = do
    c ← set_msg_info (text "ABORT" ∷ []) c
    done (with_tr (record (c.s.tr) { aborted = true }) c)
  handle_mm_type mm_information type p len fn c = set_msg_info (text "MM INFORMATION" ∷ []) c
  handle_mm_type other_mm type p len fn c = do
    c ← set_msg_info (text "UNKNOWN MM (" ∷ hex2 type ∷ text ")" ∷ []) c
    done (mark_unknown c)

  pub handle_mm : Mem → ℕ → ℕ → Ctx → Outcome Ctx
  handle_mm dtap len fn c =
      if ltb len 2
      then set_msg_info (text "FAILED SANITY CHECKS (MM_LEN)" ∷ []) c
      else handle_mm_type (mm_type (low_bits (dtap 1) 6)) (low_bits (dtap 1) 6) (shift dtap 2) len
          fn c
