-- ===== src/L3/Cc.antt =====
-- gsm-parser/l3_handler.c: `handle_cc`, call control, and `handle_ss`, supplementary services.
pub mod Laws
use srlabs.Base.{ℕ, ◌+◌, ◌-◌, ◌^◌, Bool, true, false, ◌&&◌, not, List, [], ◌∷◌, Option, none, some}
use srlabs.Base.{Outcome, done, ◌>>=◌, ◌==◌, nonzero, if◌then◌else◌, u8, u32, low_bits, Mem, shift}
use srlabs.Address.{handle_address}
use srlabs.Radio.{Piece, text, hex2}
use srlabs.Session.{Ctx, set_msg_info}
use srlabs.L3.Core.{with_tr, with_who, mark_mo, mark_mt, mark_unknown, predict}
use srlabs.L3.Env.{Env}

-- The cases of the switch on the message type.
pub data CcType : Type 0 where
  alerting proceeding progress setup connect confirmed connect_ack disconnect : CcType
  release_complete release facility status : CcType
  other_cc : CcType

pub cc_type : ℕ → CcType
cc_type t =
    if t == 0x01
    then alerting
    else if t == 0x02
    then proceeding
    else if t == 0x03
    then progress
    else if t == 0x05
    then setup
    else if t == 0x07
    then connect
    else if t == 0x08
    then confirmed
    else if t == 0x0f
    then connect_ack
    else if t == 0x25
    then disconnect
    else if t == 0x2a
    then release_complete
    else if t == 0x2d
    then release
    else if t == 0x3a
    then facility
    else if t == 0x3d
    then status
    else other_cc

module _ (env : Env) where
  -- The number that an information element holds, if it is present.
  pub store_number : Option (Mem × ℕ) → Ctx → Ctx
  store_number none c = c
  store_number (some (v, v_len)) c =
      with_who
        (record (c.s.who) {
          msisdn = handle_address env.decode_7bit v (u8 v_len) c.s.who.msisdn false;
        })
        c

  -- The calling number, then the called number.
  pub store_numbers : Mem → ℕ → Ctx → Ctx
  store_numbers p len c =
      store_number (env.cc_tlv p len 0x5e) (store_number (env.cc_tlv p len 0x5c) c)

  pub handle_cc_type : CcType → Mem → ℕ → Bool → Ctx → Outcome Ctx
  handle_cc_type alerting dtap len ul c = set_msg_info (text "CALL ALERTING" ∷ []) c
  handle_cc_type proceeding dtap len ul c = do
    c ← set_msg_info (text "CALL PROCEEDING" ∷ []) c
    let c = predict (nonzero c.s.sec.cipher && not (nonzero c.s.fc.enc_rand) && not ul) c
    done (if ul then c else mark_mo c)
  handle_cc_type progress dtap len ul c = set_msg_info (text "CALL PROGRESS" ∷ []) c
  handle_cc_type setup dtap len ul c = do
    c ← set_msg_info (text "CALL SETUP" ∷ []) c
    let c = if ul then mark_mo c else mark_mt c
    done (store_numbers (shift dtap 2) (u32 (len + 2 ^ 32 - 2)) c)
  handle_cc_type connect dtap len ul c = set_msg_info (text "CALL CONNECT" ∷ []) c
  handle_cc_type confirmed dtap len ul c = do
    c ← set_msg_info (text "CALL CONFIRMED" ∷ []) c
    done (if ul then mark_mt c else mark_mo c)
  handle_cc_type connect_ack dtap len ul c = set_msg_info (text "CALL CONNECT ACK" ∷ []) c
  handle_cc_type disconnect dtap len ul c = set_msg_info (text "CALL DISCONNECT" ∷ []) c
  handle_cc_type release_complete dtap len ul c = set_msg_info (text "CALL RELEASE COMPLETE" ∷ []) c
  handle_cc_type release dtap len ul c = set_msg_info (text "CALL RELEASE" ∷ []) c
  handle_cc_type facility dtap len ul c = set_msg_info (text "CALL FACILITY" ∷ []) c
  handle_cc_type status dtap len ul c = set_msg_info (text "CALL STATUS" ∷ []) c
  handle_cc_type other_cc dtap len ul c = do
    c ← set_msg_info (text "UNKNOWN CC (" ∷ hex2 (low_bits (dtap 1) 6) ∷ text ")" ∷ []) c
    done (mark_unknown c)

  pub handle_cc : Mem → ℕ → Bool → Ctx → Outcome Ctx
  handle_cc dtap len ul c =
      handle_cc_type (cc_type (low_bits (dtap 1) 6)) dtap len ul
        (with_tr (record (c.s.tr) { call = true; call_presence = true }) c)

pub handle_ss : Mem → ℕ → Ctx → Outcome Ctx
handle_ss dtap len c =
    let type = low_bits (dtap 1) 6 in
    let c' = with_tr (record (c.s.tr) { ssa = true }) c in
    if len == 0
    then done c
    else if type == 0x2a
    then set_msg_info (text "SS RELEASE COMPLETE" ∷ []) c'
    else if type == 0x3a
    then set_msg_info (text "SS FACILITY" ∷ []) c'
    else if type == 0x3b
    then set_msg_info (text "SS REGISTER" ∷ []) c'
    else (do
      c ← set_msg_info (text "UNKNOWN SS (" ∷ hex2 type ∷ text ")" ∷ []) c'
      done (mark_unknown c))
