-- ===== src/L3/Rr.antt =====
-- gsm-parser/l3_handler.c: `handle_rr`, radio resources; the part of `handle_sysinfo` of
-- gsm-parser/cell_info.c that acts on the session. What `parse_assignment` stores is not part of
-- this state; the list of cells and the counts of paging requests are kept elsewhere and not
-- modelled.
mod Types
pub mod Checks
pub mod Laws
pub use Types.*
use srlabs.Base.{
  ℕ, ◌+◌, ◌-◌, ◌*◌, ◌/◌, ◌%◌, ◌^◌, Bool, true, false, ◌&&◌, ◌||◌, not, List, [], ◌∷◌, Option, none,
  some,
}
use srlabs.Base.{
  Outcome, done, abort, ◌>>=◌, ltb, ◌==◌, nonzero, if◌then◌else◌, u16, u32, bit, shr, low_bits, Mem,
  shift,
}
use srlabs.BitFunc.{not_zero}
use srlabs.RandCheck.{RandState, rand_check}
use srlabs.Radio.{Piece, text, dec, hex2, has_bit, sdcch_bit, bcch_bit, rat_gsm}
use srlabs.Session.{
  Session, Ctx, Report, Security, Padding, Missing, zero_missing, one_missing, minus_one,
  set_msg_info, session_reset,
}
use srlabs.L3.Core.{with_tr, with_sec, mark_unknown, predict, seen_fn}
use srlabs.L3.Env.{Env}
use srlabs.L3.Ie.{handle_classmark, handle_lai, handle_mi, handle_pag_resp, net16}

-- `rand_check` of one of the states of the session: its result, and the session with the state.
pub put_checked : Option (Bool × RandState) → (RandState → Padding) → Ctx → Outcome (Bool × Ctx)
put_checked none put c = abort
put_checked (some (verdict, r)) put c =
    done (verdict, record c { s = record (c.s) { pad = put r } })

pub check_pad : Mem → ℕ → RandState → (RandState → Padding) → Ctx → Outcome (Bool × Ctx)
check_pad msg len r put c = put_checked (rand_check msg len r c.s.sec.cipher) put c

-- The padding of 18 bytes of SI 5 to 6.
pub check_si : SiType → Mem → Ctx → Outcome (Bool × Ctx)
check_si si5 dtap c = check_pad dtap 18 c.s.pad.si5 (λ r. record (c.s.pad) { si5 = r }) c
check_si si5bis dtap c = check_pad dtap 18 c.s.pad.si5bis (λ r. record (c.s.pad) { si5bis = r }) c
check_si si5ter dtap c = check_pad dtap 18 c.s.pad.si5ter (λ r. record (c.s.pad) { si5ter = r }) c
check_si si6 dtap c = check_pad dtap 18 c.s.pad.si6 (λ r. record (c.s.pad) { si6 = r }) c
check_si _ dtap c = done (false, c)

-- SI 6 names the cell.
pub locate : SiType → Mem → Ctx → Ctx
locate si6 dtap c = handle_lai (shift dtap 4) (some (net16 (shift dtap 2))) c
locate _ dtap c = c

-- A session that has ended without a release is closed by the next message on the BCCH.
pub is_over : Ctx → Bool
is_over c =
    c.s.started
    && (c.s.tr.mt || c.s.tr.mo)
    && (c.s.tr.sms_presence || c.s.tr.call_presence || c.s.tr.lu_acc || c.s.tr.lu_reject)
    && not c.s.closed
    && has_bit bcch_bit c.m.flags

-- `s->fc.enc - s->fc.enc_null - s->fc.enc_si` in uint32_t.
pub enc_other : Ctx → ℕ
enc_other c = u32 (u32 (c.s.fc.enc + 2 ^ 32 - c.s.fc.enc_null) + 2 ^ 32 - c.s.fc.enc_si)

pub next_missing : Missing → Missing
next_missing minus_one = zero_missing
next_missing _ = one_missing

pub cipher_complete : ℕ → Security → Security
cipher_complete fn x = record x {
  cipher_missing = next_missing x.cipher_missing;
  cm_comp_first_fn = if nonzero x.cm_comp_first_fn then x.cm_comp_first_fn else seen_fn fn;
  cm_comp_last_fn = seen_fn fn;
  cm_comp_count = u16 (x.cm_comp_count + 1);
}

-- Bit 0 of the cipher mode setting starts ciphering with A5/1 to A5/8.
pub cipher_command : ℕ → ℕ → Security → Security
cipher_command setting fn x = record x {
  cm_cmd_fn = if nonzero x.cm_cmd_fn then x.cm_cmd_fn else seen_fn fn;
  cipher = if bit 0 setting == 1 then 1 + low_bits (shr setting 1) 3 else x.cipher;
  decoded = if bit 0 setting == 1 && not (not_zero x.key 8) then 0 else x.decoded;
}

module _ (env : Env) where
  pub handle_sysinfo : ℕ → Ctx → Outcome Ctx
  handle_sysinfo len c =
      if ltb len 4 || has_bit sdcch_bit c.m.flags
      then done c
      else if is_over c
      then session_reset env.cfg true c
      else done c

  pub handle_si : SiType → Mem → ℕ → Ctx → Outcome Ctx
  handle_si t dtap len c = do
    c ← set_msg_info (si_text t ∷ []) c
    checked ← check_si t dtap c
    handle_sysinfo len (locate t dtap checked.1)

  -- The identity in a CIPHERING MODE COMPLETE.
  pub complete_identity : Option (Mem × ℕ) → Ctx → Outcome Ctx
  complete_identity none c = done c
  complete_identity (some (v, v_len)) c = do
    c ← handle_mi (shift v 1) (v 0) false c
    done (with_sec (record (c.s.sec) { cmc_imeisv = true }) c)

  -- A first byte of padding means that there is none.
  pub complete_imeisv : Mem → ℕ → Ctx → Outcome Ctx
  complete_imeisv p len c =
      if p 0 == 0x2b
      then done c
      else complete_identity (env.rr_tlv p (u32 (len + 2 ^ 32 - 2)) 0x17) c

  pub handle_ciph_compl : Mem → ℕ → ℕ → Ctx → Outcome Ctx
  handle_ciph_compl p len fn c = do
    c ← set_msg_info (text "CIPHER MODE COMPLETE" ∷ []) c
    complete_imeisv p len (with_sec (cipher_complete fn c.s.sec) c)

-- Is a frame to come predictable?
pub is_predictable : Ctx → Bool
is_predictable c = nonzero c.s.sec.cipher && not (nonzero c.s.fc.enc_rand)

-- An IMEISV was requested.
pub request_imeisv : Ctx → Ctx
request_imeisv c = predict (is_predictable c) (with_sec (record (c.s.sec) { cmc_imeisv = true }) c)

pub handle_ciph_cmd : Mem → ℕ → Ctx → Outcome Ctx
handle_ciph_cmd p fn c = do
  c ←
      set_msg_info
        (text "CIPHER MODE COMMAND, A5/" ∷ dec (cipher_command (p 0) fn c.s.sec).cipher ∷ [])
        (with_sec (cipher_command (p 0) fn c.s.sec) c)
  let c = if bit 4 (p 0) == 1 then request_imeisv c else c
  done (with_sec (record (c.s.sec) { cipher_missing = minus_one }) c)

-- The release as the report shows it.
pub mark_release : Mem → ℕ → Ctx → Ctx
mark_release p len c =
    with_tr
      (record (c.s.tr) {
        release = true;
        rr_cause = p 0;
        have_gprs = (ltb 3 len && shr (p 1) 4 == 0xc) || c.s.tr.have_gprs;
      })
      c

module _ (env : Env) where
  -- The reset of the other session's pointer is in `handle_rr`.
  pub handle_chan_rel : Mem → ℕ → Ctx → Outcome Ctx
  handle_chan_rel p len c = do
    c ← set_msg_info (text "CHANNEL RELEASE" ∷ []) c
    session_reset env.cfg false (mark_release p len (predict (is_predictable c) c))

  -- `p` is the data behind the header of two bytes at `dtap`.
  pub handle_rr_type : RrType → Mem → Mem → ℕ → ℕ → Ctx → Outcome Ctx
  handle_rr_type (si t) dtap p len fn c = handle_si env t dtap len c
  handle_rr_type chan_rel dtap p len fn c = handle_chan_rel p len c
  handle_rr_type clsm_enq dtap p len fn c = set_msg_info (text "CLASSMARK ENQUIRY" ∷ []) c
  handle_rr_type meas_rep dtap p len fn c = set_msg_info (text "MEASUREMENT REPORT" ∷ []) c
  handle_rr_type clsm_chg dtap p len fn c = do
    c ← set_msg_info (text "CLASSMARK CHANGE" ∷ []) c
    done (handle_classmark (shift p 1) 2 c)
  handle_rr_type pag_req_1 dtap p len fn c = set_msg_info (text "PAGING REQ 1" ∷ []) c
  handle_rr_type pag_req_2 dtap p len fn c = set_msg_info (text "PAGING REQ 2" ∷ []) c
  handle_rr_type pag_req_3 dtap p len fn c = set_msg_info (text "PAGING REQ 3" ∷ []) c
  handle_rr_type imm_ass dtap p len fn c = set_msg_info (text "IMM ASSIGNMENT" ∷ []) c
  handle_rr_type imm_ass_ext dtap p len fn c = set_msg_info (text "IMM ASSIGNMENT EXT" ∷ []) c
  handle_rr_type imm_ass_rej dtap p len fn c = set_msg_info (text "IMM ASSIGNMENT REJECT" ∷ []) c
  handle_rr_type pag_resp dtap p len fn c = do
    c ← session_reset env.cfg true c
    c ← set_msg_info (text "PAGING RESPONSE" ∷ []) c
    handle_pag_resp p c
  handle_rr_type hando_cmd dtap p len fn c = do
    c ← set_msg_info (text "HANDOVER COMMAND" ∷ []) c
    done (with_tr (record (c.s.tr) { handover = true; use_jump = 2 }) c)
  handle_rr_type hando_compl dtap p len fn c = set_msg_info (text "HANDOVER COMPLETE" ∷ []) c
  handle_rr_type ass_cmd dtap p len fn c = do
    c ← set_msg_info (text "ASSIGNMENT COMMAND" ∷ []) c
    done (
        with_tr
          (record (c.s.tr) {
            forced_ho = enc_other c == 1 || c.s.tr.forced_ho;
            assignment = true;
            use_jump = 1;
          })
          c)
  handle_rr_type ass_compl dtap p len fn c = do
    c ← set_msg_info (text "ASSIGNMENT COMPLETE" ∷ []) c
    done (with_tr (record (c.s.tr) { assign_complete = true }) c)
  handle_rr_type ciph_compl dtap p len fn c = handle_ciph_compl env p len fn c
  handle_rr_type gprs_susp dtap p len fn c = do
    c ← set_msg_info (text "GPRS SUSPEND" ∷ []) c
    done (with_tr (record (c.s.tr) { have_gprs = true }) c)
  handle_rr_type ciph_cmd dtap p len fn c = handle_ciph_cmd p fn c
  handle_rr_type utran_classmark dtap p len fn c = set_msg_info (text "UTRAN CLASSMARK" ∷ []) c
  handle_rr_type other_rr dtap p len fn c = do
    c ← set_msg_info (text "UNKNOWN RR (" ∷ hex2 (dtap 1) ∷ text ")" ∷ []) c
    done (mark_unknown c)

  pub handle_rr : Mem → ℕ → ℕ → Ctx → Outcome Ctx
  handle_rr dtap len fn c =
      let c' = record c { s = record (c.s) { rat = rat_gsm } } in
      if not c.s.new_msg
      then abort
      else if len == 0
      then done c'
      else handle_rr_type (rr_type (dtap 1)) dtap (shift dtap 2) len fn c'
