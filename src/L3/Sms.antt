-- ===== src/L3/Sms.antt =====
-- gsm-parser/sms.c: `handle_sms`, `handle_cpdata` and `handle_rpdata`, the CP and RP layers.
pub mod Laws
use srlabs.Base.{ℕ, ◌+◌, ◌-◌, ◌*◌, ◌%◌, ◌^◌, Bool, true, false, ◌&&◌, not, List, [], ◌∷◌}
use srlabs.Base.{
  Outcome, done, ◌>>=◌, ltb, leb, ◌==◌, nonzero, if◌then◌else◌, u8, u32, low_bits, Mem, shift,
}
use srlabs.Base.{◌≡◌, refl, arith, Safe, Bool-cases, inl, inr, ◌∙◌}
use srlabs.Address.{handle_address}
use srlabs.Radio.{text}
use srlabs.Session.{Ctx, set_msg_info, append_msg_info}
use srlabs.L3.Core.{
  mark_mo, mark_mt, with_tr, Keeps, IsHeld, core, Keeps-from, IsHeld-core, set_msg_info-Keeps,
  append_msg_info-Keeps,
}
use srlabs.L3.Env.{Env}

-- The cases of the switch on the RP message type: from the mobile (`mo`) and to it (`mt`).
pub data RpType : Type 0 where
  data_mo data_mt ack_mo ack_mt error_mo error_mt smma_mo other_rp : RpType

pub rp_type : ℕ → RpType
rp_type b =
    if low_bits b 4 == 0
    then data_mo
    else if low_bits b 4 == 1
    then data_mt
    else if low_bits b 4 == 2
    then ack_mo
    else if low_bits b 4 == 3
    then ack_mt
    else if low_bits b 4 == 4
    then error_mo
    else if low_bits b 4 == 5
    then error_mt
    else if low_bits b 4 == 6
    then smma_mo
    else other_rp

module _ (env : Env) where
  -- An SMSC address of `f_len` bytes; the buffer `smsc` starts with any contents.
  pub smsc_of : Mem → ℕ → List ℕ → List ℕ
  smsc_of p f_len smsc =
      if nonzero f_len then handle_address env.decode_7bit p f_len smsc false else smsc

  -- The switch over the message type at offset `off`, with `f_len` bytes of user data.
  pub rpdata_type : Mem → ℕ → ℕ → Bool → List ℕ → Ctx → Outcome Ctx
  rpdata_type p off f_len from_network smsc c =
      let type = low_bits (p off) 2 in
      if from_network
      then (if type == 0
          then (do
            c ← append_msg_info (text "-DELIVER" ∷ []) c
            append_msg_info (env.tpdu_info (shift p off) f_len from_network smsc) c)
          else if type == 1
          then append_msg_info (text "-SUBMIT-REPORT" ∷ []) c
          else if type == 2
          then append_msg_info (text "-STATUS-REPORT" ∷ []) c
          else append_msg_info (text "-RESERVED" ∷ []) c)
      else if type == 0
      then append_msg_info (text "-DELIVER-REPORT" ∷ []) c
      else if type == 1
      then (do
        c ← append_msg_info (text "-SUBMIT" ∷ []) c
        append_msg_info (env.tpdu_info (shift p off) f_len from_network smsc) c)
      else if type == 2
      then append_msg_info (text "-COMMAND" ∷ []) c
      else append_msg_info (text "-RESERVED" ∷ []) c

  -- The user data at offset `off`, which is a uint8_t; its length is cropped to what is there.
  pub rpdata_user : Mem → ℕ → ℕ → Bool → List ℕ → Ctx → Outcome Ctx
  rpdata_user p len off from_network smsc c =
      let f_len =
        if ltb (u32 (len + 2 ^ 32 - u8 (off + 1))) (p off)
        then u8 (len + 2 ^ 32 - u8 (off + 1) - 1)
        else p off in
      if leb len (u8 (off + 1))
      then set_msg_info (text "SANITY CHECK FAILED (SMS_OFFSET)" ∷ []) c
      else rpdata_type p (u8 (off + 1)) f_len from_network smsc c

  -- The destination address, at offset `off`, and what follows.
  pub rpdata_destination : Mem → ℕ → ℕ → Bool → List ℕ → Ctx → Outcome Ctx
  rpdata_destination p len off from_network smsc c =
      let next = u8 (off + 1) in
      if nonzero (p off) && from_network
      then set_msg_info (text "SANITY CHECK FAILED (SMS_SMSC_MT)" ∷ []) c
      else rpdata_user p len (u8 (next + p off)) from_network (smsc_of (shift p next) (p off) smsc)
          c

  pub handle_rpdata : Mem → ℕ → Bool → List ℕ → Ctx → Outcome Ctx
  handle_rpdata p len from_network smsc c =
      if len == 0
      then done c
      else if nonzero (p 0) && not from_network
      then set_msg_info (text "SANITY CHECK FAILED (SMS_SMSC_MO)" ∷ []) c
      else rpdata_destination p len (u8 (1 + p 0)) from_network (smsc_of (shift p 1) (p 0) smsc) c

  -- `len` is that of the RP data, behind the header of three bytes.
  pub handle_rp : RpType → Mem → ℕ → List ℕ → Ctx → Outcome Ctx
  handle_rp data_mo p len smsc c = do
    c ← set_msg_info (text "SMS RP-DATA" ∷ []) c
    c ← handle_rpdata p len false smsc c
    done (mark_mo c)
  handle_rp data_mt p len smsc c = do
    c ← set_msg_info (text "SMS RP-DATA" ∷ []) c
    c ← handle_rpdata p len true smsc c
    done (mark_mt c)
  handle_rp ack_mo p len smsc c = do c ← set_msg_info (text "SMS RP-ACK" ∷ []) c; done (mark_mt c)
  handle_rp ack_mt p len smsc c = do c ← set_msg_info (text "SMS RP-ACK" ∷ []) c; done (mark_mo c)
  handle_rp error_mo p len smsc c = do
    c ← set_msg_info (text "SMS RP-ERROR" ∷ []) c
    done (mark_mt c)
  handle_rp error_mt p len smsc c = do c ← set_msg_info (text "SMS RP-ACK" ∷ []) c; done (mark_mo c)
  handle_rp smma_mo p len smsc c = do c ← set_msg_info (text "SMS RP-SMMA" ∷ []) c; done (mark_mo c)
  handle_rp other_rp p len smsc c = done (with_tr (record (c.s.tr) { unknown = true }) c)

  pub handle_cpdata : Mem → ℕ → List ℕ → Ctx → Outcome Ctx
  handle_cpdata p len smsc c =
      if ltb len 3
      then set_msg_info (text "SANITY CHECK FAILED (RP_DATA_LEN)" ∷ []) c
      else handle_rp (rp_type (p 1)) (shift p 3) (len - 3) smsc c

  -- `len` is at least 1, and `len - 2` an unsigned number.
  pub handle_sms : Mem → ℕ → List ℕ → Ctx → Outcome Ctx
  handle_sms dtap len smsc c =
      let c = with_tr (record (c.s.tr) { sms = true; sms_presence = true }) c in
      let type = low_bits (dtap 1) 5 in
      if type == 0x01
      then handle_cpdata (shift dtap 2) (u32 (len + 2 ^ 32 - 2)) smsc c
      else if type == 0x04
      then set_msg_info (text "SMS CP-ACK" ∷ []) c
      else if type == 0x10
      then set_msg_info (text "SMS CP-ERROR" ∷ []) c
      else done (with_tr (record (c.s.tr) { unknown = true }) c)
