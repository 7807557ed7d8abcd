-- ===== src/Sms/Tpdu.antt =====
-- gsm-parser/sms.c, `handle_tpdu`: one TPDU, from its flags to its user data. The result is what is
-- appended to the text of the message and the short message for the list of the session, if there is
-- one; `none` where the loop over the user data header needs more than the given rounds.
use srlabs.Base.{
  ℕ, ◌+◌, ◌-◌, ◌*◌, ◌/◌, Bool, true, ◌&&◌, not, List, [], ◌∷◌, ◌++◌, Option, none, some,
}
use srlabs.Base.{
  ltb, leb, ◌==◌, nonzero, if◌then◌else◌, u8, shr, bit, low_bits, Mem, shift, memcpy, mem_of,
}
use srlabs.Radio.{Piece, text, chars}
use srlabs.Address.{handle_address, codes}
use srlabs.Sms.Meta.{SmsMeta, zero_sms, append_info}
use srlabs.Sms.Text.{get_sms_class, get_sms_alphabet, handle_text}
use srlabs.Sms.Udh.{handle_udh}

abbrev pub Result : Type 0
Result = List Piece × Option SmsMeta

abbrev pub truncated : List Piece → Option Result
truncated info = some (info ++ (text " <TRUNCATED>" ∷ []), none)

-- The SMSC, or a text for none.
pub smsc_text : List ℕ → List ℕ
smsc_text smsc = if nonzero (mem_of smsc 0) then smsc else codes "<NO ADDRESS>"

-- The bytes of validity period or timestamp.
pub time_len : Bool → ℕ → ℕ
time_len from_network vp =
    if from_network then 7 else if vp == 0 then 0 else if vp == 2 then 1 else 7

-- The length that the message gives, or what is there, in septets.
pub checked_length : ℕ → ℕ → SmsMeta → SmsMeta
checked_length given room sm =
    let compressed = low_bits (shr sm.dcs 5) 3 == 1 in
    if not compressed && ltb room (given * 7 / 8)
    then record (append_info (text "<TRUNCATED> " ∷ []) sm) { length = u8 (room * 8 / 7) }
    else record sm { length = given }

-- The number in front of the list's head is the next one.
pub next_sequence : List SmsMeta → ℕ
next_sequence [] = 0
next_sequence (sm ∷ sms_list) = u8 (sm.sequence + 1)

module _ (decode_7bit : Mem → ℕ → List ℕ × ℕ) (rounds : ℕ) (sms_list : List SmsMeta) where
  pub link_sms : List Piece → SmsMeta → Option Result
  link_sms info sm = some (info, some (record sm { sequence = next_sequence sms_list }))

  -- The user data are stored as they are, and read.
  pub read_user_data : Mem → ℕ → ℕ → List Piece → SmsMeta → Option Result
  read_user_data msg len off info sm =
      let stored = record sm { data_ = memcpy sm.data_ 0 (shift msg off) (len - off) } in
      let plain = handle_text decode_7bit (shift msg off) sm.length stored in
      if leb len off
      then truncated info
      else if sm.udhi
      then elim (handle_udh decode_7bit rounds (shift msg off) sm.length stored) [
        | none ↦ none
        | some read ↦ link_sms info read
      ]
      else link_sms info (record plain { real_length = u8 (len - off) })

  -- From the protocol identifier on.
  pub read_body : Mem → ℕ → ℕ → Bool → List Piece → SmsMeta → Option Result
  read_body msg len off from_network info sm =
      let pid = msg off in
      let dcs = msg (u8 (off + 1)) in
      let after_dcs = u8 (off + 2) in
      let after_time = u8 (after_dcs + time_len from_network (low_bits (shr (msg 0) 3) 2)) in
      let coded = record sm {
        pid = pid;
        dcs = dcs;
        alphabet = get_sms_alphabet dcs;
        class = get_sms_class dcs;
      } in
      let behind = u8 (after_time + 1) in
      if leb len after_dcs
      then truncated info
      else if leb len after_time
      then truncated info
      else read_user_data msg len behind info (checked_length (msg after_time) (len - behind) coded)

  pub handle_tpdu : Mem → ℕ → Bool → List ℕ → Option Result
  handle_tpdu msg len from_network smsc =
      let off = if from_network then 1 else 2 in
      let f_len = u8 (msg off + 1) in
      let msisdn = handle_address decode_7bit (shift msg (off + 1)) f_len [] true in
      let direction = if from_network then text ", FROM " else text ", TO " in
      let info = direction ∷ chars msisdn ∷ [] in
      let after_address = u8 (off + 1 + (f_len / 2 + 1)) in
      let sm = record zero_sms {
        smsc = smsc_text smsc;
        udhi = bit 6 (msg 0) == 1;
        msisdn = msisdn;
        from_network = from_network;
      } in
      if ltb len 2
      then some ([], none)
      else if ltb 255 len
      then some ([], none)
      else if leb len after_address
      then truncated info
      else read_body msg len after_address from_network info sm
