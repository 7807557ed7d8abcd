-- ===== src/Sms/Udh.antt =====
-- gsm-parser/sms.c, `handle_udh`: the header in front of the user data, element by element. The
-- loop counts in uint8_t and need not end: it is recursion on a number of rounds, and `none` where
-- they do not suffice.
pub mod Payload
pub mod Laws
use srlabs.Base.{
  ℕ, zero, suc, ◌+◌, ◌-◌, ◌*◌, ◌/◌, Bool, true, false, ◌||◌, not, List, [], ◌∷◌, Option, none, some,
}
use srlabs.Base.{ltb, leb, ◌==◌, if◌then◌else◌, u8, shr, Mem, shift}
use srlabs.Radio.{Piece, text, dec, chars}
use srlabs.Address.{handle_address}
use srlabs.Sms.Meta.{SmsMeta, append_info}
use srlabs.Sms.Text.{handle_text}
use srlabs.Sms.Ota.{handle_sec_cp, handle_sec_rp}

-- After an element the loop goes on, or the function returns. The Boolean is `ota_cmd`.
pub data Parsed : Type 0 where
  go_on : SmsMeta → Bool → Parsed
  stop : SmsMeta → Parsed

-- A failed check.
abbrev pub fail : List Piece → SmsMeta → Parsed
fail i sm = stop (append_info i sm)

-- The two concatenation headers: the numbers of all fragments and of this one.
pub concatenated : ℕ → ℕ → List Piece → Bool → SmsMeta → Parsed
concatenated total_frags this_frag error cmd sm =
    if ltb total_frags this_frag
    then fail error sm
    else go_on
        (record (append_info
          (text "[" ∷ dec this_frag ∷ text "/" ∷ dec total_frags ∷ text "] " ∷ []) sm) {
            concat = true;
            concat_frag = this_frag;
            concat_total = total_frags;
          })
        cmd

-- The two application ports; the name tells their width.
pub ports : Piece → ℕ → ℕ → Bool → SmsMeta → Parsed
ports name src dst cmd sm =
    go_on
      (record (append_info (name ∷ dec src ∷ text "->" ∷ dec dst ∷ text " " ∷ []) sm) {
        src_port = src;
        dst_port = dst;
      })
      cmd

-- An element whose length alone is checked.
pub sized : Bool → List Piece → Bool → SmsMeta → Parsed
sized fits error cmd sm = if fits then go_on sm cmd else fail error sm

abbrev pub over_the_air : ℕ → Bool → SmsMeta → Parsed
over_the_air iei cmd sm = go_on (record sm { ota = true; ota_iei = iei }) cmd

module _ (decode_7bit : Mem → ℕ → List ℕ × ℕ) where
  pub reply_address : Mem → ℕ → Bool → SmsMeta → Parsed
  reply_address p vlen cmd sm =
      let alt_dest = handle_address decode_7bit (shift p 1) (p 0) [] true in
      if ltb vlen (p 0 / 2 + 1)
      then fail (text "SANITY CHECK FAILED (SMS_REPLY_ADDR)" ∷ []) sm
      else go_on (append_info (text "REPLY_ADDR=" ∷ chars alt_dest ∷ text " " ∷ []) sm) cmd

  -- The switch on the type of an element, whose `vlen` bytes are at `p`.
  unfoldable pub element : ℕ → ℕ → Mem → ℕ → Bool → SmsMeta → Parsed
  element type vlen p header_len cmd sm =
      if type == 0x00
      then (if vlen == 3
          then concatenated (p 1) (p 2) (text "SANITY CHECK FAILED (SMS_FRAG_8)" ∷ []) cmd sm
          else fail (text "SANITY CHECK FAILED (SMS_FRAG_HDR)" ∷ []) sm)
      else if type == 0x01
      then sized (vlen == 2) (text "SANITY CHECK FAILED (SMS_SPECIAL_UDH)" ∷ []) cmd sm
      else if type == 0x04
      then (if vlen == 2
          then ports (text "PORT8 ") (p 1) (p 0) cmd sm
          else fail (text "SANITY CHECK FAILED (SMS_PORT8_HDR)" ∷ []) sm)
      else if type == 0x05
      then (if vlen == 4
          then ports (text "PORT16 ") (p 2 * 256 + p 3) (p 0 * 256 + p 1) cmd sm
          else fail (text "SANITY CHECK FAILED (SMS_PORT8_HDR)" ∷ []) sm)
      else if type == 0x06
      then sized (vlen == 1) (text "SANITY CHECK FAILED (SMS_SC_PARAM)" ∷ []) cmd sm
      else if type == 0x07
      then sized (vlen == 1) (text "SANITY CHECK FAILED (SMS_SOURCE_IND)" ∷ []) cmd sm
      else if type == 0x08
      then (if vlen == 4
          then concatenated (p 2) (p 3) (text "SANITY CHECK FAILED (SMS_FRAG_16)" ∷ []) cmd sm
          else fail (text "SANITY CHECK FAILED (SMS_FRAG16_HDR)" ∷ []) sm)
      else if type == 0x22
      then reply_address p vlen cmd sm
      else if type == 0x24
      then (if vlen == 1
          then go_on (append_info (text "LANG_SHIFT=" ∷ dec (p 0) ∷ text " " ∷ []) sm) cmd
          else fail (text "SANITY CHECK FAILED (SMS_LANG_SHIFT)" ∷ []) sm)
      else if type == 0x25
      then (if vlen == 1
          then go_on (append_info (text "LANG_SHIFT=" ∷ dec (p 0) ∷ text " " ∷ []) sm) cmd
          else fail (text "SANITY CHECK FAILED (SMS_LANG_LOCK_SHIFT)" ∷ []) sm)
      else if type == 0x70
      then over_the_air 0x70 true sm
      else if type == 0x71
      then over_the_air 0x71 false sm
      else if type == 0x7f
      then over_the_air 0x7f true sm
      else if type == 0xda
      then sized (leb vlen header_len) (text "SANITY CHECK FAILED (SMS_SMSC_SPECIFIC)" ∷ []) cmd sm
      else go_on sm cmd

  -- The loop, with so many rounds allowed; `offset` is in uint8_t.
  unfoldable pub elements : ℕ → Mem → ℕ → ℕ → ℕ → Bool → SmsMeta → Option Parsed
  elements zero msg len header_len offset cmd sm = none
  elements (suc rounds) msg len header_len offset cmd sm =
      let type = msg offset in
      let vlen = msg (u8 (offset + 1)) in
      let value = u8 (u8 (offset + 1) + 1) in
      elim (ltb header_len offset) [
        | true ↦ some (go_on sm cmd)
        | false ↦ elim (ltb len (value + vlen)) [
          | true ↦ some (fail (text "SANITY CHECK FAILED (UDH_IEI_LEN)" ∷ []) sm)
          | false ↦ elim (element type vlen (shift msg value) header_len cmd sm) [
            | go_on sm' cmd' ↦ elements rounds msg len header_len (u8 (value + vlen)) cmd' sm'
            | stop sm' ↦ some (stop sm')
          ]
        ]
      ]

  -- What follows the header.
  pub user_data : Mem → ℕ → Bool → SmsMeta → SmsMeta
  user_data p len ota_cmd sm =
      let ota = append_info (text "OTA " ∷ []) sm in
      if sm.ota
      then (if ota_cmd then handle_sec_cp p ota else handle_sec_rp p len ota)
      else handle_text decode_7bit p len sm

  pub finish : Mem → ℕ → Parsed → SmsMeta
  finish p len (go_on sm cmd) = user_data p len cmd sm
  finish p len (stop sm) = sm

  unfoldable pub handle_udh : ℕ → Mem → ℕ → SmsMeta → Option SmsMeta
  handle_udh rounds msg len sm =
      let header_len = msg 0 in
      let user_data_len = len - header_len - 1 in
      let start = record sm { udh_length = header_len; real_length = u8 user_data_len } in
      if len == 0
      then some (record (append_info (text "NO DATA" ∷ []) sm) { real_length = 0 })
      else if ltb (len - 1) header_len
      then some (append_info (text "SANITY CHECK FAILED (SMS_UDH_LEN)" ∷ []) sm)
      else elim (elements rounds msg len header_len 1 false start) [
        | none ↦ none
        | some parsed ↦ some (finish (shift msg (header_len + 1)) user_data_len parsed)
      ]
