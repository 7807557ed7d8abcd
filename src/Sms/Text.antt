-- ===== src/Sms/Text.antt =====
-- gsm-parser/sms.c: the data coding scheme, and the text of a message.
use srlabs.Base.{ℕ, ◌+◌, true, ◌||◌, List, [], ◌∷◌}
use srlabs.Base.{◌==◌, nonzero, if◌then◌else◌, shr, bit, low_bits, Mem, mem_of}
use srlabs.Radio.{text}
use srlabs.Sms.Meta.{
  SmsClass, class_display, class_me, class_sim, class_te, class_none, SmsMeta, dcs_none,
  dcs_7bit_default, dcs_ucs2, dcs_8bit_data, dcs_compressed, append_info,
}

-- The class of two bits.
pub sms_class_of : ℕ → SmsClass
sms_class_of b =
    if b == 0
    then class_display
    else if b == 1
    then class_me
    else if b == 2
    then class_sim
    else class_te

pub get_sms_class : ℕ → SmsClass
get_sms_class dcs =
    let coding_group = shr dcs 4 in
    if low_bits (shr coding_group 2) 2 == 0
    then (if bit 4 dcs == 1 then sms_class_of (low_bits dcs 2) else class_none)
    else if coding_group == 0xf
    then sms_class_of (low_bits dcs 2)
    else class_none

-- The alphabet of the general groups, 00xx xxxx.
pub general_alphabet : ℕ → ℕ
general_alphabet dcs =
    let kind = low_bits (shr dcs 2) 2 in
    let alpha =
      if kind == 0
      then dcs_7bit_default
      else if kind == 1
      then dcs_8bit_data
      else if kind == 2
      then dcs_ucs2
      else dcs_none in
    if bit 5 dcs == 1 then alpha + dcs_compressed else alpha

pub get_sms_alphabet : ℕ → ℕ
get_sms_alphabet dcs =
    let coding_group = shr dcs 4 in
    if dcs == 0
    then dcs_7bit_default
    else if low_bits (shr coding_group 2) 2 == 0
    then general_alphabet dcs
    else if coding_group == 0xc || coding_group == 0xd
    then dcs_7bit_default
    else if coding_group == 0xe
    then dcs_ucs2
    else if coding_group == 0xf
    then (if bit 2 dcs == 1 then dcs_8bit_data else dcs_7bit_default)
    else dcs_none

-- Binary data, some of it for the SIM card.
unfoldable pub handle_data : SmsMeta → SmsMeta
handle_data sm =
    let over_the_air = sm.pid == 124 || sm.pid == 127 || sm.dcs == 246 || sm.dcs == 22 in
    let marked =
      if over_the_air then record (append_info (text "OTA " ∷ []) sm) { ota = true } else sm in
    append_info (text "DATA_8BIT" ∷ []) marked

-- `decode_7bit` is gsm_7bit_decode_n of libosmocore.
module _ (decode_7bit : Mem → ℕ → List ℕ × ℕ) where
  unfoldable pub handle_text : Mem → ℕ → SmsMeta → SmsMeta
  handle_text msg len sm =
      let (decoded, _) = decode_7bit msg len in
      if len == 0
      then append_info (text "<NO DATA>" ∷ []) sm
      else if bit 7 sm.alphabet == 1
      then append_info (text "<COMPRESSED DATA>" ∷ []) sm
      else if sm.alphabet == dcs_7bit_default
      then (if nonzero (mem_of decoded 0)
          then append_info (text "TEXT_7BIT" ∷ []) sm
          else append_info (text "<FAILED TO DECODE TEXT>" ∷ []) sm)
      else if sm.alphabet == dcs_ucs2
      then append_info (text "TEXT_16BIT" ∷ []) sm
      else if sm.alphabet == dcs_none || sm.alphabet == dcs_8bit_data
      then handle_data sm
      else append_info (text "<UNKNOWN ALPHABET>" ∷ []) sm
