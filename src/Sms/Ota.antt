-- ===== src/Sms/Ota.antt =====
-- gsm-parser/sms.c: the security headers of messages for the SIM card, of commands and of responses.
use srlabs.Base.{ℕ, ◌-◌, true, false, List, [], ◌∷◌}
use srlabs.Base.{ltb, ◌==◌, nonzero, if◌then◌else◌, shr, bit, low_bits, Mem, shift, bytes}
use srlabs.Radio.{text, hex2, dump}
use Prim.Native.String.{String}
use srlabs.Sms.Meta.{
  SmsMeta, OtaAlgo, algo_none, implicit, proprietary, reserved, des1_cbc, des3_2k, des3_3k,
  des1_ecb, aes_cbc, OtaCounter, no_counter, available, higher_than_old, old_plus_one, OtaSign,
  no_sign, redund_check, crypto_check, digital_sign, append_info,
}

-- The fields of `struct sec_header`, by their offsets.
abbrev pub spi1 : Mem → ℕ
spi1 sh = sh 3

abbrev pub kic : Mem → ℕ
kic sh = sh 5

abbrev pub kid : Mem → ℕ
kid sh = sh 6

pub counter_type : ℕ → OtaCounter × String
counter_type b =
    if b == 0
    then (no_counter, "NO_CNTR ")
    else if b == 1
    then (available, "CNTR_AV ")
    else if b == 2
    then (higher_than_old, "CNTR_HI ")
    else (old_plus_one, "CNTR_+1 ")

-- Of the algorithms of encryption, by `kic`.
pub enc_algo : ℕ → OtaAlgo × String
enc_algo k =
    let family = low_bits k 2 in
    let member = low_bits (shr k 2) 2 in
    if family == 0
    then (implicit, "IMPLICIT ")
    else if family == 1
    then (if member == 0
        then (des1_cbc, "1DES-CBC ")
        else if member == 1
        then (des3_2k, "3DES-2K ")
        else if member == 2
        then (des3_3k, "3DES-3K ")
        else (des1_ecb, "1DES-EBC "))
    else if family == 2
    then (if member == 0 then (aes_cbc, "AES-CBC ") else (reserved, "RESERVED "))
    else (proprietary, "PROPRIET ")

pub sign_type : ℕ → OtaSign × String
sign_type b =
    if b == 0
    then (no_sign, "NOCC ")
    else if b == 1
    then (redund_check, "RC ")
    else if b == 2
    then (crypto_check, "CC ")
    else (digital_sign, "DS ")

-- Of the algorithms of signatures, by `kid`.
pub sign_algo : ℕ → OtaAlgo × String
sign_algo k =
    let family = low_bits k 2 in
    let member = low_bits (shr k 2) 2 in
    if family == 0
    then (implicit, "IMPLICIT ")
    else if family == 1
    then (if member == 0
        then (des1_cbc, "1DES-CBC ")
        else if member == 1
        then (des3_2k, "3DES-2K ")
        else if member == 2
        then (des3_3k, "3DES-3K ")
        else (reserved, "RESERVED "))
    else if family == 2
    then (reserved, "RESERVED ")
    else (proprietary, "PROPRIET ")

-- The parts of handle_sec_cp, one after the other.
unfoldable pub set_counter_type : Mem → SmsMeta → SmsMeta
set_counter_type sh sm =
    let (type, name) = counter_type (low_bits (shr (spi1 sh) 3) 2) in
    record (append_info (text name ∷ []) sm) { ota_counter_type = type }

unfoldable pub set_encryption : Mem → SmsMeta → SmsMeta
set_encryption sh sm =
    let (algo, name) = enc_algo (kic sh) in
    if bit 2 (spi1 sh) == 1
    then record (append_info (text "ENC " ∷ text name ∷ []) sm) {
      ota_enc = true;
      ota_enc_algo = algo;
    }
    else record (append_info (text "NOENC " ∷ []) sm) { ota_enc = false; ota_enc_algo = algo_none }

unfoldable pub set_signature : Mem → SmsMeta → SmsMeta
set_signature sh sm =
    let kind = low_bits (spi1 sh) 2 in
    let (type, type_name) = sign_type kind in
    let (algo, name) = sign_algo (kid sh) in
    let typed = record (append_info (text type_name ∷ []) sm) { ota_sign = type } in
    if nonzero kind
    then record (append_info (text name ∷ []) typed) { ota_sign_algo = algo }
    else record typed { ota_sign_algo = algo_none }

unfoldable pub set_tar : List ℕ → SmsMeta → SmsMeta
set_tar tar sm = record (append_info (text "TAR " ∷ dump tar ∷ text " " ∷ []) sm) { ota_tar = tar }

-- The counter is read where nothing is encrypted.
unfoldable pub set_counter : Mem → SmsMeta → SmsMeta
set_counter sh sm =
    let counter = bytes (shift sh 10) 5 in
    if bit 2 (spi1 sh) == 0
    then record (append_info (text "CNTR " ∷ dump counter ∷ text " " ∷ []) sm) {
      ota_counter = counter;
    }
    else sm

unfoldable pub handle_sec_cp : Mem → SmsMeta → SmsMeta
handle_sec_cp msg sm =
    let encrypted = set_encryption msg (set_counter_type msg sm) in
    set_counter msg (set_tar (bytes (shift msg 7) 3) (set_signature msg encrypted))

unfoldable pub handle_sec_rp : Mem → ℕ → SmsMeta → SmsMeta
handle_sec_rp msg len sm =
    let tar = set_tar (bytes (shift msg 3) 3) sm in
    let status = msg 12 in
    let por = record (append_info (text "POR " ∷ hex2 status ∷ text " " ∷ []) tar) {
      ota_por = status;
    } in
    let sign_len = if ltb 16 (len - 13) then 16 else len - 13 in
    if ltb 13 len
    then append_info (text "CC " ∷ dump (bytes (shift msg 13) sign_len) ∷ text " " ∷ []) por
    else append_info (text "CC -- " ∷ []) por
