-- ===== src/Sms/Meta.antt =====
-- gsm-parser/sms.h: what is kept of a short message, and the numbers of its enumerations. The
-- hexadecimal texts are their bytes.
use srlabs.Base.{ℕ, Bool, false, List, [], ◌++◌, Mem}
use srlabs.Radio.{Piece}

pub data SmsClass : Type 0 where
  class_display class_me class_sim class_te class_none : SmsClass

pub data OtaAlgo : Type 0 where
  algo_none implicit proprietary reserved des1_cbc des3_2k des3_3k des1_ecb aes_cbc : OtaAlgo

pub data OtaCounter : Type 0 where
  no_counter available higher_than_old old_plus_one : OtaCounter

pub data OtaSign : Type 0 where
  no_sign redund_check crypto_check digital_sign : OtaSign

-- DCS_NONE, DCS_7BIT_DEFAULT, DCS_UCS2 and DCS_8BIT_DATA of libosmocore, and DCS_COMPRESSED.
abbrev pub dcs_none : ℕ
dcs_none = 0

abbrev pub dcs_7bit_default : ℕ
dcs_7bit_default = 1

abbrev pub dcs_ucs2 : ℕ
dcs_ucs2 = 2

abbrev pub dcs_8bit_data : ℕ
dcs_8bit_data = 3

abbrev pub dcs_compressed : ℕ
dcs_compressed = 0x80

pub record SmsMeta : Type 0 where
  pub sequence : ℕ
  pub from_network : Bool
  pub pid : ℕ
  pub dcs : ℕ
  pub alphabet : ℕ
  pub class : SmsClass
  pub udhi : Bool
  pub concat : Bool
  pub concat_frag : ℕ
  pub concat_total : ℕ
  pub src_port : ℕ
  pub dst_port : ℕ
  pub ota : Bool
  pub ota_iei : ℕ
  pub ota_enc : Bool
  pub ota_enc_algo : OtaAlgo
  pub ota_sign : OtaSign
  pub ota_sign_algo : OtaAlgo
  pub ota_counter_type : OtaCounter
  pub ota_counter : List ℕ
  pub ota_tar : List ℕ
  pub ota_por : ℕ
  pub smsc : List ℕ
  pub msisdn : List ℕ
  pub length : ℕ
  pub udh_length : ℕ
  pub real_length : ℕ
  pub data_ : Mem
  pub info : List Piece

-- `memset(sm, 0, sizeof(*sm))`.
abbrev pub zero_sms : SmsMeta
zero_sms = record {
  sequence = 0;
  from_network = false;
  pid = 0;
  dcs = 0;
  alphabet = 0;
  class = class_display;
  udhi = false;
  concat = false;
  concat_frag = 0;
  concat_total = 0;
  src_port = 0;
  dst_port = 0;
  ota = false;
  ota_iei = 0;
  ota_enc = false;
  ota_enc_algo = algo_none;
  ota_sign = no_sign;
  ota_sign_algo = algo_none;
  ota_counter_type = no_counter;
  ota_counter = [];
  ota_tar = [];
  ota_por = 0;
  smsc = [];
  msisdn = [];
  length = 0;
  udh_length = 0;
  real_length = 0;
  data_ = λ _. 0;
  info = [];
}

-- APPEND_INFO, before it is cut to the length of the buffer.
abbrev pub append_info : List Piece → SmsMeta → SmsMeta
append_info i sm = record sm { info = sm.info ++ i }
