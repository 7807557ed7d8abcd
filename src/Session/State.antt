-- ===== src/Session/State.antt =====
-- gsm-parser/session.h: `struct session_info` and its parts. Fields that are only ever 0 or 1 are
-- Booleans, the others numbers. Strings are lists of characters, and byte arrays are `Mem`.
use srlabs.Base.{ℕ, Bool, false, List, [], Mem}
use srlabs.RandCheck.{RandState, zero_state}

-- `int8_t cipher_missing`: 0, 1 or -1.
pub data Missing : Type 0 where
  zero_missing one_missing minus_one : Missing

-- `struct frame_count`.
pub record FrameCount : Type 0 where
  pub unenc : ℕ
  pub unenc_rand : ℕ
  pub enc : ℕ
  pub enc_rand : ℕ
  pub enc_null : ℕ
  pub enc_null_rand : ℕ
  pub enc_si : ℕ
  pub enc_si_rand : ℕ
  pub predict : ℕ

-- `struct lapdm_buf`; `last_out_of_seq` is `last_out_of_seq_msg_number`, and `out_of_seq` is
-- `no_out_of_seq_sender_msgs`.
pub record LapdmBuf : Type 0 where
  pub len : ℕ
  pub payload : Mem
  pub nr : ℕ
  pub ns : ℕ
  pub out_of_seq : ℕ
  pub last_out_of_seq : ℕ

-- Ciphering and authentication.
pub record Security : Type 0 where
  pub cipher : ℕ
  pub decoded : ℕ
  pub key : Mem
  pub initial_seq : ℕ
  pub cipher_missing : Missing
  pub cm_cmd_fn : ℕ
  pub cm_comp_first_fn : ℕ
  pub cm_comp_last_fn : ℕ
  pub cm_comp_count : ℕ
  pub cipher_delta : ℕ
  pub auth : ℕ
  pub auth_req_fn : ℕ
  pub auth_resp_fn : ℕ
  pub auth_delta : ℕ
  pub cmc_imeisv : Bool
  pub ms_cipher_mask : ℕ

-- Who and where.
pub record Identity : Type 0 where
  pub mcc : ℕ
  pub mnc : ℕ
  pub lac : ℕ
  pub cid : ℕ
  pub lu_mcc : ℕ
  pub lu_mnc : ℕ
  pub lu_lac : ℕ
  pub imsi : List ℕ
  pub imei : List ℕ
  pub msisdn : List ℕ
  pub old_tmsi : Mem
  pub new_tmsi : Mem
  pub use_tmsi : Bool
  pub use_imsi : Bool

-- What has been seen of the transaction.
pub record Report : Type 0 where
  pub cracked : Bool
  pub mo : Bool
  pub mt : Bool
  pub unknown : Bool
  pub detach : Bool
  pub locupd : Bool
  pub lu_type : ℕ
  pub lu_acc : Bool
  pub lu_reject : Bool
  pub lu_rej_cause : ℕ
  pub pag_mi : ℕ
  pub serv_req : Bool
  pub call : Bool
  pub sms : Bool
  pub ssa : Bool
  pub aborted : Bool
  pub raupd : Bool
  pub attach : Bool
  pub att_acc : Bool
  pub pdp_activate : Bool
  pub tmsi_realloc : Bool
  pub release : Bool
  pub rr_cause : ℕ
  pub have_gprs : Bool
  pub iden_imsi_bc : Bool
  pub iden_imei_bc : Bool
  pub iden_imsi_ac : Bool
  pub iden_imei_ac : Bool
  pub assignment : Bool
  pub assign_complete : Bool
  pub handover : Bool
  pub forced_ho : Bool
  pub use_jump : ℕ
  pub sms_presence : Bool
  pub call_presence : Bool
  pub uplink : ℕ
  pub first_fn : ℕ
  pub last_fn : ℕ
  pub duration : ℕ

-- The padding checks.
pub record Padding : Type 0 where
  pub null : RandState
  pub si5 : RandState
  pub si5bis : RandState
  pub si5ter : RandState
  pub si6 : RandState
  pub other_sdcch : RandState
  pub other_sacch : RandState

-- The reassembly buffers, four for each kind of channel, and the last L3 message.
pub record Buffers : Type 0 where
  pub chan_sdcch : ℕ → LapdmBuf
  pub chan_sacch : ℕ → LapdmBuf
  pub chan_facch : ℕ → LapdmBuf
  pub last_dtap : Mem
  pub last_dtap_len : ℕ
  pub last_dtap_rat : ℕ

-- `msgs` is the list from `first_msg` to `last_msg`, by the addresses of its messages. `new_msg`
-- says that the pointer of that name is not null; it then points to the message in hand.
pub record Session : Type 0 where
  pub id : ℕ
  pub appid : ℕ
  pub name : List ℕ
  pub timestamp : ℕ
  pub rat : ℕ
  pub domain : ℕ
  pub started : Bool
  pub closed : Bool
  pub processing : Bool
  pub sec : Security
  pub who : Identity
  pub tr : Report
  pub fc : FrameCount
  pub pad : Padding
  pub bufs : Buffers
  pub msgs : List ℕ
  pub new_msg : Bool
  pub sql_callback : Bool

-- `memset(s, 0, sizeof(*s))`.
abbrev pub zero_fc : FrameCount
zero_fc = record {
  unenc = 0;
  unenc_rand = 0;
  enc = 0;
  enc_rand = 0;
  enc_null = 0;
  enc_null_rand = 0;
  enc_si = 0;
  enc_si_rand = 0;
  predict = 0;
}

abbrev pub zero_security : Security
zero_security = record {
  cipher = 0;
  decoded = 0;
  key = λ i. 0;
  initial_seq = 0;
  cipher_missing = zero_missing;
  cm_cmd_fn = 0;
  cm_comp_first_fn = 0;
  cm_comp_last_fn = 0;
  cm_comp_count = 0;
  cipher_delta = 0;
  auth = 0;
  auth_req_fn = 0;
  auth_resp_fn = 0;
  auth_delta = 0;
  cmc_imeisv = false;
  ms_cipher_mask = 0;
}

abbrev pub zero_identity : Identity
zero_identity = record {
  mcc = 0;
  mnc = 0;
  lac = 0;
  cid = 0;
  lu_mcc = 0;
  lu_mnc = 0;
  lu_lac = 0;
  imsi = [];
  imei = [];
  msisdn = [];
  old_tmsi = λ i. 0;
  new_tmsi = λ i. 0;
  use_tmsi = false;
  use_imsi = false;
}

abbrev pub zero_report : Report
zero_report = record {
  cracked = false;
  mo = false;
  mt = false;
  unknown = false;
  detach = false;
  locupd = false;
  lu_type = 0;
  lu_acc = false;
  lu_reject = false;
  lu_rej_cause = 0;
  pag_mi = 0;
  serv_req = false;
  call = false;
  sms = false;
  ssa = false;
  aborted = false;
  raupd = false;
  attach = false;
  att_acc = false;
  pdp_activate = false;
  tmsi_realloc = false;
  release = false;
  rr_cause = 0;
  have_gprs = false;
  iden_imsi_bc = false;
  iden_imei_bc = false;
  iden_imsi_ac = false;
  iden_imei_ac = false;
  assignment = false;
  assign_complete = false;
  handover = false;
  forced_ho = false;
  use_jump = 0;
  sms_presence = false;
  call_presence = false;
  uplink = 0;
  first_fn = 0;
  last_fn = 0;
  duration = 0;
}

abbrev pub zero_padding : Padding
zero_padding = record {
  null = zero_state;
  si5 = zero_state;
  si5bis = zero_state;
  si5ter = zero_state;
  si6 = zero_state;
  other_sdcch = zero_state;
  other_sacch = zero_state;
}
