-- ===== src/L3/Env.antt =====
-- What the handlers call and this library does not define: `tlv_parse` and `gsm_7bit_decode_n` of
-- libosmocore, and `handle_tpdu` of gsm-parser/sms.c.
use srlabs.Base.{ℕ, Bool, List, Option, Mem}
use srlabs.Radio.{Piece}
use srlabs.Session.{Config}

pub record Env : Type 0 where
  pub cfg : Config
  -- `tlv_parse` with `gsm48_att_tlvdef` and with `gsm48_rr_att_tlvdef`: the value that a tag has
  -- in so many bytes, and its length.
  pub cc_tlv : Mem → ℕ → ℕ → Option (Mem × ℕ)
  pub rr_tlv : Mem → ℕ → ℕ → Option (Mem × ℕ)
  -- `gsm_7bit_decode_n` into a buffer of GSM48_MI_SIZE: the text, and its length.
  pub decode_7bit : Mem → ℕ → List ℕ × ℕ
  -- What `handle_tpdu` appends to the text of the message; its list of SMS is not modelled.
  pub tpdu_info : Mem → ℕ → Bool → List ℕ → List Piece
