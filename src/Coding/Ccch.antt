-- ===== src/Coding/Ccch.antt =====
-- gsm-parser/ccch.c: bursts of a control channel are collected, deciphered and decoded, and the
-- message goes to LAPDm. `a5` is osmo_a5 of libosmocore: the key streams of 114 bits of the two
-- directions, downlink first, for a cipher, a key and a frame number.
pub mod Laws
pub mod Errors
pub mod Bursts
use srlabs.Base.{
  ℕ, ◌+◌, ◌-◌, ◌*◌, ◌/◌, ◌%◌, ◌^◌, bit_xor, Bool, true, false, ◌&&◌, ◌||◌, not, List, [], ◌∷◌,
}
use srlabs.Base.{
  Outcome, done, abort, ◌>>=◌, ltb, leb, ◌==◌, if◌then◌else◌, nonzero, u8, u32, shr, Mem, store,
  shift, memcpy, count_up,
}
use srlabs.BitFunc.{expand_msb, not_zero}
use srlabs.Radio.{
  Message, rat_gsm, msg_sacch, msg_sdcch, sacch_bit, decoded_bit, uplink_bit, set_bit, has_bit,
  is_uplink,
}
use srlabs.Session.{Session, Ctx}
use srlabs.L3.Env.{Env}
use srlabs.L3.Dtap.{World}
use srlabs.L3.Lapdm.{sdcch, sacch, handle_lapdm}
use srlabs.Burst.{BurstInd, BurstBuf}
use srlabs.Coding.Interleave.{Maps, gsm_deinter_sacch}
use srlabs.Coding.Cch.{Locals, put_back, encode_signalling, decode_signalling}

-- MSG_CIPHERED, and BI_FLG_SACCH, as bit numbers.
abbrev pub ciphered_bit : ℕ
ciphered_bit = 6

abbrev pub burst_sacch_bit : ℕ
burst_sacch_bit = 5

-- The uninitialised arrays of the functions.
pub record Arrays : Type 0 where
  pub locals : Locals
  pub raw_coded : Mem
  pub deciphered : Mem
  pub conv_data : Mem

abbrev pub KeyStream : Type 0
KeyStream = ℕ → Mem → ℕ → Mem × Mem

module _ (a5 : KeyStream) (cipher : ℕ) (key : Mem) (ciphered uplink : Bool) (bb : BurstBuf) where
  -- Bit `i` of burst `j` of the key stream; nothing where the message is not ciphered.
  unfoldable pub key_bit : ℕ → ℕ → ℕ
  key_bit j i =
      let (downlink_ks, uplink_ks) = a5 cipher key (bb.fn j) in
      if not ciphered then 0 else if uplink then uplink_ks i else downlink_ks i

  -- The soft bit, in int8_t.
  pub soft_bit : ℕ → ℕ → ℕ
  soft_bit j i =
      let snr_amp = u8 (shr (bb.snr j) 1) in
      let b = bb.data_ (j * 114 + i) in
      let plain = if ciphered then bit_xor b (key_bit j i) else b in
      if nonzero plain then u8 (256 - snr_amp) else snr_amp

  unfoldable pub soft_bursts : Mem → Mem
  soft_bursts deciphered =
      count_up 4 (λ j d. count_up 114 (λ i e. store e (j * 114 + i) (soft_bit j i)) d) deciphered

  pub is_error : Mem → ℕ → ℕ → Bool
  is_error raw_coded j i =
      let b = raw_coded (j * 114 + i) in
      not ((if ciphered then bit_xor b (key_bit j i) else b) == bb.data_ (j * 114 + i))

  unfoldable pub count_errors : Mem → ℕ
  count_errors raw_coded =
      count_up 4 (λ j n. count_up 114 (λ i k. if is_error raw_coded j i then k + 1 else k) n) 0

-- The message is `w.cs.m`, whose burst buffer is `bb`.
abbrev pub is_ciphered : Message → Bool
is_ciphered m = has_bit ciphered_bit m.flags

unfoldable pub compute_ber : Maps → Arrays → KeyStream → BurstBuf → Session → Message → ℕ
compute_ber maps arrays a5 bb s m =
    let raw_coded = encode_signalling maps arrays.locals m.msg arrays.raw_coded in
    let bit_errors =
      count_errors a5 s.sec.cipher s.sec.key (is_ciphered m) (is_uplink m) bb raw_coded in
    if ltb 228 bit_errors then 228 else bit_errors

-- What the decoder finds: the message and the result.
pub decode_bursts : Maps → Arrays → KeyStream → BurstBuf → Session → Message → Mem × ℕ
decode_bursts maps arrays a5 bb s m =
    let deciphered =
      soft_bursts a5 s.sec.cipher s.sec.key (is_ciphered m) (is_uplink m) bb arrays.deciphered in
    decode_signalling arrays.locals (gsm_deinter_sacch maps deciphered arrays.conv_data) m.msg

module _ (env : Env) (smsc : List ℕ) (maps : Maps) (arrays : Arrays) (a5 : KeyStream) where
  pub deliver : World → Outcome World
  deliver w =
      let m = w.cs.m in
      if has_bit sacch_bit m.flags
      then handle_lapdm env smsc sacch (shift m.msg 2) 21 m.fn (is_uplink m) w
      else handle_lapdm env smsc sdcch m.msg 23 m.fn (is_uplink m) w

  -- The sessions afterwards, and the result.
  pub try_decode : BurstBuf → World → Outcome (World × ℕ)
  try_decode bb w =
      let m = w.cs.m in
      let (msg, ret) = decode_bursts maps arrays a5 bb w.cs.s m in
      let decoded : Message = record m {
        msg = msg;
        flags = set_bit decoded_bit m.flags;
        msg_len = 23;
        rat = rat_gsm;
      } in
      if nonzero ret
      then deliver (record w { cs = record (w.cs) { m = decoded } }) >>= (λ w'. done (w', ret))
      else done (w, ret)

-- The bits go behind those of the other bursts, and later the rest of what is noted of a burst.
pub append_bits : BurstInd → BurstBuf → BurstBuf
append_bits bi bb =
    let off = bb.count * 114 in
    record bb { data_ = put_back bb.data_ off (expand_msb bi.bits (shift bb.data_ off) 114) }

pub append_fields : BurstInd → BurstBuf → BurstBuf
append_fields bi bb = record bb {
  snr = store bb.snr bb.count bi.snr;
  rxl = store bb.rxl bb.count bi.rx_level;
  fn = store bb.fn bb.count bi.frame_nr;
  arfcn = store bb.arfcn bb.count bi.band_arfcn;
  count = bb.count + 1;
}

-- `type`: a traffic channel, whose bursts need not follow each other.
pub is_traffic : BurstInd → Bool
is_traffic bi = ltb bi.chan_nr 0x20

pub follows : BurstInd → BurstBuf → Bool
follows bi bb = bi.frame_nr == u32 (bb.fn (bb.count - 1) + 1) % (2048 * 26 * 51)

-- The new message; `fresh` is what malloc returns.
pub new_message : Session → BurstInd → BurstBuf → Message → Message
new_message s bi bb fresh =
    let channel = if has_bit burst_sacch_bit bi.flags then msg_sacch else msg_sdcch in
    let ciphered = nonzero s.sec.cipher || (is_traffic bi && not_zero s.sec.key 8) in
    record fresh {
      chan_nr = bi.chan_nr;
      flags = if ciphered then set_bit ciphered_bit channel else channel;
      fn = bb.fn 0;
      arfcn = bb.arfcn 0;
      bb_data = bb.data_;
      info = [];
    }

module _ (env : Env) (smsc : List ℕ) (maps : Maps) (arrays : Arrays) (a5 : KeyStream)
    (fresh : Message) where
  -- The bursts of a message are complete: it is decoded, whatever comes of it.
  pub decode_message : BurstInd → BurstBuf → World → Outcome (BurstBuf × World)
  decode_message bi bb w =
      let m = new_message w.cs.s bi bb fresh in
      let held = record w {
        cs = record (w.cs) { s = record (w.cs.s) { new_msg = true }; m = m; live = true };
      } in
      try_decode env smsc maps arrays a5 bb held >>= (λ (w', _). done (record bb { count = 0 }, w'))

  pub process_ccch : BurstInd → BurstBuf → World → Outcome (BurstBuf × World)
  process_ccch bi bb w =
      let with_bits = append_bits bi bb in
      let whole = append_fields bi with_bits in
      if ltb 3 bb.count
      then abort
      else if nonzero bb.count && not (is_traffic bi) && not (follows bi bb)
      then done (record with_bits { count = 0 }, w)
      else if ltb whole.count 4
      then done (whole, w)
      else decode_message bi whole w
