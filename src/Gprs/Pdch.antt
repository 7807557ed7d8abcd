-- ===== src/Gprs/Pdch.antt =====
-- gsm-parser/gprs.c: the bursts of the packet channels are collected, and a block is decoded by its
-- coding scheme.
use srlabs.Base.{ℕ, zero, suc, ◌+◌, ◌*◌, ◌%◌, not, List, [], ◌∷◌, Outcome, done, ◌>>=◌}
use srlabs.Base.{
  ltb, ◌==◌, nonzero, if◌then◌else◌, bit, low_bits, Mem, store, shift, memcpy, memset, mem_of,
}
use srlabs.BitFunc.{expand_msb, compress_lsb}
use srlabs.Radio.{Message, rat_gsm, domain_ps, uplink_bit, has_bit}
use srlabs.Burst.{BurstInd, BurstBuf}
use srlabs.Coding.Interleave.{Maps, gsm_deinter_sacch}
use srlabs.Coding.Crc.{parity_check}
use srlabs.Coding.Viterbi.{conv_cch_decode}
use srlabs.Coding.Cch.{Locals, decode_signalling, put_back}
use srlabs.Gprs.Rlc.{Sent}
use srlabs.Gprs.Handler.{Table, zero_frag, rlc_type_handler}
use srlabs.Gprs.Puncture.{fill_punct_cs2, fill_punct_cs3, depunct}
use srlabs.Gprs.Estimate.{cs_estimate, usf6_estimate, usf12_estimate}

-- The static maps and the table of TBFs.
pub record Packet : Type 0 where
  pub map_cs2 : Mem
  pub map_cs3 : Mem
  pub table : Table

unfoldable pub gprs_init : Packet → Packet
gprs_init p = record {
  map_cs2 = fill_punct_cs2 p.map_cs2;
  map_cs3 = fill_punct_cs3 p.map_cs3;
  table = λ _. record { last_bsn = 0; start_bsn = 0; frags = λ _. zero_frag };
}

pub ccitt_poly : Mem
ccitt_poly = mem_of (1 ∷ 0 ∷ 0 ∷ 0 ∷ 1 ∷ 0 ∷ 0 ∷ 0 ∷ 0 ∷ 0 ∷ 0 ∷ 1 ∷ 0 ∷ 0 ∷ 0 ∷ 0 ∷ 1 ∷ [])

pub ccitt_rem : Mem
ccitt_rem i = if ltb i 16 then 1 else 0

-- The arrays of process_pdch and of what it calls, and the message on its stack.
pub record Stack : Type 0 where
  pub locals : Locals
  pub depunct_data : Mem
  pub decoded_data : Mem
  pub llc_data : Mem
  pub message : Message

-- The flag takes the three bits from `off` on; the bits from there are checked and packed.
pub check_block : ℕ → ℕ → ℕ → ℕ → Mem → Mem → Mem × ℕ
check_block usf off dsize len decoded gprs_msg =
    let high = store decoded off (bit 2 usf) in
    let middle = store high (off + 1) (bit 1 usf) in
    let rebuilt = shift (store middle (off + 2) (bit 0 usf)) off in
    if parity_check rebuilt dsize ccitt_poly ccitt_rem 16
    then (gprs_msg, 0)
    else (compress_lsb rebuilt gprs_msg (len * 8), len)

-- The message and its length, by the coding scheme: CS-1 to CS-4.
pub decode_block : Packet → Stack → ℕ → Mem → Mem → Mem × ℕ
decode_block p stack zero conv_data gprs_msg = decode_signalling stack.locals conv_data gprs_msg
decode_block p stack (suc zero) conv_data gprs_msg =
    let soft = depunct conv_data stack.depunct_data (294 * 2) p.map_cs2 in
    let decoded = conv_cch_decode stack.locals.trellis soft stack.decoded_data 294 in
    check_block (usf6_estimate decoded) 3 271 33 decoded gprs_msg
decode_block p stack (suc (suc zero)) conv_data gprs_msg =
    let soft = depunct conv_data stack.depunct_data (338 * 2) p.map_cs3 in
    let decoded = conv_cch_decode stack.locals.trellis soft stack.decoded_data 338 in
    check_block (usf6_estimate decoded) 3 315 39 decoded gprs_msg
decode_block p stack _ conv_data gprs_msg =
    check_block (usf12_estimate conv_data) 9 431 53 conv_data gprs_msg

-- A burst goes to the end of the buffer, with its two stealing flags.
pub append_burst : BurstInd → BurstBuf → BurstBuf
append_burst bi bb =
    let off = bb.count * 114 in
    record bb {
      data_ = put_back bb.data_ off (expand_msb bi.bits (shift bb.data_ off) 114);
      sbit =
          store (store bb.sbit (bb.count * 2) (bit 4 (bi.bits 14))) (bb.count * 2 + 1)
            (bit 5 (bi.bits 14));
      snr = store bb.snr bb.count bi.snr;
      rxl = store bb.rxl bb.count bi.rx_level;
      arfcn = store bb.arfcn bb.count bi.band_arfcn;
      fn = store bb.fn bb.count bi.frame_nr;
      count = bb.count + 1;
    }

abbrev pub block_message : Message → BurstBuf → ℕ → Mem → ℕ → Message
block_message m bb ts msg len = record m {
  fn = bb.fn 0;
  arfcn = bb.arfcn 0;
  bb_data = bb.data_;
  rat = rat_gsm;
  domain = domain_ps;
  chan_nr = ts;
  msg_len = len;
  msg = memcpy m.msg 0 msg len;
}

-- `sizeof(bb->data)`.
abbrev pub empty_burst_buf : BurstBuf → BurstBuf
empty_burst_buf bb = record bb { data_ = memset bb.data_ 0 0 912; count = 0 }

-- What process_pdch changes, and its result.
pub record Pdch : Type 0 where
  pub buffers : ℕ → BurstBuf
  pub packet : Packet
  pub gprs_msg : Mem
  pub sent : List Sent
  pub len : ℕ

-- The block is complete.
pub finish_block : Maps → Stack → ℕ → ℕ → BurstBuf → Pdch → Outcome Pdch
finish_block maps stack n ts bb p =
    let conv_data = gsm_deinter_sacch maps bb.data_ (λ _. 0) in
    let (msg, len) = decode_block p.packet stack (cs_estimate bb.sbit) conv_data p.gprs_msg in
    let m = block_message stack.message bb ts msg len in
    let handled =
      if nonzero len
      then rlc_type_handler stack.llc_data m p.packet.table
      else done (p.packet.table, []) in
    handled >>= (λ (table, sent). done (record {
      buffers = λ k. if k == n then empty_burst_buf bb else p.buffers k;
      packet = record (p.packet) { table = table };
      gprs_msg = msg;
      sent = sent;
      len = len;
    }))

unfoldable pub process_pdch : Maps → Stack → BurstInd → Pdch → Outcome Pdch
process_pdch maps stack bi p =
    let ul = has_bit uplink_bit bi.band_arfcn in
    let ts = low_bits bi.chan_nr 3 in
    let n = if ul then 2 * ts else 2 * ts + 1 in
    let bb = p.buffers n in
    let appended = append_burst bi bb in
    if not (bi.frame_nr % 13 % 4 == bb.count)
    then done (record p { sent = []; len = 0 })
    else if ltb appended.count 4
    then done
        (record p { buffers = λ k. if k == n then appended else p.buffers k; sent = []; len = 0 })
    else finish_block maps stack n ts appended p
