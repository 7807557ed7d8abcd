-- ===== src/Coding/Tch.antt =====
-- gsm-parser/tch.c: the bursts of a traffic channel, of which those that are stolen for signalling
-- are collected until eight make a block. Copies within the buffer go forwards, as those of
-- memmove. The buffer is a part of the session in the code: where `handle_lapdm` resets the session,
-- it clears the buffer, too. The argument `is_reset` says of the sessions before and after that call
-- whether it did. The message of the call is not that of the session, which `handle_lapdm` describes.
pub mod Laws
use srlabs.Base.{ℕ, ◌+◌, ◌*◌, ◌/◌, bit_xor, Bool, true, false, not, ◌&&◌, Option, none, some, List}
use srlabs.Base.{
  Outcome, done, ◌>>=◌, ltb, leb, ◌==◌, if◌then◌else◌, nonzero, bit, num, Mem, store, shift, memcpy,
  memset, count_up,
}
use srlabs.BitFunc.{expand_msb, not_zero}
use srlabs.Radio.{has_bit, uplink_bit}
use srlabs.L3.Env.{Env}
use srlabs.L3.Dtap.{World}
use srlabs.L3.Lapdm.{facch, handle_lapdm}
use srlabs.Burst.{BurstInd, BurstBuf}
use srlabs.Coding.Interleave.{Maps, gsm_deinter_facch}
use srlabs.Coding.Cch.{Locals, put_back, decode_signalling}
use srlabs.Coding.Ccch.{KeyStream}

-- The burst in the first free place of the buffer, deciphered where the session has a key.
pub buffer_burst : KeyStream → Mem → BurstInd → BurstBuf → BurstBuf
buffer_burst a5 key bi bb =
    let off = bb.count * 114 in
    let raw = put_back (bb.data_) off (expand_msb (bi.bits) (shift (bb.data_) off) 114) in
    let (downlink_ks, uplink_ks) = a5 1 key (bi.frame_nr) in
    let ks = if has_bit uplink_bit (bi.band_arfcn) then uplink_ks else downlink_ks in
    let plain = count_up 114 (λ i d. store d (off + i) (bit_xor (d (off + i)) (ks i))) raw in
    let first = store (bb.sbit) (bb.count * 2) (bit 4 (bi.bits 14)) in
    record bb {
      data_ = if not_zero key 8 then plain else raw;
      sbit = store first (bb.count * 2 + 1) (bit 5 (bi.bits 14));
      snr = store (bb.snr) (bb.count) (bi.snr);
      rxl = store (bb.rxl) (bb.count) (bi.rx_level);
    }

-- One more burst, without or with an error.
pub append : BurstBuf → BurstBuf
append bb = record bb { count = bb.count + 1 }

pub append_error : BurstBuf → BurstBuf
append_error bb = record bb { count = bb.count + 1; errors = bb.errors + 1 }

pub discard : BurstBuf → BurstBuf
discard bb = record bb { count = 0; errors = 0 }

-- The buffer, and whether the function goes on: a third error discards all bursts.
pub try_error : BurstBuf → BurstBuf × Bool
try_error bb = if ltb (bb.errors) 2 then (append_error bb, true) else (discard bb, false)

-- The four cases of the flags of the two half bursts.
pub check_flags : (first second : Bool) → BurstBuf → BurstBuf × Bool
check_flags false false bb = if nonzero (bb.count) then try_error bb else (bb, false)
check_flags false true bb = if ltb (bb.count) 4 then (append bb, true) else try_error bb
check_flags true false bb = if ltb 3 (bb.count) then (append bb, true) else try_error bb
check_flags true true bb = if ltb 3 (bb.count) then (append bb, true) else (append_error bb, true)

-- After a block that was not decoded: the oldest burst is dropped.
pub skip_burst : BurstBuf → BurstBuf
skip_burst bb = record bb {
  data_ = memcpy (bb.data_) 0 (shift (bb.data_) 114) (7 * 114);
  sbit = memcpy (bb.sbit) 0 (shift (bb.sbit) 2) (7 * 2);
  count = 7;
  errors = bb.errors / 2;
}

-- After a block that was decoded: the second half is kept where another block may have begun.
pub next_block : Bool → BurstBuf → BurstBuf
next_block true bb = record bb {
  data_ = memset (memcpy (bb.data_) 0 (shift (bb.data_) (4 * 114)) (4 * 114)) (4 * 114) 0 (4 * 114);
  sbit = memcpy (bb.sbit) 0 (shift (bb.sbit) (4 * 2)) (4 * 2);
  count = 4;
  errors = bb.errors / 2;
}
next_block false bb = record bb { data_ = memset (bb.data_) 0 0 (8 * 114); count = 0; errors = 0 }

-- Up to the decoding: the buffer, and whether it holds a whole block.
pub collect : KeyStream → Mem → BurstInd → BurstBuf → BurstBuf × Bool
collect a5 key bi bb =
    let (checked, goes_on) =
      check_flags (has_bit 4 (bi.bits 14)) (has_bit 5 (bi.bits 14)) (buffer_burst a5 key bi bb) in
    (checked, goes_on && (checked.count == 8))

-- The decoded block: the message, and the result.
pub decode_block : Maps → Locals → Mem → BurstBuf → Mem → Mem × ℕ
decode_block maps locals conv_data bb msg =
    decode_signalling locals (gsm_deinter_facch maps (bb.data_) conv_data) msg

-- The buffer for the next burst, after the decoding returned `ret`.
pub after_block : ℕ → BurstInd → BurstBuf → BurstBuf
after_block ret bi bb =
    if ret == 0
    then skip_burst bb
    else next_block (has_bit 4 (bi.bits 14) && has_bit 5 (bi.bits 14)) bb

-- A buffer that `session_reset` has cleared.
pub no_bursts : BurstBuf
no_bursts = record {
  count = 0;
  errors = 0;
  snr = λ i. 0;
  rxl = λ i. 0;
  fn = λ i. 0;
  arfcn = λ i. 0;
  data_ = λ i. 0;
  sbit = λ i. 0;
}

module _ (is_reset : World → World → Bool) (env : Env) (smsc : List ℕ) (maps : Maps)
    (locals : Locals) (a5 : KeyStream) (conv_data : Mem) where
  -- The eighth burst: the buffer, the message, the sessions, and the result.
  pub handle_block : BurstInd → BurstBuf → Mem → World → Outcome (BurstBuf × Mem × World × ℕ)
  handle_block bi bb msg w =
      let (decoded, ret) = decode_block maps locals conv_data bb msg in
      if ret == 0
      then done (after_block ret bi bb, decoded, w, 0)
      else handle_lapdm env smsc facch decoded 23 (bb.fn 0) (has_bit uplink_bit bi.band_arfcn) w
        >>= (λ w'.
            let left = if is_reset w w' then no_bursts else bb in
            done (after_block ret bi left, decoded, w', 23))

  pub process_tch : BurstInd → BurstBuf → Mem → World → Outcome (BurstBuf × Mem × World × ℕ)
  process_tch bi bb msg w =
      let (whole, complete) = collect a5 (w.cs.s.sec.key) bi bb in
      if complete then handle_block bi whole msg w else done (whole, msg, w, 0)
