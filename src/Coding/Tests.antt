-- ===== src/Coding/Tests.antt =====
-- gsm-parser: the theorems on the channel coding at a message, and at bursts.
use srlabs.Base.{
  ℕ, ◌+◌, ◌*◌, ◌%◌, ◌<◌, ◌≡◌, ◌↔◌, refl, arith, inr, true, false, [], Mem, Safe, ◌==◌,
  if◌then◌else◌,
}
use srlabs.Radio.{Message}
use srlabs.Session.{Session}
use srlabs.Session.Tests.{new_session, message}
use srlabs.L3.Tests.{env, no_counts-HasRoom, idle, held_world, held_world-HeldWorld}
use srlabs.Burst.{BurstInd, BurstBuf}
use srlabs.Coding.Interleave.{Maps, gsm_interleave_init}
use srlabs.Coding.Crc.{parity_encode, parity_check}
use srlabs.Coding.Parity.{IsBits, parity_check-parity_encode_iff}
use srlabs.Coding.Cch.{Locals, encode_signalling}
use srlabs.Coding.Ccch.{Arrays, KeyStream, key_bit, decode_bursts, decode_message}
use srlabs.Coding.Ccch.Laws.{IsKeyStream, on_air, decode_bursts-encode_signalling}
use srlabs.Coding.Ccch.Bursts.{InOrder, process_all, HoldsBurst, process_all-decode_message}
use srlabs.Coding.Chan.{sdcch, sacch, xcch_detect}
use srlabs.Coding.Chan.Laws.{sacch_start, xcch_detect-start_iff}
use srlabs.Coding.Tch.{process_tch}
use srlabs.Coding.Tch.Laws.{Buffering, process_tch-Buffering}

abbrev zero_mem : Mem
zero_mem i = 0

abbrev zero_maps : Maps
zero_maps = record { sacch_map = zero_mem; facch_map = zero_mem }

abbrev zero_locals : Locals
zero_locals = record {
  decoded_data = zero_mem;
  coded_data = zero_mem;
  crc_result = zero_mem;
  trellis = record { errors = zero_mem; history = λ _. zero_mem };
  fc_ctx = record { crc_size = 0; data_size = 0; syn_start = 0; syndrome_reg = zero_mem };
}

abbrev zero_arrays : Arrays
zero_arrays = record {
  locals = zero_locals;
  raw_coded = zero_mem;
  deciphered = zero_mem;
  conv_data = zero_mem;
}

-- A stream that depends on the frame and the direction.
abbrev alternating : KeyStream
alternating cipher key fn = (λ i. (fn + i) % 2, λ i. i % 2)

alternating-IsKeyStream : IsKeyStream alternating
unfolding IsKeyStream
alternating-IsKeyStream cipher key fn i = (omega arith, omega arith)

-- A ciphered message on the downlink, and the session of its cipher.
abbrev ciphered : Message
ciphered = record (message []) { flags = 0x41 }

abbrev a51_session : Session
a51_session = let s = new_session 0 0 in record s { sec = record (s.sec) { cipher = 1 } }

abbrev text : Mem
text i = (7 * i + 3) % 256

abbrev no_bursts : BurstBuf
no_bursts = record {
  count = 0;
  errors = 0;
  snr = λ j. 40 + j;
  rxl = zero_mem;
  fn = λ j. 1000 + j;
  arfcn = zero_mem;
  data_ = zero_mem;
  sbit = zero_mem;
}

abbrev maps : Maps
maps = gsm_interleave_init zero_maps

abbrev four_bursts : BurstBuf
four_bursts = record no_bursts {
  data_ =
      on_air alternating 1 zero_mem true false no_bursts
        (encode_signalling maps zero_locals text zero_mem);
}

decode_bursts-encode_signalling_example :
    ((decode_bursts maps zero_arrays alternating four_bursts a51_session ciphered).1 ≡ 23)
    × ((n : ℕ)
        → n < 23
        → (decode_bursts maps zero_arrays alternating four_bursts a51_session ciphered).0 n
          ≡ text n)
unfolding on_air key_bit
decode_bursts-encode_signalling_example =
    decode_bursts-encode_signalling zero_maps zero_locals zero_arrays alternating four_bursts
      a51_session ciphered text zero_mem alternating-IsKeyStream (λ i. omega arith)
      (λ i. omega arith) (λ j below. (omega arith, omega (arith, below))) (λ p below. refl)

abbrev odd : Mem
odd i = i % 2

odd-IsBits : IsBits odd
unfolding IsBits
odd-IsBits i = omega arith

abbrev ones : Mem
ones i = 1

parity_check-parity_encode_iff_example :
    (parity_check odd 6 odd ones 3 ≡ false)
    ↔ ((i : ℕ) → i < 3 → odd (6 + i) ≡ parity_encode odd 6 odd zero_mem 3 i)
parity_check-parity_encode_iff_example =
    parity_check-parity_encode_iff odd odd zero_mem ones 6 3 odd-IsBits odd-IsBits (λ i below. refl)

-- Bursts of a dedicated channel in a row.
abbrev bursts : ℕ → BurstInd
bursts j = record {
  frame_nr = 500 + j;
  band_arfcn = 0;
  chan_nr = 0x41;
  flags = 0;
  rx_level = 30;
  snr = 60;
  bits = λ i. (i + j) % 256;
}

bursts-InOrder : InOrder env [] maps zero_arrays alternating (message []) bursts
unfolding InOrder
bursts-InOrder j below = inr (omega (arith, below))

process_all-decode_message_example :
    (whole : BurstBuf) × (process_all env [] maps zero_arrays alternating
        (message [])
        bursts
        4
        no_bursts
        idle
      ≡ decode_message env [] maps zero_arrays alternating (message []) (bursts 3) whole idle)
    × ((j : ℕ) → j < 4 → HoldsBurst (bursts j) j whole)
process_all-decode_message_example =
    process_all-decode_message env [] maps zero_arrays alternating (message []) bursts no_bursts
      idle bursts-InOrder refl

-- The eighth burst of a block, whose second half is stolen.
abbrev seven_bursts : BurstBuf
seven_bursts = record no_bursts { count = 7; errors = 2 }

abbrev eighth_burst : BurstInd
eighth_burst = record (bursts 7) { bits = λ i. if i == 14 then 0x10 else 0x55 }

process_tch-Buffering_example : Safe (Buffering env) (
    process_tch
      (λ _ _. true)
      env
      []
      maps
      zero_locals
      alternating
      zero_mem
      eighth_burst
      seven_bursts
      zero_mem
      held_world)
process_tch-Buffering_example =
    process_tch-Buffering (λ _ _. true) env [] maps zero_locals alternating zero_mem eighth_burst
      seven_bursts zero_mem held_world (record { count = omega arith; errors = omega arith })
      held_world-HeldWorld no_counts-HasRoom

xcch_detect-start_iff_example :
    ((xcch_detect 185 ≡ (sdcch, 5)) ↔ ((5 < 8) × (185 % 51 ≡ 4 * 5)))
    × ((xcch_detect 185 ≡ (sacch, 5)) ↔ ((5 < 8) × (185 % 102 ≡ sacch_start 5)))
xcch_detect-start_iff_example = xcch_detect-start_iff 185 5
