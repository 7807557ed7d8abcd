-- ===== src/Gprs/Tests.antt =====
-- gsm-parser: the theorems on the packet channels at blocks.
use srlabs.Base.{ℕ, ◌%◌, ◌≡◌, refl, arith, Returns, false, [], ◌∷◌, ◌==◌, Mem, mem_of, count_up}
use srlabs.Radio.{Message}
use srlabs.Session.Tests.{message}
use srlabs.Coding.Parity.{IsBits}
use srlabs.Gprs.Rlc.{Frag, Tbf, llc, process_blocks, shift_window, reset_frags, too_old}
use srlabs.Gprs.Rlc.Blocks.{IsRun, joined, process_blocks-joined}
use srlabs.Gprs.Handler.{Table, zero_frag, rlc_type_handler, skip_optional}
use srlabs.Gprs.Handler.Fits.{Fits}
use srlabs.Gprs.Handler.Laws.{TableOk, Kept, rlc_type_handler-TableOk}
use srlabs.Gprs.Estimate.{distance, cs_pattern, cs_estimate}
use srlabs.Gprs.Estimate.Laws.{coding_scheme, estimate-sent}

abbrev zero_mem : Mem
zero_mem i = 0

-- Three blocks from number 126 on, the last of which ends the TBF.
abbrev blocks : ℕ → Frag
blocks k = record zero_frag { fn = 100; len = 2; data_ = λ i. k; last = k == 0 }

abbrev three_blocks : Tbf
three_blocks = record { start_bsn = 126; last_bsn = 0; frags = blocks }

three_blocks-IsRun : IsRun three_blocks 2
unfolding too_old
three_blocks-IsRun = record {
  start = omega arith;
  short = omega arith;
  last_bsn = refl;
  filled = λ i few. omega arith;
  whole = λ i few. refl;
  goes_on = λ i less. ground (arith, less);
  ends = refl;
  in_time = λ i less. refl;
  fn = omega arith;
}

process_blocks-joined_example : process_blocks zero_mem false three_blocks ≡ (
  shift_window (record (reset_frags three_blocks) { start_bsn = 0 }),
  llc (joined three_blocks 126 3) false ∷ [],
)
process_blocks-joined_example =
    process_blocks-joined zero_mem false three_blocks 2 three_blocks-IsRun

abbrev no_tbfs : Table
no_tbfs n = record { start_bsn = 0; last_bsn = 0; frags = λ k. zero_frag }

no_tbfs-TableOk : TableOk no_tbfs
unfolding TableOk
no_tbfs-TableOk n = record {
  last = omega arith;
  start = omega arith;
  frags = λ k. record { fits = omega arith; entries = omega arith };
}

-- A data block of the downlink, of TFI 4 and BSN 5, with one entry.
abbrev data_block : Message
data_block = record (message (0x07 ∷ 0x08 ∷ 0x0a ∷ 0x41 ∷ 0xc0 ∷ [])) { fn = 5000 }

data_block-Fits : Fits 1 data_block
unfolding skip_optional
data_block-Fits = record {
  few = omega arith;
  entries = λ i below. let first : i ≡ 0 = omega (arith, below) in rw first refl;
  end = refl;
  short = omega arith;
  header = omega arith;
  data_fits = omega arith;
}

rlc_type_handler-TableOk_example : Returns Kept (rlc_type_handler zero_mem data_block no_tbfs)
rlc_type_handler-TableOk_example =
    rlc_type_handler-TableOk zero_mem 1 data_block no_tbfs data_block-Fits no_tbfs-TableOk

-- The stealing bits of CS-3 with the first and the last one wrong.
abbrev two_errors : Mem
two_errors i = mem_of (1 ∷ 0 ∷ 1 ∷ 0 ∷ 0 ∷ 0 ∷ 0 ∷ 0 ∷ []) i % 2

two_errors-IsBits : IsBits two_errors
unfolding IsBits
two_errors-IsBits i = omega arith

estimate-sent_example : cs_estimate two_errors ≡ 2
unfolding distance cs_pattern count_up
estimate-sent_example =
    estimate-sent coding_scheme two_errors 2 two_errors-IsBits (omega arith) (omega arith)
