-- ===== src/Coding/Cch.antt =====
-- gsm-parser/cch.c: the coding of one block of a control channel: parity bits, convolutional code
-- and interleaving. `Locals` are the uninitialised arrays of the two functions.
use srlabs.Base.{ℕ, ◌+◌, ◌-◌, List, [], ◌∷◌, ◌++◌, Bool, true, false, not, ltb, ◌==◌, if◌then◌else◌}
use srlabs.Base.{Mem, shift, memcpy, memset, mem_of}
use srlabs.BitFunc.{expand_lsb, compress_lsb}
use srlabs.Coding.Interleave.{Maps, gsm_inter_sacch}
use srlabs.Coding.Crc.{FcCtx, fc_init, fc_check_crc, parity_encode, parity_check}
use srlabs.Coding.Viterbi.{Trellis, conv_cch_encode, conv_cch_decode}
pub mod Laws

abbrev pub data_block_size : ℕ
data_block_size = 184

abbrev pub parity_size : ℕ
parity_size = 40

abbrev pub parity_output_size : ℕ
parity_output_size = data_block_size + parity_size + 4

abbrev pub conv_size : ℕ
conv_size = parity_output_size + parity_output_size

abbrev pub polynomial_bits : List ℕ
polynomial_bits =
    (1 ∷ 0 ∷ 0 ∷ 0 ∷ 0 ∷ 0 ∷ 0 ∷ 0 ∷ [])
    ++ (0 ∷ 0 ∷ 0 ∷ 0 ∷ 0 ∷ 0 ∷ 1 ∷ 0 ∷ [])
    ++ (0 ∷ 1 ∷ 0 ∷ 0 ∷ 0 ∷ 0 ∷ 0 ∷ 1 ∷ [])
    ++ (0 ∷ 0 ∷ 0 ∷ 0 ∷ 0 ∷ 0 ∷ 0 ∷ 0 ∷ [])
    ++ (0 ∷ 0 ∷ 0 ∷ 0 ∷ 0 ∷ 1 ∷ 0 ∷ 0 ∷ [])
    ++ (1 ∷ [])

pub parity_polynomial : Mem
parity_polynomial = mem_of polynomial_bits

-- Forty ones.
pub parity_remainder : Mem
parity_remainder i = if ltb i parity_size then 1 else 0

pub record Locals : Type 0 where
  pub decoded_data : Mem
  pub coded_data : Mem
  pub crc_result : Mem
  pub trellis : Trellis
  pub fc_ctx : FcCtx

-- An object whose part from `off` on a function was given and has changed.
abbrev pub put_back : Mem → ℕ → Mem → Mem
put_back p off part j = if ltb j off then p j else part (j - off)

-- The bits that go into the convolutional code: data, parity and four zeros.
pub with_parity : Locals → Mem → Mem
with_parity locals msg =
    let data_bits = expand_lsb msg locals.decoded_data data_block_size in
    let cleared = memset data_bits data_block_size 0 (parity_output_size - data_block_size) in
    put_back cleared data_block_size (
      parity_encode cleared data_block_size parity_polynomial (shift cleared data_block_size)
        parity_size)

unfoldable pub encode_signalling : Maps → Locals → Mem → Mem → Mem
encode_signalling maps locals msg raw_data =
    let coded = conv_cch_encode (with_parity locals msg) locals.coded_data parity_output_size in
    gsm_inter_sacch maps coded raw_data

-- The block after the check: as decoded, put right by the Fire code, or given up.
pub repaired : Locals → Mem → Bool → Mem × Bool
repaired locals decoded wrong =
    let ctx = fc_init locals.fc_ctx parity_size data_block_size in
    let (_, crc_result, ret) = fc_check_crc ctx decoded locals.crc_result in
    if not wrong
    then (decoded, true)
    else if ret == 0
    then (decoded, false)
    else (memcpy decoded 0 crc_result (data_block_size + parity_size), true)

-- The message, and the result.
unfoldable pub decode_signalling : Locals → Mem → Mem → Mem × ℕ
decode_signalling locals soft_data msg =
    let decoded = conv_cch_decode locals.trellis soft_data locals.decoded_data parity_output_size in
    let wrong =
      parity_check decoded data_block_size parity_polynomial parity_remainder parity_size in
    let (fixed, good) = repaired locals decoded wrong in
    if good then (compress_lsb fixed msg data_block_size, 23) else (msg, 0)
