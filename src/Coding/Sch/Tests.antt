-- ===== src/Coding/Sch/Tests.antt =====
-- gsm-parser/sch.c: a synchronisation burst that is made and read.
use srlabs.Base.{◌≡◌, refl, some, [], ◌∷◌, Mem, mem_of, memcpy, shift, count_up, every}
use srlabs.Coding.Crc.{divide, subtract_poly, memcmp_differs}
use srlabs.Coding.Sch.{
  sch_parity_encode, sch_parity_check, sch_polynomial, sch_remainder, encode, next_state,
  prev_next_state, hamming_distance2, conv_encode, survive, build_round, best_state, trace_path,
  conv_decode, bits_at, sch_info, decode_sch,
}

abbrev zero_mem : Mem
zero_mem i = 0

-- A synchronisation burst whose information bits are `d`, with a training sequence of ones.
sch_burst : Mem → Mem
sch_burst d =
    let coded =
      conv_encode (memcpy (memcpy zero_mem 0 d 25) 25 (sch_parity_encode d zero_mem) 10) zero_mem in
    memcpy (memcpy (λ i. 1) 0 coded 39) 103 (shift coded 39) 39

-- Cell colours 5 and 3, and t1 = 1290, t2 = 19, t3 = 41.
abbrev sch_data : Mem
sch_data = mem_of (
    0 ∷ 1 ∷ 1 ∷ 1 ∷ 0 ∷ 1 ∷ 0 ∷ 1 ∷ 1 ∷ 0 ∷ 1 ∷ 0 ∷ 0 ∷ 0 ∷ 0 ∷ 1 ∷ 0 ∷ 1 ∷ 1 ∷ 1 ∷ 0 ∷ 0 ∷ 1 ∷ 0
    ∷ 0 ∷ [])

sch_decoded :
    decode_sch (λ _. zero_mem) zero_mem zero_mem (sch_burst sch_data)
    ≡ (0, some (record { t1 = 1290; t2 = 19; t3 = 41; ncc = 5; bcc = 3 }))
unfolding sch_burst sch_parity_encode sch_parity_check sch_polynomial sch_remainder encode
    next_state prev_next_state hamming_distance2 conv_encode survive build_round best_state
    trace_path conv_decode bits_at sch_info decode_sch divide subtract_poly memcmp_differs every
    count_up
sch_decoded = refl
