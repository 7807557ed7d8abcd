-- ===== src/Coding/Cch/Laws.antt =====
-- gsm-parser/cch.c: a block that is encoded, sent and received is decoded to the same message.
use srlabs.Base.{
  ℕ, ◌+◌, ◌-◌, ◌/◌, ◌%◌, ◌<◌, ◌≤◌, ◌≡◌, refl, arith, inl, inr, sym, ap, subst, fun_ext, ◌∙◌,
}
use srlabs.Base.{true, false, every, every-at, ltb, if◌then◌else◌, Bool-cases, truth, bit_and, ◌^◌}
use srlabs.Base.{Mem, IsByteMem, shift, mem_of-outside, memcpy, memset, fill, count_up-related}
use srlabs.BitFunc.{expand_lsb, compress_lsb}
use srlabs.BitFunc.Bits.{compress-expand}
use srlabs.Coding.Interleave.{
  Maps, gsm_interleave_init, gsm_inter_sacch, gsm_deinter_sacch, gsm_deinter_sacch-at,
  gsm_inter_sacch-at, sacch_map-bound, gsm_deinter-gsm_inter,
}
use srlabs.Coding.Crc.{parity_encode, parity_check}
use srlabs.Coding.Parity.{
  IsBits, parity_bit, parity_encode-at, parity_encode-outside, parity_check-parity_encode_iff,
}
use srlabs.Coding.Viterbi.{conv_cch_encode, conv_cch_decode}
use srlabs.Coding.Viterbi.Column.{soft}
use srlabs.Coding.Viterbi.Decoder.{conv_cch_decode-conv_cch_encode}
use srlabs.Coding.Viterbi.Encoder.{conv_cch_encode-bit}
use srlabs.Coding.Cch.{
  Locals, polynomial_bits, with_parity, parity_polynomial, parity_remainder, repaired,
  encode_signalling, decode_signalling,
}

-- The functions read no further than the sizes that they are given.
memcpy-ext :
    (p q base : Mem) (n : ℕ) → ((i : ℕ) → i < n → p i ≡ q i) → memcpy base 0 p n ≡ memcpy base 0 q n
memcpy-ext p q base n same = fun_ext (λ j.
    let off : j - 0 ≡ j = omega arith in
    let n' : 0 + n ≡ n = omega arith in
    elim (Bool-cases (ltb j n)) [
      | inl e ↦ rw (n', e, off, same j (ground (arith, e))) refl
      | inr e ↦ rw (n', e) (ground arith)
    ])

parity_check-ext :
    (p q poly remainder : Mem) (dsize psize : ℕ)
    → ((i : ℕ) → i < dsize + psize → p i ≡ q i)
    → parity_check p dsize poly remainder psize ≡ parity_check q dsize poly remainder psize
unfolding parity_check
parity_check-ext p q poly remainder dsize psize same =
    rw (memcpy-ext p q (λ _. 0) (dsize + psize) same) refl

parity_encode-ext :
    (p q poly parity : Mem) (dsize psize : ℕ)
    → ((i : ℕ) → i < dsize → p i ≡ q i)
    → parity_encode p dsize poly parity psize ≡ parity_encode q dsize poly parity psize
unfolding parity_encode
parity_encode-ext p q poly parity dsize psize same = rw (memcpy-ext p q (λ _. 0) dsize same) refl

compress_lsb-ext :
    (p q dst : Mem) (n : ℕ)
    → ((i : ℕ) → i < n → p i ≡ q i)
    → compress_lsb p dst n ≡ compress_lsb q dst n
unfolding compress_lsb
compress_lsb-ext p q dst n same =
    count_up-related (λ a b. a ≡ b) _ _ n (λ i s t below e. rw (e, same i below) refl) dst dst refl

polynomial_table : every (λ i. ltb (parity_polynomial i) 2) 41 ≡ true
unfolding every parity_polynomial
polynomial_table = refl

parity_polynomial-outside : (i : ℕ) → 41 ≤ i → parity_polynomial i ≡ 0
unfolding parity_polynomial
parity_polynomial-outside i outside = mem_of-outside polynomial_bits i outside

parity_polynomial-IsBits : IsBits parity_polynomial
unfolding IsBits
parity_polynomial-IsBits i = elim (Bool-cases (ltb i 41)) [
  | inl e ↦
      let h =
        every-at (λ k. ltb (parity_polynomial k) 2) 41 polynomial_table i (ground (arith, e)) in
      ground (arith, h)
  | inr e ↦ rw (parity_polynomial-outside i (ground (arith, e))) (omega arith)
]

parity_remainder-ones : (i : ℕ) → i < 40 → parity_remainder i ≡ 1
unfolding parity_remainder
parity_remainder-ones i below = ground (arith, below)

module _ (locals : Locals) (msg : Mem) where
  abbrev sent : Mem
  sent = with_parity locals msg

  abbrev data_bits : Mem
  data_bits = expand_lsb msg locals.decoded_data 184

  sent-data : (i : ℕ) → i < 184 → sent i ≡ data_bits i
  unfolding with_parity
  sent-data i below = ground (arith, below)

  -- The parity bits are those of what stands in front of them.
  sent-parity : (i : ℕ) → i < 40 → sent (184 + i) ≡ parity_bit sent parity_polynomial 184 40 i
  unfolding with_parity
  sent-parity i below =
      let cleared = memset data_bits 184 0 44 in
      let front : (k : ℕ) → k < 184 → cleared k ≡ sent k = λ k lt. ground (arith, lt) in
      let at_tail : ltb (184 + i) 184 ≡ false = ground arith in
      let off : 184 + i - 184 ≡ i = omega arith in
      rw (at_tail, off)
        (ap (λ p. p i)
            (parity_encode-ext cleared sent parity_polynomial (shift cleared 184) 184 40 front)
          ∙ parity_encode-at sent parity_polynomial (shift cleared 184) 184 40 i below)

  sent-flush : (i : ℕ) → i < 228 → 224 ≤ i → sent i ≡ 0
  unfolding with_parity
  sent-flush i below above =
      let cleared = memset data_bits 184 0 44 in
      let at_tail : ltb i 184 ≡ false = ground (arith, above) in
      let back : 184 + (i - 184) ≡ i = omega (arith, above) in
      rw
        (
          at_tail,
          parity_encode-outside cleared parity_polynomial (shift cleared 184) 184 40 (i - 184)
              (omega (arith, above)),
          back,
        )
        (ground (arith, above, below))

  sent-bit : (i : ℕ) → i < 228 → sent i < 2
  unfolding expand_lsb
  sent-bit i below = elim (Bool-cases (ltb i 184)) [
    | inl e ↦
        let front : i < 184 = ground (arith, e) in
        rw
          (
            sent-data i front,
            fill (λ k. truth (bit_and (msg (k / 8)) (2 ^ (k % 8)))) locals.decoded_data 184 i,
          )
          (ground (arith, front))
    | inr e ↦ elim (Bool-cases (ltb i 224)) [
      | inl middle ↦
          let back : 184 + (i - 184) ≡ i = ground (arith, e) in
          let parity = sent-parity (i - 184) (ground (arith, middle, e)) in
          subst (λ k. sent k < 2) back (rw parity (ground arith))
      | inr last ↦ rw (sent-flush i below (ground (arith, last))) (omega arith)
    ]
  ]

  -- What is checked, with zeros behind it.
  word : Mem
  word i = if ltb i 224 then sent i else 0

  word-front : (i : ℕ) → i < 224 → word i ≡ sent i
  unfolding word
  word-front i below = ground (arith, below)

  word-IsBits : IsBits word
  unfolding IsBits word
  word-IsBits i = elim (Bool-cases (ltb i 224)) [
    | inl e ↦ rw e (sent-bit i (ground (arith, e)))
    | inr e ↦ rw e (omega arith)
  ]

  word-passes : parity_check word 184 parity_polynomial parity_remainder 40 ≡ false
  word-passes =
      (parity_check-parity_encode_iff word parity_polynomial (λ _. 0) parity_remainder 184 40
          word-IsBits parity_polynomial-IsBits parity_remainder-ones).1
        (λ i below.
          word-front (184 + i) (omega (arith, below))
          ∙ sent-parity i below
          ∙ sym (parity_encode-at sent parity_polynomial (λ _. 0) 184 40 i below)
          ∙ sym (
              ap (λ p. p i)
                (parity_encode-ext word sent parity_polynomial (λ _. 0) 184 40
                  (λ k lt. word-front k (omega (arith, lt))))))

  -- What was decoded passes the check as far as it is what was sent, and is compressed to the message.
  decoded-passes :
      (decoded : Mem)
      → ((i : ℕ) → i < 228 → decoded i ≡ sent i)
      → parity_check decoded 184 parity_polynomial parity_remainder 40 ≡ false
  decoded-passes decoded same =
      parity_check-ext decoded word parity_polynomial parity_remainder 184 40
        (λ i below. same i (omega (arith, below)) ∙ sym (word-front i below))
      ∙ word-passes

  decoded-message :
      (decoded dst : Mem) (n : ℕ)
      → ((i : ℕ) → i < 228 → decoded i ≡ sent i)
      → IsByteMem msg
      → IsByteMem dst
      → n < 23
      → compress_lsb decoded dst 184 n ≡ msg n
  decoded-message decoded dst n same msg_bytes dst_bytes below =
      ap (λ p. p n)
        (compress_lsb-ext decoded data_bits dst 184
          (λ i lt. same i (omega (arith, lt)) ∙ sent-data i lt))
      ∙ (compress-expand msg locals.decoded_data dst 23 n msg_bytes dst_bytes below).0

-- The soft bits of amplitude `amp` that a coded block is received as.
unfoldable pub received : Mem → Mem → Mem
received amp raw p = soft (amp p) (raw p)

-- What is sent are bits.
pub encode_signalling-bit :
    (start : Maps) (locals : Locals) (msg raw : Mem) (p : ℕ)
    → p < 456
    → encode_signalling (gsm_interleave_init start) locals msg raw p < 2
unfolding encode_signalling
encode_signalling-bit start locals msg raw p below =
    let (k, k_below, from) =
      gsm_inter_sacch-at start (conv_cch_encode (with_parity locals msg) locals.coded_data 228) raw
        p below in
    rw from (conv_cch_encode-bit (with_parity locals msg) locals.coded_data 228 k k_below)

-- A message of 23 bytes that is encoded, received with soft bits of the right signs and of
-- amplitudes between 2 and 127, deinterleaved and decoded gives 23 and the message.
pub decode_signalling-encode_signalling :
    (start : Maps) (locals receiver : Locals) (msg raw conv amp dst : Mem)
    → IsByteMem msg
    → IsByteMem dst
    → ((p : ℕ) → p < 456 → (2 ≤ amp p) × (amp p < 128))
    → let maps = gsm_interleave_init start in
      let air = received amp (encode_signalling maps locals msg raw) in
      let result = decode_signalling receiver (gsm_deinter_sacch maps air conv) dst in
      (result.1 ≡ 23) × ((n : ℕ) → n < 23 → result.0 n ≡ msg n)
unfolding decode_signalling encode_signalling repaired received
decode_signalling-encode_signalling start locals receiver msg raw conv amp dst msg_bytes dst_bytes
      strong =
    let maps = gsm_interleave_init start in
    let coded = conv_cch_encode (with_parity locals msg) locals.coded_data 228 in
    let air = received amp (gsm_inter_sacch maps coded raw) in
    let soft_data = gsm_deinter_sacch maps air conv in
    let decoded = conv_cch_decode receiver.trellis soft_data receiver.decoded_data 228 in
    let same : (i : ℕ) → i < 228 → decoded i ≡ with_parity locals msg i =
      conv_cch_decode-conv_cch_encode (with_parity locals msg) soft_data
        (λ k. amp (maps.sacch_map k)) locals.coded_data receiver.decoded_data receiver.trellis 228
        (omega arith) (sent-bit locals msg)
        (λ k below.
          let (least, most) = strong (maps.sacch_map k) (sacch_map-bound start k below) in
          (
            least,
            most,
            gsm_deinter_sacch-at maps air conv k below
                ∙ ap (soft (amp (maps.sacch_map k))) (
                    sym (gsm_deinter_sacch-at maps (gsm_inter_sacch maps coded raw) raw k below)
                    ∙ (gsm_deinter-gsm_inter start coded raw raw k below).0),
          )) in
    let passes = decoded-passes locals msg decoded same in
    rw passes
      (refl, λ n below. decoded-message locals msg decoded dst n same msg_bytes dst_bytes below)
