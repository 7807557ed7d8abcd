-- ===== src/Coding/Viterbi/Decoder.antt =====
-- gsm-parser/viterbi.c: the decoder gives the bits back that the encoder was given.
use srlabs.Base.{
  ℕ, zero, suc, ◌+◌, ◌-◌, ◌*◌, ◌/◌, ◌^◌, ◌<◌, ◌≤◌, ◌≡◌, ◌≢◌, refl, arith, ◌⊎◌, inl, inr, ap, ◌∙◌,
}
use srlabs.Base.{
  true, false, ◌==◌, ltb, if◌then◌else◌, not, num, Bool-cases, subst, Mem, store, count_up,
  count_up-invariant,
}
use srlabs.Coding.Viterbi.{
  Trellis, max_ae, conv_cch_next_state, scan_column, find_least, trace_back, conv_cch_encode,
  conv_cch_decode,
}
use srlabs.Coding.Viterbi.Encoder.{state_at, state_at-bound, tables_at, conv_cch_encode-at}
use srlabs.Coding.Viterbi.Column.{soft}
use srlabs.Coding.Viterbi.Step.{IsReceived, Best, scan_column-Best}

module _ (in_ input amp : Mem) (n : ℕ) (few : n < 270000)
    (received : (i : ℕ) → i < n → IsReceived in_ input amp i) where
  bits : (k m : ℕ) → m ≤ n → k < m → in_ k < 2
  bits k m most below = (received k (omega (arith, most, below))).is_bit

  start_of : Trellis → Trellis
  start_of locals = record locals { errors = λ s. if s == 0 then 0 else max_ae }

  start-Best : (locals : Trellis) → Best in_ 0 (start_of locals)
  unfolding start_of state_at
  start-Best locals = record {
    small = omega arith;
    alone = λ r hr apart. ground (arith, apart);
    leads = λ j below. absurd (omega (arith, below));
  }

  scan-Best : (locals : Trellis) → Best in_ n (count_up n (scan_column input) (start_of locals))
  scan-Best locals =
      count_up-invariant (λ i t. Best in_ i t) (scan_column input) n
        (λ i t below best.
          subst (λ k. Best in_ k (scan_column input i t)) (omega arith)
            (scan_column-Best in_ input amp i t (omega (arith, below, few))
              (state_at-bound in_ i (λ k lt. bits k i (omega (arith, below)) lt)) (received i below)
              best))
        (start_of locals) (start-Best locals)

  module _ (t : Trellis) (best : Best in_ n t) where
    abbrev final : ℕ
    final = state_at in_ n

    -- Before the final state everything found is larger, and from there on it is found.
    Found : ℕ → ℕ × ℕ → Type 0
    Found k least =
        ((k ≤ final) × (t.errors final < least.0))
        ⊎ ((final < k) × (least ≡ (t.errors final, final)))

    least_round : ℕ → ℕ × ℕ → ℕ × ℕ
    least_round s least = if ltb (t.errors s) least.0 then (t.errors s, s) else least

    least_round-Found :
        (s : ℕ) (least : ℕ × ℕ) → s < 16 → Found s least → Found (s + 1) (least_round s least)
    unfolding Found least_round
    least_round-Found s least hs (inl (most, larger)) = elim (Bool-cases (s == final)) [
      | inl e ↦
          let same : s ≡ final = ground (arith, e) in
          let smaller : ltb (t.errors final) least.0 ≡ true = ground (arith, larger) in
          inr (omega (arith, same), rw (same, smaller) refl)
      | inr e ↦
          let apart : s ≢ final = ground (arith, e) in
          let more = best.alone s hs apart in
          inl (
            omega (arith, apart, most),
            elim (Bool-cases (ltb (t.errors s) least.0)) [
              | inl p ↦ rw p more
              | inr p ↦ rw p larger
            ],
          )
    ]
    least_round-Found s least hs (inr (later, found)) =
        let more = best.alone s hs (λ p. omega (arith, p, later)) in
        let no_less : ltb (t.errors s) (t.errors final) ≡ false = ground (arith, more) in
        inr (omega (arith, later), rw (found, no_less) refl)

    -- The least error is found in the last state of the encoder.
    find_least-Best : (find_least t.errors).1 ≡ state_at in_ n
    unfolding find_least Found least_round
    find_least-Best =
        let final_bound = state_at-bound in_ n (λ k lt. bits k n (omega arith) lt) in
        let small = best.small in
        elim (count_up-invariant Found least_round 16 least_round-Found (max_ae, 2 ^ 32 - 1)
          (inl (omega arith, omega (arith, small, few)))) [
            | inl (most, _) ↦ absurd (omega (arith, most, final_bound))
            | inr (_, found) ↦ ap (λ p. p.1) found
          ]

  traced_bit :
      (s b : ℕ)
      → s < 16
      → b < 2
      → num (not (conv_cch_next_state s 0 == conv_cch_next_state s b)) ≡ b
  traced_bit s b hs hb = elim (Bool-cases (b == 0)) [
    | inl e ↦ let zero_bit : b ≡ 0 = ground (arith, e) in rw zero_bit (ground arith)
    | inr e ↦
        let low = (tables_at s 0 hs (omega arith)).1 in
        let high = (tables_at s b hs hb).1 in
        let one_bit : b ≡ 1 = ground (arith, e, hb) in
        let apart : conv_cch_next_state s 0 ≢ conv_cch_next_state s b =
          λ p. omega (arith, one_bit, ap (λ x. x / 8) p, low, high) in
        ground (arith, apart, one_bit)
  ]

  next_bit :
      (i : ℕ)
      → state_at in_ i < 16
      → in_ i < 2
      → num (not (conv_cch_next_state (state_at in_ i) 0 == state_at in_ (suc i))) ≡ in_ i
  unfolding state_at
  next_bit i = traced_bit (state_at in_ i) (in_ i)

  -- The history of the encoder's states leads to its bits.
  trace_back-leads :
      (history : ℕ → Mem) (i : ℕ) (output : Mem)
      → i ≤ n
      → ((j : ℕ) → j < i → history (state_at in_ (suc j)) (j + 1) ≡ state_at in_ j)
      → (k : ℕ)
      → trace_back history i (state_at in_ i) output k ≡ (if ltb k i then in_ k else output k)
  unfolding trace_back
  trace_back-leads history zero output most leads k = ground arith
  trace_back-leads history (suc i) output most leads k =
      let bound = state_at-bound in_ i (λ j lt. bits j i (omega (arith, most)) lt) in
      let b : num (not (conv_cch_next_state (state_at in_ i) 0 == state_at in_ (suc i))) ≡ in_ i =
        next_bit i bound (bits i (suc i) most (omega arith)) in
      let rest =
        trace_back-leads history i (store output i (in_ i)) (omega (arith, most))
          (λ j lt. leads j (omega (arith, lt))) k in
      rw (leads i (omega arith), b, rest) (ground arith)

  trellis_decode :
      (locals : Trellis) (output : Mem) (k : ℕ)
      → k < n
      → conv_cch_decode locals input output n k ≡ in_ k
  unfolding conv_cch_decode start_of
  trellis_decode locals output k below =
      let t = count_up n (scan_column input) (start_of locals) in
      let best = scan-Best locals in
      rw (find_least-Best t best, trace_back-leads t.history n output (omega arith) best.leads k)
        (ground (arith, below))

-- Decoding gives back every bit that was encoded, from soft bits whose signs are those of the code
-- and whose amplitudes lie between 2 and 127, whatever they are otherwise.
pub conv_cch_decode-conv_cch_encode :
    (in_ input amp code output : Mem) (locals : Trellis) (n : ℕ)
    → n < 270000
    → ((i : ℕ) → i < n → in_ i < 2)
    → ((k : ℕ)
        → k < 2 * n
        → (2 ≤ amp k) × (amp k < 128) × (input k ≡ soft (amp k) (conv_cch_encode in_ code n k)))
    → (i : ℕ) → i < n
    → conv_cch_decode locals input output n i ≡ in_ i
conv_cch_decode-conv_cch_encode in_ input amp code output locals n few bits received =
    trellis_decode in_ input amp n few
      (λ i below.
        let (least0, most0, first) = received (2 * i) (omega (arith, below)) in
        let (least1, most1, second) = received (2 * i + 1) (omega (arith, below)) in
        let (high, low) = conv_cch_encode-at in_ code n i below in
        record {
          is_bit = bits i below;
          least0 = least0;
          most0 = most0;
          least1 = least1;
          most1 = most1;
          first = first ∙ ap (soft (amp (2 * i))) high;
          second = second ∙ ap (soft (amp (2 * i + 1))) low;
        })
      locals output
