-- ===== src/Coding/Viterbi/Step.antt =====
-- gsm-parser/viterbi.c: the invariant of the scan, on soft bits whose signs are right.
use srlabs.Base.{ℕ, suc, ◌+◌, ◌-◌, ◌*◌, ◌<◌, ◌≤◌, ◌≡◌, ◌≢◌, refl, arith, ◌⊎◌, inl, inr, sym, ◌∙◌}
use srlabs.Base.{◌==◌, Bool-cases, bit, Mem}
use srlabs.Coding.Viterbi.{
  Trellis, conv_cch_next_output, conv_cch_next_state, path_cost, scan_column,
}
use srlabs.Coding.Viterbi.Encoder.{state_at, tables_at}
use srlabs.Coding.Viterbi.Scan.{Scanned, ReachedFrom, scan_column-Scanned}
use srlabs.Coding.Viterbi.Column.{soft, path_cost-least, path_cost-strict, path_cost-bound}

-- The two soft bits that stand for bit `i`, of amplitudes that leave no doubt.
pub record IsReceived (in_ input amp : Mem) (i : ℕ) : Type 0 where
  pub is_bit : in_ i < 2
  pub least0 : 2 ≤ amp (2 * i)
  pub most0 : amp (2 * i) < 128
  pub least1 : 2 ≤ amp (2 * i + 1)
  pub most1 : amp (2 * i + 1) < 128
  pub first :
      input (2 * i) ≡ soft (amp (2 * i)) (bit 1 (conv_cch_next_output (state_at in_ i) (in_ i)))
  pub second :
      input (2 * i + 1)
      ≡ soft (amp (2 * i + 1)) (bit 0 (conv_cch_next_output (state_at in_ i) (in_ i)))

-- After `i` columns the state of the encoder alone has the least error, and the history leads back
-- along its states.
pub record Best (in_ : Mem) (i : ℕ) (t : Trellis) : Type 0 where
  pub small : t.errors (state_at in_ i) ≤ 62 * i
  pub alone : (r : ℕ) → r < 16 → r ≢ state_at in_ i → t.errors (state_at in_ i) < t.errors r
  pub leads : (j : ℕ) → j < i → t.history (state_at in_ (suc j)) (j + 1) ≡ state_at in_ j

module _ (in_ input amp : Mem) (i : ℕ) (t : Trellis) (few : i < 270000) (hcur : state_at in_ i < 16)
    (received : IsReceived in_ input amp i) (best : Best in_ i t) where
  abbrev cur : ℕ
  cur = state_at in_ i

  abbrev next : ℕ
  next = conv_cch_next_state cur (in_ i)

  abbrev u : Trellis
  u = scan_column input i t

  abbrev cost : ℕ → ℕ → ℕ
  cost = path_cost (input (2 * i)) (input (2 * i + 1))

  least : (s b : ℕ) → cost cur (in_ i) ≤ cost s b
  least s b =
      rw (received.first, received.second)
        (path_cost-least cur (in_ i) (amp (2 * i)) (amp (2 * i + 1)) hcur received.is_bit
          received.least0 received.most0 received.least1 received.most1 s b)

  strict : cost cur (in_ i) < cost cur (1 - in_ i)
  strict =
      rw (received.first, received.second)
        (path_cost-strict cur (in_ i) (amp (2 * i)) (amp (2 * i + 1)) hcur received.is_bit
          received.least0 received.most0 received.least1 received.most1)

  bound : cost cur (in_ i) ≤ 62
  bound =
      rw (received.first, received.second)
        (path_cost-bound cur (in_ i) (amp (2 * i)) (amp (2 * i + 1)) hcur received.is_bit
          received.least0 received.most0 received.least1 received.most1)

  abbrev scanned : Scanned t.errors (i + 1) cost t 32 u
  scanned = scan_column-Scanned input i t

  next_least : u.errors next ≤ t.errors cur + cost cur (in_ i)
  next_least =
      scanned.least cur (in_ i) hcur received.is_bit
        (let b = received.is_bit in omega (arith, b, hcur))

  -- Every other path into a state costs more than the one of the encoder.
  other_cost :
      (s b : ℕ)
      → s < 16
      → b < 2
      → (s ≢ cur) ⊎ (b ≢ in_ i)
      → t.errors cur + cost cur (in_ i) < t.errors s + cost s b
  other_cost s b hs hb differs = elim (Bool-cases (s == cur)) [
    | inl e ↦
        let same : s ≡ cur = ground (arith, e) in
        let flipped : b ≡ 1 - in_ i = elim differs [
          | inl apart ↦ absurd (apart same)
          | inr apart ↦ let b' = received.is_bit in omega (arith, apart, hb, b')
        ] in
        rw (same, flipped) (omega (arith, strict))
    | inr e ↦
        let apart : s ≢ cur = ground (arith, e) in
        let more = best.alone s hs apart in let no_less = least s b in omega (arith, more, no_less)
  ]

  next_small : u.errors next ≤ 62 * suc i
  next_small = let s = best.small in omega (arith, next_least, bound, s)

  next_alone : (r : ℕ) → r < 16 → r ≢ next → u.errors next < u.errors r
  unfolding ReachedFrom
  next_alone r hr apart = elim (scanned.reached r hr) [
    | inl unreached ↦ omega (arith, unreached, next_small, few)
    | inr (s, b, (hs, hb, leads, errors, from)) ↦
        let differs : (s ≢ cur) ⊎ (b ≢ in_ i) = elim (Bool-cases (s == cur)) [
          | inr other ↦ inl (ground (arith, other))
          | inl e ↦ inr (λ same.
              let here : s ≡ cur = ground (arith, e) in apart (sym leads ∙ rw (here, same) refl))
        ] in
        let more = other_cost s b hs hb differs in omega (arith, more, errors, next_least)
  ]

  next_leads : u.history next (i + 1) ≡ cur
  unfolding ReachedFrom
  next_leads = elim (scanned.reached next (tables_at cur (in_ i) hcur received.is_bit).0) [
    | inl unreached ↦ absurd (omega (arith, unreached, next_small, few))
    | inr (s, b, (hs, hb, leads, errors, from)) ↦ elim (Bool-cases (s == cur)) [
      | inl e ↦ let same : s ≡ cur = ground (arith, e) in from ∙ same
      | inr e ↦
          let apart : s ≢ cur = ground (arith, e) in
          let more = other_cost s b hs hb (inl apart) in
          absurd (omega (arith, more, errors, next_least))
    ]
  ]

  pub scan_column-Best : Best in_ (suc i) u
  unfolding state_at
  scan_column-Best = record {
    small = next_small;
    alone = next_alone;
    leads = λ j below. elim (Bool-cases (j == i)) [
      | inl e ↦ let same : j ≡ i = ground (arith, e) in rw same next_leads
      | inr e ↦
          let less : j < i = ground (arith, e, below) in
          scanned.frame (state_at in_ (suc j)) (j + 1) (λ p. omega (arith, p, less))
          ∙ best.leads j less
    ];
  }
