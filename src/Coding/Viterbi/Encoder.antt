-- ===== src/Coding/Viterbi/Encoder.antt =====
-- gsm-parser/viterbi.c: the states that the encoder of the convolutional code goes through, and
-- the tables of its steps.
use srlabs.Base.{ℕ, zero, suc, ◌+◌, ◌-◌, ◌*◌, ◌/◌, ◌%◌, ◌<◌, ◌≡◌, refl, arith}
use srlabs.Base.{Bool, true, ◌&&◌, ltb, ◌==◌, bit, every, every-at}
use srlabs.Base.{Mem, count_up, subst, Bool-cases, inl, inr}
use srlabs.Coding.Viterbi.{conv_cch_next_output, conv_cch_next_state, encode_round, conv_cch_encode}

-- The state in front of bit `i`.
unfoldable pub state_at : Mem → ℕ → ℕ
state_at in_ zero = 0
state_at in_ (suc i) = conv_cch_next_state (state_at in_ i) (in_ i)

tables_hold : ℕ → ℕ → Bool
tables_hold s b =
    let o = conv_cch_next_output s b in
    let other = conv_cch_next_output s (1 - b) in
    ltb (conv_cch_next_state s b) 16
    && conv_cch_next_state s b / 8 == b
    && bit 1 o + bit 1 other == 1
    && bit 0 o + bit 0 other == 1

tables_table : every (λ s. every (tables_hold s) 2) 16 ≡ true
unfolding every tables_hold conv_cch_next_output conv_cch_next_state
tables_table = refl

-- The bit can be read off the next state, and the other bit gives the other output in both symbols.
pub tables_at :
    (s b : ℕ)
    → s < 16
    → b < 2
    → (conv_cch_next_state s b < 16)
      × (conv_cch_next_state s b / 8 ≡ b)
      × (bit 1 (conv_cch_next_output s b) + bit 1 (conv_cch_next_output s (1 - b)) ≡ 1)
      × (bit 0 (conv_cch_next_output s b) + bit 0 (conv_cch_next_output s (1 - b)) ≡ 1)
unfolding tables_hold
tables_at s b hs hb =
    let h = every-at (tables_hold s) 2 (every-at _ 16 tables_table s hs) b hb in ground arith

pub state_at-bound : (in_ : Mem) (n : ℕ) → ((k : ℕ) → k < n → in_ k < 2) → state_at in_ n < 16
unfolding state_at
state_at-bound in_ zero bits = omega arith
state_at-bound in_ (suc n) bits =
    (tables_at (state_at in_ n) (in_ n)
      (state_at-bound in_ n (λ k below. bits k (omega (arith, below)))) (bits n (omega arith))).0

encoder_state :
    (in_ out : Mem) (n : ℕ) → (count_up n (encode_round in_) (0, out)).0 ≡ state_at in_ n
unfolding count_up encode_round state_at
encoder_state in_ out zero = refl
encoder_state in_ out (suc n) = rw (encoder_state in_ out n) refl

-- The two code bits of bit `i`.
pub conv_cch_encode-at :
    (in_ out : Mem) (n i : ℕ)
    → i < n
    → let o = conv_cch_next_output (state_at in_ i) (in_ i) in
      (conv_cch_encode in_ out n (2 * i) ≡ bit 1 o)
      × (conv_cch_encode in_ out n (2 * i + 1) ≡ bit 0 o)
unfolding count_up encode_round conv_cch_encode
conv_cch_encode-at in_ out zero i below = absurd (omega (arith, below))
conv_cch_encode-at in_ out (suc n) i below = elim (Bool-cases (n == i)) [
  | inl e ↦
      let same : n ≡ i = ground (arith, e) in rw (same, encoder_state in_ out i) (ground arith)
  | inr e ↦
      let less : i < n = ground (arith, e, below) in
      let rest = conv_cch_encode-at in_ out n i less in ground (arith, rest, less)
]

pub conv_cch_encode-bit : (in_ out : Mem) (n k : ℕ) → k < 2 * n → conv_cch_encode in_ out n k < 2
conv_cch_encode-bit in_ out n k below =
    let i = k / 2 in
    let (high, low) = conv_cch_encode-at in_ out n i (omega (arith, below)) in
    elim (Bool-cases (k % 2 == 0)) [
      | inl e ↦
          let even : 2 * i ≡ k = ground (arith, e) in
          subst (λ l. conv_cch_encode in_ out n l < 2) even (rw high (omega arith))
      | inr e ↦
          let odd : 2 * i + 1 ≡ k = ground (arith, e) in
          subst (λ l. conv_cch_encode in_ out n l < 2) odd (rw low (omega arith))
    ]
