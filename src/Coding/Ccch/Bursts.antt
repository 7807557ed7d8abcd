-- ===== src/Coding/Ccch/Bursts.antt =====
-- gsm-parser/ccch.c, `process_ccch`: four bursts that follow each other make a message.
use srlabs.Base.{
  ℕ, zero, suc, ◌+◌, ◌-◌, ◌*◌, ◌^◌, ◌<◌, ◌≤◌, ◌≡◌, refl, arith, subst, ◌⊎◌, u32, inl, inr, ap, ◌∙◌,
}
use srlabs.Base.{
  true, false, not, ◌&&◌, ltb, ◌==◌, nonzero, if◌then◌else◌, Bool-cases, shift, truth, bit_and, ◌/◌,
  ◌%◌, fill, count_up, count_up-invariant, List, Outcome, done, ◌>>=◌,
}
use srlabs.Radio.{Message}
use srlabs.L3.Env.{Env}
use srlabs.L3.Dtap.{World}
use srlabs.Burst.{BurstInd, BurstBuf}
use srlabs.Coding.Interleave.{Maps}
use srlabs.BitFunc.{expand_msb}
use srlabs.Coding.Ccch.{
  KeyStream, Arrays, decode_message, process_ccch, append_bits, append_fields, is_traffic, follows,
}

-- What a burst adds to the buffer.
pub add_burst : BurstInd → BurstBuf → BurstBuf
add_burst bi bb = append_fields bi (append_bits bi bb)

-- The bits of burst `j`, its frame number and its signal-to-noise ratio are where they belong.
pub HoldsBurst : BurstInd → ℕ → BurstBuf → Type 0
HoldsBurst bi j bb =
    ((i : ℕ)
      → i < 114
      → bb.data_ (j * 114 + i) ≡ truth (bit_and (bi.bits (i / 8)) (2 ^ (7 - i % 8))))
    × (bb.fn j ≡ bi.frame_nr)
    × (bb.snr j ≡ bi.snr)

add_burst-here : (bi : BurstInd) (bb : BurstBuf) → HoldsBurst bi bb.count (add_burst bi bb)
unfolding add_burst append_fields append_bits HoldsBurst expand_msb
add_burst-here bi bb = (
  λ i below.
      let tail : ltb (bb.count * 114 + i) (bb.count * 114) ≡ false = ground arith in
      let off : bb.count * 114 + i - bb.count * 114 ≡ i = omega arith in
      let bit =
        fill (λ k. truth (bit_and (bi.bits (k / 8)) (2 ^ (7 - k % 8))))
          (shift bb.data_ (bb.count * 114)) 114 i in
      rw (tail, off, bit) (ground (arith, below)),
  ground arith,
  ground arith,
)

ltb-burst : (j count i : ℕ) → j < count → i < 114 → ltb (j * 114 + i) (count * 114) ≡ true
ltb-burst j count i earlier below = ground (arith, earlier, below)

add_burst-there :
    (bi bi' : BurstInd) (j : ℕ) (bb : BurstBuf)
    → j < bb.count
    → HoldsBurst bi' j bb
    → HoldsBurst bi' j (add_burst bi bb)
unfolding add_burst append_fields append_bits HoldsBurst
add_burst-there bi bi' j bb earlier (bits, fn, snr) = (
  λ i below.
      let front : ltb (j * 114 + i) (bb.count * 114) ≡ true =
        ltb-burst j bb.count i earlier below in
      rw front (bits i below),
  ground (arith, earlier, fn),
  ground (arith, earlier, snr),
)

-- Bursts one after the other.
pub all_bursts : (ℕ → BurstInd) → BurstBuf → ℕ → BurstBuf
all_bursts bi bb n = count_up n (λ j b. add_burst (bi j) b) bb

count-add_burst : (bi : BurstInd) (bb : BurstBuf) → (add_burst bi bb).count ≡ bb.count + 1
unfolding add_burst append_fields append_bits
count-add_burst bi bb = refl

-- As many as were added, and each where it belongs.
Filled : (ℕ → BurstInd) → ℕ → BurstBuf → Type 0
Filled bi n b = (b.count ≡ n) × ((j : ℕ) → j < n → HoldsBurst (bi j) j b)

all_bursts-Filled :
    (bi : ℕ → BurstInd) (bb : BurstBuf) (n : ℕ) → bb.count ≡ 0 → Filled bi n (all_bursts bi bb n)
unfolding all_bursts Filled
all_bursts-Filled bi bb n empty =
    count_up-invariant (Filled bi) (λ j b. add_burst (bi j) b) n
      (λ i b below (count, held). (
        count-add_burst (bi i) b ∙ ap (λ c. c + 1) count,
        λ j earlier. elim (Bool-cases (j == i)) [
          | inl e ↦
              let same : j ≡ i = ground (arith, e) in
              rw same (
                subst (λ k. HoldsBurst (bi i) k (add_burst (bi i) b)) count
                  (add_burst-here (bi i) b))
          | inr e ↦
              let less : j < i = ground (arith, e, earlier) in
              add_burst-there (bi i) (bi j) j b (omega (arith, less, count)) (held j less)
        ],
      ))
      bb (empty, λ j below. absurd (omega (arith, below)))

module _ (env : Env) (smsc : List ℕ) (maps : Maps) (arrays : Arrays) (a5 : KeyStream)
    (fresh : Message) (bi : ℕ → BurstInd) where
  -- The calls of so many bursts.
  pub process_all : ℕ → BurstBuf → World → Outcome (BurstBuf × World)
  process_all zero bb w = done (bb, w)
  process_all (suc n) bb w =
      process_all n bb w >>= (λ (b, v). process_ccch env smsc maps arrays a5 fresh (bi n) b v)

  -- A burst that no earlier one rules out goes to the end of the buffer; the fourth completes it.
  process_ccch-adds :
      (j : ℕ) (b : BurstBuf) (w : World)
      → b.count ≡ j
      → j < 4
      → (j ≡ 0) ⊎ (is_traffic (bi j) ≡ true) ⊎ (follows (bi j) b ≡ true)
      → process_ccch env smsc maps arrays a5 fresh (bi j) b w ≡ (
          if ltb (j + 1) 4
          then done (add_burst (bi j) b, w)
          else decode_message env smsc maps arrays a5 fresh (bi j) (add_burst (bi j) b) w)
  unfolding process_ccch add_burst append_fields append_bits
  process_ccch-adds j b w count few order =
      let room : ltb 3 b.count ≡ false = ground (arith, count, few) in
      let ordered : (nonzero b.count && not (is_traffic (bi j)) && not (follows (bi j) b)) ≡ false =
        elim order [
          | inl first ↦ ground (arith, count, first)
          | inr (inl traffic) ↦ ground (arith, traffic)
          | inr (inr next) ↦ ground (arith, next)
        ] in
      rw (room, ordered, count) refl

  -- Each burst follows the one before it in the hyperframe, or belongs to a traffic channel.
  unfoldable pub InOrder : Type 0
  InOrder =
      (j : ℕ)
      → j < 3
      → (is_traffic (bi (suc j)) ≡ true)
        ⊎ ((bi (suc j)).frame_nr ≡ u32 ((bi j).frame_nr + 1) % (2048 * 26 * 51))

  order_at :
      InOrder
      → (j : ℕ) (b : BurstBuf) → j < 4
      → Filled bi j b
      → (j ≡ 0) ⊎ (is_traffic (bi j) ≡ true) ⊎ (follows (bi j) b ≡ true)
  unfolding InOrder Filled HoldsBurst follows
  order_at in_order zero b few filled = inl refl
  order_at in_order (suc j) b few (count, held) = elim (in_order j (omega (arith, few))) [
    | inl traffic ↦ inr (inl traffic)
    | inr next ↦
        let last : b.count - 1 ≡ j = omega (arith, count) in
        let fn = (held j (omega arith)).1 in inr (inr (rw (last, fn) (ground (arith, next))))
  ]

  added :
      InOrder
      → (bb : BurstBuf) (w : World) → bb.count ≡ 0
      → (n : ℕ) → n < 4
      → process_ccch env smsc maps arrays a5 fresh (bi n) (all_bursts bi bb n) w ≡ (
          if ltb (n + 1) 4
          then done (add_burst (bi n) (all_bursts bi bb n), w)
          else decode_message env smsc maps arrays a5 fresh
              (bi n)
              (add_burst (bi n) (all_bursts bi bb n))
              w)
  unfolding Filled
  added in_order bb w empty n few =
      let filled = all_bursts-Filled bi bb n empty in
      process_ccch-adds n (all_bursts bi bb n) w filled.0 few
        (order_at in_order n (all_bursts bi bb n) few filled)

  process_all-collects :
      InOrder
      → (bb : BurstBuf) (w : World) → bb.count ≡ 0
      → (n : ℕ) → n ≤ 3
      → process_all n bb w ≡ done (all_bursts bi bb n, w)
  unfolding process_all all_bursts count_up
  process_all-collects in_order bb w empty zero few = refl
  process_all-collects in_order bb w empty (suc n) few =
      let earlier = process_all-collects in_order bb w empty n (omega (arith, few)) in
      let more : ltb (n + 1) 4 ≡ true = ground (arith, few) in
      rw (earlier, added in_order bb w empty n (omega (arith, few)), more) refl

-- Four bursts that come in order into an empty buffer make a message: the calls amount to
-- the decoding of a message whose buffer holds, for each of the four bursts, its 114 bits behind
-- those of the burst before, its frame number and its signal-to-noise ratio.
pub process_all-decode_message :
    (env : Env) (smsc : List ℕ) (maps : Maps) (arrays : Arrays) (a5 : KeyStream) (fresh : Message)
    (bi : ℕ → BurstInd) (bb : BurstBuf) (w : World)
    → InOrder env smsc maps arrays a5 fresh bi
    → bb.count ≡ 0
    → (whole : BurstBuf) × (process_all env smsc maps arrays a5 fresh bi 4 bb w
        ≡ decode_message env smsc maps arrays a5 fresh (bi 3) whole w)
      × ((j : ℕ) → j < 4 → HoldsBurst (bi j) j whole)
unfolding process_all all_bursts count_up Filled
process_all-decode_message env smsc maps arrays a5 fresh bi bb w in_order empty =
    let earlier =
      process_all-collects env smsc maps arrays a5 fresh bi in_order bb w empty 3 (omega arith) in
    let last = added env smsc maps arrays a5 fresh bi in_order bb w empty 3 (omega arith) in
    (all_bursts bi bb 4, rw (earlier, last) refl, (all_bursts-Filled bi bb 4 empty).1)
