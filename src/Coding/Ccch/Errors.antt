-- ===== src/Coding/Ccch/Errors.antt =====
-- gsm-parser/ccch.c, `compute_ber`: when no bit error is counted.
use srlabs.Base.{ℕ, zero, suc, ◌+◌, ◌*◌, ◌/◌, ◌%◌, ◌<◌, ◌≤◌, ◌≡◌, ◌↔◌, refl, arith, inl, inr}
use srlabs.Base.{Bool, false, ◌==◌, ltb, if◌then◌else◌, Bool-cases, Mem, count_up}
use srlabs.Radio.{Message, is_uplink}
use srlabs.Session.{Session}
use srlabs.Burst.{BurstBuf}
use srlabs.Coding.Interleave.{Maps}
use srlabs.Coding.Cch.{encode_signalling}
use srlabs.Coding.Ccch.{KeyStream, Arrays, is_error, count_errors, is_ciphered, compute_ber}
use srlabs.Coding.Ccch.Laws.{on_air}

-- Counting up from `k` what a test finds leaves zero only where it finds nothing.
count-zero_iff :
    (test : ℕ → Bool) (n k : ℕ)
    → (count_up n (λ i c. if test i then c + 1 else c) k ≡ 0)
      ↔ ((k ≡ 0) × ((i : ℕ) → i < n → test i ≡ false))
unfolding count_up
count-zero_iff test zero k = (λ e. (e, λ i below. absurd (omega (arith, below))), λ h. h.0)
count-zero_iff test (suc last) k =
    let rest = count-zero_iff test last k in
    (
      λ e.
          let none : test last ≡ false = ground (arith, e) in
          let (start, before) = rest.0 (ground (arith, e)) in
          (
            start,
            λ i below. elim (Bool-cases (i == last)) [
              | inl p ↦ let same : i ≡ last = ground (arith, p) in rw same none
              | inr p ↦ before i (ground (arith, p, below))
            ],
          ),
      λ h.
          let earlier = rest.1 (h.0, λ i below. h.1 i (omega (arith, below))) in
          rw (h.1 last (omega arith)) earlier,
    )

count_bursts-zero_iff :
    (test : ℕ → ℕ → Bool) (n k : ℕ)
    → (count_up n (λ j c. count_up 114 (λ i d. if test j i then d + 1 else d) c) k ≡ 0)
      ↔ ((k ≡ 0) × ((j i : ℕ) → j < n → i < 114 → test j i ≡ false))
unfolding count_up
count_bursts-zero_iff test zero k = (λ e. (e, λ j i below. absurd (omega (arith, below))), λ h. h.0)
count_bursts-zero_iff test (suc last) k =
    let before = count_up last (λ j c. count_up 114 (λ i d. if test j i then d + 1 else d) c) k in
    let inner = count-zero_iff (test last) 114 before in
    let outer = count_bursts-zero_iff test last k in
    (
      λ e.
          let (earlier, here) = inner.0 e in
          let (start, others) = outer.0 earlier in
          (
            start,
            λ j i hj hi. elim (Bool-cases (j == last)) [
              | inl p ↦ let same : j ≡ last = ground (arith, p) in rw same (here i hi)
              | inr p ↦ others j i (ground (arith, p, hj)) hi
            ],
          ),
      λ h. inner.1 (
        outer.1 (h.0, λ j i hj hi. h.1 j i (omega (arith, hj)) hi),
        λ i hi. h.1 last i (omega arith) hi,
      ),
    )

module _ (a5 : KeyStream) (cipher : ℕ) (key : Mem) (ciphered uplink : Bool) (bb : BurstBuf)
    (raw : Mem) where
  is_error-at :
      (j i p : ℕ)
      → i < 114
      → j * 114 + i ≡ p
      → (is_error a5 cipher key ciphered uplink bb raw j i ≡ false)
        ↔ (bb.data_ p ≡ on_air a5 cipher key ciphered uplink bb raw p)
  unfolding is_error on_air
  is_error-at j i p hi at =
      let quotient : p / 114 ≡ j = omega (arith, at, hi) in
      let rest : p % 114 ≡ i = omega (arith, at, hi) in
      rw (at, quotient, rest) (λ e. ground (arith, e), λ e. ground (arith, e))

  errors-zero_iff :
      (count_errors a5 cipher key ciphered uplink bb raw ≡ 0)
      ↔ ((p : ℕ) → p < 456 → bb.data_ p ≡ on_air a5 cipher key ciphered uplink bb raw p)
  unfolding count_errors
  errors-zero_iff =
      let counted = count_bursts-zero_iff (is_error a5 cipher key ciphered uplink bb raw) 4 0 in
      (
        λ e p below.
            let i_below : p % 114 < 114 = omega arith in
            (is_error-at (p / 114) (p % 114) p i_below (omega arith)).0
              ((counted.0 e).1 (p / 114) (p % 114) (omega (arith, below)) i_below),
        λ h. counted.1 (
          refl,
          λ j i hj hi.
              (is_error-at j i (j * 114 + i) hi refl).1 (h (j * 114 + i) (omega (arith, hj, hi))),
        ),
      )

-- The error rate of a message is 0 exactly when its four bursts hold what it is encoded to, under
-- the key stream where it is ciphered; and it is never more than 228.
pub compute_ber-zero_iff :
    (maps : Maps) (arrays : Arrays) (a5 : KeyStream) (bb : BurstBuf) (s : Session) (m : Message)
    → let raw = encode_signalling maps arrays.locals m.msg arrays.raw_coded in
      ((compute_ber maps arrays a5 bb s m ≡ 0) ↔ (
        (p : ℕ)
        → p < 456
        → bb.data_ p ≡ on_air a5 s.sec.cipher s.sec.key (is_ciphered m) (is_uplink m) bb raw p))
      × (compute_ber maps arrays a5 bb s m ≤ 228)
unfolding compute_ber
compute_ber-zero_iff maps arrays a5 bb s m =
    let raw = encode_signalling maps arrays.locals m.msg arrays.raw_coded in
    let ciphered = is_ciphered m in
    let uplink = is_uplink m in
    let count = count_errors a5 s.sec.cipher s.sec.key ciphered uplink bb raw in
    let found = errors-zero_iff a5 s.sec.cipher s.sec.key ciphered uplink bb raw in
    let capped : ((if ltb 228 count then 228 else count) ≡ 0) ↔ (count ≡ 0) =
      (λ e. ground (arith, e), λ e. ground (arith, e)) in
    ((λ e. found.0 (capped.0 e), λ h. capped.1 (found.1 h)), ground arith)
