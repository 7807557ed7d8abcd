-- ===== src/Gprs/Estimate.antt =====
-- gsm-parser/gprs.c: the coding scheme and the uplink state flag of a block are those whose pattern
-- is nearest to what was received.
pub mod Laws
use srlabs.Base.{ℕ, zero, suc, ◌+◌, ◌<◌, ◌≤◌, ◌≡◌, ◌≢◌, refl, arith, inl, inr, bit_xor, [], ◌∷◌}
use srlabs.Base.{
  Bool, true, ◌&&◌, ◌||◌, ltb, leb, ◌==◌, if◌then◌else◌, truth, Bool-cases, Mem, mem_of, count_up,
  count_up-invariant, every, every-at,
}
use srlabs.Coding.Parity.{IsBits}

unfoldable pub distance : Mem → Mem → ℕ → ℕ
distance a b size = count_up size (λ i d. d + truth (bit_xor (a i) (b i))) 0

unfoldable pub cs_pattern : ℕ → Mem
cs_pattern zero = mem_of (1 ∷ 1 ∷ 1 ∷ 1 ∷ 1 ∷ 1 ∷ 1 ∷ 1 ∷ [])
cs_pattern (suc zero) = mem_of (1 ∷ 1 ∷ 0 ∷ 0 ∷ 1 ∷ 0 ∷ 0 ∷ 0 ∷ [])
cs_pattern (suc (suc zero)) = mem_of (0 ∷ 0 ∷ 1 ∷ 0 ∷ 0 ∷ 0 ∷ 0 ∷ 1 ∷ [])
cs_pattern _ = mem_of (0 ∷ 0 ∷ 0 ∷ 1 ∷ 0 ∷ 1 ∷ 1 ∷ 0 ∷ [])

pub cs_estimate : Mem → ℕ
cs_estimate sflags =
    let cs_dist = λ (i : ℕ). distance sflags (cs_pattern i) 8 in
    let first = if ltb (cs_dist 0) (cs_dist 1) then 0 else 1 in
    let second = if ltb (cs_dist 2) (cs_dist first) then 2 else first in
    if ltb (cs_dist 3) (cs_dist second) then 3 else second

pub usf6_pattern : ℕ → Mem
usf6_pattern zero = mem_of (0 ∷ 0 ∷ 0 ∷ 0 ∷ 0 ∷ 0 ∷ [])
usf6_pattern (suc zero) = mem_of (0 ∷ 0 ∷ 1 ∷ 0 ∷ 1 ∷ 1 ∷ [])
usf6_pattern (suc (suc zero)) = mem_of (0 ∷ 1 ∷ 0 ∷ 1 ∷ 1 ∷ 0 ∷ [])
usf6_pattern (suc (suc (suc zero))) = mem_of (0 ∷ 1 ∷ 1 ∷ 1 ∷ 0 ∷ 1 ∷ [])
usf6_pattern (suc (suc (suc (suc zero)))) = mem_of (1 ∷ 0 ∷ 0 ∷ 1 ∷ 0 ∷ 1 ∷ [])
usf6_pattern (suc (suc (suc (suc (suc zero))))) = mem_of (1 ∷ 0 ∷ 1 ∷ 1 ∷ 1 ∷ 0 ∷ [])
usf6_pattern (suc (suc (suc (suc (suc (suc zero)))))) = mem_of (1 ∷ 1 ∷ 0 ∷ 0 ∷ 1 ∷ 1 ∷ [])
usf6_pattern _ = mem_of (1 ∷ 1 ∷ 1 ∷ 0 ∷ 0 ∷ 0 ∷ [])

pub usf12_pattern : ℕ → Mem
usf12_pattern zero = mem_of (0 ∷ 0 ∷ 0 ∷ 0 ∷ 0 ∷ 0 ∷ 0 ∷ 0 ∷ 0 ∷ 0 ∷ 0 ∷ 0 ∷ [])
usf12_pattern (suc zero) = mem_of (0 ∷ 0 ∷ 0 ∷ 0 ∷ 1 ∷ 1 ∷ 0 ∷ 1 ∷ 1 ∷ 1 ∷ 0 ∷ 1 ∷ [])
usf12_pattern (suc (suc zero)) = mem_of (0 ∷ 0 ∷ 1 ∷ 1 ∷ 0 ∷ 1 ∷ 1 ∷ 1 ∷ 0 ∷ 1 ∷ 1 ∷ 0 ∷ [])
usf12_pattern (suc (suc (suc zero))) = mem_of (0 ∷ 0 ∷ 1 ∷ 1 ∷ 1 ∷ 0 ∷ 1 ∷ 0 ∷ 1 ∷ 0 ∷ 1 ∷ 1 ∷ [])
usf12_pattern (suc (suc (suc (suc zero)))) =
    mem_of (1 ∷ 1 ∷ 0 ∷ 1 ∷ 0 ∷ 0 ∷ 0 ∷ 0 ∷ 1 ∷ 0 ∷ 1 ∷ 1 ∷ [])
usf12_pattern (suc (suc (suc (suc (suc zero))))) =
    mem_of (1 ∷ 1 ∷ 0 ∷ 1 ∷ 1 ∷ 1 ∷ 0 ∷ 1 ∷ 0 ∷ 1 ∷ 1 ∷ 0 ∷ [])
usf12_pattern (suc (suc (suc (suc (suc (suc zero)))))) =
    mem_of (1 ∷ 1 ∷ 1 ∷ 0 ∷ 0 ∷ 1 ∷ 1 ∷ 1 ∷ 1 ∷ 1 ∷ 0 ∷ 1 ∷ [])
usf12_pattern _ = mem_of (1 ∷ 1 ∷ 1 ∷ 0 ∷ 1 ∷ 0 ∷ 1 ∷ 0 ∷ 0 ∷ 0 ∷ 0 ∷ 0 ∷ [])

-- The loop of both functions, from `i = 1` and `min = 0`.
pub least_index : (ℕ → ℕ) → ℕ
least_index dist =
    count_up 7 (λ i least. if ltb (dist (i + 1)) (dist least) then i + 1 else least) 0

pub usf6_estimate : Mem → ℕ
usf6_estimate data_ = least_index (λ i. distance data_ (usf6_pattern i) 6)

pub usf12_estimate : Mem → ℕ
usf12_estimate data_ = least_index (λ i. distance data_ (usf12_pattern i) 12)
