-- ===== src/RandCheck/Laws.antt =====
-- gsm-parser/rand_check.c: the bounds of the 20-byte buffer, the verdict, and the abort.
use srlabs.Base.{
  ℕ, ◌+◌, ◌-◌, ◌^◌, ◌≤◌, ◌<◌, min, ◌≡◌, ◌↔◌, arith, Bool-cases, Option-cases, inl, inr,
}
use srlabs.Base.{Bool, true, none, some, leb, Mem, shift}
use srlabs.BitFunc.Stream.{hamming_distance_lem}
use native.Mathlib.Decide.{dec_lt}
use srlabs.RandCheck.{RandState, data_size, rand_init_2b, compare_tail, count, judge, rand_check}

-- The remembered bytes lie in the buffer, and no more bytes changed than were compared.
pub record IsValid (r : RandState) : Type 0 where
  pub fits : r.len ≤ data_size
  pub filled : r.valid ≡ true → 1 ≤ r.len
  pub rate : r.rand_count ≤ r.byte_count

-- Fewer than 2^32 - 20 bytes have been compared, so that the next comparison wraps no counter.
abbrev pub HasRoom : RandState → Type 0
HasRoom r = r.byte_count + 20 < 2 ^ 32

rand_init_2b-IsValid : {r : RandState} → IsValid r → IsValid (rand_init_2b r)
unfolding rand_init_2b
rand_init_2b-IsValid v = omega arith

-- Every returned state keeps the invariant, while the counters are not about to wrap: at most 20
-- bytes are remembered, and no more bytes changed than were compared. Nothing is written behind the
-- 20 bytes of the buffer.
pub rand_check-IsValid :
    (msg : Mem) (len : ℕ) {r : RandState} (ciphered : ℕ) {verdict : Bool} {r' : RandState}
    → IsValid r
    → HasRoom r
    → rand_check msg len r ciphered ≡ some (verdict, r')
    → IsValid r' × ((i : ℕ) → data_size ≤ i → r'.seen i ≡ r.seen i)
unfolding rand_check compare_tail judge count
rand_check-IsValid msg len {r} ciphered v room e = (
  ground (
    arith,
    hamming_distance_lem (shift r.seen (r.len - len)) msg len,
    hamming_distance_lem r.seen (shift msg (len - r.len)) r.len,
  ),
  λ i behind. ground (arith, v.fits, e, behind),
)

-- A message that takes part in the check.
abbrev pub InRange : ℕ → Type 0
InRange len = (1 ≤ len) × (len ≤ 20)

-- The call aborts exactly on a message without encryption that is compared with one under it.
pub rand_check-abort_iff :
    (msg : Mem) (len : ℕ) (r : RandState) (ciphered : ℕ)
    → (rand_check msg len r ciphered ≡ none)
      ↔ (InRange len × (r.valid ≡ true) × (1 ≤ r.ciphered) × (ciphered ≡ 0))
unfolding rand_check compare_tail judge count
rand_check-abort_iff msg len r ciphered = (λ e. ground arith, λ h. ground arith)

-- The last `min len r.len` bytes of the message and of the remembered one agree.
abbrev pub SameTail : Mem → ℕ → RandState → Type 0
SameTail msg len r =
    (i : ℕ) → i < min len r.len → r.seen (r.len - min len r.len + i) ≡ msg (len - min len r.len + i)

compare_tail-zero_iff :
    (msg : Mem) (len : ℕ) (r : RandState) → ((compare_tail msg len r).0 ≡ 0) ↔ SameTail msg len r
unfolding compare_tail
compare_tail-zero_iff msg len r = elim (Bool-cases (leb len r.len)) [
  | inl fits ↦
      (let (bound, agree) = hamming_distance_lem (shift r.seen (r.len - len)) msg len in
        rw fits
          ((λ e i h. ground (arith, agree.0 e i)), λ h. agree.1 (λ i lt. ground (arith, h i))))
  | inr longer ↦
      (let (bound, agree) = hamming_distance_lem r.seen (shift msg (len - r.len)) r.len in
        rw longer
          ((λ e i h. ground (arith, agree.0 e i)), λ h. agree.1 (λ i lt. ground (arith, h i))))
]

compare_tail-bound : (msg : Mem) (len : ℕ) (r : RandState) → (compare_tail msg len r).0 ≤ len
unfolding compare_tail
compare_tail-bound msg len r = ground (
  arith,
  hamming_distance_lem (shift r.seen (r.len - len)) msg len,
  hamming_distance_lem r.seen (shift msg (len - r.len)) r.len,
)

random_iff-differ :
    (msg : Mem) (len : ℕ) (r : RandState) (ciphered : ℕ) {verdict : Bool} {r' : RandState}
    → rand_check msg len r ciphered ≡ some (verdict, r')
    → (verdict ≡ true)
      ↔ (InRange len × (r.valid ≡ true) × (1 ≤ ciphered) × (1 ≤ (compare_tail msg len r).0))
unfolding rand_check judge count
random_iff-differ msg len r ciphered e = (
  λ random. ground (arith, compare_tail-bound msg len r),
  λ h. ground (arith, compare_tail-bound msg len r),
)

-- The verdict "random" is given exactly to an encrypted message of 1 to 20 bytes that finds an
-- earlier one stored and differs from it in the bytes that both have, counted from their ends.
pub rand_check-random_iff :
    (msg : Mem) (len : ℕ) (r : RandState) (ciphered : ℕ) {verdict : Bool} {r' : RandState}
    → rand_check msg len r ciphered ≡ some (verdict, r')
    → (verdict ≡ true)
      ↔ (InRange len × (r.valid ≡ true) × (1 ≤ ciphered) × (¬ (SameTail msg len r)))
rand_check-random_iff msg len r ciphered e =
    let (differ, back) = random_iff-differ msg len r ciphered e in
    let (zero_same, same_zero) = compare_tail-zero_iff msg len r in
    (
      λ random.
          let (range, valid, on, apart) = differ random in
          (range, valid, on, λ same. absurd (omega (arith, same_zero same))),
      λ (range, valid, on, apart). back (range, valid, on, some_differ zero_same apart),
    )
  where
    some_differ : {n : ℕ} {P : Type 0} → (n ≡ 0 → P) → ¬ P → 1 ≤ n
    some_differ {n} zero_P not_P = elim (dec_lt 0 n) [
      | yes h ↦ h
      | no h ↦ absurd (not_P (zero_P (omega arith)))
    ]

-- After a call that returns for a message of 1 to 20 bytes, the last `len` remembered bytes are
-- the message.
pub rand_check-remembers :
    (msg : Mem) (len : ℕ) (r : RandState) (ciphered : ℕ) {verdict : Bool} {r' : RandState}
    → InRange len
    → rand_check msg len r ciphered ≡ some (verdict, r')
    → (len ≤ r'.len) × ((i : ℕ) → i < len → r'.seen (r'.len - len + i) ≡ msg i)
unfolding rand_check compare_tail judge count
rand_check-remembers msg len r ciphered range e = (ground arith, λ i h. ground arith)

rand_check-seen :
    (msg : Mem) (len : ℕ) (r : RandState) (ciphered : ℕ) {verdict : Bool} {r' : RandState}
    → (1 ≤ r.ciphered → 1 ≤ ciphered)
    → rand_check msg len r ciphered ≡ some (verdict, r')
    → 1 ≤ r'.ciphered
    → 1 ≤ ciphered
unfolding rand_check compare_tail judge count
rand_check-seen msg len r ciphered ready e seen = ground arith

-- A state that has seen encryption only under a cipher stays so, and the call does not abort.
pub rand_check-Ready :
    (msg : Mem) (len : ℕ) (r : RandState) (ciphered : ℕ)
    → (1 ≤ r.ciphered → 1 ≤ ciphered)
    → (verdict : Bool) × (r' : RandState) × (rand_check msg len r ciphered ≡ some (verdict, r'))
      × (1 ≤ r'.ciphered → 1 ≤ ciphered)
rand_check-Ready msg len r ciphered ready = elim (Option-cases (rand_check msg len r ciphered)) [
  | inl stopped ↦
      (let (range, valid, seen, off) = (rand_check-abort_iff msg len r ciphered).0 stopped in
        absurd (omega (arith, ready seen)))
  | inr (result, e) ↦ (result.0, result.1, e, rand_check-seen msg len r ciphered ready e)
]
