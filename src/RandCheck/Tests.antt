-- ===== src/RandCheck/Tests.antt =====
-- gsm-parser/rand_check.c: two messages under encryption, then one without.
use srlabs.Base.{
  ℕ, ◌+◌, ◌-◌, ◌≤◌, ◌<◌, ◌≡◌, ◌↔◌, refl, arith, Bool, true, false, some, none, [], ◌∷◌, Mem, mem_of,
  memcpy,
}
use srlabs.BitFunc.{hamming_distance}
use srlabs.RandCheck.{RandState, data_size, zero_state, compare_tail, count, judge, rand_check}
use srlabs.RandCheck.Laws.{
  IsValid, InRange, SameTail, rand_check-IsValid, rand_check-abort_iff, rand_check-random_iff,
  rand_check-remembers, rand_check-Ready,
}

-- No cipher.
abbrev plain : ℕ
plain = 0

abbrev first : Mem
first = mem_of (1 ∷ 2 ∷ 3 ∷ [])

abbrev second : Mem
second = mem_of (9 ∷ 2 ∷ 4 ∷ [])

-- The state after the first message.
abbrev started : RandState
started = record {
  valid = true;
  ciphered = 1;
  seen = memcpy (λ i. 0) 0 first 3;
  len = 3;
  byte_count = 0;
  rand_count = 0;
}

-- Two of three bytes differ.
abbrev compared : RandState
compared = record {
  valid = true;
  ciphered = 1;
  seen = memcpy (memcpy (λ i. 0) 0 first 3) 0 second 3;
  len = 3;
  byte_count = 3;
  rand_count = 2;
}

rand_check-first : rand_check first 3 zero_state 1 ≡ some (false, started)
unfolding rand_check
rand_check-first = refl

rand_check-second : rand_check second 3 started 1 ≡ some (true, compared)
unfolding rand_check compare_tail judge count hamming_distance
rand_check-second = refl

rand_check-plain : rand_check second 3 started plain ≡ none
unfolding rand_check compare_tail judge count hamming_distance
rand_check-plain = refl

started-IsValid : IsValid started
started-IsValid = omega arith

rand_check-IsValid_example :
    IsValid compared × ((i : ℕ) → data_size ≤ i → compared.seen i ≡ started.seen i)
rand_check-IsValid_example =
    rand_check-IsValid second 3 1 started-IsValid (omega arith) rand_check-second

rand_check-abort_iff_example :
    (rand_check second 3 started plain ≡ none) ↔ (InRange 3 × (true ≡ true) × (1 ≤ 1) × (plain ≡ 0))
rand_check-abort_iff_example = rand_check-abort_iff second 3 started plain

rand_check-random_iff_example :
    (true ≡ true) ↔ (InRange 3 × (true ≡ true) × (1 ≤ 1) × (¬ (SameTail second 3 started)))
rand_check-random_iff_example = rand_check-random_iff second 3 started 1 rand_check-second

rand_check-remembers_example : (3 ≤ 3) × ((i : ℕ) → i < 3 → compared.seen (3 - 3 + i) ≡ second i)
rand_check-remembers_example =
    rand_check-remembers second 3 started 1 (omega arith) rand_check-second

rand_check-Ready_example :
    (verdict : Bool) × (r : RandState) × (rand_check second 3 started 1 ≡ some (verdict, r))
    × (1 ≤ r.ciphered → 1 ≤ 1)
rand_check-Ready_example = rand_check-Ready second 3 started 1 (λ h. omega arith)
