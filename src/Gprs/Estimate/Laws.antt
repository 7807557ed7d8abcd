-- ===== src/Gprs/Estimate/Laws.antt =====
-- gsm-parser/gprs.c: the estimates find what was sent from bits of which few are wrong.
use srlabs.Base.{ℕ, zero, suc, ◌+◌, ◌<◌, ◌≤◌, ◌≡◌, ◌≢◌, refl, arith, inl, inr, bit_xor}
use srlabs.Base.{
  Bool, true, ◌&&◌, ◌||◌, ltb, leb, ◌==◌, if◌then◌else◌, truth, Bool-cases, Mem, count_up,
  count_up-invariant, every, every-at,
}
use srlabs.Coding.Parity.{IsBits}
use srlabs.Gprs.Estimate.{
  distance, cs_pattern, cs_estimate, usf6_pattern, usf12_pattern, least_index, usf6_estimate,
  usf12_estimate,
}

-- Of bits: nothing between equal ones, and the way over a third is no shorter.
xor_distance : ℕ → ℕ → ℕ → Bool
xor_distance a b c = leb (truth (bit_xor b c)) (truth (bit_xor a b) + truth (bit_xor a c))

xor_distance_table : every (λ a. every (λ b. every (xor_distance a b) 2) 2) 2 ≡ true
unfolding every xor_distance
xor_distance_table = refl

xor_distance-at :
    (a b c : ℕ)
    → a < 2
    → b < 2
    → c < 2
    → truth (bit_xor b c) ≤ truth (bit_xor a b) + truth (bit_xor a c)
unfolding xor_distance
xor_distance-at a b c ha hb hc =
    let h =
      every-at (xor_distance a b) 2 (every-at _ 2 (every-at _ 2 xor_distance_table a ha) b hb) c
        hc in
    ground (arith, h)

abbrev IsBitsBelow : ℕ → Mem → Type 0
IsBitsBelow n p = (k : ℕ) → k < n → p k < 2

distance-triangle :
    (a b c : Mem) (n : ℕ)
    → IsBitsBelow n a
    → IsBitsBelow n b
    → IsBitsBelow n c
    → distance b c n ≤ distance a b n + distance a c n
unfolding distance count_up
distance-triangle a b c zero ha hb hc = omega arith
distance-triangle a b c (suc n) ha hb hc =
    let rest =
      distance-triangle a b c n (λ k lt. ha k (omega (arith, lt)))
        (λ k lt. hb k (omega (arith, lt))) (λ k lt. hc k (omega (arith, lt))) in
    let here =
      xor_distance-at (a n) (b n) (c n) (ha n (omega arith)) (hb n (omega arith))
        (hc n (omega arith)) in
    omega (arith, rest, here)

-- Patterns that lie more than twice as far from each other as what was received lies from one.
nearest_unique :
    (pattern : ℕ → Mem) (received : Mem) (size errors found sent : ℕ)
    → IsBitsBelow size received
    → IsBitsBelow size (pattern found)
    → IsBitsBelow size (pattern sent)
    → (found ≢ sent → errors + errors < distance (pattern found) (pattern sent) size)
    → distance received (pattern found) size ≤ distance received (pattern sent) size
    → distance received (pattern sent) size ≤ errors
    → found ≡ sent
nearest_unique pattern received size errors found sent bits found_bits sent_bits apart nearest few =
    let way =
      distance-triangle received (pattern found) (pattern sent) size bits found_bits sent_bits in
    elim (Bool-cases (found == sent)) [
      | inl e ↦ ground (arith, e)
      | inr e ↦
          let differ : found ≢ sent = ground (arith, e) in
          let far = apart differ in absurd (omega (arith, far, way, nearest, few))
    ]

-- `x` where it is nearer than `y`.
abbrev nearer : (ℕ → ℕ) → ℕ → ℕ → ℕ
nearer dist x y = if ltb (dist x) (dist y) then x else y

nearer-least :
    (dist : ℕ → ℕ) (x y bound : ℕ)
    → x < bound
    → y < bound
    → (nearer dist x y < bound)
      × (dist (nearer dist x y) ≤ dist x)
      × (dist (nearer dist x y) ≤ dist y)
nearer-least dist x y bound hx hy = elim (Bool-cases (ltb (dist x) (dist y))) [
  | inl e ↦ rw e (hx, omega arith, ground (arith, e))
  | inr e ↦ rw e (hy, ground (arith, e), omega arith)
]

-- At most as far as every index below a bound.
abbrev IsLeast : (ℕ → ℕ) → ℕ → ℕ → Type 0
IsLeast dist bound r = (r < bound) × ((k : ℕ) → k < bound → dist r ≤ dist k)

nearer-IsLeast :
    (dist : ℕ → ℕ) (i r : ℕ) → IsLeast dist i r → IsLeast dist (i + 1) (nearer dist i r)
nearer-IsLeast dist i r (bound, no_more) =
    let (below, near_i, near_r) =
      nearer-least dist i r (i + 1) (omega arith) (omega (arith, bound)) in
    (
      below,
      λ k hk. elim (Bool-cases (k == i)) [
        | inl e ↦ let same : k ≡ i = ground (arith, e) in rw same near_i
        | inr e ↦
            let less : k < i = ground (arith, e, hk) in
            let m = no_more k less in omega (arith, near_r, m)
      ],
    )

least_index-IsLeast : (dist : ℕ → ℕ) → IsLeast dist 8 (least_index dist)
unfolding least_index
least_index-IsLeast dist =
    count_up-invariant (λ i least. IsLeast dist (i + 1) least)
      (λ i least. nearer dist (i + 1) least) 7
      (λ i least below h. nearer-IsLeast dist (i + 1) least h) 0
      (omega arith, λ k below. let first : k ≡ 0 = omega (arith, below) in rw first (omega arith))

cs_estimate-IsLeast :
    (sflags : Mem) → IsLeast (λ i. distance sflags (cs_pattern i) 8) 4 (cs_estimate sflags)
unfolding cs_estimate
cs_estimate-IsLeast sflags =
    let dist = λ (i : ℕ). distance sflags (cs_pattern i) 8 in
    let (below, near0, near1) = nearer-least dist 0 1 2 (omega arith) (omega arith) in
    let first : IsLeast dist 2 (nearer dist 0 1) = (
      below,
      λ k hk. elim (Bool-cases (k == 0)) [
        | inl e ↦ let same : k ≡ 0 = ground (arith, e) in rw same near0
        | inr e ↦ let same : k ≡ 1 = ground (arith, e, hk) in rw same near1
      ],
    ) in
    nearer-IsLeast dist 3 (nearer dist 2 (nearer dist 0 1))
      (nearer-IsLeast dist 2 (nearer dist 0 1) first)

-- Patterns of a code are bits, and apart from each other.
code_holds : (ℕ → Mem) → ℕ → ℕ → ℕ → ℕ → ℕ → Bool
code_holds pattern size errors i j k =
    ltb (pattern i k) 2 && (i == j || ltb (errors + errors) (distance (pattern i) (pattern j) size))

cs_table : every (λ i. every (λ j. every (code_holds cs_pattern 8 2 i j) 8) 4) 4 ≡ true
unfolding every code_holds cs_pattern distance count_up
cs_table = refl

usf6_table : every (λ i. every (λ j. every (code_holds usf6_pattern 6 1 i j) 6) 8) 8 ≡ true
unfolding every code_holds usf6_pattern distance count_up
usf6_table = refl

usf12_table : every (λ i. every (λ j. every (code_holds usf12_pattern 12 2 i j) 12) 8) 8 ≡ true
unfolding every code_holds usf12_pattern distance count_up
usf12_table = refl

module _ (pattern : ℕ → Mem) (count size errors : ℕ)
    (table : every (λ i. every (λ j. every (code_holds pattern size errors i j) size) count) count
      ≡ true)
    (some_bits : 1 ≤ size) where
  code_at :
      (i j k : ℕ)
      → i < count
      → j < count
      → k < size
      → (pattern i k < 2) × (i ≢ j → errors + errors < distance (pattern i) (pattern j) size)
  unfolding code_holds
  code_at i j k hi hj hk =
      let h =
        every-at (code_holds pattern size errors i j) size
          (every-at _ count (every-at _ count table i hi) j hj) k hk in
      (ground (arith, h), λ apart. ground (arith, h, apart))

  -- The least distance finds the pattern that was sent, within the errors that the code bears.
  nearest-corrects :
      (received : Mem) (sent found : ℕ)
      → IsBitsBelow size received
      → sent < count
      → distance received (pattern sent) size ≤ errors
      → IsLeast (λ i. distance received (pattern i) size) count found
      → found ≡ sent
  nearest-corrects received sent found bits below few (found_below, least) =
      nearest_unique pattern received size errors found sent bits
        (λ k hk. (code_at found sent k found_below below hk).0)
        (λ k hk. (code_at sent found k below found_below hk).0)
        (λ apart. (code_at found sent 0 found_below below (omega (arith, some_bits))).1 apart)
        (least sent below) few

-- The three codes: how many patterns of what size there are, and how many errors are borne.
pub data Code : Type 0 where
  coding_scheme usf6 usf12 : Code

abbrev pub patterns : Code → ℕ → Mem
patterns coding_scheme = cs_pattern
patterns usf6 = usf6_pattern
patterns usf12 = usf12_pattern

abbrev pub count : Code → ℕ
count coding_scheme = 4
count _ = 8

abbrev pub size : Code → ℕ
size coding_scheme = 8
size usf6 = 6
size usf12 = 12

abbrev pub borne : Code → ℕ
borne usf6 = 1
borne _ = 2

abbrev pub estimate : Code → Mem → ℕ
estimate coding_scheme = cs_estimate
estimate usf6 = usf6_estimate
estimate usf12 = usf12_estimate

-- Each estimate finds the pattern that was sent from bits of which at most two, one and two are
-- wrong: the coding scheme from the eight stealing bits, and the uplink state flag from its six or
-- its twelve bits.
pub estimate-sent :
    (code : Code) (received : Mem) (sent : ℕ)
    → IsBits received
    → sent < count code
    → distance received (patterns code sent) (size code) ≤ borne code
    → estimate code received ≡ sent
unfolding usf6_estimate usf12_estimate IsBits
estimate-sent coding_scheme received sent bits below few =
    nearest-corrects cs_pattern 4 8 2 cs_table (omega arith) received sent (cs_estimate received)
      (λ k _. bits k) below few (cs_estimate-IsLeast received)
estimate-sent usf6 received sent bits below few =
    nearest-corrects usf6_pattern 8 6 1 usf6_table (omega arith) received sent
      (usf6_estimate received) (λ k _. bits k) below few
      (least_index-IsLeast (λ i. distance received (usf6_pattern i) 6))
estimate-sent usf12 received sent bits below few =
    nearest-corrects usf12_pattern 8 12 2 usf12_table (omega arith) received sent
      (usf12_estimate received) (λ k _. bits k) below few
      (least_index-IsLeast (λ i. distance received (usf12_pattern i) 12))
