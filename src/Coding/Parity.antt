-- ===== src/Coding/Parity.antt =====
-- gsm-parser/crc.c: parity_check accepts exactly the parity bits that parity_encode gives.
use srlabs.Base.{ℕ, ◌+◌, ◌-◌, ◌<◌, ◌≤◌, bit_xor, ◌≡◌, ◌↔◌, refl, arith, sym, ◌∙◌}
use srlabs.Base.{Bool, true, false, ◌&&◌, ltb, leb, ◌==◌, if◌then◌else◌, nonzero, num, Bool-cases}
use srlabs.Base.{
  Mem, store, shift, memcpy, memset, count_up, count_up-related, every, every-at, every-from,
}
use srlabs.Base.{inl, inr, fill}
use srlabs.Coding.Crc.{memcmp_differs, subtract_poly, divide, parity_encode, parity_check}

unfoldable pub IsBits : Mem → Type 0
IsBits p = (i : ℕ) → p i < 2

-- Of three bits: the laws of xor that the division needs.
xor_laws : ℕ → ℕ → ℕ → Bool
xor_laws a b c =
    bit_xor (bit_xor a b) c == bit_xor (bit_xor a c) b
    && bit_xor a 0 == a
    && bit_xor 0 a == a
    && ltb (bit_xor a b) 2
    && num (bit_xor a b == 1) == num (b == num (a == 0))

xor_table : every (λ a. every (λ b. every (xor_laws a b) 2) 2) 2 ≡ true
unfolding every xor_laws
xor_table = refl

xor_at :
    (a b c : ℕ)
    → a < 2
    → b < 2
    → c < 2
    → (bit_xor (bit_xor a b) c ≡ bit_xor (bit_xor a c) b)
      × (bit_xor a 0 ≡ a)
      × (bit_xor 0 a ≡ a)
      × (bit_xor a b < 2)
      × ((bit_xor a b ≡ 1) ↔ (b ≡ num (a == 0)))
unfolding xor_laws
xor_at a b c ha hb hc =
    let h = every-at (xor_laws a b) 2 (every-at _ 2 (every-at _ 2 xor_table a ha) b hb) c hc in
    ground arith

module _ (poly tail : Mem) (psize dsize : ℕ) (poly_bits : IsBits poly)
    (tail_bits : IsBits tail) where
  -- Two buffers of bits that differ by the tail: what stands in front of the parity bits is equal.
  tail_at : ℕ → ℕ
  tail_at j = if ltb j dsize then 0 else tail (j - dsize)

  Related : Mem → Mem → Type 0
  Related p q = (j : ℕ) → j < dsize + psize → (q j < 2) × (p j ≡ bit_xor (q j) (tail_at j))

  tail_at-bit : (j : ℕ) → tail_at j < 2
  unfolding tail_at IsBits
  tail_at-bit j = let h = tail_bits (j - dsize) in ground arith

  abbrev add_at : ℕ → ℕ → Mem → Mem
  add_at q i b = store b (q + i) (bit_xor (b (q + i)) (poly i))

  add_at-Related : (at i : ℕ) (p q : Mem) → Related p q → Related (add_at at i p) (add_at at i q)
  unfolding Related IsBits
  add_at-Related at i p q related j below = elim (Bool-cases (j == at + i)) [
    | inl e ↦
        let here : at + i ≡ j = ground (arith, e) in
        let (q_bit, p_sum) = related j below in
        let t_bit = tail_at-bit j in
        let laws = xor_at (q j) (tail_at j) (poly i) q_bit t_bit (poly_bits i) in
        let bit = (xor_at (q j) (poly i) 0 q_bit (poly_bits i) (omega arith)).3 in
        rw (e, here, p_sum) (bit, laws.0)
    | inr e ↦ rw e (related j below)
  ]

  subtract_poly-Related :
      (at : ℕ) (p q : Mem)
      → at < dsize
      → Related p q
      → Related (subtract_poly poly psize at p) (subtract_poly poly psize at q)
  unfolding subtract_poly Related tail_at
  subtract_poly-Related at p q below related =
      let no_tail : tail_at at ≡ 0 = ground (arith, below) in
      let (q_bit, p_sum) = related at (omega (arith, below)) in
      let same : p at ≡ q at =
        p_sum ∙ rw no_tail (xor_at (q at) 0 0 q_bit (omega arith) (omega arith)).1 in
      let subtracted : (n : ℕ) → Related (count_up n (add_at at) p) (count_up n (add_at at) q) =
        λ n.
          count_up-related Related (add_at at) (add_at at) n (λ i s t _. add_at-Related at i s t) p
            q related in
      elim (Bool-cases (nonzero (q at))) [
        | inl e ↦ rw (same, e) (subtracted (psize + 1))
        | inr e ↦ rw (same, e) related
      ]

  divide-Related :
      (p q : Mem) → Related p q → Related (divide poly psize dsize p) (divide poly psize dsize q)
  unfolding divide
  divide-Related p q related =
      count_up-related Related (subtract_poly poly psize) (subtract_poly poly psize) dsize
        (λ at s t. subtract_poly-Related at s t) p q related

memcmp_differs_iff :
    (p q : Mem) (n : ℕ) → (memcmp_differs p q n ≡ false) ↔ ((i : ℕ) → i < n → p i ≡ q i)
unfolding memcmp_differs
memcmp_differs_iff p q n = (
  λ same i below.
      let test : every (λ i. p i == q i) n ≡ true = ground (arith, same) in
      let at_i = every-at (λ i. p i == q i) n test i below in ground (arith, at_i),
  λ same.
      rw (every-from (λ i. p i == q i) n (λ i below. let e = same i below in ground (arith, e)))
        refl,
)

-- The parity bit `i`, from the remainder of the division.
abbrev pub parity_bit : Mem → Mem → ℕ → ℕ → ℕ → ℕ
parity_bit data_ poly dsize psize i = num (
    divide poly psize dsize (memset (memcpy (λ _. 0) 0 data_ dsize) dsize 0 psize) (dsize + i) == 0)

-- What the encoder writes, and that it writes no further.
parity_encode-fill :
    (data_ poly parity : Mem) (dsize psize i : ℕ)
    → parity_encode data_ dsize poly parity psize i
      ≡ (if ltb i psize then parity_bit data_ poly dsize psize i else parity i)
unfolding parity_encode
parity_encode-fill data_ poly parity dsize psize i =
    fill (parity_bit data_ poly dsize psize) parity psize i

pub parity_encode-at :
    (data_ poly parity : Mem) (dsize psize i : ℕ)
    → i < psize
    → parity_encode data_ dsize poly parity psize i ≡ parity_bit data_ poly dsize psize i
parity_encode-at data_ poly parity dsize psize i below =
    rw (parity_encode-fill data_ poly parity dsize psize i) (ground (arith, below))

pub parity_encode-outside :
    (data_ poly parity : Mem) (dsize psize i : ℕ)
    → psize ≤ i
    → parity_encode data_ dsize poly parity psize i ≡ parity i
parity_encode-outside data_ poly parity dsize psize i outside =
    rw (parity_encode-fill data_ poly parity dsize psize i) (ground (arith, outside))

module _ (word poly : Mem) (dsize psize : ℕ) (word_bits : IsBits word)
    (poly_bits : IsBits poly) where
  -- The buffers of the check and of the encoder.
  abbrev checked : Mem
  checked = memcpy (λ _. 0) 0 word (dsize + psize)

  abbrev encoded : Mem
  encoded = memset (memcpy (λ _. 0) 0 word dsize) dsize 0 psize

  abbrev tail_bits_of : IsBits (shift word dsize)
  unfolding IsBits
  tail_bits_of i = word_bits (dsize + i)

  abbrev SameHead : Mem → Mem → Type 0
  SameHead = Related poly (shift word dsize) psize dsize poly_bits tail_bits_of

  checked-SameHead : SameHead checked encoded
  unfolding Related tail_at IsBits
  checked-SameHead j below =
      let bit = word_bits j in
      let (_, right, left, _, _) = xor_at (word j) 0 0 bit (omega arith) (omega arith) in
      elim (Bool-cases (ltb j dsize)) [
        | inl e ↦ ground (arith, below, e, bit, right)
        | inr e ↦
            let back : dsize + (j - dsize) ≡ j = ground (arith, e) in
            let in_range : leb dsize j ≡ true = ground (arith, e) in
            let within : ltb j (dsize + psize) ≡ true = ground (arith, below) in
            let w : 0 + (dsize + psize) ≡ dsize + psize = omega arith in
            let zero_le : leb 0 j ≡ true = ground arith in
            let off : j - 0 ≡ j = omega arith in
            rw (e, back, in_range, within, w, within, zero_le, off) (omega arith, sym left)
      ]

  parity_bit_iff :
      (i : ℕ)
      → i < psize
      → (divide poly psize dsize checked (dsize + i) ≡ 1)
        ↔ (word (dsize + i) ≡ num (divide poly psize dsize encoded (dsize + i) == 0))
  unfolding Related tail_at IsBits
  parity_bit_iff i below =
      let q = divide poly psize dsize encoded in
      let divided : SameHead (divide poly psize dsize checked) q =
        divide-Related poly (shift word dsize) psize dsize poly_bits tail_bits_of checked encoded
          checked-SameHead in
      let (q_bit, sum) = divided (dsize + i) (omega (arith, below)) in
      let tail_here : tail_at poly (shift word dsize) psize dsize poly_bits tail_bits_of (dsize + i)
          ≡ word (dsize + i) =
        let e : dsize + (dsize + i - dsize) ≡ dsize + i = omega arith in
        let out : ltb (dsize + i) dsize ≡ false = ground arith in rw (out, e) refl in
      let law =
        (xor_at (q (dsize + i)) (word (dsize + i)) 0 q_bit (word_bits (dsize + i))
          (omega arith)).4 in
      rw (sum, tail_here) law

-- For bits, the check against a remainder of ones passes exactly when the bits behind the data are
-- the ones that parity_encode computes from the data.
pub parity_check-parity_encode_iff :
    (word poly parity remainder : Mem) (dsize psize : ℕ)
    → IsBits word
    → IsBits poly
    → ((i : ℕ) → i < psize → remainder i ≡ 1)
    → (parity_check word dsize poly remainder psize ≡ false)
      ↔ ((i : ℕ) → i < psize → word (dsize + i) ≡ parity_encode word dsize poly parity psize i)
unfolding parity_check
parity_check-parity_encode_iff word poly parity remainder dsize psize word_bits poly_bits ones =
    let p = divide poly psize dsize (checked word poly dsize psize word_bits poly_bits) in
    let bit = parity_bit_iff word poly dsize psize word_bits poly_bits in
    let compare = memcmp_differs_iff (shift p dsize) remainder psize in
    (
      λ passed i below.
          (bit i below).0 (compare.0 passed i below ∙ ones i below)
          ∙ sym (parity_encode-at word poly parity dsize psize i below),
      λ given. compare.1 (λ i below.
          (bit i below).1 (given i below ∙ parity_encode-at word poly parity dsize psize i below)
          ∙ sym (ones i below)),
    )
