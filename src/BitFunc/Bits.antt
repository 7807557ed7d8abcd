-- ===== src/BitFunc/Bits.antt =====
-- gsm-parser/bit_func.c: packing and unpacking of bits are inverse to each other. Both bit orders
-- run the same loop, over the position of bit `i` in its byte.
use srlabs.Base.{ℕ, ◌+◌, ◌*◌, ◌/◌, ◌%◌, ◌^◌, ◌<◌, ◌-◌, bit_and, ◌≡◌, refl, arith}
use srlabs.Base.{Bool, true, ◌&&◌, ◌==◌, if◌then◌else◌, truth, ltb, ==_iff}
use srlabs.Base.{Mem, store, IsByteMem, count_up, count_up-induction, every, every-at}
use srlabs.BitFunc.{put_bit, compress_lsb, expand_lsb, compress_msb, expand_msb}

-- Bit `k` of a byte as the expanding loops test it.
abbrev pub test_bit : ℕ → ℕ → ℕ
test_bit x k = truth (bit_and x (2 ^ k))

put_bit_holds : ℕ → ℕ → ℕ → ℕ → Bool
unfolding put_bit
put_bit_holds b k j x =
    test_bit (put_bit x (2 ^ k) b) j == (if j == k then b else test_bit x j)
    && ltb (put_bit x (2 ^ k) b) 256

put_bit_table : every (λ b. every (λ k. every (λ j. every (put_bit_holds b k j) 256) 8) 8) 2 ≡ true
unfolding every put_bit_holds
put_bit_table = refl

put_bit_at : (b k j x : ℕ) → b < 2 → k < 8 → j < 8 → x < 256 → put_bit_holds b k j x ≡ true
put_bit_at b k j x hb hk hj hx =
    let at_b = every-at _ 2 put_bit_table b hb in
    let at_k = every-at _ 8 at_b k hk in
    let at_j = every-at _ 8 at_k j hj in every-at (put_bit_holds b k j) 256 at_j x hx

put_bit_holds_sound :
    (b k j x : ℕ)
    → put_bit_holds b k j x ≡ true
    → (test_bit (put_bit x (2 ^ k) b) j ≡ (if j == k then b else test_bit x j))
      × (put_bit x (2 ^ k) b < 256)
unfolding put_bit_holds
put_bit_holds_sound b k j x h = ground arith

put_bit-truth : (x d b : ℕ) → put_bit x d b ≡ put_bit x d (truth b)
unfolding put_bit
put_bit-truth x d b = ground arith

test_bit-put_bit :
    (b k j x : ℕ)
    → k < 8
    → j < 8
    → x < 256
    → (test_bit (put_bit x (2 ^ k) b) j ≡ (if j == k then truth b else test_bit x j))
      × (put_bit x (2 ^ k) b < 256)
test_bit-put_bit b k j x hk hj hx =
    rw (put_bit-truth x (2 ^ k) b)
      (put_bit_holds_sound (truth b) k j x (put_bit_at (truth b) k j x (ground arith) hk hj hx))

-- The two orders: where bit `i` of the message stands in its byte.
abbrev lsb : ℕ → ℕ
lsb i = i % 8

abbrev msb : ℕ → ℕ
msb i = 7 - i % 8

record IsOrder (pos : ℕ → ℕ) : Type 0 where
  fits : (i : ℕ) → pos i < 8
  apart : (i j : ℕ) → i / 8 ≡ j / 8 → pos i ≡ pos j → i ≡ j
  onto : (n k : ℕ) → k < 8 → (j : ℕ) × (j / 8 ≡ n) × (pos j ≡ k)

lsb-IsOrder : IsOrder lsb
lsb-IsOrder = record {
  fits = λ i. omega arith;
  apart = λ i j p q. omega arith;
  onto = λ n k h. (8 * n + k, omega arith, omega arith);
}

msb-IsOrder : IsOrder msb
msb-IsOrder = record {
  fits = λ i. omega arith;
  apart = λ i j p q. omega arith;
  onto = λ n k h. (8 * n + (7 - k), omega arith, omega arith);
}

module _ (pos : ℕ → ℕ) (order : IsOrder pos) (src dst : Mem) where
  abbrev packed : ℕ → Mem
  packed size = count_up size (λ i o. store o (i / 8) (put_bit (o (i / 8)) (2 ^ pos i) (src i))) dst

  abbrev unpacked : ℕ → Mem
  unpacked size = count_up size (λ i o. store o i (test_bit (src (i / 8)) (pos i))) dst

  -- What has been packed after `i` rounds.
  abbrev IsPacked : ℕ → Mem → Type 0
  IsPacked i o =
      ((j : ℕ)
        → test_bit (o (j / 8)) (pos j)
          ≡ (if ltb j i then truth (src j) else test_bit (dst (j / 8)) (pos j)))
      × IsByteMem o

  IsPacked-store :
      (i : ℕ) (o : Mem)
      → IsPacked i o
      → IsPacked (i + 1) (store o (i / 8) (put_bit (o (i / 8)) (2 ^ pos i) (src i)))
  IsPacked-store i o h = (
    λ j. ground (
      arith,
      h.0 j,
      h.1 (i / 8),
      order.fits i,
      order.fits j,
      order.apart i j,
      test_bit-put_bit (src i) (pos i) (pos j) (o (i / 8)),
    ),
    λ n. ground (
      arith,
      h.1 n,
      h.1 (i / 8),
      order.fits i,
      test_bit-put_bit (src i) (pos i) (pos i) (o (i / 8)),
    ),
  )

  packed-IsPacked : (size : ℕ) → IsByteMem dst → IsPacked size (packed size)
  packed-IsPacked size h =
      count_up-induction IsPacked _ IsPacked-store size dst (λ j. ground arith, h)

  unpacked_at :
      (size j : ℕ)
      → unpacked size j ≡ (if ltb j size then test_bit (src (j / 8)) (pos j) else dst j)
  unpacked_at size =
      count_up-induction
        (λ i o. (j : ℕ) → o j ≡ (if ltb j i then test_bit (src (j / 8)) (pos j) else dst j)) _
        (λ i o h j. ground (arith, h j)) size dst (λ j. ground arith)

-- A byte is the sum of its bits.
sum_of_bits : ℕ → ℕ
sum_of_bits x =
    test_bit x 0
    + 2 * test_bit x 1
    + 4 * test_bit x 2
    + 8 * test_bit x 3
    + 16 * test_bit x 4
    + 32 * test_bit x 5
    + 64 * test_bit x 6
    + 128 * test_bit x 7

sum_of_bits_table : every (λ x. sum_of_bits x == x) 256 ≡ true
unfolding every sum_of_bits
sum_of_bits_table = refl

byte_ext : (x y : ℕ) → x < 256 → y < 256 → ((k : ℕ) → k < 8 → test_bit x k ≡ test_bit y k) → x ≡ y
unfolding sum_of_bits
byte_ext x y hx hy h = omega (
  arith,
  (==_iff _ x).0 (every-at _ 256 sum_of_bits_table x hx),
  (==_iff _ y).0 (every-at _ 256 sum_of_bits_table y hy),
  h 0 (omega arith),
  h 1 (omega arith),
  h 2 (omega arith),
  h 3 (omega arith),
  h 4 (omega arith),
  h 5 (omega arith),
  h 6 (omega arith),
  h 7 (omega arith),
)

truth-truth : (x : ℕ) → truth (truth x) ≡ truth x
truth-truth x = ground arith

module _ (pos : ℕ → ℕ) (order : IsOrder pos) (out dst : Mem) where
  unpacked-packed :
      (src : Mem) (size j : ℕ)
      → IsByteMem dst
      → unpacked pos order (packed pos order src dst size) out size j
        ≡ (if ltb j size then truth (src j) else out j)
  unpacked-packed src size j h = ground (
    arith,
    unpacked_at pos order (packed pos order src dst size) out size j,
    (packed-IsPacked pos order src dst size h).0 j,
  )

  packed-unpacked :
      (v : Mem) (len n : ℕ)
      → IsByteMem v
      → IsByteMem dst
      → n < len
      → packed pos order (unpacked pos order v out (8 * len)) dst (8 * len) n ≡ v n
  packed-unpacked v len n hv h lt =
      byte_ext _ (v n) (is_packed.1 n) (hv n) λ k hk. same k (order.onto n k hk)
    where
      is_packed :
          IsPacked pos order
            (unpacked pos order v out (8 * len))
            dst
            (8 * len)
            (packed pos order (unpacked pos order v out (8 * len)) dst (8 * len))
      is_packed = packed-IsPacked pos order (unpacked pos order v out (8 * len)) dst (8 * len) h

      same :
          (k : ℕ)
          → (j : ℕ) × (j / 8 ≡ n) × (pos j ≡ k)
          → test_bit (packed pos order (unpacked pos order v out (8 * len)) dst (8 * len) n) k
            ≡ test_bit (v n) k
      same k (j, at_n, at_k) =
          rw (← at_n, ← at_k)
            (ground (
              arith,
              is_packed.0 j,
              unpacked_at pos order v out (8 * len) j,
              truth-truth (bit_and (v (j / 8)) (2 ^ pos j)),
            ))

-- Expanding what was packed gives the truth values of the packed bits back, whatever the byte
-- buffer held before, and touches nothing from `size` on, in both bit orders.
pub expand-compress :
    (src dst out : Mem) (size j : ℕ)
    → IsByteMem dst
    → (expand_lsb (compress_lsb src dst size) out size j
        ≡ (if ltb j size then truth (src j) else out j))
      × (expand_msb (compress_msb src dst size) out size j
          ≡ (if ltb j size then truth (src j) else out j))
unfolding expand_lsb compress_lsb expand_msb compress_msb
expand-compress src dst out size j h = (
  unpacked-packed lsb lsb-IsOrder out dst src size j h,
  unpacked-packed msb msb-IsOrder out dst src size j h,
)

-- Packing the expanded bits of `len` bytes gives each of those bytes back, in both bit orders.
pub compress-expand :
    (v out dst : Mem) (len n : ℕ)
    → IsByteMem v
    → IsByteMem dst
    → n < len
    → (compress_lsb (expand_lsb v out (8 * len)) dst (8 * len) n ≡ v n)
      × (compress_msb (expand_msb v out (8 * len)) dst (8 * len) n ≡ v n)
unfolding expand_lsb compress_lsb expand_msb compress_msb
compress-expand v out dst len n hv h lt = (
  packed-unpacked lsb lsb-IsOrder out dst v len n hv h lt,
  packed-unpacked msb msb-IsOrder out dst v len n hv h lt,
)
