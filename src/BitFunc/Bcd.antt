-- ===== src/BitFunc/Bcd.antt =====
-- gsm-parser/bit_func.c: what `bcd2str` writes.
use srlabs.Base.{ℕ, zero, suc, ◌+◌, ◌*◌, ◌/◌, ◌%◌, ◌<◌, ◌≤◌, ◌-◌, ◌≡◌, refl, subst, ap, arith, ◌||◌}
use srlabs.Base.{
  true, ltb, ◌==◌, ==_iff, ltb→lt, if◌then◌else◌, List, ◌∷◌, length, Bool-cases, inl, inr, every,
  every-at,
}
use srlabs.Base.{Mem, mem_of}
use srlabs.BitFunc.{bcd_code, bcd_digit, bcd_loop, bcd2str}

-- The characters that a digit below 15 is shown as: 0 to 9, and two that stand for the rest.
pub telephone_char : ℕ → ℕ
telephone_char d = if ltb d 10 then b'0' + d else if d == 12 || d == 14 then b'#' else b'*'

code_table : every (λ n. bcd_code n == telephone_char n) 15 ≡ true
unfolding every bcd_code telephone_char
code_table = refl

bcd_code-telephone_char : (n : ℕ) → n < 15 → bcd_code n ≡ telephone_char n
bcd_code-telephone_char n h = (==_iff _ _).0 (every-at _ 15 code_table n h)

-- One more character in front.
shown-cons :
    (bcd : Mem) (i : ℕ) (s : List ℕ)
    → bcd_digit bcd i < 15
    → ((k : ℕ) → k < length s → mem_of s k ≡ telephone_char (bcd_digit bcd (i + 1 + k)))
    → (k : ℕ) → k < suc (length s)
    → mem_of (bcd_code (bcd_digit bcd i) ∷ s) k ≡ telephone_char (bcd_digit bcd (i + k))
shown-cons bcd i s digit rest zero below =
    let e : i + 0 ≡ i = omega arith in rw e (bcd_code-telephone_char _ digit)
shown-cons bcd i s digit rest (suc k) below =
    let e : i + suc k ≡ i + 1 + k = omega arith in rw e (rest k (omega (arith, below)))

-- The loop stopped at index `j` with `s` written.
pub record Stopped (bcd : Mem) (i len : ℕ) (s : List ℕ) (j : ℕ) : Type 0 where
  pub written : i + length s ≡ j
  pub bound : j ≤ len
  pub filler : j < len → 15 ≤ bcd_digit bcd j
  pub before : (k : ℕ) → i ≤ k → k < j → bcd_digit bcd k < 15
  pub shown : (k : ℕ) → k < length s → mem_of s k ≡ telephone_char (bcd_digit bcd (i + k))

bcd_loop-Stopped :
    (bcd : Mem) (left i len : ℕ)
    → i + left ≡ len
    → Stopped bcd i len (bcd_loop bcd left i).0 (bcd_loop bcd left i).1
unfolding bcd_loop
bcd_loop-Stopped bcd zero i len e = record {
  written = omega arith;
  bound = omega arith;
  filler = λ h. absurd (omega arith);
  before = λ k p q. absurd (omega arith);
  shown = λ k q. absurd (omega arith);
}
bcd_loop-Stopped bcd (suc left) i len e = elim (Bool-cases (ltb (bcd_digit bcd i) 15)) [
  | inl digit ↦ rw digit (
      let rest = bcd_loop-Stopped bcd left (i + 1) len (omega arith) in
      record {
        written = omega (arith, rest.written);
        bound = rest.bound;
        filler = rest.filler;
        before = λ k p q. ground (arith, rest.before k);
        shown = shown-cons bcd i (bcd_loop bcd left (i + 1)).0 (ltb→lt _ 15 digit) rest.shown;
      })
  | inr stop ↦ rw stop (record {
    written = omega arith;
    bound = omega arith;
    filler = λ h. ground arith;
    before = λ k p q. absurd (omega arith);
    shown = λ k q. absurd (omega arith);
  })
]

pub bcd2str-Stopped :
    (bcd : Mem) (len off : ℕ)
    → off ≤ len
    → Stopped bcd off len (bcd2str bcd len off).0 (bcd2str bcd len off).1
unfolding bcd2str
bcd2str-Stopped bcd len off h = bcd_loop-Stopped bcd (len - off) off len (omega arith)

-- The half bytes hold the digits, the lower half the first of two.
pub record IsPacked (digit : ℕ → ℕ) (bcd : Mem) : Type 0 where
  pub small : (i : ℕ) → digit i < 16
  pub packed : (i : ℕ) → bcd i ≡ digit (2 * i) + 16 * digit (2 * i + 1)

bcd_digit-IsPacked :
    (digit : ℕ → ℕ) (bcd : Mem) (i : ℕ) → IsPacked digit bcd → bcd_digit bcd i ≡ digit i
unfolding bcd_digit
bcd_digit-IsPacked digit bcd i h =
    let half = i / 2 in
    let packed = h.packed half in
    let small = h.small (2 * half) in
    elim (Bool-cases (ltb 0 (i % 2))) [
      | inl odd ↦
          let e : i ≡ 2 * half + 1 = ground (arith, odd) in
          rw odd (
            let same : digit i ≡ digit (2 * half + 1) = ap digit e in
            omega (arith, packed, small, same))
      | inr even ↦
          let e : i ≡ 2 * half = ground (arith, even) in
          rw even (
            let same : digit i ≡ digit (2 * half) = ap digit e in
            omega (arith, packed, small, same))
    ]

-- Of digits that are packed in bytes, the first of two in the lower half, `bcd2str` from `off` to
-- `len` writes those before the first filler 0xf, each as its own character, where 12 and 14 are
-- shown as # and 10, 11 and 13 as *. It returns the index where it stopped: `len`, or that of the
-- filler.
pub bcd2str_lem :
    (digit : ℕ → ℕ) (bcd : Mem) (len off : ℕ)
    → IsPacked digit bcd
    → off ≤ len
    → let (s, j) = bcd2str bcd len off in
      (off + length s ≡ j)
      × (j ≤ len)
      × (j < len → digit j ≡ 15)
      × ((k : ℕ) → off ≤ k → k < j → digit k < 15)
      × ((k : ℕ) → k < length s → mem_of s k ≡ telephone_char (digit (off + k)))
bcd2str_lem digit bcd len off h below =
    let stopped = bcd2str-Stopped bcd len off below in
    let at = λ (i : ℕ). bcd_digit-IsPacked digit bcd i h in
    (
      stopped.written,
      stopped.bound,
      λ less. omega (arith, stopped.filler less, at _, h.small (bcd2str bcd len off).1),
      λ k from_ until. omega (arith, stopped.before k from_ until, at k),
      λ k written.
          subst (λ d. mem_of (bcd2str bcd len off).0 k ≡ telephone_char d) (at (off + k))
            (stopped.shown k written),
    )

-- The buffer of an IMSI holds GSM48_MI_SIZE (32) characters. An identity of 17 bytes or more with
-- no filler makes `bcd2str(data, s->imsi, len * 2, 1)` write at least 33 digits and a zero byte.
pub length-bcd2str_unfilled :
    (bcd : Mem) (len : ℕ)
    → 1 ≤ len
    → ((k : ℕ) → k < 2 * len → bcd_digit bcd k < 15)
    → length (bcd2str bcd (2 * len) 1).0 ≡ 2 * len - 1
length-bcd2str_unfilled bcd len h digits =
    let stopped = bcd2str-Stopped bcd (2 * len) 1 (omega arith) in
    ground
      (arith, stopped.written, stopped.bound, stopped.filler, digits (bcd2str bcd (2 * len) 1).1)
