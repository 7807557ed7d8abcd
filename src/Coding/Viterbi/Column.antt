-- ===== src/Coding/Viterbi/Column.antt =====
-- gsm-parser/viterbi.c: for soft bits whose signs are right, a round of the scan keeps the state of
-- the encoder the only one of least error, and notes where it came from.
use srlabs.Base.{ℕ, ◌-◌, ◌<◌, ◌≤◌, ◌≡◌, refl, arith, inl, inr}
use srlabs.Base.{
  Bool, true, ◌&&◌, ◌||◌, ltb, leb, ◌==◌, if◌then◌else◌, Bool-cases, bit, every, every-at,
}
use srlabs.Coding.Viterbi.{conv_cch_next_output, diff, expected, path_cost, signed_order}
use srlabs.Coding.Viterbi.Encoder.{tables_at}

-- The soft bit of amplitude `a`: negative, in two's complement, where the bit is set.
unfoldable pub soft : ℕ → ℕ → ℕ
soft a b = if b == 1 then 256 - a else a

-- The byte that `expected` gives for a bit.
abbrev hard : ℕ → ℕ
hard b = if b == 1 then 129 else 127

soft_holds : ℕ → ℕ → Bool
soft_holds b a =
    ltb a 2
    || (ltb (diff (hard b) (soft a b)) (diff (hard (1 - b)) (soft a b))
        && leb (diff (hard b) (soft a b)) 31)

soft_table : every (λ b. every (soft_holds b) 128) 2 ≡ true
unfolding every soft_holds soft diff signed_order
soft_table = refl

soft_at :
    (b a : ℕ)
    → b < 2
    → 2 ≤ a
    → a < 128
    → (diff (hard b) (soft a b) < diff (hard (1 - b)) (soft a b)) × (diff (hard b) (soft a b) ≤ 31)
unfolding soft_holds
soft_at b a hb least most =
    let h = every-at (soft_holds b) 128 (every-at _ 2 soft_table b hb) a most in ground arith

-- Of two bits one is right, and costs no more.
soft_least :
    (b a e : ℕ)
    → b < 2
    → 2 ≤ a
    → a < 128
    → e < 2
    → diff (hard b) (soft a b) ≤ diff (hard e) (soft a b)
soft_least b a e hb least most he = elim (Bool-cases (b == e)) [
  | inl same ↦ let s : b ≡ e = ground (arith, same) in rw s (omega arith)
  | inr other ↦
      let s : e ≡ 1 - b = ground (arith, other, hb, he) in
      let strict = (soft_at b a hb least most).0 in rw s (omega (arith, strict))
]

module _ (cur b a0 a1 : ℕ) (hcur : cur < 16) (hb : b < 2) (lo0 : 2 ≤ a0) (hi0 : a0 < 128)
    (lo1 : 2 ≤ a1) (hi1 : a1 < 128) where
  abbrev pub out : ℕ
  out = conv_cch_next_output cur b

  abbrev pub sym0 : ℕ
  sym0 = soft a0 (bit 1 out)

  abbrev pub sym1 : ℕ
  sym1 = soft a1 (bit 0 out)

  pub path_cost-least : (s b' : ℕ) → path_cost sym0 sym1 cur b ≤ path_cost sym0 sym1 s b'
  unfolding path_cost expected
  path_cost-least s b' =
      let o = conv_cch_next_output s b' in
      let first = soft_least (bit 1 out) a0 (bit 1 o) (omega arith) lo0 hi0 (omega arith) in
      let second = soft_least (bit 0 out) a1 (bit 0 o) (omega arith) lo1 hi1 (omega arith) in
      omega (arith, first, second)

  pub path_cost-strict : path_cost sym0 sym1 cur b < path_cost sym0 sym1 cur (1 - b)
  unfolding path_cost expected
  path_cost-strict =
      let (_, _, first, second) = tables_at cur b hcur hb in
      let other = conv_cch_next_output cur (1 - b) in
      let flip1 : bit 1 other ≡ 1 - bit 1 out = omega (arith, first) in
      let flip0 : bit 0 other ≡ 1 - bit 0 out = omega (arith, second) in
      let strict1 = (soft_at (bit 1 out) a0 (omega arith) lo0 hi0).0 in
      let strict0 = (soft_at (bit 0 out) a1 (omega arith) lo1 hi1).0 in
      rw (flip1, flip0) (omega (arith, strict1, strict0))

  pub path_cost-bound : path_cost sym0 sym1 cur b ≤ 62
  unfolding path_cost expected
  path_cost-bound =
      let first = (soft_at (bit 1 out) a0 (omega arith) lo0 hi0).1 in
      let second = (soft_at (bit 0 out) a1 (omega arith) lo1 hi1).1 in omega (arith, first, second)
