-- ===== src/Base/Fill.antt =====
-- Loops that store one element per round: in order, and at the positions that a map gives.
use Prim.Native.Nat.{ℕ, zero, suc, ◌<◌}
use mathlib.Core.Path.{◌≡◌, refl}
use mathlib.Core.Logic.{inl, inr}
use mathlib.Core.Bool.{false}
use native.Mathlib.Omega.{arith}
use srlabs.Base.Word.{ltb, ◌==◌, if◌then◌else◌, Bool-cases}
use srlabs.Base.Buffer.{Mem, store}
use srlabs.Base.Loop.{count_up}

pub fill :
    (f : ℕ → ℕ) (dst : Mem) (n i : ℕ)
    → count_up n (λ k d. store d k (f k)) dst i ≡ (if ltb i n then f i else dst i)
unfolding count_up
fill f dst zero i = ground arith
fill f dst (suc last) i = let earlier = fill f dst last i in ground (arith, earlier)

pub scatter :
    (pos f : ℕ → ℕ) (dst : Mem) (n i : ℕ)
    → ((k : ℕ) → k < n → pos k ≡ pos i → k ≡ i)
    → i < n
    → count_up n (λ k d. store d (pos k) (f k)) dst (pos i) ≡ f i
unfolding count_up
scatter pos f dst zero i apart below = absurd (omega (arith, below))
scatter pos f dst (suc last) i apart below =
    let clash : pos last ≡ pos i → last ≡ i = apart last (omega arith) in
    let rest : i < last → count_up last (λ k d. store d (pos k) (f k)) dst (pos i) ≡ f i =
      scatter pos f dst last i (λ k lt. apart k (omega (arith, lt))) in
    elim (Bool-cases (last == i)) [
      | inl e ↦ let same : last ≡ i = ground (arith, e) in rw same (ground arith)
      | inr e ↦
          let less : i < last = ground (arith, below, e) in
          let other : (pos i == pos last) ≡ false = ground (arith, clash, e) in
          rw (other, rest less) refl
    ]
