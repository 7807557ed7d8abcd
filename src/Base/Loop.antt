-- ===== src/Base/Loop.antt =====
-- Counted loops.
use Prim.Native.Nat.{ℕ, zero, suc, ◌+◌, ◌<◌}
use mathlib.Core.Path.{◌≡◌}
use native.Mathlib.Omega.{arith}

-- `for (i = 0; i < n; i++) s = body(i, s)`: the last round is the outermost call.
unfoldable pub count_up {ℓ} : {S : Type ℓ} → ℕ → (ℕ → S → S) → S → S
count_up zero round s = s
count_up (suc last) round s = round last (count_up last round s)

-- What holds of the first state and is carried over each round holds at the end.
pub count_up-induction {ℓ κ} :
    {S : Type ℓ} (Holds : ℕ → S → Type κ) (round : ℕ → S → S)
    → ((i : ℕ) (t : S) → Holds i t → Holds (i + 1) (round i t))
    → (n : ℕ) (s : S) → Holds 0 s
    → Holds n (count_up n round s)
unfolding count_up
count_up-induction Holds round step zero s start = start
count_up-induction Holds round step (suc last) s start =
    let next : suc last ≡ last + 1 = omega arith in
    rw next (step last (count_up last round s) (count_up-induction Holds round step last s start))

-- Two loops that keep two states related do so for every number of rounds.
pub count_up-related {ℓ κ μ} :
    {S : Type ℓ} {T : Type κ} (Related : S → T → Type μ) (left : ℕ → S → S) (right : ℕ → T → T)
    (n : ℕ)
    → ((i : ℕ) (s : S) (t : T) → i < n → Related s t → Related (left i s) (right i t))
    → (s : S) (t : T) → Related s t
    → Related (count_up n left s) (count_up n right t)
unfolding count_up
count_up-related Related left right zero step s t start = start
count_up-related Related left right (suc last) step s t start =
    step last (count_up last left s) (count_up last right t) (omega arith) (
      count_up-related Related left right last (λ i s t below. step i s t (omega (arith, below))) s
        t start)

-- The same as the induction above, where a round may use that its number is below the bound.
pub count_up-invariant {ℓ κ} :
    {S : Type ℓ} (Holds : ℕ → S → Type κ) (round : ℕ → S → S) (n : ℕ)
    → ((i : ℕ) (t : S) → i < n → Holds i t → Holds (i + 1) (round i t))
    → (s : S) → Holds 0 s
    → Holds n (count_up n round s)
unfolding count_up
count_up-invariant Holds round zero step s start = start
count_up-invariant Holds round (suc last) step s start =
    let next : suc last ≡ last + 1 = omega arith in
    rw next (
      step last (count_up last round s) (omega arith) (
        count_up-invariant Holds round last (λ i t below. step i t (omega (arith, below))) s start))
