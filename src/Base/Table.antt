-- ===== src/Base/Table.antt =====
-- A test of every number below a bound.
use Prim.Native.Nat.{ℕ, zero, suc, ◌<◌}
use mathlib.Core.Path.{◌≡◌, refl}
use mathlib.Core.Bool.{Bool, true, ◌&&◌}
use native.Mathlib.Omega.{arith}

unfoldable pub every : (ℕ → Bool) → ℕ → Bool
every test zero = true
every test (suc last) = every test last && test last

-- The test passed as a whole passes at each number.
pub every-at : (test : ℕ → Bool) (n : ℕ) → every test n ≡ true → (i : ℕ) → i < n → test i ≡ true
unfolding every
every-at test zero passed i below = absurd (omega (arith, below))
every-at test (suc last) passed i below =
    let earlier : every test last ≡ true → i < last → test i ≡ true =
      λ p b. every-at test last p i b in
    ground (arith, passed, below, earlier)

-- And the other way round.
pub every-from : (test : ℕ → Bool) (n : ℕ) → ((i : ℕ) → i < n → test i ≡ true) → every test n ≡ true
unfolding every
every-from test zero passes = refl
every-from test (suc last) passes =
    rw
      (every-from test last (λ i below. passes i (omega (arith, below))), passes last (omega arith))
      refl
