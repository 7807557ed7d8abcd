-- ===== src/Base/Buffer.antt =====
-- Memory behind a C pointer: the byte at each offset. A read beyond the object that the pointer
-- belongs to gives an arbitrary byte, since a theorem holds for every such function. The library
-- functions `memcpy` and `memset`, and lists of bytes measured by native numbers.
use Prim.Native.Nat.{ℕ, zero, suc, ◌+◌, ◌-◌, ◌≤◌, ◌<◌}
use mathlib.Core.Path.{◌≡◌, refl, ap, ◌∙◌}
use mathlib.Core.Bool.{◌&&◌}
use mathlib.Core.List.{List, [], ◌∷◌, ◌++◌}
use native.Mathlib.Omega.{arith}
use srlabs.Base.Word.{ltb, leb, ◌==◌, if◌then◌else◌}

abbrev pub Mem : Type 0
Mem = ℕ → ℕ

-- `p + k`, and `p[i] = v`.
abbrev pub shift : Mem → ℕ → Mem
shift p k i = p (k + i)

abbrev pub store : Mem → ℕ → ℕ → Mem
store p i v j = if j == i then v else p j

-- `memcpy(p + off, src, n)` and `memset(p + off, v, n)`.
abbrev pub memcpy : Mem → ℕ → Mem → ℕ → Mem
memcpy p off src n j = if leb off j && ltb j (off + n) then src (j - off) else p j

abbrev pub memset : Mem → ℕ → ℕ → ℕ → Mem
memset p off v n j = if leb off j && ltb j (off + n) then v else p j

-- The first `n` bytes.
abbrev pub bytes : Mem → ℕ → List ℕ
bytes p zero = []
bytes p (suc n) = p 0 ∷ bytes (shift p 1) n

-- An object that holds the bytes of a list, and zero beyond them.
abbrev pub mem_of : List ℕ → Mem
mem_of [] i = 0
mem_of (x ∷ xs) zero = x
mem_of (x ∷ xs) (suc i) = mem_of xs i

abbrev pub IsByteMem : Mem → Type 0
IsByteMem p = (i : ℕ) → p i < 256

module _ {ℓ} {A : Type ℓ} where
  abbrev pub length : List A → ℕ
  length [] = 0
  length (x ∷ xs) = suc (length xs)

  pub length-append : (xs ys : List A) → length (xs ++ ys) ≡ length xs + length ys
  length-append [] ys = omega arith
  length-append (x ∷ xs) ys = omega (arith, length-append xs ys)

pub mem_of-outside : (xs : List ℕ) (i : ℕ) → length xs ≤ i → mem_of xs i ≡ 0
mem_of-outside [] i outside = refl
mem_of-outside (x ∷ xs) zero outside = absurd (omega (arith, outside))
mem_of-outside (x ∷ xs) (suc i) outside = mem_of-outside xs i (omega (arith, outside))

pub bytes-ext : (p q : Mem) (n : ℕ) → ((i : ℕ) → i < n → p i ≡ q i) → bytes p n ≡ bytes q n
bytes-ext p q zero h = refl
bytes-ext p q (suc n) h =
    rw
      (
        h 0 (omega arith),
        bytes-ext (shift p 1) (shift q 1) n (λ i lt. h (1 + i) (omega (arith, lt))),
      )
      refl

pub bytes-split : (p : Mem) (k n : ℕ) → bytes p (k + n) ≡ bytes p k ++ bytes (shift p k) n
bytes-split p zero n =
    let e : 0 + n ≡ n = omega arith in rw e (bytes-ext p (shift p 0) n (λ i lt. ap p (omega arith)))
bytes-split p (suc k) n =
    let e : suc k + n ≡ suc (k + n) = omega arith in
    rw e (
      ap (λ l. p 0 ∷ l)
        (bytes-split (shift p 1) k n
          ∙ ap (λ l. bytes (shift p 1) k ++ l)
              (bytes-ext (shift (shift p 1) k) (shift p (suc k)) n (λ i lt. ap p (omega arith)))))

-- What stands in front of a copy, and the copy.
pub bytes-memcpy :
    (p src : Mem) (k n : ℕ) → bytes (memcpy p k src n) (k + n) ≡ bytes p k ++ bytes src n
bytes-memcpy p src k n =
    rw
      (
        bytes-split (memcpy p k src n) k n,
        bytes-ext (memcpy p k src n) p k (λ i lt. ground (arith, lt)),
        bytes-ext (shift (memcpy p k src n) k) src n (λ i lt. ground (arith, lt)),
      )
      refl
