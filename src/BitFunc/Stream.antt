-- ===== src/BitFunc/Stream.antt =====
-- gsm-parser/bit_func.c: `fread_unescape` against the HDLC-like framing that the diagnostic port
-- uses, and the distance of two buffers.
use srlabs.Base.{ℕ, zero, suc, ◌+◌, ◌<◌, ◌≤◌, ◌≡◌, ◌↔◌, refl, arith, bit_or, false, inl, inr}
use srlabs.Base.{◌==◌, if◌then◌else◌, List, [], ◌∷◌, ◌++◌, length, low_bits, Mem, Bool-cases}
use native.Mathlib.Numerals.{add-one}
use srlabs.BitFunc.{fread_unescape, hamming_distance}

-- The sender's side, which no file of the program holds: 0x7e ends a frame, and 0x7d introduces
-- an escaped byte, sent with bit 5 changed.
abbrev pub escape : List ℕ → List ℕ
escape [] = []
escape (c ∷ s) =
    if c == 0x7e
    then 0x7d ∷ 0x5e ∷ escape s
    else if c == 0x7d
    then 0x7d ∷ 0x5d ∷ escape s
    else c ∷ escape s

fread_unescape-plain :
    (c : ℕ) (f : List ℕ) (left : ℕ)
    → (c == 0x7e) ≡ false
    → (c == 0x7d) ≡ false
    → fread_unescape (suc left) (c ∷ f) ≡ (c ∷ (fread_unescape left f).0, (fread_unescape left f).1)
unfolding fread_unescape
fread_unescape-plain c [] zero p q = rw (p, q)
fread_unescape-plain c [] (suc left) p q = rw (p, q)
fread_unescape-plain c (d ∷ f) left p q = rw (p, q)

fread_unescape-escaped :
    (d : ℕ) (f : List ℕ) (left : ℕ)
    → fread_unescape (suc left) (0x7d ∷ d ∷ f)
      ≡ (bit_or (low_bits d 4) 0x70 ∷ (fread_unescape left f).0, (fread_unescape left f).1)
unfolding fread_unescape
fread_unescape-escaped d f left = refl

-- A message that is escaped, shorter than the buffer and followed by an end mark, is taken off the
-- file and unescaped, and the file stands behind its end mark.
pub fread_unescape-escape :
    (s rest : List ℕ) (len : ℕ)
    → length s < len
    → fread_unescape len (escape s ++ 0x7e ∷ rest) ≡ (s, rest)
fread_unescape-escape s rest zero h = absurd (omega arith)
fread_unescape-escape [] [] (suc len) h = unfold fread_unescape in refl
fread_unescape-escape [] (d ∷ rest) (suc len) h = unfold fread_unescape in refl
fread_unescape-escape (c ∷ s) rest (suc len) h =
    let ih = fread_unescape-escape s rest len (omega arith) in
    elim (Bool-cases (c == 0x7e)) [
      | inl mark ↦
          rw mark
            (rw (fread_unescape-escaped 0x5e (escape s ++ 0x7e ∷ rest) len, ih) (ground arith))
      | inr p ↦ elim (Bool-cases (c == 0x7d)) [
        | inl mark ↦
            rw (p, mark)
              (rw (fread_unescape-escaped 0x5d (escape s ++ 0x7e ∷ rest) len, ih) (ground arith))
        | inr q ↦ rw (p, q, fread_unescape-plain c (escape s ++ 0x7e ∷ rest) len p q, ih)
      ]
    ]

agree_from_head :
    (v1 v2 : Mem) (len : ℕ)
    → v1 0 ≡ v2 0
    → ((i : ℕ) → i < len → v1 (i + 1) ≡ v2 (i + 1))
    → (i : ℕ) → i < suc len
    → v1 i ≡ v2 i
agree_from_head v1 v2 len e h zero lt = e
agree_from_head v1 v2 len e h (suc i) lt = rw add-one at (h i (omega arith))

-- The distance counts at most every byte, and is zero exactly when the buffers agree.
pub hamming_distance_lem :
    (v1 v2 : Mem) (len : ℕ)
    → (hamming_distance v1 v2 len ≤ len)
      × ((hamming_distance v1 v2 len ≡ 0) ↔ ((i : ℕ) → i < len → v1 i ≡ v2 i))
unfolding hamming_distance
hamming_distance_lem v1 v2 zero = (omega arith, (λ e i h. absurd (omega arith), λ h. refl))
hamming_distance_lem v1 v2 (suc len) =
    let (bound, agree) = hamming_distance_lem (λ i. v1 (i + 1)) (λ i. v2 (i + 1)) len in
    (
      ground arith,
      (
        λ e. agree_from_head v1 v2 len (ground arith) (agree.0 (ground arith)),
        λ h. ground (arith, h 0 (omega arith), agree.1 (λ i lt. h (i + 1) (omega arith))),
      ),
    )
