-- ===== src/BitFunc/Hex.antt =====
-- gsm-parser/bit_func.c: hexadecimal text, `hex_str2bin` after `hex_bin2str`.
use srlabs.Base.{ℕ, zero, suc, ◌+◌, ◌*◌, ◌/◌, ◌%◌, ◌<◌, bit_or, ◌≡◌, refl, arith}
use srlabs.Base.{true, false, ◌&&◌, ◌==◌, if◌then◌else◌, nonzero, ltb, ==_iff, shr, low_bits, some}
use srlabs.Base.{Mem, IsByteMem, count_up-induction, every, every-at}
use srlabs.BitFunc.{hexchar, hex_value, hex_bin2str, hex_loop, hex_str2bin, put_digit}

-- The digit at position `j` of the text of `v`.
abbrev nibble : Mem → ℕ → ℕ
nibble v j = if nonzero (j % 2) then low_bits (v (j / 2)) 4 else shr (v (j / 2)) 4

hex_value-hexchar : (d : ℕ) → d < 16 → hex_value (hexchar d) ≡ some d
unfolding hex_value hexchar
hex_value-hexchar d h = ground arith

hexchar-ne-zero : (d : ℕ) → (hexchar d == 0) ≡ false
unfolding hexchar
hexchar-ne-zero d = ground arith

hex_bin2str_at :
    (v str : Mem) (len j : ℕ)
    → hex_bin2str v str len j ≡ (if ltb j (2 * len) then hexchar (nibble v j) else str j)
unfolding hex_bin2str
hex_bin2str_at v str len =
    count_up-induction
      (λ i s. (j : ℕ) → s j ≡ (if ltb j (2 * i) then hexchar (nibble v j) else str j)) _
      (λ i s h j. ground (arith, h j)) len str (λ j. ground arith)

or_table : every (λ h. every (λ l. bit_or (h * 16) l == h * 16 + l) 16) 16 ≡ true
unfolding every
or_table = refl

bit_or_nibbles : (h l : ℕ) → h < 16 → l < 16 → bit_or (h * 16) l ≡ h * 16 + l
bit_or_nibbles h l p q =
    (==_iff _ _).0
      (every-at (λ l. bit_or (h * 16) l == h * 16 + l) 16 (every-at _ 16 or_table h p) l q)

-- What has been stored before the digit at `i`: whole bytes, and the high half at an odd `i`.
abbrev IsRead : Mem → Mem → ℕ → Mem → Type 0
IsRead v old i vec =
    (n : ℕ)
    → vec n ≡ (
        if ltb n (i / 2)
        then v n
        else if n == i / 2 && nonzero (i % 2)
        then shr (v n) 4 * 16
        else old n)

IsRead-put_digit :
    (v old : Mem) (i : ℕ) (vec : Mem)
    → IsByteMem v
    → IsRead v old i vec
    → IsRead v old (i + 1) (put_digit vec i (nibble v i))
unfolding put_digit
IsRead-put_digit v old i vec hv h n =
    ground (arith, h n, h (i / 2), hv (i / 2), bit_or_nibbles (v (i / 2) / 16) (v (i / 2) % 16))

hex_loop-step :
    (left i d : ℕ) (str vec : Mem)
    → (str i == 0) ≡ false
    → hex_value (str i) ≡ some d
    → hex_loop (suc left) i str vec ≡ hex_loop left (i + 1) str (put_digit vec i d)
unfolding hex_loop
hex_loop-step left i d str vec p q = rw (p, q, hex_loop)

hex_loop_reads :
    (v old str : Mem) (left i len : ℕ) (vec : Mem)
    → IsByteMem v
    → ((j : ℕ) → j < 2 * len → str j ≡ hexchar (nibble v j))
    → i + left ≡ 2 * len
    → IsRead v old i vec
    → ((hex_loop left i str vec).0 ≡ len) × IsRead v old (2 * len) (hex_loop left i str vec).1
hex_loop_reads v old str zero i len vec hv text e h =
    unfold hex_loop in (omega arith, let e' : i ≡ 2 * len = omega arith in rw (← e') h)
hex_loop_reads v old str (suc left) i len vec hv text e h =
    rw (hex_loop-step left i (nibble v i) str vec ends digit) (
      hex_loop_reads v old str left (i + 1) len (put_digit vec i (nibble v i)) hv text (omega arith)
        (IsRead-put_digit v old i vec hv h))
  where
    ends : (str i == 0) ≡ false
    ends = rw (text i (omega arith)) (hexchar-ne-zero (nibble v i))

    digit : hex_value (str i) ≡ some (nibble v i)
    digit = rw (text i (omega arith)) (hex_value-hexchar (nibble v i) (ground (arith, hv (i / 2))))

-- Reading back the text that `hex_bin2str` writes for `len` bytes returns `len`, stores exactly
-- those bytes and leaves the rest of the destination alone.
pub hex_str2bin-hex_bin2str :
    (v str vec : Mem) (len : ℕ)
    → IsByteMem v
    → ((hex_str2bin (hex_bin2str v str len) vec len).0 ≡ len)
      × ((n : ℕ)
          → (hex_str2bin (hex_bin2str v str len) vec len).1 n ≡ (if ltb n len then v n else vec n))
unfolding hex_str2bin
hex_str2bin-hex_bin2str v str vec len hv = (read.0, λ n. ground (arith, read.1 n))
  where
    read :
        ((hex_loop (2 * len) 0 (hex_bin2str v str len) vec).0 ≡ len)
        × IsRead v vec (2 * len) (hex_loop (2 * len) 0 (hex_bin2str v str len) vec).1
    read =
        hex_loop_reads v vec (hex_bin2str v str len) (2 * len) 0 len vec hv
          (λ j h. ground (arith, hex_bin2str_at v str len j)) (omega arith) (λ n. ground arith)
