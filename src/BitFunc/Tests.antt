-- ===== src/BitFunc/Tests.antt =====
-- gsm-parser/bit_func.c: runs of the functions, and their theorems at concrete inputs.
use srlabs.Base.{
  ℕ, ◌+◌, ◌-◌, ◌*◌, ◌%◌, ◌≤◌, ◌<◌, ◌≡◌, refl, arith, ltb, if◌then◌else◌, [], ◌∷◌, ◌++◌, Mem, mem_of,
  length, IsByteMem, truth,
}
use srlabs.BitFunc.{
  compress_lsb, expand_lsb, compress_msb, expand_msb, hex_str2bin, hex_bin2str, bcd2str, bcd_digit,
  bcd_loop, bcd_code, fread_unescape,
}
use srlabs.BitFunc.Bits.{expand-compress, compress-expand}
use srlabs.BitFunc.Hex.{hex_str2bin-hex_bin2str}
use srlabs.BitFunc.Bcd.{IsPacked, telephone_char, bcd2str_lem, length-bcd2str_unfilled}
use srlabs.BitFunc.Stream.{escape, fread_unescape-escape}

-- A buffer that holds one value everywhere.
abbrev all : ℕ → Mem
all v i = v

all-IsByteMem : IsByteMem (all 0xa5)
all-IsByteMem i = omega arith

expand-compress_example :
    (expand_lsb (compress_lsb (all 7) (all 0xa5) 12) (all 9) 12 5
      ≡ (if ltb 5 12 then truth 7 else 9))
    × (expand_msb (compress_msb (all 7) (all 0xa5) 12) (all 9) 12 5
        ≡ (if ltb 5 12 then truth 7 else 9))
expand-compress_example = expand-compress (all 7) (all 0xa5) (all 9) 12 5 all-IsByteMem

compress-expand_example :
    (compress_lsb (expand_lsb (all 0xa5) (all 0) (8 * 3)) (all 0xa5) (8 * 3) 1 ≡ 0xa5)
    × (compress_msb (expand_msb (all 0xa5) (all 0) (8 * 3)) (all 0xa5) (8 * 3) 1 ≡ 0xa5)
compress-expand_example =
    compress-expand (all 0xa5) (all 0) (all 0xa5) 3 1 all-IsByteMem all-IsByteMem (omega arith)

hex_str2bin-hex_bin2str_example :
    ((hex_str2bin (hex_bin2str (all 0xa5) (all 0) 2) (all 1) 2).0 ≡ 2)
    × ((n : ℕ)
        → (hex_str2bin (hex_bin2str (all 0xa5) (all 0) 2) (all 1) 2).1 n
          ≡ (if ltb n 2 then 0xa5 else 1))
hex_str2bin-hex_bin2str_example = hex_str2bin-hex_bin2str (all 0xa5) (all 0) (all 1) 2 all-IsByteMem

-- The digits 2, 1, 4, 3 and a filler.
abbrev number : Mem
number = mem_of (0x12 ∷ 0x34 ∷ 0xff ∷ [])

bcd2str-number : bcd2str number 6 0 ≡ (b'2' ∷ b'1' ∷ b'4' ∷ b'3' ∷ [], 4)
unfolding bcd2str bcd_loop bcd_digit bcd_code
bcd2str-number = refl

-- The digits from 11 on, with a filler behind 14.
abbrev cycling : ℕ → ℕ
cycling i = (i + 11) % 16

abbrev cycling_bytes : Mem
cycling_bytes i = cycling (2 * i) + 16 * cycling (2 * i + 1)

cycling-IsPacked : IsPacked cycling cycling_bytes
cycling-IsPacked = record { small = λ i. omega arith; packed = λ i. refl }

bcd2str_lem_example :
    (0 + length (bcd2str cycling_bytes 6 0).0 ≡ (bcd2str cycling_bytes 6 0).1)
    × ((bcd2str cycling_bytes 6 0).1 ≤ 6)
    × ((bcd2str cycling_bytes 6 0).1 < 6 → cycling (bcd2str cycling_bytes 6 0).1 ≡ 15)
    × ((k : ℕ) → 0 ≤ k → k < (bcd2str cycling_bytes 6 0).1 → cycling k < 15)
    × ((k : ℕ)
        → k < length (bcd2str cycling_bytes 6 0).0
        → mem_of (bcd2str cycling_bytes 6 0).0 k ≡ telephone_char (cycling (0 + k)))
bcd2str_lem_example = bcd2str_lem cycling cycling_bytes 6 0 cycling-IsPacked (omega arith)

all_digits : (k : ℕ) → k < 2 * 17 → bcd_digit (all 0x99) k < 15
unfolding bcd_digit
all_digits k h = ground arith

length-bcd2str_unfilled_example : length (bcd2str (all 0x99) (2 * 17) 1).0 ≡ 2 * 17 - 1
length-bcd2str_unfilled_example = length-bcd2str_unfilled (all 0x99) 17 (omega arith) all_digits

fread_unescape-escape_example :
    fread_unescape 8 (escape (0x7e ∷ 0x41 ∷ 0x7d ∷ []) ++ 0x7e ∷ 0x42 ∷ [])
    ≡ (0x7e ∷ 0x41 ∷ 0x7d ∷ [], 0x42 ∷ [])
fread_unescape-escape_example =
    fread_unescape-escape (0x7e ∷ 0x41 ∷ 0x7d ∷ []) (0x42 ∷ []) 8 (omega arith)
