-- ===== src/Address.antt =====
-- gsm-parser/address.c: telephone numbers. A destination is a string: the old one, and the new.
-- `decode_7bit` is gsm_7bit_decode_n of libosmocore: the text of so many septets, and its result.
use srlabs.Base.{
  ℕ, zero, suc, ◌+◌, ◌-◌, ◌*◌, ◌/◌, ◌%◌, ◌^◌, Bool, true, false, ◌||◌, not, List, [], ◌∷◌,
}
use srlabs.Base.{ltb, ◌==◌, nonzero, if◌then◌else◌, u8, u32, shr, low_bits, bit, Mem, shift, mem_of}
use srlabs.BitFunc.{bcd2str, is_printable}
use Prim.Native.String.{String}
use Prim.Native.Char.{code}
pub mod Laws
mod Tests

-- The characters of a literal.
abbrev pub codes : String → List ℕ
codes String.[] = []
codes (String.◌∷◌ c s) = code c ∷ codes s

-- Writing the first character over an old string, with no zero byte behind it.
pub overwrite_first : ℕ → List ℕ → List ℕ
overwrite_first c [] = c ∷ []
overwrite_first c (x ∷ xs) = c ∷ xs

-- The result of each: the string, and the return value. With no digit nothing is written.
pub handle_addr_national : Mem → ℕ → List ℕ → List ℕ × ℕ
handle_addr_national p digit_len old =
    let (s, ret) = bcd2str p digit_len 0 in
    if digit_len == 0
    then (old, 0)
    else if nonzero (low_bits (p 0) 4)
    then (b'0' ∷ s, ret)
    else (s, ret)

pub handle_addr_e164 : Mem → ℕ → List ℕ → List ℕ × ℕ
handle_addr_e164 p digit_len old =
    let (s, ret) = bcd2str p digit_len 0 in
    let (s', ret') = bcd2str (shift p 1) (digit_len - 2) 0 in
    if digit_len == 0
    then (old, 0)
    else if p 0 == 0
    then (if ltb digit_len 2 then (overwrite_first b'+' old, 0) else (b'+' ∷ s', ret'))
    else (b'+' ∷ s, ret)

-- The digits that the length announces, in uint8_t, behind `header` bytes; at most 31.
pub count_digits : ℕ → ℕ → ℕ
count_digits header len = if len == header then 1 else u8 (u32 (len + 2 ^ 32 - header) * 2)

pub crop : ℕ → ℕ
crop digit_len = if ltb 31 digit_len then 31 else digit_len

module _ (decode_7bit : Mem → ℕ → List ℕ × ℕ) where
  -- The switch over the type of number and the numbering plan.
  pub decode_number : ℕ → ℕ → Mem → ℕ → List ℕ → List ℕ × ℕ
  decode_number ton npi p digit_len old =
      if ton == 2
      then (if npi == 1 then handle_addr_national p digit_len old else bcd2str p digit_len 0)
      else if ton == 1
      then (if npi == 1 then handle_addr_e164 p digit_len old else bcd2str p digit_len 0)
      else if ton == 5
      then decode_7bit p ((digit_len + 1) / 2)
      else if npi == 8
      then handle_addr_national p digit_len old
      else bcd2str p digit_len 0

  -- The final check of what was decoded; `ret` is a uint8_t.
  pub checked : List ℕ × ℕ → List ℕ
  checked (s, ret) =
      if mem_of s 0 == 0 || not (is_printable (mem_of s) (u8 ret))
      then codes "<NON-PRINTABLE>"
      else s

  -- With `header` bytes in front of the digits.
  pub handle_digits : ℕ → Mem → ℕ → List ℕ → Bool → List ℕ
  handle_digits header p len old digit_only =
      let digit_len = if digit_only then u8 len else count_digits header len in
      if digit_len == 0
      then old
      else checked (
          decode_number (low_bits (shr (p 0) 4) 3) (low_bits (p 0) 4) (shift p header)
            (crop digit_len) old)

  unfoldable pub handle_address : Mem → ℕ → List ℕ → Bool → List ℕ
  handle_address p len old digit_only =
      if len == 0
      then codes "<NO ADDRESS>"
      else if bit 7 (p 0) == 1
      then handle_digits 1 p len old digit_only
      else if nonzero (low_bits (shr (p 1) 5) 2)
      then codes "<hidden>"
      else handle_digits 2 p len old digit_only
