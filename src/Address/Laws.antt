-- ===== src/Address/Laws.antt =====
-- gsm-parser/address.c: how long a telephone number gets. The buffers have 32 bytes, which hold 31
-- characters and a zero byte.
use srlabs.Base.{ℕ, ◌+◌, ◌-◌, ◌/◌, ◌≤◌, ◌<◌, ◌≡◌, ◌≢◌, arith, Bool, List, [], ◌∷◌}
use srlabs.Base.{length, if◌then◌else◌, u8, shr, low_bits, Mem, shift}
use srlabs.BitFunc.{bcd2str, bcd_digit}
use srlabs.BitFunc.Bcd.{bcd2str-Stopped}
use srlabs.Address.{
  overwrite_first, handle_addr_national, handle_addr_e164, count_digits, crop, decode_number,
  checked, handle_digits, handle_address,
}

length-bcd2str : (p : Mem) (len : ℕ) → length (bcd2str p len 0).0 ≤ len
length-bcd2str p len =
    let stopped = bcd2str-Stopped p len 0 (omega arith) in
    omega (arith, stopped.written, stopped.bound)

length-overwrite_first : (c : ℕ) (s : List ℕ) → length s ≤ 31 → length (overwrite_first c s) ≤ 31
unfolding overwrite_first
length-overwrite_first c [] h = omega arith
length-overwrite_first c (x ∷ xs) h = h

crop-short : (n : ℕ) → crop n ≤ 31
unfolding crop
crop-short n = ground arith

-- The decimal numbers, with and without a prefix.
length-handle_addr_national :
    (p : Mem) (n : ℕ) (old : List ℕ)
    → n ≤ 31
    → length old ≤ 31
    → length (handle_addr_national p n old).0 ≤ 32
unfolding handle_addr_national
length-handle_addr_national p n old short h = ground (arith, short, h, length-bcd2str p n)

length-handle_addr_e164 :
    (p : Mem) (n : ℕ) (old : List ℕ)
    → n ≤ 31
    → length old ≤ 31
    → length (handle_addr_e164 p n old).0 ≤ 32
unfolding handle_addr_e164
length-handle_addr_e164 p n old short h = ground (
  arith,
  short,
  h,
  length-bcd2str p n,
  length-bcd2str (shift p 1) (n - 2),
  length-overwrite_first b'+' old h,
)

module _ (decode_7bit : Mem → ℕ → List ℕ × ℕ)
    (decoded : (p : Mem) (n : ℕ) → n ≤ 16 → length (decode_7bit p n).0 ≤ 31) where
  length-decode_number :
      (ton npi : ℕ) (p : Mem) (n : ℕ) (old : List ℕ)
      → n ≤ 31
      → length old ≤ 31
      → length (decode_number decode_7bit ton npi p n old).0 ≤ 32
  unfolding decode_number
  length-decode_number ton npi p n old short h = ground (
    arith,
    short,
    length-bcd2str p n,
    length-handle_addr_national p n old short h,
    length-handle_addr_e164 p n old short h,
    decoded p ((n + 1) / 2) (omega (arith, short)),
  )

  length-checked : (r : List ℕ × ℕ) → length r.0 ≤ 32 → length (checked decode_7bit r) ≤ 32
  unfolding checked
  length-checked (s, ret) h = ground (arith, h)

  length-handle_digits :
      (header : ℕ) (p : Mem) (len : ℕ) (old : List ℕ) (digit_only : Bool)
      → length old ≤ 31
      → length (handle_digits decode_7bit header p len old digit_only) ≤ 32
  unfolding handle_digits
  length-handle_digits header p len old digit_only h =
      let n = if digit_only then u8 len else count_digits header len in
      ground (
        arith,
        h,
        length-checked
            (decode_number decode_7bit (low_bits (shr (p 0) 4) 3) (low_bits (p 0) 4)
              (shift p header) (crop n) old)
            (length-decode_number (low_bits (shr (p 0) 4) 3) (low_bits (p 0) 4) (shift p header)
              (crop n) old (crop-short n) h),
      )

  -- A number of any length gives at most 32 characters, in a buffer that held at most 31, where the
  -- decoder of septets writes at most 31: one more than a buffer of 32 bytes holds with its zero byte.
  pub length-handle_address :
      (p : Mem) (len : ℕ) (old : List ℕ) (digit_only : Bool)
      → length old ≤ 31
      → length (handle_address decode_7bit p len old digit_only) ≤ 32
  unfolding handle_address
  length-handle_address p len old digit_only h = ground (
    arith,
    length-handle_digits 1 p len old digit_only h,
    length-handle_digits 2 p len old digit_only h,
  )

-- An international number of 31 digits with no filler and with a first byte other than zero gives
-- 32 characters.
pub length-handle_addr_e164_unfilled :
    (p : Mem) (old : List ℕ)
    → p 0 ≢ 0
    → ((k : ℕ) → k < 31 → bcd_digit p k < 15)
    → length (handle_addr_e164 p 31 old).0 ≡ 32
unfolding handle_addr_e164
length-handle_addr_e164_unfilled p old some_digit digits =
    let stopped = bcd2str-Stopped p 31 0 (omega arith) in
    ground
      (arith, some_digit, stopped.written, stopped.bound, stopped.filler, digits (bcd2str p 31 0).1)
