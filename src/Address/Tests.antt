-- ===== src/Address/Tests.antt =====
-- gsm-parser/address.c: the theorems on lengths at concrete numbers.
use srlabs.Base.{ℕ, ◌≤◌, ◌<◌, ◌≡◌, arith, false, List, [], ◌∷◌, length, Mem, mem_of}
use srlabs.BitFunc.{bcd_digit}
use srlabs.Address.{handle_address, handle_addr_e164}
use srlabs.Address.Laws.{length-handle_address, length-handle_addr_e164_unfilled}

-- A decoder that finds nothing.
abbrev decode_none : Mem → ℕ → List ℕ × ℕ
decode_none p n = ([], 0)

abbrev nines : Mem
nines i = 0x99

length-handle_address_example :
    length (handle_address decode_none (mem_of (0x91 ∷ 0x21 ∷ 0x43 ∷ [])) 3 [] false) ≤ 32
length-handle_address_example =
    length-handle_address decode_none (λ p n h. omega arith) (mem_of (0x91 ∷ 0x21 ∷ 0x43 ∷ [])) 3 []
      false (omega arith)

nines-digits : (k : ℕ) → k < 31 → bcd_digit nines k < 15
unfolding bcd_digit
nines-digits k h = ground arith

length-handle_addr_e164_unfilled_example : length (handle_addr_e164 nines 31 []).0 ≡ 32
length-handle_addr_e164_unfilled_example =
    length-handle_addr_e164_unfilled nines [] (λ e. omega (arith, e)) nines-digits
