-- ===== src/BitFunc.antt =====
-- gsm-parser/bit_func.c: packing of bits, hexadecimal and BCD digits, HDLC escapes.
-- An output buffer is a `Mem` that the function returns changed; a string that is only appended to
-- is the list of its characters.
pub mod Bits
pub mod Hex
pub mod Bcd
pub mod Stream
mod Tests
use srlabs.Base.{ℕ, zero, suc, ◌+◌, ◌-◌, ◌*◌, ◌/◌, ◌%◌, ◌^◌, bit_and, bit_or}
use srlabs.Base.{Bool, true, false, ◌&&◌, ◌||◌, Option, none, some, List, [], ◌∷◌}
use srlabs.Base.{ltb, leb, ◌==◌, if◌then◌else◌, nonzero, truth, u8, shr, low_bits}
use srlabs.Base.{Mem, store, mem_of, count_up}

-- The loop leaves `i` at the first nonzero byte.
pub not_zero : Mem → ℕ → Bool
not_zero t zero = false
not_zero t (suc size) = nonzero (t 0) || not_zero (λ i. t (i + 1)) size

-- `out |= dbit` or `out &= ~dbit`, in a byte.
pub put_bit : ℕ → ℕ → ℕ → ℕ
put_bit x dbit b = if nonzero b then bit_or x dbit else bit_and x (255 - dbit)

unfoldable pub compress_lsb : Mem → Mem → ℕ → Mem
compress_lsb in_ out size =
    count_up size (λ i o. store o (i / 8) (put_bit (o (i / 8)) (2 ^ (i % 8)) (in_ i))) out

unfoldable pub compress_msb : Mem → Mem → ℕ → Mem
compress_msb in_ out size =
    count_up size (λ i o. store o (i / 8) (put_bit (o (i / 8)) (2 ^ (7 - i % 8)) (in_ i))) out

unfoldable pub expand_lsb : Mem → Mem → ℕ → Mem
expand_lsb in_ out size =
    count_up size (λ i o. store o i (truth (bit_and (in_ (i / 8)) (2 ^ (i % 8))))) out

unfoldable pub expand_msb : Mem → Mem → ℕ → Mem
expand_msb in_ out size =
    count_up size (λ i o. store o i (truth (bit_and (in_ (i / 8)) (2 ^ (7 - i % 8))))) out

-- `hexchar`.
pub hexchar : ℕ → ℕ
hexchar d = if ltb d 10 then b'0' + d else b'A' + d - 10

-- The characters go to `str[2 * i]` and `str[2 * i + 1]`; the result is the final `i`.
unfoldable pub hex_bin2str : Mem → Mem → ℕ → Mem
hex_bin2str vec str len =
    count_up len
      (λ i s.
        store (store s (2 * i) (hexchar (shr (vec i) 4))) (2 * i + 1)
          (hexchar (low_bits (vec i) 4)))
      str

-- The three groups of cases of the switch; `none` is its default.
pub hex_value : ℕ → Option ℕ
hex_value c =
    if leb b'0' c && leb c b'9'
    then some (c - b'0')
    else if leb b'a' c && leb c b'f'
    then some (c - b'a' + 10)
    else if leb b'A' c && leb c b'F'
    then some (c - b'A' + 10)
    else none

-- The store of one digit: the high half of the byte first, then the low half is or-ed in.
pub put_digit : Mem → ℕ → ℕ → Mem
put_digit vec i d =
    store vec (i / 2) (if nonzero (i % 2) then bit_or (vec (i / 2)) d else u8 (d * 16))

-- The loop at index `i`, with `2 * len - i` rounds left, so that `i / 2 < len` holds in each.
unfoldable pub hex_loop : ℕ → ℕ → Mem → Mem → ℕ × Mem
hex_loop zero i str vec = (i / 2, vec)
hex_loop (suc left) i str vec = elim (str i == 0) [
  | true ↦ (i / 2, vec)
  | false ↦ elim (hex_value (str i)) [
    | none ↦ (i / 2, vec)
    | some d ↦ hex_loop left (i + 1) str (put_digit vec i d)
  ]
]

unfoldable pub hex_str2bin : Mem → Mem → ℕ → ℕ × Mem
hex_str2bin str vec len = hex_loop (2 * len) 0 str vec

-- `code`, the digits of called party numbers.
unfoldable pub bcd_code : ℕ → ℕ
bcd_code n =
    mem_of
      (b'0' ∷ b'1' ∷ b'2' ∷ b'3' ∷ b'4' ∷ b'5' ∷ b'6' ∷ b'7' ∷ b'8' ∷ b'9' ∷ b'*' ∷ b'*' ∷ b'#'
        ∷ b'*' ∷ b'#' ∷ [])
      n

unfoldable pub bcd_digit : Mem → ℕ → ℕ
bcd_digit bcd i = if nonzero (i % 2) then shr (bcd (i / 2)) 4 else low_bits (bcd (i / 2)) 4

-- The loop at index `i`, with `len - i` rounds left: the characters written before the final
-- zero byte, and the final `i`.
unfoldable pub bcd_loop : Mem → ℕ → ℕ → List ℕ × ℕ
bcd_loop bcd zero i = ([], i)
bcd_loop bcd (suc left) i =
    let rest = bcd_loop bcd left (i + 1) in
    if ltb (bcd_digit bcd i) 15 then (bcd_code (bcd_digit bcd i) ∷ rest.0, rest.1) else ([], i)

unfoldable pub bcd2str : Mem → ℕ → ℕ → List ℕ × ℕ
bcd2str bcd len off = bcd_loop bcd (len - off) off

-- The loop tests `str[0]`, not `str[i]`. `char` is signed, so that a byte above 0x7f is less
-- than 0x20 too; both refusals are `false`.
unfoldable pub printable_loop : ℕ → ℕ → Mem → Bool
printable_loop zero i str = true
printable_loop (suc left) i str =
    let rest = printable_loop left (i + 1) str in
    if str 0 == 0
    then true
    else if ltb (str i) 0x20
    then false
    else if leb 0x7f (str i)
    then false
    else rest

unfoldable pub is_printable : Mem → ℕ → Bool
is_printable str len = printable_loop len 0 str

unfoldable pub hamming_distance : Mem → Mem → ℕ → ℕ
hamming_distance v1 v2 zero = 0
hamming_distance v1 v2 (suc len) =
    (if v1 0 == v2 0 then 0 else 1) + hamming_distance (λ i. v1 (i + 1)) (λ i. v2 (i + 1)) len

-- The result: the bytes of `msg` below the returned count, and the rest of the file. A byte that
-- is read and ends the loop is consumed.
unfoldable pub fread_unescape : ℕ → List ℕ → List ℕ × List ℕ
fread_unescape zero f = ([], f)
fread_unescape (suc left) [] = ([], [])
fread_unescape (suc left) (c ∷ []) = if c == 0x7e || c == 0x7d then ([], []) else (c ∷ [], [])
fread_unescape (suc left) (c ∷ d ∷ f) =
    let escaped = fread_unescape left f in
    let plain = fread_unescape left (d ∷ f) in
    if c == 0x7e
    then ([], d ∷ f)
    else if c == 0x7d
    then (bit_or (low_bits d 4) 0x70 ∷ escaped.0, escaped.1)
    else (c ∷ plain.0, plain.1)
