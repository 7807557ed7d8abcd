-- ===== src/Coding/Crc.antt =====
-- gsm-parser/crc.c: the parity bits of a block, their check, and the search for an error burst.
-- The local array `buf` is written in full before it is read; its model starts from zeros. `int`
-- and `unsigned` are 32 bits wide.
use srlabs.Base.{ℕ, zero, suc, ◌+◌, ◌-◌, ◌%◌, ◌^◌, bit_xor, Bool, true, false, not, List, [], ◌∷◌}
use srlabs.Base.{ltb, ◌==◌, if◌then◌else◌, nonzero, u32, num}
use srlabs.Base.{Mem, store, shift, memcpy, memset, count_up, every}

-- `memcmp(p, q, n)` is not zero.
unfoldable pub memcmp_differs : Mem → Mem → ℕ → Bool
memcmp_differs p q n = not (every (λ i. p i == q i) n)

-- The loop that both functions run over the buffer.
unfoldable pub subtract_poly : Mem → ℕ → ℕ → Mem → Mem
subtract_poly poly psize q buf =
    if nonzero (buf q)
    then count_up (psize + 1) (λ i b. store b (q + i) (bit_xor (b (q + i)) (poly i))) buf
    else buf

unfoldable pub divide : Mem → ℕ → ℕ → Mem → Mem
divide poly psize dsize buf = count_up dsize (subtract_poly poly psize) buf

unfoldable pub parity_encode : Mem → ℕ → Mem → Mem → ℕ → Mem
parity_encode data_ dsize poly parity psize =
    let buf = memset (memcpy (λ _. 0) 0 data_ dsize) dsize 0 psize in
    let divided = divide poly psize dsize buf in
    count_up psize (λ i p. store p i (num (divided (dsize + i) == 0))) parity

-- Whether the result is nonzero.
unfoldable pub parity_check : Mem → ℕ → Mem → Mem → ℕ → Bool
parity_check data_ dsize poly remainder psize =
    let buf = memcpy (λ _. 0) 0 data_ (dsize + psize) in
    memcmp_differs (shift (divide poly psize dsize buf) dsize) remainder psize

pub record FcCtx : Type 0 where
  pub crc_size : ℕ
  pub data_size : ℕ
  pub syn_start : ℕ
  pub syndrome_reg : Mem

pub fc_init : FcCtx → ℕ → ℕ → FcCtx
fc_init ctx crc_size data_size = record ctx {
  crc_size = crc_size;
  data_size = data_size;
  syn_start = 0;
}

-- The copy to `temp` reads 160 words of a register of 40; the words behind them are never used.
-- `temp[(start + tap) % 40] = reg[(start + tap) % 40] ^ v` at each of some taps.
feed : Mem → ℕ → ℕ → List ℕ → Mem → Mem
feed reg start v [] temp = temp
feed reg start v (tap ∷ taps) temp =
    feed reg start v taps (store temp ((start + tap) % 40) (bit_xor (reg ((start + tap) % 40)) v))

pub fc_syndrome_shift : FcCtx → ℕ → FcCtx × ℕ
fc_syndrome_shift ctx bit =
    let reg = ctx.syndrome_reg in
    let start = if ctx.syn_start == 0 then 39 else ctx.syn_start - 1 in
    let fed_back = feed reg start (reg start) (3 ∷ 17 ∷ 23 ∷ 26 ∷ []) reg in
    let fed = feed reg start bit (4 ∷ 6 ∷ 10 ∷ 16 ∷ 27 ∷ 29 ∷ 33 ∷ 39 ∷ []) fed_back in
    let shifted = store fed start (bit_xor (reg start) bit) in
    (
      record ctx { syn_start = start; syndrome_reg = shifted },
      count_up 28 (λ i count. count + shifted ((start + i) % 40)) 0,
    )

-- The `while` loop, with so many rounds left before `error_index` reaches the size.
pub search_burst : ℕ → FcCtx → ℕ → FcCtx × ℕ
search_burst zero ctx error_index = (ctx, error_index)
search_burst (suc left) ctx error_index =
    let (ctx', error_count) = fc_syndrome_shift ctx 0 in
    elim (error_count == 0) [
      | true ↦ (ctx', error_index + 1)
      | false ↦ search_burst left ctx' (error_index + 1)
    ]

pub find_burst : FcCtx → ℕ → FcCtx × ℕ
find_burst ctx error_count = elim (error_count == 0) [
  | true ↦ (ctx, 0)
  | false ↦
      let (ctx', _) = fc_syndrome_shift ctx 0 in
      search_burst (ctx.data_size + ctx.crc_size - 2) ctx' 2
]

-- The bit at `j`, put right by the register; the sum is unsigned.
pub correct_bit : FcCtx → ℕ → ℕ → ℕ → Mem → Mem
correct_bit ctx syn_index back j control_data =
    let at = u32 (ctx.syn_start + 39 + syn_index + 2 ^ 32 - j - back) % 40 in
    store control_data j (bit_xor (control_data j) (ctx.syndrome_reg at))

pub correct : FcCtx → ℕ → Mem → Mem
correct ctx error_index control_data =
    -- 0 at 0, as in the code: the subtraction stops there
    let syn_index = error_index - 1 in
    if ltb error_index 184
    then count_up 12
        (λ k d.
          if ltb (error_index + k) 184 then correct_bit ctx syn_index 0 (error_index + k) d else d)
        control_data
    else if ltb 212 error_index
    then count_up (error_index - 212) (correct_bit ctx syn_index 224) control_data
    else control_data

-- The context, the control data and the result.
pub fc_check_crc : FcCtx → Mem → Mem → FcCtx × Mem × ℕ
fc_check_crc ctx input_bits control_data =
    let reset = record ctx { syn_start = 0; syndrome_reg = memset ctx.syndrome_reg 0 0 40 } in
    let data_in = count_up ctx.data_size (λ i s. fc_syndrome_shift s.0 (input_bits i)) (reset, 0) in
    let copied = count_up ctx.data_size (λ i d. store d i (input_bits i)) control_data in
    let (crc_in, error_count) =
      count_up ctx.crc_size
        (λ i s. fc_syndrome_shift s.0 (u32 (1 + 2 ^ 32 - input_bits (i + ctx.data_size))))
        data_in in
    let (found, error_index) = find_burst crc_in error_count in
    if error_index == 224 then (found, copied, 0) else (found, correct found error_index copied, 1)
