-- ===== src/Coding/Sch.antt =====
-- gsm-parser/sch.c: the synchronisation channel, with a parity and a decoder of its own. Bits are
-- decided before they are decoded. The arrays that the code leaves uninitialised are arguments.
mod Tests
use srlabs.Base.{
  ℕ, zero, suc, ◌+◌, ◌-◌, ◌*◌, ◌/◌, ◌%◌, bit_or, bit_xor, Bool, not, Option, none, some, List, [],
  ◌∷◌,
}
use srlabs.Base.{
  ltb, leb, ◌==◌, if◌then◌else◌, num, bit, shl, Mem, store, shift, memcpy, memset, mem_of, count_up,
}
use srlabs.Coding.Crc.{divide, memcmp_differs}

abbrev data_block_size : ℕ
data_block_size = 25

abbrev parity_size : ℕ
parity_size = 10

abbrev conv_input_size : ℕ
conv_input_size = 39

abbrev max_error : ℕ
max_error = 2 * conv_input_size + 1

pub sch_polynomial : Mem
sch_polynomial = mem_of (1 ∷ 0 ∷ 1 ∷ 0 ∷ 1 ∷ 1 ∷ 1 ∷ 0 ∷ 1 ∷ 0 ∷ 1 ∷ [])

pub sch_remainder : Mem
sch_remainder = mem_of (1 ∷ 1 ∷ 1 ∷ 1 ∷ 1 ∷ 1 ∷ 1 ∷ 1 ∷ 1 ∷ 1 ∷ [])

pub sch_parity_encode : Mem → Mem → Mem
sch_parity_encode d p =
    let cleared = memset (memcpy (mem_of []) 0 d data_block_size) data_block_size 0 parity_size in
    let buf = divide sch_polynomial parity_size data_block_size cleared in
    count_up parity_size (λ i o. store o i (num (buf (data_block_size + i) == 0))) p

pub sch_parity_check : Mem → Bool
sch_parity_check d =
    let copied = memcpy (mem_of []) 0 d (data_block_size + parity_size) in
    let buf = divide sch_polynomial parity_size data_block_size copied in
    memcmp_differs (shift buf data_block_size) sch_remainder parity_size

-- encode[state][b].
pub encode : ℕ → ℕ → ℕ
encode state b =
    mem_of
      (0 ∷ 3 ∷ 3 ∷ 0 ∷ 3 ∷ 0 ∷ 0 ∷ 3 ∷ 0 ∷ 3 ∷ 3 ∷ 0 ∷ 3 ∷ 0 ∷ 0 ∷ 3 ∷ 1 ∷ 2 ∷ 2 ∷ 1 ∷ 2 ∷ 1 ∷ 1 ∷ 2
        ∷ 1 ∷ 2 ∷ 2 ∷ 1 ∷ 2 ∷ 1 ∷ 1 ∷ 2 ∷ [])
      (2 * state + b)

-- next_state[state][b].
pub next_state : ℕ → ℕ → ℕ
next_state state b =
    mem_of
      (0 ∷ 8 ∷ 0 ∷ 8 ∷ 1 ∷ 9 ∷ 1 ∷ 9 ∷ 2 ∷ 10 ∷ 2 ∷ 10 ∷ 3 ∷ 11 ∷ 3 ∷ 11 ∷ 4 ∷ 12 ∷ 4 ∷ 12 ∷ 5 ∷ 13
        ∷ 5 ∷ 13 ∷ 6 ∷ 14 ∷ 6 ∷ 14 ∷ 7 ∷ 15 ∷ 7 ∷ 15 ∷ [])
      (2 * state + b)

-- prev_next_state[previous][current]: row `previous` has 0 in the column previous / 2, 1 in the
-- eighth behind it, and 2 elsewhere.
pub prev_next_state : ℕ → ℕ → ℕ
prev_next_state previous current =
    if current == previous / 2 then 0 else if current == previous / 2 + 8 then 1 else 2

pub hamming_distance2 : ℕ → ℕ
hamming_distance2 w = bit 0 w + bit 1 w

pub conv_encode : Mem → Mem → Mem
conv_encode data_ output =
    (count_up conv_input_size
      (λ i (state, o).
        let symbol = encode state (data_ i) in
        (
          next_state state (data_ i),
          store (store o (2 * i) (bit 1 symbol)) (2 * i + 1) (bit 0 symbol),
        ))
      (0, output)).1

-- The accumulated errors, those of the next round, and the history.
pub record Trellis : Type 0 where
  pub ae : Mem
  pub nae : Mem
  pub state_history : ℕ → Mem

-- The way from `state` at round `t` with the bit `b`.
pub survive : Mem → ℕ → ℕ → ℕ → Trellis → Trellis
survive data_ t state b r =
    let rdata = bit_or (shl (data_ (2 * t)) 1) (data_ (2 * t + 1)) in
    let nstate = next_state state b in
    let accumulated_error = r.ae state + hamming_distance2 (bit_xor rdata (encode state b)) in
    if ltb accumulated_error (r.nae nstate)
    then record r {
      nae = store (r.nae) nstate accumulated_error;
      state_history =
          λ n. if n == nstate then store (r.state_history n) (t + 1) state else r.state_history n;
    }
    else r

pub build_round : Mem → ℕ → Trellis → Trellis
build_round data_ t r =
    let built =
      count_up 16
        (λ state q. if leb max_error (q.ae state) then q else count_up 2 (survive data_ t state) q)
        r in
    count_up 16 (λ i q. record q { ae = store (q.ae) i (q.nae i); nae = store (q.nae) i max_error })
      built

-- The state with the fewest errors, and those errors.
pub best_state : Mem → ℕ × ℕ
best_state ae =
    count_up 16
      (λ i (min_state, min_error).
        if ltb (ae i) min_error then (i, ae i) else (min_state, min_error))
      (0xffffffff, max_error)

pub trace_path : (ℕ → Mem) → ℕ → Mem → Mem
trace_path state_history min_state output =
    (count_up conv_input_size
      (λ k (cur_state, o).
        let t = conv_input_size - k in
        let previous = state_history cur_state t in
        (previous, store o (t - 1) (prev_next_state previous cur_state)))
      (min_state, output)).1

-- The decoded bits, and the number of errors.
pub conv_decode : (ℕ → Mem) → Mem → Mem → Mem × ℕ
conv_decode state_history data_ output =
    let start : Trellis = record {
      ae = λ i. if i == 0 then 0 else max_error;
      nae = λ i. max_error;
      state_history = state_history;
    } in
    let built = count_up conv_input_size (build_round data_) start in
    let (min_state, min_error) = best_state (built.ae) in
    (trace_path (built.state_history) min_state output, min_error)

pub record SchInfo : Type 0 where
  pub t1 : ℕ
  pub t2 : ℕ
  pub t3 : ℕ
  pub ncc : ℕ
  pub bcc : ℕ

-- The bits at the places of a list, the highest first.
pub bits_at : Mem → ℕ → List ℕ → ℕ
bits_at d acc [] = acc
bits_at d acc (i ∷ places) = bits_at d (bit_or (2 * acc) (d i)) places

pub sch_info : Mem → SchInfo
sch_info d = record {
  t1 = bits_at d 0 (1 ∷ 0 ∷ 15 ∷ 14 ∷ 13 ∷ 12 ∷ 11 ∷ 10 ∷ 9 ∷ 8 ∷ 23 ∷ []);
  t2 = bits_at d 0 (22 ∷ 21 ∷ 20 ∷ 19 ∷ 18 ∷ []);
  t3 = 10 * bits_at d 0 (17 ∷ 16 ∷ 24 ∷ []) + 1;
  ncc = bits_at d 0 (7 ∷ 6 ∷ 5 ∷ []);
  bcc = bits_at d 0 (4 ∷ 3 ∷ 2 ∷ []);
}

-- The result, and what is stored where that is 0.
pub decode_sch : (ℕ → Mem) → Mem → Mem → Mem → ℕ × Option SchInfo
decode_sch state_history data_ decoded_data buf =
    let first = memcpy data_ 0 buf conv_input_size in
    let both = memcpy first conv_input_size (shift buf (conv_input_size + 64)) conv_input_size in
    let (decoded, errors) = conv_decode state_history both decoded_data in
    if not (errors == 0)
    then (errors, none)
    else if sch_parity_check decoded
    then (1, none)
    else (0, some (sch_info decoded))
