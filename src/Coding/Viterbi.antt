-- ===== src/Coding/Viterbi.antt =====
-- gsm-parser/viterbi.c: the convolutional code of the control channels. Soft bits are `int8_t` and
-- stand here for their bytes in two's complement. The decoder keeps its history in an array of 16
-- rows of n words and writes the columns 1 to n, so that the last column lies in the next row, and
-- behind the array in the last one: column 0 is not used, and the history is here a table whose
-- columns do not overlap.
use srlabs.Base.{ℕ, zero, suc, ◌+◌, ◌-◌, ◌*◌, ◌/◌, ◌%◌, ◌^◌, List, [], ◌∷◌, ◌++◌, not, ◌&&◌}
use srlabs.Base.{ltb, ◌==◌, if◌then◌else◌, shr, bit, num, Mem, store, mem_of, count_up}
pub mod Encoder
pub mod Scan
pub mod Column
pub mod Step
pub mod Decoder

abbrev pub max_ae : ℕ
max_ae = 0x00ffffff

-- The two tables: the rows of 16 states, by the input bit.
pub conv_cch_next_output : ℕ → ℕ → ℕ
conv_cch_next_output state b =
    mem_of
      ((0 ∷ 3 ∷ 3 ∷ 0 ∷ 3 ∷ 0 ∷ 0 ∷ 3 ∷ [])
        ++ (0 ∷ 3 ∷ 3 ∷ 0 ∷ 3 ∷ 0 ∷ 0 ∷ 3 ∷ [])
        ++ (1 ∷ 2 ∷ 2 ∷ 1 ∷ 2 ∷ 1 ∷ 1 ∷ 2 ∷ [])
        ++ (1 ∷ 2 ∷ 2 ∷ 1 ∷ 2 ∷ 1 ∷ 1 ∷ 2 ∷ []))
      (2 * state + b)

pub conv_cch_next_state : ℕ → ℕ → ℕ
conv_cch_next_state state b =
    mem_of
      ((0 ∷ 8 ∷ 0 ∷ 8 ∷ 1 ∷ 9 ∷ 1 ∷ 9 ∷ [])
        ++ (2 ∷ 10 ∷ 2 ∷ 10 ∷ 3 ∷ 11 ∷ 3 ∷ 11 ∷ [])
        ++ (4 ∷ 12 ∷ 4 ∷ 12 ∷ 5 ∷ 13 ∷ 5 ∷ 13 ∷ [])
        ++ (6 ∷ 14 ∷ 6 ∷ 14 ∷ 7 ∷ 15 ∷ 7 ∷ 15 ∷ []))
      (2 * state + b)

-- The state and the output of the encoder.
pub encode_round : Mem → ℕ → ℕ × Mem → ℕ × Mem
encode_round in_ i (state, out) =
    let o = conv_cch_next_output state (in_ i) in
    (conv_cch_next_state state (in_ i), store (store out (2 * i) (bit 1 o)) (2 * i + 1) (bit 0 o))

unfoldable pub conv_cch_encode : Mem → Mem → ℕ → Mem
conv_cch_encode in_ out size = (count_up size (encode_round in_) (0, out)).1

-- `DIFF(x, y)`, the square of the difference of two soft bits, whose order is that of the bytes
-- moved by 128.
signed_order : ℕ → ℕ
signed_order x = (x + 128) % 256

pub diff : ℕ → ℕ → ℕ
diff x y =
    let a = signed_order x in let b = signed_order y in let d = a - b + (b - a) in shr (d * d) 9

-- The byte of 127, or of -127 where a bit of the output is set.
pub expected : ℕ → ℕ → ℕ
expected k out = if bit k out == 1 then 129 else 127

-- What the two received soft bits cost on the way from state `s` with bit `b`.
pub path_cost : ℕ → ℕ → ℕ → ℕ → ℕ
path_cost sym0 sym1 s b =
    let out = conv_cch_next_output s b in diff (expected 1 out) sym0 + diff (expected 0 out) sym1

-- The errors that the states have accumulated, and where each state came from in each column.
pub record Trellis : Type 0 where
  pub errors : Mem
  pub history : ℕ → Mem

-- One path from state `s`: `old` holds the errors before the round, the trellis `ae_next`.
pub try_path : Mem → ℕ → (ℕ → ℕ → ℕ) → ℕ → ℕ → Trellis → Trellis
try_path old column cost s b t =
    let state = conv_cch_next_state s b in
    let nae = old s + cost s b in
    if ltb nae (t.errors state)
    then record {
      errors = store t.errors state nae;
      history = λ r c. if r == state && c == column then s else t.history r c;
    }
    else t

-- A round of the scan: the errors are reset and every path of two is tried.
pub scan_column : Mem → ℕ → Trellis → Trellis
scan_column input i t =
    let reset = record t { errors = count_up 16 (λ s e. store e s max_ae) t.errors } in
    let cost = path_cost (input (2 * i)) (input (2 * i + 1)) in
    count_up 16 (λ s u. count_up 2 (try_path t.errors (i + 1) cost s) u) reset

-- `min_ae` and `min_state`: the first state of the least error, and -1 with no error below the most.
pub find_least : Mem → ℕ × ℕ
find_least ae =
    count_up 16 (λ s least. if ltb (ae s) least.0 then (ae s, s) else least) (max_ae, 2 ^ 32 - 1)

-- The way back from column `i`, in state `cur_state`.
pub trace_back : (ℕ → Mem) → ℕ → ℕ → Mem → Mem
trace_back history zero cur_state output = output
trace_back history (suc i) cur_state output =
    let previous = history cur_state (i + 1) in
    let b = num (not (conv_cch_next_state previous 0 == cur_state)) in
    trace_back history i previous (store output i b)

-- The locals are not initialised.
unfoldable pub conv_cch_decode : Trellis → Mem → Mem → ℕ → Mem
conv_cch_decode locals input output n =
    let start = record locals { errors = λ s. if s == 0 then 0 else max_ae } in
    let scanned = count_up n (scan_column input) start in
    trace_back scanned.history n (find_least scanned.errors).1 output
