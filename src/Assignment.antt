-- ===== src/Assignment.antt =====
-- gsm-parser/assignment.c and assignment.h: the channel that a handover or an assignment command
-- describes. `tlv_parse` of libosmocore finds the elements of the command, and
-- `decode_freq_list` is its gsm48_decode_freq_list.
pub mod Laws
pub mod Overrun
mod Tests
use srlabs.Base.{
  ℕ, ◌+◌, ◌-◌, ◌*◌, ◌/◌, ◌%◌, ◌^◌, bit_and, Bool, true, false, ◌||◌, not, Option, none, some,
}
use srlabs.Base.{
  Outcome, done, undefined, ◌>>=◌, ltb, ◌==◌, if◌then◌else◌, nonzero, truth, shr, low_bits, bit,
  Mem, store, shift, count_up,
}
use srlabs.Radio.{set_bit, clear_bit, has_bit}

-- The frequencies of a hopping channel: ma[64], and how many there are.
pub record Hopping : Type 0 where
  pub ma : Mem
  pub ma_len : ℕ

-- The union of both kinds of channel.
pub data Channel : Type 0 where
  h0 : (band_arfcn : ℕ) → Channel
  h1 : (maio hsn : ℕ) (hopping : Hopping) → Channel

pub record GsmAssignment : Type 0 where
  pub chan_nr : ℕ
  pub tsc : ℕ
  pub h : ℕ
  pub channel : Channel
  pub chan_mode : ℕ
  pub rate_conf : ℕ
  pub bcch_arfcn : ℕ

-- After `memset`.
abbrev pub zero_assignment : GsmAssignment
zero_assignment = record {
  chan_nr = 0;
  tsc = 0;
  h = 0;
  channel = h0 0;
  chan_mode = 0;
  rate_conf = 0;
  bcch_arfcn = 0;
}

-- An element that `tlv_parse` found: its bytes, the length, and what stands in front of it in the
-- message, counted backwards.
pub record Element : Type 0 where
  pub val : Mem
  pub len : ℕ
  pub before : Mem

pub record Elements : Type 0 where
  pub cell_ch_desc : Option Element
  pub ma_after : Option Element
  pub freq_l_after : Option Element
  pub chanmode_1 : Option Element
  pub mul_rate_cfg : Option Element

-- `ma[ma_len++] = arfcn`.
pub add_arfcn : ℕ → Hopping → Outcome Hopping
add_arfcn arfcn s =
    if ltb s.ma_len 64
    then done (record { ma = store s.ma s.ma_len arfcn; ma_len = s.ma_len + 1 })
    else undefined

abbrev pub no_hopping : Hopping
no_hopping = record { ma = λ i. 0; ma_len = 0 }

-- `cell_arfcns[i & 1023].mask & mask`, where `i` starts at 1.
pub in_cell : Mem → ℕ → ℕ → Bool
in_cell cell_arfcns mask n = nonzero (bit_and (cell_arfcns ((n + 1) % 1024)) mask)

pub cell_allocation : Mem → ℕ → Outcome Hopping
cell_allocation cell_arfcns mask =
    count_up 1024
      (λ n o. do s ← o; if in_cell cell_arfcns mask n then add_arfcn ((n + 1) % 1024) s else done s)
      (done no_hopping)

-- `ma[ma_len - (j >> 3) - 1] & (1 << (j & 7))`: the bits are numbered from the end.
pub allocation_bit : Element → ℕ → Bool
allocation_bit ma j =
    let byte =
      if ltb (j / 8) ma.len then ma.val (ma.len - j / 8 - 1) else ma.before (j / 8 - ma.len) in
    nonzero (bit_and byte (2 ^ (j % 8)))

-- The next number in the cell, and the frequencies so far.
pub record Walk : Type 0 where
  pub j : ℕ
  pub chosen : Hopping

pub allocation_round : Mem → ℕ → Element → ℕ → Walk → Outcome Walk
allocation_round cell_arfcns mask ma n w =
    if in_cell cell_arfcns mask n
    then (do
      s ← if allocation_bit ma w.j then add_arfcn ((n + 1) % 1024) w.chosen else done w.chosen
      done (record { j = w.j + 1; chosen = s }))
    else done w

pub mobile_allocation : Mem → ℕ → Element → Outcome Hopping
mobile_allocation cell_arfcns mask ma = do
  w ←
      count_up 1024 (λ n o. o >>= allocation_round cell_arfcns mask ma n)
        (done (record { j = 0; chosen = no_hopping }))
  done w.chosen

-- The number of bits that are set, where the frequencies of the cell are not known.
pub allocation_size : Element → ℕ
allocation_size ma =
    count_up (ma.len * 8) (λ i n. n + truth (bit_and (ma.val (i / 8)) (2 ^ (i % 8)))) 0

pub hopping_list : Mem → ℕ → Option Element → Outcome Hopping
hopping_list cell_arfcns mask none = cell_allocation cell_arfcns mask
hopping_list cell_arfcns mask (some ma) = if ma.len == 0 then done no_hopping else (do
  s ← mobile_allocation cell_arfcns mask ma
  done (if s.ma_len == 0 then record s { ma_len = allocation_size ma } else s))

-- What the elements say of the frequencies: those known now, the bit that marks the ones in use,
-- and the mobile allocation.
pub record Frequencies : Type 0 where
  pub cell_arfcns : Mem
  pub mask : ℕ
  pub ma : Option Element

-- Bit 1 becomes bit 0, and the mask is 2 if any is set.
pub use_old : Mem → Frequencies
use_old cell_arfcns =
    count_up 1024
      (λ i s.
        let m = clear_bit 1 (s.cell_arfcns i) in
        if has_bit 0 m
        then record s { cell_arfcns = store s.cell_arfcns i (set_bit 1 m); mask = 2 }
        else record s { cell_arfcns = store s.cell_arfcns i m })
      (record { cell_arfcns = cell_arfcns; mask = 0; ma = none })

abbrev FreqList : Type 0
FreqList = Mem → Mem → ℕ → ℕ → ℕ → Mem

pub frequencies : FreqList → Elements → Mem → Frequencies
frequencies decode_freq_list tp cell_arfcns = elim (tp.cell_ch_desc) [
  | some e ↦ record {
    cell_arfcns = decode_freq_list cell_arfcns (e.val) (e.len) 0xff 2;
    mask = 2;
    ma = none;
  }
  | none ↦ elim (tp.ma_after) [
    | some e ↦ record { cell_arfcns = cell_arfcns; mask = 1; ma = some e }
    | none ↦ elim (tp.freq_l_after) [
      | some e ↦ record {
        cell_arfcns = decode_freq_list cell_arfcns (e.val) (e.len) 0xff 4;
        mask = 4;
        ma = none;
      }
      | none ↦ use_old cell_arfcns
    ]
  ]
]

-- A byte of an element that may be missing.
abbrev byte_of : Option Element → ℕ → ℕ
byte_of none i = 0
byte_of (some e) i = e.val i

-- The fields of the channel description `cd`.
pub channel_of : Mem → Frequencies → Outcome Channel
channel_of cd f = if bit 4 (cd 1) == 0 then done (h0 (cd 2 + low_bits (cd 1) 2 * 2 ^ 8)) else (do
  s ← hopping_list (f.cell_arfcns) (f.mask) (f.ma)
  done (h1 (shr (cd 2) 6 + low_bits (cd 1) 4 * 2 ^ 2) (low_bits (cd 2) 6) s))

module _ (decode_freq_list : FreqList) (tlv_parse : Mem → ℕ → Elements) where
  -- From the elements on.
  pub parse_payload : Mem → Mem → ℕ → Mem → GsmAssignment → Outcome (GsmAssignment × Mem)
  parse_payload cd payload_data payload_len cell_arfcns ga =
      if payload_len == 0
      then done (ga, cell_arfcns)
      else let tp = tlv_parse payload_data payload_len in
        let f = frequencies decode_freq_list tp cell_arfcns in
        do
          c ← channel_of cd f
          done (
            record ga {
              chan_nr = cd 0;
              tsc = shr (cd 1) 5;
              h = bit 4 (cd 1);
              channel = c;
              chan_mode = byte_of (tp.chanmode_1) 0;
              rate_conf = byte_of (tp.mul_rate_cfg) 1;
            },
            f.cell_arfcns,
          )

  pub parse_assignment : ℕ → Mem → ℕ → Mem → Outcome (GsmAssignment × Mem)
  parse_assignment msg_type data_ len cell_arfcns =
      if msg_type == 0x2b
      then (if ltb len 9
          then done (zero_assignment, cell_arfcns)
          else parse_payload (shift data_ 2) (shift data_ 7) (len - 9) cell_arfcns
              (record zero_assignment { bcch_arfcn = data_ 1 + shr (data_ 0) 6 * 2 ^ 8 }))
      else if msg_type == 0x2e
      then (if ltb len 6
          then done (zero_assignment, cell_arfcns)
          else parse_payload data_ (shift data_ 4) (len - 6) cell_arfcns zero_assignment)
      else done (zero_assignment, cell_arfcns)
