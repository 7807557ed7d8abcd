-- ===== src/L3/Encaps.antt =====
-- gsm-parser/l3_handler.c: `encapsulate_lapdm`, `new_l2` and `new_l3`, which make a radio message of
-- a message of layer 3 that came without its frame. An allocation always succeeds.
pub mod Laws
use srlabs.Base.{ℕ, zero, suc, ◌+◌, ◌-◌, ◌*◌, Bool, true, false, Option, none, some, [], min}
use srlabs.Base.{ltb, ◌==◌, if◌then◌else◌, u8, low_bits, bit, Mem, shift, store, memcpy, memset}
use srlabs.Radio.{
  Message, msg_sdcch, msg_sacch, msg_facch, msg_bcch, sacch_bit, has_bit, arfcn_uplink, decoded_bit,
  set_bit,
}

-- `alloc_len`, where `len` is at most 63.
pub alloc_len : Bool → ℕ → ℕ
alloc_len sacch len =
    if sacch then 5 + (if ltb len 18 then 18 else len) else 3 + (if ltb len 20 then 20 else len)

pub l1_len : Bool → ℕ
l1_len sacch = if sacch then 2 else 0

-- The header of a U frame with the length of its payload, and bit 0 set.
pub lapdm_header : Bool → ℕ → Mem
lapdm_header ul len zero = if ul then 0x01 else 0x03
lapdm_header ul len (suc zero) = 0x03
lapdm_header ul len _ = u8 (len * 4 + 1)

-- The frame, of which the first `alloc_len` bytes are allocated.
pub lapdm_frame : Mem → ℕ → Bool → Bool → Mem
lapdm_frame p len ul sacch =
    let offset = l1_len sacch in
    let head = memcpy (memset (λ i. 0) 0 0 offset) offset (lapdm_header ul len) 3 in
    let full = memcpy head (offset + 3) p len in
    if ltb (len + (offset + 3)) (alloc_len sacch len)
    then memset full (len + (offset + 3)) 0x2b (alloc_len sacch len - (len + (offset + 3)))
    else full

-- `none` is the length zero.
pub encapsulate_lapdm : Mem → ℕ → Bool → Bool → Option (Mem × ℕ)
encapsulate_lapdm p len ul sacch =
    if len == 0
    then none
    else some (lapdm_frame p (min len 63) ul sacch, alloc_len sacch (min len 63))

pub channel_number : ℕ → ℕ
channel_number flags =
    let ch = low_bits flags 4 in
    if ch == msg_sdcch
    then 0x41
    else if ch == msg_sacch
    then 0x41
    else if ch == msg_facch
    then 0x08
    else if ch == msg_bcch
    then 0x80
    else 0

-- `addr` is where the message is allocated.
pub new_l2 : ℕ → Mem → ℕ → ℕ → ℕ → ℕ → Bool → ℕ → Message
new_l2 addr p len rat domain fn ul flags = record {
  addr = addr;
  rat = rat;
  domain = domain;
  flags = set_bit decoded_bit flags;
  info = [];
  chan_nr = channel_number flags;
  msg = memcpy (λ i. 0) 0 p len;
  msg_len = len;
  fn = fn;
  arfcn = if ul then arfcn_uplink else 0;
  bb_data = λ i. 0;
}

pub new_l3 : ℕ → Mem → ℕ → ℕ → ℕ → ℕ → Bool → ℕ → Option Message
new_l3 addr p len rat domain fn ul flags =
    elim (encapsulate_lapdm p len ul (has_bit sacch_bit flags)) [
      | none ↦ none
      | some (q, n) ↦ some (new_l2 addr q (u8 n) rat domain fn ul flags)
    ]
