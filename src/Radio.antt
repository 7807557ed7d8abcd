-- ===== src/Radio.antt =====
-- gsm-parser/process.h: one radio message, and the constants of its fields. A message keeps of its
-- burst buffer the first frame number, the first ARFCN and the data.
use srlabs.Base.{ℕ, ◌+◌, ◌-◌, ◌*◌, ◌^◌, List, ◌==◌, Bool, bit, Mem}
use Prim.Native.String.{String}

abbrev pub rat_gsm : ℕ
rat_gsm = 0

abbrev pub rat_umts : ℕ
rat_umts = 1

abbrev pub rat_lte : ℕ
rat_lte = 2

abbrev pub domain_cs : ℕ
domain_cs = 0

abbrev pub domain_ps : ℕ
domain_ps = 1

abbrev pub msg_sdcch : ℕ
msg_sdcch = 0x01

abbrev pub msg_sacch : ℕ
msg_sacch = 0x02

abbrev pub msg_facch : ℕ
msg_facch = 0x04

abbrev pub msg_bcch : ℕ
msg_bcch = 0x08

-- The bit numbers of MSG_SDCCH, MSG_SACCH, MSG_BCCH and MSG_DECODED, and of ARFCN_UPLINK.
abbrev pub sdcch_bit : ℕ
sdcch_bit = 0

abbrev pub sacch_bit : ℕ
sacch_bit = 1

abbrev pub bcch_bit : ℕ
bcch_bit = 3

abbrev pub decoded_bit : ℕ
decoded_bit = 7

abbrev pub uplink_bit : ℕ
uplink_bit = 14

abbrev pub arfcn_uplink : ℕ
arfcn_uplink = 0x4000

-- `x |= 1 << k` and `x &= ~(1 << k)`.
abbrev pub set_bit : ℕ → ℕ → ℕ
set_bit k x = x + (1 - bit k x) * 2 ^ k

abbrev pub clear_bit : ℕ → ℕ → ℕ
clear_bit k x = x - bit k x * 2 ^ k

abbrev pub has_bit : ℕ → ℕ → Bool
has_bit k x = bit k x == 1

-- A text before it is rendered and cut to the length of its buffer: the parts of a format and its
-- arguments, in decimal, in two hexadecimal digits, as characters, or as bytes in hexadecimal.
pub data Piece : Type 0 where
  text : String → Piece
  dec hex2 : ℕ → Piece
  chars dump : List ℕ → Piece

pub record Message : Type 0 where
  pub addr : ℕ
  pub rat : ℕ
  pub domain : ℕ
  pub flags : ℕ
  pub info : List Piece
  pub chan_nr : ℕ
  pub msg : Mem
  pub msg_len : ℕ
  pub fn : ℕ
  pub arfcn : ℕ
  pub bb_data : Mem

-- `!!(m->bb.arfcn[0] & ARFCN_UPLINK)`.
abbrev pub is_uplink : Message → Bool
is_uplink m = has_bit uplink_bit m.arfcn

abbrev pub is_decoded : Message → Bool
is_decoded m = has_bit decoded_bit m.flags
