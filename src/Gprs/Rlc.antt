-- ===== src/Gprs/Rlc.antt =====
-- gsm-parser/rlcmac.c: the blocks of the packet channels, from which LLC frames are put together.
-- What is printed is left out, and with it `llc_first_bsn`, on which nothing depends. What goes out
-- through net_send_rlcmac and net_send_llc is a list.
pub mod Window
pub mod Blocks
use srlabs.Base.{
  ℕ, zero, suc, ◌+◌, ◌-◌, ◌*◌, ◌%◌, ◌^◌, Bool, true, false, ◌&&◌, ◌||◌, not, List, [], ◌∷◌, ◌++◌,
  Option, none, some,
}
use srlabs.Base.{
  Outcome, done, undefined, ◌>>=◌, ltb, leb, ◌==◌, nonzero, if◌then◌else◌, u8, u32, shr, bit,
  low_bits, Mem, shift, memcpy, bytes, count_up,
}
use srlabs.Radio.{Message, is_uplink}

pub record Lime : Type 0 where
  pub li : ℕ
  pub m : Bool
  pub e : Bool
  pub used : Bool

pub record Frag : Type 0 where
  pub fn : ℕ
  pub last : Bool
  pub len : ℕ
  pub data_ : Mem
  pub n_blocks : ℕ
  pub blocks : ℕ → Lime

pub record Tbf : Type 0 where
  pub last_bsn : ℕ
  pub start_bsn : ℕ
  pub frags : ℕ → Frag

pub data Sent : Type 0 where
  rlcmac : List ℕ → ℕ → Bool → Sent
  llc : List ℕ → Bool → Sent

abbrev pub old_time : ℕ
old_time = 2000

abbrev pub put_frag : ℕ → Frag → Tbf → Tbf
put_frag n f t = record t { frags = λ k. if k == n then f else t.frags k }

-- `abs` of a difference in uint32_t, taken as an int.
unfoldable pub too_old : ℕ → ℕ → Bool
too_old current_fn test_fn =
    let delta = u32 (current_fn + 2 ^ 32 - test_fn) in
    ltb old_time (if ltb delta (2 ^ 31) then delta else 2 ^ 32 - delta)

unfoldable pub bsn_is_next : ℕ → ℕ → Bool
bsn_is_next first second = (first + 1) % 128 == second

-- The first block from `bsn` on that holds data; `none` once round the window.
unfoldable pub find_start : ℕ → Tbf → ℕ → Option ℕ
find_start zero t bsn = none
find_start (suc left) t bsn =
    let next = (bsn + 1) % 128 in
    let rest = find_start left t next in
    if not ((t.frags bsn).len == 0) then some bsn else if next == t.start_bsn then none else rest

-- The locals of process_blocks, the descriptor and what has been sent.
pub record Walk : Type 0 where
  pub tbf : Tbf
  pub current_fn : ℕ
  pub llc_data : Mem
  pub llc_len : ℕ
  pub llc_last_bsn : ℕ
  pub skip : Bool
  pub sent : List Sent

abbrev pub drop_llc : Walk → Walk
drop_llc w = record w { llc_len = 0; skip = true }

abbrev pub send_llc : Bool → Walk → Walk
send_llc ul w = record w { sent = w.sent ++ (llc (bytes w.llc_data w.llc_len) ul ∷ []) }

abbrev pub append_llc : ℕ → Mem → ℕ → Walk → Walk
append_llc bsn p n w = record w {
  llc_data = memcpy w.llc_data w.llc_len p n;
  llc_len = w.llc_len + n;
  llc_last_bsn = bsn;
}

-- `reset all fragments`.
abbrev pub reset_frags : Tbf → Tbf
reset_frags t = record t {
  frags = λ k. if ltb k 128 then record (t.frags k) { len = 0; n_blocks = 0 } else t.frags k;
}

-- A block that is one part of a frame.
pub whole_block : Bool → ℕ → Frag → Walk → Walk
whole_block ul bsn f w =
    let appended = append_llc bsn f.data_ f.len w in
    let sent = send_llc ul appended in
    if f.last
    then record sent { llc_len = 0; tbf = record (reset_frags w.tbf) { start_bsn = 0 } }
    else appended

pub set_used : ℕ → ℕ → Tbf → Tbf
set_used bsn i t =
    let f = t.frags bsn in
    put_frag bsn
      (record f {
        blocks = λ k. if k == i then record (f.blocks i) { used = true } else f.blocks k;
      })
      t

-- One entry of a block with several parts; `li_off` is in uint8_t.
pub lime_block : Bool → ℕ → ℕ → ℕ × Walk → ℕ × Walk
lime_block ul bsn i (li_off, w) =
    let f = w.tbf.frags bsn in
    let l = f.blocks i in
    let appended = append_llc bsn (shift f.data_ li_off) l.li w in
    let sent = send_llc ul appended in
    let used = set_used bsn i sent.tbf in
    let ends = not l.e || not l.m || (l.e && l.m) in
    (
      u8 (li_off + l.li),
      if l.used
          then record w { llc_len = 0 }
          else if ends
          then record sent {
            llc_len = 0;
            tbf = if w.skip then used else record used { start_bsn = bsn };
          }
          else appended,
    )

-- What stands behind the last entry.
pub spare_data : ℕ → ℕ → Walk → Walk
spare_data bsn li_off w =
    let f = w.tbf.frags bsn in
    if (f.blocks (f.n_blocks - 1)).m && ltb li_off f.len
    then record w {
      llc_data = memcpy w.llc_data 0 (shift f.data_ li_off) (f.len - li_off);
      llc_len = f.len - li_off;
      llc_last_bsn = bsn;
      tbf = record (w.tbf) { start_bsn = bsn };
    }
    else w

pub several_blocks : Bool → ℕ → Frag → Walk → Walk
several_blocks ul bsn f w =
    let (li_off, w') = count_up f.n_blocks (lime_block ul bsn) (0, w) in spare_data bsn li_off w'

-- One round of the walk through the window.
unfoldable pub walk_block : Bool → ℕ → Walk → Walk
walk_block ul bsn w =
    let f = w.tbf.frags bsn in
    let current = record w { current_fn = f.fn } in
    if f.len == 0
    then drop_llc w
    else if too_old w.current_fn f.fn
    then drop_llc w
    else if nonzero w.llc_len && not (bsn_is_next w.llc_last_bsn bsn)
    then drop_llc current
    else if f.n_blocks == 0
    then whole_block ul bsn f current
    else several_blocks ul bsn f current

-- From `bsn` to the block in front of `end`.
unfoldable pub walk_window : ℕ → Bool → ℕ → ℕ → Walk → Walk
walk_window zero ul end bsn w = w
walk_window (suc left) ul end bsn w = elim (bsn == end) [
  | true ↦ w
  | false ↦ walk_window left ul end ((bsn + 1) % 128) (walk_block ul bsn w)
]

-- The difference is an int: the remainder of a negative one is not positive.
unfoldable pub shift_window : Tbf → Tbf
shift_window t =
    if ltb 64 ((t.last_bsn - t.start_bsn) % 128)
    then record t { start_bsn = (t.last_bsn - 64) % 128 }
    else t

-- `stack` is the uninitialised buffer.
unfoldable pub process_blocks : Mem → Bool → Tbf → Tbf × List Sent
process_blocks stack ul t = elim (find_start 128 t t.start_bsn) [
  | none ↦ (t, [])
  | some bsn ↦
      let start : Walk = record {
        tbf = record t { start_bsn = bsn };
        current_fn = (t.frags bsn).fn;
        llc_data = stack;
        llc_len = 0;
        llc_last_bsn = 0;
        skip = false;
        sent = [];
      } in
      let w = walk_window 128 ul ((t.last_bsn + 1) % 128) bsn start in (shift_window w.tbf, w.sent)
]
