-- ===== src/Gprs/Handler.antt =====
-- gsm-parser/rlcmac.c: the header of an RLC block, the place of the block in the window of its TBF,
-- and the dispatch of blocks. The code checks no bound of a descriptor: the write of an entry at
-- blocks[20], and a copy of more than 53 bytes to data[53], lie outside of their arrays, which C
-- leaves undefined.
use srlabs.Base.{
  ℕ, zero, suc, ◌+◌, ◌-◌, ◌*◌, ◌%◌, ◌^◌, Bool, true, false, ◌&&◌, ◌||◌, not, List, [], ◌∷◌, ◌++◌,
  Option, none, some,
}
use srlabs.Base.{
  Outcome, done, undefined, ◌>>=◌, ltb, leb, ◌==◌, nonzero, num, if◌then◌else◌, u8, u32, shr, bit,
  low_bits, Mem, shift, memcpy, bytes,
}
use srlabs.Radio.{Message, is_uplink}
use srlabs.Gprs.Rlc.{Lime, Frag, Tbf, Sent, rlcmac, old_time, put_frag, process_blocks}
pub mod Fits
pub mod Laws

-- `tbf_table`.
abbrev pub Table : Type 0
Table = ℕ → Tbf

abbrev pub put_tbf : ℕ → Tbf → Table → Table
put_tbf n t table k = if k == n then t else table k

-- What becomes of a block: it opens a new TBF, is kept, or is dropped, with its time noted or not.
pub data Decision : Type 0 where
  new_tbf keep_new duplicate error : Decision

-- `d_bsn` is `bsn - t->last_bsn`, an int.
unfoldable pub decide : ℕ → ℕ → Tbf → Decision
decide fn bsn t =
    let d_same_bsn = u32 (fn + 2 ^ 32 - (t.frags bsn).fn) in
    let d_last_bsn = u32 (fn + 2 ^ 32 - (t.frags t.last_bsn).fn) in
    let far_behind = ltb (bsn + 64) t.last_bsn in
    if ltb old_time d_same_bsn
    then (if ltb old_time d_last_bsn
        then new_tbf
        else if leb t.last_bsn bsn || far_behind
        then keep_new
        else duplicate)
    else if ltb old_time d_last_bsn
    then error
    else if ltb t.last_bsn bsn
    then error
    else if far_behind
    then keep_new
    else duplicate

-- The scan for LI entries from `msg[off]` on: the offset behind. There is room for so many of them
-- in `blocks`, and the next one is written behind it.
unfoldable pub scan_entries : ℕ → Mem → ℕ → Frag → Outcome (ℕ × Frag)
scan_entries zero msg off f = if bit 0 (msg off) == 1 then done (off + 1, f) else undefined
scan_entries (suc room) msg off f =
    let b = msg (off + 1) in
    let l : Lime = record {
      li = low_bits (shr b 2) 6;
      m = bit 1 b == 1;
      e = bit 0 b == 1;
      used = false;
    } in
    let f' = record f {
      n_blocks = f.n_blocks + 1;
      blocks = λ k. if k == f.n_blocks then l else f.blocks k;
    } in
    elim (bit 0 (msg off) == 1) [
      | true ↦ done (off + 1, f)
      | false ↦ scan_entries room msg (off + 1) f'
    ]

-- TLLI and PFI of the uplink.
unfoldable pub skip_optional : Bool → Mem → ℕ → ℕ
skip_optional ul msg off =
    if ul
    then off + (if bit 0 (msg 1) == 1 then 4 else 0) + (if bit 6 (msg 1) == 1 then 1 else 0)
    else off

-- The end of the TBF: a countdown of 0, or the final block indicator of the downlink.
pub is_final : Bool → Mem → Bool
is_final ul msg = if ul then low_bits (shr (msg 0) 2) 4 == 0 else bit 0 (msg 1) == 1

-- The descriptor of the block, filled; more data than `data` holds are copied behind it.
pub fill_frag : Message → Bool → Frag → Outcome Frag
fill_frag m ul f = scan_entries 20 m.msg 2 (record f { n_blocks = 0 }) >>= (λ (off, g).
    let off' = skip_optional ul m.msg off in
    let len = u8 (u32 (m.msg_len + 2 ^ 32 - off')) in
    if ltb 53 len
    then undefined
    else done (record g {
      last = is_final ul m.msg;
      len = len;
      fn = m.fn;
      data_ = memcpy g.data_ 0 (shift m.msg off') len;
    }))

-- The TBF before the new one is closed, if its last block has data.
pub close_previous : Mem → Bool → Tbf → Tbf × List Sent
close_previous stack ul t =
    let f = t.frags t.last_bsn in
    if nonzero f.len
    then process_blocks stack ul (put_frag t.last_bsn (record f { last = true }) t)
    else (t, [])

abbrev pub zero_frag : Frag
zero_frag = record {
  fn = 0;
  last = false;
  len = 0;
  data_ = λ _. 0;
  n_blocks = 0;
  blocks = λ _. record { li = 0; m = false; e = false; used = false };
}

pub clear_tbf : ℕ → Tbf → Tbf
clear_tbf bsn t = record {
  start_bsn = 0;
  last_bsn = bsn;
  frags = λ k. if ltb k 128 then zero_frag else t.frags k;
}

-- The block is kept and the TBF is gone through.
pub keep_block : Mem → Message → Bool → ℕ → ℕ → Table → Outcome (Table × List Sent)
keep_block stack m ul n bsn table =
    let t = table n in
    fill_frag m ul (t.frags bsn) >>= (λ f.
      let (t', sent) = process_blocks stack ul (put_frag bsn f t) in
      done (put_tbf n t' table, sent))

pub tbf_index : Bool → ℕ → ℕ
tbf_index ul tfi = 2 * tfi + num ul

-- By the decision; a new TBF closes the one of the next TFI first.
pub act : Mem → Message → Bool → ℕ → ℕ → Table → Decision → Outcome (Table × List Sent)
act stack m ul tfi bsn table new_tbf =
    let previous = tbf_index ul ((tfi + 1) % 32) in
    let (closed, sent) = close_previous stack ul (table previous) in
    let table' = put_tbf previous closed table in
    let opened = put_tbf (tbf_index ul tfi) (clear_tbf bsn (table' (tbf_index ul tfi))) table' in
    keep_block stack m ul (tbf_index ul tfi) bsn opened
    >>= (λ (after, more). done (after, sent ++ more))
act stack m ul tfi bsn table keep_new =
    let n = tbf_index ul tfi in
    keep_block stack m ul n bsn (put_tbf n (record (table n) { last_bsn = bsn }) table)
act stack m ul tfi bsn table duplicate =
    let t = table (tbf_index ul tfi) in
    let noted = record (t.frags bsn) { fn = m.fn } in
    done (put_tbf (tbf_index ul tfi) (put_frag bsn noted t) table, [])
act stack m ul tfi bsn table error = done (table, [])

unfoldable pub rlc_data_handler : Mem → Message → Table → Outcome (Table × List Sent)
rlc_data_handler stack m table =
    let ul = is_uplink m in
    let tfi = low_bits (shr (m.msg 1) 1) 5 in
    let bsn = low_bits (shr (m.msg 2) 1) 7 in
    act stack m ul tfi bsn table (decide m.fn bsn (table (tbf_index ul tfi)))

unfoldable pub rlc_type_handler : Mem → Message → Table → Outcome (Table × List Sent)
rlc_type_handler stack m table =
    let ul = is_uplink m in
    let block = rlcmac (bytes m.msg m.msg_len) m.chan_nr ul in
    let kind = low_bits (shr (m.msg 0) 6) 2 in
    if kind == 0
    then rlc_data_handler stack m table >>= (λ (table', sent). done (table', block ∷ sent))
    else if kind == 3
    then done (table, [])
    else done (table, block ∷ [])
