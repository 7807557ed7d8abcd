-- ===== src/Gprs/Handler/Laws.antt =====
-- gsm-parser/rlcmac.c: a block that fits into a descriptor leaves every TBF within its bounds.
use srlabs.Base.{ℕ, ◌+◌, ◌%◌, ◌<◌, arith, inl, inr}
use srlabs.Base.{
  Bool, ltb, ◌==◌, nonzero, Bool-cases, Mem, List, Returns-bind, Returns-if, Returns, low_bits, shr,
}
use srlabs.Radio.{Message, is_uplink}
use srlabs.Gprs.Rlc.{Tbf, Sent}
use srlabs.Gprs.Rlc.Window.{FragOk, TbfOk, put_frag-TbfOk, process_blocks-TbfOk}
use srlabs.Gprs.Handler.{
  Table, put_tbf, Decision, new_tbf, keep_new, duplicate, error, fill_frag, close_previous,
  clear_tbf, keep_block, tbf_index, act, rlc_data_handler, rlc_type_handler,
}
use srlabs.Gprs.Handler.Fits.{Fits, fill_frag-FragOk}

unfoldable pub TableOk : Table → Type 0
TableOk table = (n : ℕ) → TbfOk (table n)

put_tbf-TableOk :
    (n : ℕ) (t : Tbf) (table : Table) → TbfOk t → TableOk table → TableOk (put_tbf n t table)
unfolding TableOk
put_tbf-TableOk n t table ok all k = elim (Bool-cases (k == n)) [
  | inl e ↦ rw e ok
  | inr e ↦ rw e (all k)
]

close_previous-TbfOk :
    (stack : Mem) (ul : Bool) (t : Tbf) → TbfOk t → TbfOk (close_previous stack ul t).0
unfolding close_previous
close_previous-TbfOk stack ul t ok = elim (Bool-cases (nonzero (t.frags t.last_bsn).len)) [
  | inl e ↦ rw e (
      process_blocks-TbfOk stack ul _ (
        put_frag-TbfOk t.last_bsn _ t
          (record { fits = (ok.frags t.last_bsn).fits; entries = (ok.frags t.last_bsn).entries })
          ok))
  | inr e ↦ rw e ok
]

clear_tbf-TbfOk : (bsn : ℕ) (t : Tbf) → bsn < 128 → TbfOk t → TbfOk (clear_tbf bsn t)
unfolding clear_tbf
clear_tbf-TbfOk bsn t below ok = record {
  last = below;
  start = omega arith;
  frags = λ k. elim (Bool-cases (ltb k 128)) [
    | inl e ↦ rw e (record { fits = omega arith; entries = omega arith })
    | inr e ↦ rw e (ok.frags k)
  ];
}

abbrev pub Kept : Table × List Sent → Type 0
Kept (table, sent) = TableOk table

keep_block-TableOk :
    (stack : Mem) (entries : ℕ) (m : Message) (n bsn : ℕ) (table : Table)
    → Fits entries m
    → TableOk table
    → Returns Kept (keep_block stack m (is_uplink m) n bsn table)
unfolding keep_block TableOk
keep_block-TableOk stack entries m n bsn table fits ok =
    Returns-bind FragOk Kept (fill_frag m (is_uplink m) ((table n).frags bsn)) _
      (fill_frag-FragOk entries m ((table n).frags bsn) fits)
      (λ f stored.
        put_tbf-TableOk n _ table
          (process_blocks-TbfOk stack (is_uplink m) _
            (put_frag-TbfOk bsn f (table n) stored (ok n)))
          ok)

last_bsn-TbfOk : (bsn : ℕ) (t : Tbf) → bsn < 128 → TbfOk t → TbfOk (record t { last_bsn = bsn })
last_bsn-TbfOk bsn t below ok = record { last = below; start = ok.start; frags = ok.frags }

act-TableOk :
    (stack : Mem) (entries : ℕ) (m : Message) (tfi bsn : ℕ) (table : Table) (d : Decision)
    → bsn < 128
    → Fits entries m
    → TableOk table
    → Returns Kept (act stack m (is_uplink m) tfi bsn table d)
unfolding act TableOk
act-TableOk stack entries m tfi bsn table new_tbf below fits ok =
    let previous = tbf_index (is_uplink m) ((tfi + 1) % 32) in
    let closed =
      put_tbf-TableOk previous (close_previous stack (is_uplink m) (table previous)).0 table
        (close_previous-TbfOk stack (is_uplink m) (table previous) (ok previous)) ok in
    let opened =
      put_tbf-TableOk (tbf_index (is_uplink m) tfi) _ _
        (clear_tbf-TbfOk bsn _ below (closed (tbf_index (is_uplink m) tfi))) closed in
    Returns-bind Kept Kept _ _
      (keep_block-TableOk stack entries m (tbf_index (is_uplink m) tfi) bsn _ fits opened)
      (λ (after, more) kept. kept)
act-TableOk stack entries m tfi bsn table keep_new below fits ok =
    keep_block-TableOk stack entries m (tbf_index (is_uplink m) tfi) bsn _ fits (
      put_tbf-TableOk (tbf_index (is_uplink m) tfi) _ table
        (last_bsn-TbfOk bsn _ below (ok (tbf_index (is_uplink m) tfi))) ok)
act-TableOk stack entries m tfi bsn table duplicate below fits ok =
    let t = table (tbf_index (is_uplink m) tfi) in
    put_tbf-TableOk (tbf_index (is_uplink m) tfi) _ table
      (put_frag-TbfOk bsn _ t
        (record {
          fits = ((ok (tbf_index (is_uplink m) tfi)).frags bsn).fits;
          entries = ((ok (tbf_index (is_uplink m) tfi)).frags bsn).entries;
        })
        (ok (tbf_index (is_uplink m) tfi)))
      ok
act-TableOk stack entries m tfi bsn table error below fits ok = ok

rlc_data_handler-TableOk :
    (stack : Mem) (entries : ℕ) (m : Message) (table : Table)
    → Fits entries m
    → TableOk table
    → Returns Kept (rlc_data_handler stack m table)
unfolding rlc_data_handler
rlc_data_handler-TableOk stack entries m table fits ok =
    act-TableOk stack entries m (low_bits (shr (m.msg 1) 1) 5) (low_bits (shr (m.msg 2) 1) 7) table
      _ (omega arith) fits ok

-- A block whose entries and data fit into a descriptor, 20 entries and 53 bytes, is handled to the
-- end and leaves every TBF with its two numbers below 128, at most 53 bytes in a descriptor and at
-- most 20 entries.
pub rlc_type_handler-TableOk :
    (stack : Mem) (entries : ℕ) (m : Message) (table : Table)
    → Fits entries m
    → TableOk table
    → Returns Kept (rlc_type_handler stack m table)
unfolding rlc_type_handler
rlc_type_handler-TableOk stack entries m table fits ok =
    Returns-if Kept (low_bits (shr (m.msg 0) 6) 2 == 0) _ _
      (Returns-bind Kept Kept (rlc_data_handler stack m table) _
        (rlc_data_handler-TableOk stack entries m table fits ok) (λ (after, sent) kept. kept))
      (Returns-if Kept (low_bits (shr (m.msg 0) 6) 2 == 3) _ _ ok ok)
