-- ===== src/Gprs/Rlc/Window.antt =====
-- gsm-parser/rlcmac.c: going through the blocks keeps the window and the descriptors within their
-- bounds.
use srlabs.Base.{ℕ, zero, suc, ◌+◌, ◌-◌, ◌%◌, ◌<◌, ◌≤◌, ◌≡◌, refl, arith, subst, inl, inr}
use srlabs.Base.{
  Bool, not, ◌&&◌, ◌||◌, some, Option-cases, ltb, ◌==◌, nonzero, Bool-cases, Mem, count_up,
  count_up-induction,
}
use srlabs.Gprs.Rlc.{
  Frag, Tbf, Walk, put_frag, find_start, whole_block, set_used, lime_block, spare_data,
  several_blocks, walk_block, walk_window, shift_window, process_blocks, too_old, bsn_is_next,
  reset_frags,
}

pub record FragOk (f : Frag) : Type 0 where
  pub fits : f.len ≤ 53
  pub entries : f.n_blocks ≤ 20

pub record TbfOk (t : Tbf) : Type 0 where
  pub last : t.last_bsn < 128
  pub start : t.start_bsn < 128
  pub frags : (k : ℕ) → FragOk (t.frags k)

pub put_frag-TbfOk : (n : ℕ) (f : Frag) (t : Tbf) → FragOk f → TbfOk t → TbfOk (put_frag n f t)
put_frag-TbfOk n f t fits ok = record {
  last = ok.last;
  start = ok.start;
  frags = λ k. elim (Bool-cases (k == n)) [ inl e ↦ rw e fits | inr e ↦ rw e (ok.frags k) ];
}

pub start_bsn-TbfOk :
    (bsn : ℕ) (t : Tbf) → bsn < 128 → TbfOk t → TbfOk (record t { start_bsn = bsn })
start_bsn-TbfOk bsn t below ok = record { last = ok.last; start = below; frags = ok.frags }

reset_frags-TbfOk : (t : Tbf) → TbfOk t → TbfOk (record (reset_frags t) { start_bsn = 0 })
reset_frags-TbfOk t ok = record {
  last = ok.last;
  start = omega arith;
  frags = λ k. elim (Bool-cases (ltb k 128)) [
    | inl e ↦ rw e (record { fits = omega arith; entries = omega arith })
    | inr e ↦ rw e (ok.frags k)
  ];
}

whole_block-TbfOk :
    (ul : Bool) (bsn : ℕ) (f : Frag) (w : Walk) → TbfOk w.tbf → TbfOk (whole_block ul bsn f w).tbf
unfolding whole_block
whole_block-TbfOk ul bsn f w ok = elim (Bool-cases f.last) [
  | inl e ↦ rw e (reset_frags-TbfOk w.tbf ok)
  | inr e ↦ rw e ok
]

set_used-TbfOk : (bsn i : ℕ) (t : Tbf) → TbfOk t → TbfOk (set_used bsn i t)
unfolding set_used
set_used-TbfOk bsn i t ok =
    put_frag-TbfOk bsn _ t (record { fits = (ok.frags bsn).fits; entries = (ok.frags bsn).entries })
      ok

lime_block-TbfOk :
    (ul : Bool) (bsn i li_off : ℕ) (w : Walk)
    → bsn < 128
    → TbfOk w.tbf
    → TbfOk (lime_block ul bsn i (li_off, w)).1.tbf
unfolding lime_block
lime_block-TbfOk ul bsn i li_off w below ok =
    let l = (w.tbf.frags bsn).blocks i in
    let used = set_used-TbfOk bsn i w.tbf ok in
    elim (Bool-cases l.used) [
      | inl e ↦ rw e ok
      | inr e ↦ elim (Bool-cases (not l.e || not l.m || (l.e && l.m))) [
        | inl p ↦ elim (Bool-cases w.skip) [
          | inl q ↦ rw (e, p, q) used
          | inr q ↦ rw (e, p, q) (start_bsn-TbfOk bsn _ below used)
        ]
        | inr p ↦ rw (e, p) ok
      ]
    ]

spare_data-TbfOk :
    (bsn li_off : ℕ) (w : Walk) → bsn < 128 → TbfOk w.tbf → TbfOk (spare_data bsn li_off w).tbf
unfolding spare_data
spare_data-TbfOk bsn li_off w below ok =
    let f = w.tbf.frags bsn in
    elim (Bool-cases ((f.blocks (f.n_blocks - 1)).m && ltb li_off f.len)) [
      | inl e ↦ rw e (start_bsn-TbfOk bsn w.tbf below ok)
      | inr e ↦ rw e ok
    ]

several_blocks-TbfOk :
    (ul : Bool) (bsn : ℕ) (f : Frag) (w : Walk)
    → bsn < 128
    → TbfOk w.tbf
    → TbfOk (several_blocks ul bsn f w).tbf
unfolding several_blocks
several_blocks-TbfOk ul bsn f w below ok =
    let after = count_up f.n_blocks (lime_block ul bsn) (0, w) in
    spare_data-TbfOk bsn after.0 after.1 below (
      count_up-induction (λ i s. TbfOk (s.1).tbf) (lime_block ul bsn)
        (λ i s ok'. lime_block-TbfOk ul bsn i s.0 s.1 below ok') f.n_blocks (0, w) ok)

pub walk_block-TbfOk :
    (ul : Bool) (bsn : ℕ) (w : Walk) → bsn < 128 → TbfOk w.tbf → TbfOk (walk_block ul bsn w).tbf
unfolding walk_block
walk_block-TbfOk ul bsn w below ok =
    let f = w.tbf.frags bsn in
    elim (Bool-cases (f.len == 0)) [
      | inl e ↦ rw e ok
      | inr e ↦ elim (Bool-cases (too_old w.current_fn f.fn)) [
        | inl p ↦ rw (e, p) ok
        | inr p ↦ elim (Bool-cases (nonzero w.llc_len && not (bsn_is_next w.llc_last_bsn bsn))) [
          | inl q ↦ rw (e, p, q) ok
          | inr q ↦ elim (Bool-cases (f.n_blocks == 0)) [
            | inl r ↦
                rw (e, p, q, r) (whole_block-TbfOk ul bsn f (record w { current_fn = f.fn }) ok)
            | inr r ↦
                rw (e, p, q, r)
                  (several_blocks-TbfOk ul bsn f (record w { current_fn = f.fn }) below ok)
          ]
        ]
      ]
    ]

walk_window-TbfOk :
    (left : ℕ) (ul : Bool) (end bsn : ℕ) (w : Walk)
    → bsn < 128
    → TbfOk w.tbf
    → TbfOk (walk_window left ul end bsn w).tbf
unfolding walk_window
walk_window-TbfOk zero ul end bsn w below ok = ok
walk_window-TbfOk (suc left) ul end bsn w below ok = elim (Bool-cases (bsn == end)) [
  | inl e ↦ rw (walk_window, e) ok
  | inr e ↦
      rw (walk_window, e)
        (walk_window-TbfOk left ul end ((bsn + 1) % 128) (walk_block ul bsn w) (omega arith)
          (walk_block-TbfOk ul bsn w below ok))
]

shift_window-TbfOk : (t : Tbf) → TbfOk t → TbfOk (shift_window t)
unfolding shift_window
shift_window-TbfOk t ok = elim (Bool-cases (ltb 64 ((t.last_bsn - t.start_bsn) % 128))) [
  | inl e ↦ rw e (start_bsn-TbfOk _ t (omega arith) ok)
  | inr e ↦ rw e ok
]

find_start-below :
    (left : ℕ) (t : Tbf) (bsn found : ℕ)
    → bsn < 128
    → find_start left t bsn ≡ some found
    → found < 128
unfolding find_start
find_start-below zero t bsn found below e = ground (arith, e)
find_start-below (suc left) t bsn found below e =
    let next = (bsn + 1) % 128 in
    let rest : find_start left t next ≡ some found → found < 128 =
      find_start-below left t next found (omega arith) in
    elim (Bool-cases ((t.frags bsn).len == 0)) [
      | inl p ↦ elim (Bool-cases (next == t.start_bsn)) [
        | inl q ↦ ground (arith, e, p, q)
        | inr q ↦ rest (subst (λ o. o ≡ some found) (rw (p, q) refl) e)
      ]
      | inr p ↦ ground (arith, e, p, below)
    ]

pub process_blocks-TbfOk :
    (stack : Mem) (ul : Bool) (t : Tbf) → TbfOk t → TbfOk (process_blocks stack ul t).0
unfolding process_blocks
process_blocks-TbfOk stack ul t ok = elim (Option-cases (find_start 128 t t.start_bsn)) [
  | inl e ↦ rw (process_blocks, e) ok
  | inr (bsn, e) ↦
      let below = find_start-below 128 t t.start_bsn bsn ok.start e in
      rw (process_blocks, e)
        (shift_window-TbfOk _ (
          walk_window-TbfOk 128 ul ((t.last_bsn + 1) % 128) bsn _ below
            (start_bsn-TbfOk bsn t below ok)))
]
