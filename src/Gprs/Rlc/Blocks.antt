-- ===== src/Gprs/Rlc/Blocks.antt =====
-- gsm-parser/rlcmac.c: an LLC frame that takes up several whole blocks is put together from them.
use srlabs.Base.{
  ℕ, zero, suc, ◌+◌, ◌-◌, ◌%◌, ◌^◌, ◌<◌, ◌≤◌, ◌≡◌, ◌≢◌, refl, arith, subst, sym, ap, ◌∙◌,
}
use srlabs.Base.{
  Bool, true, false, not, ◌&&◌, some, ◌==◌, nonzero, u32, Mem, memcpy, bytes, bytes-memcpy, List,
  [], ◌∷◌, ◌++◌,
}
use srlabs.Gprs.Rlc.{
  Frag, Tbf, Walk, llc, find_start, whole_block, walk_block, walk_window, shift_window,
  process_blocks, too_old, bsn_is_next, reset_frags,
}

-- The block number `i` places behind `s`.
abbrev pub place : ℕ → ℕ → ℕ
place s i = (s + i) % 128

-- The data of the first `n` blocks, one after the other.
pub joined : Tbf → ℕ → ℕ → List ℕ
joined t s zero = []
joined t s (suc n) = let f = t.frags (place s n) in joined t s n ++ bytes f.data_ f.len

-- Blocks from `start_bsn` to `last_bsn`, `k` places on, each of them one part of a frame: they hold
-- data, the last one alone ends the TBF, and each is not too old after the one before.
pub record IsRun (t : Tbf) (k : ℕ) : Type 0 where
  pub start : t.start_bsn < 128
  pub short : k ≤ 126
  pub last_bsn : t.last_bsn ≡ place t.start_bsn k
  pub filled : (i : ℕ) → i ≤ k → 1 ≤ (t.frags (place t.start_bsn i)).len
  pub whole : (i : ℕ) → i ≤ k → (t.frags (place t.start_bsn i)).n_blocks ≡ 0
  pub goes_on : (i : ℕ) → i < k → (t.frags (place t.start_bsn i)).last ≡ false
  pub ends : (t.frags (place t.start_bsn k)).last ≡ true
  pub in_time :
      (i : ℕ)
      → i < k
      → too_old (t.frags (place t.start_bsn i)).fn (t.frags (place t.start_bsn (i + 1))).fn ≡ false
  pub fn : (t.frags t.start_bsn).fn < 2 ^ 32

same_time : (fn : ℕ) → fn < 2 ^ 32 → too_old fn fn ≡ false
unfolding too_old
same_time fn below = let delta : u32 (fn + 2 ^ 32 - fn) ≡ 0 = omega arith in rw delta refl

module _ (ul : Bool) (t : Tbf) (k : ℕ) (run : IsRun t k) where
  abbrev s : ℕ
  s = t.start_bsn

  abbrev frag : ℕ → Frag
  frag i = t.frags (place s i)

  -- The time before block `i`: that of the block before, or its own at the first.
  time : ℕ → ℕ
  time zero = (frag 0).fn
  time (suc i) = (frag i).fn

  -- In front of block `i`.
  record At (i : ℕ) (w : Walk) : Type 0 where
    frags : w.tbf.frags ≡ t.frags
    last_bsn : w.tbf.last_bsn ≡ t.last_bsn
    current : w.current_fn ≡ time i
    data_ : bytes w.llc_data w.llc_len ≡ joined t s i
    any : (1 ≤ i) → bsn_is_next w.llc_last_bsn (place s i) ≡ true
    empty : (i ≡ 0) → w.llc_len ≡ 0
    sent : w.sent ≡ []

  -- Behind the last block.
  record Done (w : Walk) : Type 0 where
    tbf : w.tbf ≡ record (reset_frags t) { start_bsn = 0 }
    sent : w.sent ≡ llc (joined t s (suc k)) ul ∷ []

  time-fresh : (i : ℕ) → i ≤ k → too_old (time i) (frag i).fn ≡ false
  unfolding time
  time-fresh zero few =
      let first : place s 0 ≡ s = let b = run.start in omega (arith, b) in
      same_time (frag 0).fn (subst (λ p. (t.frags p).fn < 2 ^ 32) (sym first) run.fn)
  time-fresh (suc i) few =
      let next : i + 1 ≡ suc i = omega arith in
      subst (λ j. too_old (frag i).fn (frag j).fn ≡ false) next (run.in_time i (omega (arith, few)))

  time_next : (i : ℕ) → (frag i).fn ≡ time (i + 1)
  unfolding time
  time_next i = let next : i + 1 ≡ suc i = omega arith in rw next refl

  -- The block follows the one before, where there is one.
  follows :
      (i : ℕ) (w : Walk)
      → At i w
      → (nonzero w.llc_len && not (bsn_is_next w.llc_last_bsn (place s i))) ≡ false
  follows zero w at = let none_yet = at.empty refl in ground (arith, none_yet)
  follows (suc i) w at = let next = at.any (omega arith) in ground (arith, next)

  -- What a block that goes on, or ends the frame, is appended to.
  walk_block-At :
      (i : ℕ) (w : Walk)
      → i ≤ k
      → At i w
      → walk_block ul (place s i) w
        ≡ whole_block ul (place s i) (frag i) (record w { current_fn = (frag i).fn })
  unfolding walk_block
  walk_block-At i w few at =
      let same : w.tbf.frags (place s i) ≡ frag i = ap (λ g. g (place s i)) at.frags in
      let held : ((frag i).len == 0) ≡ false = let f = run.filled i few in ground (arith, f) in
      let fresh : too_old w.current_fn (frag i).fn ≡ false = rw at.current (time-fresh i few) in
      let alone : ((frag i).n_blocks == 0) ≡ true = let n = run.whole i few in ground (arith, n) in
      rw (same, held, fresh, follows i w at, alone) refl

  block_bytes :
      (i : ℕ) (w : Walk)
      → At i w
      → bytes (memcpy w.llc_data w.llc_len (frag i).data_ (frag i).len) (w.llc_len + (frag i).len)
        ≡ joined t s (suc i)
  unfolding joined
  block_bytes i w at =
      bytes-memcpy w.llc_data (frag i).data_ w.llc_len (frag i).len
      ∙ ap (λ l. l ++ bytes (frag i).data_ (frag i).len) at.data_

  walk_block-goes_on :
      (i : ℕ) (w : Walk) → i < k → At i w → At (i + 1) (walk_block ul (place s i) w)
  unfolding whole_block bsn_is_next
  walk_block-goes_on i w few at =
      rw (walk_block-At i w (omega (arith, few)) at, run.goes_on i few)
        (record {
          frags = at.frags;
          last_bsn = at.last_bsn;
          current = time_next i;
          data_ = block_bytes i w at ∙ ap (λ n. joined t s n) (omega arith);
          any = λ _. ground arith;
          empty = λ first. absurd (omega (arith, first));
          sent = at.sent;
        })

  walk_block-ends : (w : Walk) → At k w → Done (walk_block ul (place s k) w)
  unfolding whole_block
  walk_block-ends w at =
      rw (walk_block-At k w (omega arith) at, run.ends)
        (record {
          tbf = rw (at.frags, at.last_bsn) refl;
          sent = rw (at.sent, block_bytes k w at) refl;
        })

  abbrev end : ℕ
  end = (t.last_bsn + 1) % 128

  not_end : (i : ℕ) → i ≤ k → (place s i == end) ≡ false
  not_end i few =
      let most = run.short in
      let last = run.last_bsn in
      let apart : place s i ≢ end = λ p. omega (arith, p, most, last, few) in ground (arith, apart)

  walk_window-end : (left : ℕ) (w : Walk) → walk_window left ul end end w ≡ w
  unfolding walk_window
  walk_window-end zero w = refl
  walk_window-end (suc left) w =
      let here : (end == end) ≡ true = ground arith in rw (walk_window, here) refl

  start-At :
      (stack : Mem)
      → At 0 (record {
        tbf = record t { start_bsn = t.start_bsn };
        current_fn = (t.frags t.start_bsn).fn;
        llc_data = stack;
        llc_len = 0;
        llc_last_bsn = 0;
        skip = false;
        sent = [];
      })
  unfolding time joined
  start-At stack =
      let first : place s 0 ≡ s = let b = run.start in omega (arith, b) in
      record {
        frags = refl;
        last_bsn = refl;
        current = ap (λ p. (t.frags p).fn) (sym first);
        data_ = refl;
        any = λ one. absurd (omega (arith, one));
        empty = λ _. refl;
        sent = refl;
      }

  walk_last : (left : ℕ) (w : Walk) → At k w → Done (walk_window (suc left) ul end (place s k) w)
  unfolding walk_window
  walk_last left w at =
      let back : (place s k + 1) % 128 ≡ end = ap (λ p. (p + 1) % 128) (sym run.last_bsn) in
      rw
        (
          walk_window,
          not_end k (omega arith),
          back,
          walk_window-end left (walk_block ul (place s k) w),
        )
        (walk_block-ends w at)

  walk_window-Done :
      (n left i : ℕ) (w : Walk)
      → i + n ≡ k
      → n + 1 ≤ left
      → At i w
      → Done (walk_window left ul end (place s i) w)
  unfolding walk_window
  walk_window-Done n zero i w count enough at = absurd (omega (arith, enough))
  walk_window-Done zero (suc left) i w count enough at =
      let last : i ≡ k = omega (arith, count) in
      subst (λ j. At j w → Done (walk_window (suc left) ul end (place s j) w)) (sym last)
        (walk_last left w) at
  walk_window-Done (suc n) (suc left) i w count enough at =
      let less : i < k = omega (arith, count) in
      let next : (place s i + 1) % 128 ≡ place s (i + 1) = omega arith in
      rw (walk_window, not_end i (omega (arith, less)), next)
        (walk_window-Done n left (i + 1) (walk_block ul (place s i) w) (omega (arith, count))
          (omega (arith, enough)) (walk_block-goes_on i w less at))

  run_start : (stack : Mem) → find_start 128 t s ≡ some s
  unfolding find_start
  run_start stack =
      let first : place s 0 ≡ s = let b = run.start in omega (arith, b) in
      let held : ((t.frags s).len == 0) ≡ false =
        let f = subst (λ p. 1 ≤ (t.frags p).len) first (run.filled 0 (omega arith)) in
        ground (arith, f) in
      rw held refl

-- A run of blocks that are each one part of a frame, the last of which ends the TBF, makes one LLC
-- frame, of the data of all of them in order; nothing else is sent, the descriptors are empty
-- afterwards, and the window starts anew.
pub process_blocks-joined :
    (stack : Mem) (ul : Bool) (t : Tbf) (k : ℕ)
    → IsRun t k
    → process_blocks stack ul t ≡ (
      shift_window (record (reset_frags t) { start_bsn = 0 }),
      llc (joined t t.start_bsn (suc k)) ul ∷ [],
    )
unfolding process_blocks
process_blocks-joined stack ul t k run =
    let start : Walk = record {
      tbf = record t { start_bsn = t.start_bsn };
      current_fn = (t.frags t.start_bsn).fn;
      llc_data = stack;
      llc_len = 0;
      llc_last_bsn = 0;
      skip = false;
      sent = [];
    } in
    let first : place t.start_bsn 0 ≡ t.start_bsn = let b = run.start in omega (arith, b) in
    let at : At ul t k run 0 start = start-At ul t k run stack in
    let most = run.short in
    let finished : Done ul t k run (walk_window 128 ul ((t.last_bsn + 1) % 128) t.start_bsn start) =
      subst (λ p. Done ul t k run (walk_window 128 ul ((t.last_bsn + 1) % 128) p start)) first
        (walk_window-Done ul t k run k 128 0 start (omega arith) (omega (arith, most)) at) in
    rw (process_blocks, run_start ul t k run stack, finished.tbf, finished.sent) refl
