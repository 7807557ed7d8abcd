-- ===== src/Coding/Viterbi/Scan.antt =====
-- gsm-parser/viterbi.c: what a round of the scan leaves in the column that it computes.
use srlabs.Base.{ℕ, ◌+◌, ◌*◌, ◌<◌, ◌≤◌, ◌≡◌, ◌≢◌, refl, arith, ◌⊎◌, inl, inr}
use srlabs.Base.{
  true, false, ◌&&◌, ltb, ◌==◌, if◌then◌else◌, Bool-cases, subst, count_up-invariant, fill,
}
use srlabs.Base.{Mem, store, count_up}
use srlabs.Coding.Viterbi.{Trellis, max_ae, conv_cch_next_state, path_cost, try_path, scan_column}

module _ (old : Mem) (column : ℕ) (cost : ℕ → ℕ → ℕ) (before : Trellis) where
  -- State `t` is reached from state `s` with bit `b`, at the cost that it has.
  unfoldable pub ReachedFrom : Trellis → ℕ → ℕ → ℕ → Type 0
  ReachedFrom u t s b =
      (s < 16)
      × (b < 2)
      × (conv_cch_next_state s b ≡ t)
      × (u.errors t ≡ old s + cost s b)
      × (u.history t column ≡ s)

  -- After the first `k` of the paths, numbered by `2 s + b`: no path that was tried is cheaper than
  -- what is stored, what is stored comes from a path, and the other columns are as before.
  pub record Scanned (k : ℕ) (u : Trellis) : Type 0 where
    pub least :
        (s b : ℕ)
        → s < 16
        → b < 2
        → 2 * s + b < k
        → u.errors (conv_cch_next_state s b) ≤ old s + cost s b
    pub reached :
        (t : ℕ) → t < 16 → (u.errors t ≡ max_ae) ⊎ ((s : ℕ) × (b : ℕ) × ReachedFrom u t s b)
    pub frame : (r c : ℕ) → c ≢ column → u.history r c ≡ before.history r c

  -- A path that was tried is one of the earlier ones, or the last.
  Path-cases :
      (s b s' b' : ℕ)
      → b < 2
      → b' < 2
      → 2 * s' + b' < 2 * s + b + 1
      → (2 * s' + b' < 2 * s + b) ⊎ ((s' ≡ s) × (b' ≡ b))
  Path-cases s b s' b' hb hb' below = elim (Bool-cases (ltb (2 * s' + b') (2 * s + b))) [
    | inl e ↦ inl (ground (arith, e))
    | inr e ↦
        let same : 2 * s' + b' ≡ 2 * s + b = ground (arith, e, below) in
        inr (omega (arith, same, hb, hb'), omega (arith, same, hb, hb'))
  ]

  module _ (s b : ℕ) (u : Trellis) (hs : s < 16) (hb : b < 2) (h : Scanned (2 * s + b) u) where
    abbrev nae : ℕ
    nae = old s + cost s b

    abbrev state : ℕ
    state = conv_cch_next_state s b

    kept-Scanned : ltb nae (u.errors state) ≡ false → Scanned (2 * s + b + 1) u
    kept-Scanned e = record {
      least = λ s' b' hs' hb' below. elim (Path-cases s b s' b' hb hb' below) [
        | inl earlier ↦ h.least s' b' hs' hb' earlier
        | inr (es, eb) ↦ rw (es, eb) (ground (arith, e))
      ];
      reached = h.reached;
      frame = h.frame;
    }

    abbrev taken : Trellis
    taken = record {
      errors = store u.errors state nae;
      history = λ r c. if r == state && c == column then s else u.history r c;
    }

    taken-least :
        ltb nae (u.errors state) ≡ true
        → (s' b' : ℕ) → s' < 16
        → b' < 2
        → 2 * s' + b' < 2 * s + b + 1
        → taken.errors (conv_cch_next_state s' b') ≤ old s' + cost s' b'
    taken-least e s' b' hs' hb' below = elim (Path-cases s b s' b' hb hb' below) [
      | inl earlier ↦
          let l = h.least s' b' hs' hb' earlier in
          elim (Bool-cases (conv_cch_next_state s' b' == state)) [
            | inl here ↦
                let same : conv_cch_next_state s' b' ≡ state = ground (arith, here) in
                let l' : u.errors state ≤ old s' + cost s' b' =
                  subst (λ n. u.errors n ≤ old s' + cost s' b') same l in
                rw here (ground (arith, e, l'))
            | inr other ↦ rw other l
          ]
      | inr (es, eb) ↦ rw (es, eb) (ground arith)
    ]

    taken-reached :
        (t : ℕ) → t < 16 → (taken.errors t ≡ max_ae) ⊎ ((s : ℕ) × (b : ℕ) × ReachedFrom taken t s b)
    unfolding ReachedFrom
    taken-reached t ht = elim (Bool-cases (t == state)) [
      | inl e ↦
          let same : state ≡ t = ground (arith, e) in
          inr (s, b, (hs, hb, same, rw e refl, ground (arith, e)))
      | inr e ↦ elim (h.reached t ht) [
        | inl none_yet ↦ inl (rw e none_yet)
        | inr (s', b', (hs', hb', next, errors, from)) ↦
            inr (s', b', (hs', hb', next, rw e errors, rw e from))
      ]
    ]

    taken-Scanned : ltb nae (u.errors state) ≡ true → Scanned (2 * s + b + 1) taken
    taken-Scanned e = record {
      least = taken-least e;
      reached = taken-reached;
      frame = λ r c apart.
          let other : (c == column) ≡ false = ground (arith, apart) in
          let f = h.frame r c apart in ground (arith, other, f);
    }

    pub try_path-Scanned : Scanned (2 * s + b + 1) (try_path old column cost s b u)
    unfolding try_path
    try_path-Scanned = elim (Bool-cases (ltb nae (u.errors state))) [
      | inl e ↦ rw e (taken-Scanned e)
      | inr e ↦ rw e (kept-Scanned e)
    ]

  pub scan_states : Trellis → Trellis
  scan_states u = count_up 16 (λ s v. count_up 2 (try_path old column cost s) v) u

  pub scan_states-Scanned : (u : Trellis) → Scanned 0 u → Scanned 32 (scan_states u)
  unfolding scan_states
  scan_states-Scanned u start =
      count_up-invariant (λ s v. Scanned (2 * s) v)
        (λ s v. count_up 2 (try_path old column cost s) v) 16
        (λ s v hs h.
          let inner =
            count_up-invariant (λ b w. Scanned (2 * s + b) w) (try_path old column cost s) 2
              (λ b w hb g.
                subst (λ k. Scanned k (try_path old column cost s b w)) (omega arith)
                  (try_path-Scanned s b w hs hb g))
              v (subst (λ k. Scanned k v) (omega arith) h) in
          subst (λ k. Scanned k (count_up 2 (try_path old column cost s) v)) (omega arith) inner)
        u start

-- A round of the scan, for the two soft bits that it reads.
pub scan_column-Scanned :
    (input : Mem) (i : ℕ) (t : Trellis)
    → Scanned t.errors
        (i + 1)
        (path_cost (input (2 * i)) (input (2 * i + 1)))
        t
        32
        (scan_column input i t)
unfolding scan_column scan_states
scan_column-Scanned input i t =
    let cost = path_cost (input (2 * i)) (input (2 * i + 1)) in
    let reset : Trellis = record t { errors = count_up 16 (λ s e. store e s max_ae) t.errors } in
    scan_states-Scanned t.errors (i + 1) cost t reset (record {
      least = λ s b hs hb below. absurd (omega (arith, below));
      reached = λ r hr. inl (rw (fill (λ _. max_ae) t.errors 16 r) (ground (arith, hr)));
      frame = λ r c apart. refl;
    })
