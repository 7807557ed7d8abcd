-- ===== src/Assignment/Laws.antt =====
-- gsm-parser/assignment.c: which frequencies a hopping channel gets, and in which order.
use srlabs.Base.{
  ℕ, zero, suc, ◌+◌, ◌-◌, ◌%◌, ◌≤◌, ◌<◌, ◌≡◌, refl, subst, arith, inl, inr, Bool, true, false, ◌&&◌,
}
use srlabs.Base.{
  done, Returns, Returns-bind, ltb, if◌then◌else◌, num, Mem, Bool-cases, ltb→lt, ◌==◌,
  count_up-invariant,
}
use srlabs.Assignment.{
  no_hopping, Hopping, Walk, Element, add_arfcn, in_cell, cell_allocation, allocation_bit,
  allocation_round, mobile_allocation,
}

-- How many numbers below `n` satisfy `p`.
unfoldable pub number_of : (ℕ → Bool) → ℕ → ℕ
number_of p zero = 0
number_of p (suc n) = number_of p n + num (p n)

pub number_of-suc : (p : ℕ → Bool) (n : ℕ) → number_of p (n + 1) ≡ number_of p n + num (p n)
unfolding number_of
number_of-suc p n = let e : n + 1 ≡ suc n = omega arith in rw e refl

number_of_less : (p : ℕ → Bool) (n m : ℕ) → n < m → p n ≡ true → number_of p n < number_of p m
unfolding number_of
number_of_less p n zero below set = absurd (omega (arith, below))
number_of_less p n (suc last) below set = elim (Bool-cases (ltb n last)) [
  | inl e ↦ let rest = number_of_less p n last (ground (arith, e)) set in omega (arith, rest)
  | inr e ↦
      let same : n ≡ last = ground (arith, e, below) in
      let here : p last ≡ true = subst (λ k. p k ≡ true) same set in rw (same, here) (omega arith)
]

number_of_mono : (p : ℕ → Bool) (n k : ℕ) → number_of p n ≤ number_of p (k + n)
unfolding number_of
number_of_mono p n zero = let e : 0 + n ≡ n = omega arith in rw e (omega arith)
number_of_mono p n (suc k) =
    let rest = number_of_mono p n k in
    let e : suc k + n ≡ suc (k + n) = omega arith in rw e (omega (arith, rest))

-- The frequencies are those that `p` chooses below `bound`, in the order of their numbers, which
-- are 1, 2 and so on up to 1023, and 0 at the end.
pub record IsChoice (p : ℕ → Bool) (bound : ℕ) (s : Hopping) : Type 0 where
  pub all_of : s.ma_len ≡ number_of p bound
  pub in_order : (n : ℕ) → n < bound → p n ≡ true → s.ma (number_of p n) ≡ (n + 1) % 1024

add_arfcn-IsChoice :
    (p : ℕ → Bool) (i : ℕ) (s : Hopping)
    → p i ≡ true
    → number_of p (i + 1) ≤ 64
    → IsChoice p i s
    → Returns (IsChoice p (i + 1)) (add_arfcn ((i + 1) % 1024) s)
unfolding add_arfcn
add_arfcn-IsChoice p i s set few h =
    let next = number_of-suc p i in
    let len : s.ma_len ≡ number_of p i = h.all_of in
    let room : ltb (s.ma_len) 64 ≡ true = ground (arith, few, next, len, set) in
    rw room (record {
      all_of = rw (next, set) (omega (arith, len));
      in_order = λ n below chosen. elim (Bool-cases (ltb n i)) [
        | inl e ↦
            let less = number_of_less p n i (ltb→lt n i e) chosen in
            let other : (number_of p n == s.ma_len) ≡ false = ground (arith, less, len) in
            rw other (h.in_order n (ltb→lt n i e) chosen)
        | inr e ↦
            let same : n ≡ i = ground (arith, e, below) in
            let here : (number_of p i == s.ma_len) ≡ true = ground (arith, len) in
            rw (same, here) refl
      ];
    })

skip-IsChoice :
    (p : ℕ → Bool) (i : ℕ) (s : Hopping) → p i ≡ false → IsChoice p i s → IsChoice p (i + 1) s
skip-IsChoice p i s unset h = record {
  all_of = rw (number_of-suc p i, unset) (omega (arith, h.all_of));
  in_order = λ n below chosen. elim (Bool-cases (ltb n i)) [
    | inl e ↦ h.in_order n (ltb→lt n i e) chosen
    | inr e ↦
        let same : n ≡ i = ground (arith, e, below) in
        let clash : p i ≡ true = subst (λ k. p k ≡ true) same chosen in
        absurd (ground (arith, clash, unset))
  ];
}

choose-IsChoice :
    (p : ℕ → Bool) (i : ℕ) (chosen : Bool) (s : Hopping)
    → p i ≡ chosen
    → number_of p (i + 1) ≤ 64
    → IsChoice p i s
    → Returns (IsChoice p (i + 1)) (if chosen then add_arfcn ((i + 1) % 1024) s else done s)
choose-IsChoice p i true s e few h = add_arfcn-IsChoice p i s e few h
choose-IsChoice p i false s e few h = skip-IsChoice p i s e h

no_hopping-IsChoice : (p : ℕ → Bool) → IsChoice p 0 no_hopping
unfolding number_of
no_hopping-IsChoice p = record {
  all_of = refl;
  in_order = λ n below chosen. absurd (omega (arith, below));
}

few_below : (p : ℕ → Bool) (i : ℕ) → i < 1024 → number_of p 1024 ≤ 64 → number_of p (i + 1) ≤ 64
few_below p i below few =
    let more = number_of_mono p (i + 1) (1023 - i) in
    let e : 1023 - i + (i + 1) ≡ 1024 = omega (arith, below) in
    let most = subst (λ k. number_of p (i + 1) ≤ number_of p k) e more in omega (arith, most, few)

-- Without a mobile allocation a channel hops over all the frequencies of the cell, at most 64, in
-- the order of their numbers.
pub cell_allocation-IsChoice :
    (cell_arfcns : Mem) (mask : ℕ)
    → number_of (in_cell cell_arfcns mask) 1024 ≤ 64
    → Returns (IsChoice (in_cell cell_arfcns mask) 1024) (cell_allocation cell_arfcns mask)
unfolding cell_allocation
cell_allocation-IsChoice cell_arfcns mask few =
    let p = in_cell cell_arfcns mask in
    count_up-invariant (λ i o. Returns (IsChoice p i) o) _ 1024
      (λ i o below h.
        Returns-bind (IsChoice p i) (IsChoice p (i + 1)) o _ h
          λ s hs. choose-IsChoice p i (p i) s refl (few_below p i below few) hs)
      (done no_hopping) (no_hopping-IsChoice p)

-- The frequencies of a mobile allocation: those of the cell whose bit, by their place among the
-- frequencies of the cell, is set.
unfoldable pub in_allocation : Mem → ℕ → Element → ℕ → Bool
in_allocation cell_arfcns mask ma n =
    in_cell cell_arfcns mask n && allocation_bit ma (number_of (in_cell cell_arfcns mask) n)

pub record IsWalk (cell_arfcns : Mem) (mask : ℕ) (ma : Element) (i : ℕ) (w : Walk) : Type 0 where
  pub counted : w.j ≡ number_of (in_cell cell_arfcns mask) i
  pub chosen : IsChoice (in_allocation cell_arfcns mask ma) i (w.chosen)

abbrev pub first_walk : Walk
first_walk = record { j = 0; chosen = no_hopping }

pub first_walk-IsWalk :
    (cell_arfcns : Mem) (mask : ℕ) (ma : Element) → IsWalk cell_arfcns mask ma 0 first_walk
unfolding number_of
first_walk-IsWalk cell_arfcns mask ma = record {
  counted = refl;
  chosen = no_hopping-IsChoice (in_allocation cell_arfcns mask ma);
}

pub allocation_round-IsWalk :
    (cell_arfcns : Mem) (mask : ℕ) (ma : Element) (i : ℕ) (w : Walk)
    → number_of (in_allocation cell_arfcns mask ma) (i + 1) ≤ 64
    → IsWalk cell_arfcns mask ma i w
    → Returns (IsWalk cell_arfcns mask ma (i + 1)) (allocation_round cell_arfcns mask ma i w)
unfolding allocation_round in_allocation
allocation_round-IsWalk cell_arfcns mask ma i w few h =
    let p = in_cell cell_arfcns mask in
    let q = in_allocation cell_arfcns mask ma in
    elim (Bool-cases (p i)) [
      | inl e ↦
          let counted : w.j + 1 ≡ number_of p (i + 1) =
            rw (number_of-suc p i, e) (omega (arith, h.counted)) in
          let bit_of : q i ≡ allocation_bit ma (w.j) = rw (e, h.counted) refl in
          rw e (
            Returns-bind (IsChoice q (i + 1)) (IsWalk cell_arfcns mask ma (i + 1)) _ _
              (choose-IsChoice q i (allocation_bit ma (w.j)) (w.chosen) bit_of few (h.chosen))
              λ s hs. record { counted = counted; chosen = hs })
      | inr e ↦
          let unset : q i ≡ false = rw e refl in
          rw e (record {
            counted = rw (number_of-suc p i, e) (omega (arith, h.counted));
            chosen = skip-IsChoice q i (w.chosen) unset (h.chosen);
          })
    ]

-- With a mobile allocation a channel hops over those frequencies of the cell, at most 64, whose bit
-- of the allocation is set, in the order of their numbers.
pub mobile_allocation-IsChoice :
    (cell_arfcns : Mem) (mask : ℕ) (ma : Element)
    → number_of (in_allocation cell_arfcns mask ma) 1024 ≤ 64
    → Returns
        (IsChoice (in_allocation cell_arfcns mask ma) 1024)
        (mobile_allocation cell_arfcns mask ma)
unfolding mobile_allocation
mobile_allocation-IsChoice cell_arfcns mask ma few =
    let q = in_allocation cell_arfcns mask ma in
    let P = IsWalk cell_arfcns mask ma in
    Returns-bind (P 1024) (IsChoice q 1024) _ _
      (count_up-invariant (λ i o. Returns (P i) o) _ 1024
        (λ i o below h.
          Returns-bind (P i) (P (i + 1)) o _ h
            λ w hw. allocation_round-IsWalk cell_arfcns mask ma i w (few_below q i below few) hw)
        (done first_walk) (first_walk-IsWalk cell_arfcns mask ma))
      λ w hw. hw.chosen
