-- ===== src/Assignment/Overrun.antt =====
-- gsm-parser/assignment.c: a mobile allocation that is too long for the array of a hopping channel.
use srlabs.Base.{ℕ, ◌+◌, ◌≤◌, ◌<◌, ◌≡◌, refl, arith, inl, inr, Bool, true, false, ◌&&◌}
use srlabs.Base.{
  Outcome, done, abort, undefined, ◌⊎◌, Returns, ◌>>=◌, ltb, Mem, Bool-cases, ltb→lt,
  count_up-invariant,
}
use srlabs.Assignment.{
  Walk, Element, add_arfcn, in_cell, allocation_bit, allocation_round, mobile_allocation,
}
use srlabs.Assignment.Laws.{
  number_of, number_of-suc, in_allocation, IsWalk, first_walk, first_walk-IsWalk,
  allocation_round-IsWalk,
}

chosen_at_limit :
    (p : ℕ → Bool) (i : ℕ)
    → number_of p i ≤ 64
    → 64 < number_of p (i + 1)
    → (p i ≡ true) × (number_of p i ≡ 64)
chosen_at_limit p i few many = let next = number_of-suc p i in ground (arith, next, few, many)

&&-true : (a b : Bool) → (a && b) ≡ true → (a ≡ true) × (b ≡ true)
&&-true true true h = (refl, refl)
&&-true true false h = ground arith
&&-true false b h = ground arith

-- Whether a walk has overrun the array, or has done what it shall.
abbrev IsWalkOrOverrun : Mem → ℕ → Element → ℕ → Outcome Walk → Type 0
IsWalkOrOverrun cell_arfcns mask ma i o =
    ((number_of (in_allocation cell_arfcns mask ma) i ≤ 64)
      × Returns (IsWalk cell_arfcns mask ma i) o)
    ⊎ ((64 < number_of (in_allocation cell_arfcns mask ma) i) × (o ≡ undefined))

allocation_round_overrun :
    (cell_arfcns : Mem) (mask : ℕ) (ma : Element) (i : ℕ) (w : Walk)
    → number_of (in_allocation cell_arfcns mask ma) i ≤ 64
    → 64 < number_of (in_allocation cell_arfcns mask ma) (i + 1)
    → IsWalk cell_arfcns mask ma i w
    → allocation_round cell_arfcns mask ma i w ≡ undefined
unfolding allocation_round in_allocation add_arfcn
allocation_round_overrun cell_arfcns mask ma i w few many h =
    let q = in_allocation cell_arfcns mask ma in
    let (set, here) = chosen_at_limit q i few many in
    let (in_cell_i, bit_i) = &&-true (in_cell cell_arfcns mask i) _ set in
    let bit_of : allocation_bit ma (w.j) ≡ true = rw (h.counted) bit_i in
    let full : ltb (w.chosen.ma_len) 64 ≡ false = ground (arith, h.chosen.all_of, here) in
    rw (in_cell_i, bit_of, full) refl

walk_or_overrun :
    (cell_arfcns : Mem) (mask : ℕ) (ma : Element) (i : ℕ) (o : Outcome Walk)
    → IsWalkOrOverrun cell_arfcns mask ma i o
    → IsWalkOrOverrun cell_arfcns mask ma (i + 1) (o >>= allocation_round cell_arfcns mask ma i)
walk_or_overrun cell_arfcns mask ma i (done w) (inl (few, h)) =
    let q = in_allocation cell_arfcns mask ma in
    elim (Bool-cases (ltb 64 (number_of q (i + 1)))) [
      | inl e ↦
          let many = ltb→lt 64 (number_of q (i + 1)) e in
          inr (many, allocation_round_overrun cell_arfcns mask ma i w few many h)
      | inr e ↦
          let still : number_of q (i + 1) ≤ 64 = ground (arith, e) in
          inl (still, allocation_round-IsWalk cell_arfcns mask ma i w still h)
    ]
walk_or_overrun cell_arfcns mask ma i undefined (inl (few, h)) = elim h [ ]
walk_or_overrun cell_arfcns mask ma i abort (inl (few, h)) = elim h [ ]
walk_or_overrun cell_arfcns mask ma i o (inr (many, over)) =
    let next = number_of-suc (in_allocation cell_arfcns mask ma) i in
    inr (omega (arith, many, next), rw over refl)

none_yet : (p : ℕ → Bool) → number_of p 0 ≤ 64
unfolding number_of
none_yet p = omega arith

-- A mobile allocation with more than 64 frequencies of the cell is written behind the array.
pub mobile_allocation_overrun :
    (cell_arfcns : Mem) (mask : ℕ) (ma : Element)
    → 64 < number_of (in_allocation cell_arfcns mask ma) 1024
    → mobile_allocation cell_arfcns mask ma ≡ undefined
unfolding mobile_allocation
mobile_allocation_overrun cell_arfcns mask ma many =
    let q = in_allocation cell_arfcns mask ma in
    let start : IsWalkOrOverrun cell_arfcns mask ma 0 (done first_walk) =
      inl (none_yet q, first_walk-IsWalk cell_arfcns mask ma) in
    let end =
      count_up-invariant (IsWalkOrOverrun cell_arfcns mask ma) _ 1024
        (λ i o below h. walk_or_overrun cell_arfcns mask ma i o h) _ start in
    elim end [ inl (few, h) ↦ absurd (omega (arith, few, many)) | inr (h, over) ↦ rw over refl ]
