-- ===== src/Assignment/Tests.antt =====
-- gsm-parser: assignments at commands, and the theorems on allocations at cells.
use srlabs.Base.{◌+◌, ◌≡◌, refl, arith, true, some, none, [], ◌∷◌, leb, ltb, num}
use srlabs.Base.{
  done, undefined, Returns, ltb→lt, if◌then◌else◌, ◌==◌, Mem, mem_of, bytes, count_up,
}
use srlabs.Assignment.{
  Element, Elements, h0, h1, in_cell, mobile_allocation, parse_assignment, hopping_list,
  parse_payload, frequencies, channel_of, add_arfcn, allocation_bit, allocation_round,
}
use srlabs.Assignment.Laws.{number_of, in_allocation, IsChoice, mobile_allocation-IsChoice}
use srlabs.Assignment.Overrun.{mobile_allocation_overrun}

-- A cell with the frequencies 0, 3, 8 and 100.
abbrev four_frequencies : Mem
four_frequencies n = num (n == 0) + num (n == 3) + num (n == 8) + num (n == 100)

abbrev allocation : Element
allocation = record { val = mem_of (0x0d ∷ []); len = 1; before = mem_of [] }

-- The first, the third and the last of them.
first_third_last :
    (elim (mobile_allocation four_frequencies 1 allocation) [
      | done s ↦ s.ma_len ∷ bytes (s.ma) 3
      | _ ↦ []
    ])
    ≡ 3 ∷ 3 ∷ 100 ∷ 0 ∷ []
unfolding mobile_allocation allocation_round allocation_bit in_cell add_arfcn count_up
first_third_last = refl

few_frequencies : leb (number_of (in_allocation four_frequencies 1 allocation) 1024) 64 ≡ true
unfolding number_of in_allocation in_cell allocation_bit
few_frequencies = refl

mobile_allocation-IsChoice_example :
    Returns
      (IsChoice (in_allocation four_frequencies 1 allocation) 1024)
      (mobile_allocation four_frequencies 1 allocation)
mobile_allocation-IsChoice_example =
    mobile_allocation-IsChoice four_frequencies 1 allocation (ground (arith, few_frequencies))

-- A cell with the frequencies 1 to 66, all of which are allocated.
abbrev many_frequencies : Mem
many_frequencies n = if ltb n 67 then 1 else 0

abbrev full_allocation : Element
full_allocation = record { val = λ i. 0xff; len = 9; before = mem_of [] }

too_many : ltb 64 (number_of (in_allocation many_frequencies 1 full_allocation) 1024) ≡ true
unfolding number_of in_allocation in_cell allocation_bit
too_many = refl

mobile_allocation_overrun_example : mobile_allocation many_frequencies 1 full_allocation ≡ undefined
mobile_allocation_overrun_example =
    mobile_allocation_overrun many_frequencies 1 full_allocation (ltb→lt _ _ too_many)

-- An assignment command of a hopping channel on timeslot 2 with HSN 5 and MAIO 6.
abbrev elements : Elements
elements = record {
  cell_ch_desc = none;
  ma_after = some allocation;
  freq_l_after = none;
  chanmode_1 = some (record { val = mem_of (0x21 ∷ []); len = 1; before = mem_of [] });
  mul_rate_cfg = none;
}

assignment_command :
    (elim (parse_assignment
      (λ f v n m t. f)
      (λ d n. elements)
      0x2e
      (mem_of (0x0a ∷ 0x71 ∷ 0x85 ∷ 3 ∷ []))
      14
      four_frequencies) [
        | done (ga, f) ↦
            ga.chan_nr
            ∷ ga.tsc
            ∷ ga.chan_mode
            ∷ (elim (ga.channel) [ h1 maio hsn s ↦ maio ∷ hsn ∷ s.ma_len ∷ [] | h0 arfcn ↦ [] ])
        | _ ↦ []
      ])
    ≡ 0x0a ∷ 3 ∷ 0x21 ∷ 6 ∷ 5 ∷ 3 ∷ []
unfolding parse_assignment parse_payload frequencies channel_of hopping_list mobile_allocation
    allocation_round allocation_bit in_cell add_arfcn count_up
assignment_command = refl
