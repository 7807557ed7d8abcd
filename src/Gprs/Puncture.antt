-- ===== src/Gprs/Puncture.antt =====
-- gsm-parser/punct.c: which bits of the convolutional code are sent in CS-2 and CS-3, and the soft
-- bits that the others are taken for.
use srlabs.Base.{
  ℕ, ◌+◌, ◌-◌, ◌*◌, ◌%◌, Bool, ◌&&◌, ltb, leb, ◌==◌, if◌then◌else◌, nonzero, Mem, store, memset,
  count_up,
}

-- The locals of the loops.
pub record Scan : Type 0 where
  pub j : ℕ
  pub k : ℕ
  pub pattern : Mem

abbrev pub keep_bit : ℕ → Scan → Scan
keep_bit i s = record s { k = s.k + 1; pattern = store s.pattern s.k i }

-- The cases of the switch: 9, 21 and so on to 141.
pub is_skipped : ℕ → Bool
is_skipped j = j % 12 == 9 && leb j 141

unfoldable pub fill_punct_cs2 : Mem → Mem
fill_punct_cs2 pattern =
    let round : ℕ → Scan → Scan = λ i s.
      let next = s.j + 1 in
      if ltb s.j 147
      then (if i == 4 * s.j + 3
          then record s { j = if is_skipped next then next + 1 else next }
          else keep_bit i s)
      else s in
    (count_up 588 round (record { j = 3; k = 0; pattern = pattern })).pattern

-- The first loop ends behind bit 6 * 111 + 5, where `j` becomes 112, and the second one goes on
-- from there.
unfoldable pub fill_punct_cs3 : Mem → Mem
fill_punct_cs3 pattern =
    let round : ℕ → Scan → Scan = λ i s.
      if i == 6 * s.j + 3
      then s
      else if i == 6 * s.j + 5
      then record s { j = s.j + 1 }
      else keep_bit i s in
    let scanned = count_up 672 round (record { j = 2; k = 0; pattern = pattern }) in
    (count_up (456 - scanned.k) (λ n s. keep_bit (672 + n) s) scanned).pattern

unfoldable pub depunct : Mem → Mem → ℕ → Mem → Mem
depunct in_ out size pattern =
    count_up 456 (λ i o. store o (pattern i) (if nonzero (in_ i) then 129 else 127))
      (memset out 0 0 size)
