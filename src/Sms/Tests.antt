-- ===== src/Sms/Tests.antt =====
-- gsm-parser/sms.c: the theorem on user data headers at one, and a header that is read for ever.
use srlabs.Base.{
  ℕ, zero, suc, ◌+◌, ◌≡◌, ◌∙◌, refl, arith, List, [], ◌∷◌, none, some, Mem, mem_of, if◌then◌else◌,
  ltb, ◌==◌, false,
}
use srlabs.Sms.Meta.{SmsMeta, zero_sms}
use srlabs.Sms.Udh.{handle_udh, elements, element}
use srlabs.Sms.Udh.Payload.{IsCounted}
use srlabs.Sms.Udh.Laws.{handle_udh-returns}

abbrev no_text : Mem → ℕ → List ℕ × ℕ
no_text p n = ([], 0)

-- Fragment 1 of 2, and three bytes of text.
abbrev first_of_two : Mem
first_of_two = mem_of (0x05 ∷ 0x00 ∷ 0x03 ∷ 0x2a ∷ 0x02 ∷ 0x01 ∷ 0x41 ∷ 0x42 ∷ 0x43 ∷ [])

handle_udh-returns_example :
    (result : SmsMeta) × (handle_udh no_text 256 first_of_two 9 zero_sms ≡ some result)
    × IsCounted result
    × ((if ltb 5 9 then result.udh_length + result.real_length + 1 else 9) ≡ 9)
handle_udh-returns_example =
    handle_udh-returns no_text first_of_two 9 zero_sms (omega arith) (omega arith) (omega arith)

-- A header of 254 bytes that holds nothing but elements of type 10: the one at byte 254 is two
-- bytes long, and the offset behind it wraps around to 0.
abbrev endless : Mem
endless i =
    if i == 0
    then 254
    else if i == 1
    then 10
    else if i == 2
    then 251
    else if i == 254
    then 10
    else if i == 255
    then 1
    else 0

round_trip :
    (rounds : ℕ) (sm : SmsMeta)
    → elements no_text (suc (suc rounds)) endless 255 254 1 false sm
      ≡ elements no_text rounds endless 255 254 1 false sm
unfolding elements element
round_trip rounds sm = refl

-- However many rounds it is given, the loop does not end.
handle_udh-endless :
    (rounds : ℕ) → elements no_text (rounds + rounds) endless 255 254 1 false zero_sms ≡ none
unfolding elements
handle_udh-endless zero = refl
handle_udh-endless (suc rounds) =
    let two : suc rounds + suc rounds ≡ suc (suc (rounds + rounds)) = omega arith in
    rw two (round_trip (rounds + rounds) zero_sms ∙ handle_udh-endless rounds)
