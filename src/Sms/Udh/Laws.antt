-- ===== src/Sms/Udh/Laws.antt =====
-- gsm-parser/sms.c, `handle_udh`: the loop ends for headers of up to 253 bytes, and the number of
-- a fragment is at most the number of all.
use srlabs.Base.{ℕ, zero, suc, ◌+◌, ◌-◌, ◌/◌, ◌<◌, ◌≤◌, ◌≡◌, refl, arith, inl, inr}
use srlabs.Base.{
  Bool, true, false, List, [], ◌∷◌, some, ◌∙◌, ltb, leb, ◌==◌, if◌then◌else◌, Bool-cases, subst,
  ◌⊎◌, u8, Mem, shift,
}
use srlabs.Radio.{Piece, text}
use srlabs.Sms.Meta.{SmsMeta, append_info}
use srlabs.Sms.Ota.{}
use srlabs.Sms.Udh.{
  Parsed, go_on, stop, fail, concatenated, ports, sized, reply_address, element, elements,
  user_data, finish, handle_udh,
}
use srlabs.Sms.Udh.Payload.{IsCounted, Kept, Kept-trans, user_data-Kept}

abbrev KeptParsed : SmsMeta → Parsed → Type 0
KeptParsed old (go_on sm cmd) = Kept old sm
KeptParsed old (stop sm) = Kept old sm

KeptParsed-if :
    (old : SmsMeta) (b : Bool) (x y : Parsed)
    → KeptParsed old x
    → KeptParsed old y
    → KeptParsed old (if b then x else y)
KeptParsed-if old true x y hx hy = hx
KeptParsed-if old false x y hx hy = hy

concatenated-Kept :
    (total this : ℕ) (error : List Piece) (cmd : Bool) (sm : SmsMeta)
    → IsCounted sm
    → KeptParsed sm (concatenated total this error cmd sm)
unfolding concatenated
concatenated-Kept total this error cmd sm ok = elim (Bool-cases (ltb total this)) [
  | inl e ↦ rw e (ok, refl, refl)
  | inr e ↦ rw e (ground (arith, e), refl, refl)
]

element-Kept :
    (decode_7bit : Mem → ℕ → List ℕ × ℕ) (type vlen : ℕ) (p : Mem) (header_len : ℕ) (cmd : Bool)
    (sm : SmsMeta)
    → IsCounted sm
    → KeptParsed sm (element decode_7bit type vlen p header_len cmd sm)
unfolding element ports sized reply_address
element-Kept decode_7bit type vlen p header_len cmd sm ok =
    let same : Kept sm sm = (ok, refl, refl) in
    let pick : (b : Bool) (x y : Parsed)
        → KeptParsed sm x
        → KeptParsed sm y
        → KeptParsed sm (if b then x else y) =
      KeptParsed-if sm in
    pick (type == 0x00) _ _ (pick (vlen == 3) _ _ (concatenated-Kept (p 1) (p 2) _ cmd sm ok) same)
      (pick (type == 0x01) _ _ (pick (vlen == 2) _ _ same same) (
        pick (type == 0x04) _ _ (pick (vlen == 2) _ _ same same) (
          pick (type == 0x05) _ _ (pick (vlen == 4) _ _ same same) (
            pick (type == 0x06) _ _ (pick (vlen == 1) _ _ same same) (
              pick (type == 0x07) _ _ (pick (vlen == 1) _ _ same same) (
                pick (type == 0x08) _ _
                  (pick (vlen == 4) _ _ (concatenated-Kept (p 2) (p 3) _ cmd sm ok) same)
                  (pick (type == 0x22) _ _ (pick (ltb vlen (p 0 / 2 + 1)) _ _ same same) (
                    pick (type == 0x24) _ _ (pick (vlen == 1) _ _ same same) (
                      pick (type == 0x25) _ _ (pick (vlen == 1) _ _ same same) (
                        pick (type == 0x70) _ _ same (
                          pick (type == 0x71) _ _ same (
                            pick (type == 0x7f) _ _ same (
                              pick (type == 0xda) _ _ (pick (leb vlen header_len) _ _ same same)
                                same)))))))))))))

Kept-then :
    (old mid : SmsMeta) (parsed : Parsed)
    → Kept old mid
    → KeptParsed mid parsed
    → KeptParsed old parsed
Kept-then old mid (go_on sm cmd) (ok, udh, real) (ok', udh', real') =
    (ok', udh' ∙ udh, real' ∙ real)
Kept-then old mid (stop sm) (ok, udh, real) (ok', udh', real') = (ok', udh' ∙ udh, real' ∙ real)

Parsed-cases :
    (q : Parsed)
    → ((sm : SmsMeta) × (cmd : Bool) × (q ≡ go_on sm cmd)) ⊎ ((sm : SmsMeta) × (q ≡ stop sm))
Parsed-cases (go_on sm cmd) = inl (sm, cmd, refl)
Parsed-cases (stop sm) = inr (sm, refl)

-- With a round for each place that the offset may still take, the loop ends: the offset grows by two
-- or more and stays below 256.
elements-end :
    (decode_7bit : Mem → ℕ → List ℕ × ℕ) (rounds : ℕ) (msg : Mem) (len header_len offset : ℕ)
    (cmd : Bool) (sm : SmsMeta)
    → len < 256
    → header_len ≤ 253
    → offset < 256
    → 256 ≤ rounds + offset
    → IsCounted sm
    → (parsed : Parsed) × (elements decode_7bit rounds msg len header_len offset cmd sm
        ≡ some parsed)
      × KeptParsed sm parsed
unfolding elements
elements-end decode_7bit zero msg len header_len offset cmd sm short header bound enough ok =
    absurd (omega (arith, bound, enough))
elements-end decode_7bit (suc rounds) msg len header_len offset cmd sm short header bound enough
      ok =
    let vlen = msg (u8 (offset + 1)) in
    let value = u8 (u8 (offset + 1) + 1) in
    let parsed = element decode_7bit (msg offset) vlen (shift msg value) header_len cmd sm in
    let kept = element-Kept decode_7bit (msg offset) vlen (shift msg value) header_len cmd sm ok in
    elim (Bool-cases (ltb header_len offset)) [
      | inl e ↦ (go_on sm cmd, rw (elements, e) refl, (ok, refl, refl))
      | inr e ↦ elim (Bool-cases (ltb len (value + vlen))) [
        | inl p ↦ (
          fail (text "SANITY CHECK FAILED (UDH_IEI_LEN)" ∷ []) sm,
          rw (elements, e, p) refl,
          (ok, refl, refl),
        )
        | inr p ↦ elim (Parsed-cases parsed) [
          | inr (sm', q) ↦ (stop sm', rw (elements, e, p, q) refl, subst (KeptParsed sm) q kept)
          | inl (sm', cmd', q) ↦
              let kept' : Kept sm sm' = subst (KeptParsed sm) q kept in
              let next : value ≡ offset + 2 = ground (arith, e, header) in
              let more : value + vlen ≤ len = ground (arith, p) in
              let (last, ends, kept_last) =
                elements-end decode_7bit rounds msg len header_len (u8 (value + vlen)) cmd' sm'
                  short header (omega arith) (omega (arith, next, more, short, enough)) kept'.0 in
              (last, rw (elements, e, p, q) ends, Kept-then sm sm' last kept' kept_last)
        ]
      ]
    ]

finish-Kept :
    (decode_7bit : Mem → ℕ → List ℕ × ℕ) (p : Mem) (len : ℕ) (old : SmsMeta) (parsed : Parsed)
    → KeptParsed old parsed
    → Kept old (finish decode_7bit p len parsed)
unfolding finish
finish-Kept decode_7bit p len old (go_on sm cmd) kept =
    Kept-trans old sm (user_data decode_7bit p len cmd sm) kept
      (user_data-Kept decode_7bit p len cmd sm kept.0)
finish-Kept decode_7bit p len old (stop sm) kept = kept

unfit :
    (header_len len sum : ℕ)
    → (len == 0) ≡ false
    → ltb (len - 1) header_len ≡ true
    → (if ltb header_len len then sum else len) ≡ len
unfit header_len len sum some_data longer =
    let out : ltb header_len len ≡ false = ground (arith, some_data, longer) in rw out refl

-- With at most 255 bytes and a header of at most 253 bytes, 256 rounds of the loop suffice, so
-- that the function returns, whatever the header says: the number of the fragment is then at most
-- the number of all, if it was before, and the lengths of a header that fits and of what follows it
-- add up with the length byte to the whole.
pub handle_udh-returns :
    (decode_7bit : Mem → ℕ → List ℕ × ℕ) (msg : Mem) (len : ℕ) (sm : SmsMeta)
    → len < 256
    → msg 0 ≤ 253
    → IsCounted sm
    → (result : SmsMeta) × (handle_udh decode_7bit 256 msg len sm ≡ some result)
      × IsCounted result
      × ((if ltb (msg 0) len then result.udh_length + result.real_length + 1 else len) ≡ len)
unfolding handle_udh
handle_udh-returns decode_7bit msg len sm short header ok =
    let header_len = msg 0 in
    let data_len = len - header_len - 1 in
    let start = record sm { udh_length = header_len; real_length = u8 data_len } in
    let (parsed, ends, kept) =
      elements-end decode_7bit 256 msg len header_len 1 false start short header (omega arith)
        (omega arith) ok in
    let (counted, udh, real) =
      finish-Kept decode_7bit (shift msg (header_len + 1)) data_len start parsed kept in
    elim (Bool-cases (len == 0)) [
      | inl e ↦ (
        record (append_info (text "NO DATA" ∷ []) sm) { real_length = 0 },
        rw e refl,
        ok,
        ground (arith, e),
      )
      | inr e ↦ elim (Bool-cases (ltb (len - 1) header_len)) [
        | inl p ↦ (
          append_info (text "SANITY CHECK FAILED (SMS_UDH_LEN)" ∷ []) sm,
          rw (e, p) refl,
          ok,
          unfit (msg 0) len (sm.udh_length + sm.real_length + 1) e p,
        )
        | inr p ↦ (
          finish decode_7bit (shift msg (header_len + 1)) data_len parsed,
          rw (handle_udh, e, p, ends) refl,
          counted,
          (let fits : ltb header_len len ≡ true = ground (arith, e, p) in
              let sum : header_len + u8 data_len + 1 ≡ len = ground (arith, fits, short) in
              rw (fits, udh, real) sum),
        )
      ]
    ]
