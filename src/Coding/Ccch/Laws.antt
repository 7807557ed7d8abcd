-- ===== src/Coding/Ccch/Laws.antt =====
-- gsm-parser/ccch.c: what is decoded of a message that was encoded and ciphered, the count of bit
-- errors, and the bursts that make up a message.
use srlabs.Base.{
  ℕ, zero, suc, ◌+◌, ◌-◌, ◌*◌, ◌/◌, ◌%◌, ◌<◌, ◌≤◌, ◌≡◌, refl, arith, inl, inr, subst, ◌∙◌, bit_xor,
  u8, shr,
}
use srlabs.Base.{Bool, true, false, ◌&&◌, ltb, leb, ◌==◌, if◌then◌else◌, nonzero, Bool-cases}
use srlabs.Base.{Mem, IsByteMem, store, count_up, every, every-at}
use srlabs.Radio.{Message, is_uplink}
use srlabs.Session.{Session}
use srlabs.Burst.{BurstBuf}
use srlabs.Coding.Interleave.{Maps, gsm_interleave_init, gsm_deinter_sacch-ext}
use srlabs.Coding.Cch.{Locals, encode_signalling}
use srlabs.Coding.Cch.Laws.{received, encode_signalling-bit, decode_signalling-encode_signalling}
use srlabs.Coding.Viterbi.Column.{soft}
use srlabs.Coding.Ccch.{
  KeyStream, Arrays, key_bit, soft_bit, soft_bursts, is_ciphered, decode_bursts,
}

inner_fill :
    (f : ℕ → ℕ → ℕ) (dst : Mem) (j n p : ℕ)
    → count_up n (λ i e. store e (j * 114 + i) (f j i)) dst p
      ≡ (if leb (j * 114) p && ltb p (j * 114 + n) then f j (p - j * 114) else dst p)
unfolding count_up
inner_fill f dst j zero p = ground arith
inner_fill f dst j (suc last) p =
    let earlier = inner_fill f dst j last p in
    elim (Bool-cases (p == j * 114 + last)) [
      | inl e ↦
          let here : p ≡ j * 114 + last = ground (arith, e) in
          let off : j * 114 + last - j * 114 ≡ last = omega arith in rw (here, off) (ground arith)
      | inr e ↦ rw e (ground (arith, earlier, e))
    ]

-- Is a position in the last burst?
in_last :
    (last p : ℕ)
    → (leb (last * 114) p && ltb p (last * 114 + 114)) ≡ true
    → (p / 114 ≡ last) × (p % 114 ≡ p - last * 114) × (ltb p (suc last * 114) ≡ true)
in_last last p e =
    let low : last * 114 ≤ p = ground (arith, e) in
    let high : p < last * 114 + 114 = ground (arith, e) in
    (omega (arith, low, high), omega (arith, low, high), ground (arith, high))

not_in_last :
    (last p : ℕ)
    → (leb (last * 114) p && ltb p (last * 114 + 114)) ≡ false
    → ltb p (suc last * 114) ≡ ltb p (last * 114)
not_in_last last p e = elim (Bool-cases (ltb p (last * 114))) [
  | inl before ↦ ground (arith, before)
  | inr after ↦ ground (arith, after, e)
]

-- Two nested loops that store one element each, burst by burst.
fill_bursts :
    (f : ℕ → ℕ → ℕ) (dst : Mem) (n p : ℕ)
    → count_up n (λ j d. count_up 114 (λ i e. store e (j * 114 + i) (f j i)) d) dst p
      ≡ (if ltb p (n * 114) then f (p / 114) (p % 114) else dst p)
unfolding count_up
fill_bursts f dst zero p = ground arith
fill_bursts f dst (suc last) p =
    let before = count_up last (λ j d. count_up 114 (λ i e. store e (j * 114 + i) (f j i)) d) dst in
    let earlier = fill_bursts f dst last p in
    let round = inner_fill f before last 114 p in
    elim (Bool-cases (leb (last * 114) p && ltb p (last * 114 + 114))) [
      | inl e ↦
          let (quotient, rest, below) = in_last last p e in
          round ∙ rw (e, below, quotient, rest) refl
      | inr e ↦ round ∙ rw (e, not_in_last last p e) earlier
    ]

-- A cipher gives streams of bits.
unfoldable pub IsKeyStream : KeyStream → Type 0
IsKeyStream a5 =
    (cipher : ℕ) (key : Mem) (fn i : ℕ)
    → ((a5 cipher key fn).0 i < 2) × ((a5 cipher key fn).1 i < 2)

xor_twice : every (λ b. every (λ k. bit_xor (bit_xor b k) k == b && bit_xor b 0 == b) 2) 2 ≡ true
unfolding every
xor_twice = refl

xor_twice-at : (b k : ℕ) → b < 2 → k < 2 → (bit_xor (bit_xor b k) k ≡ b) × (bit_xor b 0 ≡ b)
xor_twice-at b k hb hk =
    let h =
      every-at (λ l. bit_xor (bit_xor b l) l == b && bit_xor b 0 == b) 2
        (every-at _ 2 xor_twice b hb) k hk in
    ground arith

sign :
    (b : ℕ)
    → b < 2
    → (a : ℕ) → 2 ≤ a
    → a < 128
    → (if nonzero b then u8 (256 - a) else a) ≡ (if b == 1 then 256 - a else a)
sign b bit a least most = elim (Bool-cases (b == 1)) [
  | inl e ↦ let one : b ≡ 1 = ground (arith, e) in rw one (omega (arith, least, most))
  | inr e ↦ let none_set : b ≡ 0 = ground (arith, e, bit) in rw none_set refl
]

module _ (a5 : KeyStream) (cipher : ℕ) (key : Mem) (ciphered uplink : Bool) (bb : BurstBuf) where
  -- Bit `p` of a coded block on the air: under the key stream where the message is ciphered.
  unfoldable pub on_air : Mem → ℕ → ℕ
  on_air raw p =
      if ciphered
      then bit_xor (raw p) (key_bit a5 cipher key ciphered uplink bb (p / 114) (p % 114))
      else raw p

-- The amplitude of position `p`.
abbrev pub amplitude : BurstBuf → ℕ → ℕ
amplitude bb p = u8 (shr (bb.snr (p / 114)) 1)

module _ (a5 : KeyStream) (streams : IsKeyStream a5) (cipher : ℕ) (key : Mem)
    (ciphered uplink : Bool) (bb : BurstBuf) where
  key_bit-bit : (j i : ℕ) → key_bit a5 cipher key ciphered uplink bb j i < 2
  unfolding key_bit IsKeyStream
  key_bit-bit j i = let h = streams cipher key (bb.fn j) i in ground (arith, h)

  deciphered_bit :
      (raw : Mem) (p : ℕ)
      → raw p < 2
      → (if ciphered
          then bit_xor
              (on_air a5 cipher key ciphered uplink bb raw p)
              (key_bit a5 cipher key ciphered uplink bb (p / 114) (p % 114))
          else on_air a5 cipher key ciphered uplink bb raw p)
        ≡ raw p
  unfolding on_air
  deciphered_bit raw p bit = elim (Bool-cases ciphered) [
    | inl e ↦ rw e (
        subst
          (λ c.
            bit_xor (bit_xor (raw p) (key_bit a5 cipher key c uplink bb (p / 114) (p % 114)))
              (key_bit a5 cipher key c uplink bb (p / 114) (p % 114))
            ≡ raw p)
          e
          (xor_twice-at (raw p) (key_bit a5 cipher key ciphered uplink bb (p / 114) (p % 114)) bit
            (key_bit-bit (p / 114) (p % 114))).0)
    | inr e ↦ rw e refl
  ]

  soft_bit-received :
      (raw : Mem) (p : ℕ)
      → raw p < 2
      → 2 ≤ amplitude bb p
      → amplitude bb p < 128
      → bb.data_ (p / 114 * 114 + p % 114) ≡ on_air a5 cipher key ciphered uplink bb raw p
      → soft_bit a5 cipher key ciphered uplink bb (p / 114) (p % 114)
        ≡ received (amplitude bb) raw p
  unfolding soft_bit received soft
  soft_bit-received raw p bit least most sent =
      let k = key_bit a5 cipher key ciphered uplink bb (p / 114) (p % 114) in
      let plain : (if ciphered
            then bit_xor (on_air a5 cipher key ciphered uplink bb raw p) k
            else on_air a5 cipher key ciphered uplink bb raw p)
          ≡ raw p =
        deciphered_bit raw p bit in
      rw (sent, plain) (sign (raw p) bit (amplitude bb p) least most)

  soft_bursts-received :
      (raw deciphered : Mem)
      → ((p : ℕ) → p < 456 → raw p < 2)
      → ((p : ℕ) → p < 456 → (2 ≤ amplitude bb p) × (amplitude bb p < 128))
      → ((p : ℕ) → p < 456 → bb.data_ p ≡ on_air a5 cipher key ciphered uplink bb raw p)
      → (p : ℕ) → p < 456
      → soft_bursts a5 cipher key ciphered uplink bb deciphered p ≡ received (amplitude bb) raw p
  unfolding soft_bursts
  soft_bursts-received raw deciphered bits strong sent p below =
      let split : p / 114 * 114 + p % 114 ≡ p = omega arith in
      let (least, most) = strong p below in
      let filled : count_up 4
            (λ j d.
              count_up 114
                (λ i e. store e (j * 114 + i) (soft_bit a5 cipher key ciphered uplink bb j i)) d)
            deciphered p
          ≡ soft_bit a5 cipher key ciphered uplink bb (p / 114) (p % 114) =
        rw (fill_bursts (soft_bit a5 cipher key ciphered uplink bb) deciphered 4 p)
          (ground (arith, below)) in
      filled ∙ soft_bit-received raw p (bits p below) least most (rw split (sent p below))

-- A message of 23 bytes that is encoded, put under the key stream of its cipher where it is
-- ciphered, and received in four bursts of a signal-to-noise ratio between 4 and 255, is decoded to
-- the same 23 bytes, and the result is 23.
pub decode_bursts-encode_signalling :
    (start : Maps) (sender : Locals) (arrays : Arrays) (a5 : KeyStream) (bb : BurstBuf)
    (s : Session) (m : Message) (msg raw : Mem)
    → IsKeyStream a5
    → IsByteMem msg
    → IsByteMem m.msg
    → ((j : ℕ) → j < 4 → (4 ≤ bb.snr j) × (bb.snr j < 256))
    → let maps = gsm_interleave_init start in
      ((p : ℕ)
        → p < 456
        → bb.data_ p
          ≡ on_air a5 s.sec.cipher s.sec.key
              (is_ciphered m)
              (is_uplink m)
              bb
              (encode_signalling maps sender msg raw)
              p)
      → ((decode_bursts maps arrays a5 bb s m).1 ≡ 23)
        × ((n : ℕ) → n < 23 → (decode_bursts maps arrays a5 bb s m).0 n ≡ msg n)
unfolding decode_bursts
decode_bursts-encode_signalling start sender arrays a5 bb s m msg raw streams msg_bytes m_bytes
      strong sent =
    let maps = gsm_interleave_init start in
    let coded = encode_signalling maps sender msg raw in
    let deciphered =
      soft_bursts a5 s.sec.cipher s.sec.key (is_ciphered m) (is_uplink m) bb arrays.deciphered in
    let amplitudes : (p : ℕ) → p < 456 → (2 ≤ amplitude bb p) × (amplitude bb p < 128) =
      λ p below. let h = strong (p / 114) (omega (arith, below)) in omega (arith, h) in
    let same =
      soft_bursts-received a5 streams s.sec.cipher s.sec.key (is_ciphered m) (is_uplink m) bb coded
        arrays.deciphered (encode_signalling-bit start sender msg raw) amplitudes sent in
    rw
      (gsm_deinter_sacch-ext start deciphered (received (amplitude bb) coded) arrays.conv_data same)
      (decode_signalling-encode_signalling start sender arrays.locals msg raw arrays.conv_data
        (amplitude bb) m.msg msg_bytes m_bytes amplitudes)
