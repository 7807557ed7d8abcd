-- ===== src/L3/Counters/Laws.antt =====
-- gsm-parser/l3_handler.c: the counters of frames agree with each other, and each downlink frame
-- is counted once.
use srlabs.Base.{ℕ, ◌+◌, ◌-◌, ◌≤◌, ◌<◌, ◌^◌, ◌≡◌, refl, arith, Bool, true, false, Mem, shift}
use srlabs.Base.{
  Returns, Returns-bind, Returns-if, ltb, ◌==◌, nonzero, if◌then◌else◌, num, not, subst, sym, ap,
  ◌∙◌,
}
use srlabs.Session.{Ctx, FrameCount}
use srlabs.L3.Core.{core}
use srlabs.L3.Inv.{tag, CountersOk, HeldInv, HeldInv-core, Stays}
use srlabs.L3.Rr.Checks.{PadOnly, AfterCheck, check_pad-HeldInv}
use srlabs.L3.Counters.{
  pad_len, up, count_null, count_si, count_rand, count_unenc, count_frame, check_frame,
  count_uplink, count_checked, update_counters,
}

-- No counter is about to wrap around.
pub record HasRoom (f : FrameCount) : Type 0 where
  pub enc : f.enc + 1 < 2 ^ 32
  pub unenc : f.unenc + 1 < 2 ^ 32

up_lem : (n : ℕ) → n + 1 < 2 ^ 32 → up n ≡ n + 1
unfolding up
up_lem n h = omega (arith, h)

-- Counting one more frame keeps the relations between the counters, and adds one to `enc` or
-- to `unenc`, as the session has a cipher or not.
count_frame-CountersOk :
    (ciphered is_random : Bool) (len data_len : ℕ) (f : FrameCount)
    → CountersOk f
    → HasRoom f
    → CountersOk (count_frame ciphered is_random len data_len f)
unfolding count_frame count_null count_si count_rand count_unenc up
count_frame-CountersOk true true len data_len f ok room = ground arith
count_frame-CountersOk true false len data_len f ok room = ground arith
count_frame-CountersOk false true len data_len f ok room = ground arith
count_frame-CountersOk false false len data_len f ok room = ground arith

pub check_frame-HeldInv :
    (frame : Mem) (len data_len : ℕ) (c : Ctx)
    → HeldInv c
    → Returns (AfterCheck c) (check_frame frame len data_len c)
unfolding check_frame
check_frame-HeldInv frame len data_len c inv =
    let pad = shift (shift frame data_len) 1 in
    let n = pad_len len data_len in
    Returns-if (AfterCheck c) (n == 0) _ _ (inv, refl)
      (Returns-if (AfterCheck c) (len == 20) _ _
        (Returns-if (AfterCheck c) (data_len == 0) _ _
          (check_pad-HeldInv pad (n - 1) c.s.pad.null _ c inv inv.1.pads.null (λ r ready.
            let p = inv.1.pads in
            record {
              null = ready;
              si5 = p.si5;
              si5bis = p.si5bis;
              si5ter = p.si5ter;
              si6 = p.si6;
              other_sdcch = p.other_sdcch;
              other_sacch = p.other_sacch;
            }))
          (check_pad-HeldInv pad (n - 1) c.s.pad.other_sdcch _ c inv inv.1.pads.other_sdcch
            (λ r ready.
              let p = inv.1.pads in
              record {
                null = p.null;
                si5 = p.si5;
                si5bis = p.si5bis;
                si5ter = p.si5ter;
                si6 = p.si6;
                other_sdcch = ready;
                other_sacch = p.other_sacch;
              })))
        (Returns-if (AfterCheck c) (len == 18) _ _
          (check_pad-HeldInv pad (n - 1) c.s.pad.other_sacch _ c inv inv.1.pads.other_sacch
            (λ r ready.
              let p = inv.1.pads in
              record {
                null = p.null;
                si5 = p.si5;
                si5bis = p.si5bis;
                si5ter = p.si5ter;
                si6 = p.si6;
                other_sdcch = p.other_sdcch;
                other_sacch = ready;
              }))
          (inv, refl)))

count_uplink-core : (c : Ctx) → core (count_uplink c) ≡ core c
unfolding count_uplink
count_uplink-core c = refl

predict-CountersOk : (f : FrameCount) (n : ℕ) → CountersOk (record f { predict = n }) → CountersOk f
predict-CountersOk f n ok = record {
  enc_parts = ok.enc_parts;
  enc_rand = ok.enc_rand;
  null_rand = ok.null_rand;
  si_rand = ok.si_rand;
  unenc_rand = ok.unenc_rand;
}

CountersOk-predict : (f : FrameCount) (n : ℕ) → CountersOk f → CountersOk (record f { predict = n })
CountersOk-predict f n ok = record {
  enc_parts = ok.enc_parts;
  enc_rand = ok.enc_rand;
  null_rand = ok.null_rand;
  si_rand = ok.si_rand;
  unenc_rand = ok.unenc_rand;
}

-- A frame that has been checked is counted.
count_checked-HeldInv :
    (len data_len : ℕ) (is_random : Bool) (c : Ctx)
    → HeldInv c
    → HasRoom c.s.fc
    → HeldInv (count_checked len data_len (is_random, c))
unfolding count_checked
count_checked-HeldInv len data_len is_random c (held, inv) room = (
  held,
  record {
    apart = inv.apart;
    known = inv.known;
    alive = inv.alive;
    pads = inv.pads;
    counters = CountersOk-predict _ 0 (
        count_frame-CountersOk (nonzero c.s.sec.cipher) is_random len data_len c.s.fc
          (predict-CountersOk c.s.fc 0 inv.counters) room);
  },
)

uplink-Stays : (ul : Bool) (c : Ctx) → HeldInv c → Stays c (if ul then count_uplink c else c)
unfolding count_uplink
uplink-Stays true c inv = (HeldInv-core c (count_uplink c) (count_uplink-core c) inv, refl)
uplink-Stays false c inv = (inv, refl)

uplink-HasRoom :
    (ul : Bool) (c : Ctx) → HasRoom c.s.fc → HasRoom (if ul then count_uplink c else c).s.fc
unfolding count_uplink
uplink-HasRoom true c room = room
uplink-HasRoom false c room = room

tag-count_checked :
    (len data_len : ℕ) (o : Bool × Ctx) (c : Ctx)
    → PadOnly c o.1
    → tag (count_checked len data_len o) ≡ tag c
unfolding count_checked
tag-count_checked len data_len (is_random, c') c same = ap tag same

-- The statistics return for a frame of any length, and the session afterwards satisfies the
-- invariant and still holds the message, while no counter is about to wrap.
pub update_counters-Stays :
    (frame : Mem) (len data_len : ℕ) (ul : Bool) (c : Ctx)
    → HeldInv c
    → HasRoom c.s.fc
    → Returns (Stays c) (update_counters frame len data_len ul c)
unfolding update_counters
update_counters-Stays frame len data_len ul c inv room =
    let c' = if ul then count_uplink c else c in
    let (inv', addr) = uplink-Stays ul c inv in
    Returns-if (Stays c) (ltb 20 (pad_len len data_len)) _ _ (inv', addr)
      (Returns-if (Stays c) ul _ _ (inv', addr)
        (Returns-bind (AfterCheck c') (Stays c) (check_frame frame len data_len c') _
          (check_frame-HeldInv frame len data_len c' inv')
          λ o h. (
            count_checked-HeldInv len data_len o.0 o.1 h.0
                (subst (λ d. HasRoom d.s.fc) (sym h.1) (uplink-HasRoom ul c room)),
            tag-count_checked len data_len o c' h.1 ∙ addr,
          )))

-- One of `enc` and `unenc` is counted up by one, as the session has a cipher or not.
pub CountsOne : Ctx → Ctx → Type 0
CountsOne c c' =
    (c'.s.fc.enc ≡ c.s.fc.enc + num (nonzero c.s.sec.cipher))
    × (c'.s.fc.unenc ≡ c.s.fc.unenc + num (not (nonzero c.s.sec.cipher)))

count_checked-CountsOne :
    (len data_len : ℕ) (o : Bool × Ctx) (c : Ctx)
    → HasRoom c.s.fc
    → PadOnly c o.1
    → CountsOne c (count_checked len data_len o)
unfolding count_checked count_frame count_null count_si count_rand count_unenc up CountsOne
count_checked-CountsOne len data_len (is_random, c') c room same = rw same (ground arith)

-- The statistics return for a downlink frame whose padding is at most 20 bytes, and count it once:
-- `enc` or `unenc` counts up by one, as the session has a cipher or not, while neither is about to
-- wrap.
pub update_counters-counts :
    (frame : Mem) (len data_len : ℕ) (c : Ctx)
    → HeldInv c
    → HasRoom c.s.fc
    → pad_len len data_len ≤ 20
    → Returns (CountsOne c) (update_counters frame len data_len false c)
unfolding update_counters
update_counters-counts frame len data_len c inv room fits = rw not_over (
    Returns-bind (AfterCheck c) (CountsOne c) (check_frame frame len data_len c) _
      (check_frame-HeldInv frame len data_len c inv)
      λ o h. count_checked-CountsOne len data_len o c room h.1)
  where
    not_over : ltb 20 (pad_len len data_len) ≡ false
    not_over = ground arith
