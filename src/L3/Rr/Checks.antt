-- ===== src/L3/Rr/Checks.antt =====
-- gsm-parser/l3_handler.c and cell_info.c: system information, and its padding checks, which never
-- abort, since a session that has seen an encrypted message has a cipher.
use srlabs.Base.{ℕ, ◌≡◌, refl, ap, ◌∙◌, Bool, ◌||◌}
use srlabs.Base.{Safe, Returns, Mem, shift, Safe-bind, Returns-Safe, Bool-cases, inl, inr, ltb}
use srlabs.RandCheck.{RandState}
use srlabs.RandCheck.Laws.{rand_check-Ready}
use srlabs.Radio.{has_bit, sdcch_bit}
use srlabs.Session.{Ctx, Padding, set_msg_info}
use srlabs.L3.Core.{core, set_msg_info-Keeps}
use srlabs.L3.Inv.{
  tag, tag-core, Stays, Stays-from, Stays-bind, Ready, PadsReady, HeldInv, HeldInv-Keeps,
  session_reset-HeldInv, HeldInv-core, HeldInv-pads,
}
use srlabs.L3.Env.{Env}
use srlabs.L3.Ie.Laws.{core-handle_lai}
use srlabs.L3.Rr.{
  SiType, si5, si5bis, si5ter, si6, put_checked, check_pad, check_si, locate, is_over,
  handle_sysinfo, handle_si,
}

-- Only the padding states differ.
abbrev pub PadOnly : Ctx → Ctx → Type 0
PadOnly c c' = c' ≡ record c { s = record (c.s) { pad = c'.s.pad } }

-- What a check that starts at `c` leaves.
abbrev pub AfterCheck : Ctx → Bool × Ctx → Type 0
AfterCheck c o = HeldInv o.1 × PadOnly c o.1

-- A check of one padding state, `put` back among states that are ready with it.
pub check_pad-HeldInv :
    (msg : Mem) (len : ℕ) (r : RandState) (put : RandState → Padding) (c : Ctx)
    → HeldInv c
    → Ready c.s.sec.cipher r
    → ((r' : RandState) → Ready c.s.sec.cipher r' → PadsReady c.s.sec.cipher (put r'))
    → Returns (AfterCheck c) (check_pad msg len r put c)
unfolding check_pad put_checked
check_pad-HeldInv msg len r put c inv ready pads =
    let (verdict, r', e, ready') = rand_check-Ready msg len r c.s.sec.cipher ready in
    rw e (HeldInv-pads c (put r') inv (pads r' ready'), refl)

check_si-HeldInv :
    (t : SiType) (dtap : Mem) (c : Ctx) → HeldInv c → Returns (AfterCheck c) (check_si t dtap c)
unfolding check_si
check_si-HeldInv si5 dtap c inv =
    check_pad-HeldInv dtap 18 c.s.pad.si5 (λ r. record (c.s.pad) { si5 = r }) c inv inv.1.pads.si5
      (λ r ready.
        let p = inv.1.pads in
        record {
          null = p.null;
          si5 = ready;
          si5bis = p.si5bis;
          si5ter = p.si5ter;
          si6 = p.si6;
          other_sdcch = p.other_sdcch;
          other_sacch = p.other_sacch;
        })
check_si-HeldInv si5bis dtap c inv =
    check_pad-HeldInv dtap 18 c.s.pad.si5bis (λ r. record (c.s.pad) { si5bis = r }) c inv
      inv.1.pads.si5bis
      (λ r ready.
        let p = inv.1.pads in
        record {
          null = p.null;
          si5 = p.si5;
          si5bis = ready;
          si5ter = p.si5ter;
          si6 = p.si6;
          other_sdcch = p.other_sdcch;
          other_sacch = p.other_sacch;
        })
check_si-HeldInv si5ter dtap c inv =
    check_pad-HeldInv dtap 18 c.s.pad.si5ter (λ r. record (c.s.pad) { si5ter = r }) c inv
      inv.1.pads.si5ter
      (λ r ready.
        let p = inv.1.pads in
        record {
          null = p.null;
          si5 = p.si5;
          si5bis = p.si5bis;
          si5ter = ready;
          si6 = p.si6;
          other_sdcch = p.other_sdcch;
          other_sacch = p.other_sacch;
        })
check_si-HeldInv si6 dtap c inv =
    check_pad-HeldInv dtap 18 c.s.pad.si6 (λ r. record (c.s.pad) { si6 = r }) c inv inv.1.pads.si6
      (λ r ready.
        let p = inv.1.pads in
        record {
          null = p.null;
          si5 = p.si5;
          si5bis = p.si5bis;
          si5ter = p.si5ter;
          si6 = ready;
          other_sdcch = p.other_sdcch;
          other_sacch = p.other_sacch;
        })
check_si-HeldInv _ dtap c inv = (inv, refl)

core-locate : (t : SiType) (dtap : Mem) (c : Ctx) → core (locate t dtap c) ≡ core c
unfolding locate
core-locate si6 dtap c = core-handle_lai (shift dtap 4) _ c
core-locate _ dtap c = refl

module _ (env : Env) where
  handle_sysinfo-Stays : (len : ℕ) (c : Ctx) → HeldInv c → Safe (Stays c) (handle_sysinfo env len c)
  unfolding handle_sysinfo
  handle_sysinfo-Stays len c inv = elim (Bool-cases (ltb len 4 || has_bit sdcch_bit c.m.flags)) [
    | inl e ↦ rw e (inv, refl)
    | inr e ↦ elim (Bool-cases (is_over c)) [
      | inl over ↦
          rw (e, over)
            (Returns-Safe (Stays c) (Stays c) _ (λ c' h. h) (session_reset-HeldInv env.cfg c inv))
      | inr open_ ↦ rw (e, open_) (inv, refl)
    ]
  ]

  pub handle_si-Stays :
      (t : SiType) (dtap : Mem) (len : ℕ) (c : Ctx)
      → HeldInv c
      → Safe (Stays c) (handle_si env t dtap len c)
  unfolding handle_si
  handle_si-Stays t dtap len c inv =
      Stays-bind c (set_msg_info _ c) _ (HeldInv-Keeps c _ inv (set_msg_info-Keeps _ c inv.0))
        λ c' inv'.
          Safe-bind (AfterCheck c') (Stays c') (check_si t dtap c') _
            (Returns-Safe (AfterCheck c') (AfterCheck c') (check_si t dtap c') (λ a h. h)
              (check_si-HeldInv t dtap c' inv'))
            λ o h.
              Stays-from c' (locate t dtap o.1) _
                (tag-core o.1 (locate t dtap o.1) (core-locate t dtap o.1) ∙ ap tag h.1)
                (handle_sysinfo-Stays len (locate t dtap o.1)
                  (HeldInv-core o.1 (locate t dtap o.1) (core-locate t dtap o.1) h.0))
