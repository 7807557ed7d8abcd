-- ===== src/L3/Rr/Laws.antt =====
-- gsm-parser/l3_handler.c: radio resources. A channel release frees the message in hand.
use srlabs.Base.{ℕ, ◌≤◌, ◌≡◌, refl, ap, ◌∙◌, arith, true, false, Option, none, some, not}
use srlabs.Base.{
  Safe, Outcome, done, Mem, shift, Safe-bind, Returns-Safe, Safe-mono, Bool-cases, inl, inr, ◌==◌,
  bit, if◌then◌else◌,
}
use srlabs.Radio.{rat_gsm}
use srlabs.Session.{Ctx, Padding, Security, minus_one, set_msg_info}
use srlabs.L3.Core.{
  Keeps, IsHeld, core, Keeps-bind, IsHeld-core, set_msg_info-Keeps, with_sec, predict,
}
use srlabs.L3.Inv.{
  tag-core, Stays, Leaves, PadsReady, HeldInv, HeldInv-Keeps, session_reset-Inv, Inv-core,
  HeldInv-core,
}
use srlabs.L3.Env.{Env}
use srlabs.L3.Ie.{handle_mi}
use srlabs.L3.Ie.Laws.{handle_mi-Keeps, core-handle_classmark, handle_pag_resp-Keeps}
use srlabs.L3.Mm.Laws.{reset_then}
use srlabs.L3.Rr.{
  RrType, si, chan_rel, clsm_chg, pag_resp, ciph_compl, ciph_cmd, rr_type, cipher_complete,
  cipher_command, complete_identity, complete_imeisv, handle_ciph_compl, is_predictable,
  request_imeisv, handle_ciph_cmd, mark_release, handle_chan_rel, handle_rr_type, handle_rr,
}
use srlabs.L3.Rr.Checks.{handle_si-Stays}

module _ (env : Env) where
  complete_identity-Keeps :
      (v : Option (Mem × ℕ)) (c : Ctx) → IsHeld c → Keeps c (complete_identity env v c)
  unfolding complete_identity
  complete_identity-Keeps none c held = refl
  complete_identity-Keeps (some (v, v_len)) c held =
      Keeps-bind c (handle_mi _ _ false c) _ (handle_mi-Keeps _ _ false c held) λ c' k. refl

  complete_imeisv-Keeps :
      (p : Mem) (len : ℕ) (c : Ctx) → IsHeld c → Keeps c (complete_imeisv env p len c)
  unfolding complete_imeisv
  complete_imeisv-Keeps p len c held = elim (Bool-cases (p 0 == 0x2b)) [
    | inl e ↦ rw e refl
    | inr e ↦ rw e (complete_identity-Keeps _ c held)
  ]

  handle_ciph_compl-Keeps :
      (p : Mem) (len fn : ℕ) (c : Ctx) → IsHeld c → Keeps c (handle_ciph_compl env p len fn c)
  unfolding handle_ciph_compl cipher_complete
  handle_ciph_compl-Keeps p len fn c held =
      Keeps-bind c (set_msg_info _ c) _ (set_msg_info-Keeps _ c held)
        λ c' k. complete_imeisv-Keeps p len _ (IsHeld-core c c' k held)

-- A cipher mode command never turns the cipher off.
cipher-cipher_command :
    (setting fn : ℕ) (x : Security) → 1 ≤ x.cipher → 1 ≤ (cipher_command setting fn x).cipher
unfolding cipher_command
cipher-cipher_command setting fn x h = ground arith

PadsReady-mono : (a b : ℕ) (p : Padding) → (1 ≤ a → 1 ≤ b) → PadsReady a p → PadsReady b p
PadsReady-mono a b p h r = record {
  null = λ x. h (r.null x);
  si5 = λ x. h (r.si5 x);
  si5bis = λ x. h (r.si5bis x);
  si5ter = λ x. h (r.si5ter x);
  si6 = λ x. h (r.si6 x);
  other_sdcch = λ x. h (r.other_sdcch x);
  other_sacch = λ x. h (r.other_sacch x);
}

HeldInv-cipher :
    (setting fn : ℕ) (c : Ctx)
    → HeldInv c
    → HeldInv (with_sec (cipher_command setting fn c.s.sec) c)
HeldInv-cipher setting fn c (held, inv) = (
  held,
  record {
    apart = inv.apart;
    known = inv.known;
    alive = inv.alive;
    pads =
        PadsReady-mono c.s.sec.cipher _ c.s.pad (cipher-cipher_command setting fn c.s.sec) inv.pads;
    counters = inv.counters;
  },
)

core-after_command :
    (p : Mem) (d : Ctx)
    → core (
        with_sec
          (record ((if bit 4 (p 0) == 1 then request_imeisv d else d).s.sec) {
            cipher_missing = minus_one;
          })
          (if bit 4 (p 0) == 1 then request_imeisv d else d))
      ≡ core d
unfolding request_imeisv
core-after_command p d = ground arith

handle_ciph_cmd-Stays :
    (p : Mem) (fn : ℕ) (c : Ctx) → HeldInv c → Safe (Stays c) (handle_ciph_cmd p fn c)
unfolding handle_ciph_cmd
handle_ciph_cmd-Stays p fn c inv =
    let c' = with_sec (cipher_command (p 0) fn c.s.sec) c in
    let inv' = HeldInv-cipher (p 0) fn c inv in
    HeldInv-Keeps c' _ inv' (
      Keeps-bind c' (set_msg_info _ c') _ (set_msg_info-Keeps _ c' inv'.0)
        λ d k. core-after_command p d)

core-mark_release :
    (p : Mem) (len : ℕ) (d : Ctx)
    → core (mark_release p len (predict (is_predictable d) d)) ≡ core d
unfolding mark_release
core-mark_release p len d = ground arith

-- Only a channel release may free the message.
unfoldable pub LiveUnless : RrType → Ctx → Type 0
LiveUnless chan_rel c = Unit
LiveUnless _ c = c.live ≡ true

-- What a message of type `t` leaves.
abbrev pub LeavesRr : RrType → Ctx → Ctx → Type 0
LeavesRr t c c' = Leaves c c' × LiveUnless t c'

Stays-LeavesRr : (t : RrType) (c : Ctx) (o : Outcome Ctx) → Safe (Stays c) o → Safe (LeavesRr t c) o
unfolding LiveUnless
Stays-LeavesRr t c o h =
    Safe-mono (Stays c) (LeavesRr t c) o (λ c' (inv, e). ((inv.1, e), live t c' inv.0.1)) h
  where
    live : (t : RrType) (c' : Ctx) → c'.live ≡ true → LiveUnless t c'
    live chan_rel c' h = tt
    live _ c' h = h

handle_chan_rel-Leaves :
    (env : Env) (p : Mem) (len : ℕ) (c : Ctx)
    → HeldInv c
    → Safe (Leaves c) (handle_chan_rel env p len c)
unfolding handle_chan_rel
handle_chan_rel-Leaves env p len c inv =
    Safe-bind (Stays c) (Leaves c) (set_msg_info _ c) _
      (HeldInv-Keeps c _ inv (set_msg_info-Keeps _ c inv.0))
      λ d (inv', e).
        let d' = mark_release p len (predict (is_predictable d) d) in
        let same = core-mark_release p len d in
        Returns-Safe (Leaves d') (Leaves c) _ (λ c' (h, e'). (h, e' ∙ tag-core d d' same ∙ e))
          (session_reset-Inv env.cfg false d' (Inv-core d d' same inv'.1))

module _ (env : Env) (dtap p : Mem) (len fn : ℕ) (c : Ctx) (inv : HeldInv c) where
  kept :
      (t : RrType)
      → Keeps c (handle_rr_type env t dtap p len fn c)
      → Safe (LeavesRr t c) (handle_rr_type env t dtap p len fn c)
  kept t k = Stays-LeavesRr t c _ (HeldInv-Keeps c (handle_rr_type env t dtap p len fn c) inv k)

  handle_rr_type-Leaves : (t : RrType) → Safe (LeavesRr t c) (handle_rr_type env t dtap p len fn c)
  unfolding handle_rr_type set_msg_info LiveUnless
  handle_rr_type-Leaves (si t) = Stays-LeavesRr (si t) c _ (handle_si-Stays env t dtap len c inv)
  handle_rr_type-Leaves chan_rel =
      Safe-mono (Leaves c) (LeavesRr chan_rel c) _ (λ c' h. (h, tt))
        (handle_chan_rel-Leaves env p len c inv)
  handle_rr_type-Leaves clsm_chg = kept clsm_chg (
      Keeps-bind c (set_msg_info _ c) _ (set_msg_info-Keeps _ c inv.0)
        λ c' k. core-handle_classmark (shift p 1) 2 c')
  handle_rr_type-Leaves pag_resp = Stays-LeavesRr pag_resp c _ (
      reset_then env _ c inv λ c' held.
        Keeps-bind c' (set_msg_info _ c') _ (set_msg_info-Keeps _ c' held)
          λ d k. handle_pag_resp-Keeps p d (IsHeld-core c' d k held))
  handle_rr_type-Leaves ciph_compl = kept ciph_compl (handle_ciph_compl-Keeps env p len fn c inv.0)
  handle_rr_type-Leaves ciph_cmd = Stays-LeavesRr ciph_cmd c _ (handle_ciph_cmd-Stays p fn c inv)
  handle_rr_type-Leaves t = kept t (ground arith)

-- Radio resource messages fail no assertion and abort in no padding check, and the session
-- afterwards satisfies the invariant, whatever the message says. Only a channel release frees the
-- message.
pub handle_rr-Leaves :
    (env : Env) (dtap : Mem) (len fn : ℕ) (c : Ctx)
    → HeldInv c
    → Safe (LeavesRr (rr_type (dtap 1)) c) (handle_rr env dtap len fn c)
unfolding handle_rr
handle_rr-Leaves env dtap len fn c inv = rw not_missing (elim (Bool-cases (len == 0)) [
  | inl e ↦ rw e (
      Stays-LeavesRr (rr_type (dtap 1)) c (done (record c { s = record (c.s) { rat = rat_gsm } }))
        (on_gsm, refl))
  | inr e ↦ rw e (
      handle_rr_type-Leaves env dtap (shift dtap 2) len fn
        (record c { s = record (c.s) { rat = rat_gsm } }) on_gsm (rr_type (dtap 1)))
])
  where
    not_missing : not c.s.new_msg ≡ false
    not_missing = ap not inv.0.0

    on_gsm : HeldInv (record c { s = record (c.s) { rat = rat_gsm } })
    on_gsm = HeldInv-core c (record c { s = record (c.s) { rat = rat_gsm } }) refl inv
