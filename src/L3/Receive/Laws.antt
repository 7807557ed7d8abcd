-- ===== src/L3/Receive/Laws.antt =====
-- gsm-parser/l3_handler.c: a message of GSM fails no assertion, and leaves the sessions as the next
-- message needs them.
use srlabs.Base.{ℕ, ◌≤◌, ◌≡◌, refl, ◌∙◌, sym, subst, arith, true, false, not, List, ◌⊎◌, inl, inr}
use srlabs.Base.{Safe, Safe-cases, Safe-bind, Outcome, ◌==◌, low_bits, Bool-cases}
use srlabs.Radio.{Message, set_bit, decoded_bit, rat_gsm, msg_sdcch, msg_sacch, msg_facch, msg_bcch}
use srlabs.Session.{Session, Ctx, Security, contains, link_to_msg_list}
use srlabs.L3.Core.{with_session}
use srlabs.L3.Inv.{PadsReady, CountersOk, Inv}
use srlabs.L3.Env.{Env}
use srlabs.L3.Counters.Laws.{HasRoom}
use srlabs.L3.Dtap.{World}
use srlabs.L3.Dtap.Both.{WorldInv, HeldWorld}
use srlabs.L3.Dtap.Laws.{handle_dtap-WorldInv}
use srlabs.L3.Lapdm.{sdcch, sacch, facch}
use srlabs.L3.Lapdm.Laws.{handle_lapdm-WorldInv}
use srlabs.L3.Receive.{
  update_timestamps, take, has_domains, handle_gsm, file, let_go, handle_radio_msg,
}

-- A session between messages.
pub record Calm (s : Session) : Type 0 where
  pub pads : PadsReady s.sec.cipher s.pad
  pub counters : CountersOk (record (s.fc) { predict = 0 })

pub record Idle (env : Env) (w : World) : Type 0 where
  pub cs : Calm w.cs.s
  pub ps : env.cfg.auto_reset ≡ true → Calm w.ps
  pub cs_domain : w.cs.s.domain ≡ 0
  pub ps_domain : env.cfg.auto_reset ≡ true → w.ps.domain ≡ 1
  pub released : w.cs.s.new_msg ≡ false

unfoldable pub IsChannel : ℕ → Type 0
IsChannel ch = (ch ≡ msg_sdcch) ⊎ (ch ≡ msg_sacch) ⊎ (ch ≡ msg_facch) ⊎ (ch ≡ msg_bcch)

-- A message that no session has, in a known domain, on one of the four channels.
pub record IsFresh (env : Env) (w : World) (m : Message) : Type 0 where
  pub cs : contains w.cs.s.msgs m.addr ≡ false
  pub ps : env.cfg.auto_reset ≡ true → contains w.ps.msgs m.addr ≡ false
  pub domain : m.domain ≤ 1
  pub channel : IsChannel (low_bits m.flags 4)

low_bits-decoded : (f : ℕ) → low_bits (set_bit decoded_bit f) 4 ≡ low_bits f 4
low_bits-decoded f = omega arith

take-HeldWorld :
    (env : Env) (m : Message) (w : World)
    → Idle env w
    → IsFresh env w m
    → HeldWorld env (take env.cfg.auto_reset m w)
unfolding take
take-HeldWorld env m w idle fresh = record {
  cs = (
    (refl, refl),
    record {
      apart = fresh.cs;
      known = fresh.domain;
      alive = λ h. refl;
      pads = idle.cs.pads;
      counters = idle.cs.counters;
    },
  );
  ps = λ on. (
    (rw on refl, refl),
    record {
      apart = fresh.ps on;
      known = fresh.domain;
      alive = λ h. refl;
      pads = (idle.ps on).pads;
      counters = (idle.ps on).counters;
    },
  );
  cs_domain = idle.cs_domain;
  ps_domain = idle.ps_domain;
}

-- A message that is filed changes the list and the times.
sec-file : (m : Message) (s : Session) → (file m s).sec ≡ s.sec
unfolding file update_timestamps link_to_msg_list
sec-file m s = ground arith

pad-file : (m : Message) (s : Session) → (file m s).pad ≡ s.pad
unfolding file update_timestamps link_to_msg_list
pad-file m s = ground arith

fc-file : (m : Message) (s : Session) → (file m s).fc ≡ s.fc
unfolding file update_timestamps link_to_msg_list
fc-file m s = ground arith

domain-file : (m : Message) (s : Session) → (file m s).domain ≡ s.domain
unfolding file update_timestamps link_to_msg_list
domain-file m s = ground arith

Inv-Calm : (c : Ctx) → Inv c → Calm c.s
Inv-Calm c inv = record { pads = inv.pads; counters = inv.counters }

Calm-file : (m : Message) (s : Session) → Calm s → Calm (file m s)
Calm-file m s calm = record {
  pads =
      subst (λ p. PadsReady (file m s).sec.cipher p) (sym (pad-file m s))
        (subst (λ (x : Security). PadsReady x.cipher s.pad) (sym (sec-file m s)) calm.pads);
  counters = subst (λ f. CountersOk (record f { predict = 0 })) (sym (fc-file m s)) calm.counters;
}

-- The session forgets the message.
forget-Calm : (s : Session) → Calm s → Calm (record s { new_msg = false })
forget-Calm s calm = record { pads = calm.pads; counters = calm.counters }

let_go-Idle : (env : Env) (w : World) → WorldInv env w → Safe (Idle env) (let_go w)
unfolding let_go
let_go-Idle env w inv =
    let m = w.cs.m in
    let cs = Inv-Calm w.cs inv.cs in
    Safe-cases (Idle env) (not w.cs.s.new_msg) _ _
      (λ gone. record {
        cs = cs;
        ps = λ on. Inv-Calm (with_session w.ps w.cs) (inv.ps on);
        cs_domain = inv.cs_domain;
        ps_domain = inv.ps_domain;
        released = ground (arith, gone);
      })
      λ present.
        Safe-cases (Idle env) (m.domain == 0) _ _
          (λ circuit. record {
            cs = forget-Calm (file m w.cs.s) (Calm-file m w.cs.s cs);
            ps = λ on. Inv-Calm (with_session w.ps w.cs) (inv.ps on);
            cs_domain = domain-file m w.cs.s ∙ inv.cs_domain;
            ps_domain = inv.ps_domain;
            released = refl;
          })
          λ other.
            Safe-cases (Idle env) (m.domain == 1) _ _
              (λ packet. record {
                cs = forget-Calm w.cs.s cs;
                ps = λ on. Calm-file m w.ps (Inv-Calm (with_session w.ps w.cs) (inv.ps on));
                cs_domain = inv.cs_domain;
                ps_domain = λ on. domain-file m w.ps ∙ inv.ps_domain on;
                released = refl;
              })
              (λ none_. absurd (ground (arith, other, none_, inv.cs.known)))

module _ (env : Env) (smsc : List ℕ) where
  handle_gsm-WorldInv :
      (w : World)
      → HeldWorld env w
      → HasRoom w.cs.s.fc
      → IsChannel (low_bits w.cs.m.flags 4)
      → Safe (WorldInv env) (handle_gsm env smsc w)
  unfolding handle_gsm IsChannel
  handle_gsm-WorldInv w held room channel =
      let ch = low_bits w.cs.m.flags 4 in
      let idle : WorldInv env w = record {
        cs = held.cs.1;
        ps = λ on. (held.ps on).1;
        cs_domain = held.cs_domain;
        ps_domain = held.ps_domain;
      } in
      Safe-cases (WorldInv env) (ch == msg_sacch) _ _
        (λ e.
          Safe-cases (WorldInv env) (not (w.cs.s.rat == rat_gsm)) _ _ (λ e'. idle)
            (λ e'. handle_lapdm-WorldInv env smsc sacch _ _ _ _ w held room))
        λ no_sacch.
          Safe-cases (WorldInv env) (ch == msg_sdcch) _ _
            (λ e.
              Safe-cases (WorldInv env) (not (w.cs.s.rat == rat_gsm)) _ _ (λ e'. idle)
                (λ e'. handle_lapdm-WorldInv env smsc sdcch _ _ _ _ w held room))
            λ no_sdcch.
              Safe-cases (WorldInv env) (ch == msg_facch) _ _
                (λ e. handle_lapdm-WorldInv env smsc facch _ _ _ _ w held room)
                λ no_facch.
                  Safe-cases (WorldInv env) (ch == msg_bcch) _ _
                    (λ e. handle_dtap-WorldInv env smsc _ _ _ _ w held)
                    (λ no_bcch.
                      absurd (ground (arith, channel, no_sacch, no_sdcch, no_facch, no_bcch)))

  domains_hold : {w : World} → Idle env w → not (has_domains env.cfg.auto_reset w) ≡ true → ⊥
  unfolding has_domains
  domains_hold {w} idle wrong = elim (Bool-cases env.cfg.auto_reset) [
    | inl on ↦ ground (arith, on, wrong, idle.cs_domain, idle.ps_domain on)
    | inr off ↦ ground (arith, off, wrong, idle.cs_domain)
  ]

  HasRoom-take :
      (m : Message) (w : World) → HasRoom w.cs.s.fc → HasRoom (take env.cfg.auto_reset m w).cs.s.fc
  unfolding take
  HasRoom-take m w room = room

  IsChannel-take :
      (m : Message) (w : World)
      → IsChannel (low_bits m.flags 4)
      → IsChannel (low_bits (take env.cfg.auto_reset m w).cs.m.flags 4)
  unfolding take IsChannel
  IsChannel-take m w channel = subst IsChannel (sym (low_bits-decoded m.flags)) channel

  -- A message of GSM that is new to both sessions, of a known domain and on one of the four
  -- channels, fails no assertion, whatever it says, in sessions that are idle, while no counter is
  -- about to wrap. When the call returns, the first session holds no message and both sessions are
  -- idle again.
  pub handle_radio_msg-Idle :
      (other_radio : World → Outcome World) (m : Message) (w : World)
      → Idle env w
      → IsFresh env w m
      → m.rat ≡ rat_gsm
      → HasRoom w.cs.s.fc
      → Safe (Idle env) (handle_radio_msg env smsc other_radio m w)
  unfolding handle_radio_msg
  handle_radio_msg-Idle other_radio m w idle fresh gsm room =
      let w' = take env.cfg.auto_reset m w in
      Safe-cases (Idle env) (not (has_domains env.cfg.auto_reset w)) _ _
        (λ wrong. absurd (domains_hold idle wrong))
        λ right.
          Safe-cases (Idle env) (m.rat == rat_gsm) _ _
            (λ e.
              Safe-bind (WorldInv env) (Idle env) (handle_gsm env smsc w') let_go
                (handle_gsm-WorldInv w' (take-HeldWorld env m w idle fresh) (HasRoom-take m w room)
                  (IsChannel-take m w fresh.channel))
                (let_go-Idle env))
            (λ other. absurd (ground (arith, gsm, other)))
