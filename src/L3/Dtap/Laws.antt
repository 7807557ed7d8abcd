-- ===== src/L3/Dtap/Laws.antt =====
-- gsm-parser/l3_handler.c: a message of layer 3 fails no assertion, and a message is dropped only
-- when it repeats the last one.
use srlabs.Base.{ℕ, ◌≤◌, ◌≡◌, refl, ap, ◌∙◌, sym, subst, arith, Bool, true, false, not, List, []}
use srlabs.Base.{Safe, Safe-cases, Safe-bind, Outcome, Mem, low_bits, ◌==◌, nonzero}
use srlabs.Session.{Ctx, contains}
use srlabs.L3.Core.{Core, core, Keeps, set_msg_info-Keeps}
use srlabs.L3.Inv.{Inv-core, HeldInv, Stays, HeldInv-Keeps, HeldInv-core}
use srlabs.L3.Env.{Env}
use srlabs.L3.Cc.Laws.{handle_cc-Keeps, handle_ss-Keeps}
use srlabs.L3.Sms.Laws.{handle_sms-Keeps}
use srlabs.L3.Mm.Laws.{handle_mm-Stays}
use srlabs.L3.Rr.{RrType, chan_rel, rr_type, handle_rr}
use srlabs.L3.Rr.Laws.{LiveUnless, LeavesRr, handle_rr-Leaves}
use srlabs.L3.Gmm.Laws.{handle_gmm-Stays, handle_sm-Stays}
use srlabs.L3.Dtap.{
  World, discard, remember, is_double, Protocol, cc, mm, rr, mm_gprs, sms, sm_gprs, ss,
  other_protocol, unhandled, protocol, on_cs, released, handle_gprs, handle_protocol,
  handle_new_dtap, handle_dtap,
}
use srlabs.L3.Dtap.Both.{WorldInv, HeldWorld, other-Inv, on_cs-WorldInv, on_ps-WorldInv}

module _ (env : Env) (smsc : List ℕ) where
  handle_gprs-WorldInv :
      (handler : Ctx → Outcome Ctx) (w : World)
      → HeldWorld env w
      → ((c : Ctx) → HeldInv c → Safe (Stays c) (handler c))
      → Safe (WorldInv env) (handle_gprs env smsc handler w)
  unfolding handle_gprs
  handle_gprs-WorldInv handler w held safe =
      Safe-cases (WorldInv env) env.cfg.auto_reset _ _
        (λ on. on_ps-WorldInv env w _ on held (safe _ (held.ps on)))
        (λ off. on_cs-WorldInv env w _ held (safe w.cs held.cs))

  rr-WorldInv :
      (t : RrType) (dtap : Mem) (len : ℕ) (w : World) (c' : Ctx)
      → rr_type (dtap 1) ≡ t
      → nonzero len ≡ true
      → HeldWorld env w
      → LeavesRr t w.cs c'
      → WorldInv env (record { cs = c'; ps = released env.cfg.auto_reset dtap len w.ps })
  unfolding released LiveUnless
  rr-WorldInv chan_rel dtap len w c' type some_len held (leaves, live) =
      rw (released, type)
        (record {
          cs = leaves.0;
          ps = λ on. record {
            apart =
                subst (λ a. contains w.ps.msgs a ≡ false) (sym (ap (λ (t : ℕ × ℕ). t.0) leaves.1))
                  (held.ps on).1.apart;
            known = leaves.0.known;
            alive = λ h. absurd (ground (arith, on, some_len, h));
            pads = (held.ps on).1.pads;
            counters = (held.ps on).1.counters;
          };
          cs_domain = ap (λ (t : ℕ × ℕ). t.1) leaves.1 ∙ held.cs_domain;
          ps_domain = held.ps_domain;
        })
  rr-WorldInv t dtap len w c' type some_len held (leaves, live) =
      rw (released, type)
        (record {
          cs = leaves.0;
          ps = λ on.
              other-Inv w.ps w.cs c' (ap (λ (t : ℕ × ℕ). t.0) leaves.1) leaves.0.known live
                (held.ps on).1;
          cs_domain = ap (λ (t : ℕ × ℕ). t.1) leaves.1 ∙ held.cs_domain;
          ps_domain = held.ps_domain;
        })

  handle_rr-WorldInv :
      (dtap : Mem) (len fn : ℕ) (w : World)
      → nonzero len ≡ true
      → HeldWorld env w
      → Safe
          (WorldInv env)
          (on_cs (released env.cfg.auto_reset dtap len w.ps) (handle_rr env dtap len fn w.cs))
  unfolding on_cs
  handle_rr-WorldInv dtap len fn w some_len held =
      Safe-bind (LeavesRr (rr_type (dtap 1)) w.cs) (WorldInv env) (handle_rr env dtap len fn w.cs) _
        (handle_rr-Leaves env dtap len fn w.cs held.cs)
        (λ c' h. rr-WorldInv (rr_type (dtap 1)) dtap len w c' refl some_len held h)

  pub cs-Keeps :
      (o : Outcome Ctx) (w : World)
      → HeldWorld env w
      → Keeps w.cs o
      → Safe (WorldInv env) (on_cs w.ps o)
  cs-Keeps o w held k = on_cs-WorldInv env w o held (HeldInv-Keeps w.cs o held.cs k)

  handle_protocol-WorldInv :
      (t : Protocol) (dtap : Mem) (len fn : ℕ) (ul : Bool) (w : World)
      → nonzero len ≡ true
      → HeldWorld env w
      → Safe (WorldInv env) (handle_protocol env smsc t dtap len fn ul w)
  unfolding handle_protocol
  handle_protocol-WorldInv cc dtap len fn ul w some_len held =
      cs-Keeps _ w held (handle_cc-Keeps env dtap len ul w.cs held.cs.0)
  handle_protocol-WorldInv mm dtap len fn ul w some_len held =
      on_cs-WorldInv env w _ held (handle_mm-Stays env dtap len fn w.cs held.cs)
  handle_protocol-WorldInv rr dtap len fn ul w some_len held =
      handle_rr-WorldInv dtap len fn w some_len held
  handle_protocol-WorldInv mm_gprs dtap len fn ul w some_len held =
      handle_gprs-WorldInv _ w held (handle_gmm-Stays env dtap len)
  handle_protocol-WorldInv sms dtap len fn ul w some_len held =
      cs-Keeps _ w held (handle_sms-Keeps env dtap len smsc w.cs held.cs.0)
  handle_protocol-WorldInv sm_gprs dtap len fn ul w some_len held =
      handle_gprs-WorldInv _ w held (handle_sm-Stays dtap len)
  handle_protocol-WorldInv ss dtap len fn ul w some_len held =
      cs-Keeps _ w held (handle_ss-Keeps dtap len w.cs held.cs.0)
  handle_protocol-WorldInv (unhandled name) dtap len fn ul w some_len held =
      cs-Keeps _ w held (set_msg_info-Keeps _ w.cs held.cs.0)
  handle_protocol-WorldInv other_protocol dtap len fn ul w some_len held =
      cs-Keeps _ w held (set_msg_info-Keeps _ w.cs held.cs.0)

  pub HeldWorld-Stays :
      (w : World) (c' : Ctx)
      → HeldWorld env w
      → Stays w.cs c'
      → HeldWorld env (record { cs = c'; ps = w.ps })
  HeldWorld-Stays w c' held (inv, same) = record {
    cs = inv;
    ps = λ on. (
      ((held.ps on).0.0, inv.0.1),
      other-Inv w.ps w.cs c' (ap (λ (t : ℕ × ℕ). t.0) same) inv.1.known inv.0.1 (held.ps on).1,
    );
    cs_domain = ap (λ (t : ℕ × ℕ). t.1) same ∙ held.cs_domain;
    ps_domain = held.ps_domain;
  }

  pub WorldInv-core :
      (w : World) (c' : Ctx)
      → core c' ≡ core w.cs
      → WorldInv env w
      → WorldInv env (record { cs = c'; ps = w.ps })
  WorldInv-core w c' same inv = record {
    cs = Inv-core w.cs c' same inv.cs;
    ps = λ on. record {
      apart =
          subst (λ a. contains w.ps.msgs a ≡ false) (sym (ap (λ (k : Core). k.addr) same))
            (inv.ps on).apart;
      known = subst (λ n. n ≤ 1) (sym (ap (λ (k : Core). k.m_domain) same)) (inv.ps on).known;
      alive = λ h. ap (λ (k : Core). k.live) same ∙ (inv.ps on).alive h;
      pads = (inv.ps on).pads;
      counters = (inv.ps on).counters;
    };
    cs_domain = ap (λ (k : Core). k.domain) same ∙ inv.cs_domain;
    ps_domain = inv.ps_domain;
  }

  -- A step that keeps the core of the first session and its message.
  pub HeldWorld-core :
      (w : World) (c' : Ctx)
      → core c' ≡ core w.cs
      → HeldWorld env w
      → HeldWorld env (record { cs = c'; ps = w.ps })
  HeldWorld-core w c' same held = record {
    cs = HeldInv-core w.cs c' same held.cs;
    ps = λ on.
        let (held_ps, inv) = held.ps on in
        let live = ap (λ (k : Core). k.live) same in
        (
          (held_ps.0, subst (λ b. b ≡ true) (sym live) held_ps.1),
          other-Inv w.ps w.cs c' (ap (λ (k : Core). k.addr) same)
              (subst (λ n. n ≤ 1) (sym (ap (λ (k : Core). k.m_domain) same)) inv.known)
              (subst (λ b. b ≡ true) (sym live) held_ps.1) inv,
        );
    cs_domain = ap (λ (k : Core). k.domain) same ∙ held.cs_domain;
    ps_domain = held.ps_domain;
  }

  core-is_double : (msg : Mem) (len : ℕ) (c : Ctx) → core (is_double msg len c).1 ≡ core c
  unfolding is_double discard remember
  core-is_double msg len c = ground arith

  handle_new_dtap-WorldInv :
      (b : Bool) (msg : Mem) (len fn : ℕ) (ul : Bool) (w : World)
      → nonzero len ≡ true
      → HeldWorld env w
      → Safe (WorldInv env) (handle_new_dtap env smsc (b, w.cs) msg len fn ul w.ps)
  unfolding handle_new_dtap
  handle_new_dtap-WorldInv true msg len fn ul w some_len held =
      cs-Keeps _ w held (set_msg_info-Keeps _ w.cs held.cs.0)
  handle_new_dtap-WorldInv false msg len fn ul w some_len held =
      handle_protocol-WorldInv (protocol (low_bits (msg 0) 4)) msg len fn ul w some_len held

  -- A message of layer 3 fails no assertion and aborts in no padding check, and both sessions
  -- afterwards satisfy their invariants, whatever the message says.
  pub handle_dtap-WorldInv :
      (msg : Mem) (len fn : ℕ) (ul : Bool) (w : World)
      → HeldWorld env w
      → Safe (WorldInv env) (handle_dtap env smsc msg len fn ul w)
  unfolding handle_dtap
  handle_dtap-WorldInv msg len fn ul w held =
      let c = record (w.cs) { m = record (w.cs.m) { info = [] } } in
      let cleared = HeldWorld-core w c refl held in
      Safe-cases (WorldInv env) (not w.cs.s.new_msg) _ _
        (λ missing. absurd (ground (arith, missing, held.cs.0.0)))
        (λ present.
          Safe-cases (WorldInv env) (len == 0) _ _
            (λ empty.
              cs-Keeps _ (record { cs = c; ps = w.ps }) cleared (set_msg_info-Keeps _ c held.cs.0))
            (λ some_len.
              handle_new_dtap-WorldInv (is_double msg len c).0 msg len fn ul
                (record { cs = (is_double msg len c).1; ps = w.ps }) (ground (arith, some_len))
                (HeldWorld-core w (is_double msg len c).1 (core-is_double msg len c) held)))
