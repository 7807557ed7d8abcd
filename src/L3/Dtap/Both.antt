-- ===== src/L3/Dtap/Both.antt =====
-- gsm-parser/l3_handler.c, `handle_dtap`: the invariant of both sessions, when one of them is handled.
use srlabs.Base.{ℕ, ◌≤◌, ◌≡◌, ap, ◌∙◌, sym, subst, true, false}
use srlabs.Base.{Safe, Safe-bind, Outcome}
use srlabs.Session.{Session, Ctx, contains}
use srlabs.L3.Core.{with_session}
use srlabs.L3.Inv.{Inv, HeldInv, Stays}
use srlabs.L3.Env.{Env}
use srlabs.L3.Dtap.{World, on_cs, on_ps_session}

-- Both sessions satisfy the invariant, each in its domain; the second one counts with `auto_reset`
-- only.
pub record WorldInv (env : Env) (w : World) : Type 0 where
  pub cs : Inv w.cs
  pub ps : env.cfg.auto_reset ≡ true → Inv (with_session w.ps w.cs)
  pub cs_domain : w.cs.s.domain ≡ 0
  pub ps_domain : env.cfg.auto_reset ≡ true → w.ps.domain ≡ 1

-- Both hold the message in hand.
pub record HeldWorld (env : Env) (w : World) : Type 0 where
  pub cs : HeldInv w.cs
  pub ps : env.cfg.auto_reset ≡ true → HeldInv (with_session w.ps w.cs)
  pub cs_domain : w.cs.s.domain ≡ 0
  pub ps_domain : env.cfg.auto_reset ≡ true → w.ps.domain ≡ 1

-- A session next to one that has changed, with the same message.
pub other-Inv :
    (s : Session) (c c' : Ctx)
    → c'.m.addr ≡ c.m.addr
    → c'.m.domain ≤ 1
    → c'.live ≡ true
    → Inv (with_session s c)
    → Inv (with_session s c')
other-Inv s c c' addr known live inv = record {
  known = known;
  apart = subst (λ a. contains s.msgs a ≡ false) (sym addr) inv.apart;
  alive = λ h. live;
  pads = inv.pads;
  counters = inv.counters;
}

pub on_cs-WorldInv :
    (env : Env) (w : World) (o : Outcome Ctx)
    → HeldWorld env w
    → Safe (Stays w.cs) o
    → Safe (WorldInv env) (on_cs w.ps o)
unfolding on_cs
on_cs-WorldInv env w o held h = Safe-bind (Stays w.cs) (WorldInv env) o _ h λ c' (inv, same).
    record {
      cs = inv.1;
      ps = λ on.
          other-Inv w.ps w.cs c' (ap (λ (t : ℕ × ℕ). t.0) same) inv.1.known inv.0.1 (held.ps on).1;
      cs_domain = ap (λ (t : ℕ × ℕ). t.1) same ∙ held.cs_domain;
      ps_domain = held.ps_domain;
    }

pub on_ps-WorldInv :
    (env : Env) (w : World) (o : Outcome Ctx)
    → env.cfg.auto_reset ≡ true
    → HeldWorld env w
    → Safe (Stays (with_session w.ps w.cs)) o
    → Safe (WorldInv env) (on_ps_session w.cs.s o)
unfolding on_ps_session
on_ps-WorldInv env w o on held h =
    Safe-bind (Stays (with_session w.ps w.cs)) (WorldInv env) o _ h λ c' (inv, same). record {
      cs = other-Inv w.cs.s w.cs c' (ap (λ (t : ℕ × ℕ). t.0) same) inv.1.known inv.0.1 held.cs.1;
      ps = λ on'. inv.1;
      cs_domain = held.cs_domain;
      ps_domain = λ on'. ap (λ (t : ℕ × ℕ). t.1) same ∙ held.ps_domain on;
    }
