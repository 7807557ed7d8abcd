-- ===== src/L3/Core.antt =====
-- What most handlers of L3 messages leave alone, and the invariant that is about just that.
use srlabs.Base.{done, u32, ◌+◌, ℕ, ◌≡◌, arith, Bool, true, false, List, Outcome, Safe}
use srlabs.Base.{nonzero, if◌then◌else◌, ◌∙◌, ◌>>=◌, Safe-mono, Safe-bind}
use srlabs.Radio.{Piece}
use srlabs.Session.{
  Session, Ctx, FrameCount, Padding, Identity, Security, Report, set_msg_info, append_msg_info,
  gsm_max_fn,
}

-- Assignments to a part of the session.
abbrev pub with_session : Session → Ctx → Ctx
with_session s c = record c { s = s }

abbrev pub with_sec : Security → Ctx → Ctx
with_sec x c = record c { s = record (c.s) { sec = x } }

abbrev pub with_who : Identity → Ctx → Ctx
with_who x c = record c { s = record (c.s) { who = x } }

abbrev pub with_tr : Report → Ctx → Ctx
with_tr x c = record c { s = record (c.s) { tr = x } }

abbrev pub with_fc : FrameCount → Ctx → Ctx
with_fc x c = record c { s = record (c.s) { fc = x } }

-- `s->started = 1; s->closed = 0;`
abbrev pub open_session : Ctx → Ctx
open_session c = record c { s = record (c.s) { started = true; closed = false } }

-- `s->mo = 1`, `s->mt = 1` and `s->unknown = 1`.
abbrev pub mark_mo : Ctx → Ctx
mark_mo c = with_tr (record (c.s.tr) { mo = true }) c

abbrev pub mark_mt : Ctx → Ctx
mark_mt c = with_tr (record (c.s.tr) { mt = true }) c

abbrev pub mark_unknown : Ctx → Ctx
mark_unknown c = with_tr (record (c.s.tr) { unknown = true }) c

-- `s->fc.predict++` where the frame was predictable.
abbrev pub predict : Bool → Ctx → Ctx
predict b c = if b then with_fc (record (c.s.fc) { predict = u32 (c.s.fc.predict + 1) }) c else c

-- The frame number, or GSM_MAX_FN in place of zero, which means "not seen".
abbrev pub seen_fn : ℕ → ℕ
seen_fn fn = if nonzero fn then fn else gsm_max_fn

-- Of the counters the core leaves out `predict`, which several handlers count up.
pub record Core : Type 0 where
  pub cipher : ℕ
  pub fc : FrameCount
  pub pad : Padding
  pub msgs : List ℕ
  pub new_msg : Bool
  pub live : Bool
  pub addr : ℕ
  pub m_domain : ℕ
  pub id : ℕ
  pub domain : ℕ
  pub s_id : ℕ
  pub rows : List ℕ

abbrev pub core : Ctx → Core
core c = record {
  cipher = c.s.sec.cipher;
  fc = record (c.s.fc) { predict = 0 };
  pad = c.s.pad;
  msgs = c.s.msgs;
  new_msg = c.s.new_msg;
  live = c.live;
  addr = c.m.addr;
  m_domain = c.m.domain;
  id = c.s.id;
  domain = c.s.domain;
  s_id = c.s_id;
  rows = c.rows;
}

-- The session points to the message in hand, which is allocated.
abbrev pub IsHeld : Ctx → Type 0
IsHeld c = (c.s.new_msg ≡ true) × (c.live ≡ true)

-- No assertion fails, and the core stays as it is.
abbrev pub Keeps : Ctx → Outcome Ctx → Type 0
Keeps c o = Safe (λ c'. core c' ≡ core c) o

pub set_msg_info-Keeps : (i : List Piece) (c : Ctx) → IsHeld c → Keeps c (set_msg_info i c)
unfolding set_msg_info
set_msg_info-Keeps i c held = ground arith

pub append_msg_info-Keeps : (i : List Piece) (c : Ctx) → IsHeld c → Keeps c (append_msg_info i c)
unfolding append_msg_info
append_msg_info-Keeps i c held = ground arith

pub set_msg_info-held :
    (i : List Piece) (c : Ctx)
    → IsHeld c
    → set_msg_info i c ≡ done (record c { m = record (c.m) { info = i } })
unfolding set_msg_info
set_msg_info-held i c held = ground arith

pub IsHeld-core : (c c' : Ctx) → core c' ≡ core c → IsHeld c → IsHeld c'
IsHeld-core c c' e held = ground arith

-- Handlers that keep the core can follow one another.
pub Keeps-bind :
    (c : Ctx) (m : Outcome Ctx) (f : Ctx → Outcome Ctx)
    → Keeps c m
    → ((c' : Ctx) → core c' ≡ core c → Keeps c' (f c'))
    → Keeps c (m >>= f)
Keeps-bind c m f h k =
    Safe-bind (λ c'. core c' ≡ core c) (λ c'. core c' ≡ core c) m f h
      (λ c' e.
        Safe-mono (λ d. core d ≡ core c') (λ d. core d ≡ core c) (f c') (λ d e'. e' ∙ e) (k c' e))

-- The step before may have changed what lies outside the core.
pub Keeps-from : (c c' : Ctx) (o : Outcome Ctx) → core c' ≡ core c → Keeps c' o → Keeps c o
Keeps-from c c' o e h =
    Safe-mono (λ d. core d ≡ core c') (λ d. core d ≡ core c) o (λ d e'. e' ∙ e) h
