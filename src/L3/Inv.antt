-- ===== src/L3/Inv.antt =====
-- The invariant of a session: the messages that it owns, the padding checks, and the counters.
use srlabs.Base.{ℕ, ◌+◌, ◌≤◌, ◌≡◌, refl, arith, Bool, true, false, Outcome, Safe, Returns}
use srlabs.Base.{
  subst, sym, ap, ◌∙◌, Safe-mono, Safe-bind, ◌>>=◌, Bool-cases, inl, inr, Returns-elim,
}
use srlabs.RandCheck.{RandState}
use srlabs.Radio.{Message}
use srlabs.Session.{
  Ctx, Config, FrameCount, Padding, contains, session_reset, zero_security, zero_fc, zero_padding,
}
use srlabs.Session.Laws.{Owned, session_reset-Owned, session_reset-clean, session_reset-off}
use srlabs.L3.Core.{Core, core, Keeps, IsHeld, IsHeld-core}

-- `rand_check` aborts on an unencrypted message after an encrypted one: a state that has seen
-- encryption belongs to a session with a cipher.
abbrev pub Ready : ℕ → RandState → Type 0
Ready cipher r = 1 ≤ r.ciphered → 1 ≤ cipher

pub record PadsReady (cipher : ℕ) (p : Padding) : Type 0 where
  pub null : Ready cipher p.null
  pub si5 : Ready cipher p.si5
  pub si5bis : Ready cipher p.si5bis
  pub si5ter : Ready cipher p.si5ter
  pub si6 : Ready cipher p.si6
  pub other_sdcch : Ready cipher p.other_sdcch
  pub other_sacch : Ready cipher p.other_sacch

-- Each counter counts a part of the frames that another counts.
pub record CountersOk (f : FrameCount) : Type 0 where
  pub enc_parts : f.enc_null + f.enc_si ≤ f.enc
  pub enc_rand : f.enc_rand ≤ f.enc
  pub null_rand : f.enc_null_rand ≤ f.enc_null
  pub si_rand : f.enc_si_rand ≤ f.enc_si
  pub unenc_rand : f.unenc_rand ≤ f.unenc

pub record CoreOk (k : Core) : Type 0 where
  pub apart : contains k.msgs k.addr ≡ false
  pub known : k.m_domain ≤ 1
  pub alive : k.new_msg ≡ true → k.live ≡ true
  pub pads : PadsReady k.cipher k.pad
  pub counters : CountersOk k.fc

abbrev pub Inv : Ctx → Type 0
Inv c = CoreOk (core c)

abbrev pub HeldInv : Ctx → Type 0
HeldInv c = IsHeld c × Inv c

pub Inv-core : (c c' : Ctx) → core c' ≡ core c → Inv c → Inv c'
Inv-core c c' e inv = subst CoreOk (sym e) inv

pub HeldInv-core : (c c' : Ctx) → core c' ≡ core c → HeldInv c → HeldInv c'
HeldInv-core c c' e (held, inv) = (IsHeld-core c c' e held, Inv-core c c' e inv)

-- Other padding states.
pub HeldInv-pads :
    (c : Ctx) (p : Padding)
    → HeldInv c
    → PadsReady c.s.sec.cipher p
    → HeldInv (record c { s = record (c.s) { pad = p } })
HeldInv-pads c p (held, inv) ready = (
  held,
  record {
    apart = inv.apart;
    known = inv.known;
    alive = inv.alive;
    pads = ready;
    counters = inv.counters;
  },
)

-- The message in hand, and the domain of the session.
abbrev pub tag : Ctx → ℕ × ℕ
tag c = (c.m.addr, c.s.domain)

-- The invariant, with the message that `c` had in hand, in a session of the same domain.
abbrev pub Stays : Ctx → Ctx → Type 0
Stays c c' = HeldInv c' × (tag c' ≡ tag c)

pub tag-core : (c c' : Ctx) → core c' ≡ core c → tag c' ≡ tag c
tag-core c c' e = ap (λ (k : Core). (k.addr, k.domain)) e

-- A handler that keeps the core keeps the invariant.
pub HeldInv-Keeps : (c : Ctx) (o : Outcome Ctx) → HeldInv c → Keeps c o → Safe (Stays c) o
HeldInv-Keeps c o inv k =
    Safe-mono (λ c'. core c' ≡ core c) (Stays c) o
      (λ c' e. (HeldInv-core c c' e inv, tag-core c c' e)) k

pub Stays-from :
    (c c' : Ctx) (o : Outcome Ctx) → tag c' ≡ tag c → Safe (Stays c') o → Safe (Stays c) o
Stays-from c c' o e h = Safe-mono (Stays c') (Stays c) o (λ d (inv, e'). (inv, e' ∙ e)) h

pub Stays-bind :
    (c : Ctx) (m : Outcome Ctx) (f : Ctx → Outcome Ctx)
    → Safe (Stays c) m
    → ((c' : Ctx) → HeldInv c' → Safe (Stays c') (f c'))
    → Safe (Stays c) (m >>= f)
Stays-bind c m f h k =
    Safe-bind (Stays c) (Stays c) m f h (λ c' (inv, e). Stays-from c c' (f c') e (k c' inv))

pads_clean : (cipher : ℕ) → PadsReady cipher zero_padding
pads_clean cipher = record {
  null = λ h. absurd (omega arith);
  si5 = λ h. absurd (omega arith);
  si5bis = λ h. absurd (omega arith);
  si5ter = λ h. absurd (omega arith);
  si6 = λ h. absurd (omega arith);
  other_sdcch = λ h. absurd (omega arith);
  other_sacch = λ h. absurd (omega arith);
}

counters_clean : CountersOk zero_fc
counters_clean = omega arith

CoreOk_clean :
    (c : Ctx)
    → Owned c
    → c.m.domain ≤ 1
    → (c.s.sec ≡ zero_security) × (c.s.fc ≡ zero_fc) × (c.s.pad ≡ zero_padding)
    → Inv c
CoreOk_clean c owned known (sec, fc, pad) = record {
  apart = owned.apart;
  known = known;
  alive = owned.alive;
  pads = subst (PadsReady c.s.sec.cipher) (sym pad) (pads_clean c.s.sec.cipher);
  counters = subst (λ f. CountersOk (record f { predict = 0 })) (sym fc) counters_clean;
}

-- A forced reset keeps the message in hand, and starts with clean counters and checks.
pub session_reset-HeldInv :
    (cfg : Config) (c : Ctx) → HeldInv c → Returns (Stays c) (session_reset cfg true c)
session_reset-HeldInv cfg c (held, inv) = elim (Bool-cases cfg.auto_reset) [
  | inr off ↦ rw (session_reset-off cfg true c off) ((held, inv), refl)
  | inl on ↦
      (let owned : Owned c = record { apart = inv.apart; alive = inv.alive } in
        let (c', e, kept) = Returns-elim _ _ (session_reset-Owned cfg true c on owned) in
        let clean = session_reset-clean cfg true c on e in
        rw e (
          (
            (ground (arith, kept), ground (arith, kept)),
            CoreOk_clean c' kept.0 (subst (λ (m : Message). m.domain ≤ 1) (sym kept.2) inv.known)
                (clean.0, clean.1, clean.2),
          ),
          cc (kept.2, kept.3),
        ))
]

-- The invariant, in a session of the same domain.
abbrev pub Leaves : Ctx → Ctx → Type 0
Leaves c c' = Inv c' × (tag c' ≡ tag c)

-- Any reset keeps the invariant; the message in hand may be gone.
pub session_reset-Inv :
    (cfg : Config) (forced : Bool) (c : Ctx)
    → Inv c
    → Returns (Leaves c) (session_reset cfg forced c)
session_reset-Inv cfg forced c inv = elim (Bool-cases cfg.auto_reset) [
  | inr off ↦ rw (session_reset-off cfg forced c off) (inv, refl)
  | inl on ↦
      (let owned : Owned c = record { apart = inv.apart; alive = inv.alive } in
        let (c', e, kept) = Returns-elim _ _ (session_reset-Owned cfg forced c on owned) in
        let clean = session_reset-clean cfg forced c on e in
        rw e (
          CoreOk_clean c' kept.0 (subst (λ (m : Message). m.domain ≤ 1) (sym kept.2) inv.known)
              (clean.0, clean.1, clean.2),
          cc (kept.2, kept.3),
        ))
]
