-- ===== src/L3/Dtap.antt =====
-- gsm-parser/l3_handler.c: `is_double` and `handle_dtap`, which gives a message of layer 3 to the
-- handler of its protocol.
pub mod Both
pub mod Laws
pub mod Repeat
use srlabs.Base.{ℕ, ◌+◌, ◌-◌, ◌^◌, Bool, true, false, ◌&&◌, ◌||◌, not, List, [], ◌∷◌, min}
use srlabs.Base.{
  Outcome, done, abort, ◌>>=◌, ltb, ◌==◌, nonzero, if◌then◌else◌, u8, low_bits, Mem, bytes, memcpy,
  every,
}
use srlabs.Radio.{Piece, text, dump, rat_gsm, is_uplink, decoded_bit, clear_bit}
use srlabs.Session.{Session, Ctx, Buffers, set_msg_info}
use srlabs.L3.Core.{with_session}
use srlabs.L3.Env.{Env}
use srlabs.L3.Cc.{handle_cc, handle_ss}
use srlabs.L3.Mm.{handle_mm}
use srlabs.L3.Rr.{RrType, chan_rel, rr_type, handle_rr}
use srlabs.L3.Gmm.{handle_gmm, handle_sm}
use srlabs.L3.Sms.{handle_sms}

-- The session `s[0]` with the message, and the session `s[1]`, which exists with `auto_reset`.
pub record World : Type 0 where
  pub cs : Ctx
  pub ps : Session

-- `sizeof(s->last_dtap)`.
abbrev pub last_dtap_size : ℕ
last_dtap_size = 256

-- `min_len`.
unfoldable pub common_len : ℕ → ℕ → ℕ
common_len len last = if ltb last (min len last_dtap_size) then last else min len last_dtap_size

pub same_bytes : ℕ → Mem → Mem → Bool
same_bytes n p q = every (λ i. p i == q i) n

-- The message has come before, on the other radio technology.
unfoldable pub is_repeated : Mem → ℕ → Ctx → Bool
is_repeated msg len c =
    let n = common_len len c.s.bufs.last_dtap_len in
    let last_gsm = c.s.bufs.last_dtap_rat == rat_gsm in
    let gsm = c.m.rat == rat_gsm in
    nonzero n
    && same_bytes n msg c.s.bufs.last_dtap
    && (if is_uplink c.m then last_gsm && not gsm else not last_gsm && gsm)

-- A repeated message is not kept; on the uplink it shows the technology of the session.
pub discard : Ctx → Ctx
discard c =
    let m = record (c.m) { flags = clear_bit decoded_bit c.m.flags } in
    if is_uplink c.m
    then record c { s = record (c.s) { rat = c.m.rat }; m = m }
    else record c { m = m }

-- `last_dtap_len` is a byte.
pub remember : Mem → ℕ → Ctx → Ctx
remember msg len c = record c {
  s = record (c.s) {
    bufs = record (c.s.bufs) {
      last_dtap = memcpy c.s.bufs.last_dtap 0 msg (min len last_dtap_size);
      last_dtap_len = u8 (min len last_dtap_size);
      last_dtap_rat = c.m.rat;
    };
  };
}

unfoldable pub is_double : Mem → ℕ → Ctx → Bool × Ctx
is_double msg len c =
    if is_repeated msg len c then (true, discard c) else (false, remember msg len c)

-- The cases of the switch on the protocol discriminator.
pub data Protocol : Type 0 where
  cc mm rr mm_gprs sms sm_gprs ss other_protocol : Protocol
  unhandled : Piece → Protocol

pub protocol : ℕ → Protocol
protocol d =
    if d == 0x03
    then cc
    else if d == 0x05
    then mm
    else if d == 0x06
    then rr
    else if d == 0x08
    then mm_gprs
    else if d == 0x09
    then sms
    else if d == 0x0a
    then sm_gprs
    else if d == 0x0b
    then ss
    else if d == 0x00
    then unhandled (text "GCC")
    else if d == 0x01
    then unhandled (text "BCC")
    else if d == 0x02
    then unhandled (text "PDSS1")
    else if d == 0x04
    then unhandled (text "PDSS2")
    else if d == 0x0c
    then unhandled (text "LCS")
    else other_protocol

-- A handler runs on the session `s[0]` or `s[1]`.
unfoldable pub on_cs : Session → Outcome Ctx → Outcome World
on_cs ps o = o >>= λ c. done (record { cs = c; ps = ps })

pub on_ps_session : Session → Outcome Ctx → Outcome World
on_ps_session cs o = o >>= λ c. done (record { cs = with_session cs c; ps = c.s })

-- With `auto_reset` a release takes the message from the other session, too.
pub released : Bool → Mem → ℕ → Session → Session
released auto_reset dtap len ps = elim (rr_type (dtap 1)) [
  | chan_rel ↦ record ps { new_msg = ps.new_msg && not (auto_reset && nonzero len) }
  | _ ↦ ps
]

-- `smsc` is what the buffer of the SMS handler holds before it is set.
module _ (env : Env) (smsc : List ℕ) where
  pub handle_gprs : (Ctx → Outcome Ctx) → World → Outcome World
  handle_gprs handler w =
      if env.cfg.auto_reset
      then on_ps_session w.cs.s (handler (with_session w.ps w.cs))
      else on_cs w.ps (handler w.cs)

  pub handle_protocol : Protocol → Mem → ℕ → ℕ → Bool → World → Outcome World
  handle_protocol cc dtap len fn ul w = on_cs w.ps (handle_cc env dtap len ul w.cs)
  handle_protocol mm dtap len fn ul w = on_cs w.ps (handle_mm env dtap len fn w.cs)
  handle_protocol rr dtap len fn ul w =
      on_cs (released env.cfg.auto_reset dtap len w.ps) (handle_rr env dtap len fn w.cs)
  handle_protocol mm_gprs dtap len fn ul w = handle_gprs (handle_gmm env dtap len) w
  handle_protocol sms dtap len fn ul w = on_cs w.ps (handle_sms env dtap len smsc w.cs)
  handle_protocol sm_gprs dtap len fn ul w = handle_gprs (handle_sm dtap len) w
  handle_protocol ss dtap len fn ul w = on_cs w.ps (handle_ss dtap len w.cs)
  handle_protocol (unhandled name) dtap len fn ul w = on_cs w.ps (set_msg_info (name ∷ []) w.cs)
  handle_protocol other_protocol dtap len fn ul w = on_cs w.ps (
      set_msg_info
        (text "Unknown proto_discr "
          ∷ text (if ul then "UL" else "DL")
          ∷ text ": "
          ∷ dump (bytes dtap len)
          ∷ [])
        w.cs)

  pub handle_new_dtap : Bool × Ctx → Mem → ℕ → ℕ → Bool → Session → Outcome World
  handle_new_dtap (true, c) msg len fn ul ps = on_cs ps (set_msg_info (text "<DOUBLE MSG>" ∷ []) c)
  handle_new_dtap (false, c) msg len fn ul ps =
      handle_protocol (protocol (low_bits (msg 0) 4)) msg len fn ul (record { cs = c; ps = ps })

  pub handle_dtap : Mem → ℕ → ℕ → Bool → World → Outcome World
  handle_dtap msg len fn ul w =
      let c = record (w.cs) { m = record (w.cs.m) { info = [] } } in
      if not w.cs.s.new_msg
      then abort
      else if len == 0
      then on_cs w.ps (set_msg_info (text "<ZERO LENGTH>" ∷ []) c)
      else handle_new_dtap (is_double msg len c) msg len fn ul w.ps
