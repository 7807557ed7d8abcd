-- ===== src/L3/Receive.antt =====
-- gsm-parser/l3_handler.c: `update_timestamps` and `handle_radio_msg`, the entry of every message.
pub mod Laws
use srlabs.Base.{ℕ, ◌+◌, ◌-◌, ◌*◌, ◌^◌, Bool, true, false, ◌&&◌, ◌||◌, not, List, [], ◌∷◌}
use srlabs.Base.{
  Outcome, done, abort, ◌>>=◌, ltb, ◌==◌, nonzero, if◌then◌else◌, u32, bit, low_bits, Mem, shift,
}
use srlabs.Radio.{
  Message, rat_gsm, rat_umts, rat_lte, msg_sdcch, msg_sacch, msg_facch, msg_bcch, is_uplink,
  is_decoded, decoded_bit, set_bit,
}
use srlabs.Session.{Session, Ctx, Report, link_to_msg_list}
use srlabs.L3.Core.{seen_fn}
use srlabs.L3.Env.{Env}
use srlabs.L3.Dtap.{World, handle_dtap}
use srlabs.L3.Lapdm.{sdcch, sacch, facch, handle_lapdm}

-- The first and the last frame number of a started session that has a message.
pub update_timestamps : ℕ → Session → Session
update_timestamps fn s =
    if s.new_msg && s.started
    then record s {
      tr = record (s.tr) {
        first_fn = if nonzero s.tr.first_fn then s.tr.first_fn else seen_fn fn;
        last_fn = fn;
      };
    }
    else s

-- The message comes into both sessions, the second with `auto_reset` only.
pub take : Bool → Message → World → World
take auto_reset m w = record {
  cs = record (w.cs) {
    s = record (w.cs.s) { new_msg = true };
    m = record m { info = []; flags = set_bit decoded_bit m.flags };
    live = true;
  };
  ps = record (w.ps) { new_msg = auto_reset || w.ps.new_msg };
}

-- `assert(s[i].domain == i)`.
pub has_domains : Bool → World → Bool
has_domains auto_reset w = w.cs.s.domain == 0 && (not auto_reset || w.ps.domain == 1)

-- The cases of the switch on the channel. `x - n` wraps around in unsigned.
module _ (env : Env) (smsc : List ℕ) where
  pub handle_gsm : World → Outcome World
  handle_gsm w =
      let m = w.cs.m in
      let ul = is_uplink m in
      let ch = low_bits m.flags 4 in
      let elsewhere = not (w.cs.s.rat == rat_gsm) in
      if ch == msg_sacch
      then (if elsewhere
          then done w
          else handle_lapdm env smsc sacch (shift m.msg 2) (u32 (m.msg_len + 2 ^ 32 - 2)) m.fn ul w)
      else if ch == msg_sdcch
      then (if elsewhere then done w else handle_lapdm env smsc sdcch m.msg m.msg_len m.fn ul w)
      else if ch == msg_facch
      then handle_lapdm env smsc facch m.msg m.msg_len m.fn ul w
      else if ch == msg_bcch
      then handle_dtap env smsc (shift m.msg 1) (u32 (m.msg_len + 2 ^ 32 - 1)) m.fn ul w
      else abort

-- The message goes into the list of a session, or is freed.
pub file : Message → Session → Session
file m s =
    if is_decoded m then link_to_msg_list (update_timestamps m.fn s) m else update_timestamps m.fn s

-- The message leaves the first session for the list of the session of its domain.
pub let_go : World → Outcome World
let_go w =
    let m = w.cs.m in
    let live = w.cs.live && is_decoded m in
    if not w.cs.s.new_msg
    then done w
    else if m.domain == 0
    then done (record w {
      cs = record (w.cs) { s = record (file m w.cs.s) { new_msg = false }; live = live };
    })
    else if m.domain == 1
    then done (record {
      cs = record (w.cs) { s = record (w.cs.s) { new_msg = false }; live = live };
      ps = file m w.ps;
    })
    else abort

-- `other_radio` stands for the messages of UMTS and LTE.
module _ (env : Env) (smsc : List ℕ) (other_radio : World → Outcome World) where
  pub handle_radio_msg : Message → World → Outcome World
  handle_radio_msg m w =
      let w' = take env.cfg.auto_reset m w in
      if not (has_domains env.cfg.auto_reset w)
      then abort
      else if m.rat == rat_gsm
      then handle_gsm env smsc w' >>= let_go
      else if m.rat == rat_umts || m.rat == rat_lte
      then other_radio w' >>= let_go
      else done w'
