-- ===== src/Session.antt =====
-- gsm-parser/session.c: the life of a session, from its first message to its report.
-- A call takes the session and the world around it in a `Ctx`: the message in hand, whether that
-- message is still allocated, the next session id, and the rows handed to the database.
mod State
pub mod Laws
pub mod Tests
pub use State.*
use srlabs.Base.{
  ℕ, ◌+◌, ◌-◌, ◌*◌, ◌%◌, ◌^◌, Bool, true, false, ◌&&◌, ◌||◌, not, List, [], ◌∷◌, ◌++◌,
}
use srlabs.Base.{
  Outcome, done, abort, undefined, leb, ◌==◌, nonzero, if◌then◌else◌, u32, Mem, memcpy,
}
use srlabs.Radio.{Message, Piece, rat_gsm}

-- GSM_MAX_FN of libosmocore: frames in a hyperframe.
abbrev pub gsm_max_fn : ℕ
gsm_max_fn = 26 * 51 * 2048

-- The settings of the process, the clock, and the product with 4.615f, the milliseconds of a frame,
-- in single precision.
pub record Config : Type 0 where
  pub auto_reset : Bool
  pub auto_timestamp : Bool
  pub now : ℕ
  pub wall_clock : ℕ
  pub scale : ℕ → ℕ

-- `live` says that the message in hand has not been freed. `rows` are the ids of the sessions whose
-- rows went to `sql_callback`, the last one first.
pub record Ctx : Type 0 where
  pub s : Session
  pub m : Message
  pub live : Bool
  pub s_id : ℕ
  pub rows : List ℕ

unfoldable pub contains : List ℕ → ℕ → Bool
contains [] a = false
contains (x ∷ xs) a = x == a || contains xs a

-- SET_MSG_INFO and APPEND_MSG_INFO. The second has no assertion: a null pointer is dereferenced.
unfoldable pub set_msg_info : List Piece → Ctx → Outcome Ctx
set_msg_info i c =
    if c.s.new_msg
    then (if c.live then done (record c { m = record (c.m) { info = i } }) else undefined)
    else abort

unfoldable pub append_msg_info : List Piece → Ctx → Outcome Ctx
append_msg_info i c =
    if c.s.new_msg && c.live
    then done (record c { m = record (c.m) { info = c.m.info ++ i } })
    else undefined

-- Appends a message to the list of the session.
unfoldable pub link_to_msg_list : Session → Message → Session
link_to_msg_list s m = record s { msgs = s.msgs ++ (m.addr ∷ []) }

-- The first part of a reset: the message in hand is linked, unless the release is forced.
pub detach_new_msg : Bool → Session → Message → Session
detach_new_msg forced s m =
    if forced then s else record (if s.new_msg then link_to_msg_list s m else s) { new_msg = false }

-- The frames from `a` to `b`, in uint32_t.
pub fn_delta : ℕ → ℕ → ℕ
fn_delta a b = if leb a b then b - a else u32 (u32 (b + gsm_max_fn) + 2 ^ 32 - a) % gsm_max_fn

module _ (cfg : Config) where
  -- The estimates of `session_close`.
  pub close_security : Security → Security
  close_security x =
      let auth =
        if nonzero x.auth && nonzero x.auth_req_fn && nonzero x.auth_resp_fn
        then fn_delta x.auth_req_fn x.auth_resp_fn
        else x.auth_delta in
      let ciph =
        if nonzero x.cipher && nonzero x.cm_cmd_fn && nonzero x.cm_comp_last_fn
        then fn_delta x.cm_cmd_fn x.cm_comp_last_fn
        else x.cipher_delta in
      record x { auth_delta = u32 (cfg.scale auth); cipher_delta = u32 (cfg.scale ciph) }

  pub closing_time : Session → ℕ
  closing_time s =
      if cfg.auto_timestamp
      then cfg.wall_clock
      else if nonzero cfg.now
      then cfg.now
      else s.timestamp

  -- Report to console and database, of which the row in the database is kept.
  pub session_close : Session → List ℕ → Session × List ℕ
  session_close s rows = (
    record s {
      processing = false;
      timestamp = closing_time s;
      tr = record (s.tr) { duration = u32 (cfg.scale (fn_delta s.tr.first_fn s.tr.last_fn)) };
      sec = close_security s.sec;
      closed = true;
    },
    (if s.sql_callback && s.started && not s.closed then s.id ∷ rows else rows),
  )

  -- What a reset session keeps of the old one. `s_id` has been counted up already.
  pub fresh_session : Session → ℕ → Bool → Session
  fresh_session old s_id new_msg = record {
    id = if old.started && old.closed then s_id else old.id;
    appid = old.appid;
    name = old.name;
    timestamp = if cfg.auto_timestamp then 0 else old.timestamp;
    rat = 0;
    domain = old.domain;
    started = false;
    closed = false;
    processing = false;
    sec = zero_security;
    who = record zero_identity {
      mcc = old.who.mcc;
      mnc = old.who.mnc;
      lac = old.who.lac;
      cid = if old.rat == rat_gsm then 0 else old.who.cid;
      imsi = old.who.imsi;
    };
    tr = zero_report;
    fc = zero_fc;
    pad = zero_padding;
    bufs =
        (if nonzero old.bufs.last_dtap_len
          then record (old.bufs) {
            last_dtap = memcpy (λ i. 0) 0 old.bufs.last_dtap old.bufs.last_dtap_len;
          }
          else record (old.bufs) { last_dtap = λ i. 0; last_dtap_len = 0; last_dtap_rat = 0 });
    msgs = [];
    new_msg = new_msg;
    sql_callback = old.sql_callback;
  }

  -- The second part of a reset: an open session is closed and reported.
  pub close_if_open : Session → List ℕ → Session × List ℕ
  close_if_open s rows =
      if s.started && not s.closed
      then session_close (record s { tr = record (s.tr) { cracked = true } }) rows
      else (s, rows)

  -- The last part frees the messages of the list, and asserts that the one kept is not among them.
  pub session_reset : Bool → Ctx → Outcome Ctx
  session_reset forced c =
      if cfg.auto_reset
      then (let s = detach_new_msg forced c.s c.m in
          let (old, rows) = close_if_open s c.rows in
          let s_id = if old.started && old.closed then u32 (c.s_id + 1) else c.s_id in
          if forced && old.new_msg && contains old.msgs c.m.addr
          then abort
          else done (record c {
            s = fresh_session old s_id (forced && old.new_msg);
            live = c.live && not (contains old.msgs c.m.addr);
            s_id = s_id;
            rows = rows;
          }))
      else done c
