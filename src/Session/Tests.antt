-- ===== src/Session/Tests.antt =====
-- gsm-parser/session.c: sessions and a message for runs, and the theorems at them.
use srlabs.Base.{
  ℕ, ◌≡◌, refl, arith, true, false, ◌&&◌, ◌||◌, not, List, [], ◌∷◌, mem_of, done, Returns,
}
use srlabs.Radio.{Message}
use srlabs.Session.{
  Session, Ctx, Config, Buffers, LapdmBuf, zero_security, zero_identity, zero_report, zero_fc,
  zero_padding, contains, session_reset, fresh_session, detach_new_msg, close_if_open,
  session_close, close_security, closing_time,
}
use srlabs.Session.Laws.{Owned, IdsOk, session_reset-Owned, session_reset-IdsOk}

abbrev pub empty_buf : LapdmBuf
empty_buf = record {
  len = 0;
  payload = λ i. 0;
  nr = 0;
  ns = 0;
  out_of_seq = 0;
  last_out_of_seq = 0;
}

abbrev pub empty_bufs : Buffers
empty_bufs = record {
  chan_sdcch = λ k. empty_buf;
  chan_sacch = λ k. empty_buf;
  chan_facch = λ k. empty_buf;
  last_dtap = λ i. 0;
  last_dtap_len = 0;
  last_dtap_rat = 0;
}

-- A session that nothing has happened to.
abbrev pub new_session : ℕ → ℕ → Session
new_session id domain = record {
  id = id;
  appid = 0;
  name = [];
  timestamp = 0;
  rat = 0;
  domain = domain;
  started = false;
  closed = false;
  processing = false;
  sec = zero_security;
  who = zero_identity;
  tr = zero_report;
  fc = zero_fc;
  pad = zero_padding;
  bufs = empty_bufs;
  msgs = [];
  new_msg = false;
  sql_callback = true;
}

-- A message at address 7 on the SDCCH.
abbrev pub message : List ℕ → Message
message bytes = record {
  addr = 7;
  rat = 0;
  domain = 0;
  flags = 0x81;
  info = [];
  chan_nr = 0x41;
  msg = mem_of bytes;
  msg_len = 23;
  fn = 100;
  arfcn = 0;
  bb_data = λ i. 0;
}

abbrev pub config : Config
config = record {
  auto_reset = true;
  auto_timestamp = false;
  now = 0;
  wall_clock = 0;
  scale = λ n. n;
}

-- A started session with id 3 that has two messages and one in hand.
abbrev pub busy : Ctx
busy = record {
  s = record (new_session 3 0) { started = true; new_msg = true; msgs = 5 ∷ 6 ∷ [] };
  m = message [];
  live = true;
  s_id = 4;
  rows = 2 ∷ 1 ∷ [];
}

busy-Owned : Owned busy
unfolding contains
busy-Owned = record { apart = refl; alive = λ h. refl }

session_reset-Owned_example :
    Returns
      (λ c.
        Owned c
        × (c.s.msgs ≡ [])
        × (c.m ≡ busy.m)
        × (c.s.domain ≡ busy.s.domain)
        × (c.s.new_msg ≡ (false && true))
        × (c.live ≡ (true && (false || not true))))
      (session_reset config false busy)
session_reset-Owned_example = session_reset-Owned config false busy refl busy-Owned

-- The session is closed and reported, and the next one has the id 5.
abbrev after : Ctx
after = record {
  s = record (new_session 5 0) { new_msg = true };
  m = message [];
  live = true;
  s_id = 5;
  rows = 3 ∷ 2 ∷ 1 ∷ [];
}

session_reset-busy : session_reset config true busy ≡ done after
unfolding session_reset fresh_session detach_new_msg close_if_open session_close close_security
    closing_time contains
session_reset-busy = refl

busy-IdsOk : IdsOk 4 busy
unfolding contains
busy-IdsOk = record {
  id_bound = omega arith;
  other_bound = omega arith;
  ids_differ = λ e. omega (arith, e);
  id_unused = refl;
  other_unused = refl;
  rows_bound = (omega arith, (omega arith, tt));
  rows_distinct = (refl, (refl, tt));
}

session_reset-IdsOk_example : IdsOk 4 after
session_reset-IdsOk_example =
    session_reset-IdsOk config 4 true busy (omega arith) busy-IdsOk session_reset-busy
