-- ===== src/L3/Tests.antt =====
-- gsm-parser/l3_handler.c: the theorems at a session that nothing has happened to.
use srlabs.Base.{
  ℕ, ◌+◌, ◌-◌, ◌≤◌, ◌<◌, ◌≡◌, refl, arith, true, false, ◌||◌, not, List, [], ◌∷◌, ◌++◌, some, none,
  inl, Mem, mem_of, shift, bytes, done, Safe, Returns, if◌then◌else◌, low_bits, ◌==◌,
}
use srlabs.Radio.{Message}
use srlabs.Session.{Ctx, LapdmBuf, contains, zero_padding, zero_fc}
use srlabs.Session.Tests.{empty_buf, new_session, message, config}
use srlabs.L3.Core.{IsHeld, Keeps, with_session}
use srlabs.L3.Inv.{PadsReady, CountersOk, Inv, HeldInv, Stays}
use srlabs.L3.Env.{Env}
use srlabs.L3.Counters.{pad_len, update_counters}
use srlabs.L3.Counters.Laws.{HasRoom, CountsOne, update_counters-Stays, update_counters-counts}
use srlabs.L3.Cc.{handle_cc}
use srlabs.L3.Cc.Laws.{handle_cc-direction}
use srlabs.L3.Sms.{handle_sms}
use srlabs.L3.Sms.Laws.{handle_sms-Keeps}
use srlabs.L3.Mm.{handle_mm}
use srlabs.L3.Mm.Laws.{handle_mm-Stays}
use srlabs.L3.Rr.{rr_type, handle_rr}
use srlabs.L3.Rr.Laws.{LeavesRr, handle_rr-Leaves}
use srlabs.L3.Gmm.{handle_gmm}
use srlabs.L3.Gmm.Laws.{handle_gmm-Stays}
use srlabs.L3.Dtap.{World, is_double, is_repeated, common_len, handle_dtap}
use srlabs.L3.Dtap.Both.{WorldInv, HeldWorld}
use srlabs.L3.Dtap.Laws.{handle_dtap-WorldInv}
use srlabs.L3.Dtap.Repeat.{comes_second, is_double-remembers}
use srlabs.L3.Lapdm.{
  sdcch, frame, frame_kind, is_malformed, is_unknown_sapi, buf_index, get_buf, chan_bufs,
  handle_lapdm,
}
use srlabs.L3.Lapdm.Laws.{handle_lapdm-WorldInv}
use srlabs.L3.Lapdm.Appending.{Expects, Appended}
use srlabs.L3.Lapdm.Fragments.{IsFragment}
use srlabs.L3.Lapdm.Last.{counted, hand_over, handle_lapdm-last}
use srlabs.L3.Lapdm.Reassembly.{Arrival, AreFragments, collect, contents, size, collect-bytes}
use srlabs.L3.Encaps.{encapsulate_lapdm, l1_len}
use srlabs.L3.Encaps.Laws.{whole_frame, frame-encapsulate_lapdm}
use srlabs.L3.Receive.{handle_radio_msg}
use srlabs.L3.Receive.Laws.{Idle, IsFresh, IsChannel, handle_radio_msg-Idle}

-- No information element is found, and no text decoded.
abbrev pub env : Env
env = record {
  cfg = config;
  cc_tlv = λ p n t. none;
  rr_tlv = λ p n t. none;
  decode_7bit = λ p n. ([], 0);
  tpdu_info = λ p n ul smsc. [];
}

-- A frame with a TMSI REALLOC COMPLETE.
abbrev tmsi_complete : Message
tmsi_complete = message (0x03 ∷ 0x03 ∷ 0x09 ∷ 0x05 ∷ 0x1b ∷ [])

abbrev dtap : Mem
dtap = mem_of (0x05 ∷ 0x1b ∷ [])

abbrev pub idle : World
idle = record {
  cs = record { s = new_session 0 0; m = message []; live = false; s_id = 1; rows = [] };
  ps = new_session 1 1;
}

-- The message in hand of a session.
abbrev held : Ctx
held = record {
  s = record (new_session 0 0) { new_msg = true };
  m = tmsi_complete;
  live = true;
  s_id = 1;
  rows = [];
}

abbrev pub held_world : World
held_world = record { cs = held; ps = record (new_session 1 1) { new_msg = true } }

pub no_padding : PadsReady 0 zero_padding
no_padding = record {
  null = λ h. h;
  si5 = λ h. h;
  si5bis = λ h. h;
  si5ter = λ h. h;
  si6 = λ h. h;
  other_sdcch = λ h. h;
  other_sacch = λ h. h;
}

pub no_counts : CountersOk zero_fc
no_counts = omega arith

pub no_counts-HasRoom : HasRoom zero_fc
no_counts-HasRoom = record { enc = omega arith; unenc = omega arith }

idle-Idle : Idle env idle
idle-Idle = record {
  cs = record { pads = no_padding; counters = no_counts };
  ps = λ on. record { pads = no_padding; counters = no_counts };
  cs_domain = refl;
  ps_domain = λ on. refl;
  released = refl;
}

tmsi_complete-IsFresh : IsFresh env idle tmsi_complete
unfolding IsChannel contains
tmsi_complete-IsFresh = record {
  cs = refl;
  ps = λ on. refl;
  domain = omega arith;
  channel = inl refl;
}

held-Inv :
    (id domain : ℕ) → Inv (record held { s = record (new_session id domain) { new_msg = true } })
unfolding contains
held-Inv id domain = record {
  apart = refl;
  known = omega arith;
  alive = λ h. refl;
  pads = no_padding;
  counters = no_counts;
}

held-HeldInv : HeldInv held
held-HeldInv = ((refl, refl), held-Inv 0 0)

pub held_world-HeldWorld : HeldWorld env held_world
held_world-HeldWorld = record {
  cs = held-HeldInv;
  ps = λ on. ((refl, refl), held-Inv 1 1);
  cs_domain = refl;
  ps_domain = λ on. refl;
}

handle_radio_msg-Idle_example : Safe (Idle env) (handle_radio_msg env [] done tmsi_complete idle)
handle_radio_msg-Idle_example =
    handle_radio_msg-Idle env [] done tmsi_complete idle idle-Idle tmsi_complete-IsFresh refl
      no_counts-HasRoom

handle_lapdm-WorldInv_example :
    Safe (WorldInv env) (handle_lapdm env [] sdcch tmsi_complete.msg 23 100 false held_world)
handle_lapdm-WorldInv_example =
    handle_lapdm-WorldInv env [] sdcch tmsi_complete.msg 23 100 false held_world
      held_world-HeldWorld no_counts-HasRoom

handle_dtap-WorldInv_example : Safe (WorldInv env) (handle_dtap env [] dtap 2 100 false held_world)
handle_dtap-WorldInv_example =
    handle_dtap-WorldInv env [] dtap 2 100 false held_world held_world-HeldWorld

handle_mm-Stays_example : Safe (Stays held) (handle_mm env dtap 2 100 held)
handle_mm-Stays_example = handle_mm-Stays env dtap 2 100 held held-HeldInv

-- CHANNEL RELEASE.
abbrev release : Mem
release = mem_of (0x06 ∷ 0x0d ∷ 0x00 ∷ [])

handle_rr-Leaves_example :
    Safe (LeavesRr (rr_type (release 1)) held) (handle_rr env release 3 100 held)
handle_rr-Leaves_example = handle_rr-Leaves env release 3 100 held held-HeldInv

-- ATTACH COMPLETE, in the session of the packet domain.
abbrev attach : Mem
attach = mem_of (0x08 ∷ 0x03 ∷ [])

abbrev held_ps : Ctx
held_ps = with_session (record (new_session 1 1) { new_msg = true }) held

held_ps-HeldInv : HeldInv held_ps
held_ps-HeldInv = ((refl, refl), held-Inv 1 1)

handle_gmm-Stays_example : Safe (Stays held_ps) (handle_gmm env attach 2 held_ps)
handle_gmm-Stays_example = handle_gmm-Stays env attach 2 held_ps held_ps-HeldInv

-- A call setup, and an acknowledged SMS.
abbrev setup : Mem
setup = mem_of (0x03 ∷ 0x05 ∷ [])

handle_cc-direction_example :
    let originated = if low_bits (setup 1) 6 == 0x08 then not true else true in
    Returns
      (λ c.
        (c.s.tr.mo ≡ (originated || false))
        × (c.s.tr.mt ≡ (not originated || false))
        × (c.s.tr.call ≡ true))
      (handle_cc env setup 2 true held)
handle_cc-direction_example = handle_cc-direction env setup 2 true held (refl, refl) (inl refl)

handle_sms-Keeps_example : Keeps held (handle_sms env (mem_of (0x09 ∷ 0x04 ∷ [])) 2 [] held)
handle_sms-Keeps_example = handle_sms-Keeps env (mem_of (0x09 ∷ 0x04 ∷ [])) 2 [] held (refl, refl)

-- An empty frame of 20 bytes on the SDCCH.
abbrev empty_frame : Mem
empty_frame i = 0x2b

update_counters-Stays_example : Returns (Stays held) (update_counters empty_frame 20 0 false held)
update_counters-Stays_example =
    update_counters-Stays empty_frame 20 0 false held held-HeldInv no_counts-HasRoom

empty_frame-fits : pad_len 20 0 ≤ 20
unfolding pad_len
empty_frame-fits = omega arith

update_counters-counts_example :
    Returns (CountsOne held) (update_counters empty_frame 20 0 false held)
update_counters-counts_example =
    update_counters-counts empty_frame 20 0 held held-HeldInv no_counts-HasRoom empty_frame-fits

-- The message comes again on UMTS, on the uplink.
abbrev again : Message
again = record tmsi_complete { rat = 1; arfcn = 0x4000 }

first_time : (is_double dtap 2 held).0 ≡ false
unfolding is_double is_repeated common_len
first_time = refl

is_double-remembers_example :
    (is_double dtap 2 (record ((is_double dtap 2 held).1) { m = again })).0 ≡ comes_second 0 again
is_double-remembers_example =
    is_double-remembers dtap 2 held again (omega arith) (omega arith) first_time

-- Two fragments, numbered 7 and 0, and a last one, numbered 1.
abbrev seventh : Mem
seventh = mem_of (0x01 ∷ 0x0e ∷ 0x0b ∷ 1 ∷ 2 ∷ [])

abbrev eighth : Mem
eighth = mem_of (0x01 ∷ 0x00 ∷ 0x07 ∷ 3 ∷ [])

abbrev ninth : Mem
ninth = mem_of (0x01 ∷ 0x02 ∷ 0x05 ∷ 4 ∷ [])

seventh-IsFragment : IsFragment true seventh 23 0 7
unfolding frame frame_kind is_malformed is_unknown_sapi
seventh-IsFragment = record {
  gsm = refl;
  formed = refl;
  known = refl;
  sapi_of = refl;
  nr = 0;
  kind = refl;
  more_of = refl;
  some_len = omega arith;
}

eighth-IsFragment : IsFragment true eighth 23 0 0
unfolding frame frame_kind is_malformed is_unknown_sapi
eighth-IsFragment = record {
  gsm = refl;
  formed = refl;
  known = refl;
  sapi_of = refl;
  nr = 0;
  kind = refl;
  more_of = refl;
  some_len = omega arith;
}

ninth-IsFragment : IsFragment false ninth 23 0 1
unfolding frame frame_kind is_malformed is_unknown_sapi
ninth-IsFragment = record {
  gsm = refl;
  formed = refl;
  known = refl;
  sapi_of = refl;
  nr = 0;
  kind = refl;
  more_of = refl;
  some_len = omega arith;
}

abbrev arrivals : List Arrival
arrivals =
    record { msg = seventh; len = 23; fn = 100; world = held_world }
    ∷ record { msg = eighth; len = 23; fn = 151; world = held_world }
    ∷ []

arrivals-AreFragments : AreFragments 0 7 arrivals
unfolding AreFragments
arrivals-AreFragments = (seventh-IsFragment, held-HeldInv, (eighth-IsFragment, held-HeldInv, tt))

expected : Expects 7 empty_buf
unfolding Expects
expected = inl refl

arrivals-fit : 0 + size arrivals ≤ 640
unfolding size frame
arrivals-fit = omega arith

collect-bytes_example :
    Returns
      (λ mb. bytes mb.payload mb.len ≡ bytes empty_buf.payload 0 ++ contents arrivals)
      (collect env [] sdcch false 0 arrivals empty_buf)
collect-bytes_example =
    collect-bytes env [] sdcch false 0 arrivals 7 empty_buf arrivals-AreFragments expected
      arrivals-fit

next_expected : Expects 1 (get_buf sdcch (buf_index false 0) held)
unfolding Expects get_buf chan_bufs
next_expected = inl refl

ninth-fits : (get_buf sdcch (buf_index false 0) held).len + (frame ninth).data_len ≤ 640
unfolding frame get_buf chan_bufs
ninth-fits = omega arith

handle_lapdm-last_example :
    (c : Ctx) × (mb : LapdmBuf) × Appended
      (shift ninth 3)
      (frame ninth).data_len
      1
      (get_buf sdcch (buf_index false 0) held)
      mb
    × IsHeld c
    × (counted sdcch (buf_index false 0) ninth 23 false held ≡ done c)
    × (handle_lapdm env [] sdcch ninth 23 202 false held_world
        ≡ hand_over env [] sdcch (buf_index false 0) 202 23 0 false held_world.ps mb c)
handle_lapdm-last_example =
    handle_lapdm-last env [] sdcch ninth 23 202 0 1 false held_world ninth-IsFragment held-HeldInv
      next_expected ninth-fits

frame-encapsulate_lapdm_example :
    (q : Mem) × (n : ℕ) × (encapsulate_lapdm dtap 2 false true ≡ some (q, n))
    × (frame (shift q (l1_len true)) ≡ whole_frame 2)
    × (is_malformed (whole_frame 2) (n - l1_len true) ≡ false)
    × ((i : ℕ) → i < 2 → shift (shift q (l1_len true)) 3 i ≡ dtap i)
    × ((i : ℕ) → 2 ≤ i → i < n - l1_len true - 3 → shift (shift q (l1_len true)) 3 i ≡ 0x2b)
frame-encapsulate_lapdm_example =
    frame-encapsulate_lapdm dtap 2 false true (omega arith) (omega arith)
