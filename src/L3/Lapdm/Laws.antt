-- ===== src/L3/Lapdm/Laws.antt =====
-- gsm-parser/l3_handler.c: a LAPDm frame fails no assertion and keeps the invariants.
use srlabs.Base.{ℕ, ◌-◌, ◌≡◌, refl, sym, subst, arith, Bool, not, ◌&&◌, List, []}
use srlabs.Base.{
  Safe, ◌>>=◌, Safe-cases, Safe-bind, Returns-Safe, Outcome, done, Mem, shift, leb, ◌==◌, nonzero,
}
use srlabs.Radio.{Piece}
use srlabs.Session.{Ctx, LapdmBuf, Security, set_msg_info}
use srlabs.L3.Core.{core, Keeps, Keeps-bind, IsHeld, set_msg_info-Keeps, set_msg_info-held}
use srlabs.L3.Inv.{tag-core, HeldInv, Stays, Stays-bind, Stays-from, HeldInv-Keeps, HeldInv-core}
use srlabs.L3.Env.{Env}
use srlabs.L3.Counters.{update_counters}
use srlabs.L3.Counters.Laws.{HasRoom, update_counters-Stays}
use srlabs.L3.Dtap.{World, on_cs, handle_dtap}
use srlabs.L3.Dtap.Both.{WorldInv, HeldWorld, on_cs-WorldInv}
use srlabs.L3.Dtap.Laws.{
  HeldWorld-core, cs-Keeps, handle_dtap-WorldInv, HeldWorld-Stays, WorldInv-core,
}
use srlabs.L3.Lapdm.{
  Frame, frame, restart, note_out_of_order, append, Channel, sdcch, sacch, facch, put_bufs, get_buf,
  put_buf, buf_index, late_auth, late_cipher, late_times, kind_ns, open_buf, must_refuse,
  payload_len, end_refused, handle_refused, handle_complete, handle_appended, handle_payload,
  handle_accepted, handle_frame, is_malformed, is_unknown_sapi, handle_lapdm,
}

pub core-put_buf :
    (ch : Channel) (k : ℕ) (mb : LapdmBuf) (c : Ctx) → core (put_buf ch k mb c) ≡ core c
unfolding put_buf put_bufs
core-put_buf sdcch k mb c = refl
core-put_buf sacch k mb c = refl
core-put_buf facch k mb c = refl

fc-put_buf : (ch : Channel) (k : ℕ) (mb : LapdmBuf) (c : Ctx) → (put_buf ch k mb c).s.fc ≡ c.s.fc
unfolding put_buf put_bufs
fc-put_buf sdcch k mb c = refl
fc-put_buf sacch k mb c = refl
fc-put_buf facch k mb c = refl

HasRoom-put_buf :
    (ch : Channel) (k : ℕ) (mb : LapdmBuf) (c : Ctx)
    → HasRoom c.s.fc
    → HasRoom (put_buf ch k mb c).s.fc
HasRoom-put_buf ch k mb c room = subst HasRoom (sym (fc-put_buf ch k mb c)) room

append-Safe : (p : Mem) (n : ℕ) (mb : LapdmBuf) → Safe (λ mb'. Unit) (append p n mb)
unfolding append
append-Safe p n mb = ground arith

core-late_times :
    (fn len sapi : ℕ) (p : Mem) (old : Security) (w : World)
    → core (late_times fn len sapi p old w).cs ≡ core w.cs
unfolding late_times late_auth late_cipher
core-late_times fn len sapi p old w = ground arith

told_and_counted-Stays :
    (p : Mem) (len data_len : ℕ) (ul : Bool) (i : List Piece) (c : Ctx) (g : Ctx → Outcome Ctx)
    → HeldInv c
    → HasRoom c.s.fc
    → ((d : Ctx) → HeldInv d → Safe (Stays d) (g d))
    → Safe (Stays c) (set_msg_info i c >>= λ d. update_counters p len data_len ul d >>= g)
told_and_counted-Stays p len data_len ul i c g inv room k =
    let c' = record c { m = record (c.m) { info = i } } in
    rw (set_msg_info-held i c inv.0) (
      Stays-from c c' (update_counters p len data_len ul c' >>= g) refl (
        Stays-bind c' (update_counters p len data_len ul c') g
          (Returns-Safe (Stays c') (Stays c') (update_counters p len data_len ul c') (λ e h. h)
            (update_counters-Stays p len data_len ul c' (HeldInv-core c c' refl inv) room))
          k))

late_times_ps :
    (fn len sapi : ℕ) (p : Mem) (old : Security) (w : World)
    → record w { cs = (late_times fn len sapi p old w).cs } ≡ late_times fn len sapi p old w
unfolding late_times
late_times_ps fn len sapi p old w = refl

module _ (env : Env) (smsc : List ℕ) (ch : Channel) (k : ℕ) (f : Frame) where
  end_refused-Keeps :
      (ns : ℕ) (mb : LapdmBuf) (c : Ctx) → IsHeld c → Keeps c (end_refused env smsc ch k f ns mb c)
  unfolding end_refused
  end_refused-Keeps ns mb c held =
      Safe-cases (λ d. core d ≡ core c) (not f.more && leb 3 mb.out_of_seq) _ _
        (λ ended.
          Keeps-bind c (set_msg_info _ c) _ (set_msg_info-Keeps _ c held)
            λ d same. core-put_buf ch k (restart ns mb) d)
        (λ open_. refl)

  handle_refused-Stays :
      (msg : Mem) (len : ℕ) (ul : Bool) (c : Ctx)
      → HeldInv c
      → HasRoom c.s.fc
      → Safe (Stays c) (handle_refused env smsc ch k f msg len ul c)
  unfolding handle_refused
  handle_refused-Stays msg len ul c inv room =
      let ns = kind_ns f.kind in
      let mb = note_out_of_order ns (get_buf ch k c) in
      let c' = put_buf ch k mb c in
      let same = core-put_buf ch k mb c in
      let inv' = HeldInv-core c c' same inv in
      Stays-from c c' _ (tag-core c c' same) (
        told_and_counted-Stays (shift msg 3) (len - 3) f.data_len ul _ c' _ inv'
          (HasRoom-put_buf ch k mb c room)
          λ d inv''. HeldInv-Keeps d _ inv'' (end_refused-Keeps ns mb d inv''.0))

  handle_complete-WorldInv :
      (mb : LapdmBuf) (fn : ℕ) (ul : Bool) (w : World)
      → HeldWorld env w
      → Safe (WorldInv env) (handle_complete env smsc ch k f mb fn ul w)
  unfolding handle_complete
  handle_complete-WorldInv mb fn ul w held =
      Safe-bind (WorldInv env) (WorldInv env) (handle_dtap env smsc mb.payload mb.len fn ul w) _
        (handle_dtap-WorldInv env smsc mb.payload mb.len fn ul w held)
        λ w' inv. WorldInv-core env smsc w' _ (core-put_buf ch k _ w'.cs) inv

  handle_appended-WorldInv :
      (mb : LapdmBuf) (fn : ℕ) (ul : Bool) (w : World)
      → HeldWorld env w
      → Safe (WorldInv env) (handle_appended env smsc ch k f mb fn ul w)
  unfolding handle_appended
  handle_appended-WorldInv mb fn ul w held =
      Safe-cases (WorldInv env) f.more _ _
        (λ more. cs-Keeps env smsc _ w held (set_msg_info-Keeps _ w.cs held.cs.0))
        (λ last. handle_complete-WorldInv mb fn ul w held)

  handle_appended_late-WorldInv :
      (len : ℕ) (mb : LapdmBuf) (fn : ℕ) (ul : Bool) (old : Security) (w : World)
      → HeldWorld env w
      → Safe (WorldInv env) (
          handle_appended env smsc ch k f mb fn ul w >>= λ w'.
          done (late_times fn len f.sapi mb.payload old w'))
  handle_appended_late-WorldInv len mb fn ul old w held =
      Safe-bind (WorldInv env) (WorldInv env) (handle_appended env smsc ch k f mb fn ul w)
        (λ w'. done (late_times fn len f.sapi mb.payload old w'))
        (handle_appended-WorldInv mb fn ul w held)
        λ w' inv.
          let w'' = late_times fn len f.sapi mb.payload old w' in
          subst (WorldInv env) (late_times_ps fn len f.sapi mb.payload old w')
            (WorldInv-core env smsc w' w''.cs (core-late_times fn len f.sapi mb.payload old w') inv)

  handle_payload-WorldInv :
      (msg : Mem) (len fn : ℕ) (ul : Bool) (w : World)
      → HeldWorld env w
      → Safe (WorldInv env) (handle_payload env smsc ch k f msg len fn ul w)
  unfolding handle_payload
  handle_payload-WorldInv msg len fn ul w held =
      Safe-cases (WorldInv env) (payload_len f == 0) _ _
        (λ empty. cs-Keeps env smsc _ w held (set_msg_info-Keeps _ w.cs held.cs.0))
        (λ some_len.
          let mb0 = get_buf ch k w.cs in
          Safe-bind (λ mb. Unit) (WorldInv env) (append (shift msg 3) (payload_len f) mb0) _
            (append-Safe (shift msg 3) (payload_len f) mb0)
            λ mb u.
              handle_appended_late-WorldInv len mb fn ul w.cs.s.sec
                (record w { cs = put_buf ch k mb w.cs })
                (HeldWorld-core env smsc w (put_buf ch k mb w.cs) (core-put_buf ch k mb w.cs) held))

  handle_accepted-WorldInv :
      (msg : Mem) (len fn : ℕ) (ul : Bool) (w : World)
      → HeldWorld env w
      → HasRoom w.cs.s.fc
      → Safe (WorldInv env) (handle_accepted env smsc ch k f msg len fn ul w)
  unfolding handle_accepted
  handle_accepted-WorldInv msg len fn ul w held room =
      let mb = open_buf f.kind (get_buf ch k w.cs) in
      let c' = put_buf ch k mb w.cs in
      let held' = HeldWorld-core env smsc w c' (core-put_buf ch k mb w.cs) held in
      Safe-bind (Stays c') (WorldInv env) (update_counters _ _ _ ul c') _
        (Returns-Safe (Stays c') (Stays c') _ (λ d h. h)
          (update_counters-Stays _ _ _ ul c' held'.cs (HasRoom-put_buf ch k mb w.cs room)))
        λ d stays.
          handle_payload-WorldInv msg len fn ul _
            (HeldWorld-Stays env smsc (record { cs = c'; ps = w.ps }) d held' stays)

  handle_frame-WorldInv :
      (msg : Mem) (len fn : ℕ) (ul : Bool) (w : World)
      → HeldWorld env w
      → HasRoom w.cs.s.fc
      → Safe (WorldInv env) (handle_frame env smsc ch k f msg len fn ul w)
  unfolding handle_frame
  handle_frame-WorldInv msg len fn ul w held room =
      Safe-cases (WorldInv env) (must_refuse f.kind (get_buf ch k w.cs)) _ _
        (λ refused. on_cs-WorldInv env w _ held (handle_refused-Stays msg len ul w.cs held.cs room))
        (λ accepted. handle_accepted-WorldInv msg len fn ul w held room)

-- A LAPDm frame fails no assertion and aborts in no padding check, and both sessions afterwards
-- satisfy their invariants, whatever the frame says, while no counter is about to wrap.
pub handle_lapdm-WorldInv :
    (env : Env) (smsc : List ℕ) (ch : Channel) (msg : Mem) (len fn : ℕ) (ul : Bool) (w : World)
    → HeldWorld env w
    → HasRoom w.cs.s.fc
    → Safe (WorldInv env) (handle_lapdm env smsc ch msg len fn ul w)
unfolding handle_lapdm
handle_lapdm-WorldInv env smsc ch msg len fn ul w held room =
    let c = record (w.cs) { m = record (w.cs.m) { info = [] } } in
    let w' = record w { cs = c } in
    let held' = HeldWorld-core env smsc w c refl held in
    let told : (i : List Piece) → Safe (WorldInv env) (on_cs w'.ps (set_msg_info i c)) =
      λ i. cs-Keeps env smsc (set_msg_info i c) w' held' (set_msg_info-Keeps i c held.cs.0) in
    Safe-cases (WorldInv env) (not w.cs.s.new_msg) _ _ (λ missing. tt)
      λ present.
        Safe-cases (WorldInv env) (nonzero (frame msg).lpd_type) _ _ (λ e. told _)
          λ gsm.
            Safe-cases (WorldInv env) (is_malformed (frame msg) len) _ _ (λ e. told _)
              λ formed.
                Safe-cases (WorldInv env) (is_unknown_sapi (frame msg)) _ _ (λ e. told _)
                  λ known.
                    handle_frame-WorldInv env smsc ch (buf_index ul (frame msg).sapi) (frame msg)
                      msg len fn ul w' held' room
