-- ===== src/L3/Lapdm/Last.antt =====
-- gsm-parser/l3_handler.c, `handle_lapdm`: the last fragment of a message.
use srlabs.Base.{ℕ, ◌+◌, ◌-◌, ◌≤◌, ◌≡◌, refl, ap, subst, ◌∙◌, arith, Bool, false, not, List, []}
use srlabs.Base.{Outcome, done, ◌>>=◌, Returns, Returns-elim, Mem, shift, nonzero, ◌==◌}
use srlabs.Session.{Session, Ctx, LapdmBuf}
use srlabs.L3.Core.{IsHeld}
use srlabs.L3.Inv.{HeldInv, HeldInv-core}
use srlabs.L3.Env.{Env}
use srlabs.L3.Counters.{update_counters}
use srlabs.L3.Counters.Rest.{Rest, update_counters-Rest}
use srlabs.L3.Dtap.{World, handle_dtap}
use srlabs.L3.Lapdm.{
  Channel, i_frame, Frame, frame, buffer_size, chan_bufs, get_buf, put_buf, buf_index, must_refuse,
  open_buf, append, late_times, payload_len, handle_appended, handle_payload, handle_accepted,
  handle_frame, handle_complete, is_malformed, is_unknown_sapi, handle_lapdm,
}
use srlabs.L3.Lapdm.Laws.{core-put_buf}
use srlabs.L3.Lapdm.Appending.{Expects, not-refused, Appended, append-Appended}
use srlabs.L3.Lapdm.Fragments.{IsFragment, get_buf-bufs, get_buf-put_buf, i_frame_len}

-- The message that the buffer `mb` holds goes to `handle_dtap`, and the buffer is free again.
pub hand_over :
    Env → List ℕ → Channel → ℕ → ℕ → ℕ → ℕ → Bool → Session → LapdmBuf → Ctx → Outcome World
hand_over env smsc ch k fn len sapi ul ps mb c =
    handle_dtap env smsc mb.payload mb.len fn ul (record { cs = put_buf ch k mb c; ps = ps })
    >>= (λ w. done (record w { cs = put_buf ch k (record (get_buf ch k w.cs) { len = 0 }) w.cs }))
    >>= (λ w. done (late_times fn len sapi mb.payload c.s.sec w))

headers_pass :
    (env : Env) (smsc : List ℕ) (ch : Channel) (msg : Mem) (len fn sapi : ℕ) (ul : Bool) (w : World)
    → not w.cs.s.new_msg ≡ false
    → nonzero (frame msg).lpd_type ≡ false
    → is_malformed (frame msg) len ≡ false
    → is_unknown_sapi (frame msg) ≡ false
    → (frame msg).sapi ≡ sapi
    → handle_lapdm env smsc ch msg len fn ul w
      ≡ handle_frame env smsc ch
          (buf_index ul sapi)
          (frame msg)
          msg
          len
          fn
          ul
          (record w { cs = record (w.cs) { m = record (w.cs.m) { info = [] } } })
unfolding handle_lapdm
headers_pass env smsc ch msg len fn sapi ul w present gsm formed known sapi_of =
    let index : buf_index ul (frame msg).sapi ≡ buf_index ul sapi = ap (buf_index ul) sapi_of in
    rw (present, gsm, formed, known, index) refl

-- The steps of a last fragment, one by one.
last_steps :
    (env : Env) (smsc : List ℕ) (ch : Channel) (msg : Mem) (len fn k : ℕ) (ul : Bool) (f : Frame)
    (w : World) (d : Ctx) (mb : LapdmBuf)
    → must_refuse f.kind (get_buf ch k w.cs) ≡ false
    → update_counters
        (shift msg 3)
        (len - 3)
        (payload_len f)
        ul
        (put_buf ch k (open_buf f.kind (get_buf ch k w.cs)) w.cs)
      ≡ done d
    → (payload_len f == 0) ≡ false
    → append (shift msg 3) (payload_len f) (get_buf ch k d) ≡ done mb
    → f.more ≡ false
    → handle_frame env smsc ch k f msg len fn ul w
      ≡ hand_over env smsc ch k fn len f.sapi ul w.ps mb d
unfolding handle_frame handle_accepted handle_payload handle_appended handle_complete hand_over
last_steps env smsc ch msg len fn k ul f w d mb accepted counted positive appended more =
    rw (accepted, counted, positive, appended, more) refl

-- The statistics of the frame, in a session whose message has no text and whose buffer is ready.
abbrev pub counted : Channel → ℕ → Mem → ℕ → Bool → Ctx → Outcome Ctx
counted ch k msg len ul c =
    let opened = open_buf (frame msg).kind (get_buf ch k c) in
    update_counters (shift msg 3) (len - 3) (frame msg).data_len ul
      (put_buf ch k opened (record c { m = record (c.m) { info = [] } }))

-- The last fragment of a message returns from all that comes before `handle_dtap`, and hands that
-- function the bytes that the buffer held with its own payload behind them, where they fit, in the
-- session that the statistics leave, which holds the message. Afterwards the buffer is empty. The
-- session holds a message and satisfies its invariant before.
pub handle_lapdm-last :
    (env : Env) (smsc : List ℕ) (ch : Channel) (msg : Mem) (len fn sapi ns : ℕ) (ul : Bool)
    (w : World)
    → IsFragment false msg len sapi ns
    → HeldInv w.cs
    → Expects ns (get_buf ch (buf_index ul sapi) w.cs)
    → (get_buf ch (buf_index ul sapi) w.cs).len + (frame msg).data_len ≤ buffer_size
    → (c : Ctx) × (mb : LapdmBuf) × Appended
        (shift msg 3)
        (frame msg).data_len
        ns
        (get_buf ch (buf_index ul sapi) w.cs)
        mb
      × IsHeld c
      × (counted ch (buf_index ul sapi) msg len ul w.cs ≡ done c)
      × (handle_lapdm env smsc ch msg len fn ul w
          ≡ hand_over env smsc ch (buf_index ul sapi) fn len sapi ul w.ps mb c)
unfolding handle_lapdm get_buf chan_bufs
handle_lapdm-last env smsc ch msg len fn sapi ns ul w h inv expects fits =
    let f = frame msg in
    let p = shift msg 3 in
    let k = buf_index ul sapi in
    let w' = record (w.cs) { m = record (w.cs.m) { info = [] } } in
    let old = get_buf ch k w' in
    let opened = open_buf f.kind old in
    let c = put_buf ch k opened w' in
    let size = i_frame_len h.nr ns f h.kind in
    let accepted : must_refuse f.kind old ≡ false = rw h.kind (not-refused h.nr ns old expects) in
    let ready : opened ≡ open_buf (i_frame h.nr ns) old = rw h.kind refl in
    let inv' = HeldInv-core w' c (core-put_buf ch k opened w') (HeldInv-core w.cs w' refl inv) in
    let present : not w.cs.s.new_msg ≡ false = rw inv.0.0 refl in
    let gsm : nonzero f.lpd_type ≡ false = ground (arith, h.gsm) in
    let positive : (payload_len f == 0) ≡ false = rw size (ground (arith, h.some_len)) in
    let (d, returned, rest) =
      Returns-elim (Rest c) _ (update_counters-Rest p (len - 3) (payload_len f) ul c inv') in
    let here : Returns (Appended p (payload_len f) ns old)
        (append p (payload_len f) (get_buf ch k d)) =
      rw (get_buf-bufs ch k c d rest.0, get_buf-put_buf ch k opened w', ready, size)
        (append-Appended p f.data_len h.nr ns old fits) in
    let (mb, appended, held) = Returns-elim (Appended p (payload_len f) ns old) _ here in
    let step =
      last_steps env smsc ch msg len fn k ul f (record w { cs = w' }) d mb accepted returned
        positive appended h.more_of in
    let whole =
      headers_pass env smsc ch msg len fn sapi ul w present gsm h.formed h.known h.sapi_of
      ∙ step
      ∙ ap (λ (a : ℕ). hand_over env smsc ch k fn len a ul w.ps mb d) h.sapi_of in
    (
      d,
      mb,
      subst (λ n. Appended p n ns old mb) size held,
      rest.1,
      subst (λ n. update_counters p (len - 3) n ul c ≡ done d) size returned,
      whole,
    )
