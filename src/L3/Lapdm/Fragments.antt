-- ===== src/L3/Lapdm/Fragments.antt =====
-- gsm-parser/l3_handler.c, `handle_lapdm`: a fragment of a message goes behind those before it.
use srlabs.Base.{
  ℕ, ◌+◌, ◌-◌, ◌≤◌, ◌≡◌, refl, sym, ap, subst, ◌∙◌, arith, Bool, true, false, not, List, [],
}
use srlabs.Base.{◌>>=◌, Returns, Returns-bind, Mem, shift, nonzero, ◌==◌}
use srlabs.Session.{Ctx, Buffers, LapdmBuf, Security}
use srlabs.L3.Core.{IsHeld, IsHeld-core, set_msg_info-held}
use srlabs.L3.Inv.{HeldInv, HeldInv-core}
use srlabs.L3.Env.{Env}
use srlabs.L3.Counters.{update_counters}
use srlabs.L3.Counters.Rest.{Rest, update_counters-Rest}
use srlabs.L3.Dtap.{World, on_cs}
use srlabs.L3.Lapdm.{
  Channel, sdcch, sacch, facch, i_frame, Frame, frame, buffer_size, put_bufs, chan_bufs, get_buf,
  put_buf, buf_index, must_refuse, open_buf, append, late_times, payload_len, handle_appended,
  handle_payload, handle_accepted, handle_frame, is_malformed, is_unknown_sapi, handle_lapdm,
}
use srlabs.L3.Lapdm.Laws.{core-put_buf}
use srlabs.L3.Lapdm.Appending.{Expects, not-refused, Appended, append-Appended}

pub get_buf-put_buf :
    (ch : Channel) (k : ℕ) (mb : LapdmBuf) (c : Ctx) → get_buf ch k (put_buf ch k mb c) ≡ mb
unfolding put_buf put_bufs get_buf chan_bufs
get_buf-put_buf sdcch k mb c = ground arith
get_buf-put_buf sacch k mb c = ground arith
get_buf-put_buf facch k mb c = ground arith

pub get_buf-bufs :
    (ch : Channel) (k : ℕ) (c d : Ctx) → d.s.bufs ≡ c.s.bufs → get_buf ch k d ≡ get_buf ch k c
unfolding get_buf chan_bufs
get_buf-bufs sdcch k c d e = ap (λ (b : Buffers). b.chan_sdcch k) e
get_buf-bufs sacch k c d e = ap (λ (b : Buffers). b.chan_sacch k) e
get_buf-bufs facch k c d e = ap (λ (b : Buffers). b.chan_facch k) e

late_times-buf :
    (ch : Channel) (k fn len sapi : ℕ) (p : Mem) (old : Security) (w : World)
    → get_buf ch k (late_times fn len sapi p old w).cs ≡ get_buf ch k w.cs
unfolding late_times
late_times-buf ch k fn len sapi p old w = get_buf-bufs ch k _ _ refl

-- A further frame follows: the payload has been put behind what the buffer held.
abbrev Held : Channel → ℕ → Mem → ℕ → ℕ → LapdmBuf → World → Type 0
Held ch k p n ns mb w = Appended p n ns mb (get_buf ch k w.cs)

pub i_frame_len : (nr ns : ℕ) (f : Frame) → f.kind ≡ i_frame nr ns → payload_len f ≡ f.data_len
unfolding payload_len
i_frame_len nr ns f kind = rw kind refl

module _ (env : Env) (smsc : List ℕ) (ch : Channel) (k : ℕ) (f : Frame) where
  handle_appended-more :
      (mb : LapdmBuf) (fn : ℕ) (ul : Bool) (w : World)
      → f.more ≡ true
      → IsHeld w.cs
      → Returns
          (λ w'. get_buf ch k w'.cs ≡ get_buf ch k w.cs)
          (handle_appended env smsc ch k f mb fn ul w)
  unfolding handle_appended on_cs
  handle_appended-more mb fn ul w more held =
      rw (more, set_msg_info-held _ w.cs held) (get_buf-bufs ch k _ _ refl)

  handle_payload-Held :
      (msg : Mem) (len fn ns : ℕ) (ul : Bool) (old : LapdmBuf) (w : World)
      → f.more ≡ true
      → (payload_len f == 0) ≡ false
      → IsHeld w.cs
      → Returns
          (Appended (shift msg 3) (payload_len f) ns old)
          (append (shift msg 3) (payload_len f) (get_buf ch k w.cs))
      → Returns
          (Held ch k (shift msg 3) (payload_len f) ns old)
          (handle_payload env smsc ch k f msg len fn ul w)
  unfolding handle_payload
  handle_payload-Held msg len fn ns ul old w more some_len held appended =
      let p = shift msg 3 in
      let n = payload_len f in
      rw some_len (
        Returns-bind (Appended p n ns old) (Held ch k p n ns old) _ _ appended λ mb h.
          let c = put_buf ch k mb w.cs in
          Returns-bind (λ w'. get_buf ch k w'.cs ≡ get_buf ch k c) (Held ch k p n ns old) _ _
            (handle_appended-more mb fn ul (record w { cs = c }) more
              (IsHeld-core w.cs c (core-put_buf ch k mb w.cs) held))
            λ w' e.
              subst (Appended p n ns old)
                (sym (
                  late_times-buf ch k fn len f.sapi mb.payload w.cs.s.sec w'
                  ∙ e
                  ∙ get_buf-put_buf ch k mb w.cs))
                h)

  -- The statistics leave the buffer as it was prepared, and the payload goes behind it.
  counted-Held :
      (msg : Mem) (len fn ns n : ℕ) (ul : Bool) (old : LapdmBuf) (c : Ctx) (w : World)
      → payload_len f ≡ n
      → f.more ≡ true
      → 1 ≤ n
      → HeldInv c
      → Returns (Appended (shift msg 3) n ns old) (append (shift msg 3) n (get_buf ch k c))
      → Returns (Held ch k (shift msg 3) n ns old) (
          update_counters (shift msg 3) (len - 3) n ul c >>= λ d.
          handle_payload env smsc ch k f msg len fn ul (record w { cs = d }))
  counted-Held msg len fn ns n ul old c w size more some_len inv appended =
      let p = shift msg 3 in
      let positive : (payload_len f == 0) ≡ false = rw size (ground (arith, some_len)) in
      Returns-bind (Rest c) (Held ch k p n ns old) _ _ (update_counters-Rest p (len - 3) n ul c inv)
        λ d (bufs, held).
          let here : Returns (Appended p (payload_len f) ns old)
              (append p (payload_len f) (get_buf ch k d)) =
            rw (size, get_buf-bufs ch k c d bufs) appended in
          subst
            (λ m.
              Returns (Held ch k p m ns old)
                (handle_payload env smsc ch k f msg len fn ul (record w { cs = d })))
            size
            (handle_payload-Held msg len fn ns ul old (record w { cs = d }) more positive held here)

  handle_frame-Held :
      (msg : Mem) (len fn nr ns : ℕ) (ul : Bool) (w : World)
      → f.kind ≡ i_frame nr ns
      → f.more ≡ true
      → 1 ≤ f.data_len
      → HeldInv w.cs
      → Expects ns (get_buf ch k w.cs)
      → (get_buf ch k w.cs).len + f.data_len ≤ buffer_size
      → Returns
          (Held ch k (shift msg 3) f.data_len ns (get_buf ch k w.cs))
          (handle_frame env smsc ch k f msg len fn ul w)
  unfolding handle_frame handle_accepted
  handle_frame-Held msg len fn nr ns ul w kind more some_len inv expects fits =
      let old = get_buf ch k w.cs in
      let opened = open_buf f.kind old in
      let c = put_buf ch k opened w.cs in
      let size = i_frame_len nr ns f kind in
      let accepted : must_refuse f.kind old ≡ false = rw kind (not-refused nr ns old expects) in
      let ready : opened ≡ open_buf (i_frame nr ns) old = rw kind refl in
      let appended = append-Appended (shift msg 3) f.data_len nr ns old fits in
      subst
        (λ n.
          Returns (Held ch k (shift msg 3) n ns old) (handle_frame env smsc ch k f msg len fn ul w))
        size
        (rw accepted (
          counted-Held msg len fn ns (payload_len f) ul old c w refl more (rw size some_len)
            (HeldInv-core w.cs c (core-put_buf ch k opened w.cs) inv)
            (rw (get_buf-put_buf ch k opened w.cs, ready, size) appended)))

-- A frame with the header of a fragment: an I frame of the number `ns` for a known SAPI, with a
-- payload that is not empty, after which another one follows or not.
pub record IsFragment (more : Bool) (msg : Mem) (len sapi ns : ℕ) : Type 0 where
  pub gsm : (frame msg).lpd_type ≡ 0
  pub formed : is_malformed (frame msg) len ≡ false
  pub known : is_unknown_sapi (frame msg) ≡ false
  pub sapi_of : (frame msg).sapi ≡ sapi
  pub nr : ℕ
  pub kind : (frame msg).kind ≡ i_frame nr ns
  pub more_of : (frame msg).more ≡ more
  pub some_len : 1 ≤ (frame msg).data_len

-- A frame with the header of a fragment that the buffer waits for returns and has put its payload,
-- the bytes behind the three of the header, behind what the buffer held, where that fits; the
-- session then holds a message and satisfies its invariant before.
pub handle_lapdm-Appended :
    (env : Env) (smsc : List ℕ) (ch : Channel) (msg : Mem) (len fn sapi ns : ℕ) (ul : Bool)
    (w : World)
    → IsFragment true msg len sapi ns
    → HeldInv w.cs
    → Expects ns (get_buf ch (buf_index ul sapi) w.cs)
    → (get_buf ch (buf_index ul sapi) w.cs).len + (frame msg).data_len ≤ buffer_size
    → Returns
        (λ w'.
          Appended
            (shift msg 3)
            (frame msg).data_len
            ns
            (get_buf ch (buf_index ul sapi) w.cs)
            (get_buf ch (buf_index ul sapi) w'.cs))
        (handle_lapdm env smsc ch msg len fn ul w)
unfolding handle_lapdm get_buf chan_bufs
handle_lapdm-Appended env smsc ch msg len fn sapi ns ul w h inv expects fits =
    let c = record (w.cs) { m = record (w.cs.m) { info = [] } } in
    let k = buf_index ul sapi in
    let present : not w.cs.s.new_msg ≡ false = rw inv.0.0 refl in
    let gsm : nonzero (frame msg).lpd_type ≡ false = ground (arith, h.gsm) in
    let index : buf_index ul (frame msg).sapi ≡ k = ap (buf_index ul) h.sapi_of in
    rw (present, gsm, h.formed, h.known, index)
      (handle_frame-Held env smsc ch k (frame msg) msg len fn h.nr ns ul (record w { cs = c })
        h.kind h.more_of h.some_len (HeldInv-core w.cs c refl inv) expects fits)
