-- ===== src/L3/Lapdm.antt =====
-- gsm-parser/l3_handler.c: `handle_lapdm`, the frames of LAPDm and the buffers in which they are
-- put together.
mod Buffering
pub mod Laws
pub mod Appending
pub mod Fragments
pub mod Last
pub mod Reassembly
unfoldable pub use Buffering.*
use srlabs.Base.{ℕ, ◌+◌, ◌-◌, ◌*◌, ◌%◌, Bool, true, false, ◌&&◌, ◌||◌, not, List, [], ◌∷◌, bit_and}
use srlabs.Base.{
  Outcome, done, undefined, ◌>>=◌, ltb, leb, ◌==◌, nonzero, num, if◌then◌else◌, u16, shr, bit,
  low_bits, Mem, shift, memcpy, memset,
}
use srlabs.Radio.{Piece, text, dec}
use srlabs.Session.{Session, Ctx, Buffers, LapdmBuf, Security, set_msg_info}
use srlabs.L3.Core.{seen_fn, with_sec}
use srlabs.L3.Env.{Env}
use srlabs.L3.Counters.{update_counters}
use srlabs.L3.Dtap.{World, on_cs, handle_dtap}

-- Authentication and ciphering times, where the uplink is missing. `old` is the state before the
-- message was handled.
pub late_auth : ℕ → Security → Bool → Security → Security
late_auth fn old fits x =
    if nonzero x.auth && nonzero old.auth && not (nonzero x.auth_resp_fn) && fits
    then record x { auth_resp_fn = seen_fn fn }
    else x

pub late_cipher : ℕ → Security → Bool → Security → Security
late_cipher fn old fits x =
    if nonzero x.cipher && nonzero old.cipher && not (nonzero x.cm_comp_last_fn) && fits
    then record x {
      cm_comp_first_fn = if nonzero x.cm_comp_first_fn then x.cm_comp_first_fn else seen_fn fn;
      cm_comp_last_fn = seen_fn fn;
    }
    else x

-- Is it a long frame, and none of the protocol `pd` on SAPI 0?
pub is_other : ℕ → ℕ → Mem → ℕ → Bool
is_other len sapi p pd = ltb 21 len && (nonzero sapi || not (p 0 == pd))

pub late_times : ℕ → ℕ → ℕ → Mem → Security → World → World
late_times fn len sapi p old w =
    let x = late_auth fn old (is_other len sapi p 5) w.cs.s.sec in
    record w { cs = with_sec (late_cipher fn old (is_other len sapi p 6) x) w.cs }

pub kind_ns : Kind → ℕ
kind_ns (i_frame nr ns) = ns
kind_ns _ = 0

-- A frame in order, and a U frame that sets up the link, prepare the buffer.
unfoldable pub open_buf : Kind → LapdmBuf → LapdmBuf
open_buf (i_frame nr ns) mb = accept nr ns mb
open_buf sabm mb = restart 0 mb
open_buf _ mb = mb

unfoldable pub must_refuse : Kind → LapdmBuf → Bool
must_refuse (i_frame nr ns) mb = is_out_of_order ns mb
must_refuse _ mb = false

-- An S frame has no payload.
pub payload_len : Frame → ℕ
payload_len f = elim f.kind [ s_frame ↦ 0 | _ ↦ f.data_len ]

-- The buffer has the number `k` in its array.
module _ (env : Env) (smsc : List ℕ) (ch : Channel) (k : ℕ) (f : Frame) where
  -- The fragments end, with three frames or more out of order.
  pub end_refused : ℕ → LapdmBuf → Ctx → Outcome Ctx
  end_refused ns mb c =
      if not f.more && leb 3 mb.out_of_seq
      then (do
        c ←
            set_msg_info
              (text "<OUT OF SEQUENCE END> no out-of-seq "
                ∷ dec mb.out_of_seq
                ∷ text ", reset seq to "
                ∷ dec ns
                ∷ [])
              c
        done (put_buf ch k (restart ns mb) c))
      else done c

  pub handle_refused : Mem → ℕ → Bool → Ctx → Outcome Ctx
  handle_refused msg len ul c = do
    let ns = kind_ns f.kind
    let old = get_buf ch k c
    let mb = note_out_of_order ns old
    c ←
        set_msg_info
          (text "<OUT OF SEQUENCE> recv "
            ∷ dec ns
            ∷ text " want "
            ∷ dec ((old.ns + 1) % 8)
            ∷ text " no out-of-seq "
            ∷ dec mb.out_of_seq
            ∷ [])
          (put_buf ch k mb c)
    c ← update_counters (shift msg 3) (len - 3) f.data_len ul c
    end_refused ns mb c

  pub handle_complete : LapdmBuf → ℕ → Bool → World → Outcome World
  handle_complete mb fn ul w = do
    w ← handle_dtap env smsc mb.payload mb.len fn ul w
    done (record w { cs = put_buf ch k (record (get_buf ch k w.cs) { len = 0 }) w.cs })

  pub handle_appended : LapdmBuf → ℕ → Bool → World → Outcome World
  handle_appended mb fn ul w =
      if f.more
      then on_cs w.ps (set_msg_info (text "<FRAGMENT " ∷ dec (kind_ns f.kind) ∷ text ">" ∷ []) w.cs)
      else handle_complete mb fn ul w

  pub handle_payload : Mem → ℕ → ℕ → Bool → World → Outcome World
  handle_payload msg len fn ul w =
      if payload_len f == 0 then on_cs w.ps (set_msg_info (text "<NULL>" ∷ []) w.cs) else (do
        mb ← append (shift msg 3) (payload_len f) (get_buf ch k w.cs)
        w' ← handle_appended mb fn ul (record w { cs = put_buf ch k mb w.cs })
        done (late_times fn len f.sapi mb.payload w.cs.s.sec w'))

  pub handle_accepted : Mem → ℕ → ℕ → Bool → World → Outcome World
  handle_accepted msg len fn ul w = do
    c ←
        update_counters (shift msg 3) (len - 3) (payload_len f) ul
          (put_buf ch k (open_buf f.kind (get_buf ch k w.cs)) w.cs)
    handle_payload msg len fn ul (record w { cs = c })

  pub handle_frame : Mem → ℕ → ℕ → Bool → World → Outcome World
  handle_frame msg len fn ul w =
      if must_refuse f.kind (get_buf ch k w.cs)
      then on_cs w.ps (handle_refused msg len ul w.cs)
      else handle_accepted msg len fn ul w

-- The checks of the header.
unfoldable pub is_malformed : Frame → ℕ → Bool
is_malformed f len = f.ea == 0 || f.fo == 0 || ltb len (f.data_len + 3)

unfoldable pub is_unknown_sapi : Frame → Bool
is_unknown_sapi f = not (f.sapi == 0) && not (f.sapi == 3)

module _ (env : Env) (smsc : List ℕ) where
  -- The message of the session is written to before any check.
  pub handle_lapdm : Channel → Mem → ℕ → ℕ → Bool → World → Outcome World
  handle_lapdm ch msg len fn ul w =
      let f = frame msg in
      let w' = record w { cs = record (w.cs) { m = record (w.cs.m) { info = [] } } } in
      if not w.cs.s.new_msg
      then undefined
      else if nonzero f.lpd_type
      then on_cs w.ps (set_msg_info (text "non-GSM" ∷ []) w'.cs)
      else if is_malformed f len
      then on_cs w.ps (set_msg_info (text "FAILED SANITY CHECKS (LAPDm)" ∷ []) w'.cs)
      else if is_unknown_sapi f
      then on_cs w.ps (set_msg_info (text "Unknown SAPI: " ∷ dec f.sapi ∷ []) w'.cs)
      else handle_frame env smsc ch (buf_index ul f.sapi) f msg len fn ul w'
