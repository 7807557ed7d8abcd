-- ===== src/L3/Lapdm/Buffering.antt =====
-- gsm-parser/l3_handler.c, `handle_lapdm`: the header of a frame, and what happens to a buffer.
use srlabs.Base.{ℕ, ◌+◌, ◌-◌, ◌%◌, Bool, ◌&&◌, ◌||◌, not, bit_and}
use srlabs.Base.{
  Outcome, done, undefined, ltb, leb, ◌==◌, nonzero, num, if◌then◌else◌, u16, shr, bit, low_bits,
  Mem, memcpy, memset,
}
use srlabs.Session.{Session, Ctx, LapdmBuf}

-- The fields of the header of a frame; an I frame has the numbers `nr` and `ns`.
pub data Kind : Type 0 where
  i_frame : ℕ → ℕ → Kind
  s_frame sabm other_u_frame : Kind

pub record Frame : Type 0 where
  pub lpd_type : ℕ
  pub sapi : ℕ
  pub ea : ℕ
  pub kind : Kind
  pub data_len : ℕ
  pub more : Bool
  pub fo : ℕ

unfoldable pub frame_kind : ℕ → Kind
frame_kind b =
    if low_bits b 2 == 1
    then s_frame
    else if low_bits b 2 == 3
    then (if bit_and b 0xec == 0x2c then sabm else other_u_frame)
    else i_frame (shr b 5) (low_bits (shr b 1) 3)

unfoldable pub frame : Mem → Frame
frame msg = record {
  lpd_type = low_bits (shr (msg 0) 5) 2;
  sapi = low_bits (shr (msg 0) 2) 3;
  ea = bit 0 (msg 0);
  kind = frame_kind (msg 1);
  data_len = low_bits (shr (msg 2) 2) 6;
  more = bit 1 (msg 2) == 1;
  fo = bit 0 (msg 2);
}

-- `sizeof(mb->data)`.
abbrev pub buffer_size : ℕ
buffer_size = 640

-- The buffer begins and ends a message at `len = 0`.
pub restart : ℕ → LapdmBuf → LapdmBuf
restart ns mb = record mb { out_of_seq = 0; len = 0; ns = ns }

unfoldable pub accept : ℕ → ℕ → LapdmBuf → LapdmBuf
accept nr ns mb = record mb { out_of_seq = 0; last_out_of_seq = 100; nr = nr; ns = ns }

unfoldable pub is_out_of_order : ℕ → LapdmBuf → Bool
is_out_of_order ns mb = nonzero mb.len && (not (ns == (mb.ns + 1) % 8) || leb 3 mb.out_of_seq)

-- `(mb->ns - ns) % 8 < 2` in int, where a negative difference has a negative remainder.
pub is_recent : ℕ → LapdmBuf → Bool
is_recent ns mb = ltb mb.ns ns || ltb ((mb.ns - ns) % 8) 2

pub note_out_of_order : ℕ → LapdmBuf → LapdmBuf
note_out_of_order ns mb = record mb {
  out_of_seq =
      (if not (mb.last_out_of_seq == ns) && is_recent ns mb
        then u16 (mb.out_of_seq + 1)
        else mb.out_of_seq);
  last_out_of_seq = ns;
}

-- The payload goes behind what is there, and has padding behind it in a new message. A message that
-- outgrows the buffer is written behind its end.
unfoldable pub append : Mem → ℕ → LapdmBuf → Outcome LapdmBuf
append p n mb =
    if mb.len == 0
    then done
        (record mb { payload = memset (memcpy mb.payload 0 p n) n 0x2b (buffer_size - n); len = n })
    else if ltb buffer_size (mb.len + n)
    then undefined
    else done (record mb { payload = memcpy mb.payload mb.len p n; len = mb.len + n })

-- The three arrays of buffers.
pub data Channel : Type 0 where
  sdcch sacch facch : Channel

unfoldable pub chan_bufs : Channel → Session → ℕ → LapdmBuf
chan_bufs sdcch s = s.bufs.chan_sdcch
chan_bufs sacch s = s.bufs.chan_sacch
chan_bufs facch s = s.bufs.chan_facch

unfoldable pub put_bufs : Channel → (ℕ → LapdmBuf) → Session → Session
put_bufs sdcch f s = record s { bufs = record (s.bufs) { chan_sdcch = f } }
put_bufs sacch f s = record s { bufs = record (s.bufs) { chan_sacch = f } }
put_bufs facch f s = record s { bufs = record (s.bufs) { chan_facch = f } }

-- `mb = &mb_sapi[!!sapi]`, where `mb_sapi` points to the buffer `ul`.
pub buf_index : Bool → ℕ → ℕ
buf_index ul sapi = num ul + num (nonzero sapi)

unfoldable pub get_buf : Channel → ℕ → Ctx → LapdmBuf
get_buf ch k c = chan_bufs ch c.s k

unfoldable pub put_buf : Channel → ℕ → LapdmBuf → Ctx → Ctx
put_buf ch k mb c = record c {
  s = put_bufs ch (λ j. if j == k then mb else chan_bufs ch c.s j) c.s;
}
