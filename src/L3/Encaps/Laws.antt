-- ===== src/L3/Encaps/Laws.antt =====
-- gsm-parser/l3_handler.c: a frame that `new_l3` makes is read back whole by `handle_lapdm`.
use srlabs.Base.{ℕ, ◌+◌, ◌-◌, ◌*◌, ◌≤◌, ◌<◌, ◌≡◌, refl, arith, Bool, true, false, min, some}
use srlabs.Base.{◌==◌, if◌then◌else◌, Mem, shift}
use srlabs.L3.Lapdm.{Frame, frame, frame_kind, other_u_frame, is_malformed}
use srlabs.L3.Encaps.{alloc_len, l1_len, lapdm_header, lapdm_frame, encapsulate_lapdm}

-- What `handle_lapdm` is to find in a frame.
abbrev pub whole_frame : ℕ → Frame
whole_frame len = record {
  lpd_type = 0;
  sapi = 0;
  ea = 1;
  kind = other_u_frame;
  data_len = len;
  more = false;
  fo = 1;
}

-- The frame behind the header of layer 1: its header, its payload and its padding.
lapdm_frame-header :
    (p : Mem) (len : ℕ) (ul sacch : Bool)
    → len ≤ 63
    → (shift (lapdm_frame p len ul sacch) (l1_len sacch) 0 ≡ (if ul then 1 else 3))
      × (shift (lapdm_frame p len ul sacch) (l1_len sacch) 1 ≡ 3)
      × (shift (lapdm_frame p len ul sacch) (l1_len sacch) 2 ≡ len * 4 + 1)
unfolding lapdm_frame l1_len alloc_len lapdm_header
lapdm_frame-header p len ul true short = ground arith
lapdm_frame-header p len ul false short = ground arith

lapdm_frame-payload :
    (p : Mem) (len : ℕ) (ul sacch : Bool) (i : ℕ)
    → i < len
    → shift (shift (lapdm_frame p len ul sacch) (l1_len sacch)) 3 i ≡ p i
unfolding lapdm_frame l1_len alloc_len
lapdm_frame-payload p len ul true i lt = ground arith
lapdm_frame-payload p len ul false i lt = ground arith

lapdm_frame-padding :
    (p : Mem) (len : ℕ) (ul sacch : Bool) (i : ℕ)
    → len ≤ i
    → i + l1_len sacch + 3 < alloc_len sacch len
    → shift (shift (lapdm_frame p len ul sacch) (l1_len sacch)) 3 i ≡ 0x2b
unfolding lapdm_frame l1_len alloc_len
lapdm_frame-padding p len ul true i ge lt = ground arith
lapdm_frame-padding p len ul false i ge lt = ground arith

frame-header :
    (msg : Mem) (len : ℕ) (ul : Bool)
    → len ≤ 63
    → (msg 0 ≡ (if ul then 1 else 3)) × (msg 1 ≡ 3) × (msg 2 ≡ len * 4 + 1)
    → frame msg ≡ whole_frame len
unfolding frame frame_kind
frame-header msg len true short (e0, e1, e2) = rw (e0, e1, e2) (ground arith)
frame-header msg len false short (e0, e1, e2) = rw (e0, e1, e2) (ground arith)

-- A payload of 1 to 63 bytes comes back whole: behind the header of layer 1, the frame is a U frame
-- of SAPI 0 with no further fragment that passes the checks of `handle_lapdm`, it has the length
-- and the bytes of the payload, and the rest is padding.
pub frame-encapsulate_lapdm :
    (p : Mem) (len : ℕ) (ul sacch : Bool)
    → 1 ≤ len
    → len ≤ 63
    → (q : Mem) × (n : ℕ) × (encapsulate_lapdm p len ul sacch ≡ some (q, n))
      × (frame (shift q (l1_len sacch)) ≡ whole_frame len)
      × (is_malformed (whole_frame len) (n - l1_len sacch) ≡ false)
      × ((i : ℕ) → i < len → shift (shift q (l1_len sacch)) 3 i ≡ p i)
      × ((i : ℕ) → len ≤ i → i < n - l1_len sacch - 3 → shift (shift q (l1_len sacch)) 3 i ≡ 0x2b)
unfolding encapsulate_lapdm is_malformed alloc_len l1_len
frame-encapsulate_lapdm p len ul sacch some_len short =
    rw (not_empty, whole)
      (
        lapdm_frame p len ul sacch,
        alloc_len sacch len,
        refl,
        frame-header (shift (lapdm_frame p len ul sacch) (l1_len sacch)) len ul short
            (lapdm_frame-header p len ul sacch short),
        passes sacch,
        (λ i lt. lapdm_frame-payload p len ul sacch i lt),
        (λ i ge lt. lapdm_frame-padding p len ul sacch i ge (omega (arith, lt))),
      )
  where
    not_empty : (len == 0) ≡ false
    not_empty = ground (arith, some_len)

    whole : min len 63 ≡ len
    whole = omega arith

    passes :
        (sacch : Bool) → is_malformed (whole_frame len) (alloc_len sacch len - l1_len sacch) ≡ false
    passes true = ground arith
    passes false = ground arith
