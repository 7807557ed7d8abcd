-- ===== src/L3/Lapdm/Appending.antt =====
-- gsm-parser/l3_handler.c, `handle_lapdm`: what the buffer holds after one fragment.
use srlabs.Base.{ℕ, ◌+◌, ◌-◌, ◌%◌, ◌≤◌, ◌<◌, ◌≡◌, refl, arith, false, ◌++◌, ◌⊎◌, inl, inr}
use srlabs.Base.{
  Returns, Mem, bytes, memcpy, memset, bytes-ext, bytes-memcpy, ltb, ==_iff, ◌==◌, Bool-cases,
}
use srlabs.Session.{LapdmBuf}
use srlabs.L3.Lapdm.{i_frame, buffer_size, is_out_of_order, must_refuse, accept, open_buf, append}

-- The buffer waits for the frame `ns`, or for the first frame of a message.
unfoldable pub Expects : ℕ → LapdmBuf → Type 0
Expects ns mb = (mb.len ≡ 0) ⊎ ((ns ≡ (mb.ns + 1) % 8) × (mb.out_of_seq < 3))

pub not-refused :
    (nr ns : ℕ) (mb : LapdmBuf) → Expects ns mb → must_refuse (i_frame nr ns) mb ≡ false
unfolding must_refuse is_out_of_order Expects
not-refused nr ns mb h = ground arith

-- What the buffer is to hold after a fragment.
unfoldable pub Appended : Mem → ℕ → ℕ → LapdmBuf → LapdmBuf → Type 0
Appended p n ns mb mb' =
    (bytes mb'.payload mb'.len ≡ bytes mb.payload mb.len ++ bytes p n)
    × (mb'.len ≡ mb.len + n)
    × Expects ((ns + 1) % 8) mb'

append-first :
    (p : Mem) (n nr ns : ℕ) (mb : LapdmBuf)
    → mb.len ≡ 0
    → Returns (Appended p n ns mb) (append p n (accept nr ns mb))
unfolding append accept Expects Appended
append-first p n nr ns mb empty = rw empty (
  bytes-ext (memset (memcpy mb.payload 0 p n) n 0x2b (buffer_size - n)) p n
      (λ i lt. ground (arith, lt)),
  omega arith,
  inr (refl, omega arith),
)

append-more :
    (p : Mem) (n nr ns : ℕ) (mb : LapdmBuf)
    → (mb.len == 0) ≡ false
    → mb.len + n ≤ buffer_size
    → Returns (Appended p n ns mb) (append p n (accept nr ns mb))
unfolding append accept Expects Appended
append-more p n nr ns mb more fits =
    rw (more, not_over) (bytes-memcpy mb.payload p mb.len n, refl, inr (refl, omega arith))
  where
    not_over : ltb buffer_size (mb.len + n) ≡ false
    not_over = ground (arith, fits)

pub append-Appended :
    (p : Mem) (n nr ns : ℕ) (mb : LapdmBuf)
    → mb.len + n ≤ buffer_size
    → Returns (Appended p n ns mb) (append p n (open_buf (i_frame nr ns) mb))
unfolding open_buf
append-Appended p n nr ns mb fits = elim (Bool-cases (mb.len == 0)) [
  | inl empty ↦ append-first p n nr ns mb ((==_iff mb.len 0).0 empty)
  | inr more ↦ append-more p n nr ns mb more fits
]
