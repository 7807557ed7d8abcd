-- ===== src/L3/Dtap/Repeat.antt =====
-- gsm-parser/l3_handler.c, `is_double`: which messages are dropped.
use srlabs.Base.{ℕ, ◌≤◌, ◌<◌, ◌%◌, ◌≡◌, refl, arith, Bool, true, false, ◌&&◌, not, min}
use srlabs.Base.{Mem, memcpy, every-from, ◌==◌, if◌then◌else◌, nonzero, ltb}
use srlabs.Radio.{Message, rat_gsm, is_uplink}
use srlabs.Session.{Ctx}
use srlabs.L3.Dtap.{common_len, same_bytes, is_repeated, remember, is_double}

same_bytes_copy : (n : ℕ) (old msg : Mem) → same_bytes n msg (memcpy old 0 msg n) ≡ true
unfolding same_bytes
same_bytes_copy n old msg = every-from _ n λ x lt. ground arith

-- The second message came on the other technology, as it does where both are recorded: first the
-- uplink on GSM and then on another, first the downlink on another and then on GSM.
pub comes_second : ℕ → Message → Bool
comes_second last_rat m =
    if is_uplink m
    then last_rat == rat_gsm && not (m.rat == rat_gsm)
    else not (last_rat == rat_gsm) && m.rat == rat_gsm

repeated-remember :
    (msg : Mem) (len : ℕ) (c : Ctx) (next : Message)
    → 1 ≤ len
    → len < 256
    → is_repeated msg len (record (remember msg len c) { m = next }) ≡ comes_second c.m.rat next
unfolding is_repeated remember common_len comes_second
repeated-remember msg len c next some_len short =
    rw (whole, byte, not_below, some, same_bytes_copy len c.s.bufs.last_dtap msg) refl
  where
    whole : min len 256 ≡ len
    whole = omega arith

    byte : len % 256 ≡ len
    byte = omega (arith, short)

    not_below : ltb len len ≡ false
    not_below = ground arith

    some : nonzero len ≡ true
    some = ground (arith, some_len)

-- A message of 1 to 255 bytes that is no repetition is remembered: the same bytes in the next
-- message are dropped just when they come on the other technology, in the order that the
-- direction has.
pub is_double-remembers :
    (msg : Mem) (len : ℕ) (c : Ctx) (next : Message)
    → 1 ≤ len
    → len < 256
    → (is_double msg len c).0 ≡ false
    → (is_double msg len (record ((is_double msg len c).1) { m = next })).0
      ≡ comes_second c.m.rat next
unfolding is_double
is_double-remembers msg len c next some_len short first =
    ground (arith, repeated-remember msg len c next some_len short)
