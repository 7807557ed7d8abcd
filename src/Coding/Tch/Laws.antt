-- ===== src/Coding/Tch/Laws.antt =====
-- gsm-parser/tch.c: the buffer of a traffic channel never overflows, whatever the flags of the
-- bursts and the result of the decoder.
use srlabs.Base.{ℕ, ◌+◌, ◌≤◌, ◌≡◌, arith, min, List, inl, inr, Bool-cases}
use srlabs.Base.{
  Bool, true, false, ltb, nonzero, ◌==◌, if◌then◌else◌, Mem, Safe, Safe-bind, Safe-cases, done,
}
use srlabs.Radio.{has_bit, uplink_bit}
use srlabs.L3.Env.{Env}
use srlabs.L3.Counters.Laws.{HasRoom}
use srlabs.L3.Dtap.{World}
use srlabs.L3.Dtap.Both.{WorldInv, HeldWorld}
use srlabs.L3.Lapdm.{facch}
use srlabs.L3.Lapdm.Laws.{handle_lapdm-WorldInv}
use srlabs.Burst.{BurstInd, BurstBuf}
use srlabs.Coding.Interleave.{Maps}
use srlabs.Coding.Cch.{Locals}
use srlabs.Coding.Ccch.{KeyStream}
use srlabs.Coding.Tch.{
  append, append_error, discard, try_error, check_flags, buffer_burst, skip_burst, next_block,
  collect, after_block, decode_block, no_bursts, handle_block, process_tch,
}

-- Between two bursts there are at most seven in the buffer, with at most two errors besides those
-- of the first four.
pub record IsBuffered (bb : BurstBuf) : Type 0 where
  pub count : bb.count ≤ 7
  pub errors : bb.errors ≤ 2 + min (bb.count) 4

-- What the function returns: a buffer in its bounds, and sessions as they should be.
abbrev pub Buffering : Env → BurstBuf × Mem × World × ℕ → Type 0
Buffering env (bb, msg, w, ret) = IsBuffered bb × WorldInv env w

-- The same after a burst, which may have been the eighth.
abbrev IsChecked : BurstBuf → Type 0
IsChecked bb = (bb.count ≤ 8) × (bb.errors ≤ 2 + min (bb.count) 4)

try_error-IsChecked : (bb : BurstBuf) → IsBuffered bb → IsChecked ((try_error bb).0)
unfolding try_error append_error discard
try_error-IsChecked bb h = elim (Bool-cases (ltb (bb.errors) 2)) [
  | inl e ↦ rw e (omega (arith, h.count), ground (arith, e))
  | inr e ↦ rw e (omega arith, omega arith)
]

check_flags-IsChecked :
    (first second : Bool) (bb : BurstBuf)
    → IsBuffered bb
    → IsChecked ((check_flags first second bb).0)
unfolding check_flags append append_error
check_flags-IsChecked false false bb h = elim (Bool-cases (nonzero (bb.count))) [
  | inl e ↦ rw e (try_error-IsChecked bb h)
  | inr e ↦ rw e (omega (arith, h.count), h.errors)
]
check_flags-IsChecked false true bb h = elim (Bool-cases (ltb (bb.count) 4)) [
  | inl e ↦ rw e (omega (arith, h.count), omega (arith, h.errors))
  | inr e ↦ rw e (try_error-IsChecked bb h)
]
check_flags-IsChecked true false bb h = elim (Bool-cases (ltb 3 (bb.count))) [
  | inl e ↦ rw e (omega (arith, h.count), omega (arith, h.errors))
  | inr e ↦ rw e (try_error-IsChecked bb h)
]
check_flags-IsChecked true true bb h = elim (Bool-cases (ltb 3 (bb.count))) [
  | inl e ↦ rw e (omega (arith, h.count), omega (arith, h.errors))
  | inr e ↦ rw e (omega (arith, h.count), ground (arith, h.errors, e))
]

buffer_burst-IsBuffered :
    (a5 : KeyStream) (key : Mem) (bi : BurstInd) (bb : BurstBuf)
    → IsBuffered bb
    → IsBuffered (buffer_burst a5 key bi bb)
unfolding buffer_burst
buffer_burst-IsBuffered a5 key bi bb h = record { count = h.count; errors = h.errors }

next_block-IsBuffered :
    (overlaps : Bool) (bb : BurstBuf) → IsChecked bb → IsBuffered (next_block overlaps bb)
unfolding next_block
next_block-IsBuffered true bb h = record { count = omega arith; errors = omega (arith, h.1) }
next_block-IsBuffered false bb h = record { count = omega arith; errors = omega arith }

after_block-IsBuffered :
    (ret : ℕ) (bi : BurstInd) (bb : BurstBuf) → IsChecked bb → IsBuffered (after_block ret bi bb)
unfolding after_block skip_burst
after_block-IsBuffered ret bi bb h = elim (Bool-cases (ret == 0)) [
  | inl e ↦ rw e (record { count = omega arith; errors = omega (arith, h.1) })
  | inr e ↦ rw e (next_block-IsBuffered _ bb h)
]

after_reset-IsBuffered :
    (reset : Bool) (ret : ℕ) (bi : BurstInd) (bb : BurstBuf)
    → IsChecked bb
    → IsBuffered (after_block ret bi (if reset then no_bursts else bb))
unfolding no_bursts
after_reset-IsBuffered true ret bi bb h =
    after_block-IsBuffered ret bi no_bursts (omega arith, omega arith)
after_reset-IsBuffered false ret bi bb h = after_block-IsBuffered ret bi bb h

held-WorldInv : (env : Env) (w : World) → HeldWorld env w → WorldInv env w
held-WorldInv env w held = record {
  cs = held.cs.1;
  ps = λ on. (held.ps on).1;
  cs_domain = held.cs_domain;
  ps_domain = held.ps_domain;
}

handle_block-Buffering :
    (is_reset : World → World → Bool) (env : Env) (smsc : List ℕ) (maps : Maps) (locals : Locals)
    (a5 : KeyStream) (conv_data : Mem) (bi : BurstInd) (bb : BurstBuf) (msg : Mem) (w : World)
    → IsChecked bb
    → HeldWorld env w
    → HasRoom w.cs.s.fc
    → Safe (Buffering env) (handle_block is_reset env smsc maps locals a5 conv_data bi bb msg w)
unfolding handle_block
handle_block-Buffering is_reset env smsc maps locals a5 conv_data bi bb msg w h held room =
    let (decoded, ret) = decode_block maps locals conv_data bb msg in
    let buffered = after_block-IsBuffered ret bi bb h in
    let ul = has_bit uplink_bit (bi.band_arfcn) in
    Safe-cases (Buffering env) (ret == 0) _ _ (λ failed. (buffered, held-WorldInv env w held))
      λ good.
        Safe-bind (WorldInv env) (Buffering env) _ _
          (handle_lapdm-WorldInv env smsc facch decoded 23 (bb.fn 0) ul w held room)
          λ w' inv. (after_reset-IsBuffered (is_reset w w') ret bi bb h, inv)

if_stops :
    (b : Bool) (p q : BurstBuf × Bool)
    → (p.1 ≡ false → p.0.count ≤ 7)
    → (q.1 ≡ false → q.0.count ≤ 7)
    → (if b then p else q).1 ≡ false
    → (if b then p else q).0.count ≤ 7
if_stops true p q hp hq h = hp h
if_stops false p q hp hq h = hq h

goes_on_stops : (bb : BurstBuf) → true ≡ false → bb.count ≤ 7
goes_on_stops bb h = ground (arith, h)

-- Where the function stops before it has counted the burst, there are no eight.
try_error_stops : (bb : BurstBuf) → (try_error bb).1 ≡ false → (try_error bb).0.count ≤ 7
unfolding try_error discard
try_error_stops bb =
    if_stops (ltb (bb.errors) 2) (append_error bb, true) (discard bb, false)
      (goes_on_stops (append_error bb)) (λ h. omega arith)

check_flags_stops :
    (first second : Bool) (bb : BurstBuf)
    → bb.count ≤ 7
    → (check_flags first second bb).1 ≡ false
    → (check_flags first second bb).0.count ≤ 7
unfolding check_flags
check_flags_stops false false bb few =
    if_stops (nonzero (bb.count)) _ _ (try_error_stops bb) (λ h. few)
check_flags_stops false true bb few =
    if_stops (ltb (bb.count) 4) _ _ (goes_on_stops (append bb)) (try_error_stops bb)
check_flags_stops true false bb few =
    if_stops (ltb 3 (bb.count)) _ _ (goes_on_stops (append bb)) (try_error_stops bb)
check_flags_stops true true bb few =
    if_stops (ltb 3 (bb.count)) _ _ (goes_on_stops (append bb)) (goes_on_stops (append_error bb))

collect-IsBuffered :
    (a5 : KeyStream) (key : Mem) (bi : BurstInd) (bb : BurstBuf)
    → IsBuffered bb
    → IsChecked ((collect a5 key bi bb).0)
      × ((collect a5 key bi bb).1 ≡ false → IsBuffered ((collect a5 key bi bb).0))
unfolding collect
collect-IsBuffered a5 key bi bb h =
    let first = has_bit 4 (bi.bits 14) in
    let second = has_bit 5 (bi.bits 14) in
    let b = buffer_burst a5 key bi bb in
    let buffered = buffer_burst-IsBuffered a5 key bi bb h in
    let checked = check_flags-IsChecked first second b buffered in
    let stops = check_flags_stops first second b (buffered.count) in
    (
      checked,
      λ incomplete. record {
        count = ground (arith, checked, stops, incomplete);
        errors = checked.1;
      },
    )

-- A burst of any content leaves the buffer in its bounds and the sessions as they should be, where
-- the session holds a message, as long as no counter of frames is full.
pub process_tch-Buffering :
    (is_reset : World → World → Bool) (env : Env) (smsc : List ℕ) (maps : Maps) (locals : Locals)
    (a5 : KeyStream) (conv_data : Mem) (bi : BurstInd) (bb : BurstBuf) (msg : Mem) (w : World)
    → IsBuffered bb
    → HeldWorld env w
    → HasRoom w.cs.s.fc
    → Safe (Buffering env) (process_tch is_reset env smsc maps locals a5 conv_data bi bb msg w)
unfolding process_tch
process_tch-Buffering is_reset env smsc maps locals a5 conv_data bi bb msg w h held room =
    let (checked, buffered) = collect-IsBuffered a5 (w.cs.s.sec.key) bi bb h in
    let (whole, complete) = collect a5 (w.cs.s.sec.key) bi bb in
    Safe-cases (Buffering env) complete _ (done (whole, msg, w, 0))
      (λ eighth.
        handle_block-Buffering is_reset env smsc maps locals a5 conv_data bi whole msg w checked
          held room)
      λ incomplete. (buffered incomplete, held-WorldInv env w held)
