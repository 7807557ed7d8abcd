-- ===== src/L3/Counters/Rest.antt =====
-- gsm-parser/l3_handler.c: `update_counters` leaves the buffers of LAPDm alone.
use srlabs.Base.{
  ℕ, ◌≡◌, refl, ap, ◌∙◌, Bool, true, false, Returns, Returns-bind, Returns-if, if◌then◌else◌, Mem,
  ltb,
}
use srlabs.Session.{Ctx}
use srlabs.L3.Core.{IsHeld}
use srlabs.L3.Inv.{HeldInv, HeldInv-core}
use srlabs.L3.Rr.Checks.{AfterCheck}
use srlabs.L3.Counters.{count_uplink, count_checked, check_frame, update_counters, pad_len}
use srlabs.L3.Counters.Laws.{check_frame-HeldInv}

-- The buffers stay, and the message is still held.
abbrev pub Rest : Ctx → Ctx → Type 0
Rest c d = (d.s.bufs ≡ c.s.bufs) × IsHeld d

uplink-HeldInv : (ul : Bool) (c : Ctx) → HeldInv c → HeldInv (if ul then count_uplink c else c)
unfolding count_uplink
uplink-HeldInv true c inv = HeldInv-core c (count_uplink c) refl inv
uplink-HeldInv false c inv = inv

uplink-bufs : (ul : Bool) (c : Ctx) → (if ul then count_uplink c else c).s.bufs ≡ c.s.bufs
unfolding count_uplink
uplink-bufs true c = refl
uplink-bufs false c = refl

count_checked-Rest :
    (len data_len : ℕ) (o : Bool × Ctx) (c : Ctx)
    → AfterCheck c o
    → Rest c (count_checked len data_len o)
unfolding count_checked
count_checked-Rest len data_len (is_random, d) c (inv, only) =
    (ap (λ (e : Ctx). e.s.bufs) only, inv.0)

pub update_counters-Rest :
    (p : Mem) (len data_len : ℕ) (ul : Bool) (c : Ctx)
    → HeldInv c
    → Returns (Rest c) (update_counters p len data_len ul c)
unfolding update_counters
update_counters-Rest p len data_len ul c inv =
    let c' = if ul then count_uplink c else c in
    let inv' = uplink-HeldInv ul c inv in
    let same = uplink-bufs ul c in
    Returns-if (Rest c) (ltb 20 (pad_len len data_len)) _ _ (same, inv'.0)
      (Returns-if (Rest c) ul _ _ (same, inv'.0)
        (Returns-bind (AfterCheck c') (Rest c) (check_frame p len data_len c') _
          (check_frame-HeldInv p len data_len c' inv')
          λ o h. let (bufs, held) = count_checked-Rest len data_len o c' h in (bufs ∙ same, held)))
