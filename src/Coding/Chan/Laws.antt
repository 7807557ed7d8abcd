-- ===== src/Coding/Chan/Laws.antt =====
-- gsm-parser/chan_detect.c: at which frames the blocks of a subchannel begin.
use srlabs.Base.{ℕ, ◌+◌, ◌-◌, ◌*◌, ◌%◌, ◌<◌, ◌≡◌, ◌↔◌, arith}
use srlabs.Base.{ltb, if◌then◌else◌}
use srlabs.Coding.Chan.{sdcch, sacch, xcch_detect}

-- Where the block of the slow associated channel `k` begins in 102 frames.
pub sacch_start : ℕ → ℕ
sacch_start k = if ltb k 4 then 32 + 4 * k else 83 + 4 * (k - 4)

-- A frame begins a block of the dedicated channel `k` exactly at 4 * k of 51 frames, for the eight
-- channels 0 to 7, and a block of the slow associated channel `k` exactly at 32 + 4 * k of 102
-- frames for the channels 0 to 3, and at 83 + 4 * (k - 4) for the channels 4 to 7.
pub xcch_detect-start_iff :
    (fn k : ℕ)
    → ((xcch_detect fn ≡ (sdcch, k)) ↔ ((k < 8) × (fn % 51 ≡ 4 * k)))
      × ((xcch_detect fn ≡ (sacch, k)) ↔ ((k < 8) × (fn % 102 ≡ sacch_start k)))
unfolding xcch_detect sacch_start
xcch_detect-start_iff fn k = (
  (λ e. ground (arith, e), λ h. ground (arith, h)),
  (λ e. ground (arith, e), λ h. ground (arith, h)),
)
