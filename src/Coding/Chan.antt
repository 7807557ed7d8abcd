-- ===== src/Coding/Chan.antt =====
-- gsm-parser/chan_detect.c: which channel a frame number belongs to. A result is the type, and the
-- subchannel.
pub mod Laws
use srlabs.Base.{ℕ, ◌+◌, ◌-◌, ◌/◌, ◌%◌, Bool, ◌||◌}
use srlabs.Base.{ltb, leb, ◌==◌, if◌then◌else◌, nonzero}

pub data ChanType : Type 0 where
  unknown bcch ccch sdcch sacch : ChanType

-- The cases of the multiframe of 51 frames.
pub bcch_case : ℕ → ℕ → ChanType × ℕ
bcch_case fn_mod sacch_sub =
    if fn_mod == 2 || fn_mod == 6
    then (bcch, 0)
    else if fn_mod == 12 || fn_mod == 16
    then (ccch, 0)
    else if fn_mod == 22
    then (sdcch, 0)
    else if fn_mod == 26
    then (sdcch, 1)
    else if fn_mod == 32
    then (sdcch, 2)
    else if fn_mod == 36
    then (sdcch, 3)
    else if fn_mod == 42
    then (sacch, 0 + sacch_sub)
    else if fn_mod == 46
    then (sacch, 1 + sacch_sub)
    else (unknown, 0)

pub not_combined : ChanType → ChanType
not_combined sdcch = ccch
not_combined sacch = ccch
not_combined type_ = type_

pub bcch_detect : ℕ → Bool → ChanType × ℕ
bcch_detect fn combined =
    let (type_, subchan) = bcch_case (fn % 51) (if leb 51 (fn % 102) then 2 else 0) in
    (if combined then type_ else not_combined type_, subchan)

pub xcch_detect : ℕ → ChanType × ℕ
xcch_detect fn =
    let fn_mod = fn % 51 in
    let sacch_sub = if leb 51 (fn % 102) then 4 else 0 in
    if ltb 47 fn_mod
    then (unknown, 0)
    else if nonzero (fn_mod % 4)
    then (unknown, 0)
    else if ltb fn_mod 32
    then (sdcch, fn_mod / 4)
    else (sacch, (fn_mod - 32) / 4 + sacch_sub)

pub chan_detect : ℕ → ℕ → Bool → ChanType × ℕ
chan_detect fn ts combined = if ts == 0 then bcch_detect fn combined else xcch_detect fn
