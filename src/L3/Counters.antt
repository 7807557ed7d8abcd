-- ===== src/L3/Counters.antt =====
-- gsm-parser/l3_handler.c: `update_counters`, the statistics of encrypted frames.
pub mod Laws
pub mod Rest
use srlabs.Base.{ℕ, ◌+◌, ◌-◌, ◌^◌, Bool, true, false, not}
use srlabs.Base.{Outcome, done, ◌>>=◌, ltb, ◌==◌, nonzero, if◌then◌else◌, u8, u32, Mem, shift}
use srlabs.Session.{Session, Ctx, FrameCount, Padding, Report}
use srlabs.L3.Core.{with_tr, with_fc}
use srlabs.L3.Rr.{check_pad}

-- `pad_len`, in unsigned.
unfoldable pub pad_len : ℕ → ℕ → ℕ
pad_len len data_len = u32 (u32 len + 2 ^ 32 - data_len)

pub up : ℕ → ℕ
up n = u32 (n + 1)

-- The parts of an encrypted frame's count.
pub count_null : Bool → FrameCount → FrameCount
count_null true f = record f { enc_null = up f.enc_null; enc_null_rand = up f.enc_null_rand }
count_null false f = record f { enc_null = up f.enc_null; predict = up f.predict }

pub count_si : Bool → FrameCount → FrameCount
count_si true f = record f { enc_si = up f.enc_si; enc_si_rand = up f.enc_si_rand }
count_si false f = record f { enc_si = up f.enc_si; predict = up f.predict }

pub count_rand : Bool → FrameCount → FrameCount
count_rand true f = record f { enc = up f.enc; enc_rand = up f.enc_rand }
count_rand false f = record f { enc = up f.enc }

pub count_unenc : Bool → FrameCount → FrameCount
count_unenc true f = record f { unenc = up f.unenc; unenc_rand = up f.unenc_rand }
count_unenc false f = record f { unenc = up f.unenc }

pub count_frame : Bool → Bool → ℕ → ℕ → FrameCount → FrameCount
count_frame ciphered is_random len data_len f =
    if ciphered
    then (if data_len == 0
        then count_null is_random (count_rand is_random f)
        else if len == 18
        then count_si is_random (count_rand is_random f)
        else count_rand is_random f)
    else count_unenc is_random f

-- The check of the padding of a frame on the SDCCH or the SACCH.
pub check_frame : Mem → ℕ → ℕ → Ctx → Outcome (Bool × Ctx)
check_frame frame len data_len c =
    let pad = shift (shift frame data_len) 1 in
    let n = pad_len len data_len in
    if n == 0
    then done (false, c)
    else if len == 20
    then (if data_len == 0
        then check_pad pad (n - 1) c.s.pad.null (λ r. record (c.s.pad) { null = r }) c
        else check_pad pad (n - 1) c.s.pad.other_sdcch (λ r. record (c.s.pad) { other_sdcch = r })
            c)
    else if len == 18
    then check_pad pad (n - 1) c.s.pad.other_sacch (λ r. record (c.s.pad) { other_sacch = r }) c
    else done (false, c)

pub count_uplink : Ctx → Ctx
count_uplink c = with_tr (record (c.s.tr) { uplink = u8 (c.s.tr.uplink + 1) }) c

pub count_checked : ℕ → ℕ → Bool × Ctx → Ctx
count_checked len data_len (is_random, c) =
    with_fc (count_frame (nonzero c.s.sec.cipher) is_random len data_len c.s.fc) c

pub update_counters : Mem → ℕ → ℕ → Bool → Ctx → Outcome Ctx
update_counters frame len data_len ul c =
    let c = if ul then count_uplink c else c in
    if ltb 20 (pad_len len data_len)
    then done c
    else if ul
    then done c
    else (do checked ← check_frame frame len data_len c; done (count_checked len data_len checked))
