-- ===== src/Burst.antt =====
-- gsm-parser/burst_desc.h and process.h: a received burst, and the buffer in which the bursts of a
-- message are collected. The fields of a burst that come in network order hold their values here.
use srlabs.Base.{ℕ, Mem}

pub record BurstInd : Type 0 where
  pub frame_nr : ℕ
  pub band_arfcn : ℕ
  pub chan_nr : ℕ
  pub flags : ℕ
  pub rx_level : ℕ
  pub snr : ℕ
  pub bits : Mem

pub record BurstBuf : Type 0 where
  pub count : ℕ
  pub errors : ℕ
  pub snr : Mem
  pub rxl : Mem
  pub fn : Mem
  pub arfcn : Mem
  pub data_ : Mem
  pub sbit : Mem
