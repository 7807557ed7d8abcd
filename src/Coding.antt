-- ===== src/Coding.antt =====
-- gsm-parser/gsm_interleave.c, crc.c, viterbi.c, cch.c, ccch.c, tch.c, sch.c and chan_detect.c: the
-- channel coding of the control channels, and its use on the bursts of a message.
pub mod Interleave
pub mod Crc
pub mod Parity
pub mod Viterbi
pub mod Cch
pub mod Ccch
pub mod Chan
pub mod Sch
pub mod Tch
mod Tests
