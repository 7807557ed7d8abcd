-- ===== src/Gprs.antt =====
-- gsm-parser/gprs.c, punct.c and rlcmac.c: the packet channels.
pub mod Rlc
pub mod Handler
pub mod Puncture
pub mod Estimate
pub mod Pdch
mod Tests
