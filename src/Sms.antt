-- ===== src/Sms.antt =====
-- gsm-parser/sms.c and sms.h: the payload of short messages.
pub mod Meta
pub mod Text
pub mod Ota
pub mod Udh
pub mod Tpdu
mod Tests
