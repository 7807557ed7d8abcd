-- ===== src/L3.antt =====
-- gsm-parser/l3_handler.c: the handlers of layer 3 messages and of the LAPDm frames below them.
-- A `Mem` argument stands for the pointer that the C function takes. A switch is a data type of its
-- cases, a function that finds the case, and the body of each case.
pub mod Core
pub mod Env
pub mod Inv
pub mod Ie
pub mod Sms
pub mod Cc
pub mod Mm
pub mod Rr
pub mod Gmm
pub mod Counters
pub mod Dtap
pub mod Lapdm
pub mod Receive
pub mod Encaps
pub mod Tests
