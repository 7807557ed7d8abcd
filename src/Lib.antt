-- ===== src/Lib.antt =====
-- A model of the message processing of gsm-parser, which reads the radio messages of a phone and
-- keeps a record of each transaction (session) between the phone and the network.
--
-- A radio message comes into `handle_radio_msg`, which gives a frame to `handle_lapdm`; that puts
-- the fragments of a message together, counts encrypted frames and their padding, and gives the
-- whole message to `handle_dtap`, which drops repetitions and calls the handler of the protocol.
-- The handlers fill in the session, describe the message in its text, and reset the session at the
-- begin and the end of a transaction. The message then goes into the list of its session.
--
-- Below that, the bursts of a control channel come into `process_ccch`, which collects four of them,
-- deciphers and decodes the message and gives it to `handle_lapdm`; `process_tch` does so with the
-- eight bursts of a traffic channel that are stolen for signalling. Those of a packet channel come
-- into `process_pdch`, whose blocks `rlc_type_handler` puts together to LLC frames. The payload of
-- a short message is read by `handle_tpdu`. `parse_assignment` reads the channel that a command
-- names, and acts on no session.
--
-- Files, each about the code that its own first lines name:
--   Base            shared names, words of C, memory, loops, the outcome of a call
--   BitFunc         gsm-parser/bit_func.c
--   RandCheck       gsm-parser/rand_check.c and rand_check.h
--   Radio           gsm-parser/process.h: the message
--   Address         gsm-parser/address.c
--   Assignment      gsm-parser/assignment.c and assignment.h
--   Session         gsm-parser/session.c and session.h: the state, closing, resetting
--   L3/Core, L3/Inv what handlers leave alone, and the invariant of a session
--   L3/Env          the calls that are parameters
--   L3/Ie           gsm-parser/l3_handler.c: information elements
--   L3/Cc, Mm, Rr, Gmm, Sms
--                   gsm-parser/l3_handler.c and sms.c: `handle_cc`, `handle_ss`, `handle_mm`,
--                   `handle_rr`, `handle_gmm`, `handle_sm`, `handle_sms`
--   L3/Counters     gsm-parser/l3_handler.c: `update_counters`
--   L3/Dtap         gsm-parser/l3_handler.c: `is_double`, `handle_dtap`
--   L3/Lapdm        gsm-parser/l3_handler.c: `handle_lapdm`
--   L3/Receive      gsm-parser/l3_handler.c: `handle_radio_msg`, `update_timestamps`
--   L3/Encaps       gsm-parser/l3_handler.c: `encapsulate_lapdm`, `new_l2`, `new_l3`
--   Burst           gsm-parser/burst_desc.h, process.h: a burst, and the buffer of bursts
--   Coding          gsm-parser/gsm_interleave.c, crc.c, viterbi.c, cch.c; Coding/Ccch: ccch.c;
--                   Coding/Tch: tch.c; Coding/Sch: sch.c; Coding/Chan: chan_detect.c
--   Gprs/Rlc, Handler
--                   gsm-parser/rlcmac.c: `process_blocks`; the two handlers
--   Gprs/Puncture, Estimate, Pdch
--                   gsm-parser/punct.c; gprs.c: the estimates; `process_pdch`
--   Sms             gsm-parser/sms.c: `handle_tpdu`, `handle_udh` and what they call
-- A child named Laws holds the theorems of its parent, a child named Tests the runs.
--
-- How the code is read. A pointer to bytes is a function from the index (`Mem`). A call that may
-- fail an assertion or call abort(), or that C leaves undefined, returns an `Outcome`; `Safe` says
-- that it fails no assertion, and `Returns` that it returns. `Safe` also allows undefined
-- behaviour, which the model reaches in these places only: an IMSI that overruns its buffer, a
-- message of LAPDm that overruns its buffer, an RLC block with more than 20 entries or 53 bytes, a
-- hopping channel with more than 64 frequencies, and the use of a message that is freed or missing.
-- Unsigned arithmetic wraps around where it is written (`u8`, `u16`, `u32`). Of the message list of
-- a session its addresses are kept, of the database the ids of the rows, and of a text the parts
-- of its format. Loops are recursion on the number of rounds that their bound gives, so that no
-- fuel can run out; the window of 128 RLC blocks is gone through in at most 128 rounds. The loop
-- over the elements of a user data header has no such bound in the code: it gets 256 rounds, and
-- `none` stands for more. Arrays that the code leaves uninitialised are arguments. Soft bits are the
-- bytes of their two's complement. The history of the Viterbi decoder is a table of its own for each
-- state, where the code has rows that share a word, and one word behind the array.
--
-- Parameters: `tlv_parse`, `gsm_7bit_decode_n`, `gsm48_decode_freq_list` and `osmo_a5` of
-- libosmocore, what malloc returns, the scaling of times in single precision, the clock, and the
-- decoders of UMTS and LTE. The layers above take what `handle_tpdu` appends to the text as a
-- parameter, too; Sms/Tpdu models it. `process_tch` takes whether a reset has cleared its buffer.
--
-- Not modelled: the list of cells and paging counters, the input formats, the printing and the text
-- of SQL statements. What is sent to the network is a list for RLC/MAC, and left out elsewhere.
pub mod Base
pub mod BitFunc
pub mod RandCheck
pub mod Radio
pub mod Address
pub mod Assignment
pub mod Session
pub mod L3
pub mod Burst
pub mod Coding
pub mod Gprs
pub mod Sms
