-- ===== src/L3/Rr/Types.antt =====
-- gsm-parser/l3_handler.c, `handle_rr`: the cases of the switch on the message type.
use srlabs.Base.{ℕ, Option, none, some, ◌==◌, if◌then◌else◌}
use srlabs.Radio.{Piece, text}

-- System information messages.
pub data SiType : Type 0 where
  si1 si2 si2bis si2ter si2quater si3 si4 si5 si5bis si5ter si6 si13 : SiType

-- The cases of the switch on the message type.
pub data RrType : Type 0 where
  si : SiType → RrType
  chan_rel clsm_enq meas_rep clsm_chg pag_req_1 pag_req_2 pag_req_3 : RrType
  imm_ass imm_ass_ext imm_ass_rej pag_resp hando_cmd hando_compl ass_cmd ass_compl : RrType
  ciph_compl gprs_susp ciph_cmd utran_classmark other_rr : RrType

pub si_type : ℕ → Option SiType
si_type t =
    if t == 0x19
    then some si1
    else if t == 0x1a
    then some si2
    else if t == 0x02
    then some si2bis
    else if t == 0x03
    then some si2ter
    else if t == 0x07
    then some si2quater
    else if t == 0x1b
    then some si3
    else if t == 0x1c
    then some si4
    else if t == 0x1d
    then some si5
    else if t == 0x05
    then some si5bis
    else if t == 0x06
    then some si5ter
    else if t == 0x1e
    then some si6
    else if t == 0x00
    then some si13
    else none

pub procedure_type : ℕ → RrType
procedure_type t =
    if t == 0x0d
    then chan_rel
    else if t == 0x13
    then clsm_enq
    else if t == 0x15
    then meas_rep
    else if t == 0x16
    then clsm_chg
    else if t == 0x21
    then pag_req_1
    else if t == 0x22
    then pag_req_2
    else if t == 0x24
    then pag_req_3
    else if t == 0x3f
    then imm_ass
    else if t == 0x39
    then imm_ass_ext
    else if t == 0x3a
    then imm_ass_rej
    else if t == 0x27
    then pag_resp
    else if t == 0x2b
    then hando_cmd
    else if t == 0x2c
    then hando_compl
    else if t == 0x2e
    then ass_cmd
    else if t == 0x29
    then ass_compl
    else if t == 0x32
    then ciph_compl
    else if t == 0x34
    then gprs_susp
    else if t == 0x35
    then ciph_cmd
    else if t == 0x60
    then utran_classmark
    else other_rr

pub rr_type : ℕ → RrType
rr_type t = elim (si_type t) [ some x ↦ si x | none ↦ procedure_type t ]

pub si_text : SiType → Piece
si_text si1 = text "SYSTEM INFO 1"
si_text si2 = text "SYSTEM INFO 2"
si_text si2bis = text "SYSTEM INFO 2bis"
si_text si2ter = text "SYSTEM INFO 2ter"
si_text si2quater = text "SYSTEM INFO 2quater"
si_text si3 = text "SYSTEM INFO 3"
si_text si4 = text "SYSTEM INFO 4"
si_text si5 = text "SYSTEM INFO 5"
si_text si5bis = text "SYSTEM INFO 5bis"
si_text si5ter = text "SYSTEM INFO 5ter"
si_text si6 = text "SYSTEM INFO 6"
si_text si13 = text "SYSTEM INFO 13"
