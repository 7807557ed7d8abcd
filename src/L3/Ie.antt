-- ===== src/L3/Ie.antt =====
-- gsm-parser/l3_handler.c, the information elements: classmark, location area, mobile identity,
-- and the messages that open a transaction; get_mcc and get_mnc of gsm-parser/cell_info.c.
-- Offsets and bit fields are those of the packed structs of gsm_04_08.h.
pub mod Laws
use srlabs.Base.{
  ℕ, ◌+◌, ◌-◌, ◌*◌, ◌/◌, ◌%◌, ◌^◌, Bool, true, false, ◌&&◌, not, List, [], ◌∷◌, Option, none, some,
}
use srlabs.Base.{Outcome, done, abort, undefined, ◌>>=◌, ltb, leb, ◌==◌, nonzero, if◌then◌else◌}
use srlabs.Base.{bit_or, bit, u16, shr, low_bits, Mem, shift, memcpy, bytes, length}
use srlabs.BitFunc.{bcd2str, not_zero}
use srlabs.Address.{codes}
use srlabs.Radio.{text, chars, dump}
use srlabs.Session.{Ctx, set_msg_info, append_msg_info}
use srlabs.L3.Core.{with_sec, with_who, with_tr, open_session}

-- GSM48_MI_SIZE, the size of the buffers of identities.
abbrev pub mi_size : ℕ
mi_size = 32

pub get_mcc : Mem → ℕ
get_mcc digits = low_bits (digits 0) 4 * 100 + shr (digits 0) 4 * 10 + low_bits (digits 1) 4

pub get_mnc : Mem → ℕ
get_mnc digits =
    if shr (digits 1) 4 == 0xf
    then low_bits (digits 2) 4 * 10 + shr (digits 2) 4
    else low_bits (digits 2) 4 * 100 + shr (digits 2) 4 * 10 + shr (digits 1) 4

-- A 16-bit number in network order.
pub net16 : Mem → ℕ
net16 p = p 0 * 256 + p 1

-- `|= !a5_1`, and for a classmark of type 2 `|= a5_2 << 1` and `|= a5_3 << 2`.
pub cipher_mask : ℕ → Mem → ℕ → ℕ
cipher_mask mask p type =
    let mask1 = bit_or mask (1 - bit 3 (p 0)) in
    if type == 2 then bit_or (bit_or mask1 (bit 0 (p 2) * 2)) (bit 1 (p 2) * 4) else mask1

pub handle_classmark : Mem → ℕ → Ctx → Ctx
handle_classmark p type c =
    with_sec (record (c.s.sec) { ms_cipher_mask = cipher_mask c.s.sec.ms_cipher_mask p type }) c

-- `none` is a negative cell id, which is not stored.
pub handle_lai : Mem → Option ℕ → Ctx → Ctx
handle_lai p cid c =
    with_who
      (record (c.s.who) {
        mcc = u16 (get_mcc p);
        mnc = u16 (get_mnc p);
        lac = net16 (shift p 3);
        cid = elim cid [ none ↦ c.s.who.cid | some n ↦ n ];
      })
      c

-- The buffer of the IMSI has room for 31 digits.
pub store_imsi : List ℕ → Ctx → Outcome Ctx
store_imsi s c =
    if ltb (length s) mi_size
    then done (with_who (record (c.s.who) { imsi = s; use_imsi = true }) c)
    else undefined

pub store_imei : List ℕ → Ctx → Ctx
store_imei s c = with_who (record (c.s.who) { imei = s }) c

-- The first TMSI of either kind is kept.
pub store_tmsi : Mem → Bool → Ctx → Ctx
store_tmsi p new_tmsi c =
    with_who
      (if new_tmsi
        then (if not_zero c.s.who.new_tmsi 4
            then c.s.who
            else record (c.s.who) { new_tmsi = memcpy c.s.who.new_tmsi 0 p 4 })
        else if not_zero c.s.who.old_tmsi 4
        then c.s.who
        else record (c.s.who) { old_tmsi = memcpy c.s.who.old_tmsi 0 p 4; use_tmsi = true })
      c

-- The cases of the switch on GSM_MI_TYPE_MASK.
pub data MiType : Type 0 where
  mi_none mi_imsi mi_imei mi_tmsi mi_other : MiType

pub mi_type : ℕ → MiType
mi_type b =
    if low_bits b 3 == 0
    then mi_none
    else if low_bits b 3 == 1
    then mi_imsi
    else if low_bits b 3 == 2
    then mi_imei
    else if low_bits b 3 == 3
    then mi_imei
    else if low_bits b 3 == 4
    then mi_tmsi
    else mi_other

pub handle_mi_type : MiType → Mem → ℕ → Bool → Ctx → Outcome Ctx
handle_mi_type mi_none p len new_tmsi c = done c
handle_mi_type mi_imsi p len new_tmsi c = do
  c ← store_imsi (bcd2str p (len * 2) 1).0 c
  append_msg_info (text ", IMSI " ∷ chars c.s.who.imsi ∷ []) c
handle_mi_type mi_imei p len new_tmsi c =
    let c' = store_imei (bcd2str p 15 1).0 c in
    append_msg_info (text ", IMEI " ∷ chars c'.s.who.imei ∷ []) c'
handle_mi_type mi_tmsi p len new_tmsi c =
    if c.s.new_msg
    then (do
      c ← append_msg_info (text ", TMSI " ∷ dump (bytes (shift p 1) 4) ∷ []) c
      done (store_tmsi (shift p 1) new_tmsi c))
    else abort
handle_mi_type mi_other p len new_tmsi c =
    set_msg_info (text "FAILED SANITY CHECKS (MI_TYPE)" ∷ []) c

pub handle_mi : Mem → ℕ → Bool → Ctx → Outcome Ctx
handle_mi p len new_tmsi c =
    if ltb mi_size len
    then set_msg_info (text "FAILED SANITY CHECKS (MI_LEN)" ∷ []) c
    else handle_mi_type (mi_type (p 0)) p len new_tmsi c

-- The switch over the CM service type: emergency call, call, SMS, supplementary service.
pub handle_service : ℕ → Ctx → Ctx
handle_service type c =
    if type == 2
    then with_who (record (c.s.who) { msisdn = codes "<emergency>" })
        (with_tr (record (c.s.tr) { call_presence = true; call = true }) c)
    else if type == 1
    then with_tr (record (c.s.tr) { call = true }) c
    else if type == 4
    then with_tr (record (c.s.tr) { sms = true }) c
    else if type == 8
    then with_tr (record (c.s.tr) { ssa = true }) c
    else with_tr (record (c.s.tr) { unknown = true }) c

pub with_initial_seq : ℕ → Ctx → Ctx
with_initial_seq n c = with_sec (record (c.s.sec) { initial_seq = n }) c

pub handle_cmreq : Mem → Ctx → Outcome Ctx
handle_cmreq p c =
    let c = open_session (handle_service (low_bits (p 0) 4) c) in
    let c = with_initial_seq (low_bits (shr (p 0) 4) 3) c in
    handle_mi (shift p 6) (p 5) false (handle_classmark (shift p 2) 2 c)

pub handle_serv_req : Mem → Ctx → Outcome Ctx
handle_serv_req p c =
    handle_mi (shift p 2) (p 1) false (with_initial_seq (low_bits (p 0) 3) (open_session c))

pub handle_pag_resp : Mem → Ctx → Outcome Ctx
handle_pag_resp p c =
    let c = open_session (with_initial_seq (shr (p 0) 4) c) in
    let c = handle_classmark (shift p 2) 2 c in
    handle_mi (shift p 6) (p 5) false
      (with_tr (record (c.s.tr) { mt = true; pag_mi = low_bits (p 6) 3 }) c)

pub handle_loc_upd_acc : Mem → ℕ → Ctx → Outcome Ctx
handle_loc_upd_acc p len c =
    let c =
      handle_lai p none (with_tr (record (c.s.tr) { locupd = true; mo = true; lu_acc = true }) c) in
    if ltb 11 len && p 5 == 0x17
    then handle_mi (shift p 7) (p 6) true (with_tr (record (c.s.tr) { tmsi_realloc = true }) c)
    else done c

pub handle_loc_upd_req : Mem → Ctx → Outcome Ctx
handle_loc_upd_req p c =
    let c =
      open_session
        (with_tr (record (c.s.tr) { mo = true; locupd = true; lu_type = low_bits (p 0) 2 }) c) in
    let c = with_initial_seq (shr (p 0) 4) c in
    let c =
      with_who
        (record (c.s.who) {
          lu_mcc = u16 (get_mcc (shift p 1));
          lu_mnc = u16 (get_mnc (shift p 1));
          lu_lac = net16 (shift p 4);
        })
        c in
    handle_mi (shift p 8) (p 7) false (handle_classmark (shift p 6) 1 c)

pub handle_detach : Mem → Ctx → Outcome Ctx
handle_detach p c = handle_mi (shift p 2) (p 1) false (handle_classmark p 1 (open_session c))
