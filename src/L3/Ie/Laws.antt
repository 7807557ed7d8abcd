-- ===== src/L3/Ie/Laws.antt =====
-- gsm-parser/l3_handler.c, information elements: what the handlers keep, the numbers of networks,
-- and where an identity overruns its buffer.
use srlabs.Base.{ℕ, ◌≡◌, refl, arith, Bool, true, false, Option}
use srlabs.Base.{low_bits, Mem, shift, ltb, ◌==◌, ◌&&◌, Bool-cases, inl, inr}
use srlabs.Session.{Ctx, set_msg_info, append_msg_info}
use srlabs.L3.Core.{Keeps, IsHeld, core, set_msg_info-Keeps, IsHeld-core, Keeps-from}
use srlabs.L3.Ie.{
  mi_size, handle_classmark, handle_lai, store_imsi, store_imei, store_tmsi, MiType, mi_none,
  mi_imsi, mi_imei, mi_tmsi, mi_other, mi_type, handle_mi_type, handle_mi, handle_service,
  with_initial_seq, handle_cmreq, handle_serv_req, handle_pag_resp, handle_loc_upd_acc,
  handle_loc_upd_req, handle_detach,
}

handle_mi_type-Keeps :
    (t : MiType) (p : Mem) (len : ℕ) (new_tmsi : Bool) (c : Ctx)
    → IsHeld c
    → Keeps c (handle_mi_type t p len new_tmsi c)
unfolding handle_mi_type set_msg_info append_msg_info store_imsi store_imei store_tmsi
handle_mi_type-Keeps mi_none p len new_tmsi c held = refl
handle_mi_type-Keeps mi_imsi p len new_tmsi c held = ground arith
handle_mi_type-Keeps mi_imei p len new_tmsi c held = ground arith
handle_mi_type-Keeps mi_tmsi p len new_tmsi c held = ground arith
handle_mi_type-Keeps mi_other p len new_tmsi c held = ground arith

pub handle_mi-Keeps :
    (p : Mem) (len : ℕ) (new_tmsi : Bool) (c : Ctx)
    → IsHeld c
    → Keeps c (handle_mi p len new_tmsi c)
unfolding handle_mi
handle_mi-Keeps p len new_tmsi c held = elim (Bool-cases (ltb mi_size len)) [
  | inl long ↦ rw long (set_msg_info-Keeps _ c held)
  | inr short ↦ rw short (handle_mi_type-Keeps (mi_type (p 0)) p len new_tmsi c held)
]

-- The same after steps that kept the core.
pub handle_mi-Keeps_from :
    (p : Mem) (len : ℕ) (new_tmsi : Bool) (c c' : Ctx)
    → core c' ≡ core c
    → IsHeld c
    → Keeps c (handle_mi p len new_tmsi c')
handle_mi-Keeps_from p len new_tmsi c c' e held =
    Keeps-from c c' (handle_mi p len new_tmsi c') e
      (handle_mi-Keeps p len new_tmsi c' (IsHeld-core c c' e held))

pub core-handle_classmark :
    (p : Mem) (type : ℕ) (c : Ctx) → core (handle_classmark p type c) ≡ core c
unfolding handle_classmark
core-handle_classmark p type c = refl

pub core-with_initial_seq : (n : ℕ) (c : Ctx) → core (with_initial_seq n c) ≡ core c
unfolding with_initial_seq
core-with_initial_seq n c = refl

pub core-handle_lai : (p : Mem) (cid : Option ℕ) (c : Ctx) → core (handle_lai p cid c) ≡ core c
unfolding handle_lai
core-handle_lai p cid c = refl

core-handle_service : (type : ℕ) (c : Ctx) → core (handle_service type c) ≡ core c
unfolding handle_service
core-handle_service type c = ground arith

pub handle_cmreq-Keeps : (p : Mem) (c : Ctx) → IsHeld c → Keeps c (handle_cmreq p c)
unfolding handle_cmreq with_initial_seq handle_classmark
handle_cmreq-Keeps p c held =
    handle_mi-Keeps_from (shift p 6) (p 5) false c _ (cc (core-handle_service (low_bits (p 0) 4) c))
      held

pub handle_serv_req-Keeps : (p : Mem) (c : Ctx) → IsHeld c → Keeps c (handle_serv_req p c)
unfolding handle_serv_req with_initial_seq
handle_serv_req-Keeps p c held = handle_mi-Keeps_from (shift p 2) (p 1) false c _ refl held

pub handle_pag_resp-Keeps : (p : Mem) (c : Ctx) → IsHeld c → Keeps c (handle_pag_resp p c)
unfolding handle_pag_resp with_initial_seq handle_classmark
handle_pag_resp-Keeps p c held = handle_mi-Keeps_from (shift p 6) (p 5) false c _ refl held

pub handle_loc_upd_acc-Keeps :
    (p : Mem) (len : ℕ) (c : Ctx) → IsHeld c → Keeps c (handle_loc_upd_acc p len c)
unfolding handle_loc_upd_acc handle_lai
handle_loc_upd_acc-Keeps p len c held = elim (Bool-cases (ltb 11 len && p 5 == 0x17)) [
  | inl more ↦ rw more (handle_mi-Keeps_from (shift p 7) (p 6) true c _ refl held)
  | inr last ↦ rw last refl
]

pub handle_loc_upd_req-Keeps : (p : Mem) (c : Ctx) → IsHeld c → Keeps c (handle_loc_upd_req p c)
unfolding handle_loc_upd_req with_initial_seq handle_classmark
handle_loc_upd_req-Keeps p c held = handle_mi-Keeps_from (shift p 8) (p 7) false c _ refl held

pub handle_detach-Keeps : (p : Mem) (c : Ctx) → IsHeld c → Keeps c (handle_detach p c)
unfolding handle_detach handle_classmark
handle_detach-Keeps p c held = handle_mi-Keeps_from (shift p 2) (p 1) false c _ refl held

pub handle_detach-Keeps_from :
    (p : Mem) (c c' : Ctx) → core c' ≡ core c → IsHeld c → Keeps c (handle_detach p c')
handle_detach-Keeps_from p c c' e held =
    Keeps-from c c' (handle_detach p c') e (handle_detach-Keeps p c' (IsHeld-core c c' e held))

pub handle_cmreq-Keeps_from :
    (p : Mem) (c c' : Ctx) → core c' ≡ core c → IsHeld c → Keeps c (handle_cmreq p c')
handle_cmreq-Keeps_from p c c' e held =
    Keeps-from c c' (handle_cmreq p c') e (handle_cmreq-Keeps p c' (IsHeld-core c c' e held))
