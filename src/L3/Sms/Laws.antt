-- ===== src/L3/Sms/Laws.antt =====
-- gsm-parser/sms.c: the CP and RP layers fail no assertion and keep the core of the session.
use srlabs.Base.{ℕ, ◌+◌, ◌-◌, refl, arith, Bool, true, false, List, Mem, shift, nonzero, ◌&&◌, not}
use srlabs.Base.{ltb, leb, u8, low_bits, ◌==◌, Bool-cases, inl, inr}
use srlabs.Session.{Ctx, set_msg_info, append_msg_info}
use srlabs.L3.Core.{Keeps, IsHeld, Keeps-bind, IsHeld-core, set_msg_info-Keeps}
use srlabs.L3.Env.{Env}
use srlabs.L3.Sms.{
  rpdata_type, rpdata_user, rpdata_destination, handle_rpdata, RpType, data_mo, data_mt, ack_mo,
  ack_mt, error_mo, error_mt, smma_mo, other_rp, rp_type, handle_rp, handle_cpdata, handle_sms,
}

module _ (env : Env) where
  rpdata_type-Keeps :
      (p : Mem) (off f_len : ℕ) (from_network : Bool) (smsc : List ℕ) (c : Ctx)
      → IsHeld c
      → Keeps c (rpdata_type env p off f_len from_network smsc c)
  unfolding rpdata_type append_msg_info
  rpdata_type-Keeps p off f_len from_network smsc c held = ground arith

  rpdata_user-Keeps :
      (p : Mem) (len off : ℕ) (from_network : Bool) (smsc : List ℕ) (c : Ctx)
      → IsHeld c
      → Keeps c (rpdata_user env p len off from_network smsc c)
  unfolding rpdata_user
  rpdata_user-Keeps p len off from_network smsc c held =
      elim (Bool-cases (leb len (u8 (off + 1)))) [
        | inl e ↦ rw e (set_msg_info-Keeps _ c held)
        | inr e ↦ rw e (rpdata_type-Keeps p _ _ from_network smsc c held)
      ]

  rpdata_destination-Keeps :
      (p : Mem) (len off : ℕ) (from_network : Bool) (smsc : List ℕ) (c : Ctx)
      → IsHeld c
      → Keeps c (rpdata_destination env p len off from_network smsc c)
  unfolding rpdata_destination
  rpdata_destination-Keeps p len off from_network smsc c held =
      elim (Bool-cases (nonzero (p off) && from_network)) [
        | inl e ↦ rw e (set_msg_info-Keeps _ c held)
        | inr e ↦ rw e (rpdata_user-Keeps p len _ from_network _ c held)
      ]

  handle_rpdata-Keeps :
      (p : Mem) (len : ℕ) (from_network : Bool) (smsc : List ℕ) (c : Ctx)
      → IsHeld c
      → Keeps c (handle_rpdata env p len from_network smsc c)
  unfolding handle_rpdata
  handle_rpdata-Keeps p len from_network smsc c held = elim (Bool-cases (len == 0)) [
    | inl e ↦ rw e refl
    | inr e ↦ elim (Bool-cases (nonzero (p 0) && not from_network)) [
      | inl e' ↦ rw (e, e') (set_msg_info-Keeps _ c held)
      | inr e' ↦ rw (e, e') (rpdata_destination-Keeps p len _ from_network _ c held)
    ]
  ]

  handle_rp-Keeps :
      (t : RpType) (p : Mem) (len : ℕ) (smsc : List ℕ) (c : Ctx)
      → IsHeld c
      → Keeps c (handle_rp env t p len smsc c)
  unfolding handle_rp set_msg_info
  handle_rp-Keeps data_mo p len smsc c held =
      Keeps-bind c (set_msg_info _ c) _ (set_msg_info-Keeps _ c held) λ c' e.
        Keeps-bind c' (handle_rpdata env p len false smsc c') _
          (handle_rpdata-Keeps p len false smsc c' (IsHeld-core c c' e held)) (λ d e'. refl)
  handle_rp-Keeps data_mt p len smsc c held =
      Keeps-bind c (set_msg_info _ c) _ (set_msg_info-Keeps _ c held) λ c' e.
        Keeps-bind c' (handle_rpdata env p len true smsc c') _
          (handle_rpdata-Keeps p len true smsc c' (IsHeld-core c c' e held)) (λ d e'. refl)
  handle_rp-Keeps ack_mo p len smsc c held = ground arith
  handle_rp-Keeps ack_mt p len smsc c held = ground arith
  handle_rp-Keeps error_mo p len smsc c held = ground arith
  handle_rp-Keeps error_mt p len smsc c held = ground arith
  handle_rp-Keeps smma_mo p len smsc c held = ground arith
  handle_rp-Keeps other_rp p len smsc c held = ground arith

  handle_cpdata-Keeps :
      (p : Mem) (len : ℕ) (smsc : List ℕ) (c : Ctx)
      → IsHeld c
      → Keeps c (handle_cpdata env p len smsc c)
  unfolding handle_cpdata
  handle_cpdata-Keeps p len smsc c held = elim (Bool-cases (ltb len 3)) [
    | inl e ↦ rw e (set_msg_info-Keeps _ c held)
    | inr e ↦ rw e (handle_rp-Keeps (rp_type (p 1)) (shift p 3) (len - 3) smsc c held)
  ]

  -- The CP and RP layers of an SMS fail no assertion, whatever the message says, and leave alone
  -- the cipher, the counters, the padding states, the list of messages and the message in hand.
  pub handle_sms-Keeps :
      (dtap : Mem) (len : ℕ) (smsc : List ℕ) (c : Ctx)
      → IsHeld c
      → Keeps c (handle_sms env dtap len smsc c)
  unfolding handle_sms set_msg_info
  handle_sms-Keeps dtap len smsc c held = elim (Bool-cases (low_bits (dtap 1) 5 == 1)) [
    | inl e ↦ rw e (handle_cpdata-Keeps _ _ smsc _ held)
    | inr e ↦ ground arith
  ]
