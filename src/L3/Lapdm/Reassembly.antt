-- ===== src/L3/Lapdm/Reassembly.antt =====
-- gsm-parser/l3_handler.c, `handle_lapdm`: what the buffer holds after the fragments of a message.
use mathlib.Core.List.{append-nil, append_assoc}
use srlabs.Base.{ℕ, ◌+◌, ◌%◌, ◌≤◌, ◌≡◌, sym, ap, subst, ◌∙◌, arith, Bool, true, List, [], ◌∷◌, ◌++◌}
use srlabs.Base.{Outcome, done, ◌>>=◌, Returns, Returns-bind, Mem, shift, bytes}
use srlabs.Session.{LapdmBuf}
use srlabs.L3.Inv.{HeldInv, HeldInv-core}
use srlabs.L3.Env.{Env}
use srlabs.L3.Dtap.{World}
use srlabs.L3.Lapdm.{Channel, frame, buffer_size, get_buf, put_buf, buf_index, handle_lapdm}
use srlabs.L3.Lapdm.Laws.{core-put_buf}
use srlabs.L3.Lapdm.Appending.{Expects, Appended}
use srlabs.L3.Lapdm.Fragments.{IsFragment, handle_lapdm-Appended, get_buf-put_buf}

-- A frame, and the state in which it arrives. The caller takes a new message for each frame, so
-- that nothing but the buffer need be what the frame before has left.
pub record Arrival : Type 0 where
  pub msg : Mem
  pub len : ℕ
  pub fn : ℕ
  pub world : World

-- The bytes of the fragments, in order, and how many they are.
pub contents : List Arrival → List ℕ
contents [] = []
contents (x ∷ xs) = bytes (shift x.msg 3) (frame x.msg).data_len ++ contents xs

unfoldable pub size : List Arrival → ℕ
size [] = 0
size (x ∷ xs) = (frame x.msg).data_len + size xs

-- Fragments for one SAPI that are numbered from `ns` on, in sessions that hold a message.
unfoldable pub AreFragments : ℕ → ℕ → List Arrival → Type 0
AreFragments sapi ns [] = Unit
AreFragments sapi ns (x ∷ xs) =
    IsFragment true x.msg x.len sapi ns × HeldInv x.world.cs × AreFragments sapi ((ns + 1) % 8) xs

module _ (env : Env) (smsc : List ℕ) (ch : Channel) (ul : Bool) (sapi : ℕ) where
  -- `handle_lapdm` on one frame after the other, each with the buffer as the one before left it.
  pub collect : List Arrival → LapdmBuf → Outcome LapdmBuf
  collect [] mb = done mb
  collect (x ∷ xs) mb =
      let k = buf_index ul sapi in
      handle_lapdm env smsc ch x.msg x.len x.fn ul
        (record (x.world) { cs = put_buf ch k mb x.world.cs })
      >>= (λ w. collect xs (get_buf ch k w.cs))

  -- The frames of a message that are fragments with others behind them, numbered consecutively
  -- from a number on that the buffer waits for, all return, when the message fits into the buffer
  -- and each session holds a message and satisfies its invariant. The buffer then holds their
  -- bytes, in order, behind what it held.
  pub collect-bytes :
      (xs : List Arrival) (ns : ℕ) (mb : LapdmBuf)
      → AreFragments sapi ns xs
      → Expects ns mb
      → mb.len + size xs ≤ buffer_size
      → Returns
          (λ mb'. bytes mb'.payload mb'.len ≡ bytes mb.payload mb.len ++ contents xs)
          (collect xs mb)
  unfolding collect contents size AreFragments Appended
  collect-bytes [] ns mb all expects fits = sym (append-nil _)
  collect-bytes (x ∷ xs) ns mb (is_fragment, inv, all) expects fits =
      let k = buf_index ul sapi in
      let p = shift x.msg 3 in
      let n = (frame x.msg).data_len in
      let c = put_buf ch k mb x.world.cs in
      let here = get_buf-put_buf ch k mb x.world.cs in
      Returns-bind (λ w. Appended p n ns mb (get_buf ch k w.cs)) _ _ _
        (subst
          (λ b.
            Returns (λ w. Appended p n ns b (get_buf ch k w.cs))
              (handle_lapdm env smsc ch x.msg x.len x.fn ul (record (x.world) { cs = c })))
          here
          (handle_lapdm-Appended env smsc ch x.msg x.len x.fn sapi ns ul
            (record (x.world) { cs = c }) is_fragment
            (HeldInv-core x.world.cs c (core-put_buf ch k mb x.world.cs) inv) (rw here expects)
            (rw here (omega (arith, fits)))))
        λ w (held, grown, next).
          let mb' = get_buf ch k w.cs in
          subst (λ l. Returns (λ mb''. bytes mb''.payload mb''.len ≡ l) (collect xs mb'))
            (ap (λ l. l ++ contents xs) held
              ∙ append_assoc (bytes mb.payload mb.len) (bytes p n) (contents xs))
            (collect-bytes xs ((ns + 1) % 8) mb' all next (omega (arith, grown, fits)))
