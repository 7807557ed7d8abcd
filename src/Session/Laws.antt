-- ===== src/Session/Laws.antt =====
-- gsm-parser/session.c: frame differences, and what a reset keeps, closes and frees.
use srlabs.Base.{
  ℕ, ◌+◌, ◌%◌, ◌≤◌, ◌<◌, ◌^◌, ◌≡◌, ◌≢◌, refl, arith, Bool, true, false, List, [], ◌∷◌, ◌++◌,
}
use srlabs.Base.{◌&&◌, ◌||◌, not, ◌⊎◌, Returns, done}
use srlabs.Session.{
  Session, Ctx, Config, gsm_max_fn, fn_delta, contains, link_to_msg_list, detach_new_msg,
  close_if_open, session_close, fresh_session, session_reset, zero_security, zero_fc, zero_padding,
}

-- The difference of two frame numbers of a hyperframe is the way forward from the first to the
-- second, shorter than a hyperframe.
pub fn_delta_lem :
    (a b : ℕ)
    → a < gsm_max_fn
    → b < gsm_max_fn
    → (fn_delta a b < gsm_max_fn) × ((a + fn_delta a b) % gsm_max_fn ≡ b)
unfolding fn_delta
fn_delta_lem a b p q = ground arith

contains-append :
    (xs ys : List ℕ) (a : ℕ) → contains (xs ++ ys) a ≡ (contains xs a || contains ys a)
unfolding contains
contains-append [] ys a = refl
contains-append (x ∷ xs) ys a = ground (arith, contains-append xs ys a)

-- The message in hand is not in the list, and a pointer to it is no dangling one.
pub record Owned (c : Ctx) : Type 0 where
  pub apart : contains c.s.msgs c.m.addr ≡ false
  pub alive : c.s.new_msg ≡ true → c.live ≡ true

module _ (cfg : Config) where
  msgs-close : (s : Session) (rows : List ℕ) → (close_if_open cfg s rows).0.msgs ≡ s.msgs
  unfolding close_if_open session_close
  msgs-close s rows = ground arith

  new_msg-close : (s : Session) (rows : List ℕ) → (close_if_open cfg s rows).0.new_msg ≡ s.new_msg
  unfolding close_if_open session_close
  new_msg-close s rows = ground arith

  domain-close : (s : Session) (rows : List ℕ) → (close_if_open cfg s rows).0.domain ≡ s.domain
  unfolding close_if_open session_close
  domain-close s rows = ground arith

  -- With `auto_reset`, a reset of a session that owns its messages returns, with the list empty
  -- and the message and the domain as before. A forced release keeps the message in hand for the
  -- next session; any other frees it, and forgets the pointer to it.
  pub session_reset-Owned :
      (forced : Bool) (c : Ctx)
      → cfg.auto_reset ≡ true
      → Owned c
      → Returns
          (λ c'.
            Owned c'
            × (c'.s.msgs ≡ [])
            × (c'.m ≡ c.m)
            × (c'.s.domain ≡ c.s.domain)
            × (c'.s.new_msg ≡ (forced && c.s.new_msg))
            × (c'.live ≡ (c.live && (forced || not c.s.new_msg))))
          (session_reset cfg forced c)
  unfolding session_reset fresh_session detach_new_msg link_to_msg_list contains
  session_reset-Owned true c on owned =
      ground (arith, msgs-close c.s c.rows, new_msg-close c.s c.rows, domain-close c.s c.rows)
  session_reset-Owned false c on owned = ground (
    arith,
    contains-append c.s.msgs (c.m.addr ∷ []) c.m.addr,
    msgs-close (detach_new_msg false c.s c.m) c.rows,
    new_msg-close (detach_new_msg false c.s c.m) c.rows,
    domain-close (detach_new_msg false c.s c.m) c.rows,
  )

  -- With `auto_reset`, the next session starts with no cipher, no counts and no padding states,
  -- and is not started.
  pub session_reset-clean :
      (forced : Bool) (c : Ctx) {c' : Ctx}
      → cfg.auto_reset ≡ true
      → session_reset cfg forced c ≡ done c'
      → (c'.s.sec ≡ zero_security)
        × (c'.s.fc ≡ zero_fc)
        × (c'.s.pad ≡ zero_padding)
        × (c'.s.started ≡ false)
  unfolding session_reset fresh_session
  session_reset-clean forced c on e = ground arith

  pub session_reset-off :
      (forced : Bool) (c : Ctx) → cfg.auto_reset ≡ false → session_reset cfg forced c ≡ done c
  unfolding session_reset
  session_reset-off forced c off = rw off

-- Every id of the list is at most `n`, and stands there once.
abbrev pub IsBounded : ℕ → List ℕ → Type 0
IsBounded n [] = Unit
IsBounded n (x ∷ xs) = (x ≤ n) × IsBounded n xs

abbrev pub IsDistinct : List ℕ → Type 0
IsDistinct [] = Unit
IsDistinct (x ∷ xs) = (contains xs x ≡ false) × IsDistinct xs

IsBounded-mono : (n k : ℕ) (xs : List ℕ) → n ≤ k → IsBounded n xs → IsBounded k xs
IsBounded-mono n k [] h b = tt
IsBounded-mono n k (x ∷ xs) h b = (omega arith, IsBounded-mono n k xs h b.1)

contains_above : (n a : ℕ) (xs : List ℕ) → n < a → IsBounded n xs → contains xs a ≡ false
unfolding contains
contains_above n a [] h b = refl
contains_above n a (x ∷ xs) h b = ground (arith, contains_above n a xs h b.1)

-- `other` is the id of the session of the other domain.
pub record IdsOk (other : ℕ) (c : Ctx) : Type 0 where
  pub id_bound : c.s.id ≤ c.s_id
  pub other_bound : other ≤ c.s_id
  pub ids_differ : c.s.id ≢ other
  pub id_unused : contains c.rows c.s.id ≡ false
  pub other_unused : contains c.rows other ≡ false
  pub rows_bound : IsBounded c.s_id c.rows
  pub rows_distinct : IsDistinct c.rows

-- How a reset changes the ids: not at all, or the next id is taken and perhaps the old reported.
IdsMove : Ctx → Ctx → Type 0
IdsMove c c' =
    ((c'.s.id ≡ c.s.id) × (c'.s_id ≡ c.s_id) × (c'.rows ≡ c.rows))
    ⊎ ((c'.s.id ≡ c.s_id + 1)
        × (c'.s_id ≡ c.s_id + 1)
        × ((c'.rows ≡ c.rows) ⊎ (c'.rows ≡ c.s.id ∷ c.rows)))

session_reset-IdsMove :
    (cfg : Config) (forced : Bool) (c : Ctx) {c' : Ctx}
    → c.s_id + 1 < 2 ^ 32
    → session_reset cfg forced c ≡ done c'
    → IdsMove c c'
unfolding IdsMove session_reset fresh_session detach_new_msg link_to_msg_list close_if_open
    session_close
session_reset-IdsMove cfg forced c {c'} room e = ground arith

IdsOk-IdsMove : (other : ℕ) (c c' : Ctx) → IdsOk other c → IdsMove c c' → IdsOk other c'
unfolding IdsMove contains
IdsOk-IdsMove other c c' ids move = ground (
  arith,
  IsBounded-mono c.s_id (c.s_id + 1) c.rows (omega arith) ids.rows_bound,
  contains_above c.s_id (c.s_id + 1) c.rows (omega arith) ids.rows_bound,
)

-- No id is reported twice: after a reset that returns, the rows carry distinct ids, none of which
-- is the id of the session that starts, or of the session of the other domain, while the counter
-- of ids is not about to wrap.
pub session_reset-IdsOk :
    (cfg : Config) (other : ℕ) (forced : Bool) (c : Ctx) {c' : Ctx}
    → c.s_id + 1 < 2 ^ 32
    → IdsOk other c
    → session_reset cfg forced c ≡ done c'
    → IdsOk other c'
session_reset-IdsOk cfg other forced c {c'} room ids e =
    IdsOk-IdsMove other c c' ids (session_reset-IdsMove cfg forced c room e)
