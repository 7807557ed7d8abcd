-- ===== src/RandCheck.antt =====
-- gsm-parser/rand_check.c and rand_check.h: has the padding of a message changed since the last
-- message of its kind?
pub mod Laws
mod Tests
use srlabs.Base.{ℕ, ◌+◌, ◌-◌, Bool, true, false, ◌||◌, Option, none, some}
use srlabs.Base.{ltb, leb, ◌==◌, if◌then◌else◌, nonzero, u8, u32, Mem, memcpy, memset, shift}
use srlabs.BitFunc.{hamming_distance}

-- `struct rand_state`. `valid` is only ever 0 or 1; `ciphered` holds the cipher that was on.
pub record RandState : Type 0 where
  pub valid : Bool
  pub ciphered : ℕ
  pub seen : Mem
  pub len : ℕ
  pub byte_count : ℕ
  pub rand_count : ℕ

-- `sizeof(r->data)`.
abbrev pub data_size : ℕ
data_size = 20

abbrev pub zero_state : RandState
zero_state = record {
  valid = false;
  ciphered = 0;
  seen = λ i. 0;
  len = 0;
  byte_count = 0;
  rand_count = 0;
}

pub rand_init_2b : RandState → RandState
rand_init_2b r = record r {
  valid = true;
  ciphered = 0;
  len = data_size;
  seen = memset r.seen 0 0x2b data_size;
}

-- The comparison: the bytes that differ, how many were compared, and the state that remembers the
-- new message. The shorter of the two is aligned with the end of the longer.
pub compare_tail : Mem → ℕ → RandState → ℕ × ℕ × RandState
compare_tail msg len r =
    if leb len r.len
    then (
      hamming_distance (shift r.seen (r.len - len)) msg len,
      len,
      record r { seen = memcpy r.seen (r.len - len) msg len },
    )
    else (
      hamming_distance r.seen (shift msg (len - r.len)) r.len,
      r.len,
      record r { seen = memcpy r.seen 0 msg len; len = len },
    )

-- The counters, when `real_len` bytes were compared under encryption.
pub count : ℕ → ℕ → RandState → Bool × RandState
count diff_bytes real_len r =
    if nonzero diff_bytes
    then (
      true,
      record r {
        rand_count = u32 (r.rand_count + diff_bytes);
        byte_count = u32 (r.byte_count + real_len);
      },
    )
    else (false, record r { byte_count = u32 (r.byte_count + real_len) })

-- The two last ifs; `none` is the call of abort().
pub judge : ℕ → ℕ → RandState → ℕ → Option (Bool × RandState)
judge diff_bytes real_len r ciphered =
    if nonzero r.ciphered
    then (if nonzero ciphered then some (count diff_bytes real_len r) else none)
    else if nonzero ciphered
    then some (count diff_bytes real_len (record r { ciphered = 1 }))
    else some (false, r)

-- The result is the return value and the state.
unfoldable pub rand_check : Mem → ℕ → RandState → ℕ → Option (Bool × RandState)
rand_check msg len r ciphered =
    if len == 0 || ltb 20 len
    then some (false, r)
    else if r.valid
    then (let (diff_bytes, real_len, r') = compare_tail msg len r in
        judge (u8 diff_bytes) real_len r' ciphered)
    else some (
      false,
      record r {
        valid = true;
        ciphered = u8 ciphered;
        len = if ltb len 21 then len else 21;
        seen = memcpy r.seen 0 msg (if ltb len 21 then len else 21);
      },
    )
