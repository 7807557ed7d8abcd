-- ===== src/Gprs/Handler/Fits.antt =====
-- gsm-parser/rlcmac.c: a block whose entries and data fit into their descriptor is handled to the
-- end, and nothing is written behind the arrays of the descriptor.
use srlabs.Base.{ℕ, zero, suc, ◌+◌, ◌-◌, ◌^◌, ◌<◌, ◌≤◌, ◌≡◌, subst, arith}
use srlabs.Base.{
  Outcome, abort, undefined, true, false, ltb, ◌==◌, Mem, done, Returns, bit, u8, u32, Returns-bind,
}
use srlabs.Radio.{Message, is_uplink}
use srlabs.Gprs.Rlc.{Frag}
use srlabs.Gprs.Rlc.Window.{FragOk}
use srlabs.Gprs.Handler.{scan_entries, skip_optional, fill_frag}

-- The block has `n` entries, of which the array holds 20, and behind its header at most the 53
-- bytes that a descriptor holds: the extension bit is 0 in the `n` bytes from the third one on, and
-- 1 in the byte behind them.
pub record Fits (n : ℕ) (m : Message) : Type 0 where
  pub few : n ≤ 20
  pub entries : (i : ℕ) → i < n → bit 0 (m.msg (2 + i)) ≡ 0
  pub end : bit 0 (m.msg (2 + n)) ≡ 1
  pub short : m.msg_len < 2 ^ 32
  pub header : skip_optional (is_uplink m) m.msg (3 + n) ≤ m.msg_len
  pub data_fits : m.msg_len ≤ skip_optional (is_uplink m) m.msg (3 + n) + 53

-- The entries are stored one by one, and the scan ends behind the last of them.
abbrev Scanned : ℕ → ℕ → ℕ × Frag → Type 0
Scanned off blocks (off', g) = (off' ≡ off) × (g.n_blocks ≡ blocks)

later_at : (off i : ℕ) → off + suc i ≡ off + 1 + i
later_at off i = omega arith

Returns-mono :
    {A : Type 0} (P Q : A → Type 0) (m : Outcome A)
    → ((a : A) → P a → Q a)
    → Returns P m
    → Returns Q m
Returns-mono P Q (done a) k h = k a h
Returns-mono P Q abort k h = elim h [ ]
Returns-mono P Q undefined k h = elim h [ ]

scan_entries-Scanned :
    (n room : ℕ) (msg : Mem) (off : ℕ) (f : Frag)
    → n ≤ room
    → ((i : ℕ) → i < n → bit 0 (msg (off + i)) ≡ 0)
    → bit 0 (msg (off + n)) ≡ 1
    → Returns (Scanned (off + n + 1) (f.n_blocks + n)) (scan_entries room msg off f)
unfolding scan_entries
scan_entries-Scanned zero zero msg off f few entries end =
    let here : off + 0 ≡ off = omega arith in
    let set : (bit 0 (msg off) == 1) ≡ true =
      ground (arith, subst (λ k. bit 0 (msg k) ≡ 1) here end) in
    rw set (omega arith, omega arith)
scan_entries-Scanned zero (suc room) msg off f few entries end =
    let here : off + 0 ≡ off = omega arith in
    let set : (bit 0 (msg off) == 1) ≡ true =
      ground (arith, subst (λ k. bit 0 (msg k) ≡ 1) here end) in
    rw (scan_entries, set) (omega arith, omega arith)
scan_entries-Scanned (suc n) zero msg off f few entries end = absurd (omega (arith, few))
scan_entries-Scanned (suc n) (suc room) msg off f few entries end =
    let here : off + 0 ≡ off = omega arith in
    let first = entries 0 (omega arith) in
    let unset : (bit 0 (msg off) == 1) ≡ false =
      ground (arith, subst (λ k. bit 0 (msg k) ≡ 0) here first) in
    let later = λ (i : ℕ). subst (λ k. bit 0 (msg k) ≡ 0) (later_at off i) in
    let last = subst (λ k. bit 0 (msg k) ≡ 1) (later_at off n) end in
    rw (scan_entries, unset)
      (Returns-mono (Scanned (off + 1 + n + 1) (f.n_blocks + 1 + n))
        (Scanned (off + suc n + 1) (f.n_blocks + suc n)) _
        (λ (off', g) (at, count). (omega (arith, at), omega (arith, count)))
        (scan_entries-Scanned n room msg (off + 1) _ (omega (arith, few))
          (λ i below. later i (entries (suc i) (omega (arith, below)))) last))

data_len-few :
    (len off : ℕ)
    → len < 2 ^ 32
    → off ≤ len
    → len ≤ off + 53
    → ltb 53 (u8 (u32 (len + 2 ^ 32 - off))) ≡ false
data_len-few len off short header fits =
    let l : u8 (u32 (len + 2 ^ 32 - off)) ≡ len - off = omega (arith, short, header, fits) in
    rw l (ground (arith, fits))

-- What is stored lies in the arrays.
pub fill_frag-FragOk :
    (n : ℕ) (m : Message) (f : Frag) → Fits n m → Returns FragOk (fill_frag m (is_uplink m) f)
unfolding fill_frag
fill_frag-FragOk n m f fits =
    let header = skip_optional (is_uplink m) m.msg (3 + n) in
    Returns-bind (Scanned (2 + n + 1) (0 + n)) FragOk (scan_entries 20 m.msg 2 _) _
      (scan_entries-Scanned n 20 m.msg 2 (record f { n_blocks = 0 }) (fits.few) (fits.entries)
        (fits.end))
      λ (off, g) (at, count).
        let behind : off ≡ 3 + n = omega (arith, at) in
        let few : ltb 53 (u8 (u32 (m.msg_len + 2 ^ 32 - header))) ≡ false =
          data_len-few m.msg_len header fits.short fits.header fits.data_fits in
        rw (behind, few)
          (record { fits = ground (arith, few); entries = omega (arith, count, fits.few) })
