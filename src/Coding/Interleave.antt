-- ===== src/Coding/Interleave.antt =====
-- gsm-parser/gsm_interleave.c: the two interleavers are inverted by their deinterleavers.
use srlabs.Base.{ℕ, ◌+◌, ◌-◌, ◌*◌, ◌/◌, ◌%◌, ◌<◌, ◌≡◌, refl, arith}
use srlabs.Base.{Bool, true, ◌&&◌, ltb, ◌==◌, every, every-at}
use srlabs.Base.{Mem, store, count_up, count_up-related, fill, scatter, sym, ap, subst, ◌∙◌}

-- The two static maps.
pub record Maps : Type 0 where
  pub sacch_map : Mem
  pub facch_map : Mem

-- What the two loops of the initialisation store for `k`.
pub sacch_position : ℕ → ℕ
sacch_position k = let B = k % 4 in let j = 2 * (49 * k % 57) + k % 8 / 4 in B * 114 + j

pub facch_position : ℕ → ℕ
facch_position k = let B = k % 8 in let j = 2 * (49 * k % 57) + k % 8 / 4 in B * 114 + j

unfoldable pub gsm_interleave_init : Maps → Maps
gsm_interleave_init m = record {
  sacch_map = count_up 456 (λ k d. store d k (sacch_position k)) m.sacch_map;
  facch_map = count_up 456 (λ k d. store d k (facch_position k)) m.facch_map;
}

unfoldable pub gsm_inter_sacch : Maps → Mem → Mem → Mem
gsm_inter_sacch m src dst = count_up 456 (λ k d. store d (m.sacch_map k) (src k)) dst

unfoldable pub gsm_deinter_sacch : Maps → Mem → Mem → Mem
gsm_deinter_sacch m src dst = count_up 456 (λ k d. store d k (src (m.sacch_map k))) dst

unfoldable pub gsm_inter_facch : Maps → Mem → Mem → Mem
gsm_inter_facch m src dst = count_up 456 (λ k d. store d (m.facch_map k) (src k)) dst

unfoldable pub gsm_deinter_facch : Maps → Mem → Mem → Mem
gsm_deinter_facch m src dst = count_up 456 (λ k d. store d k (src (m.facch_map k))) dst

-- Where a position comes from: 7 is the inverse of 49 modulo 57.
source_of : ℕ → ℕ → ℕ
source_of j r = let a = 7 * (j / 2) % 57 in a + 57 * ((r + 64 - a) % 8)

sacch_source : ℕ → ℕ
sacch_source p = let j = p % 114 in source_of j (p / 114 + 4 * (j % 2))

facch_source : ℕ → ℕ
facch_source p = source_of (p % 114) (p / 114)

sources_hold : ℕ → Bool
sources_hold k =
    sacch_source (sacch_position k) == k
    && facch_source (facch_position k) == k
    && sacch_position (sacch_source k) == k
    && ltb (sacch_source k) 456
    && ltb (sacch_position k) 456

sources_table : every sources_hold 456 ≡ true
unfolding every sources_hold sacch_source facch_source source_of sacch_position facch_position
sources_table = refl

sources_at :
    (k : ℕ)
    → k < 456
    → (sacch_source (sacch_position k) ≡ k)
      × (facch_source (facch_position k) ≡ k)
      × (sacch_position (sacch_source k) ≡ k)
      × (sacch_source k < 456)
      × (sacch_position k < 456)
unfolding sources_hold
sources_at k below = let h = every-at sources_hold 456 sources_table k below in ground arith

abbrev pub initial_maps : Maps → Maps
initial_maps m = gsm_interleave_init m

sacch_map-init : (m : Maps) (k : ℕ) → k < 456 → (initial_maps m).sacch_map k ≡ sacch_position k
unfolding gsm_interleave_init
sacch_map-init m k below = rw (fill sacch_position m.sacch_map 456 k) (ground (arith, below))

facch_map-init : (m : Maps) (k : ℕ) → k < 456 → (initial_maps m).facch_map k ≡ facch_position k
unfolding gsm_interleave_init
facch_map-init m k below = rw (fill facch_position m.facch_map 456 k) (ground (arith, below))

pub sacch_map-bound : (m : Maps) (k : ℕ) → k < 456 → (gsm_interleave_init m).sacch_map k < 456
sacch_map-bound m k below = rw (sacch_map-init m k below) (sources_at k below).4

pub gsm_deinter_sacch-at :
    (m : Maps) (src dst : Mem) (k : ℕ)
    → k < 456
    → gsm_deinter_sacch m src dst k ≡ src (m.sacch_map k)
unfolding gsm_deinter_sacch
gsm_deinter_sacch-at m src dst k below =
    rw (fill (λ l. src (m.sacch_map l)) dst 456 k) (ground (arith, below))

-- Each position that is read lies below 456.
pub gsm_deinter_sacch-ext :
    (m : Maps) (p q dst : Mem)
    → ((k : ℕ) → k < 456 → p k ≡ q k)
    → gsm_deinter_sacch (gsm_interleave_init m) p dst
      ≡ gsm_deinter_sacch (gsm_interleave_init m) q dst
unfolding gsm_deinter_sacch
gsm_deinter_sacch-ext m p q dst same =
    let map = (initial_maps m).sacch_map in
    count_up-related (λ (a : Mem) (b : Mem). a ≡ b) (λ k d. store d k (p (map k)))
      (λ k d. store d k (q (map k))) 456
      (λ k s t below e. rw (e, same (map k) (sacch_map-bound m k below)) refl) dst dst refl

-- Reading through a map what was stored through it, as far as it sends no two numbers to one.
gather-scatter :
    (map src mid dst : Mem) (i : ℕ)
    → ((k : ℕ) → k < 456 → map k ≡ map i → k ≡ i)
    → i < 456
    → count_up 456
        (λ k d. store d k (count_up 456 (λ l e. store e (map l) (src l)) mid (map k)))
        dst
        i
      ≡ src i
gather-scatter map src mid dst i apart below =
    rw
      (
        fill (λ k. count_up 456 (λ l e. store e (map l) (src l)) mid (map k)) dst 456 i,
        scatter map src mid 456 i apart below,
      )
      (ground (arith, below))

sacch_map-apart :
    (m : Maps) (i k : ℕ)
    → i < 456
    → k < 456
    → (initial_maps m).sacch_map k ≡ (initial_maps m).sacch_map i
    → k ≡ i
sacch_map-apart m i k hi hk same =
    sym ((sources_at k hk).0)
    ∙ ap sacch_source (sym (sacch_map-init m k hk) ∙ same ∙ sacch_map-init m i hi)
    ∙ (sources_at i hi).0

facch_map-apart :
    (m : Maps) (i k : ℕ)
    → i < 456
    → k < 456
    → (initial_maps m).facch_map k ≡ (initial_maps m).facch_map i
    → k ≡ i
facch_map-apart m i k hi hk same =
    sym ((sources_at k hk).1)
    ∙ ap facch_source (sym (facch_map-init m k hk) ∙ same ∙ facch_map-init m i hi)
    ∙ (sources_at i hi).1

sacch_map-onto : (m : Maps) (i : ℕ) → i < 456 → (initial_maps m).sacch_map (sacch_source i) ≡ i
sacch_map-onto m i below =
    sacch_map-init m (sacch_source i) (sources_at i below).3 ∙ (sources_at i below).2

gsm_inter_sacch-onto :
    (m : Maps) (src mid dst : Mem) (i : ℕ)
    → i < 456
    → gsm_inter_sacch (initial_maps m) (gsm_deinter_sacch (initial_maps m) src mid) dst i ≡ src i
unfolding gsm_deinter_sacch gsm_inter_sacch
gsm_inter_sacch-onto m src mid dst i below =
    let map = (initial_maps m).sacch_map in
    let k = sacch_source i in
    let k_below : k < 456 = (sources_at i below).3 in
    let deinterleaved : Mem = count_up 456 (λ l d. store d l (src (map l))) mid in
    let sent = scatter map deinterleaved dst 456 k (λ l. sacch_map-apart m k l k_below) k_below in
    let read : deinterleaved k ≡ src (map k) =
      rw (fill (λ l. src (map l)) mid 456 k) (ground (arith, k_below)) in
    subst (λ p. count_up 456 (λ l d. store d (map l) (deinterleaved l)) dst p ≡ src p)
      (sacch_map-onto m i below) (sent ∙ read)

-- Every position below 456 holds one of the bits that were interleaved.
pub gsm_inter_sacch-at :
    (m : Maps) (src dst : Mem) (p : ℕ)
    → p < 456
    → (k : ℕ) × (k < 456) × (gsm_inter_sacch (gsm_interleave_init m) src dst p ≡ src k)
unfolding gsm_inter_sacch
gsm_inter_sacch-at m src dst p below =
    let map = (initial_maps m).sacch_map in
    let k = sacch_source p in
    let k_below : k < 456 = (sources_at p below).3 in
    let sent = scatter map src dst 456 k (λ l. sacch_map-apart m k l k_below) k_below in
    (
      k,
      k_below,
      subst (λ q. count_up 456 (λ l d. store d (map l) (src l)) dst q ≡ src k)
          (sacch_map-onto m p below) sent,
    )

-- After the initialisation each deinterleaver gives the 456 bits back that its interleaver sent,
-- and the map of the slow channel is onto: interleaving what was deinterleaved gives back every
-- position below 456.
pub gsm_deinter-gsm_inter :
    (m : Maps) (src mid dst : Mem) (i : ℕ)
    → i < 456
    → let maps = gsm_interleave_init m in
      (gsm_deinter_sacch maps (gsm_inter_sacch maps src mid) dst i ≡ src i)
      × (gsm_deinter_facch maps (gsm_inter_facch maps src mid) dst i ≡ src i)
      × (gsm_inter_sacch maps (gsm_deinter_sacch maps src mid) dst i ≡ src i)
unfolding gsm_deinter_sacch gsm_inter_sacch gsm_deinter_facch gsm_inter_facch
gsm_deinter-gsm_inter m src mid dst i below =
    let maps = gsm_interleave_init m in
    (
      gather-scatter maps.sacch_map src mid dst i (λ k. sacch_map-apart m i k below) below,
      gather-scatter maps.facch_map src mid dst i (λ k. facch_map-apart m i k below) below,
      gsm_inter_sacch-onto m src mid dst i below,
    )
