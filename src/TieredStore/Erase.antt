-- ===== src/TieredStore/Erase.antt =====
-- `TieredStore::Erase` and the accounting over the tiers.
use lethe.Base.{ℕ, ◌+◌, ◌≡◌, refl, false, none, arith, ap, ◌∙◌, ite}
use lethe.TieredStore.{
  TieredStore, copy, erase_from_tier, erase, erase_everywhere, used_bytes, assign,
}
use lethe.TieredStore.Copies.{IsValid, erase_from_tier-IsValid, used-erase}
use lethe.TieredStore.Demote.{copy-erase_everywhere, h1, h2, h1-IsValid, h2-IsValid}
use lethe.Types.{Tier, hbm, dram, ssd, BlockId, id_dec}

-- The bytes in use over all tiers.
abbrev pub total_used : TieredStore → ℕ
total_used t = used_bytes hbm t + used_bytes dram t + used_bytes ssd t

-- What `Erase` promises: the block is gone from every tier and every map, nothing else is, and
-- the bytes that it reports are the bytes that the tiers lost.
pub record Erased (id : BlockId) (t : TieredStore) (r : TieredStore × ℕ) : Type 0 where
  pub valid : IsValid r.0
  pub copies : (x : Tier) (j : BlockId) → copy x j r.0 ≡ ite (id_dec j id) none (copy x j t)
  pub freed : total_used r.0 + r.1 ≡ total_used t
  pub counts : (j : BlockId) → r.0.access_counts j ≡ ite (id_dec j id) 0 (t.access_counts j)
  pub bits : (j : BlockId) → r.0.visited j ≡ ite (id_dec j id) false (t.visited j)

-- An erase from one tier leaves the counts of the others.
pub used-erase_other :
    (id : BlockId) (t : TieredStore)
    → (used_bytes dram (erase_from_tier id hbm t).0 ≡ used_bytes dram t)
      × (used_bytes ssd (erase_from_tier id hbm t).0 ≡ used_bytes ssd t)
      × (used_bytes hbm (erase_from_tier id dram t).0 ≡ used_bytes hbm t)
      × (used_bytes ssd (erase_from_tier id dram t).0 ≡ used_bytes ssd t)
      × (used_bytes hbm (erase_from_tier id ssd t).0 ≡ used_bytes hbm t)
      × (used_bytes dram (erase_from_tier id ssd t).0 ≡ used_bytes dram t)
unfolding erase_from_tier used_bytes
used-erase_other id t = (refl, refl, refl, refl, refl, refl)

module _ (id : BlockId) (t : TieredStore) (v : IsValid t) where
  erased : TieredStore
  erased = (erase_everywhere id t).0

  erased-IsValid : IsValid erased
  unfolding erased erase_everywhere h2 h1
  erased-IsValid = erase_from_tier-IsValid id ssd (h2 id t v) (h2-IsValid id t v)

  erased-freed : total_used erased + (erase_everywhere id t).1 ≡ total_used t
  unfolding erased erase_everywhere h2 h1
  erased-freed = omega (
    arith,
    used-erase id hbm t v,
    used-erase id dram (h1 id t v) (h1-IsValid id t v),
    used-erase id ssd (h2 id t v) (h2-IsValid id t v),
    used-erase_other id t,
    used-erase_other id (h1 id t v),
    used-erase_other id (h2 id t v),
  )

  maps_kept : (erased.access_counts ≡ t.access_counts) × (erased.visited ≡ t.visited)
  unfolding erased erase_everywhere erase_from_tier
  maps_kept = (refl, refl)

  -- `Erase` on a well-formed store takes every copy of the block, its access count and its visited
  -- bit, and nothing of another block; the bytes that it reports are the bytes that the tiers lost,
  -- and the store stays well formed.
  pub erase-Erased : Erased id t (erase id t)
  unfolding erase assign copy used_bytes erased
  erase-Erased =
      let v' : IsValid erased = erased-IsValid in
      record {
        valid = record {
          hbm_valid = v'.hbm_valid;
          dram_valid = v'.dram_valid;
          ssd_valid = v'.ssd_valid;
        };
        copies = λ x j. same_copies x j ∙ copy-erase_everywhere id t v x j;
        freed = erased-freed;
        counts = λ j. ap (λ f. ite (id_dec j id) 0 (f j)) maps_kept.0;
        bits = λ j. ap (λ f. ite (id_dec j id) false (f j)) maps_kept.1;
      }
    where
      same_copies :
          (x : Tier) (j : BlockId) → copy x j (erase id t).0 ≡ copy x j (erase_everywhere id t).0
      same_copies hbm j = refl
      same_copies dram j = refl
      same_copies ssd j = refl
