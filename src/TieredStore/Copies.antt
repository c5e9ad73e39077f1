-- ===== src/TieredStore/Copies.antt =====
-- What the calls into single tiers do to the copies of the blocks. Every proof about a
-- TieredStore rests on these laws, which follow from those of the layers.
use mathlib.Core.Option.{get_or}
use lethe.Base.{◌<◌, ◌≡◌, refl, true, false, none, some, ite, length, ◌+◌}
use lethe.BlockStore.Laws.{block_laws}
use lethe.SsdBlockStore.Laws.{ssd_laws}
use lethe.Layer.{LayerLaws, max_size}
use lethe.Layer.Nullable.{nullable_laws}
use lethe.TieredStore.{TieredStore, memory, disk, copy, put_to_tier, erase_from_tier, used_bytes}
use lethe.Types.{Tier, hbm, dram, ssd, Bytes, BlockId, KvBlock, id_dec, tier_dec}

abbrev pub memory_laws : LayerLaws memory
memory_laws = nullable_laws block_laws

abbrev pub disk_laws : LayerLaws disk
disk_laws = nullable_laws ssd_laws

-- Each tier is null or well-formed.
pub record IsValid (t : TieredStore) : Type 0 where
  pub hbm_valid : memory_laws.IsValid t.hbm_store
  pub dram_valid : memory_laws.IsValid t.dram_store
  pub ssd_valid : disk_laws.IsValid t.ssd_store

pub put_to_tier-IsValid :
    (b : KvBlock) (tier : Tier) (t : TieredStore)
    → length b.bytes < max_size
    → IsValid t
    → IsValid (put_to_tier b tier t).0
unfolding put_to_tier
put_to_tier-IsValid b hbm t h v = record {
  hbm_valid = memory_laws.put-IsValid b t.hbm_store h v.hbm_valid;
  dram_valid = v.dram_valid;
  ssd_valid = v.ssd_valid;
}
put_to_tier-IsValid b dram t h v = record {
  hbm_valid = v.hbm_valid;
  dram_valid = memory_laws.put-IsValid b t.dram_store h v.dram_valid;
  ssd_valid = v.ssd_valid;
}
put_to_tier-IsValid b ssd t h v = record {
  hbm_valid = v.hbm_valid;
  dram_valid = v.dram_valid;
  ssd_valid = disk_laws.put-IsValid b t.ssd_store h v.ssd_valid;
}

pub erase_from_tier-IsValid :
    (id : BlockId) (tier : Tier) (t : TieredStore)
    → IsValid t
    → IsValid (erase_from_tier id tier t).0
unfolding erase_from_tier
erase_from_tier-IsValid id hbm t v = record {
  hbm_valid = memory_laws.erase-IsValid id t.hbm_store v.hbm_valid;
  dram_valid = v.dram_valid;
  ssd_valid = v.ssd_valid;
}
erase_from_tier-IsValid id dram t v = record {
  hbm_valid = v.hbm_valid;
  dram_valid = memory_laws.erase-IsValid id t.dram_store v.dram_valid;
  ssd_valid = v.ssd_valid;
}
erase_from_tier-IsValid id ssd t v = record {
  hbm_valid = v.hbm_valid;
  dram_valid = v.dram_valid;
  ssd_valid = disk_laws.erase-IsValid id t.ssd_store v.ssd_valid;
}

pub put_refused :
    (b : KvBlock) (tier : Tier) (t : TieredStore)
    → (put_to_tier b tier t).1 ≡ false
    → (put_to_tier b tier t).0 ≡ t
unfolding put_to_tier
put_refused b hbm t h = λ i. record t { hbm_store = memory_laws.put_refused b t.hbm_store h i }
put_refused b dram t h = λ i. record t { dram_store = memory_laws.put_refused b t.dram_store h i }
put_refused b ssd t h = λ i. record t { ssd_store = disk_laws.put_refused b t.ssd_store h i }

-- An accepted put changes the tier's copy of that one block.
pub copy-put :
    (b : KvBlock) (tier : Tier) (t : TieredStore) (x : Tier) (j : BlockId)
    → length b.bytes < max_size
    → IsValid t
    → (put_to_tier b tier t).1 ≡ true
    → copy x j (put_to_tier b tier t).0
      ≡ ite
          (tier_dec x tier)
          (ite (id_dec j b.id) (some (get_or (copy x b.id t) b.bytes)) (copy x j t))
          (copy x j t)
unfolding put_to_tier copy tier_dec
copy-put b hbm t hbm j h v e = memory_laws.get-put b t.hbm_store j h v.hbm_valid e
copy-put b dram t dram j h v e = memory_laws.get-put b t.dram_store j h v.dram_valid e
copy-put b ssd t ssd j h v e = disk_laws.get-put b t.ssd_store j h v.ssd_valid e
copy-put b hbm t dram j h v e = refl
copy-put b hbm t ssd j h v e = refl
copy-put b dram t hbm j h v e = refl
copy-put b dram t ssd j h v e = refl
copy-put b ssd t hbm j h v e = refl
copy-put b ssd t dram j h v e = refl

-- An erase from one tier takes that tier's copy of that one block.
pub copy-erase :
    (id : BlockId) (tier : Tier) (t : TieredStore) (x : Tier) (j : BlockId)
    → IsValid t
    → copy x j (erase_from_tier id tier t).0
      ≡ ite (tier_dec x tier) (ite (id_dec j id) none (copy x j t)) (copy x j t)
unfolding erase_from_tier copy tier_dec
copy-erase id hbm t hbm j v = memory_laws.get-erase id t.hbm_store j v.hbm_valid
copy-erase id dram t dram j v = memory_laws.get-erase id t.dram_store j v.dram_valid
copy-erase id ssd t ssd j v = disk_laws.get-erase id t.ssd_store j v.ssd_valid
copy-erase id hbm t dram j v = refl
copy-erase id hbm t ssd j v = refl
copy-erase id dram t hbm j v = refl
copy-erase id dram t ssd j v = refl
copy-erase id ssd t hbm j v = refl
copy-erase id ssd t dram j v = refl

pub copy-small :
    (tier : Tier) (id : BlockId) (t : TieredStore) (bs : Bytes)
    → IsValid t
    → copy tier id t ≡ some bs
    → length bs < max_size
unfolding copy
copy-small hbm id t bs v e = memory_laws.get-lt-max_size id t.hbm_store bs v.hbm_valid e
copy-small dram id t bs v e = memory_laws.get-lt-max_size id t.dram_store bs v.dram_valid e
copy-small ssd id t bs v e = disk_laws.get-lt-max_size id t.ssd_store bs v.ssd_valid e

-- What an erase from one tier reports is what leaves that tier's count.
pub used-erase :
    (id : BlockId) (tier : Tier) (t : TieredStore)
    → IsValid t
    → used_bytes tier (erase_from_tier id tier t).0 + (erase_from_tier id tier t).1
      ≡ used_bytes tier t
unfolding erase_from_tier used_bytes
used-erase id hbm t v = memory_laws.used-erase id t.hbm_store v.hbm_valid
used-erase id dram t v = memory_laws.used-erase id t.dram_store v.dram_valid
used-erase id ssd t v = disk_laws.used-erase id t.ssd_store v.ssd_valid
