-- ===== src/Tests/Stores.antt =====
-- The two stores, and a restart of the SSD store, at concrete values.
use mathlib.Core.List.{lookup}
use mathlib.Core.Option.{get_or}
use lethe.Base.{◌≡◌, refl, true, none, some, ite, ℕ_discrete}
use lethe.Types.{BlockId, id_dec}
use lethe.BlockStore
use lethe.SsdBlockStore.{SsdBlockStore, open_file, alloc_slot, fill_slot}
use lethe.SsdBlockStore
use lethe.SsdBlockStore.Slots
use lethe.SsdBlockStore.Reopen.{reopen}
use lethe.SsdBlockStore.Complete.{put_survives_restart}
use lethe.Base.{[], ◌∷◌}
use lethe.TieredStore.Make.{TieredStoreConfig}
use lethe.Tests.Data.{
  block_a, block_b, kv_a, kv_b, payload, disk_new, two_slots, disk_new-IsValid, disk_new-IsComplete,
  disk_new-IsViewOf, dram_a,
}

absent_a : SsdBlockStore.get block_a disk_new ≡ none
unfolding SsdBlockStore.get SsdBlockStore.get_copy lookup
absent_a = refl

taken_a : (SsdBlockStore.put kv_a disk_new).1 ≡ true
unfolding SsdBlockStore.put alloc_slot lookup
taken_a = refl

put_survives_restart_example :
    (t : SsdBlockStore) × (open_file (SsdBlockStore.put kv_a disk_new).0.slots 256 128 ≡ some t)
    × (SsdBlockStore.get block_a t ≡ some payload)
put_survives_restart_example =
    put_survives_restart kv_a disk_new 256 128 two_slots disk_new-IsValid disk_new-IsComplete
      disk_new-IsViewOf absent_a taken_a

reopen_example :
    (t : SsdBlockStore) × (open_file disk_new.slots 256 128 ≡ some t)
    × Slots.IsValid t
    × ((id : BlockId) → SsdBlockStore.get_copy id t ≡ SsdBlockStore.get_copy id disk_new)
reopen_example =
    reopen disk_new 256 128 two_slots disk_new-IsValid disk_new-IsComplete disk_new-IsViewOf

taken_b : (BlockStore.put kv_b dram_a).1 ≡ true
unfolding BlockStore.put lookup id_dec ℕ_discrete
taken_b = refl

get-put_example :
    BlockStore.get block_b (BlockStore.put kv_b dram_a).0
    ≡ ite
        (id_dec block_b block_b)
        (some (get_or (BlockStore.get block_b dram_a) payload))
        (BlockStore.get block_b dram_a)
get-put_example = BlockStore.Laws.get-put kv_b dram_a block_b taken_b

-- The memory store reports the two bytes that it frees.
erase_frees : (BlockStore.erase block_a dram_a).1 ≡ 2
unfolding BlockStore.erase lookup id_dec ℕ_discrete
erase_frees = refl

abbrev small_config : TieredStoreConfig
small_config = record {
  hbm_bytes = 0;
  dram_bytes = 100;
  ssd_bytes = 256;
  ssd_path = 47 ∷ [];
  enable_promotion = true;
  promotion_access_threshold = 2;
  ssd_slot_bytes = 128;
}
