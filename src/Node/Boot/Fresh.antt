-- ===== src/Node/Boot/Fresh.antt =====
-- A new server is sound, and stays so.
use lethe.Base.{◌≡◌, ◌≢◌, none, some, List, [], ℕ}
use lethe.Types.{Bytes, BlockId, hbm, dram, ssd}
use lethe.SsdBlockStore.{Slot, SsdBlockStore, open_file}
use lethe.SsdBlockStore
use lethe.BlockStore
use lethe.TieredStore.{TieredStore, copy}
use lethe.TieredStore.Make.{TieredStoreConfig}

-- The blocks that the file holds are theirs: each has bytes, which are the content of its id.
abbrev pub HoldsContent : (BlockId → Bytes) → (ℕ → Slot) → TieredStoreConfig → Type 0
HoldsContent content slots cfg =
    (s : SsdBlockStore) (j : BlockId) (bs : Bytes)
    → open_file slots cfg.ssd_bytes cfg.ssd_slot_bytes ≡ some s
    → SsdBlockStore.get j s ≡ some bs
    → (bs ≡ content j) × (bs ≢ [])

-- Nothing in memory, and on the SSD what the ids say.
record IsFresh (content : BlockId → Bytes) (t : TieredStore) : Type 0 where
  in_hbm : (j : BlockId) → copy hbm j t ≡ none
  in_dram : (j : BlockId) → copy dram j t ≡ none
  on_ssd : (j : BlockId) (bs : Bytes) → copy ssd j t ≡ some bs → (bs ≡ content j) × (bs ≢ [])
