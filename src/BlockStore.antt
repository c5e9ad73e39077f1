-- ===== src/BlockStore.antt =====
-- cache_server/src/block_store.cpp: the in-memory store of one tier. The two locks make each
-- method one step, so a method is a function from the store to the store and its result.
pub mod Laws
use mathlib.Core.Option
use mathlib.Core.List.{lookup}
use lethe.Base.{
  ℕ, ◌+◌, ◌≤◌, ◌<◌, ◌≡◌, Bool, true, false, Option, none, some, List, [], ◌∷◌, map, length, All,
  ltb, if◌then◌else◌, add64, sub64,
}
use lethe.Base.Assoc.{remove, IsMap, total}
use lethe.Layer.{Layer, max_size}
use lethe.Types.{Tier, Bytes, BlockId, KvBlock, BlockMeta, id_dec}

pub record BlockStore : Type 0 where
  pub tier : Tier
  pub capacity : ℕ
  pub blocks : List (BlockId × KvBlock)
  pub used : ℕ

-- The constructor.
unfoldable pub make : Tier → ℕ → BlockStore
make tier capacity = record { tier = tier; capacity = capacity; blocks = []; used = 0 }

unfoldable pub put : KvBlock → BlockStore → BlockStore × Bool
put block s = elim (lookup id_dec block.id s.blocks) [
  | some _ ↦ (s, true)
  | none ↦ if ltb s.capacity (add64 s.used (length block.bytes)) then (s, false) else (
    record s {
      blocks = (block.id, record block { tier = s.tier }) ∷ s.blocks;
      used = add64 s.used (length block.bytes);
    },
    true,
  )
]

unfoldable pub get : BlockId → BlockStore → Option Bytes
get id s = Option.map (λ kv. kv.bytes) (lookup id_dec id s.blocks)

unfoldable pub erase : BlockId → BlockStore → BlockStore × ℕ
erase id s = elim (lookup id_dec id s.blocks) [
  | none ↦ (s, 0)
  | some kv ↦ (
    record s { blocks = remove id_dec id s.blocks; used = sub64 s.used (length kv.bytes) },
    length kv.bytes,
  )
]

meta_of : Tier → BlockId × KvBlock → BlockMeta
meta_of tier (id, kv) = record {
  id = id;
  tier = tier;
  size_bytes = length kv.bytes;
  last_access_epoch = kv.inserted_epoch;
  insert_epoch = kv.inserted_epoch;
  visited = false;
}

unfoldable pub snapshot : BlockStore → List BlockMeta
unfolding meta_of
snapshot s = map (meta_of s.tier) s.blocks

abbrev pub block_layer : Layer BlockStore
block_layer = record {
  put = put;
  get = get;
  erase = erase;
  used_bytes = λ s. s.used;
  capacity_bytes = λ s. s.capacity;
  snapshot = snapshot;
}

-- The byte counter is the sum of the payloads and never exceeds the capacity; a block is stored
-- once, under its own id and as a block of this tier.
pub record IsValid (s : BlockStore) : Type 0 where
  pub distinct : IsMap id_dec s.blocks
  pub counted : s.used ≡ total (λ kv. length kv.bytes) s.blocks
  pub bounded : s.used ≤ s.capacity
  pub addressable : s.capacity < max_size
  pub own : All (λ e. (e.1.id ≡ e.0) × (e.1.tier ≡ s.tier)) s.blocks
