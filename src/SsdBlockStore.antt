-- ===== src/SsdBlockStore.antt =====
-- cache_server/src/ssd_block_store.cpp: a slot allocator over one mmap'd file. The file is a
-- function from slot numbers to slots; a write through `slot_header(n)` or `slot_payload(n)` is
-- an update at `n`. Opening, sizing and mapping the file are not modelled: a restart hands the
-- slots of the old process to `open_file`. `free_slots` has the back of the vector first.
pub mod Slots
pub mod Laws
pub mod Restart
pub mod Reopen
pub mod Complete
use mathlib.Core.Option
use mathlib.Core.List.{lookup}
use lethe.Base.{
  ℕ, zero, suc, ◌+◌, ◌-◌, ◌*◌, ◌/◌, ◌%◌, ◌^◌, ◌≤◌, ◌<◌, ◌≡◌, ◌≢◌, Bool, true, false, Option, none,
  some, List, [], ◌∷◌, ◌++◌, map, length, take, drop, All, ltb, leb, ◌==◌, if◌then◌else◌, add64,
  sub64, mul64, not, ite, ℕ_discrete,
}
use lethe.Base.Assoc.{remove, IsMap, total}
use lethe.Layer.{Layer, max_size}
use lethe.Types.{Tier, Bytes, BlockId, KvBlock, BlockMeta, id_dec}

abbrev pub slot_magic_live : ℕ
slot_magic_live = 0xA5

abbrev pub slot_magic_free : ℕ
slot_magic_free = 0

abbrev pub header_size : ℕ
header_size = 64

-- A slot: the fields of `SsdSlotHeader`, and the payload region behind it.
pub record Slot : Type 0 where
  pub magic : ℕ
  pub tier : ℕ
  pub flags : ℕ
  pub payload_size : ℕ
  pub hash : Bytes
  pub inserted_epoch : ℕ
  pub layer : ℕ
  pub head_group : ℕ
  pub model_id : ℕ
  pub reserved : Bytes
  pub payload : Bytes

pub record SsdBlockStore : Type 0 where
  pub slot_payload_bytes : ℕ
  pub total_slots : ℕ
  pub usable_bytes : ℕ
  pub slots : ℕ → Slot
  pub index : List (BlockId × ℕ)
  pub free_slots : List ℕ
  pub bump_next : ℕ
  pub used : ℕ

-- A write to the file at slot `n`.
unfoldable pub write : ℕ → Slot → (ℕ → Slot) → ℕ → Slot
write n slot slots m = ite (ℕ_discrete m n) slot (slots m)

-- The id that a header spells out.
abbrev pub slot_id : Slot → BlockId
slot_id h = record {
  hash = h.hash;
  layer = h.layer;
  head_group = h.head_group;
  model_id = h.model_id;
}

-- `RebuildIndexFromMmap`, the body of the loop at slot `n`. `emplace` keeps an entry that is there.
unfoldable pub rebuild_slot : ℕ → SsdBlockStore → SsdBlockStore
rebuild_slot n s =
    if not ((s.slots n).magic == slot_magic_live)
    then record s { free_slots = n ∷ s.free_slots }
    else if ltb s.slot_payload_bytes (s.slots n).payload_size
    then record s { free_slots = n ∷ s.free_slots }
    else record s {
      index = elim (lookup id_dec (slot_id (s.slots n)) s.index) [
        | some _ ↦ s.index
        | none ↦ (slot_id (s.slots n), n) ∷ s.index
      ];
      used = add64 s.used (s.slots n).payload_size;
    }

-- The loop over the slots below `n`, from slot 0.
unfoldable pub rebuild_below : ℕ → SsdBlockStore → SsdBlockStore
rebuild_below zero s = s
rebuild_below (suc n) s = rebuild_slot n (rebuild_below n s)

unfoldable pub rebuild_index : SsdBlockStore → SsdBlockStore
rebuild_index s = record rebuilt { bump_next = rebuilt.total_slots }
  where
    rebuilt : SsdBlockStore
    rebuilt = rebuild_below s.total_slots s

-- The constructor over the slots of a mapped file; `none` is its `std::invalid_argument`. For a
-- slot size of 0 the code divides by it before it comes to its test; here this is `none` too.
unfoldable pub open_file : (ℕ → Slot) → ℕ → ℕ → Option SsdBlockStore
open_file slots capacity_bytes slot_bytes =
    if leb slot_bytes header_size
    then none
    else if capacity_bytes / slot_bytes == 0
    then none
    else some (
        rebuild_index (record {
          slot_payload_bytes = slot_bytes - header_size;
          total_slots = capacity_bytes / slot_bytes;
          usable_bytes = mul64 (capacity_bytes / slot_bytes) (slot_bytes - header_size);
          slots = slots;
          index = [];
          free_slots = [];
          bump_next = 0;
          used = 0;
        }))

-- `AllocSlot`: the freed slots first, then the slots never used.
unfoldable pub alloc_slot : SsdBlockStore → SsdBlockStore × Option ℕ
alloc_slot s = elim s.free_slots [
  | n ∷ rest ↦ (record s { free_slots = rest }, some n)
  | [] ↦
      if ltb s.bump_next s.total_slots
      then (record s { bump_next = s.bump_next + 1 }, some s.bump_next)
      else (s, none)
]

-- The slot as `Put` leaves it: `memcpy` writes the front of the payload region, and the casts
-- to the header's field widths wrap.
abbrev pub filled : KvBlock → Slot → Slot
filled block old = record {
  magic = slot_magic_live;
  tier = 2;
  flags = 0;
  payload_size = length block.bytes % 2 ^ 32;
  hash = block.id.hash;
  inserted_epoch = block.inserted_epoch;
  layer = block.id.layer;
  head_group = block.id.head_group;
  model_id = block.id.model_id;
  reserved = 0 ∷ 0 ∷ 0 ∷ 0 ∷ [];
  payload = block.bytes ++ drop (length block.bytes) old.payload;
}

-- The writes of `Put` once `AllocSlot` has given slot `n`.
unfoldable pub fill_slot : KvBlock → ℕ → SsdBlockStore → SsdBlockStore
fill_slot block n s = record s {
  slots = write n (filled block (s.slots n)) s.slots;
  index = (block.id, n) ∷ s.index;
  used = add64 s.used (length block.bytes);
}

unfoldable pub put : KvBlock → SsdBlockStore → SsdBlockStore × Bool
put block s =
    if ltb s.slot_payload_bytes (length block.bytes)
    then (s, false)
    else elim (lookup id_dec block.id s.index) [
      | some _ ↦ (s, true)
      | none ↦
          let (s', slot) = alloc_slot s in
          elim slot [ none ↦ (s', false) | some n ↦ (fill_slot block n s', true) ]
    ]

-- The block that `GetCopy` builds from a slot.
abbrev pub block_of : Slot → KvBlock
block_of h = record {
  id = slot_id h;
  bytes = take h.payload_size h.payload;
  tier = Tier.ssd;
  inserted_epoch = h.inserted_epoch;
}

unfoldable pub get_copy : BlockId → SsdBlockStore → Option KvBlock
get_copy id s = elim (lookup id_dec id s.index) [
  | none ↦ none
  | some n ↦ if (s.slots n).magic == slot_magic_live then some (block_of (s.slots n)) else none
]

unfoldable pub get : BlockId → SsdBlockStore → Option Bytes
unfolding get_copy
get id s = Option.map (λ kv. kv.bytes) (get_copy id s)

-- The writes of `Erase` at the block's slot `n`.
unfoldable pub clear_slot : BlockId → ℕ → SsdBlockStore → SsdBlockStore
clear_slot id n s = record s {
  slots = write n (record old { magic = slot_magic_free; payload_size = 0 }) s.slots;
  index = remove id_dec id s.index;
  free_slots = n ∷ s.free_slots;
  used = sub64 s.used old.payload_size;
}
  where
    old : Slot
    old = s.slots n

unfoldable pub erase : BlockId → SsdBlockStore → SsdBlockStore × ℕ
erase id s = elim (lookup id_dec id s.index) [
  | none ↦ (s, 0)
  | some n ↦ (clear_slot id n s, (s.slots n).payload_size)
]

meta_of : (ℕ → Slot) → BlockId × ℕ → BlockMeta
meta_of slots (id, n) = record {
  id = id;
  tier = Tier.ssd;
  size_bytes = (slots n).payload_size;
  last_access_epoch = (slots n).inserted_epoch;
  insert_epoch = (slots n).inserted_epoch;
  visited = false;
}

unfoldable pub snapshot : SsdBlockStore → List BlockMeta
unfolding meta_of
snapshot s = map (meta_of s.slots) s.index

unfoldable pub live_slot_count : SsdBlockStore → ℕ
live_slot_count s = length s.index

abbrev pub ssd_layer : Layer SsdBlockStore
ssd_layer = record {
  put = put;
  get = get;
  erase = erase;
  used_bytes = λ s. s.used;
  capacity_bytes = λ s. s.usable_bytes;
  snapshot = snapshot;
}
