-- ===== src/Tests/Data.antt =====
-- Concrete blocks, stores and rings.
use lethe.Base.{ℕ, ◌≡◌, ◌≢◌, ℕ_discrete, refl, true, false, none, some, [], ◌∷◌, arith}
use lethe.Types.{Bytes, BlockId, KvBlock, hbm, dram, ssd, id_dec}
use lethe.BlockStore.{BlockStore}
use lethe.BlockStore
use lethe.SsdBlockStore.{SsdBlockStore, Slot, rebuild_index, rebuild_below, rebuild_slot, open_file}
use lethe.SsdBlockStore
use lethe.SsdBlockStore.Slots
use lethe.SsdBlockStore.Restart.{IsComplete}
use lethe.SsdBlockStore.Reopen.{IsGeometry, IsUniqueFile, IsViewOf}
use mathlib.Core.List.{lookup}
use lethe.Layer.Nullable.{get_or_miss}
use lethe.TieredStore.{TieredStore, copy}
use lethe.TieredStore.Copies
use lethe.TieredStore.Stored.{stored, Agrees}
use lethe.TieredStore.Good.{IsGood}

abbrev pub block_a : BlockId
block_a = record { hash = 1 ∷ []; layer = 0; head_group = 0; model_id = 0 }

abbrev pub block_b : BlockId
block_b = record { hash = 2 ∷ []; layer = 0; head_group = 0; model_id = 0 }

abbrev pub payload : Bytes
payload = 7 ∷ 8 ∷ []

abbrev pub kv_a : KvBlock
kv_a = record { id = block_a; bytes = payload; tier = dram; inserted_epoch = 0 }

abbrev pub kv_b : KvBlock
kv_b = record { id = block_b; bytes = payload; tier = dram; inserted_epoch = 0 }

-- Every block has the same content.
abbrev pub content : BlockId → Bytes
content id = payload

abbrev pub blank_slot : Slot
blank_slot = record {
  magic = 0;
  tier = 0;
  flags = 0;
  payload_size = 0;
  hash = [];
  inserted_epoch = 0;
  layer = 0;
  head_group = 0;
  model_id = 0;
  reserved = [];
  payload = [];
}

abbrev pub blank_file : ℕ → Slot
blank_file n = blank_slot

-- The store over a new file of two slots.
abbrev pub disk_new : SsdBlockStore
disk_new = record {
  slot_payload_bytes = 64;
  total_slots = 2;
  usable_bytes = 128;
  slots = blank_file;
  index = [];
  free_slots = 1 ∷ 0 ∷ [];
  bump_next = 2;
  used = 0;
}

pub open_blank : open_file blank_file 256 128 ≡ some disk_new
unfolding open_file rebuild_index rebuild_below rebuild_slot
open_blank = refl

pub two_slots : IsGeometry 256 128
two_slots = record {
  header_fits = omega arith;
  some_slot = omega arith;
  narrow = omega arith;
  addressable = omega arith;
}

pub disk_new-IsValid : Slots.IsValid disk_new
disk_new-IsValid = record {
  distinct = tt;
  holds = tt;
  free = (omega arith, tt, ((λ e. absurd (omega (arith, e))), tt), (omega arith, tt, tt, tt));
  bumped = refl;
  counted = refl;
  slots_counted = omega arith;
  usable = refl;
  narrow = omega arith;
  addressable = omega arith;
}

pub disk_new-IsComplete : IsComplete disk_new
disk_new-IsComplete = λ m h b. absurd (omega (arith, b.live))

pub disk_new-IsViewOf : IsViewOf 256 128 disk_new
disk_new-IsViewOf = record { limit = refl; count = refl }

pub blank_file-IsUniqueFile : IsUniqueFile blank_file 256 128
blank_file-IsUniqueFile = λ m n hm hn bm bn e. absurd (omega (arith, bm.live))

abbrev pub dram_a : BlockStore
dram_a = record { tier = dram; capacity = 100; blocks = (block_a, kv_a) ∷ []; used = 2 }

pub dram_a-IsValid : BlockStore.IsValid dram_a
unfolding lookup
dram_a-IsValid = record {
  distinct = (refl, tt);
  counted = refl;
  bounded = omega arith;
  addressable = omega arith;
  own = ((refl, refl), tt);
}

-- A store without HBM whose DRAM has one block and whose SSD has none.
abbrev pub tiers_a : TieredStore
tiers_a = record {
  enable_promotion = true;
  promotion_access_threshold = 2;
  hbm_store = none;
  dram_store = some dram_a;
  ssd_store = some disk_new;
  access_counts = λ id. 0;
  visited = λ id. false;
}

pub tiers_a-IsValid : Copies.IsValid tiers_a
tiers_a-IsValid = record {
  hbm_valid = tt;
  dram_valid = dram_a-IsValid;
  ssd_valid = disk_new-IsValid;
}

pub tiers_a-Agrees : Agrees content tiers_a
unfolding copy get_or_miss lookup BlockStore.get SsdBlockStore.get SsdBlockStore.get_copy id_dec
    ℕ_discrete
tiers_a-Agrees hbm j bs e = cc
tiers_a-Agrees dram j bs e = ground arith
tiers_a-Agrees ssd j bs e = cc

pub stored_a : stored block_a tiers_a ≡ some payload
unfolding copy get_or_miss lookup BlockStore.get SsdBlockStore.get SsdBlockStore.get_copy id_dec
    ℕ_discrete
stored_a = refl

tiers_a-has_bytes : (j : BlockId) → stored j tiers_a ≢ some []
unfolding copy get_or_miss lookup BlockStore.get SsdBlockStore.get
tiers_a-has_bytes j = ground arith

pub tiers_a-IsGood : IsGood content tiers_a
tiers_a-IsGood = record {
  valid = tiers_a-IsValid;
  agrees = tiers_a-Agrees;
  has_bytes = λ j. tiers_a-has_bytes j;
}

pub absent_b : stored block_b tiers_a ≡ none
unfolding copy get_or_miss lookup BlockStore.get SsdBlockStore.get SsdBlockStore.get_copy id_dec
    ℕ_discrete
absent_b = refl
