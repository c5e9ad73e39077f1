-- ===== src/TieredStore.antt =====
-- cache_server/src/tiered_store.cpp: three tiers behind one Get/Put/Demote/Erase. A tier is a
-- store that may be null. The access counters and the SIEVE visited bits are functions: an id
-- without an entry counts 0 and is not visited. Each method runs here without overlap with another, although in
-- the code it takes the lock of each tier in turn.
pub mod Copies
pub mod Make
pub mod Stored
pub mod Get
pub mod Put
pub mod Demote
pub mod Erase
pub mod Good
pub mod Refines
use mathlib.Core.Option.{get_or}
use lethe.Base.{
  ℕ, ◌+◌, ◌%◌, ◌^◌, ◌≡◌, Bool, true, false, Option, none, some, List, [], ◌∷◌, map, ite, leb,
  if◌then◌else◌, ◌&&◌, not, ◌/◌, ◌==◌,
}
use lethe.BlockStore
use lethe.BlockStore.{BlockStore, block_layer}
use lethe.SsdBlockStore
use lethe.SsdBlockStore.{SsdBlockStore, Slot, ssd_layer, open_file}
use lethe.Layer.{Layer}
use lethe.Layer.Nullable.{nullable}
use lethe.Types.{Tier, hbm, dram, ssd, Bytes, BlockId, KvBlock, BlockMeta, id_dec, tier_dec}

abbrev pub memory : Layer (Option BlockStore)
memory = nullable block_layer

abbrev pub disk : Layer (Option SsdBlockStore)
disk = nullable ssd_layer

pub record TieredStore : Type 0 where
  pub enable_promotion : Bool
  pub promotion_access_threshold : ℕ
  pub hbm_store : Option BlockStore
  pub dram_store : Option BlockStore
  pub ssd_store : Option SsdBlockStore
  pub access_counts : BlockId → ℕ
  pub visited : BlockId → Bool

pub record GetResult : Type 0 where
  pub bytes : Bytes
  pub tier_found : Tier
  pub promoted : Bool

-- `m[k] = v`.
unfoldable pub assign {ℓ} : {V : Type ℓ} → BlockId → V → (BlockId → V) → BlockId → V
assign k v m j = ite (id_dec j k) v (m j)

unfoldable pub put_to_tier : KvBlock → Tier → TieredStore → TieredStore × Bool
put_to_tier block hbm t =
    let r = memory.put block t.hbm_store in (record t { hbm_store = r.0 }, r.1)
put_to_tier block dram t =
    let r = memory.put block t.dram_store in (record t { dram_store = r.0 }, r.1)
put_to_tier block ssd t = let r = disk.put block t.ssd_store in (record t { ssd_store = r.0 }, r.1)

unfoldable pub erase_from_tier : BlockId → Tier → TieredStore → TieredStore × ℕ
erase_from_tier id hbm t =
    let r = memory.erase id t.hbm_store in (record t { hbm_store = r.0 }, r.1)
erase_from_tier id dram t =
    let r = memory.erase id t.dram_store in (record t { dram_store = r.0 }, r.1)
erase_from_tier id ssd t = let r = disk.erase id t.ssd_store in (record t { ssd_store = r.0 }, r.1)

-- The tier's own copy of a block: `hbm_->Get`, `dram_->Get`, `ssd_->GetCopy`.
unfoldable pub copy : Tier → BlockId → TieredStore → Option Bytes
copy hbm id t = memory.get id t.hbm_store
copy dram id t = memory.get id t.dram_store
copy ssd id t = disk.get id t.ssd_store

abbrev pub is_empty : Bytes → Bool
is_empty [] = true
is_empty (x ∷ xs) = false

-- One `if (bytes.empty() && tier_)` of `Get`: the variables `found` and `bytes` afterwards.
unfoldable pub probe_tier : Tier → BlockId → TieredStore → Tier × Bytes → Tier × Bytes
probe_tier tier id t (found, bytes) =
    if is_empty bytes
    then elim (copy tier id t) [ some bs ↦ (tier, bs) | none ↦ (found, bytes) ]
    else (found, bytes)

-- `found` and `bytes` when `Get` decides between a hit and a miss.
unfoldable pub probe : BlockId → TieredStore → Tier × Bytes
unfolding probe_tier
probe id t = probe_tier ssd id t (probe_tier dram id t (probe_tier hbm id t (ssd, [])))

abbrev pub is_tier : Tier → Tier → Bool
is_tier hbm hbm = true
is_tier dram dram = true
is_tier ssd ssd = true
is_tier _ _ = false

abbrev pub missed : Tier × Bytes → Bool
missed (found, bytes) = is_empty bytes && (not (is_tier found hbm) && not (is_tier found dram))

-- `count = ++access_counts_[id]; visited_.insert(id)`, the counter being a `uint32_t`.
unfoldable pub note_access : BlockId → TieredStore → TieredStore
unfolding assign
note_access id t = record t {
  access_counts = assign id ((t.access_counts id + 1) % 2 ^ 32) t.access_counts;
  visited = assign id true t.visited;
}

abbrev pub is_null {ℓ} : {A : Type ℓ} → Option A → Bool
is_null none = true
is_null (some _) = false

-- The tier that a hit is promoted to; the tier it was found in stands for no promotion.
abbrev pub promotion_target : Tier → TieredStore → Tier
promotion_target hbm t = hbm
promotion_target dram t = if is_null t.hbm_store then dram else hbm
promotion_target ssd t = dram

-- The write of the faster copy, and the drop of the slower one if the write succeeded.
unfoldable pub move_up : BlockId → Tier → Bytes → Tier → TieredStore → TieredStore × Bool
move_up id found bytes target t =
    let block : KvBlock = record { id = id; bytes = bytes; tier = target; inserted_epoch = 0 } in
    let r = put_to_tier block target t in
    if r.1 then ((erase_from_tier id found r.0).0, true) else (r.0, false)

unfoldable pub promote : BlockId → Tier × Bytes → TieredStore → TieredStore × Bool
unfolding move_up
promote id (found, bytes) t =
    let target = promotion_target found t in
    if t.enable_promotion
      && (leb t.promotion_access_threshold (t.access_counts id) && not (is_tier target found))
    then move_up id found bytes target t
    else (t, false)

unfoldable pub get : BlockId → TieredStore → TieredStore × Option GetResult
unfolding probe note_access promote
get id t =
    let hit = probe id t in
    if missed hit
    then (t, none)
    else let r = promote id hit (note_access id t) in
      (r.0, some (record { bytes = hit.1; tier_found = hit.0; promoted = r.1 }))

-- The rows of `kFallthrough`, up to the entry at which the loop breaks.
unfoldable pub fallthrough : Tier → List Tier
fallthrough hbm = hbm ∷ dram ∷ ssd ∷ []
fallthrough dram = dram ∷ ssd ∷ []
fallthrough ssd = ssd ∷ []

unfoldable pub put_first : KvBlock → List Tier → TieredStore → TieredStore × Option Tier
put_first block [] t = (t, none)
put_first block (tier ∷ tiers) t =
    let rest = put_first block tiers (put_to_tier block tier t).0 in
    if (put_to_tier block tier t).1 then ((put_to_tier block tier t).0, some tier) else rest

unfoldable pub put : KvBlock → Tier → TieredStore → TieredStore × Option Tier
unfolding put_first fallthrough
put block hint t = put_first block (fallthrough hint) t

-- The block that `Demote` builds for the slower tier.
abbrev pub demoted_block : BlockId → Bytes → Tier → KvBlock
demoted_block id bytes tier = record { id = id; bytes = bytes; tier = tier; inserted_epoch = 0 }

unfoldable pub demote_dram : BlockId → Bytes → TieredStore → TieredStore × Bool
demote_dram id bytes t =
    let r = put_to_tier (demoted_block id bytes ssd) ssd t in
    if r.1 then ((erase_from_tier id dram r.0).0, true) else (r.0, false)

unfoldable pub demote_hbm : BlockId → Bytes → TieredStore → TieredStore × Bool
demote_hbm id bytes t =
    let r = put_to_tier (demoted_block id bytes dram) dram t in
    let r' = put_to_tier (demoted_block id bytes ssd) ssd r.0 in
    if r.1
    then ((erase_from_tier id hbm r.0).0, true)
    else if r'.1
    then ((erase_from_tier id hbm r'.0).0, true)
    else (r'.0, false)

unfoldable pub demote : BlockId → TieredStore → TieredStore × Bool
unfolding copy demote_hbm demote_dram
demote id t = elim (copy hbm id t) [
  | some bytes ↦ demote_hbm id bytes t
  | none ↦ elim (copy dram id t) [ some bytes ↦ demote_dram id bytes t | none ↦ (t, false) ]
]

-- The three `Erase` calls, and the sum of what they freed.
unfoldable pub erase_everywhere : BlockId → TieredStore → TieredStore × ℕ
erase_everywhere id t =
    let h = erase_from_tier id hbm t in
    let d = erase_from_tier id dram h.0 in
    let s = erase_from_tier id ssd d.0 in (s.0, h.1 + d.1 + s.1)

unfoldable pub erase : BlockId → TieredStore → TieredStore × ℕ
unfolding erase_everywhere assign
erase id t =
    let r = erase_everywhere id t in
    (
      record (r.0) {
        access_counts = assign id 0 (r.0).access_counts;
        visited = assign id false (r.0).visited;
      },
      r.1,
    )

unfoldable pub used_bytes : Tier → TieredStore → ℕ
used_bytes hbm t = memory.used_bytes t.hbm_store
used_bytes dram t = memory.used_bytes t.dram_store
used_bytes ssd t = disk.used_bytes t.ssd_store

unfoldable pub capacity_bytes : Tier → TieredStore → ℕ
capacity_bytes hbm t = memory.capacity_bytes t.hbm_store
capacity_bytes dram t = memory.capacity_bytes t.dram_store
capacity_bytes ssd t = disk.capacity_bytes t.ssd_store

tier_snapshot : Tier → TieredStore → List BlockMeta
tier_snapshot hbm t = memory.snapshot t.hbm_store
tier_snapshot dram t = memory.snapshot t.dram_store
tier_snapshot ssd t = disk.snapshot t.ssd_store

-- The tier's metadata with the visited bits painted on.
unfoldable pub snapshot : Tier → TieredStore → List BlockMeta
unfolding tier_snapshot
snapshot tier t =
    map (λ (m : BlockMeta). record m { visited = t.visited m.id }) (tier_snapshot tier t)

unfoldable pub mark_visited : BlockId → TieredStore → TieredStore
unfolding assign
mark_visited id t = record t { visited = assign id true t.visited }

unfoldable pub clear_visited : BlockId → TieredStore → TieredStore
unfolding assign
clear_visited id t = record t { visited = assign id false t.visited }
