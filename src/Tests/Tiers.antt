-- ===== src/Tests/Tiers.antt =====
-- The tiered store and the eviction pass at concrete values.
use mathlib.Core.List.{lookup}
use lethe.Base.{
  ◌+◌, ◌≡◌, ◌≢◌, ◌<◌, ◌≤◌, ◌⊎◌, refl, Bool, List, true, false, none, some, [], ◌∷◌, arith, length,
  ℕ_discrete, All, sub64,
}
use lethe.Types.{Bytes, BlockId, BlockMeta, hbm, dram, ssd, id_dec}
use lethe.Layer.Nullable.{
  get_or_miss, put_or_false, used_or_zero, capacity_or_zero, snapshot_or_empty,
}
use lethe.BlockStore
use lethe.SsdBlockStore.{SsdBlockStore, Slot, alloc_slot, fill_slot, write}
use lethe.SsdBlockStore
use lethe.TieredStore.{
  TieredStore, copy, get, demote, demote_dram, put_to_tier, used_bytes, capacity_bytes, snapshot,
}
use lethe.TieredStore.Stored.{stored}
use lethe.TieredStore.Good.{IsGood, IsLegal}
use lethe.TieredStore.Refines.{
  Op, get_block, put_block, demote_block, erase_block, Runs, view, run, run-Runs,
}
use lethe.TieredStore.Get.{Keeps, fastest, get_hit, get_empty_on_ssd}
use lethe.TieredStore.Demote.{Demoted, demote-Demoted}
use lethe.TieredStore.Erase.{total_used}
use lethe.Evictor.{
  EvictionConfig, Hands, Walk, evict, walk, run_pass_for_tier, is_pressed, watermark,
}
use lethe.Evictor.Sweep.{ids_of}
use lethe.Evictor.Relief.{ssd_pass_lem}
use lethe.TieredStore.Copies.{IsValid, put_to_tier-IsValid}
use lethe.Evictor.Accounting.{Balanced, walk-Balanced, evict_again}
use lethe.Evictor.Peers.{
  on_peer_eviction, on_peer_eviction_lem, has_id, peer_evicted_count, per_peer_bound,
}
use lethe.Tests.Data.{
  block_a, block_b, kv_b, payload, content, blank_slot, disk_new, tiers_a, tiers_a-IsValid,
  tiers_a-Agrees, tiers_a-IsGood, stored_a,
}

payload-ne : payload ≢ []
payload-ne e = cc

get_hit_example :
    (moved : Bool) × ((get block_a tiers_a).1
      ≡ some (record { bytes = payload; tier_found = fastest block_a tiers_a; promoted = moved }))
    × Keeps content tiers_a (get block_a tiers_a).0
get_hit_example =
    get_hit content block_a tiers_a payload tiers_a-IsValid tiers_a-Agrees stored_a payload-ne

demote-Demoted_example : Demoted content tiers_a (demote block_a tiers_a)
demote-Demoted_example = demote-Demoted content block_a tiers_a tiers_a-IsValid tiers_a-Agrees

-- A store whose SSD has a block without bytes.
abbrev tiers_empty : TieredStore
tiers_empty = record tiers_a {
  dram_store = none;
  ssd_store = some (record disk_new {
    slots = λ n. record blank_slot { magic = 0xA5; hash = 1 ∷ [] };
    index = (block_a, 0) ∷ [];
    free_slots = 1 ∷ [];
  });
}

empty_on_ssd : copy ssd block_a tiers_empty ≡ some []
unfolding copy get_or_miss lookup SsdBlockStore.get SsdBlockStore.get_copy id_dec ℕ_discrete
empty_on_ssd = refl

no_hbm : (id : BlockId) → copy hbm id tiers_empty ≡ none
unfolding copy get_or_miss
no_hbm id = refl

no_dram : copy dram block_a tiers_empty ≡ none
unfolding copy get_or_miss
no_dram = refl

get_empty_on_ssd_example : (get block_a tiers_empty).1 ≡ none
get_empty_on_ssd_example =
    get_empty_on_ssd block_a tiers_empty (no_hbm block_a) no_dram empty_on_ssd

abbrev tight : EvictionConfig
tight = record { high_watermark_pct = 1; low_watermark_pct = 0; broadcast_evictions = true }

abbrev hands_0 : Hands
hands_0 = record { hand_hbm = 0; hand_dram = 0; hand_ssd = 0 }

-- A store whose only block is on the SSD.
tiers_full : TieredStore
tiers_full = (put_to_tier kv_b ssd tiers_a).0

full-IsValid : IsValid tiers_full
unfolding tiers_full
full-IsValid = put_to_tier-IsValid kv_b ssd tiers_a (omega arith) tiers_a-IsValid

pressed : is_pressed tight ssd tiers_full ≡ true
unfolding tiers_full is_pressed used_bytes capacity_bytes used_or_zero capacity_or_zero put_to_tier
    put_or_false SsdBlockStore.put alloc_slot fill_slot write lookup
pressed = refl

some_block : 0 < length (snapshot ssd tiers_full)
unfolding tiers_full snapshot SsdBlockStore.snapshot snapshot_or_empty put_to_tier put_or_false
    SsdBlockStore.put alloc_slot fill_slot write lookup
some_block = omega arith

full_used : total_used tiers_full ≡ 4
unfolding tiers_full used_bytes used_or_zero put_to_tier put_or_false SsdBlockStore.put alloc_slot
    fill_slot write lookup
full_used = refl

ssd_pass_lem_example :
    let p = run_pass_for_tier tight ssd tiers_full hands_0 in
    All (λ id. stored id p.store ≡ none) p.evicted
    × (total_used p.store + p.result.bytes_freed ≡ total_used tiers_full)
    × ((total_used p.store
            + sub64 (used_bytes ssd tiers_full) (watermark (capacity_bytes ssd tiers_full) 0)
          ≤ total_used tiers_full)
        ⊎ All (λ id. stored id p.store ≡ none) (ids_of (snapshot ssd tiers_full)))
ssd_pass_lem_example =
    ssd_pass_lem tight tiers_full hands_0 full-IsValid (omega (arith, full_used)) pressed some_block

abbrev meta_a : BlockMeta
meta_a = record {
  id = block_a;
  tier = dram;
  size_bytes = 2;
  last_access_epoch = 0;
  insert_epoch = 0;
  visited = false;
}

abbrev walk_a : Walk
walk_a = record { store = tiers_a; blocks = meta_a ∷ []; hand = 0; freed_local = 0; evicted = [] }

two_used : total_used tiers_a ≡ 2
unfolding used_bytes used_or_zero
two_used = refl

walk_a-Balanced : Balanced 2 walk_a
walk_a-Balanced = record { valid = tiers_a-IsValid; balance = omega (arith, two_used) }

walk-Balanced_example : Balanced 2 (walk 2 ssd 1 walk_a)
walk-Balanced_example = walk-Balanced 2 2 1 walk_a (omega arith) walk_a-Balanced

no_hbm_a : copy hbm block_a tiers_a ≡ none
unfolding copy get_or_miss
no_hbm_a = refl

demotes_a : (demote block_a tiers_a).1 ≡ true
unfolding demote demote_dram copy put_to_tier get_or_miss put_or_false lookup BlockStore.get
    SsdBlockStore.put alloc_slot id_dec ℕ_discrete
demotes_a = refl

evict_again_example :
    let first = evict dram meta_a 0 walk_a in
    let again = evict dram meta_a 0 first in
    (stored block_a first.store ≡ stored block_a tiers_a)
    × (stored block_a again.store ≡ none)
    × (length again.evicted ≡ 2)
evict_again_example =
    evict_again content meta_a 0 0 walk_a tiers_a-IsValid tiers_a-Agrees no_hbm_a demotes_a

abbrev peer_1 : Bytes
peer_1 = 49 ∷ []

on_peer_eviction_lem_example :
    let after = on_peer_eviction (block_a ∷ []) peer_1 (λ p. []) in
    ((id : BlockId) → has_id id (block_a ∷ []) ≡ true → has_id id (after peer_1) ≡ true)
    × (peer_evicted_count after peer_1 ≤ per_peer_bound + 1)
    × ((q : Bytes) → q ≢ peer_1 → after q ≡ [])
on_peer_eviction_lem_example = on_peer_eviction_lem (block_a ∷ []) peer_1 (λ p. [])

-- A client that reads, writes, demotes and erases.
abbrev client : List Op
client =
    get_block block_a
    ∷ put_block kv_b hbm
    ∷ demote_block block_b
    ∷ get_block block_b
    ∷ erase_block block_a
    ∷ get_block block_a
    ∷ []

kv_b-IsLegal : IsLegal content kv_b
kv_b-IsLegal = record { small = omega arith; of_id = refl; some_bytes = payload-ne }

run-Runs_example :
    IsGood content (run client tiers_a).0
    × Runs (view tiers_a) (view (run client tiers_a).0) client (run client tiers_a).1
run-Runs_example =
    run-Runs content client tiers_a tiers_a-IsGood (tt, (kv_b-IsLegal, (tt, (tt, (tt, (tt, tt))))))
