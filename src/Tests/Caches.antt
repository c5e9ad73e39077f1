-- ===== src/Tests/Caches.antt =====
-- The facade at concrete values.
use mathlib.Core.List.{lookup}
use lethe.Base.{◌≡◌, ◌≢◌, refl, true, false, some, [], ◌∷◌, arith, ℕ_discrete}
use lethe.Types.{Bytes, BlockId, Tier, id_dec}
use lethe.Layer.Nullable.{put_or_false, used_or_zero}
use lethe.BlockStore
use lethe.TieredStore.{put_to_tier, put_first, fallthrough, used_bytes}
use lethe.TieredStore
use lethe.TieredStore.Stored.{stored}
use lethe.Cache.{LetheCache, Entry, LookupResult, store, insert_one, fetch_local}
use lethe.Cache
use lethe.Cache.Lookups.{insert_fetch}
use lethe.Tests.Data.{block_b, kv_b, payload, content, tiers_a, tiers_a-IsGood}

abbrev pub node_1 : Bytes
node_1 = 49 ∷ []

-- A node on its own, whose DRAM has one block.
abbrev pub cache_a : LetheCache
cache_a = record {
  node_id = node_1;
  cluster = record {
    membership = record {
      cfg = record { suspect_after = 1000; dead_after = 3000 };
      local_node_id = node_1;
      peers = [];
      epoch = 0;
    };
    router = record {
      local_node_id = node_1;
      vnodes_per_peer = 1;
      replication_factor = 2;
      peers = node_1 ∷ [];
      ring = record { hash = 3; peer_idx = 0 } ∷ [];
    };
    replicator = (
      record {
        local_node_id = node_1;
        queue = [];
        overflow_drops = 0;
        replicate_attempts = 0;
        replicate_failures = 0;
        rerep_round = [];
        rerep_cursor = 0;
        rerep_active = false;
      },
      tiers_a,
    );
  };
  peer_evicted = λ peer. [];
}

pub payload-ne : payload ≢ []
payload-ne e = cc

inserts_b : (insert_one kv_b cache_a).1 ≡ true
unfolding insert_one TieredStore.put put_first fallthrough put_to_tier put_or_false used_bytes
    used_or_zero BlockStore.put lookup id_dec ℕ_discrete
inserts_b = refl

insert_fetch_example :
    ((tier : Tier) × ((fetch_local block_b (insert_one kv_b cache_a).0).1 ≡ some (payload, tier)))
    × ((j : BlockId)
        → j ≢ block_b
        → stored j (store (insert_one kv_b cache_a).0) ≡ stored j tiers_a)
insert_fetch_example =
    insert_fetch content kv_b cache_a tiers_a-IsGood (omega arith) refl payload-ne inserts_b
