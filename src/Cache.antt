-- ===== src/Cache.antt =====
-- cache_server/src/cache.cpp: the facade that the RPC handlers call. The subsystems are all
-- there, as after the constructor; metrics, traces and the transport are left out. Of the evictor
-- the facade's calls touch what peers said that they evicted. `Replicator`
-- and the tiered store, which it reads, are the part of the cluster that `Membership` triggers.
pub mod Reports
pub mod Lookups
pub mod Keeps
use lethe.Base.{
  ℕ, zero, suc, ◌+◌, ◌%◌, ◌^◌, Bool, true, false, not, ◌&&◌, ◌||◌, List, [], ◌∷◌, ltb, ite,
  if◌then◌else◌, Option, none, some, u64_mod,
}
use lethe.Types.{
  Bytes, bytes_dec, BlockId, KvBlock, Tier, hbm, dram, ssd, HeartbeatReply, StaticPeer,
  StreamPurpose,
}
use lethe.Router.{Router, set_peers, route, is_nil}
use lethe.TieredStore.{TieredStore, GetResult, used_bytes}
use lethe.TieredStore
use lethe.Replicator.{Replicator, replicate_out, trigger}
use lethe.Replicator.Store.{tiered_source}
use lethe.Membership.{Cluster, Membership}
use lethe.Membership
use lethe.Evictor.Peers.{on_peer_eviction}

pub record LetheCache : Type 0 where
  pub node_id : Bytes
  pub cluster : Cluster (Replicator × TieredStore)
  pub peer_evicted : Bytes → List BlockId

abbrev pub store : LetheCache → TieredStore
store c = c.cluster.replicator.1

abbrev pub with_store : TieredStore → LetheCache → LetheCache
with_store t c = record c {
  cluster = record (c.cluster) { replicator = (c.cluster.replicator.0, t) };
}

pub data Where : Type 0 where
  local_hit remote_hit miss : Where

-- `LookupResult::Entry`.
pub record Entry : Type 0 where
  pub id : BlockId
  pub place : Where
  pub remote_node : Option Bytes
  pub tier : Tier
  pub local_data : Bytes

pub record LookupResult : Type 0 where
  pub entries : List Entry
  pub hit_count : ℕ
  pub miss_count : ℕ

-- The peer list that the constructor gives to the router: this node, then the other seeds.
unfoldable pub seed_ids : Bytes → List StaticPeer → List Bytes
seed_ids node_id [] = []
seed_ids node_id (p ∷ ps) =
    ite (bytes_dec p.node_id node_id) (seed_ids node_id ps) (p.node_id ∷ seed_ids node_id ps)

unfoldable pub initial_router : (Bytes → Bytes) → Bytes → ℕ → ℕ → List StaticPeer → Router
unfolding seed_ids
initial_router blake3 node_id vnodes replication seeds =
    set_peers blake3 (node_id ∷ seed_ids node_id seeds) (record {
      local_node_id = node_id;
      vnodes_per_peer = vnodes;
      replication_factor = replication;
      peers = [];
      ring = [];
    })

-- The entry of a block that the local store does not have.
unfoldable pub routed_entry : LetheCache → BlockId → Entry
routed_entry c id =
    let primary = (route (c.cluster.router) id).primary in
    if is_nil primary || ite (bytes_dec primary (c.node_id)) true false
    then record { id = id; place = miss; remote_node = none; tier = dram; local_data = [] }
    else record {
      id = id;
      place = remote_hit;
      remote_node = some primary;
      tier = dram;
      local_data = [];
    }

-- The body of the loop of `Lookup`.
unfoldable pub lookup_one : BlockId → LetheCache → LetheCache × Entry
lookup_one id c =
    let got = TieredStore.get id (store c) in
    (
      with_store got.0 c,
      elim (got.1) [
        | some found ↦ record {
          id = id;
          place = local_hit;
          remote_node = none;
          tier = found.tier_found;
          local_data = found.bytes;
        }
        | none ↦ routed_entry c id
      ],
    )

abbrev pub is_hit : Where → Bool
is_hit local_hit = true
is_hit remote_hit = true
is_hit miss = false

-- `++result.hit_count` or `++result.miss_count`, which are `uint32_t`.
abbrev pub count_entry : Entry → LookupResult → LookupResult
count_entry e res = record {
  entries = e ∷ res.entries;
  hit_count = if is_hit e.place then (res.hit_count + 1) % 2 ^ 32 else res.hit_count;
  miss_count = if is_hit e.place then res.miss_count else (res.miss_count + 1) % 2 ^ 32;
}

unfoldable pub lookup : List BlockId → LetheCache → LetheCache × LookupResult
lookup [] c = (c, record { entries = []; hit_count = 0; miss_count = 0 })
lookup (id ∷ ids) c =
    let first = lookup_one id c in
    let rest = lookup ids first.0 in (rest.0, count_entry first.1 rest.1)

-- `total_used` of `Insert`.
abbrev pub total_used : TieredStore → ℕ
total_used t = (used_bytes hbm t + used_bytes dram t + used_bytes ssd t) % u64_mod

abbrev pub has_landed : Option Tier → Bool
has_landed (some tier) = true
has_landed none = false

-- The body of the loop of `Insert`.
unfoldable pub insert_one : KvBlock → LetheCache → LetheCache × Bool
insert_one block c =
    let put = TieredStore.put block (block.tier) (store c) in
    let pushed = replicate_out (c.cluster.router) block (c.cluster.replicator.0) in
    if has_landed put.1 && ltb (total_used (store c)) (total_used put.0)
    then (record c { cluster = record (c.cluster) { replicator = (pushed.0, put.0) } }, true)
    else (with_store put.0 c, false)

-- `Insert`; the count is a `uint32_t`.
unfoldable pub insert : List KvBlock → ℕ → LetheCache → LetheCache × ℕ
insert [] accepted c = (c, accepted)
insert (block ∷ blocks) accepted c =
    let one = insert_one block c in
    insert blocks (if one.1 then (accepted + 1) % 2 ^ 32 else accepted) one.0

unfoldable pub fetch_local : BlockId → LetheCache → LetheCache × Option (Bytes × Tier)
fetch_local id c =
    let got = TieredStore.get id (store c) in
    (
      with_store got.0 c,
      elim (got.1) [ some found ↦ some (found.bytes, found.tier_found) | none ↦ none ],
    )

unfoldable pub ingest_streamed_block : BlockId → Bytes → StreamPurpose → LetheCache → LetheCache
ingest_streamed_block id payload purpose c =
    let block : KvBlock = record {
      id = id;
      bytes = payload;
      tier = dram;
      inserted_epoch = c.cluster.membership.epoch;
    } in
    with_store (TieredStore.put block dram (store c)).0 c

-- The call of `TriggerReReplication` that a change of membership makes.
abbrev pub rereplicate : Router → List Bytes → Replicator × TieredStore → Replicator × TieredStore
rereplicate router lost (r, t) = trigger tiered_source router lost r t

unfoldable pub on_heartbeat :
    (Bytes → Bytes) → ℕ → Bytes → ℕ → LetheCache → LetheCache × HeartbeatReply
on_heartbeat blake3 now peer_id peer_epoch c =
    let res = Membership.on_heartbeat blake3 rereplicate now peer_id (c.cluster) in
    (record c { cluster = res.0 }, res.1)

unfoldable pub on_evict_broadcast : List BlockId → Bytes → LetheCache → LetheCache
on_evict_broadcast evicted source c = record c {
  peer_evicted = on_peer_eviction evicted source c.peer_evicted;
}
