-- ===== src/Tests/Running.antt =====
-- Running nodes and the calls between them at concrete values.
use mathlib.Core.List.{lookup}
use lethe.Base.{◌≡◌, ◌≢◌, refl, true, false, some, List, [], ◌∷◌, arith, ℕ_discrete}
use lethe.Types.{Bytes, BlockId, dram, bytes_dec, id_dec}
use lethe.Layer.Nullable.{put_or_false, used_or_zero, get_or_miss}
use lethe.BlockStore
use lethe.TieredStore.{copy, put_first, fallthrough, put_to_tier, used_bytes}
use lethe.TieredStore
use lethe.Service.{
  PbBlock, BlockChunk, block_from_proto, block_id_from_proto, block_id_to_proto, tier_of_hint,
  tier_code,
}
use lethe.Service
use lethe.Cache
use lethe.Evictor.{EvictionConfig}
use lethe.Cache.{LetheCache, store, insert_one}
use lethe.Node.{
  streamed, Node, Event, looked_up, inserted, heartbeat_heard, heartbeats_sent, judged, called,
  pushed, swept, drain_next, worked,
}
use lethe.Node.Handlers.{IsLegalBlock, IsLegalChunk}
use lethe.TieredStore.Refines.{get_block}
use lethe.Replicator.Scopes.{idle}
use lethe.Node.Runs.{IsLegalEvent}
use lethe.Membership.{Membership, all_peer_addresses}
use lethe.Evictor.Peers.{has_id}
use lethe.Evictor.Broadcast.{broadcast_evictions, served_call, Knows, broadcast_evictions_lem}
use lethe.Base.{All, Has, here}
use lethe.GrpcStream.{send, fetch, stub_for}
use lethe.GrpcStream.Served.{serve, Nodes, delivered, lost_response, served}
use lethe.GrpcStream.Delivery.{pushed_block, send_fetch}
use lethe.GrpcStream.Repeat.{send_again}
use lethe.Tests.Data.{block_b, kv_b, payload, content, tiers_a, tiers_a-IsGood}
use lethe.Tests.Caches.{cache_a, node_1, payload-ne}
use lethe.Tests.Nodes.{replicator_a, ring_12}

abbrev pb_b : PbBlock
pb_b = record {
  id = record { hash = 2 ∷ []; layer = 0; head_group = 0; model_id = 0 };
  kv_data = payload;
  tier_hint = 1;
}

abbrev chunk_b : BlockChunk
chunk_b = record { id = pb_b.id; payload = payload; purpose = 0 }

pb_b-IsLegalBlock : IsLegalBlock content pb_b
unfolding block_from_proto
pb_b-IsLegalBlock = record { small = omega arith; of_id = refl; some_bytes = payload-ne }

chunk_b-IsLegalChunk : IsLegalChunk content chunk_b
chunk_b-IsLegalChunk = record { small = omega arith; of_id = refl; some_bytes = payload-ne }

-- A node with an active round of one block, which the day pushes to the other peer.
abbrev draining_node : Node
draining_node = record {
  cache = record cache_a {
    cluster = record (cache_a.cluster) { router = ring_12; replicator = (replicator_a, tiers_a) };
  };
  hands = record { hand_hbm = 0; hand_dram = 0; hand_ssd = 0 };
  pass = idle;
}

abbrev watermarks : EvictionConfig
watermarks = record { high_watermark_pct = 90; low_watermark_pct = 80; broadcast_evictions = true }

abbrev pub busy_day : List Event
busy_day =
    inserted (pb_b ∷ [])
    ∷ looked_up (pb_b.id ∷ [])
    ∷ heartbeat_heard 5 (50 ∷ []) 0
    ∷ heartbeats_sent 10 (λ peer. true)
    ∷ judged 20
    ∷ streamed (chunk_b ∷ [])
    ∷ swept dram
    ∷ drain_next
    ∷ called (get_block block_b)
    ∷ drain_next
    ∷ pushed kv_b (50 ∷ 50 ∷ [])
    ∷ drain_next
    ∷ worked (λ task. false)
    ∷ []

pub busy_day-legal : All (IsLegalEvent content) busy_day
busy_day-legal = (
  (pb_b-IsLegalBlock, tt),
  (
    tt,
    (tt, (tt, (tt, ((chunk_b-IsLegalChunk, tt), (tt, (tt, (tt, (tt, (tt, (tt, (tt, tt))))))))))),
  ),
)

-- A block with a hash of 32 bytes, and a network of nodes like `cache_a`.
abbrev hash_7 : Bytes
hash_7 =
    7 ∷ 7 ∷ 7 ∷ 7 ∷ 7 ∷ 7 ∷ 7 ∷ 7 ∷ 7 ∷ 7 ∷ 7 ∷ 7 ∷ 7 ∷ 7 ∷ 7 ∷ 7 ∷ 7 ∷ 7 ∷ 7 ∷ 7 ∷ 7 ∷ 7 ∷ 7 ∷ 7
    ∷ 7 ∷ 7 ∷ 7 ∷ 7 ∷ 7 ∷ 7 ∷ 7 ∷ 7 ∷ []

abbrev pub block_7 : BlockId
block_7 = record { hash = hash_7; layer = 3; head_group = 1; model_id = 9 }

abbrev nodes : Nodes
nodes address = cache_a

abbrev peers : List (Bytes × Bytes)
peers = (node_1, 58 ∷ []) ∷ []

knows : stub_for node_1 peers ≡ some (58 ∷ [])
unfolding stub_for lookup bytes_dec ℕ_discrete
knows = refl

sent_7 : (send (served delivered) node_1 block_7 payload peers nodes).1 ≡ true
unfolding serve send stub_for Service.insert block_from_proto block_id_from_proto block_id_to_proto
    tier_of_hint tier_code Cache.insert insert_one TieredStore.put put_first fallthrough put_to_tier
    put_or_false used_bytes used_or_zero BlockStore.put lookup id_dec bytes_dec ℕ_discrete
sent_7 = refl

send_fetch_example :
    let nodes' = (send (served delivered) node_1 block_7 payload peers nodes).0 in
    ((fetch (served delivered) node_1 block_7 peers nodes').1 ≡ some (pushed_block block_7 payload))
    × ((other : Bytes) → other ≢ (58 ∷ []) → nodes' other ≡ nodes other)
send_fetch_example =
    send_fetch content node_1 (58 ∷ []) block_7 payload peers nodes refl knows delivered
      tiers_a-IsGood (record { small = omega arith; of_id = refl; some_bytes = payload-ne }) sent_7

-- The network after the push.
abbrev nodes_7 : Nodes
nodes_7 = (send (served delivered) node_1 block_7 payload peers nodes).0

held_7 : copy dram block_7 (store (nodes_7 (58 ∷ []))) ≡ some payload
unfolding serve send stub_for Service.insert block_from_proto block_id_from_proto block_id_to_proto
    tier_of_hint tier_code Cache.insert insert_one TieredStore.put put_first fallthrough put_to_tier
    put_or_false used_bytes used_or_zero BlockStore.put lookup id_dec bytes_dec ℕ_discrete copy
    get_or_miss BlockStore.get
held_7 = refl

send_again_example :
    let r = send (served lost_response) node_1 block_7 payload peers nodes_7 in
    (r.1 ≡ false) × ((a : Bytes) → r.0 a ≡ nodes_7 a)
send_again_example =
    send_again node_1 (58 ∷ []) block_7 payload payload peers nodes_7 refl knows held_7
      lost_response

-- A node that sees one peer.
abbrev two_nodes : Membership
two_nodes = record {
  cfg = record { suspect_after = 1000; dead_after = 3000 };
  local_node_id = 51 ∷ [];
  peers =
      (
        node_1,
        record {
          node_id = node_1;
          address = 58 ∷ [];
          last_seen = 0;
          last_seen_epoch = 0;
          suspected = false;
          alive = true;
          ever_seen = true;
        },
      )
      ∷ [];
  epoch = 0;
}

names_7 : has_id block_7 (block_7 ∷ []) ≡ true
unfolding has_id id_dec ℕ_discrete
names_7 = refl

listed_58 : Has (58 ∷ []) (all_peer_addresses two_nodes.peers)
unfolding all_peer_addresses
listed_58 = here []

broadcast_evictions_lem_example :
    let nodes' =
      broadcast_evictions (served_call (λ a. lost_response)) (block_7 ∷ []) two_nodes nodes in
    Knows block_7 (51 ∷ []) (nodes' (58 ∷ [])) × ((a : Bytes) → store (nodes' a) ≡ store (nodes a))
broadcast_evictions_lem_example =
    broadcast_evictions_lem (λ a. lost_response) (block_7 ∷ []) two_nodes nodes block_7 (58 ∷ [])
      names_7 (refl, tt) listed_58 (λ e. cc)
