-- ===== src/Tests/Nodes.antt =====
-- The ring, the failure detector and the replicator at concrete values. The digest of a key is
-- its length here.
use mathlib.Core.List.{lookup}
use native.Mathlib.Nat.{mod-lt}
use lethe.Base.{
  ℕ, ◌+◌, ◌-◌, ◌%◌, ◌≡◌, ◌≢◌, ◌<◌, ◌≤◌, refl, ap, true, false, not, ◌&&◌, none, some, List, [], ◌∷◌,
  arith, length, ℕ_discrete, ltb, u64_mod,
}
use lethe.Base.Assoc.{IsMap}
use lethe.Types.{Bytes, bytes_dec}
use lethe.Router.{
  Router, route, hash_block, peer_at, contains, search_ring, le_number, pick, picked_peers,
}
use lethe.Router.Ring.{IsRing, AreBytes}
use lethe.Router.Route.{IsReplicaSet, IsNearest, targets, route-IsReplicaSet, route_primary}
use lethe.Membership.{Cluster, PeerInfo, evaluate_suspicions, on_heartbeat, alive_ids}
use lethe.Membership.View.{
  InSync, on_heartbeat-InSync, on_heartbeat_unknown, evaluate_suspicions_exact,
}
use lethe.Replicator.{Replicator, drain, drain_targets, other_peers, replication_queue_max}
use lethe.Replicator.Round.{Advances}
use lethe.Replicator.Drain.{drain-Advances}
use lethe.Replicator.Trigger.{IsOurs, trigger_covers}
use lethe.Replicator.{trigger}
use lethe.Base.{Has}
use lethe.Replicator.Completes.{ticks, round_completes}
use lethe.Replicator.{no_id}
use lethe.Base.{get_or, zero, suc}
use lethe.Replicator.Store.{tiered_source, tiered_laws}
use lethe.Tests.Data.{block_a, content, tiers_a, tiers_a-IsGood}

abbrev pub digest : Bytes → Bytes
digest key = (length key % 256) ∷ []

pub digest-AreBytes : (key : Bytes) → AreBytes (digest key)
digest-AreBytes key = (mod-lt (length key) (omega arith), tt)

abbrev node_1 : Bytes
node_1 = 49 ∷ []

abbrev node_2 : Bytes
node_2 = 50 ∷ 50 ∷ []

-- A ring of two nodes, with one entry each.
abbrev pub ring_12 : Router
ring_12 = record {
  local_node_id = node_1;
  vnodes_per_peer = 1;
  replication_factor = 2;
  peers = node_1 ∷ node_2 ∷ [];
  ring = record { hash = 3; peer_idx = 0 } ∷ record { hash = 4; peer_idx = 1 } ∷ [];
}

pub ring_12-IsRing : IsRing ring_12
ring_12-IsRing = record {
  sorted = ((omega arith, tt), (tt, tt));
  entries = (
    record { hash_bound = omega arith; idx_bound = omega arith },
    (record { hash_bound = omega arith; idx_bound = omega arith }, tt),
  );
  size = refl;
}

route-IsReplicaSet_example : IsReplicaSet ring_12 (targets (route ring_12 block_a))
route-IsReplicaSet_example = route-IsReplicaSet ring_12 block_a (omega arith) (omega arith)

hash_a : hash_block block_a < u64_mod
unfolding hash_block le_number
hash_a = omega arith

route_primary_example :
    (pos : ℕ) × IsNearest ring_12 (hash_block block_a) pos
    × ((route ring_12 block_a).primary ≡ peer_at ring_12 pos)
route_primary_example =
    route_primary ring_12 block_a ring_12-IsRing (omega arith) (omega arith) hash_a

abbrev info_2 : PeerInfo
info_2 = record {
  node_id = node_2;
  address = 58 ∷ [];
  last_seen = 100;
  last_seen_epoch = 0;
  suspected = false;
  alive = true;
  ever_seen = true;
}

-- This node and a peer that was heard of at time 100.
abbrev pair : Cluster ℕ
pair = record {
  membership = record {
    cfg = record { suspect_after = 1000; dead_after = 3000 };
    local_node_id = node_1;
    peers = (node_2, info_2) ∷ [];
    epoch = 0;
  };
  router = ring_12;
  replicator = 0;
}

-- A replicator that counts its rounds.
abbrev count : Router → List Bytes → ℕ → ℕ
count r lost n = n + 1

pair-InSync : InSync pair
unfolding alive_ids
pair-InSync = refl

pair-IsMap : IsMap bytes_dec pair.membership.peers
unfolding lookup
pair-IsMap = (refl, tt)

known_2 : lookup bytes_dec node_2 pair.membership.peers ≡ some info_2
unfolding lookup bytes_dec ℕ_discrete
known_2 = refl

unknown_3 : lookup bytes_dec (51 ∷ []) pair.membership.peers ≡ none
unfolding lookup bytes_dec ℕ_discrete
unknown_3 = refl

on_heartbeat-InSync_example : InSync (on_heartbeat digest count 5000 node_2 pair).0
on_heartbeat-InSync_example =
    on_heartbeat-InSync digest count 5000 node_2 pair info_2 known_2 pair-InSync

on_heartbeat_unknown_example :
    let c' = (on_heartbeat digest count 5000 (51 ∷ []) pair).0 in
    (alive_ids c'.membership.peers ≡ (51 ∷ []) ∷ alive_ids pair.membership.peers)
    × (c'.router ≡ ring_12)
    × (c'.membership.epoch ≡ 0)
on_heartbeat_unknown_example = on_heartbeat_unknown digest count 5000 (51 ∷ []) pair unknown_3

other_node : node_2 ≢ node_1
other_node e = cc

evaluate_suspicions_exact_example :
    contains node_2 (evaluate_suspicions digest count 5000 pair).router.peers
    ≡ not (true && ltb 3000 (5000 - 100))
evaluate_suspicions_exact_example =
    evaluate_suspicions_exact digest count 5000 node_2 pair info_2 pair-IsMap pair-InSync known_2
      refl other_node

-- A round of one block that is about to start.
abbrev pub replicator_a : Replicator
replicator_a = record {
  local_node_id = node_1;
  queue = [];
  overflow_drops = 0;
  replicate_attempts = 0;
  replicate_failures = 0;
  rerep_round = block_a ∷ [];
  rerep_cursor = 0;
  rerep_active = true;
}

drain-Advances_example :
    Advances tiered_source
      (tiered_laws content)
      ring_12
      replicator_a
      tiers_a
      (drain tiered_source ring_12 replicator_a tiers_a).0
      (drain tiered_source ring_12 replicator_a tiers_a).1
drain-Advances_example =
    drain-Advances tiered_source (tiered_laws content) ring_12 replicator_a tiers_a (omega arith)
      (omega arith) tiers_a-IsGood

-- The only other member of the route is the second node.
targets_a : drain_targets node_1 (route ring_12 block_a) ≡ node_2 ∷ []
unfolding drain_targets other_peers route picked_peers pick search_ring hash_block le_number
    contains bytes_dec ℕ_discrete
targets_a = refl

room_a : 0 + length (drain_targets node_1 (route ring_12 block_a)) ≤ replication_queue_max
room_a = omega (arith, ap (λ (l : List Bytes). length l) targets_a)

fits_a :
    (i : ℕ)
    → i < 1
    → length (drain_targets node_1 (route ring_12 (get_or (block_a ∷ []) i no_id)))
      ≤ replication_queue_max
fits_a zero h = omega (arith, room_a)
fits_a (suc i) h = absurd (omega (arith, h))

round_completes_example :
    let r' = (ticks tiered_source ring_12 (λ task. true) 1 replicator_a tiers_a).0 in
    (r'.rerep_active ≡ false) × (r'.rerep_cursor ≡ 1) × (r'.rerep_round ≡ block_a ∷ [])
round_completes_example =
    round_completes tiered_source (tiered_laws content) ring_12 (λ task. true) 1 replicator_a
      tiers_a tiers_a-IsGood refl (omega arith) fits_a (omega arith)

trigger_covers_example :
    let round = (trigger tiered_source ring_12 (node_2 ∷ []) replicator_a tiers_a).0.rerep_round in
    (Has block_a round → IsOurs tiered_source (tiered_laws content) ring_12 node_1 tiers_a block_a)
    × (IsOurs tiered_source (tiered_laws content) ring_12 node_1 tiers_a block_a
        → Has block_a round)
trigger_covers_example =
    trigger_covers tiered_source (tiered_laws content) ring_12 (node_2 ∷ []) replicator_a tiers_a
      block_a refl (omega arith) tiers_a-IsGood
