-- ===== src/Node/Clusters.antt =====
-- What a change of membership keeps of a node.
use lethe.Base.{ℕ, Bool, true, false, List, [], ◌∷◌, if◌then◌else◌, Bool-cases, inl, inr}
use mathlib.Core.List.{lookup}
use lethe.Types.{Bytes, bytes_dec, BlockId}
use lethe.TieredStore.{TieredStore}
use lethe.Router.{Router, set_peers, is_nil}
use lethe.Router.Ring.{IsRing, AreBytes, set_peers-IsRing}
use lethe.Replicator.{Replicator}
use lethe.Membership.{
  Cluster, Membership, alive_ids, update, emplace, unknown_peer, is_dead, note_replies,
  heartbeat_targets, judge_all, newly_dead, on_membership_change, send_heartbeats,
  evaluate_suspicions, heartbeat_round,
}
use lethe.Membership
use lethe.Cache.{rereplicate}
use lethe.Node.Keeps.{IsSettled}

-- The node's part of the cluster: the ring is well formed, and the replicator and store are settled.
pub record IsSound (content : BlockId → Bytes) (slack cap : ℕ)
    (c : Cluster (Replicator × TieredStore)) : Type 0 where
  pub ring : IsRing c.router
  pub settled : IsSettled content slack cap c.replicator

-- The call of `TriggerReReplication` that a change of membership makes keeps the replicator settled.
abbrev pub Calls :
    (BlockId → Bytes)
    → ℕ
    → ℕ
    → (Router → List Bytes → Replicator × TieredStore → Replicator × TieredStore)
    → Type 0
Calls content slack cap rereplicate =
    (router : Router) (lost : List Bytes) (x : Replicator × TieredStore)
    → IsSettled content slack cap x
    → IsSettled content slack cap (rereplicate router lost x)

module _ (content : BlockId → Bytes) (slack cap : ℕ) (blake3 : Bytes → Bytes)
    (digests : (key : Bytes) → AreBytes (blake3 key)) where
  none_lost-IsSound :
      (rereplicate : Router → List Bytes → Replicator × TieredStore → Replicator × TieredStore)
      (c : Cluster (Replicator × TieredStore))
      → IsSettled content slack cap c.replicator
      → IsSound content slack cap (on_membership_change blake3 rereplicate [] c)
  unfolding on_membership_change
  none_lost-IsSound rereplicate c s =
      let m = c.membership in
      record {
        ring = set_peers-IsRing blake3 digests (m.local_node_id ∷ alive_ids m.peers) c.router;
        settled = s;
      }

  on_membership_change-IsSound :
      (rereplicate : Router → List Bytes → Replicator × TieredStore → Replicator × TieredStore)
      (lost : List Bytes) (c : Cluster (Replicator × TieredStore))
      → Calls content slack cap rereplicate
      → IsSettled content slack cap c.replicator
      → IsSound content slack cap (on_membership_change blake3 rereplicate lost c)
  unfolding on_membership_change
  on_membership_change-IsSound rereplicate lost c keeps s =
      let m = c.membership in
      let router = set_peers blake3 (m.local_node_id ∷ alive_ids m.peers) c.router in
      record {
        ring = set_peers-IsRing blake3 digests (m.local_node_id ∷ alive_ids m.peers) c.router;
        settled = elim (Bool-cases (is_nil lost)) [
          | inl nobody ↦ rw nobody s
          | inr somebody ↦ rw somebody (keeps router lost c.replicator s)
        ];
      }

  either-IsSound :
      (b : Bool) (c d : Cluster (Replicator × TieredStore))
      → IsSound content slack cap c
      → IsSound content slack cap d
      → IsSound content slack cap (if b then c else d)
  either-IsSound true c d s t = s
  either-IsSound false c d s t = t

  pub send_heartbeats-IsSound :
      (now : ℕ) (replied : Bytes → Bool) (c : Cluster (Replicator × TieredStore))
      → IsSound content slack cap c
      → IsSound content slack cap (send_heartbeats blake3 rereplicate now replied c)
  unfolding send_heartbeats
  send_heartbeats-IsSound now replied c s =
      let m = c.membership in
      let noted = note_replies now m.epoch replied (heartbeat_targets m m.peers) m.peers in
      let kept = record c { membership = record m { peers = noted.0 } } in
      either-IsSound noted.1 (on_membership_change blake3 rereplicate [] kept) kept
        (none_lost-IsSound rereplicate kept s.settled)
        (record { ring = s.ring; settled = s.settled })

  pub evaluate_suspicions-IsSound :
      (rereplicate : Router → List Bytes → Replicator × TieredStore → Replicator × TieredStore)
      (now : ℕ) (c : Cluster (Replicator × TieredStore))
      → Calls content slack cap rereplicate
      → IsSound content slack cap c
      → IsSound content slack cap (evaluate_suspicions blake3 rereplicate now c)
  unfolding evaluate_suspicions
  evaluate_suspicions-IsSound rereplicate now c keeps s =
      let m = c.membership in
      let lost = newly_dead m now m.peers in
      let judged = record c { membership = record m { peers = judge_all m now m.peers } } in
      either-IsSound (is_nil lost) judged (on_membership_change blake3 rereplicate lost judged)
        (record { ring = s.ring; settled = s.settled })
        (on_membership_change-IsSound rereplicate lost judged keeps s.settled)

  pub on_heartbeat-IsSound :
      (now : ℕ) (id : Bytes) (c : Cluster (Replicator × TieredStore))
      → IsSound content slack cap c
      → IsSound content slack cap (Membership.on_heartbeat blake3 rereplicate now id c).0
  unfolding Membership.on_heartbeat
  on_heartbeat-IsSound now id c s =
      elim (Bool-cases
        (is_dead (lookup bytes_dec id (emplace id (unknown_peer id) c.membership.peers)))) [
          | inl dead ↦ simp dead (none_lost-IsSound rereplicate _ s.settled)
          | inr alive ↦ simp alive (record { ring = s.ring; settled = s.settled })
        ]
