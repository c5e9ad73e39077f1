-- ===== src/Membership.antt =====
-- cache_server/src/membership.cpp: heartbeats, the failure detector and the epoch of the cluster.
-- Time is a number of ticks of the steady clock, the reply of a peer to a heartbeat is a parameter, and so is
-- the replicator, of which `OnMembershipChange` calls one operation. `peers_` is an association
-- list, whose order stands for the order of the map's iterator. Threads, locks, the metrics and
-- the log are left out: each operation holds the lock for its whole effect on `peers_`.
pub mod View
use lethe.Base.{
  ℕ, zero, suc, ◌+◌, ◌-◌, ◌%◌, Bool, true, false, not, ◌&&◌, ◌||◌, List, [], ◌∷◌, ◌++◌, ltb, ite,
  if◌then◌else◌, Option, none, some, u64_mod,
}
use mathlib.Core.List.{lookup}
use lethe.Types.{Bytes, bytes_dec, StaticPeer, PeerStatus, HeartbeatReply}
use lethe.Router.{Router, set_peers, is_nil}

pub record PeerInfo : Type 0 where
  pub node_id : Bytes
  pub address : Bytes
  pub last_seen : ℕ
  pub last_seen_epoch : ℕ
  pub suspected : Bool
  pub alive : Bool
  pub ever_seen : Bool

pub record MembershipConfig : Type 0 where
  pub suspect_after : ℕ
  pub dead_after : ℕ

pub record Membership : Type 0 where
  pub cfg : MembershipConfig
  pub local_node_id : Bytes
  pub peers : List (Bytes × PeerInfo)
  pub epoch : ℕ

-- The membership with the subsystems that it calls.
pub record Cluster (R : Type 0) : Type 0 where
  pub membership : Membership
  pub router : Router
  pub replicator : R

abbrev pub is_local : Membership → Bytes → Bool
is_local m id = ite (bytes_dec id m.local_node_id) true false

-- `emplace`: a key that is there keeps its value.
unfoldable pub emplace : Bytes → PeerInfo → List (Bytes × PeerInfo) → List (Bytes × PeerInfo)
emplace id info peers = elim (lookup bytes_dec id peers) [
  | some old ↦ peers
  | none ↦ (id, info) ∷ peers
]

unfoldable pub add_seeds : ℕ → List StaticPeer → List (Bytes × PeerInfo) → List (Bytes × PeerInfo)
unfolding emplace
add_seeds now [] peers = peers
add_seeds now (peer ∷ seeds) peers = add_seeds now seeds (
    emplace peer.node_id
      (record {
        node_id = peer.node_id;
        address = peer.address;
        last_seen = now;
        last_seen_epoch = 0;
        suspected = false;
        alive = true;
        ever_seen = false;
      })
      peers)

-- The constructor.
unfoldable pub make : MembershipConfig → Bytes → List StaticPeer → ℕ → Membership
unfolding add_seeds
make cfg local_node_id seeds now = record {
  cfg = cfg;
  local_node_id = local_node_id;
  peers = add_seeds now seeds [];
  epoch = 0;
}

-- `BumpEpochForTesting`.
unfoldable pub bump_epoch : Membership → Membership
bump_epoch m = record m { epoch = (m.epoch + 1) % u64_mod }

-- The identifiers of the entries that are alive.
unfoldable pub alive_ids : List (Bytes × PeerInfo) → List Bytes
alive_ids [] = []
alive_ids ((id, info) ∷ l) = if info.alive then id ∷ alive_ids l else alive_ids l

-- `AlivePeers`.
unfoldable pub alive_peers : List (Bytes × PeerInfo) → List Bytes
alive_peers [] = []
alive_peers ((id, info) ∷ l) = if info.alive then info.node_id ∷ alive_peers l else alive_peers l

unfoldable pub all_peer_addresses : List (Bytes × PeerInfo) → List Bytes
all_peer_addresses [] = []
all_peer_addresses ((id, info) ∷ l) =
    if is_nil info.address || not info.alive
    then all_peer_addresses l
    else info.address ∷ all_peer_addresses l

-- The list that `OnHeartbeat` replies with.
unfoldable pub statuses : List (Bytes × PeerInfo) → List PeerStatus
statuses [] = []
statuses ((id, info) ∷ l) =
    if info.alive
    then record {
      node_id = info.node_id;
      last_seen_epoch = info.last_seen_epoch;
      suspected = info.suspected;
    }
      ∷ statuses l
    else statuses l

-- The entry of a peer that was heard of.
abbrev pub heard : ℕ → ℕ → PeerInfo → PeerInfo
heard now epoch info = record info {
  last_seen = now;
  last_seen_epoch = epoch;
  suspected = false;
  alive = true;
  ever_seen = true;
}

-- An update of the value of one key.
unfoldable pub update :
    (PeerInfo → PeerInfo) → Bytes → List (Bytes × PeerInfo) → List (Bytes × PeerInfo)
update f id [] = []
update f id ((k, info) ∷ l) = ite (bytes_dec id k) ((k, f info) ∷ l) ((k, info) ∷ update f id l)

abbrev pub is_dead : Option PeerInfo → Bool
is_dead (some info) = not info.alive
is_dead none = false

-- The peers to which `SendHeartbeatsToAllPeers` sends.
unfoldable pub heartbeat_targets : Membership → List (Bytes × PeerInfo) → List Bytes
heartbeat_targets m [] = []
heartbeat_targets m ((id, info) ∷ l) =
    if is_local m id || is_nil info.address
    then heartbeat_targets m l
    else id ∷ heartbeat_targets m l

-- The update after the replies: the entries, and whether a peer came back.
unfoldable pub note_replies :
    ℕ → ℕ → (Bytes → Bool) → List Bytes → List (Bytes × PeerInfo) → List (Bytes × PeerInfo) × Bool
unfolding update
note_replies now epoch replied [] peers = (peers, false)
note_replies now epoch replied (id ∷ ids) peers =
    let (rest, back) =
      note_replies now epoch replied ids
        (if replied id then update (heard now epoch) id peers else peers) in
    (rest, (replied id && is_dead (lookup bytes_dec id peers)) || back)

-- What `EvaluateSuspicions` makes of one entry.
unfoldable pub judge : Membership → ℕ → Bytes → PeerInfo → PeerInfo
judge m now id info =
    if is_local m id || not info.alive || not info.ever_seen
    then info
    else (if ltb m.cfg.dead_after (now - info.last_seen)
        then record info { alive = false; suspected = true }
        else record info { suspected = ltb m.cfg.suspect_after (now - info.last_seen) })

unfoldable pub judge_all : Membership → ℕ → List (Bytes × PeerInfo) → List (Bytes × PeerInfo)
unfolding judge
judge_all m now [] = []
judge_all m now ((id, info) ∷ l) = (id, judge m now id info) ∷ judge_all m now l

-- The peers that `EvaluateSuspicions` declares dead.
unfoldable pub newly_dead : Membership → ℕ → List (Bytes × PeerInfo) → List Bytes
unfolding judge
newly_dead m now [] = []
newly_dead m now ((id, info) ∷ l) =
    if info.alive && not (judge m now id info).alive
    then id ∷ newly_dead m now l
    else newly_dead m now l

-- The entry that `try_emplace` makes of a peer that is not known.
abbrev pub unknown_peer : Bytes → PeerInfo
unknown_peer id = record {
  node_id = id;
  address = [];
  last_seen = 0;
  last_seen_epoch = 0;
  suspected = false;
  alive = true;
  ever_seen = false;
}

-- The operations that call the router and the replicator.
module _ {R : Type 0} (blake3 : Bytes → Bytes) (trigger : Router → List Bytes → R → R) where
  unfoldable pub on_membership_change : List Bytes → Cluster R → Cluster R
  unfolding alive_ids
  on_membership_change lost c =
      let m = c.membership in
      let router = set_peers blake3 (m.local_node_id ∷ alive_ids m.peers) c.router in
      record {
        membership = record m { epoch = (m.epoch + 1) % u64_mod };
        router = router;
        replicator = if is_nil lost then c.replicator else trigger router lost c.replicator;
      }

  -- `SendHeartbeatsToAllPeers`; `replied` are the peers that answer in time.
  unfoldable pub send_heartbeats : ℕ → (Bytes → Bool) → Cluster R → Cluster R
  unfolding note_replies heartbeat_targets on_membership_change
  send_heartbeats now replied c =
      let m = c.membership in
      let (peers, back) = note_replies now m.epoch replied (heartbeat_targets m m.peers) m.peers in
      let noted : Cluster R = record c { membership = record m { peers = peers } } in
      if back then on_membership_change [] noted else noted

  -- `EvaluateSuspicions`, and the change of membership that the loop makes of its result.
  unfoldable pub evaluate_suspicions : ℕ → Cluster R → Cluster R
  unfolding judge_all newly_dead on_membership_change
  evaluate_suspicions now c =
      let m = c.membership in
      let lost = newly_dead m now m.peers in
      let judged : Cluster R = record c {
        membership = record m { peers = judge_all m now m.peers };
      } in
      if is_nil lost then judged else on_membership_change lost judged

  -- One round of `HeartbeatLoop`: the replies come at `heard_at`, the evaluation is at `now`.
  unfoldable pub heartbeat_round : ℕ → ℕ → (Bytes → Bool) → Cluster R → Cluster R
  unfolding send_heartbeats evaluate_suspicions
  heartbeat_round heard_at now replied c =
      evaluate_suspicions now (send_heartbeats heard_at replied c)

  unfoldable pub on_heartbeat : ℕ → Bytes → Cluster R → Cluster R × HeartbeatReply
  unfolding emplace update statuses on_membership_change
  on_heartbeat now id c =
      let m = c.membership in
      let known = emplace id (unknown_peer id) m.peers in
      let peers = update (heard now m.epoch) id known in
      let noted : Cluster R = record c { membership = record m { peers = peers } } in
      let reply : HeartbeatReply = record {
        alive_peers = statuses peers;
        cluster_epoch = m.epoch;
      } in
      if is_dead (lookup bytes_dec id known)
      then (on_membership_change [] noted, reply)
      else (noted, reply)
