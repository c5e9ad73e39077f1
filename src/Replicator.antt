-- ===== src/Replicator.antt =====
-- cache_server/src/replication.cpp: the push queue and the rounds of re-replication. The store is
-- an interface, which `Replicator/Store` fills with the tiered store. The ring, the transport and
-- the store are there, as in every server that `main` starts. A worker's `Send` is a parameter.
-- Threads, metrics and debug prints are left out. Each operation runs here without interference;
-- `Scopes` has the lock scopes of the re-replication, for what comes between them.
pub mod Members
pub mod Round
pub mod Trigger
pub mod Drain
pub mod Progress
pub mod Completes
pub mod Store
pub mod Fetch
pub mod Polled
pub mod Fetched
pub mod Stops
pub mod Scopes
pub mod Alone
use lethe.Base.{
  ℕ, zero, suc, ◌+◌, ◌-◌, ◌%◌, Bool, true, false, not, ◌&&◌, ◌||◌, List, [], ◌∷◌, ◌++◌, length,
  get_or, ltb, leb, ite, if◌then◌else◌, Option, none, some, u64_mod,
}
use lethe.Types.{Bytes, bytes_dec, BlockId, KvBlock, BlockMeta, Tier, hbm, dram, ssd}
use lethe.Router.{Router, RouteResult, route, contains, is_nil}
use lethe.TieredStore.{GetResult}

abbrev pub replication_queue_max : ℕ
replication_queue_max = 1024

abbrev pub rereplication_batch : ℕ
rereplication_batch = 256

pub record ReplicateTask : Type 0 where
  pub peer_id : Bytes
  pub block : KvBlock

-- The `ReplicatorPoolState` with the identity of the node.
pub record Replicator : Type 0 where
  pub local_node_id : Bytes
  pub queue : List ReplicateTask
  pub overflow_drops : ℕ
  pub replicate_attempts : ℕ
  pub replicate_failures : ℕ
  pub rerep_round : List BlockId
  pub rerep_cursor : ℕ
  pub rerep_active : Bool

-- What the replicator uses of the store.
pub record BlockSource (S : Type 0) : Type 1 where
  pub get : BlockId → S → S × Option GetResult
  pub snapshot : Tier → S → List BlockMeta

-- The peers of a list other than this node.
unfoldable pub other_peers : Bytes → List Bytes → List Bytes
other_peers local_node_id [] = []
other_peers local_node_id (p ∷ ps) =
    ite (bytes_dec p local_node_id) (other_peers local_node_id ps)
      (p ∷ other_peers local_node_id ps)

-- The loop of `ReplicateOut` over the peers.
unfoldable pub push_block : KvBlock → List Bytes → Replicator → Replicator
push_block block [] r = r
push_block block (p ∷ ps) r = push_block block ps (
    if leb replication_queue_max (length r.queue)
    then record r { overflow_drops = (r.overflow_drops + 1) % u64_mod }
    else record r { queue = r.queue ++ (record { peer_id = p; block = block } ∷ []) })

unfoldable pub replicate_out : Router → KvBlock → Replicator → Replicator × List Bytes
unfolding push_block other_peers
replicate_out router block r =
    let submitted = other_peers r.local_node_id (route router block.id).replicas in
    (push_block block submitted r, submitted)

-- One round of a worker: it takes the first task, and a failed send is dropped.
unfoldable pub work : (ReplicateTask → Bool) → Replicator → Replicator
work send r = elim (r.queue) [
  | [] ↦ r
  | task ∷ rest ↦ record r {
    queue = rest;
    replicate_attempts = (r.replicate_attempts + 1) % u64_mod;
    replicate_failures =
        if send task then r.replicate_failures else (r.replicate_failures + 1) % u64_mod;
  }
]

-- The targets of a block in `DrainReReplication`: every member of the route but this node.
unfoldable pub drain_targets : Bytes → RouteResult → List Bytes
unfolding other_peers
drain_targets local_node_id res =
    if is_nil res.primary || ite (bytes_dec res.primary local_node_id) true false
    then other_peers local_node_id res.replicas
    else res.primary ∷ other_peers local_node_id res.replicas

unfoldable pub tasks_for : KvBlock → List Bytes → List ReplicateTask
tasks_for block [] = []
tasks_for block (p ∷ ps) = record { peer_id = p; block = block } ∷ tasks_for block ps

abbrev pub no_id : BlockId
no_id = record { hash = []; layer = 0; head_group = 0; model_id = 0 }

-- How one pass of the loop of `DrainReReplication` ends: at `break`, at `continue`, or at the
-- end of its body.
pub data DrainStep (S : Type 0) : Type 0 where
  stop : DrainStep S
  skip sent : Replicator → S → DrainStep S

-- `in_route` of `TriggerReReplication`.
unfoldable pub in_route : Bytes → RouteResult → Bool
unfolding contains
in_route local_node_id res =
    ite (bytes_dec res.primary local_node_id) true (contains local_node_id res.replicas)

unfoldable pub in_route_ids : Router → Bytes → List BlockMeta → List BlockId
unfolding in_route
in_route_ids router local_node_id [] = []
in_route_ids router local_node_id (m ∷ ms) =
    if in_route local_node_id (route router m.id)
    then m.id ∷ in_route_ids router local_node_id ms
    else in_route_ids router local_node_id ms

module _ {S : Type 0} (source : BlockSource S) where
  -- A pass of the loop, with nothing between its two scopes of `mu`.
  unfoldable pub drain_step : Router → Replicator → S → DrainStep S
  unfolding drain_targets tasks_for
  drain_step router r s =
      let id = get_or r.rerep_round r.rerep_cursor no_id in
      let targets = drain_targets r.local_node_id (route router id) in
      let passed : Replicator = record r { rerep_cursor = r.rerep_cursor + 1 } in
      let got = source.get id s in
      if is_nil targets
      then skip passed s
      else (if ltb replication_queue_max (length r.queue + length targets)
          then stop
          else (elim (got.1) [
            | none ↦ skip passed got.0
            | some found ↦
                sent
                  (record passed {
                    queue =
                        r.queue
                        ++ tasks_for
                            (record {
                              id = id;
                              bytes = found.bytes;
                              tier = found.tier_found;
                              inserted_epoch = 0;
                            })
                            targets;
                  })
                  got.0
          ]))

  -- The loop. A pass that does not break moves the cursor, so a round's length is enough fuel.
  unfoldable pub drain_loop : ℕ → Router → ℕ → Replicator → S → Replicator × S
  drain_loop zero router dispatched r s = (r, s)
  drain_loop (suc fuel) router dispatched r s =
      if ltb dispatched rereplication_batch && ltb r.rerep_cursor (length r.rerep_round)
      then (elim (drain_step router r s) [
        | stop ↦ (r, s)
        | skip r' s' ↦ drain_loop fuel router dispatched r' s'
        | sent r' s' ↦ drain_loop fuel router (dispatched + 1) r' s'
      ])
      else (r, s)

  -- `DrainReReplication`.
  unfoldable pub drain : Router → Replicator → S → Replicator × S
  unfolding drain_loop
  drain router r s =
      let res = drain_loop (length r.rerep_round) router 0 r s in
      if r.rerep_active
      then (
        record (res.0) { rerep_active = ltb (res.0).rerep_cursor (length (res.0).rerep_round) },
        res.1,
      )
      else (r, s)

  -- The new round of `TriggerReReplication`.
  unfoldable pub candidates : Router → Bytes → S → List BlockId
  unfolding in_route_ids
  candidates router local_node_id s =
      in_route_ids router local_node_id (source.snapshot hbm s)
      ++ (in_route_ids router local_node_id (source.snapshot dram s)
          ++ in_route_ids router local_node_id (source.snapshot ssd s))

  unfoldable pub trigger : Router → List Bytes → Replicator → S → Replicator × S
  unfolding candidates drain
  trigger router lost r s =
      let ids = candidates router r.local_node_id s in
      let started : Replicator = record r {
        rerep_round = ids;
        rerep_cursor = 0;
        rerep_active = not (is_nil ids);
      } in
      if is_nil lost then (r, s) else drain router started s
