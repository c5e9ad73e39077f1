-- ===== src/Replicator/Scopes.antt =====
-- The lock scopes of `TriggerReReplication` and `DrainReReplication`
-- (cache_server/src/replication.cpp), for what happens between them. `rerep_mu` is held from the
-- check of a block to its push; `mu` is held for the check and for the push alone.
use lethe.Base.{
  ◌+◌, false, not, ◌&&◌, List, [], length, get_or, ltb, if◌then◌else◌, none, some, ◌++◌,
}
use lethe.Types.{Bytes, BlockId, KvBlock}
use lethe.Router.{Router, route, is_nil}
use lethe.Replicator.{
  Replicator, BlockSource, drain_targets, tasks_for, candidates, replication_queue_max, no_id,
}

-- Where a pass of the loop stands: there is none, the room for the targets of a block was seen, or
-- its bytes were copied out of the store.
pub data Pass : Type 0 where
  idle : Pass
  checked : BlockId → List Bytes → Pass
  copied : KvBlock → List Bytes → Pass

abbrev pub targets_of : Pass → List Bytes
targets_of idle = []
targets_of (checked id targets) = targets
targets_of (copied block targets) = targets

-- The pass up to the end of the first scope of `mu`; at the end of the round it turns the round off.
unfoldable pub check_room : Router → Replicator → Replicator × Pass
unfolding drain_targets
check_room router r =
    let id = get_or r.rerep_round r.rerep_cursor no_id in
    let targets = drain_targets r.local_node_id (route router id) in
    if not (r.rerep_active && ltb r.rerep_cursor (length r.rerep_round))
    then (record r { rerep_active = false }, idle)
    else if is_nil targets
    then (record r { rerep_cursor = r.rerep_cursor + 1 }, idle)
    else if ltb replication_queue_max (length r.queue + length targets)
    then (r, idle)
    else (r, checked id targets)

-- The second scope of `mu`.
unfoldable pub push_all : KvBlock → List Bytes → Replicator → Replicator
unfolding tasks_for
push_all block targets r = record r {
  queue = r.queue ++ tasks_for block targets;
  rerep_cursor = r.rerep_cursor + 1;
}

module _ {S : Type 0} (source : BlockSource S) where
  -- `Get` between the two; a block that is gone is passed over.
  unfoldable pub copy_block : BlockId → List Bytes → Replicator × S → (Replicator × S) × Pass
  copy_block id targets (r, s) =
      let got = source.get id s in
      elim (got.1) [
        | none ↦ ((record r { rerep_cursor = r.rerep_cursor + 1 }, got.0), idle)
        | some found ↦ (
          (r, got.0),
          copied
              (record { id = id; bytes = found.bytes; tier = found.tier_found; inserted_epoch = 0 })
              targets,
        )
      ]

  -- `TriggerReReplication` up to the first batch.
  unfoldable pub start_round : Router → List Bytes → Replicator × S → Replicator × S
  unfolding candidates
  start_round router lost (r, s) =
      let ids = candidates source router r.local_node_id s in
      if is_nil lost
      then (r, s)
      else (record r { rerep_round = ids; rerep_cursor = 0; rerep_active = not (is_nil ids) }, s)
