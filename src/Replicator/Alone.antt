-- ===== src/Replicator/Alone.antt =====
-- The lock scopes of `DrainReReplication` and `TriggerReReplication` with nothing in between are
-- the pass of the loop and the trigger.
use lethe.Base.{
  ◌+◌, ◌<◌, ◌≡◌, refl, ap, true, false, not, ◌&&◌, List, length, get_or, ltb, arith, Bool-cases,
  Option-cases, inl, inr, none, some,
}
use lethe.Types.{Bytes, BlockId}
use lethe.TieredStore.{GetResult}
use lethe.Router.{Router, route, is_nil}
use lethe.Replicator.{
  Replicator, BlockSource, DrainStep, stop, skip, sent, drain_targets, drain_step, drain, trigger,
  replication_queue_max, no_id,
}
use lethe.Replicator.Scopes.{
  Pass, idle, checked, copied, check_room, copy_block, push_all, start_round,
}

module _ {S : Type 0} (source : BlockSource S) (router : Router) where
  -- The last scope, if the pass comes to it.
  abbrev push_scope : (Replicator × S) × Pass → Replicator × S
  push_scope (x, idle) = x
  push_scope (x, checked id targets) = x
  push_scope (x, copied block targets) = (push_all block targets x.0, x.1)

  abbrev copy_scope : Replicator × Pass → S → Replicator × S
  copy_scope (r, idle) s = (r, s)
  copy_scope (r, checked id targets) s = push_scope (copy_block source id targets (r, s))
  copy_scope (r, copied block targets) s = (r, s)

  -- What a pass of the loop leaves.
  abbrev left_by : Replicator → S → DrainStep S → Replicator × S
  left_by r s stop = (r, s)
  left_by r s (skip r' s') = (r', s')
  left_by r s (sent r' s') = (r', s')

  copy_block-gone :
      (id : BlockId) (targets : List Bytes) (r : Replicator) (s : S)
      → (source.get id s).1 ≡ none
      → copy_block source id targets (r, s)
        ≡ ((record r { rerep_cursor = r.rerep_cursor + 1 }, (source.get id s).0), idle)
  unfolding copy_block
  copy_block-gone id targets r s gone = rw (copy_block, gone) refl

  copy_block-found :
      (id : BlockId) (targets : List Bytes) (r : Replicator) (s : S) (found : GetResult)
      → (source.get id s).1 ≡ some found
      → copy_block source id targets (r, s) ≡ (
        (r, (source.get id s).0),
        copied
            (record { id = id; bytes = found.bytes; tier = found.tier_found; inserted_epoch = 0 })
            targets,
      )
  unfolding copy_block
  copy_block-found id targets r s found at = rw (copy_block, at) refl

  -- The three scopes of a pass in a row, in an active round that is not at its end, leave what the
  -- pass of the loop leaves.
  copy_scope-check_room :
      (r : Replicator) (s : S)
      → r.rerep_active ≡ true
      → r.rerep_cursor < length r.rerep_round
      → copy_scope (check_room router r) s ≡ left_by r s (drain_step source router r s)
  unfolding check_room push_all drain_step
  copy_scope-check_room r s active lt =
      let id = get_or r.rerep_round r.rerep_cursor no_id in
      let targets = drain_targets r.local_node_id (route router id) in
      let more : not (r.rerep_active && ltb r.rerep_cursor (length r.rerep_round)) ≡ false =
        ground arith in
      elim (Bool-cases (is_nil targets)) [
        | inl alone ↦ rw (more, alone) refl
        | inr some_target ↦
            elim (Bool-cases (ltb replication_queue_max (length r.queue + length targets))) [
              | inl full ↦ rw (more, some_target, full) refl
              | inr room ↦ elim (Option-cases (source.get id s).1) [
                | inl gone ↦
                    rw (more, some_target, room, gone)
                      (ap push_scope (copy_block-gone id targets r s gone))
                | inr (found, at) ↦
                    rw (more, some_target, room, at)
                      (ap push_scope (copy_block-found id targets r s found at))
              ]
            ]
      ]

  -- `TriggerReReplication` after a loss is the start of its round and a tick.
  trigger-start_round :
      (lost : List Bytes) (r : Replicator) (s : S)
      → is_nil lost ≡ false
      → let (r', s') = start_round source router lost (r, s) in
        trigger source router lost r s ≡ drain source router r' s'
  unfolding trigger start_round
  trigger-start_round lost r s some_lost = rw some_lost refl
