-- ===== src/Node/Passes.antt =====
-- What the lock scopes of a pass of `DrainReReplication` keep, whatever happens between them.
use lethe.Base.{
  ℕ, ◌+◌, ◌*◌, ◌≤◌, not, ◌&&◌, List, length, length-append, get_or, ltb, arith, Bool-cases,
  Option-cases, inl, inr, ltb→le,
}
use lethe.Types.{Bytes, BlockId, KvBlock}
use lethe.Router.{Router, route, is_nil}
use lethe.TieredStore.{TieredStore, get}
use lethe.TieredStore.Good.{get-IsGood}
use lethe.Replicator.{Replicator, drain_targets, tasks_for, replication_queue_max, no_id}
use lethe.Replicator.Round.{length-tasks_for}
use lethe.Replicator.Store.{tiered_source}
use lethe.Replicator.Scopes.{
  Pass, idle, checked, copied, targets_of, check_room, copy_block, push_all, start_round,
}
use lethe.Node.Keeps.{IsSettled}
use lethe.Node.Clusters.{Calls}

-- A pass that holds `rerep_mu` has a block left in the round.
abbrev pub slack_of : Pass → ℕ
slack_of idle = 0
slack_of (checked id targets) = 1
slack_of (copied block targets) = 1

-- The queue is within its bound while a pass is on, and within twice its bound afterwards: what
-- `ReplicateOut` pushes after the check comes on top of the targets that were checked.
abbrev pub cap_of : Pass → ℕ
cap_of idle = 2 * replication_queue_max
cap_of (checked id targets) = replication_queue_max
cap_of (copied block targets) = replication_queue_max

pub cap_of-roomy : (p : Pass) → replication_queue_max ≤ cap_of p
cap_of-roomy idle = omega arith
cap_of-roomy (checked id targets) = omega arith
cap_of-roomy (copied block targets) = omega arith

module _ (content : BlockId → Bytes) where
  -- The replicator and store, by where the pass stands.
  abbrev pub IsHeld : Pass → Replicator × TieredStore → Type 0
  IsHeld p x =
      IsSettled content (slack_of p) (cap_of p) x × (length (targets_of p) ≤ replication_queue_max)

  pub check_room-IsHeld :
      (router : Router) (r : Replicator) (t : TieredStore)
      → IsHeld idle (r, t)
      → let res = check_room router r in IsHeld res.1 (res.0, t)
  unfolding check_room
  check_room-IsHeld router r t (s, small) =
      let id = get_or r.rerep_round r.rerep_cursor no_id in
      let targets = drain_targets r.local_node_id (route router id) in
      elim (Bool-cases (not (r.rerep_active && ltb r.rerep_cursor (length r.rerep_round)))) [
        | inl over ↦
            rw over (record { cursor = s.cursor; bounded = s.bounded; good = s.good }, omega arith)
        | inr more ↦
            let left : r.rerep_cursor + 1 ≤ length r.rerep_round = ground arith in
            elim (Bool-cases (is_nil targets)) [
              | inl alone ↦
                  rw (more, alone)
                    (
                      record { cursor = omega (arith, left); bounded = s.bounded; good = s.good },
                      omega arith,
                    )
              | inr some_target ↦
                  elim (Bool-cases (ltb replication_queue_max (length r.queue + length targets))) [
                    | inl full ↦ rw (more, some_target, full) (s, omega arith)
                    | inr room ↦
                        let fits = ltb→le _ _ room in
                        rw (more, some_target, room)
                          (
                            record { cursor = left; bounded = omega (arith, fits); good = s.good },
                            omega (arith, fits),
                          )
                  ]
            ]
      ]

  pub copy_block-IsHeld :
      (id : BlockId) (targets : List Bytes) (r : Replicator) (t : TieredStore)
      → IsHeld (checked id targets) (r, t)
      → let res = copy_block tiered_source id targets (r, t) in IsHeld res.1 res.0
  unfolding copy_block
  copy_block-IsHeld id targets r t (s, small) =
      let good = get-IsGood content id t s.good in
      elim (Option-cases (get id t).1) [
        | inl gone ↦
            rw (copy_block, gone)
              (
                record {
                  cursor = omega (arith, s.cursor);
                  bounded = omega (arith, s.bounded);
                  good = good;
                },
                omega arith,
              )
        | inr (found, at) ↦
            rw (copy_block, at)
              (record { cursor = s.cursor; bounded = s.bounded; good = good }, small)
      ]

  pub push_all-IsHeld :
      (block : KvBlock) (targets : List Bytes) (r : Replicator) (t : TieredStore)
      → IsHeld (copied block targets) (r, t)
      → IsHeld idle (push_all block targets r, t)
  unfolding push_all
  push_all-IsHeld block targets r t (s, small) = (
    record {
      cursor = omega (arith, s.cursor);
      bounded = omega (
        arith,
        s.bounded,
        small,
        length-append r.queue (tasks_for block targets),
        length-tasks_for block targets,
      );
      good = s.good;
    },
    omega arith,
  )

  pub start_round-Calls : (cap : ℕ) → Calls content 0 cap (start_round tiered_source)
  unfolding start_round
  start_round-Calls cap router lost (r, t) s = elim (Bool-cases (is_nil lost)) [
    | inl nobody ↦ rw (start_round, nobody) s
    | inr somebody ↦
        rw (start_round, somebody)
          (record { cursor = omega arith; bounded = s.bounded; good = s.good })
  ]
