-- ===== src/Replicator/Drain.antt =====
-- A re-replication round: no block of it is passed over.
use lethe.Base.{
  ℕ, zero, suc, ◌+◌, ◌≤◌, ◌<◌, ◌≡◌, refl, sym, subst, true, ◌&&◌, List, length, ltb, arith,
  Bool-cases, inl, inr,
}
use lethe.Types.{BlockId}
use lethe.Router.{Router}
use lethe.Replicator.{
  Replicator, BlockSource, DrainStep, stop, skip, sent, drain_step, drain_loop, drain,
  replication_queue_max, rereplication_batch,
}
use lethe.Replicator.Round.{
  SourceLaws, Advances, IsReady, Advances-refl, Advances-trans, StepAdvances, drain_step-Advances,
}

module _ {S : Type 0} (source : BlockSource S) (laws : SourceLaws source) (router : Router) where
  unfoldable pub LoopAdvances : ℕ → Type 0
  LoopAdvances fuel =
      (n : ℕ) (r : Replicator) (s : S)
      → IsReady source laws router r s
      → let res = drain_loop source fuel router n r s in Advances source laws router r s res.0 res.1

  module _ (fuel dispatched : ℕ) (r : Replicator) (s : S) (ready : IsReady source laws router r s)
      (next : LoopAdvances fuel) where
    later :
        (n : ℕ) (r' : Replicator) (s' : S)
        → Advances source laws router r s r' s'
        → let res = drain_loop source fuel router n r' s' in
          Advances source laws router r s res.0 res.1
    unfolding IsReady LoopAdvances
    later n r' s' a =
        let res = drain_loop source fuel router n r' s' in
        Advances-trans source laws router r r' res.0 s s' res.1 a (
          next n r' s' (
            subst (λ (l : List BlockId). r'.rerep_cursor ≤ length l) (sym a.same_round) a.in_round,
            a.bounded,
            a.good,
          ))

    after_step :
        (d : DrainStep S)
        → drain_step source router r s ≡ d
        → StepAdvances source laws router r s d
        → (ltb dispatched rereplication_batch && ltb r.rerep_cursor (length r.rerep_round)) ≡ true
        → let res = drain_loop source (suc fuel) router dispatched r s in
          Advances source laws router r s res.0 res.1
    unfolding drain_loop StepAdvances
    after_step stop e a m = rw (m, e, drain_loop) (Advances-refl source laws router r s ready)
    after_step (skip r' s') e a m = rw (m, e, drain_loop) (later dispatched r' s' a.0)
    after_step (sent r' s') e a m = rw (m, e, drain_loop) (later (dispatched + 1) r' s' a.0)

  pub drain_loop-Advances : (fuel : ℕ) → LoopAdvances fuel
  unfolding drain_loop LoopAdvances
  drain_loop-Advances zero dispatched r s ready = Advances-refl source laws router r s ready
  drain_loop-Advances (suc fuel) dispatched r s ready =
      elim (Bool-cases
        (ltb dispatched rereplication_batch && ltb r.rerep_cursor (length r.rerep_round))) [
          | inr done ↦ rw (done, drain_loop) (Advances-refl source laws router r s ready)
          | inl more ↦
              let lt : r.rerep_cursor < length r.rerep_round = ground arith in
              after_step fuel dispatched r s ready (drain_loop-Advances fuel)
                (drain_step source router r s) refl
                (drain_step-Advances source laws router r s ready lt) more
        ]

  -- A tick of the re-replication sweep, from a cursor in its round, a queue within its bound and a
  -- well-formed source, and without pushes by others in between: the cursor does not go back and
  -- stays in the round, the queue keeps its tasks and its bound, no task is dropped, readers of the
  -- source find what they found, and every block that the cursor passes and that the source has is
  -- queued with its bytes for the primary of its route, if it has one, and for each replica, this
  -- node left out. Each task that is added goes to such a peer.
  pub drain-Advances :
      (r : Replicator) (s : S)
      → r.rerep_cursor ≤ length r.rerep_round
      → length r.queue ≤ replication_queue_max
      → laws.Good s
      → let res = drain source router r s in Advances source laws router r s res.0 res.1
  unfolding drain IsReady LoopAdvances
  drain-Advances r s cursor bound good = elim (Bool-cases r.rerep_active) [
    | inr idle ↦ simp idle (Advances-refl source laws router r s (cursor, bound, good))
    | inl active ↦
        let res = drain_loop source (length r.rerep_round) router 0 r s in
        let a = drain_loop-Advances (length r.rerep_round) 0 r s (cursor, bound, good) in
        simp active (record {
          forward = a.forward;
          in_round = a.in_round;
          same_round = a.same_round;
          same_node = a.same_node;
          no_drops = a.no_drops;
          bounded = a.bounded;
          added = a.added;
          keeps_queue = a.keeps_queue;
          aimed = a.aimed;
          good = a.good;
          same_content = a.same_content;
          covered = a.covered;
        })
  ]
