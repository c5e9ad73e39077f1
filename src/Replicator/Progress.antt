-- ===== src/Replicator/Progress.antt =====
-- A re-replication round moves on whenever the queue has room, and a write is pushed to every
-- replica while the queue has room.
use lethe.Base.{
  ℕ, zero, suc, ◌+◌, ◌≤◌, ◌<◌, ◌≡◌, refl, sym, subst, true, false, ◌&&◌, List, [], ◌∷◌, length,
  get_or, ltb, leb, arith, Bool-cases, inl, inr, length-append, Option-cases,
}
use lethe.Types.{Bytes, BlockId, KvBlock}
use lethe.Router.{Router, route, is_nil}
use lethe.Replicator.{
  Replicator, BlockSource, DrainStep, stop, skip, sent, drain_targets, drain_step, drain_loop,
  drain, push_block, replication_queue_max, rereplication_batch, no_id,
}
use lethe.Replicator.Round.{SourceLaws, Advances, IsReady, StepAdvances, drain_step-Advances}
use lethe.Replicator.Drain.{LoopAdvances, drain_loop-Advances}

module _ {S : Type 0} (source : BlockSource S) (laws : SourceLaws source) (router : Router) where
  -- The pass does not break.
  Moves : DrainStep S → Type 0
  Moves stop = ⊥
  Moves (skip r s) = Unit
  Moves (sent r s) = Unit

  drain_step-Moves :
      (r : Replicator) (s : S)
      → length r.queue
          + length (
              drain_targets r.local_node_id
                (route router (get_or r.rerep_round r.rerep_cursor no_id)))
        ≤ replication_queue_max
      → Moves (drain_step source router r s)
  unfolding drain_step Moves
  drain_step-Moves r s room =
      let id : BlockId = get_or r.rerep_round r.rerep_cursor no_id in
      let targets : List Bytes = drain_targets r.local_node_id (route router id) in
      let fits : ltb replication_queue_max (length r.queue + length targets) ≡ false =
        ground arith in
      elim (Bool-cases (is_nil targets)) [
        | inl alone ↦ rw alone tt
        | inr some_target ↦ elim (Option-cases (source.get id s).1) [
          | inl gone ↦ rw (some_target, fits, gone) tt
          | inr (got, at) ↦ rw (some_target, fits, at) tt
        ]
      ]

  onwards :
      (fuel n : ℕ) (r r' : Replicator) (s s' : S)
      → Advances source laws router r s r' s'
      → r'.rerep_cursor ≡ r.rerep_cursor + 1
      → r.rerep_cursor < (drain_loop source fuel router n r' s').0.rerep_cursor
  unfolding IsReady LoopAdvances
  onwards fuel n r r' s s' a e =
      let ahead = drain_loop-Advances source laws router fuel n r' s' (
        subst (λ (l : List BlockId). r'.rerep_cursor ≤ length l) (sym a.same_round) a.in_round,
        a.bounded,
        a.good,
      ) in
      omega (arith, e, ahead.forward)

  first_step :
      (fuel : ℕ) (r : Replicator) (s : S) (d : DrainStep S)
      → r.rerep_cursor < length r.rerep_round
      → (ltb 0 rereplication_batch && ltb r.rerep_cursor (length r.rerep_round)) ≡ true
      → drain_step source router r s ≡ d
      → StepAdvances source laws router r s d
      → Moves d
      → r.rerep_cursor < (drain_loop source (suc fuel) router 0 r s).0.rerep_cursor
  unfolding drain_loop StepAdvances Moves
  first_step fuel r s stop lt more e a m = absurd m
  first_step fuel r s (skip r' s') lt more e a m =
      rw (more, e, drain_loop) (onwards fuel 0 r r' s s' a.0 a.1)
  first_step fuel r s (sent r' s') lt more e a m =
      rw (more, e, drain_loop) (onwards fuel (0 + 1) r r' s s' a.0 a.1)

  first_block :
      (n : ℕ) (r : Replicator) (s : S)
      → n ≡ length r.rerep_round
      → IsReady source laws router r s
      → r.rerep_cursor < length r.rerep_round
      → Moves (drain_step source router r s)
      → r.rerep_cursor < (drain_loop source n router 0 r s).0.rerep_cursor
  first_block zero r s e ready lt m = absurd (omega arith)
  first_block (suc n) r s e ready lt m =
      first_step n r s (drain_step source router r s) lt (ground arith) refl
        (drain_step-Advances source laws router r s ready lt) m

  -- A tick of the sweep over a well-formed source moves the cursor of an active round that is not
  -- at its end, if the queue has room for the pushes of the block at the cursor.
  pub drain_moves :
      (r : Replicator) (s : S)
      → laws.Good s
      → r.rerep_active ≡ true
      → r.rerep_cursor < length r.rerep_round
      → length r.queue
          + length (
              drain_targets r.local_node_id
                (route router (get_or r.rerep_round r.rerep_cursor no_id)))
        ≤ replication_queue_max
      → r.rerep_cursor < (drain source router r s).0.rerep_cursor
  unfolding drain IsReady
  drain_moves r s good active lt room = simp active (
      first_block (length r.rerep_round) r s refl (omega arith, omega arith, good) lt
        (drain_step-Moves r s room))

pub length-push_block :
    (cap : ℕ) (block : KvBlock) (ps : List Bytes) (r : Replicator)
    → replication_queue_max ≤ cap
    → length r.queue ≤ cap
    → length (push_block block ps r).queue ≤ cap
unfolding push_block
length-push_block cap block [] r roomy h = h
length-push_block cap block (p ∷ ps) r roomy h =
    elim (Bool-cases (leb replication_queue_max (length r.queue))) [
      | inl full ↦ simp full (length-push_block cap block ps _ roomy h)
      | inr room ↦ simp room (
          length-push_block cap block ps _ roomy
            (ground (arith, length-append r.queue (record { peer_id = p; block = block } ∷ []))))
    ]
