-- ===== src/Replicator/Completes.antt =====
-- A re-replication round comes to its end.
use lethe.Base.{
  ℕ, zero, suc, ◌+◌, ◌≤◌, ◌<◌, ◌≡◌, refl, sym, ap, ◌∙◌, Bool, false, List, length, get_or, ltb,
  arith, Bool-cases, List-cases, inl, inr, ◌⊎◌, ltb→lt, ltb→le,
}
use lethe.Types.{Bytes, BlockId}
use lethe.Router.{Router, route}
use lethe.Replicator.{
  Replicator, ReplicateTask, BlockSource, drain_targets, drain, work, replication_queue_max, no_id,
}
use lethe.Replicator.Round.{SourceLaws}
use lethe.Replicator.Drain.{drain-Advances}
use lethe.Replicator.Progress.{drain_moves}

-- The workers, for a number of turns.
unfoldable pub work_off : (ReplicateTask → Bool) → ℕ → Replicator → Replicator
work_off send zero r = r
work_off send (suc n) r = work_off send n (work send r)

-- A replicator after its workers: the queue is empty, the round is as it was.
record Worked (r r' : Replicator) : Type 0 where
  pub node : r'.local_node_id ≡ r.local_node_id
  pub round : r'.rerep_round ≡ r.rerep_round
  pub cursor : r'.rerep_cursor ≡ r.rerep_cursor
  pub active : r'.rerep_active ≡ r.rerep_active

work-Worked :
    (send : ReplicateTask → Bool) (r : Replicator) (n : ℕ)
    → length r.queue ≡ suc n
    → Worked r (work send r) × (length (work send r).queue ≡ n)
unfolding work
work-Worked send r n e = elim (List-cases r.queue) [
  | inl idle ↦ absurd (omega (arith, e, ap length idle))
  | inr (task, rest, at) ↦
      simp (at, work)
        (
          record { node = refl; round = refl; cursor = refl; active = refl },
          omega (arith, e, ap length at),
        )
]

work_off-Worked :
    (send : ReplicateTask → Bool) (n : ℕ) (r : Replicator)
    → length r.queue ≡ n
    → Worked r (work_off send n r) × (length (work_off send n r).queue ≡ 0)
unfolding work_off
work_off-Worked send zero r e =
    (record { node = refl; round = refl; cursor = refl; active = refl }, e)
work_off-Worked send (suc n) r e =
    let (one, left) = work-Worked send r n e in
    let (rest, done) = work_off-Worked send n (work send r) left in
    (
      record {
        node = rest.node ∙ one.node;
        round = rest.round ∙ one.round;
        cursor = rest.cursor ∙ one.cursor;
        active = rest.active ∙ one.active;
      },
      done,
    )

module _ {S : Type 0} (source : BlockSource S) (router : Router) (send : ReplicateTask → Bool) where
  -- Ticks of the sweep, before each of which the workers take what is queued.
  unfoldable pub ticks : ℕ → Replicator → S → Replicator × S
  ticks zero r s = (r, s)
  ticks (suc n) r s =
      let d = drain source router (work_off send (length r.queue) r) s in ticks n d.0 d.1

module _ {S : Type 0} (source : BlockSource S) (laws : SourceLaws source) (router : Router)
    (send : ReplicateTask → Bool) where
  -- A round is active while its cursor is not at its end.
  abbrev pub IsConsistent : Replicator → Type 0
  IsConsistent r = r.rerep_active ≡ ltb r.rerep_cursor (length r.rerep_round)

  drain-IsConsistent :
      (r : Replicator) (s : S)
      → IsConsistent r
      → r.rerep_cursor ≤ length r.rerep_round
      → length r.queue ≤ replication_queue_max
      → laws.Good s
      → IsConsistent (drain source router r s).0
  unfolding drain
  drain-IsConsistent r s e c q g = elim (Bool-cases r.rerep_active) [
    | inr idle ↦ simp idle (sym idle ∙ e)
    | inl active ↦ simp active refl
  ]

  -- The pushes of every block of the round fit into an empty queue.
  abbrev pub Fits : Bytes → List BlockId → Type 0
  Fits node round =
      (i : ℕ)
      → i < length round
      → length (drain_targets node (route router (get_or round i no_id))) ≤ replication_queue_max

  consistent : (r w : Replicator) → Worked r w → IsConsistent r → IsConsistent w
  consistent r w k e = rw (k.active, k.cursor, k.round) e

  fits :
      (r w : Replicator)
      → w.local_node_id ≡ r.local_node_id
      → w.rerep_round ≡ r.rerep_round
      → Fits r.local_node_id r.rerep_round
      → Fits w.local_node_id w.rerep_round
  fits r w node round f = rw (node, round) f

  -- A tick with an empty queue moves the cursor, or the round is at its end.
  advanced :
      (w : Replicator) (s : S)
      → laws.Good s
      → IsConsistent w
      → w.rerep_cursor ≤ length w.rerep_round
      → length w.queue ≤ replication_queue_max
      → length w.queue ≡ 0
      → Fits w.local_node_id w.rerep_round
      → length w.rerep_round ≤ (drain source router w s).0.rerep_cursor
        ⊎ w.rerep_cursor < (drain source router w s).0.rerep_cursor
  advanced w s g e c q idle f = elim (Bool-cases (ltb w.rerep_cursor (length w.rerep_round))) [
    | inl more ↦
        let lt = ltb→lt w.rerep_cursor (length w.rerep_round) more in
        inr (
          drain_moves source laws router w s g (e ∙ more) lt
            (omega (arith, idle, f w.rerep_cursor lt)))
    | inr ended ↦ inl (
        omega (
          arith,
          ltb→le w.rerep_cursor (length w.rerep_round) ended,
          (drain-Advances source laws router w s c q g).forward,
        ))
  ]

  -- Over a well-formed source, if the workers empty the queue before each tick and the pushes of
  -- each block of the round fit into an empty queue, then a round that is active exactly while its
  -- cursor is not at its end, and whose cursor is in it, is over after as many ticks as it has
  -- blocks left: the cursor is at the end of the same round, and the round is not active any more.
  pub round_completes :
      (n : ℕ) (r : Replicator) (s : S)
      → laws.Good s
      → IsConsistent r
      → r.rerep_cursor ≤ length r.rerep_round
      → Fits r.local_node_id r.rerep_round
      → length r.rerep_round ≤ r.rerep_cursor + n
      → let r' = (ticks source router send n r s).0 in
        (r'.rerep_active ≡ false)
        × (r'.rerep_cursor ≡ length r.rerep_round)
        × (r'.rerep_round ≡ r.rerep_round)
  unfolding ticks
  round_completes zero r s g e c f enough =
      (ground (arith, e, c, enough), omega (arith, c, enough), refl)
  round_completes (suc n) r s g e c f enough =
      let w : Replicator = work_off send (length r.queue) r in
      let (k, none_left) = work_off-Worked send (length r.queue) r refl in
      let same : length w.rerep_round ≡ length r.rerep_round = ap length k.round in
      let c' : w.rerep_cursor ≤ length w.rerep_round = omega (arith, c, same, k.cursor) in
      let q' : length w.queue ≤ replication_queue_max = omega (arith, none_left) in
      let e' : IsConsistent w = consistent r w k e in
      let a = drain-Advances source laws router w s c' q' g in
      let d = drain source router w s in
      let f' : Fits w.local_node_id w.rerep_round = fits r w k.node k.round f in
      let round' : d.0.rerep_round ≡ r.rerep_round = a.same_round ∙ k.round in
      let further : length d.0.rerep_round ≤ d.0.rerep_cursor + n =
        omega
          (arith, enough, ap length round', same, k.cursor, advanced w s g e' c' q' none_left f') in
      let (ended, at_end, kept) =
        round_completes n d.0 d.1 a.good (drain-IsConsistent w s e' c' q' g)
          (omega (arith, a.in_round, ap length a.same_round))
          (fits w d.0 a.same_node a.same_round f') further in
      (ended, at_end ∙ ap length round', kept ∙ round')
