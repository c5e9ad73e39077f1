-- ===== src/Node/Keeps.antt =====
-- What the operations of the subsystems keep of the replicator and the store that they share.
use lethe.Base.{
  ℕ, ◌+◌, zero, suc, ◌*◌, ◌≤◌, ◌≡◌, refl, ap, Bool, true, false, List, [], ◌∷◌, length, leb, ltb,
  ◌&&◌, if◌then◌else◌, get_elem?, arith, Bool-cases, Option-cases, List-cases, inl, inr,
}
use lethe.Types.{Bytes, BlockId, BlockMeta, KvBlock, Tier, ssd}
use lethe.TieredStore.{TieredStore, demote, is_tier, snapshot}
use lethe.TieredStore.Good.{IsGood, clear_visited-IsGood, demote-IsGood, erase-IsGood}
use lethe.Evictor.{
  EvictionConfig, Hands, Walk, second_chance, evict, walk_step, walk, wrapped, full_walk,
  is_pressed, run_pass_for_tier,
}
use lethe.Router.{Router, route}
use lethe.Replicator.{
  Replicator, ReplicateTask, push_block, replicate_out, work, replication_queue_max, other_peers,
}
use lethe.Replicator.Progress.{length-push_block}

-- The sweep's cursor is at least `slack` before the end of its round, the queue of pushes is within
-- `cap`, and the store is well formed, with copies that agree and blocks that have bytes.
pub record IsSettled (content : BlockId → Bytes) (slack cap : ℕ) (x : Replicator × TieredStore)
    : Type 0 where
  pub cursor : x.0.rerep_cursor + slack ≤ length x.0.rerep_round
  pub bounded : length x.0.queue ≤ cap
  pub good : IsGood content x.1

module _ (content : BlockId → Bytes) (slack cap : ℕ) where
  work_lem :
      (send : ReplicateTask → Bool) (r : Replicator)
      → ((work send r).rerep_cursor ≡ r.rerep_cursor)
        × ((work send r).rerep_round ≡ r.rerep_round)
        × (length (work send r).queue ≤ length r.queue)
  unfolding work
  work_lem send r = elim (List-cases r.queue) [
    | inl idle ↦ simp (idle, work) (refl, refl, omega (arith, ap length idle))
    | inr (task, rest, at) ↦ simp (at, work) (refl, refl, omega (arith, ap length at))
  ]

  pub work-IsSettled :
      (send : ReplicateTask → Bool) (r : Replicator) (t : TieredStore)
      → IsSettled content slack cap (r, t)
      → IsSettled content slack cap (work send r, t)
  work-IsSettled send r t s =
      let kept = work_lem send r in
      record {
        cursor = omega (arith, s.cursor, kept.0, ap length kept.1);
        bounded = omega (arith, s.bounded, kept.2);
        good = s.good;
      }

  push_block-cursor :
      (block : KvBlock) (ps : List Bytes) (r : Replicator)
      → ((push_block block ps r).rerep_cursor ≡ r.rerep_cursor)
        × ((push_block block ps r).rerep_round ≡ r.rerep_round)
  unfolding push_block
  push_block-cursor block [] r = (refl, refl)
  push_block-cursor block (p ∷ ps) r =
      elim (Bool-cases (leb replication_queue_max (length r.queue))) [
        | inl full ↦ simp full (push_block-cursor block ps _)
        | inr room ↦ simp room (push_block-cursor block ps _)
      ]

  pub push_block-IsSettled :
      (block : KvBlock) (ps : List Bytes) (r : Replicator) (t u : TieredStore)
      → replication_queue_max ≤ cap
      → IsSettled content slack cap (r, t)
      → IsGood content u
      → IsSettled content slack cap (push_block block ps r, u)
  push_block-IsSettled block ps r t u roomy s g =
      let kept = push_block-cursor block ps r in
      record {
        cursor = omega (arith, s.cursor, kept.0, ap length kept.1);
        bounded = length-push_block cap block ps r roomy s.bounded;
        good = g;
      }

  pub replicate_out-IsSettled :
      (router : Router) (block : KvBlock) (r : Replicator) (t u : TieredStore)
      → replication_queue_max ≤ cap
      → IsSettled content slack cap (r, t)
      → IsGood content u
      → IsSettled content slack cap ((replicate_out router block r).0, u)
  unfolding replicate_out
  replicate_out-IsSettled router block r t u roomy s g =
      push_block-IsSettled block (other_peers r.local_node_id (route router block.id).replicas) r t
        u roomy s g

module _ (content : BlockId → Bytes) where
  either-IsGood :
      (b : Bool) (t u : TieredStore)
      → IsGood content t
      → IsGood content u
      → IsGood content (if b then t else u)
  either-IsGood true t u g h = g
  either-IsGood false t u g h = h

  tried-IsGood :
      (b : Bool) (t : TieredStore) (r : TieredStore × Bool)
      → IsGood content t
      → IsGood content r.0
      → IsGood content (if b then (t, false) else r).0
  tried-IsGood true t r g h = g
  tried-IsGood false t r g h = h

  -- The walk of an eviction pass.
  evict-IsGood :
      (tier : Tier) (m : BlockMeta) (hand : ℕ) (w : Walk)
      → IsGood content w.store
      → IsGood content (evict tier m hand w).store
  unfolding evict
  evict-IsGood tier m hand w g =
      let tried =
        tried-IsGood (is_tier tier ssd) w.store (demote m.id w.store) g
          (demote-IsGood content m.id w.store g) in
      either-IsGood (if is_tier tier ssd then (w.store, false) else demote m.id w.store).1 _ _ tried
        (erase-IsGood content m.id _ tried)

  step-IsGood :
      (b : Bool) (v w : Walk)
      → IsGood content v.store
      → IsGood content w.store
      → IsGood content (if b then v else w).store
  step-IsGood true v w g h = g
  step-IsGood false v w g h = h

  walk_step-IsGood :
      (tier : Tier) (w : Walk) → IsGood content w.store → IsGood content (walk_step tier w).store
  unfolding walk_step second_chance
  walk_step-IsGood tier w g = elim (Option-cases (get_elem? w.blocks (wrapped w))) [
    | inl out ↦ rw (walk_step, out) g
    | inr (m, at) ↦
        rw (walk_step, at)
          (step-IsGood m.visited (second_chance m (wrapped w) w) (evict tier m (wrapped w) w)
            (clear_visited-IsGood content m.id w.store g) (evict-IsGood tier m (wrapped w) w g))
  ]

  walk-IsGood :
      (steps : ℕ) (tier : Tier) (need : ℕ) (w : Walk)
      → IsGood content w.store
      → IsGood content (walk steps tier need w).store
  unfolding walk
  walk-IsGood zero tier need w g = g
  walk-IsGood (suc steps) tier need w g = elim (Bool-cases (ltb w.freed_local need)) [
    | inl more ↦
        simp more (walk-IsGood steps tier need (walk_step tier w) (walk_step-IsGood tier w g))
    | inr enough ↦ simp enough g
  ]

  pub run_pass_for_tier-IsGood :
      (cfg : EvictionConfig) (tier : Tier) (t : TieredStore) (hands : Hands)
      → IsGood content t
      → IsGood content (run_pass_for_tier cfg tier t hands).store
  unfolding run_pass_for_tier full_walk
  run_pass_for_tier-IsGood cfg tier t hands g =
      elim (Bool-cases (is_pressed cfg tier t && ltb 0 (length (snapshot tier t)))) [
        | inl pressed ↦ simp pressed (walk-IsGood (length (snapshot tier t) * 2) tier _ _ g)
        | inr idle ↦ simp idle g
      ]
