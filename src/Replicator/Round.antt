-- ===== src/Replicator/Round.antt =====
-- The passes of a re-replication round: what one covers, and how they compose.
use lethe.Base.{
  ℕ, suc, ◌+◌, ◌≤◌, ◌<◌, ◌≡◌, refl, sym, ap, subst, ◌∙◌, true, List, [], ◌∷◌, ◌++◌, length, get_or,
  ltb, Option, none, some, arith, Bool-cases, ltb→le, ◌⊎◌, inl, inr, Has, here, dec_lt,
  Option-cases, there, length-append, All, All-append,
}
use mathlib.Core.List.{append-nil, append_assoc}
use lethe.Types.{Bytes, BlockId, KvBlock}
use lethe.Router.{Router, route, is_nil}
use lethe.TieredStore.{GetResult}
use lethe.Replicator.{
  Replicator, ReplicateTask, BlockSource, DrainStep, stop, skip, sent, drain_targets, tasks_for,
  drain_step, replication_queue_max, no_id,
}
use lethe.Replicator.Members.{IsTarget, IsTarget-drain_targets, drain_targets-IsTarget}

-- What the replicator relies on: `content` is what a reader finds, a block that a reader finds is
-- a hit with its bytes, a block that it does not find is a miss, and a reader finds the same
-- afterwards.
pub record SourceLaws {S : Type 0} (source : BlockSource S) : Type 1 where
  pub Good : S → Type 0
  pub content : BlockId → S → Option Bytes
  pub get-hit :
      (id : BlockId) (s : S) (bs : Bytes)
      → Good s
      → content id s ≡ some bs
      → (got : GetResult) × ((source.get id s).1 ≡ some got) × (got.bytes ≡ bs)
  pub get-miss : (id : BlockId) (s : S) → Good s → content id s ≡ none → (source.get id s).1 ≡ none
  pub get-Good : (id : BlockId) (s : S) → Good s → Good (source.get id s).0
  pub content-get : (id j : BlockId) (s : S) → Good s → content j (source.get id s).0 ≡ content j s

-- The queue has a task that pushes the bytes of the block to the peer.
pub record IsQueued (queue : List ReplicateTask) (id : BlockId) (bs peer : Bytes) : Type 0 where
  pub task : ReplicateTask
  pub queued : Has task queue
  pub to_peer : task.peer_id ≡ peer
  pub of_block : task.block.id ≡ id
  pub with_bytes : task.block.bytes ≡ bs

module _ {A : Type 0} where
  pub Has-append_left : {x : A} (l m : List A) → Has x l → Has x (l ++ m)
  Has-append_left [] m h = elim h [ ]
  Has-append_left (x ∷ l) m (here xs) = here (l ++ m)
  Has-append_left (x ∷ l) m (there y h) = there x (Has-append_left l m h)

  pub Has-append_right : {x : A} (l m : List A) → Has x m → Has x (l ++ m)
  Has-append_right [] m h = h
  Has-append_right (x ∷ l) m h = there x (Has-append_right l m h)

module _ {A : Type 0} where
  pub Has-split : {x : A} (l m : List A) → Has x (l ++ m) → Has x l ⊎ Has x m
  Has-split [] m h = inr h
  Has-split (y ∷ l) m (here xs) = inl (here l)
  Has-split (y ∷ l) m (there z h) = elim (Has-split l m h) [
    | inl k ↦ inl (there y k)
    | inr k ↦ inr k
  ]

Has-tasks_for :
    (block : KvBlock) (p : Bytes) (ps : List Bytes)
    → Has p ps
    → Has (record { peer_id = p; block = block }) (tasks_for block ps)
unfolding tasks_for
Has-tasks_for block p [] h = elim h [ ]
Has-tasks_for block p (q ∷ ps) (here xs) = here (tasks_for block ps)
Has-tasks_for block p (q ∷ ps) (there y h) =
    there (record { peer_id = q; block = block }) (Has-tasks_for block p ps h)

pub length-tasks_for : (block : KvBlock) (ps : List Bytes) → length (tasks_for block ps) ≡ length ps
unfolding tasks_for
length-tasks_for block [] = refl
length-tasks_for block (p ∷ ps) = ap suc (length-tasks_for block ps)

module _ {S : Type 0} (source : BlockSource S) (laws : SourceLaws source) (router : Router) where
  -- The task goes to a target of its block.
  abbrev pub IsAimed : Bytes → ReplicateTask → Type 0
  IsAimed local_node_id task = IsTarget local_node_id (route router task.block.id) task.peer_id

  -- Each target of the block has a push in the queue, unless the store has no such block.
  abbrev pub IsCovered : Bytes → List ReplicateTask → S → BlockId → Type 0
  IsCovered local_node_id queue s id =
      (p bs : Bytes)
      → IsTarget local_node_id (route router id) p
      → laws.content id s ≡ some bs
      → IsQueued queue id bs p

  -- What a part of a round does: it covers the blocks that its cursor passes, and it keeps the
  -- queue in its bound, what is queued and what a reader finds.
  pub record Advances (r : Replicator) (s : S) (r' : Replicator) (s' : S) : Type 0 where
    pub forward : r.rerep_cursor ≤ r'.rerep_cursor
    pub in_round : r'.rerep_cursor ≤ length r.rerep_round
    pub same_round : r'.rerep_round ≡ r.rerep_round
    pub same_node : r'.local_node_id ≡ r.local_node_id
    pub no_drops : r'.overflow_drops ≡ r.overflow_drops
    pub bounded : length r'.queue ≤ replication_queue_max
    pub added : List ReplicateTask
    pub keeps_queue : r'.queue ≡ r.queue ++ added
    pub aimed : All (IsAimed r.local_node_id) added
    pub good : laws.Good s'
    pub same_content : (j : BlockId) → laws.content j s' ≡ laws.content j s
    pub covered :
        (i : ℕ)
        → r.rerep_cursor ≤ i
        → i < r'.rerep_cursor
        → IsCovered r.local_node_id r'.queue s (get_or r.rerep_round i no_id)

  unfoldable pub IsReady : Replicator → S → Type 0
  IsReady r s =
      (r.rerep_cursor ≤ length r.rerep_round)
      × (length r.queue ≤ replication_queue_max)
      × laws.Good s

  pub Advances-refl : (r : Replicator) (s : S) → IsReady r s → Advances r s r s
  unfolding IsReady
  Advances-refl r s h = record {
    forward = omega arith;
    in_round = h.0;
    same_round = refl;
    same_node = refl;
    no_drops = refl;
    bounded = h.1;
    added = [];
    keeps_queue = sym (append-nil r.queue);
    aimed = tt;
    good = h.2;
    same_content = λ j. refl;
    covered = λ i p q. absurd (omega arith);
  }

  IsQueued-append :
      (queue more : List ReplicateTask) (id : BlockId) (bs p : Bytes)
      → IsQueued queue id bs p
      → IsQueued (queue ++ more) id bs p
  IsQueued-append queue more id bs p h = record {
    task = h.task;
    queued = Has-append_left queue more h.queued;
    to_peer = h.to_peer;
    of_block = h.of_block;
    with_bytes = h.with_bytes;
  }

  pub Advances-trans :
      (r1 r2 r3 : Replicator) (s1 s2 s3 : S)
      → Advances r1 s1 r2 s2
      → Advances r2 s2 r3 s3
      → Advances r1 s1 r3 s3
  Advances-trans r1 r2 r3 s1 s2 s3 a b = record {
    forward = omega (arith, a.forward, b.forward);
    in_round = subst (λ (l : List BlockId). r3.rerep_cursor ≤ length l) a.same_round b.in_round;
    same_round = b.same_round ∙ a.same_round;
    same_node = b.same_node ∙ a.same_node;
    no_drops = b.no_drops ∙ a.no_drops;
    bounded = b.bounded;
    added = a.added ++ b.added;
    keeps_queue =
        b.keeps_queue
        ∙ ap (λ (l : List ReplicateTask). l ++ b.added) a.keeps_queue
        ∙ append_assoc r1.queue a.added b.added;
    aimed =
        All-append (IsAimed r1.local_node_id) a.added b.added a.aimed
          (subst (λ (n : Bytes). All (IsAimed n) b.added) a.same_node b.aimed);
    good = b.good;
    same_content = λ j. b.same_content j ∙ a.same_content j;
    covered = λ i lo hi. elim (dec_lt i r2.rerep_cursor) [
      | yes early ↦ λ p bs h e.
          subst (λ (l : List ReplicateTask). IsQueued l (get_or r1.rerep_round i no_id) bs p)
            (sym b.keeps_queue)
            (IsQueued-append r2.queue b.added (get_or r1.rerep_round i no_id) bs p
              (a.covered i lo early p bs h e))
      | no late ↦ λ p bs h e.
          let moved : IsCovered r1.local_node_id r3.queue s2 (get_or r1.rerep_round i no_id) =
            subst (λ (n : Bytes). IsCovered n r3.queue s2 (get_or r1.rerep_round i no_id))
              a.same_node
              (subst
                (λ (l : List BlockId). IsCovered r2.local_node_id r3.queue s2 (get_or l i no_id))
                a.same_round (b.covered i (omega arith) hi)) in
          moved p bs h (a.same_content (get_or r1.rerep_round i no_id) ∙ e)
    ];
  }

  -- A pass of the loop that does not break moves the cursor by one block.
  unfoldable pub StepAdvances : Replicator → S → DrainStep S → Type 0
  StepAdvances r s stop = Unit
  StepAdvances r s (skip r' s') = Advances r s r' s' × (r'.rerep_cursor ≡ r.rerep_cursor + 1)
  StepAdvances r s (sent r' s') = Advances r s r' s' × (r'.rerep_cursor ≡ r.rerep_cursor + 1)

  -- The pass covers the block at the cursor.
  one_block :
      (r : Replicator) (s s' : S) (queue more : List ReplicateTask)
      → IsReady r s
      → r.rerep_cursor < length r.rerep_round
      → queue ≡ r.queue ++ more
      → length queue ≤ replication_queue_max
      → laws.Good s'
      → ((j : BlockId) → laws.content j s' ≡ laws.content j s)
      → All (IsAimed r.local_node_id) more
      → IsCovered r.local_node_id queue s (get_or r.rerep_round r.rerep_cursor no_id)
      → Advances r s (record r { queue = queue; rerep_cursor = r.rerep_cursor + 1 }) s'
  one_block r s s' queue more ready lt eq bound good same aimed cov = record {
    forward = omega arith;
    in_round = omega arith;
    same_round = refl;
    same_node = refl;
    no_drops = refl;
    bounded = bound;
    added = more;
    keeps_queue = eq;
    aimed = aimed;
    good = good;
    same_content = same;
    covered = λ i lo hi.
        let at : r.rerep_cursor ≡ i = omega arith in
        subst (λ (k : ℕ). IsCovered r.local_node_id queue s (get_or r.rerep_round k no_id)) at cov;
  }

  tasks_for-IsAimed :
      (local : Bytes) (block : KvBlock) (ps : List Bytes)
      → ((p : Bytes) → Has p ps → IsTarget local (route router block.id) p)
      → All (IsAimed local) (tasks_for block ps)
  unfolding tasks_for
  tasks_for-IsAimed local block [] h = tt
  tasks_for-IsAimed local block (p ∷ ps) h =
      (h p (here ps), tasks_for-IsAimed local block ps (λ q k. h q (there p k)))

  pub no_targets : (l : List Bytes) (p : Bytes) → is_nil l ≡ true → ¬ (Has p l)
  no_targets [] p e h = elim h [ ]
  no_targets (x ∷ l) p e h = cc

  pub drain_step-Advances :
      (r : Replicator) (s : S)
      → IsReady r s
      → r.rerep_cursor < length r.rerep_round
      → StepAdvances r s (drain_step source router r s)
  unfolding drain_step IsReady StepAdvances
  drain_step-Advances r s ready lt =
      let id : BlockId = get_or r.rerep_round r.rerep_cursor no_id in
      let targets : List Bytes = drain_targets r.local_node_id (route router id) in
      elim (Bool-cases (is_nil targets)) [
        | inl alone ↦ rw alone (
          one_block r s s r.queue [] ready lt (sym (append-nil r.queue)) ready.1 ready.2 (λ j. refl)
              tt
              (λ p bs h e. absurd (
                no_targets targets p alone
                  (IsTarget-drain_targets r.local_node_id p (route router id) h))),
          refl,
        )
        | inr some_target ↦
            elim (Bool-cases (ltb replication_queue_max (length r.queue + length targets))) [
              | inl full ↦ rw (some_target, full) tt
              | inr room ↦ elim (Option-cases (source.get id s).1) [
                | inl gone ↦
                    rw (some_target, room, gone)
                      (
                        one_block r s (source.get id s).0 r.queue [] ready lt
                            (sym (append-nil r.queue)) ready.1 (laws.get-Good id s ready.2)
                            (λ j. laws.content-get id j s ready.2) tt
                            (λ p bs h e.
                              let (got, at, same) = laws.get-hit id s bs ready.2 e in absurd (cc)),
                        refl,
                      )
                | inr (got, at) ↦
                    rw (some_target, room, at)
                      (
                        let block : KvBlock = record {
                          id = id;
                          bytes = got.bytes;
                          tier = got.tier_found;
                          inserted_epoch = 0;
                        } in
                            one_block r s (source.get id s).0 (r.queue ++ tasks_for block targets)
                              (tasks_for block targets) ready lt refl
                              (omega (
                                arith,
                                length-append r.queue (tasks_for block targets),
                                length-tasks_for block targets,
                                ltb→le _ _ room,
                              ))
                              (laws.get-Good id s ready.2) (λ j. laws.content-get id j s ready.2)
                              (tasks_for-IsAimed r.local_node_id block targets (λ p h.
                                drain_targets-IsTarget r.local_node_id p (route router id) h))
                              (λ p bs h e.
                                let (found, hit, same) = laws.get-hit id s bs ready.2 e in
                                record {
                                  task = record { peer_id = p; block = block };
                                  queued = Has-append_right r.queue (tasks_for block targets) (
                                      Has-tasks_for block p targets (
                                        IsTarget-drain_targets r.local_node_id p (route router id)
                                          h));
                                  to_peer = refl;
                                  of_block = refl;
                                  with_bytes = cc;
                                }),
                        refl,
                      )
              ]
            ]
      ]
