-- ===== src/Replicator/Trigger.antt =====
-- `TriggerReReplication`: the round that it starts.
use lethe.Base.{
  ◌≤◌, ◌≡◌, sym, subst, refl, Bool, if◌then◌else◌, true, false, not, List, [], ◌∷◌, length, Has,
  here, there, arith, Bool-cases, inl, inr,
}
use lethe.Types.{Bytes, BlockId, BlockMeta, Tier, hbm, dram, ssd}
use lethe.Router.{Router, route, is_nil}
use lethe.Replicator.{
  Replicator, BlockSource, in_route, in_route_ids, candidates, trigger, replication_queue_max,
}
use lethe.Replicator.Round.{SourceLaws, Has-append_left, Has-append_right, Has-split}
use lethe.Replicator.Members.{IsMember, in_route-IsMember, IsMember-in_route}
use lethe.Replicator.Drain.{drain-Advances}

Has-in_route_ids :
    (router : Router) (local : Bytes) (m : BlockMeta) (ms : List BlockMeta)
    → Has m ms
    → in_route local (route router m.id) ≡ true
    → Has m.id (in_route_ids router local ms)
unfolding in_route_ids
Has-in_route_ids router local m [] h e = elim h [ ]
Has-in_route_ids router local m (x ∷ ms) (here xs) e = rw e (here (in_route_ids router local ms))
Has-in_route_ids router local m (x ∷ ms) (there y h) e =
    let rest : Has m.id (in_route_ids router local ms) = Has-in_route_ids router local m ms h e in
    elim (Bool-cases (in_route local (route router x.id))) [
      | inl inside ↦ simp inside (there x.id rest)
      | inr outside ↦ simp outside rest
    ]

module _ {S : Type 0} (source : BlockSource S) (laws : SourceLaws source) (router : Router) where
  Has-candidates :
      (local : Bytes) (s : S) (tier : Tier) (m : BlockMeta)
      → Has m (source.snapshot tier s)
      → in_route local (route router m.id) ≡ true
      → Has m.id (candidates source router local s)
  unfolding candidates
  Has-candidates local s hbm m h e =
      Has-append_left _ _ (Has-in_route_ids router local m (source.snapshot hbm s) h e)
  Has-candidates local s dram m h e =
      Has-append_right (in_route_ids router local (source.snapshot hbm s)) _
        (Has-append_left _ _ (Has-in_route_ids router local m (source.snapshot dram s) h e))
  Has-candidates local s ssd m h e =
      Has-append_right (in_route_ids router local (source.snapshot hbm s)) _ (
        Has-append_right (in_route_ids router local (source.snapshot dram s)) _
          (Has-in_route_ids router local m (source.snapshot ssd s) h e))

  in_head :
      (local : Bytes) (id : BlockId) (x : BlockMeta) (ms : List BlockMeta)
      → IsMember local (route router x.id)
      → Has id (x.id ∷ in_route_ids router local ms)
      → (Has id (in_route_ids router local ms)
          → (m : BlockMeta) × Has m ms × (m.id ≡ id) × IsMember local (route router id))
      → (m : BlockMeta) × Has m (x ∷ ms) × (m.id ≡ id) × IsMember local (route router id)
  in_head local id x ms inside (here xs) ih = (x, here ms, refl, inside)
  in_head local id x ms inside (there y h) ih =
      let (m, k, e, ours) = ih h in (m, there x k, e, ours)

  in_route_ids-Has :
      (local : Bytes) (id : BlockId) (ms : List BlockMeta)
      → Has id (in_route_ids router local ms)
      → (m : BlockMeta) × Has m ms × (m.id ≡ id) × IsMember local (route router id)
  unfolding in_route_ids
  in_route_ids-Has local id [] h = elim h [ ]
  in_route_ids-Has local id (x ∷ ms) h = elim (Bool-cases (in_route local (route router x.id))) [
    | inl inside ↦
        in_head local id x ms (in_route-IsMember local (route router x.id) inside)
          (subst
            (λ (b : Bool).
              Has id
                (if b then x.id ∷ in_route_ids router local ms else in_route_ids router local ms))
            inside h)
          (λ k. in_route_ids-Has local id ms k)
    | inr outside ↦
        let (m, k, e, ours) = in_route_ids-Has local id ms (
          subst
            (λ (b : Bool).
              Has id
                (if b then x.id ∷ in_route_ids router local ms else in_route_ids router local ms))
            outside h) in
        (m, there x k, e, ours)
  ]

  -- A block that a tier's snapshot has and in whose route this node stands.
  abbrev pub IsOurs : Bytes → S → BlockId → Type 0
  IsOurs local s id =
      (tier : Tier) × (m : BlockMeta) × Has m (source.snapshot tier s)
      × (m.id ≡ id)
      × IsMember local (route router id)

  candidates-IsOurs :
      (local : Bytes) (s : S) (id : BlockId)
      → Has id (candidates source router local s)
      → IsOurs local s id
  unfolding candidates
  candidates-IsOurs local s id h =
      elim (Has-split (in_route_ids router local (source.snapshot hbm s)) _ h) [
        | inl k ↦
            let (m, held, e, ours) = in_route_ids-Has local id (source.snapshot hbm s) k in
            (hbm, m, held, e, ours)
        | inr more ↦ elim (Has-split (in_route_ids router local (source.snapshot dram s)) _ more) [
          | inl k ↦
              let (m, held, e, ours) = in_route_ids-Has local id (source.snapshot dram s) k in
              (dram, m, held, e, ours)
          | inr k ↦
              let (m, held, e, ours) = in_route_ids-Has local id (source.snapshot ssd s) k in
              (ssd, m, held, e, ours)
        ]
      ]

  -- Over a well-formed source and with a queue within its bound, `TriggerReReplication` after a
  -- loss makes a round that has a block exactly if some tier's snapshot has it and this node is the
  -- primary or a replica of its route.
  pub trigger_covers :
      (lost : List Bytes) (r : Replicator) (s : S) (id : BlockId)
      → is_nil lost ≡ false
      → length r.queue ≤ replication_queue_max
      → laws.Good s
      → let round = (trigger source router lost r s).0.rerep_round in
        (Has id round → IsOurs r.local_node_id s id) × (IsOurs r.local_node_id s id → Has id round)
  unfolding trigger
  trigger_covers lost r s id some_lost bound good =
      let ids : List BlockId = candidates source router r.local_node_id s in
      let started : Replicator = record r {
        rerep_round = ids;
        rerep_cursor = 0;
        rerep_active = not (is_nil ids);
      } in
      let a = drain-Advances source laws router started s (omega arith) bound good in
      simp some_lost (
        (λ h.
            candidates-IsOurs r.local_node_id s id
              (subst (λ (l : List BlockId). Has id l) a.same_round h)),
        (λ (tier, m, held, at, ours).
            subst (λ (l : List BlockId). Has id l) (sym a.same_round)
              (subst (λ (j : BlockId). Has j ids) at
                (Has-candidates r.local_node_id s tier m held (
                  IsMember-in_route r.local_node_id (route router m.id) (
                    subst (λ (j : BlockId). IsMember r.local_node_id (route router j)) (sym at)
                      ours))))),
      )
