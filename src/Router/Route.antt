-- ===== src/Router/Route.antt =====
-- `Route`: the replica set of a block.
use native.Mathlib.Nat.{mod-eq_of_lt, add-mod_right, mod-lt, mod_self}
use lethe.Base.{
  ℕ, zero, suc, ◌+◌, ◌-◌, ◌%◌, ◌≤◌, ◌<◌, ◌≡◌, refl, sym, ap, ◌∙◌, subst, true, false, List, [], ◌∷◌,
  length, get_or, ltb, arith, inl, inr, ◌⊎◌, if◌then◌else◌, if_pos, if_neg, u64_mod, dec_lt, All,
}
use lethe.Router.{
  Router, RouteResult, RingEntry, no_entry, peer_at, contains, pick, picked_peers, search_ring,
  route, is_nil, is_local_replica, is_local_primary, hash_block,
}
use lethe.Router.Search.{Splits, hash_at, hash_at_mono, search_ring_lem}
use lethe.Router.Ring.{IsRing, IsEntry}
use lethe.Router.Pick.{IsDistinct, pick-IsDistinct, length-pick-le, pick_covers, pick_head}
use lethe.Types.{Bytes, BlockId, bytes_dec}

-- The replica count that `Route` asks for.
abbrev pub wanted : Router → ℕ
wanted r = if ltb r.replication_factor 1 then 1 else r.replication_factor

-- What `Route` promises of the list that it picks: distinct peers, at most as many as wanted, and
-- fewer only if every peer of the ring is among them.
pub record IsReplicaSet (r : Router) (picked : List Bytes) : Type 0 where
  pub distinct : IsDistinct picked
  pub bounded : length picked ≤ wanted r
  pub full :
      (wanted r ≤ length picked)
      ⊎ ((j : ℕ) → j < length r.ring → contains (peer_at r j) picked ≡ true)

-- The clockwise distance on the ring of 64-bit hashes.
abbrev pub clockwise : ℕ → ℕ → ℕ
clockwise target h = if ltb h target then h + u64_mod - target else h - target

-- From every position the walk reaches every position.
reaches : (n idx j : ℕ) → idx < n → j < n → (i : ℕ) × (i < n) × ((idx + i) % n ≡ j)
reaches n idx j h g = elim (dec_lt j idx) [
  | yes p ↦ (
    j + n - idx,
    omega arith,
    ap (λ (k : ℕ). k % n) (at_sum p) ∙ add-mod_right j n ∙ mod-eq_of_lt g,
  )
  | no p ↦ (j - idx, omega arith, ap (λ (k : ℕ). k % n) (at_difference p) ∙ mod-eq_of_lt g)
]
  where
    at_sum : j < idx → idx + (j + n - idx) ≡ j + n
    at_sum p = omega arith

    at_difference : ¬ (j < idx) → idx + (j - idx) ≡ j
    at_difference p = omega arith

-- Where the walk of `Route` starts.
abbrev pub start_of : Router → ℕ → ℕ
start_of r target = search_ring (length r.ring) r.ring target 0 (length r.ring) % length r.ring

picked_peers-IsReplicaSet :
    (r : Router) (target : ℕ) → 0 < length r.ring → IsReplicaSet r (picked_peers r target)
unfolding picked_peers
picked_peers-IsReplicaSet r target h =
    let n : ℕ = length r.ring in
    let idx : ℕ = start_of r target in
    record {
      distinct = pick-IsDistinct r (wanted r) idx n 0 [] tt;
      bounded = length-pick-le r (wanted r) idx n 0 [] (omega arith);
      full = elim (pick_covers r (wanted r) idx n 0 []) [
        | inl enough ↦ inl enough
        | inr all ↦ inr (λ j g.
            let w = reaches n idx j (mod-lt _ h) g in
            subst (λ (k : ℕ). contains (peer_at r k) (pick r (wanted r) idx n 0 []) ≡ true) w.2
              (all w.0 (omega arith) (omega (arith, w.1))))
      ];
    }

first_pick :
    (r : Router) (want idx n : ℕ)
    → 0 < n
    → 0 < want
    → (rest : List Bytes) × (pick r want idx n 0 [] ≡ peer_at r ((idx + 0) % length r.ring) ∷ rest)
unfolding pick
first_pick r want idx zero h g = absurd (omega arith)
first_pick r zero idx (suc n) h g = absurd (omega arith)
first_pick r (suc want) idx (suc n) h g =
    rw (more, pick) (pick_head r (suc want) idx n 1 (peer_at r ((idx + 0) % length r.ring)) [])
  where
    more : ltb 0 (suc want) ≡ true
    more = ground arith

wanted-pos : (r : Router) → 0 < wanted r
wanted-pos r = ground arith

-- The walk picks first the peer at its start.
picked_peers_head :
    (r : Router) (target : ℕ)
    → 0 < length r.ring
    → (rest : List Bytes) × (picked_peers r target ≡ peer_at r (start_of r target) ∷ rest)
unfolding picked_peers
picked_peers_head r target h =
    let (rest, at) = first_pick r (wanted r) (start_of r target) (length r.ring) h (wanted-pos r) in
    (
      rest,
      at
          ∙ ap (λ (k : ℕ). peer_at r k ∷ rest)
              (ap (λ (k : ℕ). k % length r.ring) (omega arith) ∙ mod-eq_of_lt (mod-lt _ h)),
    )

-- The peers of a route, the primary first.
abbrev pub targets : RouteResult → List Bytes
targets res = res.primary ∷ res.replicas

is_nil_lem : {A : Type 0} (l : List A) → 0 < length l → is_nil l ≡ false
is_nil_lem [] h = absurd (omega arith)
is_nil_lem (x ∷ l) h = refl

route_lem :
    (r : Router) (id : BlockId)
    → 0 < length r.ring
    → 0 < length r.peers
    → ((route r id).primary ≡ peer_at r (start_of r (hash_block id)))
      × (targets (route r id) ≡ picked_peers r (hash_block id))
unfolding route
route_lem r id h g =
    let (rest, at) = picked_peers_head r (hash_block id) h in
    rw (is_nil_lem r.ring h, is_nil_lem r.peers g, at) (refl, refl)

-- On a ring with entries and peers, `Route` names distinct peers, the primary among them, no more
-- than the replication factor (than one, if that is 0), and fewer only if every peer that has a
-- virtual node on the ring is named.
pub route-IsReplicaSet :
    (r : Router) (id : BlockId)
    → 0 < length r.ring
    → 0 < length r.peers
    → IsReplicaSet r (targets (route r id))
route-IsReplicaSet r id h g =
    subst (IsReplicaSet r) (sym (route_lem r id h g).1)
      (picked_peers-IsReplicaSet r (hash_block id) h)

-- A position whose entry is the nearest clockwise of the target.
pub record IsNearest (r : Router) (target pos : ℕ) : Type 0 where
  pub in_range : pos < length r.ring
  pub nearest :
      (i : ℕ)
      → i < length r.ring
      → clockwise target (hash_at r.ring pos) ≤ clockwise target (hash_at r.ring i)

hash_at-lt : (r : Router) → IsRing r → (i : ℕ) → i < length r.ring → hash_at r.ring i < u64_mod
hash_at-lt r wf i h = (All_get_or r.ring i wf.entries h).hash_bound
  where
    All_get_or :
        (l : List RingEntry) (i : ℕ)
        → All (IsEntry (length r.peers)) l
        → i < length l
        → IsEntry (length r.peers) (get_or l i no_entry)
    All_get_or [] i a h = absurd (omega arith)
    All_get_or (e ∷ l) zero a h = a.0
    All_get_or (e ∷ l) (suc i) a h = All_get_or l i a.1 (omega arith)

clockwise-le_above :
    (t a b : ℕ)
    → t ≤ a
    → a < u64_mod
    → t < u64_mod
    → (b < t) ⊎ (a ≤ b)
    → clockwise t a ≤ clockwise t b
clockwise-le_above t a b h bound q c = ground arith

clockwise-le_below : (t a b : ℕ) → a < t → b < t → a ≤ b → clockwise t a ≤ clockwise t b
clockwise-le_below t a b h g c = ground arith

start_of-IsNearest :
    (r : Router) (target : ℕ)
    → IsRing r
    → 0 < length r.ring
    → target < u64_mod
    → IsNearest r target (start_of r target)
start_of-IsNearest r target wf h t =
    let lo : ℕ = search_ring (length r.ring) r.ring target 0 (length r.ring) in
    let split : Splits r.ring target lo = search_ring_lem r.ring target wf.sorted in
    record {
      in_range = mod-lt _ h;
      nearest = λ i p. elim (dec_lt lo (length r.ring)) [
        | yes inside ↦ rw (mod-eq_of_lt inside) (
            clockwise-le_above target (hash_at r.ring lo) (hash_at r.ring i)
              (split.above lo (omega arith) inside) (hash_at-lt r wf lo inside) t
              (elim (dec_lt i lo) [
                | yes before ↦ inl (split.below i before)
                | no after ↦ inr (hash_at_mono r.ring lo i wf.sorted (omega arith) p)
              ]))
        | no outside ↦
            let at : lo ≡ length r.ring = omega (arith, split.in_range) in
            rw (at, mod_self (length r.ring))
              (clockwise-le_below target (hash_at r.ring 0) (hash_at r.ring i)
                (split.below 0 (omega arith)) (split.below i (omega arith))
                (hash_at_mono r.ring 0 i wf.sorted (omega arith) p))
      ];
    }

-- On a well-formed ring with entries and peers, the primary of a block of 64-bit hash is the peer
-- of a ring entry that is nearest clockwise of the hash of the block, around the end of the range
-- of hashes where none is above.
pub route_primary :
    (r : Router) (id : BlockId)
    → IsRing r
    → 0 < length r.ring
    → 0 < length r.peers
    → hash_block id < u64_mod
    → (pos : ℕ) × IsNearest r (hash_block id) pos × ((route r id).primary ≡ peer_at r pos)
route_primary r id wf h g t = (
  start_of r (hash_block id),
  start_of-IsNearest r (hash_block id) wf h t,
  (route_lem r id h g).0,
)

-- A node is a replica of exactly the blocks whose route names it, and a replica of every block of
-- which it is the primary.
pub is_local_replica_lem :
    (r : Router) (id : BlockId)
    → (is_local_replica r id ≡ contains r.local_node_id (targets (route r id)))
      × (is_local_primary r id ≡ true → is_local_replica r id ≡ true)
unfolding is_local_replica is_local_primary contains
is_local_replica_lem r id = elim (bytes_dec (route r id).primary r.local_node_id) [
  | yes p ↦ (
    rw
        (
          if_pos (bytes_dec (route r id).primary r.local_node_id) p,
          if_pos (bytes_dec r.local_node_id (route r id).primary) (sym p),
        )
        refl,
    λ h. if_pos (bytes_dec (route r id).primary r.local_node_id) p _ _,
  )
  | no p ↦ (
    rw
        (
          if_neg (bytes_dec (route r id).primary r.local_node_id) p,
          if_neg (bytes_dec r.local_node_id (route r id).primary) (λ q. p (sym q)),
        )
        refl,
    λ h. absurd (grind arith),
  )
]
