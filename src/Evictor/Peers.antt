-- ===== src/Evictor/Peers.antt =====
-- `Evictor::OnPeerEviction` of cache_server/src/eviction.cpp: what the peers say they evicted. A
-- set is a list without repetition, and a peer that is not in the map has the empty set.
use lethe.Base.{
  ℕ, ◌+◌, ◌≤◌, ◌≡◌, ◌≢◌, refl, sym, subst, Bool, true, false, List, [], ◌∷◌, length, ltb, ite,
  if◌then◌else◌, arith, Bool-cases, inl, inr, if_pos, if_neg,
}
use lethe.Types.{Bytes, bytes_dec, BlockId, id_dec}

abbrev pub per_peer_bound : ℕ
per_peer_bound = 4096

unfoldable pub has_id : BlockId → List BlockId → Bool
has_id id [] = false
has_id id (j ∷ l) = ite (id_dec id j) true (has_id id l)

-- `set.insert(id)` for each of the evicted.
unfoldable pub insert_ids : List BlockId → List BlockId → List BlockId
unfolding has_id
insert_ids [] set = set
insert_ids (id ∷ ids) set = insert_ids ids (if has_id id set then set else id ∷ set)

unfoldable pub on_peer_eviction :
    List BlockId → Bytes → (Bytes → List BlockId) → Bytes → List BlockId
unfolding insert_ids
on_peer_eviction evicted peer peer_evicted q =
    ite (bytes_dec q peer)
      (insert_ids evicted
        (if ltb per_peer_bound (length (peer_evicted peer)) then [] else peer_evicted peer))
      (peer_evicted q)

-- `peer_evicted_count_for_testing`.
abbrev pub peer_evicted_count : (Bytes → List BlockId) → Bytes → ℕ
peer_evicted_count peer_evicted peer = length (peer_evicted peer)

has_id-insert_ids :
    (id : BlockId) (ids set : List BlockId)
    → has_id id set ≡ true
    → has_id id (insert_ids ids set) ≡ true
unfolding insert_ids has_id
has_id-insert_ids id [] set h = h
has_id-insert_ids id (j ∷ ids) set h =
    has_id-insert_ids id ids (if has_id j set then set else j ∷ set) (ground arith)

insert_ids_covers :
    (id : BlockId) (ids set : List BlockId)
    → has_id id ids ≡ true
    → has_id id (insert_ids ids set) ≡ true
unfolding insert_ids has_id
insert_ids_covers id [] set h = cc
insert_ids_covers id (j ∷ ids) set h = elim (id_dec id j) [
  | yes p ↦
      has_id-insert_ids id ids (if has_id j set then set else j ∷ set)
        (elim (Bool-cases (has_id j set)) [
          | inl old ↦ simp old (subst (λ (k : BlockId). has_id k set ≡ true) (sym p) old)
          | inr new ↦ simp new (if_pos (id_dec id j) p true (has_id id set))
        ])
  | no p ↦ insert_ids_covers id ids (if has_id j set then set else j ∷ set) (ground arith)
]

length-insert_ids : (ids set : List BlockId) → length (insert_ids ids set) ≤ length set + length ids
unfolding insert_ids
length-insert_ids [] set = omega arith
length-insert_ids (j ∷ ids) set = elim (Bool-cases (has_id j set)) [
  | inl old ↦ simp old (omega (arith, length-insert_ids ids set))
  | inr new ↦ simp new (omega (arith, length-insert_ids ids (j ∷ set)))
]

-- After a broadcast each block that it names is in the set of its sender, that set has at most 4096
-- blocks more than the broadcast, and the sets of the other peers are as they were.
pub on_peer_eviction_lem :
    (evicted : List BlockId) (peer : Bytes) (peer_evicted : Bytes → List BlockId)
    → let after = on_peer_eviction evicted peer peer_evicted in
      ((id : BlockId) → has_id id evicted ≡ true → has_id id (after peer) ≡ true)
      × (peer_evicted_count after peer ≤ per_peer_bound + length evicted)
      × ((q : Bytes) → q ≢ peer → after q ≡ peer_evicted q)
unfolding on_peer_eviction
on_peer_eviction_lem evicted peer peer_evicted =
    let kept : List BlockId =
      if ltb per_peer_bound (length (peer_evicted peer)) then [] else peer_evicted peer in
    let small : length kept ≤ per_peer_bound = ground arith in
    (
      λ id h.
          rw
            (if_pos {C = List BlockId} (bytes_dec peer peer) refl (insert_ids evicted kept)
              (peer_evicted peer))
            (insert_ids_covers id evicted kept h),
      rw
          (if_pos {C = List BlockId} (bytes_dec peer peer) refl (insert_ids evicted kept)
            (peer_evicted peer))
          (omega (arith, length-insert_ids evicted kept, small)),
      λ q other. if_neg (bytes_dec q peer) other _ _,
    )
