-- ===== src/Router/Ring.antt =====
-- `SetPeers`: the ring that it builds is well formed.
use lethe.Base.{
  ℕ, zero, suc, ◌+◌, ◌*◌, ◌<◌, ◌≤◌, ◌^◌, ◌≡◌, refl, List, [], ◌∷◌, ◌++◌, length, leb, arith,
  Bool-cases, inl, inr, All, u64_mod, length-append, ap, ◌∙◌,
}
use lethe.Types.{Bytes}
use lethe.Router.{
  Router, RingEntry, le_number, hash_virtual_node, vnode_entries, peer_entries, insert_entry,
  sort_ring, set_peers,
}
use lethe.Router.Search.{IsSorted, sort_ring-IsSorted}

-- An entry has a 64-bit hash and the index of a peer.
pub record IsEntry (peer_count : ℕ) (e : RingEntry) : Type 0 where
  pub hash_bound : e.hash < u64_mod
  pub idx_bound : e.peer_idx < peer_count

-- The ring is sorted, and each peer has its virtual nodes on it.
pub record IsRing (r : Router) : Type 0 where
  pub sorted : IsSorted r.ring
  pub entries : All (IsEntry (length r.peers)) r.ring
  pub size : length r.ring ≡ r.vnodes_per_peer * length r.peers

-- Bytes of a digest.
abbrev pub AreBytes : Bytes → Type 0
AreBytes = All (λ (b : ℕ). b < 256)

le_number-lt : (k : ℕ) (bs : Bytes) → AreBytes bs → le_number k bs < 256 ^ k
unfolding le_number
le_number-lt zero bs h = omega arith
le_number-lt (suc k) [] h = grind (arith, le_number-lt k [] tt)
le_number-lt (suc k) (b ∷ bs) h = ground (arith, le_number-lt k bs h.1, h.0)

module _ (P : RingEntry → Type 0) where
  All-append : (l m : List RingEntry) → All P l → All P m → All P (l ++ m)
  All-append [] m h g = g
  All-append (e ∷ l) m h g = (h.0, All-append l m h.1 g)

  All-insert : (e : RingEntry) (l : List RingEntry) → P e → All P l → All P (insert_entry e l)
  unfolding insert_entry
  All-insert e [] h g = (h, tt)
  All-insert e (f ∷ l) h g = elim (Bool-cases (leb e.hash f.hash)) [
    | inl le ↦ rw le (h, g)
    | inr gt ↦ rw gt (g.0, All-insert e l h g.1)
  ]

  All-sort_ring : (l : List RingEntry) → All P l → All P (sort_ring l)
  unfolding sort_ring
  All-sort_ring [] h = tt
  All-sort_ring (e ∷ l) h = All-insert e (sort_ring l) h.0 (All-sort_ring l h.1)

length-insert_entry :
    (e : RingEntry) (l : List RingEntry) → length (insert_entry e l) ≡ suc (length l)
unfolding insert_entry
length-insert_entry e [] = refl
length-insert_entry e (f ∷ l) = ground (arith, length-insert_entry e l)

length-sort_ring : (l : List RingEntry) → length (sort_ring l) ≡ length l
unfolding sort_ring
length-sort_ring [] = refl
length-sort_ring (e ∷ l) = omega (arith, length-sort_ring l, length-insert_entry e (sort_ring l))

module _ (blake3 : Bytes → Bytes) (digests : (key : Bytes) → AreBytes (blake3 key)) where
  hash_virtual_node-lt : (peer : Bytes) (vn : ℕ) → hash_virtual_node blake3 peer vn < u64_mod
  unfolding hash_virtual_node
  hash_virtual_node-lt peer vn = le_number-lt 8 _ (digests _)

  vnode_entries-IsEntry :
      (peer : Bytes) (count i n vn : ℕ)
      → i < count
      → All (IsEntry count) (vnode_entries blake3 peer i n vn)
  unfolding vnode_entries
  vnode_entries-IsEntry peer count i zero vn h = tt
  vnode_entries-IsEntry peer count i (suc n) vn h = (
    record { hash_bound = hash_virtual_node-lt peer vn; idx_bound = h },
    vnode_entries-IsEntry peer count i n (suc vn) h,
  )

  length-vnode_entries : (peer : Bytes) (i n vn : ℕ) → length (vnode_entries blake3 peer i n vn) ≡ n
  unfolding vnode_entries
  length-vnode_entries peer i zero vn = refl
  length-vnode_entries peer i (suc n) vn = ap suc (length-vnode_entries peer i n (suc vn))

  peer_entries-IsEntry :
      (vnodes count i : ℕ) (peers : List Bytes)
      → i + length peers ≤ count
      → All (IsEntry count) (peer_entries blake3 vnodes i peers)
  unfolding peer_entries
  peer_entries-IsEntry vnodes count i [] h = tt
  peer_entries-IsEntry vnodes count i (peer ∷ peers) h =
      All-append (IsEntry count) _ _ (vnode_entries-IsEntry peer count i vnodes 0 (omega arith))
        (peer_entries-IsEntry vnodes count (suc i) peers (omega arith))

  length-peer_entries :
      (vnodes i : ℕ) (peers : List Bytes)
      → length (peer_entries blake3 vnodes i peers) ≡ vnodes * length peers
  unfolding peer_entries
  length-peer_entries vnodes i [] = omega arith
  length-peer_entries vnodes i (peer ∷ peers) = ground (
    arith,
    length-append (vnode_entries blake3 peer i vnodes 0) (peer_entries blake3 vnodes (suc i) peers),
    length-vnode_entries peer i vnodes 0,
    length-peer_entries vnodes (suc i) peers,
  )

  -- For digests that are bytes, `SetPeers` leaves a ring of 64-bit hashes in ascending order with
  -- `vnodes_per_peer` entries for each peer, whose indices are in the range of the peers.
  pub set_peers-IsRing : (ids : List Bytes) (r : Router) → IsRing (set_peers blake3 ids r)
  unfolding set_peers
  set_peers-IsRing ids r = record {
    sorted = sort_ring-IsSorted (peer_entries blake3 r.vnodes_per_peer 0 ids);
    entries =
        All-sort_ring (IsEntry (length ids)) (peer_entries blake3 r.vnodes_per_peer 0 ids)
          (peer_entries-IsEntry r.vnodes_per_peer (length ids) 0 ids (omega arith));
    size =
        length-sort_ring (peer_entries blake3 r.vnodes_per_peer 0 ids)
        ∙ length-peer_entries r.vnodes_per_peer 0 ids;
  }
