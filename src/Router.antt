-- ===== src/Router.antt =====
-- cache_server/src/routing.cpp: the consistent-hash ring. BLAKE3 is a parameter, a function from
-- a key to its digest. `std::sort` is an insertion sort, which is one of the orders that it may
-- give to entries of one hash. An index out of range, which does not occur, reads a default.
pub mod Search
pub mod Pick
pub mod Ring
pub mod Route
pub mod Decimal
use lethe.Base.{
  ℕ, zero, suc, ◌+◌, ◌-◌, ◌*◌, ◌/◌, ◌%◌, ◌≡◌, Bool, true, false, List, [], ◌∷◌, ◌++◌, length,
  get_or, leb, ltb, if◌then◌else◌, ◌||◌, ite, Option, none, some,
}
use lethe.Types.{Bytes, BlockId, bytes_dec}

pub record RouteResult : Type 0 where
  pub primary : Bytes
  pub replicas : List Bytes

pub record RingEntry : Type 0 where
  pub hash : ℕ
  pub peer_idx : ℕ

pub record Router : Type 0 where
  pub local_node_id : Bytes
  pub vnodes_per_peer : ℕ
  pub replication_factor : ℕ
  pub peers : List Bytes
  pub ring : List RingEntry

-- The first `k` bytes of a string as a little-endian number.
unfoldable pub le_number : ℕ → Bytes → ℕ
le_number zero bs = 0
le_number (suc k) [] = 0
le_number (suc k) (b ∷ bs) = b + 256 * le_number k bs

-- `le_u64_from_digest`.
abbrev pub le_u64 : Bytes → ℕ
le_u64 = le_number 8

-- The digits of `std::to_string`, the last first; a number has fewer digits than its successor
-- is large.
unfoldable pub digits : ℕ → ℕ → Bytes → Bytes
digits zero n acc = acc
digits (suc fuel) n acc =
    let rest = digits fuel (n / 10) ((b'0' + n % 10) ∷ acc) in
    if ltb n 10 then (b'0' + n) ∷ acc else rest

unfoldable pub to_string : ℕ → Bytes
unfolding digits
to_string n = digits (suc n) n []

-- `HashBlock`: the content hash alone decides.
unfoldable pub hash_block : BlockId → ℕ
unfolding le_number
hash_block id = le_u64 id.hash

unfoldable pub hash_virtual_node : (Bytes → Bytes) → Bytes → ℕ → ℕ
unfolding le_number to_string
hash_virtual_node blake3 peer vn = le_u64 (blake3 (peer ++ (b'#' ∷ to_string vn)))

-- The inner loop of `SetPeers`: the entries of peer `i`, from virtual node `vn` on.
unfoldable pub vnode_entries : (Bytes → Bytes) → Bytes → ℕ → ℕ → ℕ → List RingEntry
unfolding hash_virtual_node
vnode_entries blake3 peer i zero vn = []
vnode_entries blake3 peer i (suc n) vn =
    record { hash = hash_virtual_node blake3 peer vn; peer_idx = i }
    ∷ vnode_entries blake3 peer i n (suc vn)

-- The outer loop, over the peers from index `i` on.
unfoldable pub peer_entries : (Bytes → Bytes) → ℕ → ℕ → List Bytes → List RingEntry
unfolding vnode_entries
peer_entries blake3 vnodes i [] = []
peer_entries blake3 vnodes i (peer ∷ peers) =
    vnode_entries blake3 peer i vnodes 0 ++ peer_entries blake3 vnodes (suc i) peers

unfoldable pub insert_entry : RingEntry → List RingEntry → List RingEntry
insert_entry e [] = e ∷ []
insert_entry e (f ∷ l) = if leb e.hash f.hash then e ∷ f ∷ l else f ∷ insert_entry e l

unfoldable pub sort_ring : List RingEntry → List RingEntry
unfolding insert_entry
sort_ring [] = []
sort_ring (e ∷ l) = insert_entry e (sort_ring l)

unfoldable pub set_peers : (Bytes → Bytes) → List Bytes → Router → Router
unfolding peer_entries sort_ring
set_peers blake3 peer_ids r = record r {
  peers = peer_ids;
  ring = sort_ring (peer_entries blake3 r.vnodes_per_peer 0 peer_ids);
}

abbrev pub no_entry : RingEntry
no_entry = record { hash = 0; peer_idx = 0 }

-- The binary search of `Route`. Each round shortens the range, so `hi - lo` rounds are enough.
unfoldable pub search_ring : ℕ → List RingEntry → ℕ → ℕ → ℕ → ℕ
search_ring zero ring target lo hi = lo
search_ring (suc fuel) ring target lo hi =
    let mid = lo + (hi - lo) / 2 in
    let upper = search_ring fuel ring target (mid + 1) hi in
    let lower = search_ring fuel ring target lo mid in
    if ltb lo hi then (if ltb (get_or ring mid no_entry).hash target then upper else lower) else lo

-- The peer at a ring position.
abbrev pub peer_at : Router → ℕ → Bytes
peer_at r i = get_or r.peers (get_or r.ring i no_entry).peer_idx []

unfoldable pub contains : Bytes → List Bytes → Bool
contains p [] = false
contains p (q ∷ l) = ite (bytes_dec p q) true (contains p l)

-- The walk of `Route` with `n` steps left. `seen` has the same peers as `picked`.
unfoldable pub pick : Router → ℕ → ℕ → ℕ → ℕ → List Bytes → List Bytes
unfolding contains
pick r want idx zero step picked = picked
pick r want idx (suc n) step picked =
    let peer = peer_at r ((idx + step) % length r.ring) in
    let rest =
      pick r want idx n (suc step)
        (if contains peer picked then picked else picked ++ (peer ∷ [])) in
    if ltb (length picked) want then rest else picked

-- The peers that `Route` picks, in order.
unfoldable pub picked_peers : Router → ℕ → List Bytes
unfolding pick search_ring
picked_peers r target =
    pick r (if ltb r.replication_factor 1 then 1 else r.replication_factor)
      (search_ring (length r.ring) r.ring target 0 (length r.ring) % length r.ring) (length r.ring)
      0 []

abbrev pub route_of : List Bytes → RouteResult
route_of [] = record { primary = []; replicas = [] }
route_of (p ∷ ps) = record { primary = p; replicas = ps }

abbrev pub is_nil {ℓ} : {A : Type ℓ} → List A → Bool
is_nil [] = true
is_nil (x ∷ xs) = false

unfoldable pub route : Router → BlockId → RouteResult
unfolding picked_peers hash_block
route r id =
    if is_nil r.ring || is_nil r.peers
    then record { primary = []; replicas = [] }
    else route_of (picked_peers r (hash_block id))

unfoldable pub is_local_primary : Router → BlockId → Bool
unfolding route
is_local_primary r id = ite (bytes_dec (route r id).primary r.local_node_id) true false

unfoldable pub is_local_replica : Router → BlockId → Bool
unfolding route contains
is_local_replica r id =
    ite (bytes_dec (route r id).primary r.local_node_id) true
      (contains r.local_node_id (route r id).replicas)
