-- ===== src/Startup.antt =====
-- What `main` of cache_server/src/main.cpp takes from its command line.
pub mod PeerList
pub mod Config
use lethe.Base.{ℕ, Bool, true, false, Option, none, some, List, [], ◌∷◌, ite}
use lethe.Base.Text.{cut_first, pieces}
use lethe.Types.{Bytes, bytes_dec, StaticPeer}

abbrev pub comma : ℕ
comma = 44

abbrev pub at_sign : ℕ
at_sign = 64

-- The peer of one item; an empty or malformed item and this node itself are skipped.
unfoldable pub parse_item : Bytes → Bytes → Option StaticPeer
parse_item local_node_id [] = none
parse_item local_node_id (x ∷ xs) = elim (cut_first at_sign (x ∷ xs)) [
  | none ↦ none
  | some (node_id, address) ↦
      ite (bytes_dec node_id local_node_id) none
        (some (record { node_id = node_id; address = address }))
]

abbrev pub add_peer : Option StaticPeer → List StaticPeer → List StaticPeer
add_peer none peers = peers
add_peer (some p) peers = p ∷ peers

unfoldable pub parse_items : Bytes → List Bytes → List StaticPeer
parse_items local_node_id [] = []
parse_items local_node_id (item ∷ items) =
    add_peer (parse_item local_node_id item) (parse_items local_node_id items)

unfoldable pub parse_peer_list : Bytes → Bytes → List StaticPeer
parse_peer_list spec local_node_id = parse_items local_node_id (pieces comma spec)
