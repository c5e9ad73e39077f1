-- ===== src/Startup/PeerList.antt =====
-- Peer lists written and read back.
use lethe.Base.{◌≡◌, ◌≢◌, refl, none, some, List, [], ◌∷◌, ◌++◌, ite, All, arith, All-append}
use lethe.Base.Text.{cut_first, pieces, Lacks, cut_first-append, pieces-last, pieces-append}
use lethe.Types.{Bytes, bytes_dec, StaticPeer}
use lethe.Startup.{comma, at_sign, parse_item, add_peer, parse_items, parse_peer_list}

-- An item as the launch scripts write it, and a list of them.
abbrev pub item : StaticPeer → Bytes
item p = p.node_id ++ at_sign ∷ p.address

abbrev pub peer_list : List StaticPeer → Bytes
peer_list [] = []
peer_list (p ∷ []) = item p
peer_list (p ∷ q ∷ ps) = item p ++ comma ∷ peer_list (q ∷ ps)

-- A peer whose name and address the syntax can carry.
pub record IsPlain (p : StaticPeer) : Type 0 where
  pub name_at : Lacks at_sign p.node_id
  pub name_comma : Lacks comma p.node_id
  pub address_comma : Lacks comma p.address

-- The peers without this node.
abbrev pub others : Bytes → List StaticPeer → List StaticPeer
others local_node_id [] = []
others local_node_id (p ∷ ps) =
    ite (bytes_dec p.node_id local_node_id) (others local_node_id ps) (p ∷ others local_node_id ps)

item-Lacks : (p : StaticPeer) → IsPlain p → Lacks comma (item p)
item-Lacks p h =
    All-append (λ x. x ≢ comma) p.node_id (at_sign ∷ p.address) h.name_comma
      ((λ e. absurd (omega (arith, e))), h.address_comma)

parse_item-cut :
    (local_node_id xs node_id address : Bytes)
    → cut_first at_sign xs ≡ some (node_id, address)
    → parse_item local_node_id xs
      ≡ ite
          (bytes_dec node_id local_node_id)
          none
          (some (record { node_id = node_id; address = address }))
unfolding parse_item cut_first
parse_item-cut local [] node_id address h = absurd (ground arith)
parse_item-cut local (x ∷ xs) node_id address h = rw (parse_item, h) refl

parse_item-item :
    (local_node_id : Bytes) (p : StaticPeer)
    → IsPlain p
    → parse_item local_node_id (item p) ≡ ite (bytes_dec p.node_id local_node_id) none (some p)
parse_item-item local p h =
    parse_item-cut local (item p) p.node_id p.address
      (cut_first-append at_sign p.node_id p.address h.name_at)

add_item :
    (local : Bytes) (p : StaticPeer) (ps qs : List StaticPeer)
    → qs ≡ others local ps
    → add_peer (ite (bytes_dec p.node_id local) none (some p)) qs ≡ others local (p ∷ ps)
add_item local p ps qs e = ground arith

items-parse :
    (local_node_id : Bytes) (p : StaticPeer) (ps : List StaticPeer)
    → All IsPlain (p ∷ ps)
    → parse_items local_node_id (pieces comma (peer_list (p ∷ ps))) ≡ others local_node_id (p ∷ ps)
unfolding parse_items
items-parse local p [] h =
    rw (pieces-last comma (item p) (item-Lacks p h.0), parse_item-item local p h.0)
      (add_item local p [] [] refl)
items-parse local p (q ∷ ps) h =
    rw
      (
        pieces-append comma (item p) (peer_list (q ∷ ps)) (item-Lacks p h.0),
        parse_item-item local p h.0,
      )
      (add_item local p (q ∷ ps) (parse_items local (pieces comma (peer_list (q ∷ ps))))
        (items-parse local q ps h.1))

-- `ParsePeerList` of a written list of peers, whose names have no comma and no `@` and whose
-- addresses have no comma, is the list in order without this node.
pub parse_peer_list-peer_list :
    (local_node_id : Bytes) (ps : List StaticPeer)
    → All IsPlain ps
    → parse_peer_list (peer_list ps) local_node_id ≡ others local_node_id ps
unfolding parse_peer_list pieces parse_items parse_item
parse_peer_list-peer_list local [] h = refl
parse_peer_list-peer_list local (p ∷ ps) h = items-parse local p ps h
