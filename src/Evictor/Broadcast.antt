-- ===== src/Evictor/Broadcast.antt =====
-- `BroadcastEvictionsToPeers` of cache_server/src/eviction.cpp, over a network of nodes: the call of
-- a peer's stub is a parameter, and its result is not looked at.
use lethe.Base.{
  ◌≡◌, ◌≢◌, refl, sym, ap, ◌∙◌, subst, true, List, [], ◌∷◌, map, All, length, if_pos, if_neg, Has,
  here, there, ◌⊎◌, inl, inr,
}
use lethe.Types.{Bytes, bytes_dec, BlockId}
use lethe.Membership.{Membership, all_peer_addresses}
use lethe.Cache.{LetheCache, store, on_evict_broadcast}
use lethe.Evictor.Peers.{has_id, on_peer_eviction_lem}
use lethe.Service.{PbBlockId, block_id_from_proto, block_id_to_proto, evict_broadcast}
use lethe.Service.Wire.{block_id_from_proto-to}
use lethe.GrpcStream.Served.{Nodes, Fate, delivered, lost_request, lost_response, serve, update}

module _ {W : Type 0} (call : Bytes → List PbBlockId → Bytes → W → W) where
  -- The loop over the addresses.
  unfoldable pub broadcast_to : List PbBlockId → Bytes → List Bytes → W → W
  broadcast_to evicted source [] w = w
  broadcast_to evicted source (address ∷ addresses) w =
      broadcast_to evicted source addresses (call address evicted source w)

  unfoldable pub broadcast_evictions : List BlockId → Membership → W → W
  unfolding broadcast_to
  broadcast_evictions evicted m w =
      broadcast_to (map block_id_to_proto evicted) m.local_node_id (all_peer_addresses m.peers) w

-- A call that is served by the node at its address, under a fate of its own.
abbrev pub served_call : (Bytes → Fate) → Bytes → List PbBlockId → Bytes → Nodes → Nodes
served_call fates address evicted source nodes =
    (serve (fates address) address (evict_broadcast evicted source) nodes).0

-- A node knows that the source evicted the block.
abbrev pub Knows : BlockId → Bytes → LetheCache → Type 0
Knows id source c = has_id id (c.peer_evicted source) ≡ true

Has-cases : (a b : Bytes) (l : List Bytes) → Has a (b ∷ l) → (a ≡ b) ⊎ Has a l
Has-cases a b l (here _) = inl refl
Has-cases a b l (there _ h) = inr h

module _ (fates : Bytes → Fate) (id : BlockId) (evicted : List BlockId) (source : Bytes)
    (named : has_id id evicted ≡ true) (hashes : All (λ j. length j.hash ≡ 32) evicted) where
  map-wire :
      (ids : List BlockId)
      → All (λ j. length j.hash ≡ 32) ids
      → map block_id_from_proto (map block_id_to_proto ids) ≡ ids
  map-wire [] h = refl
  map-wire (j ∷ ids) h = rw (block_id_from_proto-to j h.0, map-wire ids h.1) refl

  wire : List PbBlockId
  wire = map block_id_to_proto evicted

  handled :
      (c : LetheCache)
      → (Knows id source (evict_broadcast wire source c).0)
        × (store (evict_broadcast wire source c).0 ≡ store c)
  unfolding evict_broadcast on_evict_broadcast wire
  handled c = (
    rw (map-wire evicted hashes) ((on_peer_eviction_lem evicted source c.peer_evicted).0 id named),
    refl,
  )

  -- What a call makes of the node at an address: it may learn, it does not forget, and its store is
  -- as it was.
  record Told (when : Type 0) (c d : LetheCache) : Type 0 where
    pub keeps : Knows id source c → Knows id source d
    pub learns : when → Knows id source d
    pub same_store : store d ≡ store c

  served-Told :
      (b a : Bytes) (nodes : Nodes)
      → Told (a ≡ b) (nodes a) (update b (evict_broadcast wire source (nodes b)).0 nodes a)
  served-Told b a nodes =
      let c' = (evict_broadcast wire source (nodes b)).0 in
      let (knows, same) = handled (nodes b) in
      elim (bytes_dec a b) [
        | yes p ↦
            let e : update b c' nodes a ≡ c' = if_pos (bytes_dec a b) p c' (nodes a) in
            let k : Knows id source (update b c' nodes a) = subst (Knows id source) (sym e) knows in
            record {
              keeps = λ _. k;
              learns = λ _. k;
              same_store = ap store e ∙ same ∙ ap (λ x. store (nodes x)) (sym p);
            }
        | no p ↦
            let e : update b c' nodes a ≡ nodes a = if_neg (bytes_dec a b) p c' (nodes a) in
            record {
              keeps = λ k. subst (Knows id source) (sym e) k;
              learns = λ q. absurd (p q);
              same_store = ap store e;
            }
      ]

  serve-Told :
      (f : Fate) (b a : Bytes) (nodes : Nodes)
      → Told
          ((f ≢ lost_request) × (a ≡ b))
          (nodes a)
          ((serve f b (evict_broadcast wire source) nodes).0 a)
  unfolding serve
  serve-Told delivered b a nodes =
      let t = served-Told b a nodes in
      record { keeps = t.keeps; learns = λ h. t.learns h.1; same_store = t.same_store }
  serve-Told lost_response b a nodes =
      let t = served-Told b a nodes in
      record { keeps = t.keeps; learns = λ h. t.learns h.1; same_store = t.same_store }
  serve-Told lost_request b a nodes = record {
    keeps = λ k. k;
    learns = λ h. absurd (h.0 refl);
    same_store = refl;
  }

  broadcast_to-Told :
      (addresses : List Bytes) (a : Bytes) (nodes : Nodes)
      → Told
          ((fates a ≢ lost_request) × Has a addresses)
          (nodes a)
          (broadcast_to (served_call fates) wire source addresses nodes a)
  unfolding broadcast_to
  broadcast_to-Told [] a nodes = record {
    keeps = λ k. k;
    learns = λ h. elim h.1 [ ];
    same_store = refl;
  }
  broadcast_to-Told (b ∷ addresses) a nodes =
      let one = serve-Told (fates b) b a nodes in
      let rest = broadcast_to-Told addresses a (served_call fates b wire source nodes) in
      record {
        keeps = λ k. rest.keeps (one.keeps k);
        learns = λ h. elim (Has-cases a b addresses h.1) [
          | inl e ↦ rest.keeps (one.learns (subst (λ x. fates x ≢ lost_request) e h.0, e))
          | inr later ↦ rest.learns (h.0, later)
        ];
        same_store = rest.same_store ∙ one.same_store;
      }

-- After a broadcast of evicted blocks, whose hashes have 32 bytes, the node at each address of the
-- membership's list that its call reaches, whatever becomes of the other calls and of the
-- responses, counts each of the blocks as evicted by the sender; no node's store has changed.
pub broadcast_evictions_lem :
    (fates : Bytes → Fate) (evicted : List BlockId) (m : Membership) (nodes : Nodes) (id : BlockId)
    (address : Bytes)
    → has_id id evicted ≡ true
    → All (λ j. length j.hash ≡ 32) evicted
    → Has address (all_peer_addresses m.peers)
    → fates address ≢ lost_request
    → let nodes' = broadcast_evictions (served_call fates) evicted m nodes in
      Knows id m.local_node_id (nodes' address) × ((a : Bytes) → store (nodes' a) ≡ store (nodes a))
unfolding broadcast_evictions wire
broadcast_evictions_lem fates evicted m nodes id address named hashes listed reached =
    let told =
      broadcast_to-Told fates id evicted m.local_node_id named hashes
        (all_peer_addresses m.peers) in
    ((told address nodes).learns (reached, listed), λ a. (told a nodes).same_store)
