-- ===== src/GrpcStream/Delivery.antt =====
-- What a push over gRPC leaves at the peer.
use lethe.Base.{
  ◌≡◌, ◌≢◌, refl, sym, ap, ◌∙◌, Bool, true, false, some, List, [], ◌∷◌, length, ltb, if_pos, if_neg,
  if◌then◌else◌, arith, map, ◌⊎◌, inl, inr,
}
use lethe.Types.{Bytes, bytes_dec, BlockId, KvBlock, Tier, dram}
use lethe.TieredStore.Good.{IsGood, IsLegal}
use lethe.Cache.{LetheCache, total_used, store, insert_one, fetch_local}
use lethe.Cache
use lethe.Cache.Lookups.{insert_fetch}
use lethe.Service.{
  PbBlock, PbBlockId, block_from_proto, block_id_from_proto, block_id_to_proto, tier_of_hint,
  tier_code,
}
use lethe.Service
use lethe.Service.Wire.{block_id_from_proto-to, tier_of_hint-code}
use lethe.GrpcStream.{Stubs, send, fetch, stub_for, push_request, was_accepted, fetched_block}
use lethe.GrpcStream.Served.{
  Nodes, Fate, delivered, lost_request, lost_response, served, serve, update,
}

-- The block that a push carries.
abbrev pub pushed_block : BlockId → Bytes → KvBlock
pushed_block id payload = record { id = id; bytes = payload; tier = dram; inserted_epoch = 0 }

pub push_request-blocks :
    (id : BlockId) (payload : Bytes)
    → length id.hash ≡ 32
    → map block_from_proto (push_request id payload) ≡ pushed_block id payload ∷ []
unfolding block_from_proto
push_request-blocks id payload h = rw (block_id_from_proto-to id h, tier_of_hint-code dram) refl

insert-singleton :
    (b : KvBlock) (c : LetheCache)
    → Cache.insert (b ∷ []) 0 c ≡ ((insert_one b c).0, if (insert_one b c).1 then 1 else 0)
unfolding Cache.insert
insert-singleton b c = refl

pub service_insert :
    (id : BlockId) (payload : Bytes) (c : LetheCache)
    → length id.hash ≡ 32
    → ((Service.insert (push_request id payload) c).0 ≡ (insert_one (pushed_block id payload) c).0)
      × (ltb 0 (Service.insert (push_request id payload) c).1.accepted_count
          ≡ (insert_one (pushed_block id payload) c).1)
unfolding Service.insert
service_insert id payload c h =
    rw (push_request-blocks id payload h, insert-singleton (pushed_block id payload) c)
      (refl, ground arith)

found_response :
    (p : PbBlockId) (bytes : Bytes) (tier : Tier) (c : LetheCache)
    → (fetch_local (block_id_from_proto p) c).1 ≡ some (bytes, tier)
    → (Service.fetch p c).1 ≡ record {
      id = block_id_to_proto (block_id_from_proto p);
      kv_data = bytes;
      found = true;
      tier = tier_code tier;
    }
unfolding Service.fetch
found_response p bytes tier c e = rw (Service.fetch, e) refl

service_fetch :
    (id : BlockId) (bytes : Bytes) (tier : Tier) (c : LetheCache)
    → length id.hash ≡ 32
    → (fetch_local id c).1 ≡ some (bytes, tier)
    → fetched_block (some (Service.fetch (block_id_to_proto id) c).1) ≡ some (pushed_block id bytes)
service_fetch id bytes tier c h e =
    let same = block_id_from_proto-to id h in
    ap (λ r. fetched_block (some r))
      (found_response (block_id_to_proto id) bytes tier c (ap (λ j. (fetch_local j c).1) same ∙ e))
    ∙ ap (λ j. some (pushed_block j bytes))
        (ap (λ j. block_id_from_proto (block_id_to_proto j)) same ∙ same)

module _ (content : BlockId → Bytes) (peer_id address : Bytes) (id : BlockId) (payload : Bytes)
    (peers : List (Bytes × Bytes)) (nodes : Nodes) (hash : length id.hash ≡ 32)
    (known : stub_for peer_id peers ≡ some address) where
  abbrev node : LetheCache
  node = nodes address

  sent :
      {W : Type 0} (stubs : Stubs W) (w : W)
      → send stubs peer_id id payload peers w ≡ (
        (stubs.insert address (push_request id payload) w).0,
        was_accepted (stubs.insert address (push_request id payload) w).1,
      )
  unfolding send
  sent stubs w = rw (send, known) refl

  pulled :
      {W : Type 0} (stubs : Stubs W) (w : W)
      → (fetch stubs peer_id id peers w).1
        ≡ fetched_block (stubs.fetch address (block_id_to_proto id) w).1
  unfolding fetch
  pulled stubs w = rw (fetch, known) refl

  -- What the peer is after the push.
  after : LetheCache
  after = (insert_one (pushed_block id payload) node).0

  push-delivered :
      send (served delivered) peer_id id payload peers nodes
      ≡ (update address after nodes, (insert_one (pushed_block id payload) node).1)
  unfolding serve after
  push-delivered =
      let (stored, answer) = service_insert id payload node hash in
      rw (sent (served delivered) nodes, stored, answer) refl

  lost :
      (fate : Fate)
      → (fate ≡ delivered) ⊎ ((send (served fate) peer_id id payload peers nodes).1 ≡ false)
  unfolding serve
  lost delivered = inl refl
  lost lost_request = inr (rw (sent (served lost_request) nodes) refl)
  lost lost_response = inr (rw (sent (served lost_response) nodes) refl)

  fetch-after :
      (tier : Tier)
      → (fetch_local id after).1 ≡ some (payload, tier)
      → (fetch (served delivered) peer_id id peers (update address after nodes)).1
        ≡ some (pushed_block id payload)
  unfolding serve
  fetch-after tier e =
      rw
        (
          pulled (served delivered) (update address after nodes),
          if_pos (bytes_dec address address) refl after (nodes address),
        )
        (service_fetch id payload tier after hash e)

  -- If a `Send` of a block, with a hash of 32 bytes, to a connected peer with a good store is
  -- reported successful, whatever became of the call, then a `Fetch` of the id from this peer that
  -- is delivered gives the block with its bytes, and no other node has changed. The block has
  -- bytes, a legal size and the content of its id.
  pub send_fetch :
      (fate : Fate)
      → IsGood content (store (nodes address))
      → IsLegal content (pushed_block id payload)
      → (send (served fate) peer_id id payload peers nodes).1 ≡ true
      → let nodes' = (send (served fate) peer_id id payload peers nodes).0 in
        ((fetch (served delivered) peer_id id peers nodes').1 ≡ some (pushed_block id payload))
        × ((other : Bytes) → other ≢ address → nodes' other ≡ nodes other)
  unfolding after
  send_fetch fate good legal ok = elim (lost fate) [
    | inr failed ↦ absurd (cc)
    | inl e ↦
        let accepted : (insert_one (pushed_block id payload) node).1 ≡ true =
          sym (ap (λ (r : Nodes × Bool). r.1) push-delivered)
          ∙ ap (λ f. (send (served f) peer_id id payload peers nodes).1) (sym e)
          ∙ ok in
        let ((tier, found), others) =
          insert_fetch content (pushed_block id payload) node good legal.small legal.of_id
            legal.some_bytes accepted in
        rw (e, push-delivered)
          (
            fetch-after tier found,
            λ other ne. if_neg (bytes_dec other address) ne after (nodes other),
          )
  ]
