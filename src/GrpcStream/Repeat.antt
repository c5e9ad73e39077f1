-- ===== src/GrpcStream/Repeat.antt =====
-- A push over gRPC of a block that the peer already has.
use mathlib.Core.List.{lookup}
use lethe.Base.{
  ℕ, ◌≡◌, refl, sym, ap, ◌∙◌, Bool, true, false, Option, none, some, List, length, ltb, if_pos,
  if_neg, arith, Option-cases, inl, inr,
}
use lethe.Types.{Bytes, bytes_dec, BlockId, KvBlock, dram, id_dec}
use lethe.TieredStore.{TieredStore, memory, copy, put_to_tier, put, put_first, fallthrough}
use lethe.Layer.Nullable.{put_or_false, get_or_miss}
use lethe.BlockStore
use lethe.Cache.{LetheCache, total_used, store, insert_one}
use lethe.Service.{
  PbBlock, PbBlockId, block_from_proto, block_id_from_proto, block_id_to_proto, tier_of_hint,
  tier_code,
}
use lethe.Service
use lethe.GrpcStream.{send, stub_for, push_request}
use lethe.GrpcStream.Served.{
  Nodes, Fate, delivered, lost_request, lost_response, served, serve, update,
}
use lethe.GrpcStream.Delivery.{pushed_block, service_insert}

-- A block that a memory store has is not put again.
put_known :
    (b : KvBlock) (s : BlockStore.BlockStore) (bs : Bytes)
    → BlockStore.get b.id s ≡ some bs
    → BlockStore.put b s ≡ (s, true)
unfolding BlockStore.get BlockStore.put
put_known b s bs held = elim (Option-cases (lookup id_dec b.id s.blocks)) [
  | inl none_there ↦ absurd (ground arith)
  | inr (kv, at) ↦ rw (BlockStore.put, at) refl
]

put_or_false_known :
    (b : KvBlock) (o : Option BlockStore.BlockStore) (bs : Bytes)
    → memory.get b.id o ≡ some bs
    → memory.put b o ≡ (o, true)
unfolding put_or_false get_or_miss
put_or_false_known b none bs held = absurd (ground arith)
put_or_false_known b (some s) bs held =
    ap (λ (r : BlockStore.BlockStore × Bool). (some r.0, r.1)) (put_known b s bs held)

put_dram_known :
    (b : KvBlock) (t : TieredStore) (bs : Bytes)
    → copy dram b.id t ≡ some bs
    → put b dram t ≡ (t, some dram)
unfolding copy put_to_tier put put_first fallthrough
put_dram_known b t bs held =
    let again = put_or_false_known b t.dram_store bs held in
    rw (put, put_first, put_to_tier, again) refl

ltb_irrefl : (n : ℕ) → ltb n n ≡ false
ltb_irrefl n = ground arith

insert_one_known :
    (id : BlockId) (payload bs : Bytes) (c : LetheCache)
    → copy dram id (store c) ≡ some bs
    → insert_one (pushed_block id payload) c ≡ (c, false)
unfolding insert_one
insert_one_known id payload bs c held =
    let same = put_dram_known (pushed_block id payload) (store c) bs held in
    rw (insert_one, same, ltb_irrefl (total_used (store c))) refl

update-same :
    (address : Bytes) (c : LetheCache) (nodes : Nodes) (a : Bytes)
    → c ≡ nodes address
    → update address c nodes a ≡ nodes a
update-same address c nodes a e = elim (bytes_dec a address) [
  | yes here ↦ if_pos (bytes_dec a address) here c (nodes a) ∙ e ∙ ap nodes (sym here)
  | no there ↦ if_neg (bytes_dec a address) there c (nodes a)
]

module _ (peer_id address : Bytes) (id : BlockId) (payload bs : Bytes)
    (peers : List (Bytes × Bytes)) (nodes : Nodes) (hash : length id.hash ≡ 32)
    (known : stub_for peer_id peers ≡ some address)
    (held : copy dram id (store (nodes address)) ≡ some bs) where
  refused : (insert_one (pushed_block id payload) (nodes address)).1 ≡ false
  refused =
      ap (λ (r : LetheCache × Bool). r.1) (insert_one_known id payload bs (nodes address) held)

  unchanged : (Service.insert (push_request id payload) (nodes address)).0 ≡ nodes address
  unchanged =
      (service_insert id payload (nodes address) hash).0
      ∙ ap (λ (r : LetheCache × Bool). r.0) (insert_one_known id payload bs (nodes address) held)

  -- A `Send` of a block that the DRAM tier of a connected peer already has, with a hash of 32
  -- bytes, is reported as failed, whatever became of the call, and leaves every node as it was.
  pub send_again :
      (fate : Fate)
      → let r = send (served fate) peer_id id payload peers nodes in
        (r.1 ≡ false) × ((a : Bytes) → r.0 a ≡ nodes a)
  unfolding serve send
  send_again delivered =
      rw (send, known)
        (
          (service_insert id payload (nodes address) hash).1 ∙ refused,
          λ a. update-same address _ nodes a unchanged,
        )
  send_again lost_request = rw (send, known) (refl, λ a. refl)
  send_again lost_response = rw (send, known) (refl, λ a. update-same address _ nodes a unchanged)
