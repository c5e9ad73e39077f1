-- ===== src/GrpcStream.antt =====
-- cache_server/src/grpc_stream_transport.cpp: the transport over gRPC. The stubs that gRPC makes are
-- a parameter: a call reaches the service at an address, and gives its response or a status that is
-- not OK.
pub mod Served
pub mod Delivery
pub mod Repeat
use mathlib.Core.List.{lookup}
use lethe.Base.Assoc.{remove}
use lethe.Base.{
  ℕ, Bool, true, false, Option, none, some, List, [], ◌∷◌, length, ltb, ◌&&◌, if◌then◌else◌,
}
use lethe.Types.{Bytes, bytes_dec, BlockId, KvBlock, dram}
use lethe.Service.{
  PbBlockId, PbBlock, InsertResponse, FetchResponse, block_id_from_proto, block_id_to_proto,
  tier_code,
}

-- The calls of a stub, by the address of its channel, on the state of the network.
pub record Stubs (W : Type 0) : Type 0 where
  pub insert : Bytes → List PbBlock → W → W × Option InsertResponse
  pub fetch : Bytes → PbBlockId → W → W × Option FetchResponse

-- The map of peers, from a peer to the address of its channel.
unfoldable pub connect : Bytes → Bytes → List (Bytes × Bytes) → List (Bytes × Bytes)
connect peer_id address peers = elim (lookup bytes_dec peer_id peers) [
  | some _ ↦ peers
  | none ↦ (peer_id, address) ∷ peers
]

unfoldable pub disconnect : Bytes → List (Bytes × Bytes) → List (Bytes × Bytes)
disconnect peer_id peers = remove bytes_dec peer_id peers

unfoldable pub shutdown : List (Bytes × Bytes) → List (Bytes × Bytes)
shutdown peers = []

unfoldable pub stub_for : Bytes → List (Bytes × Bytes) → Option Bytes
stub_for peer_id peers = lookup bytes_dec peer_id peers

-- The request of `Send`: one block, with a hint at DRAM.
abbrev pub push_request : BlockId → Bytes → List PbBlock
push_request id payload =
    record { id = block_id_to_proto id; kv_data = payload; tier_hint = tier_code dram } ∷ []

abbrev pub was_accepted : Option InsertResponse → Bool
was_accepted none = false
was_accepted (some resp) = ltb 0 resp.accepted_count

abbrev pub fetched_block : Option FetchResponse → Option KvBlock
fetched_block none = none
fetched_block (some resp) =
    if resp.found
    then some (record {
      id = block_id_from_proto resp.id;
      bytes = resp.kv_data;
      tier = dram;
      inserted_epoch = 0;
    })
    else none

module _ {W : Type 0} (stubs : Stubs W) where
  unfoldable pub send : Bytes → BlockId → Bytes → List (Bytes × Bytes) → W → W × Bool
  send peer_id id payload peers w = elim (stub_for peer_id peers) [
    | none ↦ (w, false)
    | some address ↦
        let r = stubs.insert address (push_request id payload) w in (r.0, was_accepted r.1)
  ]

  unfoldable pub fetch : Bytes → BlockId → List (Bytes × Bytes) → W → W × Option KvBlock
  fetch peer_id id peers w = elim (stub_for peer_id peers) [
    | none ↦ (w, none)
    | some address ↦
        let r = stubs.fetch address (block_id_to_proto id) w in (r.0, fetched_block r.1)
  ]
