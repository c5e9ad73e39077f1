-- ===== src/Service.antt =====
-- The gRPC service of cache_server/src/main.cpp: each handler takes a request message apart, calls
-- the facade, and fills in the response. The messages are those of proto/lethe.proto.
pub mod Wire
use lethe.Base.{
  ℕ, ◌+◌, ◌-◌, ◌%◌, ◌^◌, Bool, true, false, List, [], ◌∷◌, ◌++◌, map, length, take, Option, none,
  some, ltb, if◌then◌else◌, add64, ◌==◌, u64_mod, zero, suc,
}
use mathlib.Core.Option.{get_or}
use lethe.Types.{
  Bytes, BlockId, KvBlock, Tier, hbm, dram, ssd, StreamPurpose, replication_push, read_repair,
  promotion, HeartbeatReply,
}
use lethe.Cache.{LetheCache, Entry, LookupResult, Where, local_hit, remote_hit, miss}
use lethe.Cache

-- `lethe.rpc.BlockId`; its hash may have any length.
pub record PbBlockId : Type 0 where
  pub hash : Bytes
  pub layer : ℕ
  pub head_group : ℕ
  pub model_id : ℕ

abbrev pub zeros : ℕ → Bytes
zeros zero = []
zeros (suc n) = 0 ∷ zeros n

unfoldable pub block_id_from_proto : PbBlockId → BlockId
block_id_from_proto src = record {
  hash = take 32 src.hash ++ zeros (32 - length src.hash);
  layer = src.layer;
  head_group = src.head_group;
  model_id = src.model_id;
}

unfoldable pub block_id_to_proto : BlockId → PbBlockId
block_id_to_proto src = record {
  hash = src.hash;
  layer = src.layer;
  head_group = src.head_group;
  model_id = src.model_id;
}

-- `static_cast<std::uint32_t>(tier)` and its inverse; `Insert` takes any other number for DRAM.
unfoldable pub tier_code : Tier → ℕ
tier_code hbm = 0
tier_code dram = 1
tier_code ssd = 2

unfoldable pub tier_of_hint : ℕ → Tier
tier_of_hint hint = if hint == 0 then hbm else if hint == 2 then ssd else dram

pub record Hit : Type 0 where
  pub id : PbBlockId
  pub source_node : Bytes
  pub tier : ℕ

pub record LookupResponse : Type 0 where
  pub hits : List Hit
  pub misses : List PbBlockId

-- The body of the loop of `Lookup` over the entries.
unfoldable pub add_entry : Bytes → Entry → LookupResponse → LookupResponse
add_entry node_id e resp = elim e.place [
  | local_hit ↦ record resp {
    hits =
        record { id = block_id_to_proto e.id; source_node = node_id; tier = tier_code e.tier }
        ∷ resp.hits;
  }
  | remote_hit ↦ record resp {
    hits =
        record {
          id = block_id_to_proto e.id;
          source_node = get_or e.remote_node [];
          tier = tier_code e.tier;
        }
        ∷ resp.hits;
  }
  | miss ↦ record resp { misses = block_id_to_proto e.id ∷ resp.misses }
]

unfoldable pub lookup_response : Bytes → List Entry → LookupResponse
lookup_response node_id [] = record { hits = []; misses = [] }
lookup_response node_id (e ∷ es) = add_entry node_id e (lookup_response node_id es)

unfoldable pub lookup : List PbBlockId → LetheCache → LetheCache × LookupResponse
lookup block_ids c =
    let r = Cache.lookup (map block_id_from_proto block_ids) c in
    (r.0, lookup_response r.0.node_id r.1.entries)

-- `InsertRequest.Block`.
pub record PbBlock : Type 0 where
  pub id : PbBlockId
  pub kv_data : Bytes
  pub tier_hint : ℕ

unfoldable pub block_from_proto : PbBlock → KvBlock
block_from_proto b = record {
  id = block_id_from_proto b.id;
  bytes = b.kv_data;
  tier = tier_of_hint b.tier_hint;
  inserted_epoch = 0;
}

pub record InsertResponse : Type 0 where
  pub accepted_count : ℕ
  pub rejected_count : ℕ

unfoldable pub insert : List PbBlock → LetheCache → LetheCache × InsertResponse
insert blocks c =
    let r = Cache.insert (map block_from_proto blocks) 0 c in
    (
      r.0,
      record {
        accepted_count = r.1;
        rejected_count = (length blocks % 2 ^ 32 + 2 ^ 32 - r.1) % 2 ^ 32;
      },
    )

pub record FetchResponse : Type 0 where
  pub id : PbBlockId
  pub kv_data : Bytes
  pub found : Bool
  pub tier : ℕ

unfoldable pub fetch : PbBlockId → LetheCache → LetheCache × FetchResponse
fetch pb_id c =
    let id = block_id_from_proto pb_id in
    let got = Cache.fetch_local id c in
    (
      got.0,
      elim got.1 [
        | some (bytes, tier) ↦ record {
          id = block_id_to_proto id;
          kv_data = bytes;
          found = true;
          tier = tier_code tier;
        }
        | none ↦ record { id = block_id_to_proto id; kv_data = []; found = false; tier = 0 }
      ],
    )

-- `BlockChunk`; the purpose is the number on the wire.
pub record BlockChunk : Type 0 where
  pub id : PbBlockId
  pub payload : Bytes
  pub purpose : ℕ

unfoldable pub purpose_of : ℕ → StreamPurpose
purpose_of purpose =
    if purpose == 1 then read_repair else if purpose == 2 then promotion else replication_push

pub record StreamAck : Type 0 where
  pub received_count : ℕ
  pub total_bytes : ℕ

-- The loop of `StreamBlocks` over what the reader gives, from the counts so far.
unfoldable pub stream_chunks : List BlockChunk → StreamAck → LetheCache → LetheCache × StreamAck
stream_chunks [] ack c = (c, ack)
stream_chunks (chunk ∷ chunks) ack c =
    stream_chunks chunks
      (record {
        received_count = (ack.received_count + 1) % 2 ^ 32;
        total_bytes = add64 ack.total_bytes (length chunk.payload);
      })
      (Cache.ingest_streamed_block (block_id_from_proto chunk.id) chunk.payload
        (purpose_of chunk.purpose) c)

unfoldable pub stream_blocks : List BlockChunk → LetheCache → LetheCache × StreamAck
stream_blocks chunks c = stream_chunks chunks (record { received_count = 0; total_bytes = 0 }) c

-- The response of `Heartbeat` has the fields of the reply.
unfoldable pub heartbeat :
    (Bytes → Bytes) → ℕ → Bytes → ℕ → LetheCache → LetheCache × HeartbeatReply
heartbeat blake3 now node_id epoch c = Cache.on_heartbeat blake3 now node_id epoch c

-- `EvictBroadcast`, which always acknowledges.
unfoldable pub evict_broadcast : List PbBlockId → Bytes → LetheCache → LetheCache × Bool
evict_broadcast evicted source_node c =
    (Cache.on_evict_broadcast (map block_id_from_proto evicted) source_node c, true)
