-- ===== src/Node/Handlers.antt =====
-- What the handlers keep of a node.
use lethe.Base.{ℕ, ◌≤◌, Bool, true, false, List, [], ◌∷◌, ◌&&◌, if◌then◌else◌, All, ltb}
use lethe.Types.{Bytes, BlockId, KvBlock, dram}
use lethe.TieredStore.{TieredStore, get, put}
use lethe.TieredStore.Good.{IsGood, IsLegal, get-IsGood}
use lethe.Replicator.{replicate_out, replication_queue_max}
use lethe.Cache.{
  LetheCache, store, with_store, rereplicate, insert, insert_one, lookup_one, has_landed,
  total_used, ingest_streamed_block,
}
use lethe.Cache
use lethe.Cache.Keeps.{put-IsGood}
use lethe.Node.Keeps.{replicate_out-IsSettled}
use lethe.Node.Clusters.{IsSound}
use lethe.Service.{
  PbBlockId, PbBlock, BlockChunk, StreamAck, block_from_proto, block_id_from_proto, purpose_of,
  stream_chunks,
}
use lethe.Service
use lethe.Base.{map, All-map}

module _ (content : BlockId → Bytes) where
  -- Blocks on the wire that may be put into a node.
  abbrev pub IsLegalBlock : PbBlock → Type 0
  IsLegalBlock b = IsLegal content (block_from_proto b)

  abbrev pub chunk_block : BlockChunk → KvBlock
  chunk_block chunk = record {
    id = block_id_from_proto chunk.id;
    bytes = chunk.payload;
    tier = dram;
    inserted_epoch = 0;
  }

  abbrev pub IsLegalChunk : BlockChunk → Type 0
  IsLegalChunk chunk = IsLegal content (chunk_block chunk)

module _ (content : BlockId → Bytes) (slack cap : ℕ) (roomy : replication_queue_max ≤ cap) where
  pub with_store-IsSound :
      (u : TieredStore) (c : LetheCache)
      → IsGood content u
      → IsSound content slack cap c.cluster
      → IsSound content slack cap (with_store u c).cluster
  with_store-IsSound u c g s = record {
    ring = s.ring;
    settled = record { cursor = s.settled.cursor; bounded = s.settled.bounded; good = g };
  }

  lookup-IsSound :
      (ids : List BlockId) (c : LetheCache)
      → IsSound content slack cap c.cluster
      → IsSound content slack cap (Cache.lookup ids c).0.cluster
  unfolding Cache.lookup lookup_one
  lookup-IsSound [] c s = s
  lookup-IsSound (id ∷ ids) c s =
      lookup-IsSound ids (with_store (get id (store c)).0 c) (
        with_store-IsSound (get id (store c)).0 c (get-IsGood content id (store c) s.settled.good)
          s)

  -- `Insert` of legal blocks.
  if_landed-IsSound :
      (b : Bool) (c d : LetheCache)
      → IsSound content slack cap c.cluster
      → IsSound content slack cap d.cluster
      → IsSound content slack cap
          (if◌then◌else◌ {A = LetheCache × Bool} b (c, true) (d, false)).0.cluster
  if_landed-IsSound true c d s t = s
  if_landed-IsSound false c d s t = t

  insert_one-IsSound :
      (b : KvBlock) (c : LetheCache)
      → IsLegal content b
      → IsSound content slack cap c.cluster
      → IsSound content slack cap (insert_one b c).0.cluster
  unfolding insert_one
  insert_one-IsSound b c legal s =
      let g = put-IsGood content b b.tier (store c) legal s.settled.good in
      let pushed = (replicate_out c.cluster.router b c.cluster.replicator.0).0 in
      let u = (put b b.tier (store c)).0 in
      if_landed-IsSound
        (has_landed (put b b.tier (store c)).1 && ltb (total_used (store c)) (total_used u))
        (record c { cluster = record (c.cluster) { replicator = (pushed, u) } }) (with_store u c)
        (record {
          ring = s.ring;
          settled =
              replicate_out-IsSettled content slack cap c.cluster.router b c.cluster.replicator.0
                (store c) u roomy s.settled g;
        })
        (with_store-IsSound u c g s)

  insert-IsSound :
      (blocks : List KvBlock) (n : ℕ) (c : LetheCache)
      → All (IsLegal content) blocks
      → IsSound content slack cap c.cluster
      → IsSound content slack cap (insert blocks n c).0.cluster
  unfolding insert
  insert-IsSound [] n c legal s = s
  insert-IsSound (b ∷ blocks) n c legal s =
      insert-IsSound blocks _ (insert_one b c).0 legal.1 (insert_one-IsSound b c legal.0 s)

  pub service_insert-IsSound :
      (blocks : List PbBlock) (c : LetheCache)
      → All (IsLegalBlock content) blocks
      → IsSound content slack cap c.cluster
      → IsSound content slack cap (Service.insert blocks c).0.cluster
  unfolding Service.insert
  service_insert-IsSound blocks c l s =
      insert-IsSound (map block_from_proto blocks) 0 c
        (All-map (IsLegal content) block_from_proto blocks l) s

  pub service_lookup-IsSound :
      (ids : List PbBlockId) (c : LetheCache)
      → IsSound content slack cap c.cluster
      → IsSound content slack cap (Service.lookup ids c).0.cluster
  unfolding Service.lookup
  service_lookup-IsSound ids c s = lookup-IsSound (map block_id_from_proto ids) c s

  pub service_fetch-IsSound :
      (id : PbBlockId) (c : LetheCache)
      → IsSound content slack cap c.cluster
      → IsSound content slack cap (Service.fetch id c).0.cluster
  unfolding Service.fetch Cache.fetch_local
  service_fetch-IsSound id c s =
      with_store-IsSound (get (block_id_from_proto id) (store c)).0 c
        (get-IsGood content (block_id_from_proto id) (store c) s.settled.good) s

  ingest-IsSound :
      (chunk : BlockChunk) (c : LetheCache)
      → IsLegalChunk content chunk
      → IsSound content slack cap c.cluster
      → IsSound content slack cap
          (Cache.ingest_streamed_block
            (block_id_from_proto chunk.id)
            chunk.payload
            (purpose_of chunk.purpose)
            c).cluster
  unfolding Cache.ingest_streamed_block
  ingest-IsSound chunk c l s =
      let block : KvBlock = record (chunk_block content chunk) {
        inserted_epoch = c.cluster.membership.epoch;
      } in
      with_store-IsSound (put block dram (store c)).0 c
        (put-IsGood content block dram (store c)
          (record { small = l.small; of_id = l.of_id; some_bytes = l.some_bytes }) s.settled.good)
        s

  stream_chunks-IsSound :
      (chunks : List BlockChunk) (ack : StreamAck) (c : LetheCache)
      → All (IsLegalChunk content) chunks
      → IsSound content slack cap c.cluster
      → IsSound content slack cap (stream_chunks chunks ack c).0.cluster
  unfolding stream_chunks
  stream_chunks-IsSound [] ack c l s = s
  stream_chunks-IsSound (chunk ∷ chunks) ack c l s =
      stream_chunks-IsSound chunks _ _ l.1 (ingest-IsSound chunk c l.0 s)

  pub stream_blocks-IsSound :
      (chunks : List BlockChunk) (c : LetheCache)
      → All (IsLegalChunk content) chunks
      → IsSound content slack cap c.cluster
      → IsSound content slack cap (Service.stream_blocks chunks c).0.cluster
  unfolding Service.stream_blocks
  stream_blocks-IsSound chunks c l s = stream_chunks-IsSound chunks _ c l s
