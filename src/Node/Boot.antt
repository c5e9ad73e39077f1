-- ===== src/Node/Boot.antt =====
-- The constructor of `LetheCache`, cache_server/src/cache.cpp: which subsystems it makes, and how it
-- connects them. The slots are those of the SSD file. The transport over RDMA, which an environment
-- variable selects, starts without connections, and its own gRPC transport gets the same peers.
pub mod Wired
pub mod Fresh
use lethe.Base.{ℕ, ◌*◌, ◌^◌, Bool, true, false, Option, none, some, List, [], ◌∷◌, ite}
use lethe.Types.{Bytes, bytes_dec, BlockId, StaticPeer}
use lethe.SsdBlockStore.{Slot}
use lethe.TieredStore.{TieredStore}
use lethe.TieredStore.Make.{TieredStoreConfig, make_tiers}
use lethe.Replicator.{Replicator}
use lethe.Membership.{MembershipConfig}
use lethe.Membership
use lethe.Evictor.{EvictionConfig, Hands}
use lethe.Cache.{LetheCache, initial_router}
use lethe.GrpcStream.{connect}
use lethe.Replicator.Scopes.{idle}
use lethe.Node.{Node}

pub record CacheConfig : Type 0 where
  pub node_id : Bytes
  pub seed_peers : List StaticPeer
  pub hbm_bytes : ℕ
  pub dram_bytes : ℕ
  pub ssd_bytes : ℕ
  pub ssd_path : Bytes
  pub replication_factor : ℕ
  pub virtual_nodes_per_peer : ℕ
  pub grpc_port : ℕ
  pub rdma_port : ℕ
  pub metrics_port : ℕ
  pub eviction_high_watermark_pct : ℕ
  pub eviction_low_watermark_pct : ℕ

-- The configuration of the store, with the defaults of `TieredStoreConfig`.
abbrev pub tiered_config : CacheConfig → TieredStoreConfig
tiered_config cfg = record {
  hbm_bytes = cfg.hbm_bytes;
  dram_bytes = cfg.dram_bytes;
  ssd_bytes = cfg.ssd_bytes;
  ssd_path = cfg.ssd_path;
  enable_promotion = true;
  promotion_access_threshold = 2;
  ssd_slot_bytes = 64 * 1024;
}

abbrev pub new_replicator : Bytes → Replicator
new_replicator node_id = record {
  local_node_id = node_id;
  queue = [];
  overflow_drops = 0;
  replicate_attempts = 0;
  replicate_failures = 0;
  rerep_round = [];
  rerep_cursor = 0;
  rerep_active = false;
}

abbrev pub membership_defaults : MembershipConfig
membership_defaults = record { suspect_after = 1000; dead_after = 3000 }

-- `EnsurePeerClient` for each seed other than this node.
unfoldable pub connect_seeds : Bytes → List StaticPeer → List (Bytes × Bytes) → List (Bytes × Bytes)
unfolding connect
connect_seeds node_id [] stubs = stubs
connect_seeds node_id (p ∷ ps) stubs =
    connect_seeds node_id ps
      (ite (bytes_dec p.node_id node_id) stubs (connect p.node_id p.address stubs))

-- What the constructor makes. `stubs` are the connections of the transport.
pub record Server : Type 0 where
  pub node : Node
  pub stubs : List (Bytes × Bytes)
  pub eviction : EvictionConfig

abbrev pub new_node : (Bytes → Bytes) → CacheConfig → ℕ → TieredStore → Node
new_node blake3 cfg now t = record {
  cache = record {
    node_id = cfg.node_id;
    cluster = record {
      membership = Membership.make membership_defaults cfg.node_id cfg.seed_peers now;
      router =
          initial_router blake3 cfg.node_id cfg.virtual_nodes_per_peer cfg.replication_factor
            cfg.seed_peers;
      replicator = (new_replicator cfg.node_id, t);
    };
    peer_evicted = λ peer. [];
  };
  hands = record { hand_hbm = 0; hand_dram = 0; hand_ssd = 0 };
  pass = idle;
}

abbrev pub new_server : (Bytes → Bytes) → CacheConfig → ℕ → TieredStore → Server
new_server blake3 cfg now t = record {
  node = new_node blake3 cfg now t;
  stubs = connect_seeds cfg.node_id cfg.seed_peers [];
  eviction = record {
    high_watermark_pct = cfg.eviction_high_watermark_pct;
    low_watermark_pct = cfg.eviction_low_watermark_pct;
    broadcast_evictions = true;
  };
}

-- `none` is an exception of the store's constructor.
unfoldable pub make_cache : (Bytes → Bytes) → (ℕ → Slot) → ℕ → CacheConfig → Option Server
unfolding initial_router connect_seeds
make_cache blake3 slots now cfg = elim (make_tiers slots (tiered_config cfg)) [
  | none ↦ none
  | some t ↦ some (new_server blake3 cfg now t)
]
