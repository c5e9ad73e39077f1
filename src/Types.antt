-- ===== src/Types.antt =====
-- cache_server/include/lethe/types.hpp: the types shared across the subsystems.
use lethe.Base.{ℕ, Bool, List, ℕ_discrete}

-- Bytes are numbers; a `std::string` is its bytes.
abbrev pub Bytes : Type 0
Bytes = List ℕ

pub data Tier : Type 0 where
  hbm dram ssd : Tier

pub data StreamPurpose : Type 0 where
  replication_push read_repair promotion : StreamPurpose

-- `hash` is the `Hash256`.
pub record BlockId : Type 0 where
  pub hash : Bytes
  pub layer : ℕ
  pub head_group : ℕ
  pub model_id : ℕ

pub record KvBlock : Type 0 where
  pub id : BlockId
  pub bytes : Bytes
  pub tier : Tier
  pub inserted_epoch : ℕ

pub record PeerStatus : Type 0 where
  pub node_id : Bytes
  pub last_seen_epoch : ℕ
  pub suspected : Bool

pub record StaticPeer : Type 0 where
  pub node_id : Bytes
  pub address : Bytes

pub record HeartbeatReply : Type 0 where
  pub alive_peers : List PeerStatus
  pub cluster_epoch : ℕ

pub record BlockMeta : Type 0 where
  pub id : BlockId
  pub tier : Tier
  pub size_bytes : ℕ
  pub last_access_epoch : ℕ
  pub insert_epoch : ℕ
  pub visited : Bool

unfoldable pub bytes_dec : Discrete Bytes
bytes_dec = hlevel ℕ_discrete

unfoldable pub tier_dec : Discrete Tier
tier_dec = hlevel

-- `BlockId::operator==`.
unfoldable pub id_dec : Discrete BlockId
id_dec = hlevel ℕ_discrete
