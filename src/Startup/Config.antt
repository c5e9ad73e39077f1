-- ===== src/Startup/Config.antt =====
-- The configuration that `main` of cache_server/src/main.cpp makes of its arguments and of the
-- environment.
pub mod Written
use lethe.Base.{
  ℕ, ◌*◌, ◌^◌, Bool, true, false, Option, none, some, List, [], ◌∷◌, ◌++◌, drop, take, ite, ◌==◌,
  if◌then◌else◌,
}
use lethe.Base.Numbers.{parse_port, parse_u64}
use lethe.Types.{Bytes, bytes_dec}
use lethe.Startup.{parse_peer_list}
use lethe.Node.Boot.{CacheConfig}

-- `--peers` and `--peers=`.
abbrev pub peers_flag : Bytes
peers_flag = b'-' ∷ b'-' ∷ b'p' ∷ b'e' ∷ b'e' ∷ b'r' ∷ b's' ∷ []

abbrev pub peers_equals : Bytes
peers_equals = b'-' ∷ b'-' ∷ b'p' ∷ b'e' ∷ b'e' ∷ b'r' ∷ b's' ∷ b'=' ∷ []

-- `a.rfind("--peers=", 0) == 0`, and then `a.substr(8)`.
abbrev pub after_equals : Bytes → Bytes → Bytes
after_equals a spec = ite (bytes_dec (take 8 a) peers_equals) (drop 8 a) spec

-- The loop over the arguments from the third on.
unfoldable pub peers_spec : List Bytes → Bytes → Bytes
peers_spec [] spec = spec
peers_spec (a ∷ []) spec = after_equals a spec
peers_spec (a ∷ b ∷ rest) spec = elim (bytes_dec a peers_flag) [
  | yes _ ↦ peers_spec rest b
  | no _ ↦ peers_spec (b ∷ rest) (after_equals a spec)
]

-- A size from the environment, where it is set and not 0.
abbrev pub size_or : ℕ → Option Bytes → ℕ
size_or default none = default
size_or default (some text) = let v = parse_u64 text in if v == 0 then default else v

abbrev pub node0 : Bytes
node0 = b'n' ∷ b'o' ∷ b'd' ∷ b'e' ∷ b'0' ∷ []

-- `/tmp/lethe-` and `/ssd`.
abbrev pub path_start : Bytes
path_start = b'/' ∷ b't' ∷ b'm' ∷ b'p' ∷ b'/' ∷ b'l' ∷ b'e' ∷ b't' ∷ b'h' ∷ b'e' ∷ b'-' ∷ []

abbrev pub path_end : Bytes
path_end = b'/' ∷ b's' ∷ b's' ∷ b'd' ∷ []

-- The configuration for a node, a port and the text of `--peers`; the rest are the defaults of
-- `CacheConfig` and of `main`.
abbrev pub config_of : Option Bytes → Option Bytes → Bytes → ℕ → Bytes → CacheConfig
config_of dram ssd node_id grpc_port spec = record {
  node_id = node_id;
  seed_peers = parse_peer_list spec node_id;
  hbm_bytes = 0;
  dram_bytes = size_or (2 ^ 30) dram;
  ssd_bytes = size_or (2 ^ 28) ssd;
  ssd_path = path_start ++ (node_id ++ path_end);
  replication_factor = 2;
  virtual_nodes_per_peer = 128;
  grpc_port = grpc_port;
  rdma_port = 50052;
  metrics_port = 9090;
  eviction_high_watermark_pct = 90;
  eviction_low_watermark_pct = 75;
}

-- The arguments after the program's name, and the two variables. `none` is the exception of
-- `std::stoi`, which ends the process.
unfoldable pub main_config : Option Bytes → Option Bytes → List Bytes → Option CacheConfig
unfolding peers_spec parse_port parse_u64 parse_peer_list
main_config dram ssd [] = some (config_of dram ssd node0 50051 [])
main_config dram ssd (node_id ∷ []) = some (config_of dram ssd node_id 50051 [])
main_config dram ssd (node_id ∷ port ∷ rest) = elim (parse_port port) [
  | none ↦ none
  | some grpc_port ↦ some (config_of dram ssd node_id grpc_port (peers_spec rest []))
]
