-- ===== src/Tests/Starting.antt =====
-- Command lines, new servers and their threads at concrete values.
use lethe.Base.{ℕ, ◌*◌, ◌≡◌, refl, true, false, none, some, List, [], ◌∷◌, All, arith}
use lethe.Types.{StaticPeer, Tier, hbm, dram, ssd}
use lethe.TieredStore.Make.{make_tiers}
use lethe.Startup.PeerList.{IsPlain}
use lethe.Startup.Config.{main_config}
use lethe.Startup.Config.Written.{apart, joined, IsAsked, main_config_lem}
use lethe.SsdBlockStore
use lethe.SsdBlockStore.{SsdBlockStore}
use lethe.Node.Boot.{CacheConfig, make_cache, new_server}
use lethe.Node.Boot.Wired.{IsWired, make_cache-IsWired}
use lethe.TieredStore.Make.{memory_tiers}
use lethe.Node.Boot.{tiered_config}
use lethe.Lifecycle.{Threads, start, shutdown, run_calls}
use lethe.Lifecycle.Calls.{level, IsLevel, IsSafe, run_calls_lem}
use lethe.Tests.Data.{disk_new, blank_file}
use lethe.Tests.Nodes.{digest}

abbrev pub seeds : List StaticPeer
seeds =
    record { node_id = 97 ∷ []; address = 104 ∷ 58 ∷ 49 ∷ [] }
    ∷ record { node_id = 98 ∷ []; address = 105 ∷ 58 ∷ 50 ∷ [] }
    ∷ []

seeds-IsPlain : All IsPlain seeds
seeds-IsPlain = (
  record { name_at = ground arith; name_comma = ground arith; address_comma = ground arith },
  (record { name_at = ground arith; name_comma = ground arith; address_comma = ground arith }, tt),
)

main_config_lem_example :
    (cfg : CacheConfig) × (main_config none none (apart (97 ∷ []) 8080 seeds) ≡ some cfg)
    × (main_config none none (joined (97 ∷ []) 8080 seeds) ≡ some cfg)
    × IsAsked (97 ∷ []) 8080 seeds cfg
main_config_lem_example = main_config_lem none none (97 ∷ []) 8080 seeds (omega arith) seeds-IsPlain

-- A node without an SSD.
abbrev memory_only : CacheConfig
memory_only = record {
  node_id = 97 ∷ [];
  seed_peers = seeds;
  hbm_bytes = 0;
  dram_bytes = 4096;
  ssd_bytes = 0;
  ssd_path = [];
  replication_factor = 2;
  virtual_nodes_per_peer = 2;
  grpc_port = 8080;
  rdma_port = 50052;
  metrics_port = 9090;
  eviction_high_watermark_pct = 90;
  eviction_low_watermark_pct = 75;
}

-- A node with an SSD of two slots, over a blank file.
abbrev with_disk : CacheConfig
with_disk = record memory_only { ssd_bytes = 2 * (64 * 1024); ssd_path = 47 ∷ 115 ∷ [] }

-- The store that the file opens to, which has no block.
abbrev disk_opened : SsdBlockStore
disk_opened = record disk_new { slot_payload_bytes = 65472; usable_bytes = 130944 }

made_server :
    make_cache digest blank_file 0 memory_only
    ≡ some (new_server digest memory_only 0 (memory_tiers (tiered_config memory_only)))
unfolding make_cache make_tiers
made_server = refl

make_cache-IsWired_example :
    IsWired (97 ∷ []) (new_server digest memory_only 0 (memory_tiers (tiered_config memory_only)))
make_cache-IsWired_example =
    make_cache-IsWired digest blank_file 0 memory_only
      (new_server digest memory_only 0 (memory_tiers (tiered_config memory_only))) made_server

abbrev two_tiers : Tier → ℕ
two_tiers hbm = 0
two_tiers dram = 100
two_tiers ssd = 200

run_calls_lem_example :
    (All IsSafe
      (run_calls two_tiers (start ∷ start ∷ shutdown ∷ start ∷ []) (level two_tiers false true)).0)
    × (last : Threads) × ((run_calls two_tiers
          (start ∷ start ∷ shutdown ∷ start ∷ [])
          (level two_tiers false true)).1
        ≡ some last)
    × IsLevel two_tiers true false last
run_calls_lem_example = run_calls_lem two_tiers (start ∷ start ∷ shutdown ∷ start ∷ []) false true
