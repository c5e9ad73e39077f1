-- ===== src/Startup/Config/Written.antt =====
-- A command line as the launch scripts write it.
use lethe.Base.{
  ℕ, ◌<◌, ◌≡◌, refl, ap, ◌^◌, some, Option, List, [], ◌∷◌, ◌++◌, All, drop, take, if_pos,
}
use lethe.Types.{Bytes, bytes_dec, StaticPeer}
use lethe.Router.{to_string}
use lethe.Router.Decimal.{parse_port-to_string}
use lethe.Startup.PeerList.{peer_list, others, IsPlain, parse_peer_list-peer_list}
use lethe.Startup.Config.{
  peers_flag, peers_equals, after_equals, peers_spec, config_of, main_config,
}
use lethe.Node.Boot.{CacheConfig}

-- The peers as two arguments, or as one.
abbrev pub apart : Bytes → ℕ → List StaticPeer → List Bytes
apart node_id port ps = node_id ∷ to_string port ∷ peers_flag ∷ peer_list ps ∷ []

abbrev pub joined : Bytes → ℕ → List StaticPeer → List Bytes
joined node_id port ps = node_id ∷ to_string port ∷ (peers_equals ++ peer_list ps) ∷ []

-- What such a command line asks for.
pub record IsAsked (node_id : Bytes) (port : ℕ) (ps : List StaticPeer) (cfg : CacheConfig)
    : Type 0 where
  pub name : cfg.node_id ≡ node_id
  pub port_of : cfg.grpc_port ≡ port
  pub peers : cfg.seed_peers ≡ others node_id ps

apart-spec : (spec : Bytes) → peers_spec (peers_flag ∷ spec ∷ []) [] ≡ spec
unfolding peers_spec
apart-spec spec =
    elim (bytes_dec peers_flag peers_flag)
      as (λ d.
        ◌≡◌ {A = Bytes}
          (elim d [
            | yes _ ↦ peers_spec [] spec
            | no _ ↦ peers_spec (spec ∷ []) (after_equals peers_flag [])
          ])
          spec) [ yes _ ↦ refl | no other ↦ absurd (other refl) ]

joined-spec : (spec : Bytes) → peers_spec ((peers_equals ++ spec) ∷ []) [] ≡ spec
unfolding peers_spec
joined-spec spec =
    if_pos (bytes_dec (take 8 (peers_equals ++ spec)) peers_equals) refl
      (drop 8 (peers_equals ++ spec)) []

module _ (dram ssd : Option Bytes) (node_id : Bytes) (port : ℕ) (ps : List StaticPeer)
    (small : port < 2 ^ 16) (plain : All IsPlain ps) where
  asked : IsAsked node_id port ps (config_of dram ssd node_id port (peer_list ps))
  asked = record { name = refl; port_of = refl; peers = parse_peer_list-peer_list node_id ps plain }

  -- `main`, given a name, a port below 2^16 and a written list of peers, whose names have no comma
  -- and no `@` and whose addresses have no comma, as two arguments or as one after `--peers=`,
  -- makes the same configuration of both: with this name, this port and the list in order without
  -- this node.
  pub main_config_lem :
      (cfg : CacheConfig) × (main_config dram ssd (apart node_id port ps) ≡ some cfg)
      × (main_config dram ssd (joined node_id port ps) ≡ some cfg)
      × IsAsked node_id port ps cfg
  unfolding main_config peers_spec
  main_config_lem = (
    config_of dram ssd node_id port (peer_list ps),
    rw (main_config, parse_port-to_string port small)
        (ap (λ spec. some (config_of dram ssd node_id port spec)) (apart-spec (peer_list ps))),
    rw (main_config, parse_port-to_string port small)
        (ap (λ spec. some (config_of dram ssd node_id port spec)) (joined-spec (peer_list ps))),
    asked,
  )
