-- ===== src/Ibverbs/Endpoints.antt =====
-- The endpoints that cache_server/src/ibverbs_transport.cpp reads from the environment.
pub mod Listed
use lethe.Base.{ℕ, Option, none, some, List, [], ◌∷◌}
use lethe.Base.Assoc.{remove}
use lethe.Base.Text.{cut_first, cut_last, pieces}
use lethe.Base.Numbers.{parse_port}
use lethe.Types.{Bytes, bytes_dec}

pub record Endpoint : Type 0 where
  pub ip : Bytes
  pub port : ℕ

abbrev pub comma : ℕ
comma = 44

abbrev pub at_sign : ℕ
at_sign = 64

abbrev pub colon : ℕ
colon = 58

-- How an item of the list ends: it is skipped, it raises an exception, or it names an endpoint.
pub data Item : Type 0 where
  skipped raised : Item
  named : Bytes → Endpoint → Item

abbrev pub item_of : Bytes → Bytes → Option ℕ → Item
item_of id ip none = raised
item_of id ip (some port) = named id (record { ip = ip; port = port })

-- An item `id@ip:port`: the first `@`, and the last colon, which stands behind it.
unfoldable pub parse_item : Bytes → Item
unfolding cut_first cut_last parse_port
parse_item tok = elim (cut_first at_sign tok) [
  | none ↦ skipped
  | some (id, rest) ↦ elim (cut_last colon rest) [
    | none ↦ skipped
    | some (ip, port) ↦ item_of id ip (parse_port port)
  ]
]

-- `out[id] = {ip, port}`.
abbrev pub assign : Bytes → Endpoint → List (Bytes × Endpoint) → List (Bytes × Endpoint)
assign id e out = (id, e) ∷ remove bytes_dec id out

unfoldable pub parse_items : List Bytes → List (Bytes × Endpoint) → Option (List (Bytes × Endpoint))
unfolding parse_item
parse_items [] out = some out
parse_items (tok ∷ toks) out = elim (parse_item tok) [
  | skipped ↦ parse_items toks out
  | raised ↦ none
  | named id e ↦ parse_items toks (assign id e out)
]

-- `ParsePeerEnv`, of the variable's value if it is set; `none` is an exception, which no one on
-- the way to `main` catches.
unfoldable pub parse_peer_env : Option Bytes → Option (List (Bytes × Endpoint))
unfolding parse_items pieces
parse_peer_env none = some []
parse_peer_env (some raw) = parse_items (pieces comma raw) []

-- The address to listen on, from LETHE_RDMA_LISTEN: none without a colon.
unfoldable pub parse_listen : Option Bytes → Option (Option Endpoint)
unfolding cut_last parse_port
parse_listen none = some none
parse_listen (some raw) = elim (cut_last colon raw) [
  | none ↦ some none
  | some (ip, port) ↦ elim (parse_port port) [
    | none ↦ none
    | some n ↦ some (some (record { ip = ip; port = n }))
  ]
]
