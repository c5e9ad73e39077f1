-- ===== src/Metrics/Port.antt =====
-- The port of the metrics endpoint, which the constructor of cache_server/src/metrics.cpp takes from
-- the address that cache_server/src/cache.cpp gives it.
use lethe.Base.{ℕ, ◌<◌, ◌^◌, ◌≡◌, refl, Option, none, some, [], ◌∷◌, ◌++◌, All, arith}
use lethe.Base.Text.{codes, cut_last, cut_last-append, Lacks}
use lethe.Base.Numbers.{parse_port}
use lethe.Types.{Bytes}
use lethe.Router.{to_string}
use lethe.Router.Decimal.{IsDigit, to_string-All, parse_port-to_string}

abbrev colon : ℕ
colon = 58

-- What is behind the last colon, or 9090 if there is none or `std::stoi` raises an exception.
abbrev pub port_or_default : Option ℕ → ℕ
port_or_default none = 9090
port_or_default (some port) = port

unfoldable pub listen_port : Bytes → ℕ
unfolding cut_last parse_port
listen_port bind_address = elim (cut_last colon bind_address) [
  | none ↦ 9090
  | some (host, port) ↦ port_or_default (parse_port port)
]

abbrev pub bind_address : ℕ → Bytes
bind_address port = codes "0.0.0.0:" ++ to_string port

digits-Lack : (v : Bytes) → All IsDigit v → Lacks colon v
digits-Lack [] h = tt
digits-Lack (x ∷ v) h = ((λ e. omega (arith, h.0.1, e)), digits-Lack v h.1)

-- The endpoint listens at the port of the configuration.
pub listen_port-bind_address : (port : ℕ) → port < 2 ^ 16 → listen_port (bind_address port) ≡ port
unfolding listen_port
listen_port-bind_address port h =
    rw
      (
        listen_port,
        cut_last-append colon (codes "0.0.0.0") (to_string port)
            (digits-Lack (to_string port) (to_string-All port)),
        parse_port-to_string port h,
      )
      refl
