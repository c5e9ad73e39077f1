-- ===== src/Ibverbs/Endpoints/Listed.antt =====
-- The list of peers written as the launch scripts do, and read back.
use mathlib.Core.List.{lookup}
use lethe.Base.{
  ℕ, ◌^◌, ◌<◌, ◌≡◌, ◌≢◌, refl, ◌∙◌, ap, none, some, Option, List, [], ◌∷◌, ◌++◌, map, ite, All,
  arith, All-append,
}
use lethe.Base.Text.{
  Lacks, cut_first, cut_last, pieces, joined, pieces-joined, cut_first-append, cut_last-append,
}
use lethe.Base.Assoc.{lookup-remove_ne}
use lethe.Base.Numbers.{parse_port}
use lethe.Types.{Bytes, bytes_dec}
use lethe.Router.{to_string}
use lethe.Ibverbs.Endpoints.{
  Endpoint, comma, at_sign, colon, named, item_of, parse_item, assign, parse_items, parse_peer_env,
}
use lethe.Router.Decimal.{IsDigit, to_string-All, parse_port-to_string}

abbrev pub entry : Bytes × Endpoint → Bytes
entry (id, e) = id ++ at_sign ∷ (e.ip ++ colon ∷ to_string e.port)

abbrev pub peer_env : List (Bytes × Endpoint) → Bytes
peer_env ps = joined comma (map entry ps)

-- A peer that the syntax can carry. An address may have colons.
abbrev pub IsPlain : Bytes × Endpoint → Type 0
IsPlain (id, e) = Lacks at_sign id × Lacks comma id × Lacks comma e.ip × (e.port < 2 ^ 16)

-- The endpoint that a list names last for a peer.
abbrev pub or_else : Option Endpoint → Option Endpoint → Option Endpoint
or_else (some e) other = some e
or_else none other = other

abbrev pub latest : Bytes → List (Bytes × Endpoint) → Option Endpoint
latest id [] = none
latest id ((j, e) ∷ ps) = or_else (latest id ps) (ite (bytes_dec id j) (some e) none)

abbrev assign_all : List (Bytes × Endpoint) → List (Bytes × Endpoint) → List (Bytes × Endpoint)
assign_all [] out = out
assign_all ((id, e) ∷ ps) out = assign_all ps (assign id e out)

digit-Lacks : (c : ℕ) → (57 < c) → (cs : Bytes) → All IsDigit cs → Lacks c cs
digit-Lacks c h [] d = tt
digit-Lacks c h (x ∷ cs) d = ((λ e. omega (arith, d.0.1, e)), digit-Lacks c h cs d.1)

comma-digits : (cs : Bytes) → All IsDigit cs → Lacks comma cs
comma-digits [] d = tt
comma-digits (x ∷ cs) d = ((λ e. omega (arith, d.0.0, e)), comma-digits cs d.1)

entry-Lacks : (p : Bytes × Endpoint) → IsPlain p → Lacks comma (entry p)
entry-Lacks (id, e) h =
    All-append (λ x. x ≢ comma) id (at_sign ∷ (e.ip ++ colon ∷ to_string e.port)) h.1
      (
        (λ e. absurd (omega (arith, e))),
        All-append (λ x. x ≢ comma) e.ip (colon ∷ to_string e.port) h.2
            (
              (λ e. absurd (omega (arith, e))),
              comma-digits (to_string e.port) (to_string-All e.port),
            ),
      )

entries-Lack : (ps : List (Bytes × Endpoint)) → All IsPlain ps → All (Lacks comma) (map entry ps)
entries-Lack [] h = tt
entries-Lack (p ∷ ps) h = (entry-Lacks p h.0, entries-Lack ps h.1)

parse_item-cut :
    (tok id rest ip port : Bytes)
    → cut_first at_sign tok ≡ some (id, rest)
    → cut_last colon rest ≡ some (ip, port)
    → parse_item tok ≡ item_of id ip (parse_port port)
unfolding parse_item
parse_item-cut tok id rest ip port h k = rw (parse_item, h, k) refl

parse_item-entry :
    (id : Bytes) (e : Endpoint) → IsPlain (id, e) → parse_item (entry (id, e)) ≡ named id e
parse_item-entry id e h =
    parse_item-cut (entry (id, e)) id (e.ip ++ colon ∷ to_string e.port) e.ip (to_string e.port)
      (cut_first-append at_sign id (e.ip ++ colon ∷ to_string e.port) h.0)
      (cut_last-append colon e.ip (to_string e.port)
        (digit-Lacks colon (omega arith) (to_string e.port) (to_string-All e.port)))
    ∙ ap (item_of id e.ip) (parse_port-to_string e.port h.3)

parse_items-entries :
    (ps out : List (Bytes × Endpoint))
    → All IsPlain ps
    → parse_items (map entry ps) out ≡ some (assign_all ps out)
unfolding parse_items
parse_items-entries [] out h = refl
parse_items-entries ((id, e) ∷ ps) out h =
    rw (parse_items, parse_item-entry id e h.0) (parse_items-entries ps (assign id e out) h.1)

assign-lookup :
    (id j : Bytes) (e : Endpoint) (out : List (Bytes × Endpoint))
    → lookup bytes_dec j (assign id e out) ≡ ite (bytes_dec j id) (some e) (lookup bytes_dec j out)
unfolding lookup
assign-lookup id j e out = ground (arith, lookup-remove_ne bytes_dec id j out)

or_else-ite :
    (id j : Bytes) (a : Option Endpoint) (e : Endpoint) (o : Option Endpoint)
    → or_else a (ite (bytes_dec j id) (some e) o)
      ≡ or_else (or_else a (ite (bytes_dec j id) (some e) none)) o
or_else-ite id j (some b) e o = refl
or_else-ite id j none e o = ground arith

assign_all-lookup :
    (ps out : List (Bytes × Endpoint)) (j : Bytes)
    → lookup bytes_dec j (assign_all ps out) ≡ or_else (latest j ps) (lookup bytes_dec j out)
assign_all-lookup [] out j = refl
assign_all-lookup ((id, e) ∷ ps) out j =
    assign_all-lookup ps (assign id e out) j
    ∙ (ap (or_else (latest j ps)) (assign-lookup id j e out)
        ∙ or_else-ite id j (latest j ps) e (lookup bytes_dec j out))

or_else-none : (a : Option Endpoint) → or_else a none ≡ a
or_else-none none = refl
or_else-none (some e) = refl

-- `ParsePeerEnv` of a written list of endpoints, with names that have no comma and no `@`,
-- addresses that have no comma, and ports below 2^16, gives for every name the endpoint that the
-- list has last for it, and for no other name one.
pub parse_peer_env-peer_env :
    (ps : List (Bytes × Endpoint))
    → All IsPlain ps
    → (out : List (Bytes × Endpoint)) × (parse_peer_env (some (peer_env ps)) ≡ some out)
      × ((id : Bytes) → lookup bytes_dec id out ≡ latest id ps)
unfolding parse_peer_env pieces parse_items parse_item lookup
parse_peer_env-peer_env [] h = ([], refl, λ id. refl)
parse_peer_env-peer_env (p ∷ ps) h = (
  assign_all (p ∷ ps) [],
  rw (pieces-joined comma (entry p) (map entry ps) (entries-Lack (p ∷ ps) h))
      (parse_items-entries (p ∷ ps) [] h),
  λ id. assign_all-lookup (p ∷ ps) [] id ∙ or_else-none (latest id (p ∷ ps)),
)
