-- ===== src/Node/Boot/Wired.antt =====
-- The transport, the membership and the ring of a new server agree on its peers.
use mathlib.Core.List.{lookup}
use lethe.Base.{
  ◌≡◌, ◌≢◌, refl, sym, ap, ◌∙◌, subst, Option, none, some, List, [], ◌∷◌, ite, if_pos, if_neg,
  arith, true, false, Option-cases, inl, inr, Has, here, there, ℕ,
}
use lethe.Types.{Bytes, bytes_dec, StaticPeer}
use lethe.Membership.{PeerInfo, emplace, add_seeds}
use lethe.Membership
use lethe.Cache.{seed_ids, initial_router}
use lethe.Router.{set_peers}
use lethe.GrpcStream.{connect, stub_for}
use lethe.SsdBlockStore.{Slot}
use lethe.TieredStore.{TieredStore}
use lethe.TieredStore.Make.{make_tiers}
use lethe.Node.Boot.{CacheConfig, Server, connect_seeds, make_cache, tiered_config, new_server}

-- The address of the first seed of the name.
abbrev pub seed_address : Bytes → List StaticPeer → Option Bytes
seed_address p [] = none
seed_address p (q ∷ qs) = ite (bytes_dec p q.node_id) (some q.address) (seed_address p qs)

abbrev or_else : Option Bytes → Option Bytes → Option Bytes
or_else (some a) other = some a
or_else none other = other

abbrev pub address : Option PeerInfo → Option Bytes
address none = none
address (some info) = some info.address

or_else-none : (o : Option Bytes) → or_else o none ≡ o
or_else-none none = refl
or_else-none (some a) = refl

abbrev seed_info : ℕ → StaticPeer → PeerInfo
seed_info now q = record {
  node_id = q.node_id;
  address = q.address;
  last_seen = now;
  last_seen_epoch = 0;
  suspected = false;
  alive = true;
  ever_seen = false;
}

Has-nil : {p : Bytes} → Has p [] → ⊥
Has-nil h = elim h [ ]

Has-later : {p q : Bytes} {ps : List Bytes} → Has p (q ∷ ps) → p ≢ q → Has p ps
Has-later (here ps) other = absurd (other refl)
Has-later (there q h) other = h

Has-seed :
    (node_id p : Bytes) (q : StaticPeer) (ps : List StaticPeer)
    → p ≢ q.node_id
    → Has p (seed_ids node_id (q ∷ ps))
    → Has p (seed_ids node_id ps)
unfolding seed_ids
Has-seed node_id p q ps other h = elim (bytes_dec q.node_id node_id) [
  | yes self ↦
      subst (Has p)
        (if_pos (bytes_dec q.node_id node_id) self (seed_ids node_id ps)
          (q.node_id ∷ seed_ids node_id ps))
        h
  | no peer ↦
      Has-later
        (subst (Has p)
          (if_neg (bytes_dec q.node_id node_id) peer (seed_ids node_id ps)
            (q.node_id ∷ seed_ids node_id ps))
          h)
        other
]

none-ne-some : (s : Server) → none ≡ some s → ⊥
none-ne-some s h = cc

server-eq : (r s : Server) → some r ≡ some s → r ≡ s
server-eq r s h = cc

connect-lookup :
    (p q a : Bytes) (stubs : List (Bytes × Bytes))
    → lookup bytes_dec p (connect q a stubs)
      ≡ or_else (lookup bytes_dec p stubs) (ite (bytes_dec p q) (some a) none)
unfolding connect lookup
connect-lookup p q a stubs = elim (bytes_dec p q) [
  | yes e ↦
      subst
        (λ r.
          lookup bytes_dec p (connect r a stubs)
          ≡ or_else (lookup bytes_dec p stubs) (ite (bytes_dec p r) (some a) none))
        e (ground arith)
  | no e ↦ ground arith
]

emplace-address :
    (p q : Bytes) (info : PeerInfo) (peers : List (Bytes × PeerInfo))
    → address (lookup bytes_dec p (emplace q info peers))
      ≡ or_else (address (lookup bytes_dec p peers)) (ite (bytes_dec p q) (some info.address) none)
unfolding emplace lookup
emplace-address p q info peers = ground arith

or_else-ite :
    (o : Option Bytes) (p q a : Bytes) (other : Option Bytes)
    → or_else (or_else o (ite (bytes_dec p q) (some a) none)) other
      ≡ or_else o (ite (bytes_dec p q) (some a) other)
or_else-ite (some b) p q a other = refl
or_else-ite none p q a other = ground arith

connect_seeds-lookup :
    (node_id p : Bytes) (ps : List StaticPeer) (stubs : List (Bytes × Bytes))
    → p ≢ node_id
    → lookup bytes_dec p (connect_seeds node_id ps stubs)
      ≡ or_else (lookup bytes_dec p stubs) (seed_address p ps)
unfolding connect_seeds
connect_seeds-lookup node_id p [] stubs h = sym (or_else-none (lookup bytes_dec p stubs))
connect_seeds-lookup node_id p (q ∷ ps) stubs h = elim (bytes_dec q.node_id node_id) [
  | yes self ↦
      let other : p ≢ q.node_id = λ e. h (e ∙ self) in
      connect_seeds-lookup node_id p ps
        (ite (bytes_dec q.node_id node_id) stubs (connect q.node_id q.address stubs)) h
      ∙ (ap (λ l. or_else (lookup bytes_dec p l) (seed_address p ps))
            (if_pos (bytes_dec q.node_id node_id) self stubs (connect q.node_id q.address stubs))
          ∙ ap (or_else (lookup bytes_dec p stubs))
              (sym (if_neg (bytes_dec p q.node_id) other (some q.address) (seed_address p ps))))
  | no peer ↦
      connect_seeds-lookup node_id p ps
        (ite (bytes_dec q.node_id node_id) stubs (connect q.node_id q.address stubs)) h
      ∙ (ap (λ l. or_else (lookup bytes_dec p l) (seed_address p ps))
            (if_neg (bytes_dec q.node_id node_id) peer stubs (connect q.node_id q.address stubs))
          ∙ (ap (λ o. or_else o (seed_address p ps)) (connect-lookup p q.node_id q.address stubs)
              ∙ or_else-ite (lookup bytes_dec p stubs) p q.node_id q.address (seed_address p ps)))
]

add_seeds-address :
    (now : ℕ) (p : Bytes) (ps : List StaticPeer) (peers : List (Bytes × PeerInfo))
    → address (lookup bytes_dec p (add_seeds now ps peers))
      ≡ or_else (address (lookup bytes_dec p peers)) (seed_address p ps)
unfolding add_seeds
add_seeds-address now p [] peers = sym (or_else-none (address (lookup bytes_dec p peers)))
add_seeds-address now p (q ∷ ps) peers =
    add_seeds-address now p ps (emplace q.node_id (seed_info now q) peers)
    ∙ (ap (λ o. or_else o (seed_address p ps)) (emplace-address p q.node_id (seed_info now q) peers)
        ∙ or_else-ite (address (lookup bytes_dec p peers)) p q.node_id q.address
            (seed_address p ps))

seed_ids-address :
    (node_id p : Bytes) (ps : List StaticPeer)
    → Has p (seed_ids node_id ps)
    → (a : Bytes) × (seed_address p ps ≡ some a)
unfolding seed_ids
seed_ids-address node_id p [] h = absurd (Has-nil h)
seed_ids-address node_id p (q ∷ ps) h = elim (bytes_dec p q.node_id) [
  | yes e ↦ (q.address, if_pos (bytes_dec p q.node_id) e (some q.address) (seed_address p ps))
  | no other ↦
      let rest = seed_ids-address node_id p ps (Has-seed node_id p q ps other h) in
      (rest.0, if_neg (bytes_dec p q.node_id) other (some q.address) (seed_address p ps) ∙ rest.1)
]

-- The transport has the addresses of the membership, and one for every other peer of the ring.
pub record IsWired (node_id : Bytes) (s : Server) : Type 0 where
  pub same :
      (p : Bytes)
      → p ≢ node_id
      → stub_for p s.stubs ≡ address (lookup bytes_dec p s.node.cache.cluster.membership.peers)
  pub reached :
      (p : Bytes)
      → p ≢ node_id
      → Has p s.node.cache.cluster.router.peers
      → (a : Bytes) × (stub_for p s.stubs ≡ some a)

new_server-IsWired :
    (blake3 : Bytes → Bytes) (now : ℕ) (cfg : CacheConfig) (t : TieredStore)
    → IsWired cfg.node_id (new_server blake3 cfg now t)
unfolding stub_for Membership.make initial_router set_peers lookup
new_server-IsWired blake3 now cfg t = record {
  same = λ p h.
      connect_seeds-lookup cfg.node_id p cfg.seed_peers [] h
      ∙ sym (add_seeds-address now p cfg.seed_peers []);
  reached = λ p h there_is.
      let found = seed_ids-address cfg.node_id p cfg.seed_peers (Has-later there_is h) in
      (found.0, connect_seeds-lookup cfg.node_id p cfg.seed_peers [] h ∙ found.1);
}

-- The store of a new server.
pub make_cache-new_server :
    (blake3 : Bytes → Bytes) (slots : ℕ → Slot) (now : ℕ) (cfg : CacheConfig) (s : Server)
    → make_cache blake3 slots now cfg ≡ some s
    → (t : TieredStore) × (make_tiers slots (tiered_config cfg) ≡ some t)
      × (new_server blake3 cfg now t ≡ s)
unfolding make_cache
make_cache-new_server blake3 slots now cfg s h =
    elim (Option-cases (make_tiers slots (tiered_config cfg))) [
      | inl failed ↦
          let raised : make_cache blake3 slots now cfg ≡ none = rw (make_cache, failed) refl in
          absurd (none-ne-some s (sym raised ∙ h))
      | inr (t, made) ↦
          let at : make_cache blake3 slots now cfg ≡ some (new_server blake3 cfg now t) =
            rw (make_cache, made) refl in
          (t, made, server-eq (new_server blake3 cfg now t) s (sym at ∙ h))
    ]

-- In a server that the constructor of `LetheCache` made, the transport has for every other peer the
-- address to which the membership sends its heartbeats, or both have none, and for each other peer
-- of the ring the transport has an address.
pub make_cache-IsWired :
    (blake3 : Bytes → Bytes) (slots : ℕ → Slot) (now : ℕ) (cfg : CacheConfig) (s : Server)
    → make_cache blake3 slots now cfg ≡ some s
    → IsWired cfg.node_id s
make_cache-IsWired blake3 slots now cfg s h =
    let (t, made, e) = make_cache-new_server blake3 slots now cfg s h in
    subst (IsWired cfg.node_id) e (new_server-IsWired blake3 now cfg t)
