-- ===== src/Cache/Reports.antt =====
-- What `Lookup` reports of each block, by the store and the route.
use lethe.Base.{
  ℕ, suc, ◌≡◌, ◌≢◌, ◌⊎◌, ◌||◌, refl, ap, ◌∙◌, Bool, true, false, List, [], ◌∷◌, ite, Option, none,
  some, Bool-cases, Option-cases, inl, inr, if_pos, if_neg,
}
use lethe.Types.{Bytes, bytes_dec, BlockId}
use lethe.Router.{Router, route, is_nil}
use lethe.TieredStore.{TieredStore, GetResult, get}
use lethe.TieredStore.Stored.{stored}
use lethe.TieredStore.Get.{get_miss, get_hit, fastest}
use lethe.TieredStore.Good.{IsGood}
use lethe.Cache.{LetheCache, Entry, local_hit, remote_hit, miss, store, lookup_one, routed_entry}

-- What `Lookup` reports of a block, by a ring, a name of this node and a store: the bytes, if the
-- store has it; else the primary of its route, if that is another node; else a miss.
pub record Reports (router : Router) (node_id : Bytes) (t : TieredStore) (id : BlockId) (e : Entry)
    : Type 0 where
  pub of_id : e.id ≡ id
  pub held :
      (bs : Bytes)
      → stored id t ≡ some bs
      → (e.place ≡ local_hit) × (e.local_data ≡ bs) × (e.remote_node ≡ none)
  pub elsewhere :
      stored id t ≡ none
      → (route router id).primary ≢ []
      → (route router id).primary ≢ node_id
      → (e.place ≡ remote_hit) × (e.remote_node ≡ some (route router id).primary)
  pub nowhere :
      stored id t ≡ none
      → ((route router id).primary ≡ []) ⊎ ((route router id).primary ≡ node_id)
      → (e.place ≡ miss) × (e.remote_node ≡ none)

abbrev pub AllReports : Router → Bytes → TieredStore → List BlockId → List Entry → Type 0
AllReports router node_id t [] [] = Unit
AllReports router node_id t [] (e ∷ es) = ⊥
AllReports router node_id t (id ∷ ids) [] = ⊥
AllReports router node_id t (id ∷ ids) (e ∷ es) =
    Reports router node_id t id e × AllReports router node_id t ids es

-- Each local hit names the tier of the fastest copy in the store that the blocks before it leave.
abbrev pub AllTiers : TieredStore → List BlockId → List Entry → Type 0
AllTiers t [] es = Unit
AllTiers t (id ∷ ids) [] = ⊥
AllTiers t (id ∷ ids) (e ∷ es) =
    (stored id t ≢ none → e.tier ≡ fastest id t) × AllTiers (get id t).0 ids es

-- The entries of local and remote hits, and those of misses.
abbrev pub hits : List Entry → ℕ
hits [] = 0
hits (e ∷ es) = elim (e.place) [
  | local_hit ↦ suc (hits es)
  | remote_hit ↦ suc (hits es)
  | miss ↦ hits es
]

abbrev pub misses : List Entry → ℕ
misses [] = 0
misses (e ∷ es) = elim (e.place) [
  | local_hit ↦ misses es
  | remote_hit ↦ misses es
  | miss ↦ suc (misses es)
]

is_nil-false : (p : Bytes) → p ≢ [] → is_nil p ≡ false
is_nil-false [] ne = absurd (ne refl)
is_nil-false (x ∷ p) ne = refl

routed_entry-elsewhere :
    (c : LetheCache) (id : BlockId)
    → (route c.cluster.router id).primary ≢ []
    → (route c.cluster.router id).primary ≢ c.node_id
    → ((routed_entry c id).place ≡ remote_hit)
      × ((routed_entry c id).remote_node ≡ some (route c.cluster.router id).primary)
unfolding routed_entry
routed_entry-elsewhere c id some_name other =
    let primary = (route c.cluster.router id).primary in
    let named : is_nil primary ≡ false = is_nil-false primary some_name in
    let away : ite (bytes_dec primary c.node_id) true false ≡ false =
      if_neg (bytes_dec primary c.node_id) other true false in
    rw (named, away) (refl, refl)

missed :
    (c : LetheCache) (id : BlockId)
    → (is_nil (route c.cluster.router id).primary
        || ite (bytes_dec (route c.cluster.router id).primary c.node_id) true false)
      ≡ true
    → ((routed_entry c id).place ≡ miss) × ((routed_entry c id).remote_node ≡ none)
unfolding routed_entry
missed c id e = rw e (refl, refl)

routed_entry-nowhere :
    (c : LetheCache) (id : BlockId)
    → ((route c.cluster.router id).primary ≡ []) ⊎ ((route c.cluster.router id).primary ≡ c.node_id)
    → ((routed_entry c id).place ≡ miss) × ((routed_entry c id).remote_node ≡ none)
routed_entry-nowhere c id (inl nobody) =
    let primary = (route c.cluster.router id).primary in
    let test : is_nil primary ≡ true = ap is_nil nobody in missed c id (rw test refl)
routed_entry-nowhere c id (inr same) =
    let primary = (route c.cluster.router id).primary in
    let test : ite (bytes_dec primary c.node_id) true false ≡ true =
      if_pos (bytes_dec primary c.node_id) same true false in
    missed c id
      (elim (Bool-cases (is_nil primary)) [ inl e ↦ rw e refl | inr e ↦ rw (e, test) refl ])

routed_entry-id : (c : LetheCache) (id : BlockId) → (routed_entry c id).id ≡ id
unfolding routed_entry
routed_entry-id c id =
    let primary = (route c.cluster.router id).primary in
    elim (Bool-cases (is_nil primary || ite (bytes_dec primary c.node_id) true false)) [
      | inl e ↦ rw e refl
      | inr e ↦ rw e refl
    ]

-- What the store answers, with the tier of the fastest copy.
get-answer :
    (content : BlockId → Bytes) (id : BlockId) (t : TieredStore) (bs : Bytes)
    → IsGood content t
    → stored id t ≡ some bs
    → (moved : Bool) × ((get id t).1
        ≡ some (record { bytes = bs; tier_found = fastest id t; promoted = moved }))
get-answer content id t bs g held =
    let (moved, at, keeps) =
      get_hit content id t bs g.valid g.agrees held (λ e. g.has_bytes id (held ∙ ap some e)) in
    (moved, at)

lookup_one-held :
    (content : BlockId → Bytes) (id : BlockId) (c : LetheCache) (bs : Bytes)
    → IsGood content (store c)
    → stored id (store c) ≡ some bs
    → (lookup_one id c).1 ≡ record {
      id = id;
      place = local_hit;
      remote_node = none;
      tier = fastest id (store c);
      local_data = bs;
    }
unfolding lookup_one
lookup_one-held content id c bs g held =
    let (moved, at) = get-answer content id (store c) bs g held in rw (at, lookup_one) refl

lookup_one-absent :
    (id : BlockId) (c : LetheCache)
    → stored id (store c) ≡ none
    → (lookup_one id c).1 ≡ routed_entry c id
unfolding lookup_one
lookup_one-absent id c absent =
    let miss_eq = ap (λ (r : TieredStore × Option GetResult). r.1) (get_miss id (store c) absent) in
    rw (miss_eq, lookup_one) refl

pub lookup_one-Reports :
    (content : BlockId → Bytes) (id : BlockId) (c : LetheCache)
    → IsGood content (store c)
    → Reports c.cluster.router c.node_id (store c) id (lookup_one id c).1
lookup_one-Reports content id c g = record {
  of_id = elim (Option-cases (stored id (store c))) [
    | inl absent ↦ ap (λ (e : Entry). e.id) (lookup_one-absent id c absent) ∙ routed_entry-id c id
    | inr (bs, held) ↦ ap (λ (e : Entry). e.id) (lookup_one-held content id c bs g held)
  ];
  held = λ bs h.
      let at = lookup_one-held content id c bs g h in
      (
        ap (λ (e : Entry). e.place) at,
        ap (λ (e : Entry). e.local_data) at,
        ap (λ (e : Entry). e.remote_node) at,
      );
  elsewhere = λ absent some_name other.
      let at = lookup_one-absent id c absent in
      let r = routed_entry-elsewhere c id some_name other in
      (ap (λ (e : Entry). e.place) at ∙ r.0, ap (λ (e : Entry). e.remote_node) at ∙ r.1);
  nowhere = λ absent out.
      let at = lookup_one-absent id c absent in
      let r = routed_entry-nowhere c id out in
      (ap (λ (e : Entry). e.place) at ∙ r.0, ap (λ (e : Entry). e.remote_node) at ∙ r.1);
}

pub lookup_one-tier :
    (content : BlockId → Bytes) (id : BlockId) (c : LetheCache)
    → IsGood content (store c)
    → stored id (store c) ≢ none
    → (lookup_one id c).1.tier ≡ fastest id (store c)
lookup_one-tier content id c g there = elim (Option-cases (stored id (store c))) [
  | inl absent ↦ absurd (there absent)
  | inr (bs, held) ↦ ap (λ (e : Entry). e.tier) (lookup_one-held content id c bs g held)
]

-- The reports on a store hold for a store of the same content.
pub AllReports-same :
    (router : Router) (node_id : Bytes) (t u : TieredStore) (ids : List BlockId) (es : List Entry)
    → ((j : BlockId) → stored j u ≡ stored j t)
    → AllReports router node_id u ids es
    → AllReports router node_id t ids es
AllReports-same router node_id t u [] [] h a = tt
AllReports-same router node_id t u [] (e ∷ es) h a = absurd a
AllReports-same router node_id t u (id ∷ ids) [] h a = absurd a
AllReports-same router node_id t u (id ∷ ids) (e ∷ es) h a = (
  record {
    of_id = a.0.of_id;
    held = λ bs k. a.0.held bs (h id ∙ k);
    elsewhere = λ absent. a.0.elsewhere (h id ∙ absent);
    nowhere = λ absent. a.0.nowhere (h id ∙ absent);
  },
  AllReports-same router node_id t u ids es h a.1,
)
