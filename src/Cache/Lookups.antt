-- ===== src/Cache/Lookups.antt =====
-- `Lookup`, `Insert` and `FetchLocal` of the facade, over a store that is well formed.
use lethe.Base.{
  ◌^◌, ◌<◌, ◌≡◌, ◌≢◌, refl, ap, ◌∙◌, ◌%◌, true, ◌&&◌, List, [], length, ltb, ite, Option, none,
  some, arith, Bool-cases, inl, inr, if_pos, if_neg,
}
use lethe.Types.{Bytes, BlockId, KvBlock, Tier, id_dec}
use lethe.Layer.{max_size}
use lethe.TieredStore.{TieredStore, GetResult, get, put}
use lethe.TieredStore.Copies.{IsValid}
use lethe.TieredStore.Stored.{stored, Agrees}
use lethe.TieredStore.Get.{get_hit, fastest}
use lethe.TieredStore.Put.{PutOutcome, put-Outcome}
use lethe.TieredStore.Good.{IsGood}
use lethe.Cache.Reports.{AllReports, AllTiers, hits, misses}
use lethe.Cache.{LetheCache, LookupResult, store, insert_one, fetch_local, has_landed, total_used}

-- What a lookup leaves and reports.
pub record LookedUp (content : BlockId → Bytes) (ids : List BlockId) (c : LetheCache)
    (r : LetheCache × LookupResult) : Type 0 where
  pub good : IsGood content (store r.0)
  pub same : (j : BlockId) → stored j (store r.0) ≡ stored j (store c)
  pub reports : AllReports c.cluster.router c.node_id (store c) ids r.1.entries
  pub tiers : AllTiers (store c) ids r.1.entries
  pub hit_count : r.1.hit_count ≡ hits r.1.entries % 2 ^ 32
  pub miss_count : r.1.miss_count ≡ misses r.1.entries % 2 ^ 32

pub insert_one-store :
    (block : KvBlock) (c : LetheCache)
    → store (insert_one block c).0 ≡ (put block block.tier (store c)).0
unfolding insert_one
insert_one-store block c =
    let r = put block block.tier (store c) in
    elim (Bool-cases (has_landed r.1 && ltb (total_used (store c)) (total_used r.0))) [
      | inl grew ↦ simp grew
      | inr same ↦ simp same
    ]

insert_one-landed :
    (block : KvBlock) (c : LetheCache)
    → (insert_one block c).1 ≡ true
    → has_landed (put block block.tier (store c)).1 ≡ true
unfolding insert_one
insert_one-landed block c ok =
    let r = put block block.tier (store c) in
    elim (Bool-cases (has_landed r.1)) [ inl landed ↦ landed | inr refused ↦ absurd (ground arith) ]

fetch_local_lem :
    (id : BlockId) (c : LetheCache) (got : GetResult)
    → (get id (store c)).1 ≡ some got
    → (fetch_local id c).1 ≡ some (got.bytes, got.tier_found)
unfolding fetch_local
fetch_local_lem id c got e = rw (e, fetch_local)

Outcome-landed :
    (content : BlockId → Bytes) (b : KvBlock) (t : TieredStore) (r : TieredStore × Option Tier)
    → has_landed r.1 ≡ true
    → PutOutcome content b t r
    → IsValid r.0
      × Agrees content r.0
      × ((j : BlockId) → stored j r.0 ≡ ite (id_dec j b.id) (some b.bytes) (stored j t))
Outcome-landed content b t (u, none) h o = absurd (ground arith)
Outcome-landed content b t (u, some x) h o = o

-- A block of bytes, of a legal size and with the content of its id, that `Insert` accepts into a
-- well-formed store, whose copies agree and whose blocks have bytes, is found by `FetchLocal` with
-- its bytes, and every other block is in the local store if and as it was.
pub insert_fetch :
    (content : BlockId → Bytes) (block : KvBlock) (c : LetheCache)
    → IsGood content (store c)
    → length block.bytes < max_size
    → block.bytes ≡ content block.id
    → block.bytes ≢ []
    → (insert_one block c).1 ≡ true
    → let c' = (insert_one block c).0 in
      ((tier : Tier) × ((fetch_local block.id c').1 ≡ some (block.bytes, tier)))
      × ((j : BlockId) → j ≢ block.id → stored j (store c') ≡ stored j (store c))
insert_fetch content block c g size same ne ok =
    let u : TieredStore = (put block block.tier (store c)).0 in
    let at : store (insert_one block c).0 ≡ u = insert_one-store block c in
    let (valid, agrees, held) =
      Outcome-landed content block (store c) (put block block.tier (store c))
        (insert_one-landed block c ok)
        (put-Outcome content block block.tier (store c) size same g.valid g.agrees) in
    let here : stored block.id u ≡ some block.bytes =
      held block.id ∙ if_pos (id_dec block.id block.id) refl _ _ in
    let (moved, hit, keeps) = get_hit content block.id u block.bytes valid agrees here ne in
    (
      (
        fastest block.id u,
        fetch_local_lem block.id (insert_one block c).0
            (record { bytes = block.bytes; tier_found = fastest block.id u; promoted = moved })
            (ap (λ (t : TieredStore). (get block.id t).1) at ∙ hit),
      ),
      λ j other. ap (stored j) at ∙ held j ∙ if_neg (id_dec j block.id) other _ _,
    )
