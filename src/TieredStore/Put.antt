-- ===== src/TieredStore/Put.antt =====
-- `TieredStore::Put`, `Demote` and `Erase`.
use mathlib.Core.Option.{get_or}
use lethe.Base.{
  ◌<◌, ◌≡◌, refl, true, false, Option, none, some, List, [], ◌∷◌, length, arith, inl, inr,
  Bool-cases, ite, All,
}
use lethe.Layer.{max_size}
use lethe.TieredStore.{TieredStore, copy, put_to_tier, put_first, fallthrough, put}
use lethe.TieredStore.Copies.{IsValid, put_to_tier-IsValid, copy-put, put_refused}
use lethe.TieredStore.Stored.{stored, Agrees, put_to_tier-Agrees}
use lethe.Types.{Tier, hbm, dram, ssd, Bytes, BlockId, KvBlock, id_dec, tier_dec}

-- The tiers before the one that took the block refused it.
abbrev pub RefusedBy : KvBlock → List Tier → TieredStore → Type 0
RefusedBy b tiers t = All (λ x. (put_to_tier b x t).1 ≡ false) tiers

-- Where a block lands: at the first tier of the list that takes it, after refusals that change
-- nothing; or nowhere, if every tier refuses.
pub data Landed (b : KvBlock) (t : TieredStore)
    : List Tier → TieredStore × Option Tier → Type 0 where
  nowhere : Landed b t [] (t, none)
  at :
      (x : Tier) (tiers : List Tier)
      → (put_to_tier b x t).1 ≡ true
      → Landed b t (x ∷ tiers) ((put_to_tier b x t).0, some x)
  after :
      {tiers : List Tier} {r : TieredStore × Option Tier} (x : Tier)
      → (put_to_tier b x t).1 ≡ false
      → Landed b t tiers r
      → Landed b t (x ∷ tiers) r

put_first-Landed :
    (b : KvBlock) (tiers : List Tier) (t : TieredStore) → Landed b t tiers (put_first b tiers t)
unfolding put_first
put_first-Landed b [] t = nowhere
put_first-Landed b (x ∷ tiers) t = elim (Bool-cases (put_to_tier b x t).1) [
  | inl ok ↦ rw (ok, put_first) (at x tiers ok)
  | inr no_room ↦
      rw (no_room, put_first, put_refused b x t no_room)
        (after x no_room (put_first-Landed b tiers t))
]

-- `Put` tries the tiers from the hint down to the SSD; the first that takes the block keeps it,
-- after refusals that change nothing, and if none does nothing changes.
pub put-Landed :
    (b : KvBlock) (hint : Tier) (t : TieredStore) → Landed b t (fallthrough hint) (put b hint t)
unfolding put
put-Landed b hint t = put_first-Landed b (fallthrough hint) t

-- After a successful `Put` a reader finds the block, and every other block as before.
stored-put_to_tier :
    (content : BlockId → Bytes) (b : KvBlock) (x : Tier) (t : TieredStore) (j : BlockId)
    → length b.bytes < max_size
    → b.bytes ≡ content b.id
    → IsValid t
    → Agrees content t
    → (put_to_tier b x t).1 ≡ true
    → stored j (put_to_tier b x t).0 ≡ ite (id_dec j b.id) (some b.bytes) (stored j t)
unfolding tier_dec
stored-put_to_tier content b hbm t j h same v a ok = ground (
  arith,
  copy-put b hbm t hbm j h v ok,
  copy-put b hbm t dram j h v ok,
  copy-put b hbm t ssd j h v ok,
  a hbm b.id (get_or (copy hbm b.id t) b.bytes),
)
stored-put_to_tier content b x t j h same v a ok = ground (
  arith,
  copy-put b x t hbm j h v ok,
  copy-put b x t dram j h v ok,
  copy-put b x t ssd j h v ok,
  a hbm b.id (get_or (copy hbm b.id t) b.bytes),
  a dram b.id (get_or (copy dram b.id t) b.bytes),
  a ssd b.id (get_or (copy ssd b.id t) b.bytes),
)

abbrev pub PutOutcome :
    (BlockId → Bytes) → KvBlock → TieredStore → TieredStore × Option Tier → Type 0
PutOutcome content b t (u, none) = u ≡ t
PutOutcome content b t (u, some x) =
    IsValid u
    × Agrees content u
    × ((j : BlockId) → stored j u ≡ ite (id_dec j b.id) (some b.bytes) (stored j t))

Landed-Outcome :
    (content : BlockId → Bytes) (b : KvBlock) (t : TieredStore) {tiers : List Tier}
    {r : TieredStore × Option Tier}
    → length b.bytes < max_size
    → b.bytes ≡ content b.id
    → IsValid t
    → Agrees content t
    → Landed b t tiers r
    → PutOutcome content b t r
Landed-Outcome content b t h same v a nowhere = refl
Landed-Outcome content b t h same v a (at x tiers ok) = (
  put_to_tier-IsValid b x t h v,
  put_to_tier-Agrees content b x t h same v a,
  λ j. stored-put_to_tier content b x t j h same v a ok,
)
Landed-Outcome content b t h same v a (after x no_room l) = Landed-Outcome content b t h same v a l

-- `Put` of a block of a legal size and with the content of its id, on a well-formed store whose
-- copies agree, either changes nothing and names no tier, or stores the block under its id and
-- touches no other block, and the store stays well formed with copies that agree.
pub put-Outcome :
    (content : BlockId → Bytes) (b : KvBlock) (hint : Tier) (t : TieredStore)
    → length b.bytes < max_size
    → b.bytes ≡ content b.id
    → IsValid t
    → Agrees content t
    → PutOutcome content b t (put b hint t)
put-Outcome content b hint t h same v a =
    Landed-Outcome content b t h same v a (put-Landed b hint t)
