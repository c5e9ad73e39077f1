-- ===== src/TieredStore/Stored.antt =====
-- The store seen from outside: the block that its fastest copy gives. Block ids are content
-- hashes, so all copies of an id are meant to hold the same bytes: `Agrees content t`.
use mathlib.Core.Option.{get_or}
use lethe.Base.{
  ◌<◌, ◌≡◌, refl, ◌≢◌, true, Option, none, some, length, arith, inl, inr, Bool-cases, subst,
}
use lethe.Layer.{max_size}
use lethe.TieredStore.{TieredStore, copy, put_to_tier, erase_from_tier}
use lethe.TieredStore.Copies.{IsValid, put_to_tier-IsValid, copy-put, copy-erase, put_refused}
use lethe.Types.{Tier, hbm, dram, ssd, Bytes, BlockId, KvBlock, tier_dec}

abbrev pub first {ℓ} : {A : Type ℓ} → Option A → Option A → Option A
first (some a) o = some a
first none o = o

-- The fastest copy.
abbrev pub stored : BlockId → TieredStore → Option Bytes
stored id t = first (copy hbm id t) (first (copy dram id t) (copy ssd id t))

abbrev pub Agrees : (BlockId → Bytes) → TieredStore → Type 0
Agrees content t = (x : Tier) (j : BlockId) (bs : Bytes) → copy x j t ≡ some bs → bs ≡ content j

-- An accepted block with the content of its id keeps the copies in agreement.
pub put_to_tier-Agrees :
    (content : BlockId → Bytes) (b : KvBlock) (tier : Tier) (t : TieredStore)
    → length b.bytes < max_size
    → b.bytes ≡ content b.id
    → IsValid t
    → Agrees content t
    → Agrees content (put_to_tier b tier t).0
put_to_tier-Agrees content b tier t h same v a x j bs e =
    elim (Bool-cases (put_to_tier b tier t).1) [
      | inl ok ↦
          ground (
            arith,
            copy-put b tier t x j h v ok,
            a x j bs,
            a x b.id (get_or (copy x b.id t) b.bytes),
          )
      | inr no_room ↦ a x j bs (subst (λ u. copy x j u ≡ some bs) (put_refused b tier t no_room) e)
    ]

pub erase_from_tier-Agrees :
    (content : BlockId → Bytes) (id : BlockId) (tier : Tier) (t : TieredStore)
    → IsValid t
    → Agrees content t
    → Agrees content (erase_from_tier id tier t).0
erase_from_tier-Agrees content id tier t v a x j bs e =
    ground (arith, copy-erase id tier t x j v, a x j bs)

-- A block put into one tier and then erased from another is as it was for a reader.
pub stored-move :
    (content : BlockId → Bytes) (b : KvBlock) (from to : Tier) (t : TieredStore) (j : BlockId)
    → from ≢ to
    → length b.bytes < max_size
    → b.bytes ≡ content b.id
    → IsValid t
    → Agrees content t
    → copy from b.id t ≡ some b.bytes
    → (put_to_tier b to t).1 ≡ true
    → stored j (erase_from_tier b.id from (put_to_tier b to t).0).0 ≡ stored j t
unfolding tier_dec
stored-move content b hbm hbm t j ne h same v a e ok = absurd (ne refl)
stored-move content b from to t j ne h same v a e ok =
    let p = (put_to_tier b to t).0 in
    let vp : IsValid p = put_to_tier-IsValid b to t h v in
    ground (
      arith,
      copy-put b to t hbm j h v ok,
      copy-put b to t dram j h v ok,
      copy-put b to t ssd j h v ok,
      copy-erase b.id from p hbm j vp,
      copy-erase b.id from p dram j vp,
      copy-erase b.id from p ssd j vp,
      a hbm j (get_or (copy hbm j t) b.bytes),
      a dram j (get_or (copy dram j t) b.bytes),
      a ssd j (get_or (copy ssd j t) b.bytes),
    )
