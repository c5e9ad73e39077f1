-- ===== src/TieredStore/Demote.antt =====
-- `TieredStore::Demote` and `Erase`.
use lethe.Base.{◌≡◌, refl, Bool, false, none, some, arith, inl, inr, Bool-cases, Option-cases, ite}
use lethe.TieredStore.{
  TieredStore, copy, put_to_tier, erase_from_tier, demote, demote_hbm, demote_dram, demoted_block,
  erase_everywhere,
}
use lethe.TieredStore.Copies.{IsValid, erase_from_tier-IsValid, copy-erase, copy-small, put_refused}
use lethe.TieredStore.Stored.{Agrees}
use lethe.TieredStore.Get.{Keeps, Keeps-refl, move-Keeps}
use lethe.Types.{Tier, hbm, dram, ssd, Bytes, BlockId, id_dec, tier_dec}

-- What `Demote` promises: a reader keeps every block, and a refusal changes nothing.
pub record Demoted (content : BlockId → Bytes) (t : TieredStore) (r : TieredStore × Bool)
    : Type 0 where
  pub keeps : Keeps content t r.0
  pub refused : r.1 ≡ false → r.0 ≡ t

module _ (content : BlockId → Bytes) (id : BlockId) (bytes : Bytes) (t : TieredStore)
    (v : IsValid t) (a : Agrees content t) where
  demote_dram-Demoted : copy dram id t ≡ some bytes → Demoted content t (demote_dram id bytes t)
  unfolding demote_dram
  demote_dram-Demoted e =
      let b = demoted_block id bytes ssd in
      elim (Bool-cases (put_to_tier b ssd t).1) [
        | inl ok ↦ rw ok (record {
          keeps =
              move-Keeps content b dram ssd t (λ q. cc) (copy-small dram id t bytes v e)
                (a dram id bytes e) v a e ok;
          refused = λ h. cc;
        })
        | inr no_room ↦ rw no_room (record {
          keeps = rw (put_refused b ssd t no_room) (Keeps-refl content t v a);
          refused = λ _. put_refused b ssd t no_room;
        })
      ]

  demote_hbm-Demoted : copy hbm id t ≡ some bytes → Demoted content t (demote_hbm id bytes t)
  unfolding demote_hbm
  demote_hbm-Demoted e =
      let b = demoted_block id bytes dram in
      let b' = demoted_block id bytes ssd in
      elim (Bool-cases (put_to_tier b dram t).1) [
        | inl ok ↦ rw ok (record {
          keeps =
              move-Keeps content b hbm dram t (λ q. cc) (copy-small hbm id t bytes v e)
                (a hbm id bytes e) v a e ok;
          refused = λ h. cc;
        })
        | inr full ↦ elim (Bool-cases (put_to_tier b' ssd t).1) [
          | inl ok ↦
              rw (full, put_refused b dram t full, ok)
                (record {
                  keeps =
                      move-Keeps content b' hbm ssd t (λ q. cc) (copy-small hbm id t bytes v e)
                        (a hbm id bytes e) v a e ok;
                  refused = λ h. cc;
                })
          | inr no_room ↦
              rw (full, put_refused b dram t full, no_room)
                (record {
                  keeps = rw (put_refused b' ssd t no_room) (Keeps-refl content t v a);
                  refused = λ _. put_refused b' ssd t no_room;
                })
        ]
      ]

-- On a well-formed store whose copies agree, `Demote` loses no block, whether or not a slower tier
-- has room: the store stays well formed, its copies agree, readers find every block as before, and
-- a refusal changes nothing.
pub demote-Demoted :
    (content : BlockId → Bytes) (id : BlockId) (t : TieredStore)
    → IsValid t
    → Agrees content t
    → Demoted content t (demote id t)
unfolding demote
demote-Demoted content id t v a = elim (Option-cases (copy hbm id t)) [
  | inr (bytes, e) ↦ rw (e, demote) (demote_hbm-Demoted content id bytes t v a e)
  | inl h ↦ elim (Option-cases (copy dram id t)) [
    | inr (bytes, e) ↦ rw (h, e, demote) (demote_dram-Demoted content id bytes t v a e)
    | inl d ↦ rw (h, d, demote) (record { keeps = Keeps-refl content t v a; refused = λ _. refl })
  ]
]

module _ (id : BlockId) (t : TieredStore) (v : IsValid t) where
  unfoldable pub h1 : TieredStore
  h1 = (erase_from_tier id hbm t).0

  unfoldable pub h2 : TieredStore
  h2 = (erase_from_tier id dram h1).0

  pub h1-IsValid : IsValid h1
  unfolding h1
  h1-IsValid = erase_from_tier-IsValid id hbm t v

  pub h2-IsValid : IsValid h2
  unfolding h2
  h2-IsValid = erase_from_tier-IsValid id dram h1 h1-IsValid

  -- `Erase` takes every copy of the block and no copy of another.
  pub copy-erase_everywhere :
      (x : Tier) (j : BlockId)
      → copy x j (erase_everywhere id t).0 ≡ ite (id_dec j id) none (copy x j t)
  unfolding erase_everywhere h1 h2 tier_dec
  copy-erase_everywhere hbm j = ground (
    arith,
    copy-erase id hbm t hbm j v,
    copy-erase id dram h1 hbm j h1-IsValid,
    copy-erase id ssd h2 hbm j h2-IsValid,
  )
  copy-erase_everywhere x j = ground (
    arith,
    copy-erase id hbm t x j v,
    copy-erase id dram h1 x j h1-IsValid,
    copy-erase id ssd h2 x j h2-IsValid,
  )
