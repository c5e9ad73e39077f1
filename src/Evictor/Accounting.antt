-- ===== src/Evictor/Accounting.antt =====
-- What a pass over the SSD tier reports against what the store loses, and what a second visit of
-- a demoted block does.
use lethe.Base.{
  ℕ, zero, suc, ◌+◌, ◌<◌, ◌≡◌, refl, ap, ◌∙◌, Bool, true, false, none, some, length, get_elem?,
  arith, inl, inr, Bool-cases, Option-cases, u64_mod, ltb, if_pos,
}
use lethe.Evictor.{Walk, wrapped, second_chance, evict, walk_step, walk}
use lethe.Evictor.Sweep.{walk_step_lem}
use lethe.TieredStore.{
  TieredStore, copy, clear_visited, demote, demote_dram, demoted_block, used_bytes, put_to_tier,
}
use lethe.TieredStore.Copies.{IsValid, put_to_tier-IsValid, copy-put, copy-erase, copy-small}
use lethe.TieredStore.Stored.{stored, Agrees}
use lethe.TieredStore.Demote.{demote-Demoted}
use lethe.TieredStore.Erase.{total_used, erase-Erased}
use lethe.Types.{hbm, dram, ssd, Bytes, BlockId, BlockMeta, id_dec, tier_dec}

-- The store is well-formed, and the bytes freed so far with the bytes in use make `total`.
pub record Balanced (total : ℕ) (w : Walk) : Type 0 where
  pub valid : IsValid w.store
  pub balance : total_used w.store + w.freed_local ≡ total

second_chance-Balanced :
    (total : ℕ) (m : BlockMeta) (hand : ℕ) (w : Walk)
    → Balanced total w
    → Balanced total (second_chance m hand w)
unfolding second_chance clear_visited used_bytes
second_chance-Balanced total m hand w b = record {
  valid = record {
    hbm_valid = b.valid.hbm_valid;
    dram_valid = b.valid.dram_valid;
    ssd_valid = b.valid.ssd_valid;
  };
  balance = b.balance;
}

evict-Balanced :
    (total : ℕ) (m : BlockMeta) (hand : ℕ) (w : Walk)
    → total < u64_mod
    → Balanced total w
    → Balanced total (evict ssd m hand w)
unfolding evict
evict-Balanced total m hand w small b =
    let e = erase-Erased m.id w.store b.valid in
    record { valid = e.valid; balance = omega (arith, e.freed, b.balance) }

pub walk_step-Balanced :
    (total : ℕ) (w : Walk) → total < u64_mod → Balanced total w → Balanced total (walk_step ssd w)
walk_step-Balanced total w small b = elim (Option-cases (get_elem? w.blocks (wrapped w))) [
  | inl e ↦ unfold walk_step in rw (e, walk_step) b
  | inr (m, e) ↦ elim (Bool-cases m.visited) [
    | inl v ↦ rw (walk_step_lem ssd w m e) (simp v (second_chance-Balanced total m (wrapped w) w b))
    | inr v ↦ rw (walk_step_lem ssd w m e) (simp v (evict-Balanced total m (wrapped w) w small b))
  ]
]

-- A walk over the SSD tier keeps the balance of the pass, where the total is below 2^64: the bytes
-- that it counts as freed are the bytes that the store lost, and the store stays well formed.
pub walk-Balanced :
    (steps total need : ℕ) (w : Walk)
    → total < u64_mod
    → Balanced total w
    → Balanced total (walk steps ssd need w)
unfolding walk
walk-Balanced zero total need w small b = b
walk-Balanced (suc steps) total need w small b = elim (Bool-cases (ltb w.freed_local need)) [
  | inl more ↦
      rw (more, walk)
        (walk-Balanced steps total need (walk_step ssd w) small
          (walk_step-Balanced total w small b))
  | inr enough ↦ rw (enough, walk) b
]

-- A block that no memory tier has is not demoted.
demote_absent :
    (id : BlockId) (t : TieredStore)
    → copy hbm id t ≡ none
    → copy dram id t ≡ none
    → demote id t ≡ (t, false)
unfolding demote
demote_absent id t h d = rw (h, d, demote)

demote_cold :
    (id : BlockId) (t : TieredStore) (bytes : Bytes)
    → copy hbm id t ≡ none
    → copy dram id t ≡ some bytes
    → demote id t ≡ demote_dram id bytes t
unfolding demote
demote_cold id t bytes h d = rw (h, d, demote)

demote_dram-absent :
    (id : BlockId) (bytes : Bytes) (t : TieredStore)
    → IsValid t
    → copy hbm id t ≡ none
    → copy dram id t ≡ some bytes
    → (demote_dram id bytes t).1 ≡ true
    → (copy hbm id (demote_dram id bytes t).0 ≡ none)
      × (copy dram id (demote_dram id bytes t).0 ≡ none)
unfolding demote_dram tier_dec
demote_dram-absent id bytes t v h d ok =
    let b = demoted_block id bytes ssd in
    let small = copy-small dram id t bytes v d in
    elim (Bool-cases (put_to_tier b ssd t).1) [
      | inr no_room ↦ cc (rw no_room at ok)
      | inl room ↦
          let vp = put_to_tier-IsValid b ssd t small v in
          rw room (
            (copy-erase id dram (put_to_tier b ssd t).0 hbm id vp
                ∙ copy-put b ssd t hbm id small v room
                ∙ h),
            (copy-erase id dram (put_to_tier b ssd t).0 dram id vp
                ∙ if_pos (id_dec id id) refl _ _),
          )
    ]

-- After a successful demotion from DRAM no memory tier has the block.
after_demote :
    (id : BlockId) (t : TieredStore)
    → IsValid t
    → copy hbm id t ≡ none
    → (demote id t).1 ≡ true
    → (copy hbm id (demote id t).0 ≡ none) × (copy dram id (demote id t).0 ≡ none)
after_demote id t v h ok = elim (Option-cases (copy dram id t)) [
  | inl d ↦ cc (ap (λ (r : TieredStore × Bool). r.1) (demote_absent id t h d))
  | inr (bytes, d) ↦
      let same = demote_cold id t bytes h d in
      rw same (demote_dram-absent id bytes t v h d (rw same at ok))
]

-- On a well-formed store whose copies agree, evicting a block of the DRAM tier that HBM does not
-- have and that `Demote` takes loses nothing; evicting the same snapshot entry once more leaves the
-- block in no tier and counts it a second time.
pub evict_again :
    (content : BlockId → Bytes) (m : BlockMeta) (hand hand' : ℕ) (w : Walk)
    → IsValid w.store
    → Agrees content w.store
    → copy hbm m.id w.store ≡ none
    → (demote m.id w.store).1 ≡ true
    → let first = evict dram m hand w in
      let again = evict dram m hand' first in
      (stored m.id first.store ≡ stored m.id w.store)
      × (stored m.id again.store ≡ none)
      × (length again.evicted ≡ length w.evicted + 2)
unfolding evict
evict_again content m hand hand' w v a h ok =
    let d = demote-Demoted content m.id w.store v a in
    let t = (demote m.id w.store).0 in
    let gone = after_demote m.id w.store v h ok in
    let e = erase-Erased m.id t d.keeps.valid in
    rw (ok, demote_absent m.id t gone.0 gone.1)
      (
        d.keeps.same m.id,
        (ground (arith, e.copies hbm m.id, e.copies dram m.id, e.copies ssd m.id)),
        omega arith,
      )
