-- ===== src/Evictor/Relief.antt =====
-- What a pass over the SSD does for the space of the node.
use lethe.Base.{
  ℕ, zero, suc, ◌+◌, ◌*◌, ◌≤◌, ◌<◌, ◌≡◌, refl, sym, ◌∙◌, subst, true, none, List, [], ◌∷◌, length,
  get_elem?, arith, ◌⊎◌, inl, inr, Bool-cases, Option-cases, u64_mod, ltb, if_pos, if_neg, All,
  All-mono, Has, sub64, here, there,
}
use lethe.Evictor.{
  EvictionConfig, Hands, Walk, wrapped, second_chance, evict, walk_step, walk, full_walk, hand_of,
  watermark, is_pressed, run_pass_for_tier,
}
use lethe.Evictor.Sweep.{walk_step_lem, walk_two_laps, ids_of}
use lethe.Evictor.Accounting.{Balanced, walk-Balanced, walk_step-Balanced}
use lethe.TieredStore.{TieredStore, copy, erase, used_bytes, capacity_bytes, snapshot}
use lethe.TieredStore.Copies.{IsValid}
use lethe.TieredStore.Stored.{stored}
use lethe.TieredStore.Good.{stored-clear_visited}
use lethe.TieredStore.Erase.{total_used, erase-Erased}
use lethe.Types.{hbm, dram, ssd, BlockId, id_dec}

-- An erased block is in no tier.
stored-erase_same : (id : BlockId) (t : TieredStore) → IsValid t → stored id (erase id t).0 ≡ none
stored-erase_same id t v =
    let e = erase-Erased id t v in
    let gone : (x : _) → copy x id (erase id t).0 ≡ none =
      λ x. e.copies x id ∙ if_pos (id_dec id id) refl _ _ in
    rw (gone hbm, gone dram, gone ssd) refl

stored-erase :
    (id j : BlockId) (t : TieredStore)
    → IsValid t
    → stored j t ≡ none
    → stored j (erase id t).0 ≡ none
stored-erase id j t v h = elim (id_dec j id) [
  | yes same ↦ subst (λ k. stored k (erase id t).0 ≡ none) (sym same) (stored-erase_same id t v)
  | no other ↦
      let e = erase-Erased id t v in
      let kept : (x : _) → copy x j (erase id t).0 ≡ copy x j t =
        λ x. e.copies x j ∙ if_neg (id_dec j id) other _ _ in
      rw (kept hbm, kept dram, kept ssd) h
]

-- Each block that the walk evicted is in no tier.
abbrev AreGone : Walk → Type 0
AreGone w = All (λ id. stored id w.store ≡ none) w.evicted

walk_step-AreGone : (w : Walk) → IsValid w.store → AreGone w → AreGone (walk_step ssd w)
walk_step-AreGone w v g = elim (Option-cases (get_elem? w.blocks (wrapped w))) [
  | inl e ↦ unfold walk_step in rw (e, walk_step) g
  | inr (m, e) ↦ elim (Bool-cases m.visited) [
    | inl seen ↦ rw (walk_step_lem ssd w m e) (
        simp seen (
          unfold second_chance in
          All-mono (λ id. stored id w.store ≡ none) _ w.evicted
            (λ j h. stored-clear_visited m.id j w.store ∙ h) g))
    | inr seen ↦ rw (walk_step_lem ssd w m e) (
        simp seen (
          unfold evict in
          (
            stored-erase_same m.id w.store v,
            All-mono (λ id. stored id w.store ≡ none) _ w.evicted
                (λ j h. stored-erase m.id j w.store v h) g,
          )))
  ]
]

walk-AreGone :
    (steps total need : ℕ) (w : Walk)
    → total < u64_mod
    → Balanced total w
    → AreGone w
    → AreGone (walk steps ssd need w)
unfolding walk
walk-AreGone zero total need w small b g = g
walk-AreGone (suc steps) total need w small b g = elim (Bool-cases (ltb w.freed_local need)) [
  | inl more ↦
      rw (more, walk)
        (walk-AreGone steps total need (walk_step ssd w) small (walk_step-Balanced total w small b)
          (walk_step-AreGone w b.valid g))
  | inr enough ↦ rw (enough, walk) g
]

All-Has :
    (w : Walk) (id : BlockId) (l : List BlockId)
    → All (λ j. stored j w.store ≡ none) l
    → Has id l
    → stored id w.store ≡ none
All-Has w id [] g h = elim h [ ]
All-Has w id (x ∷ l) g (here xs) = g.0
All-Has w id (x ∷ l) g (there y h) = All-Has w id l g.1 h

-- A pass over an SSD under pressure whose snapshot is not empty, on a well-formed store with less
-- than 2^64 bytes in use: the blocks that it evicts are in no tier any more, the bytes that it
-- reports as freed are those that the tiers together lost, and the tiers lost at least what the SSD
-- has (modulo 2^64) above its low watermark, or every block of the snapshot is in no tier any more.
pub ssd_pass_lem :
    (cfg : EvictionConfig) (t : TieredStore) (hands : Hands)
    → IsValid t
    → total_used t < u64_mod
    → is_pressed cfg ssd t ≡ true
    → 0 < length (snapshot ssd t)
    → let p = run_pass_for_tier cfg ssd t hands in
      All (λ id. stored id p.store ≡ none) p.evicted
      × (total_used p.store + p.result.bytes_freed ≡ total_used t)
      × ((total_used p.store
              + sub64 (used_bytes ssd t) (watermark (capacity_bytes ssd t) cfg.low_watermark_pct)
            ≤ total_used t)
          ⊎ All (λ id. stored id p.store ≡ none) (ids_of (snapshot ssd t)))
unfolding run_pass_for_tier full_walk
ssd_pass_lem cfg t hands v small pressed some_block =
    let nonempty : ltb 0 (length (snapshot ssd t)) ≡ true = ground arith in
    let need = sub64 (used_bytes ssd t) (watermark (capacity_bytes ssd t) cfg.low_watermark_pct) in
    let steps = length (snapshot ssd t) * 2 in
    let w : Walk = record {
      store = t;
      blocks = snapshot ssd t;
      hand = hand_of ssd hands;
      freed_local = 0;
      evicted = [];
    } in
    let start : Balanced (total_used t) w = record { valid = v; balance = omega arith } in
    let b = walk-Balanced steps (total_used t) need w small start in
    let gone = walk-AreGone steps (total_used t) need w small start tt in
    rw (pressed, nonempty)
      (
        gone,
        b.balance,
        elim (walk_two_laps ssd need w some_block) [
          | inl enough ↦ inl (omega (arith, enough, b.balance))
          | inr all ↦ inr (
              All-mono (λ id. Has id (walk steps ssd need w).evicted)
                (λ id. stored id (walk steps ssd need w).store ≡ none) (ids_of (snapshot ssd t))
                (λ id h. All-Has (walk steps ssd need w) id (walk steps ssd need w).evicted gone h)
                all)
        ],
      )
