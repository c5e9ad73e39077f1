-- ===== src/Evictor/Sweep.antt =====
-- The SIEVE walk covers the tier: two rounds over the snapshot evict every block, unless enough
-- bytes were freed before.
use lethe.Base.{
  ℕ, zero, suc, ◌+◌, ◌-◌, ◌*◌, ◌≤◌, ◌<◌, ◌≡◌, ◌≢◌, refl, sym, ap, ◌∙◌, subst, false, some, List, [],
  ◌∷◌, length, get_elem?, leb, ltb, set, arith, ◌⊎◌, inl, inr, Bool-cases, map, Has, here, there,
  All, All-of_get_elem?, All-map, length-set, get_elem?-set_ne, get_elem?-set_self, get_elem?-lt,
  lt_of_get_elem?, ltb→le, dec_lt, ℕ_discrete, if◌then◌else◌,
}
use lethe.Evictor.{Walk, wrapped, second_chance, evict, walk_step, walk}
use lethe.Types.{Tier, BlockId, BlockMeta}

-- `n` rounds of the loop with no stop.
rounds : ℕ → Tier → Walk → Walk
rounds zero tier w = w
rounds (suc n) tier w = rounds n tier (walk_step tier w)

rounds-suc :
    (n : ℕ) (tier : Tier) (w : Walk) → rounds (suc n) tier w ≡ walk_step tier (rounds n tier w)
unfolding rounds
rounds-suc zero tier w = refl
rounds-suc (suc n) tier w = rounds-suc n tier (walk_step tier w)

rounds-add :
    (m n : ℕ) (tier : Tier) (w : Walk) → rounds (n + m) tier w ≡ rounds m tier (rounds n tier w)
unfolding rounds
rounds-add m zero tier w = let e : 0 + m ≡ m = omega arith in rw e
rounds-add m (suc n) tier w =
    let e : suc n + m ≡ suc (n + m) = omega arith in rw e (rounds-add m n tier (walk_step tier w))

walk-rounds :
    (n : ℕ) (tier : Tier) (need : ℕ) (w : Walk)
    → (need ≤ (walk n tier need w).freed_local) ⊎ (walk n tier need w ≡ rounds n tier w)
unfolding walk rounds
walk-rounds zero tier need w = inr refl
walk-rounds (suc n) tier need w = elim (Bool-cases (ltb w.freed_local need)) [
  | inl more ↦ rw (more, walk) (walk-rounds n tier need (walk_step tier w))
  | inr enough ↦ rw (enough, walk) (inl (ltb→le w.freed_local need enough))
]

-- The positions that `k` rounds from position `s` have passed, on a ring of `n` positions.
abbrev InArc : ℕ → ℕ → ℕ → ℕ → Type 0
InArc s k n j = ((s ≤ j) × (j < s + k)) ⊎ (j + n < s + k)

-- Where the hand stands after `k` rounds.
abbrev hand_at : ℕ → ℕ → ℕ → ℕ
hand_at s k n = if ltb (s + k) n then s + k else s + k - n

-- The first lap: behind the hand no block is visited.
record Cleared (ids : List BlockId) (n s k : ℕ) (w : Walk) : Type 0 where
  same_ids : map (λ (m : BlockMeta). m.id) w.blocks ≡ ids
  size : length w.blocks ≡ n
  at_hand : wrapped w ≡ hand_at s k n
  cleared :
      (j : ℕ) (m : BlockMeta) → InArc s k n j → get_elem? w.blocks j ≡ some m → m.visited ≡ false

-- The second lap: behind the hand every block is evicted.
record Emptied (ids : List BlockId) (n s k : ℕ) (w : Walk) : Type 0 where
  same_ids : map (λ (m : BlockMeta). m.id) w.blocks ≡ ids
  size : length w.blocks ≡ n
  at_hand : wrapped w ≡ hand_at s k n
  cleared : (j : ℕ) (m : BlockMeta) → get_elem? w.blocks j ≡ some m → m.visited ≡ false
  gone :
      (j : ℕ) (m : BlockMeta) → InArc s k n j → get_elem? w.blocks j ≡ some m → Has m.id w.evicted

map-set_same :
    (l : List BlockMeta) (i : ℕ) (m : BlockMeta)
    → get_elem? l i ≡ some m
    → map (λ (x : BlockMeta). x.id) (set l i (record m { visited = false }))
      ≡ map (λ (x : BlockMeta). x.id) l
map-set_same [] i m e = refl
map-set_same (x ∷ l) zero m e = ground arith
map-set_same (x ∷ l) (suc i) m e = ap (◌∷◌ x.id) (map-set_same l i m e)

hand_at-lt : (s k n : ℕ) → s < n → k < n → hand_at s k n < n
hand_at-lt s k n h g = ground arith

-- Passing the hand's position lengthens the arc by one.
InArc-suc :
    (s k n j : ℕ) → s < n → k < n → j < n → InArc s (suc k) n j → j ≢ hand_at s k n → InArc s k n j
InArc-suc s k n j h g l a ne = ground arith

InArc-whole : (s n j : ℕ) → j < n → InArc s n n j
InArc-whole s n j h = elim (dec_lt j s) [
  | yes p ↦ inr (omega arith)
  | no p ↦ inl (omega arith, omega arith)
]

hand_at-suc :
    (s k n l p : ℕ)
    → s < n
    → k < n
    → l ≡ n
    → p ≡ hand_at s k n
    → (if leb l (p + 1) then 0 else p + 1) ≡ hand_at s (suc k) n
hand_at-suc s k n l p h g e f = ground arith

pub walk_step_lem :
    (tier : Tier) (w : Walk) (m : BlockMeta)
    → get_elem? w.blocks (wrapped w) ≡ some m
    → walk_step tier w
      ≡ (if m.visited then second_chance m (wrapped w) w else evict tier m (wrapped w) w)
unfolding walk_step
walk_step_lem tier w m e = rw (e, walk_step)

module _ (ids : List BlockId) (n s k : ℕ) (w : Walk) (s_in : s < n) (k_in : k < n) (m : BlockMeta)
    (e : get_elem? w.blocks (wrapped w) ≡ some m) where
  second_chance-Cleared :
      Cleared ids n s k w → Cleared ids n s (suc k) (second_chance m (wrapped w) w)
  unfolding second_chance
  second_chance-Cleared c =
      let fresh : BlockMeta = record m { visited = false } in
      let long : length (set w.blocks (wrapped w) fresh) ≡ n =
        length-set w.blocks (wrapped w) fresh ∙ c.size in
      record {
        same_ids = map-set_same w.blocks (wrapped w) m e ∙ c.same_ids;
        size = long;
        at_hand = hand_at-suc s k n _ (wrapped w) s_in k_in long c.at_hand;
        cleared = λ j x a g. elim (ℕ_discrete (wrapped w) j) [
          | yes p ↦
              let new : some fresh ≡ some x =
                sym (
                  get_elem?-set_self w.blocks (wrapped w) fresh
                    (lt_of_get_elem? w.blocks (wrapped w) m e))
                ∙ ap (get_elem? (set w.blocks (wrapped w) fresh)) p
                ∙ g in
              ground arith
          | no p ↦
              let old : get_elem? w.blocks j ≡ some x =
                sym (get_elem?-set_ne w.blocks (wrapped w) j fresh p) ∙ g in
              c.cleared j x
                (InArc-suc s k n j s_in k_in
                  (omega (arith, lt_of_get_elem? w.blocks j x old, c.size)) a
                  (λ q. p (c.at_hand ∙ sym q)))
                old
        ];
      }

  evict-Cleared :
      (tier : Tier)
      → m.visited ≡ false
      → Cleared ids n s k w
      → Cleared ids n s (suc k) (evict tier m (wrapped w) w)
  unfolding evict
  evict-Cleared tier unvisited c = record {
    same_ids = c.same_ids;
    size = c.size;
    at_hand = hand_at-suc s k n _ (wrapped w) s_in k_in c.size c.at_hand;
    cleared = λ j x a g. elim (ℕ_discrete (wrapped w) j) [
      | yes p ↦ let now : some m ≡ some x = sym e ∙ ap (get_elem? w.blocks) p ∙ g in ground arith
      | no p ↦
          c.cleared j x
            (InArc-suc s k n j s_in k_in (omega (arith, lt_of_get_elem? w.blocks j x g, c.size)) a
              (λ q. p (c.at_hand ∙ sym q)))
            g
    ];
  }

  evict-Emptied :
      (tier : Tier) → Emptied ids n s k w → Emptied ids n s (suc k) (evict tier m (wrapped w) w)
  unfolding evict
  evict-Emptied tier c = record {
    same_ids = c.same_ids;
    size = c.size;
    at_hand = hand_at-suc s k n _ (wrapped w) s_in k_in c.size c.at_hand;
    cleared = c.cleared;
    gone = λ j x a g. elim (ℕ_discrete (wrapped w) j) [
      | yes p ↦
          let now : some m ≡ some x = sym e ∙ ap (get_elem? w.blocks) p ∙ g in
          let same : m ≡ x = ground arith in
          subst (λ (y : BlockMeta). Has y.id (m.id ∷ w.evicted)) same (here w.evicted)
      | no p ↦ there m.id (
          c.gone j x
            (InArc-suc s k n j s_in k_in (omega (arith, lt_of_get_elem? w.blocks j x g, c.size)) a
              (λ q. p (c.at_hand ∙ sym q)))
            g)
    ];
  }

module _ (ids : List BlockId) (n s : ℕ) (s_in : s < n) (tier : Tier) where
  block_at_hand :
      (k : ℕ) (w : Walk)
      → k < n
      → length w.blocks ≡ n
      → wrapped w ≡ hand_at s k n
      → (m : BlockMeta) × (get_elem? w.blocks (wrapped w) ≡ some m)
  block_at_hand k w h size at =
      get_elem?-lt w.blocks (wrapped w) (omega (arith, hand_at-lt s k n s_in h, at, size))

  walk_step-Cleared :
      (k : ℕ) (w : Walk) → k < n → Cleared ids n s k w → Cleared ids n s (suc k) (walk_step tier w)
  walk_step-Cleared k w h c =
      let (m, e) = block_at_hand k w h c.size c.at_hand in
      elim (Bool-cases m.visited) [
        | inl v ↦ rw (walk_step_lem tier w m e, v) (second_chance-Cleared ids n s k w s_in h m e c)
        | inr v ↦ rw (walk_step_lem tier w m e, v) (evict-Cleared ids n s k w s_in h m e tier v c)
      ]

  walk_step-Emptied :
      (k : ℕ) (w : Walk) → k < n → Emptied ids n s k w → Emptied ids n s (suc k) (walk_step tier w)
  walk_step-Emptied k w h c =
      let (m, e) = block_at_hand k w h c.size c.at_hand in
      rw (walk_step_lem tier w m e, c.cleared (wrapped w) m e)
        (evict-Emptied ids n s k w s_in h m e tier c)

  rounds-Cleared :
      (k : ℕ) (w : Walk) → k ≤ n → Cleared ids n s 0 w → Cleared ids n s k (rounds k tier w)
  unfolding rounds
  rounds-Cleared zero w h c = c
  rounds-Cleared (suc k) w h c =
      rw (rounds-suc k tier w)
        (walk_step-Cleared k (rounds k tier w) h (rounds-Cleared k w (omega arith) c))

  rounds-Emptied :
      (k : ℕ) (w : Walk) → k ≤ n → Emptied ids n s 0 w → Emptied ids n s k (rounds k tier w)
  unfolding rounds
  rounds-Emptied zero w h c = c
  rounds-Emptied (suc k) w h c =
      rw (rounds-suc k tier w)
        (walk_step-Emptied k (rounds k tier w) h (rounds-Emptied k w (omega arith) c))

  -- After a whole lap every position has been passed, and the hand is where it began.
  lap : (w : Walk) → Cleared ids n s n w → Emptied ids n s 0 w
  lap w c = record {
    same_ids = c.same_ids;
    size = c.size;
    at_hand = ground (arith, c.at_hand);
    cleared = λ j m g.
        c.cleared j m (InArc-whole s n j (omega (arith, lt_of_get_elem? w.blocks j m g, c.size))) g;
    gone = λ j m a g. absurd (ground arith);
  }

abbrev pub ids_of : List BlockMeta → List BlockId
ids_of = map (λ (m : BlockMeta). m.id)

-- Two laps of the walk free the bytes that it needs, or evict every block of the snapshot,
-- whatever the hand and the visited bits are at the start.
pub walk_two_laps :
    (tier : Tier) (need : ℕ) (w : Walk)
    → 0 < length w.blocks
    → (need ≤ (walk (length w.blocks * 2) tier need w).freed_local)
      ⊎ All (λ id. Has id (walk (length w.blocks * 2) tier need w).evicted) (ids_of w.blocks)
walk_two_laps tier need w h = elim (walk-rounds (n * 2) tier need w) [
  | inl enough ↦ inl enough
  | inr e ↦ inr (rw (e, two, rounds-add n n tier w) emptied)
]
  where
    n : ℕ
    n = length w.blocks

    two : n * 2 ≡ n + n
    two = omega arith

    s_in : wrapped w < n
    s_in = ground arith

    start : Cleared (ids_of w.blocks) n (wrapped w) 0 w
    start = record {
      same_ids = refl;
      size = refl;
      at_hand = ground arith;
      cleared = λ j m a g. absurd (ground arith);
    }

    half : Emptied (ids_of w.blocks) n (wrapped w) 0 (rounds n tier w)
    half =
        lap (ids_of w.blocks) n (wrapped w) s_in tier (rounds n tier w)
          (rounds-Cleared (ids_of w.blocks) n (wrapped w) s_in tier n w (omega arith) start)

    end_walk : Walk
    end_walk = rounds n tier (rounds n tier w)

    done : Emptied (ids_of w.blocks) n (wrapped w) n end_walk
    done =
        rounds-Emptied (ids_of w.blocks) n (wrapped w) s_in tier n (rounds n tier w) (omega arith)
          half

    emptied : All (λ id. Has id end_walk.evicted) (ids_of w.blocks)
    emptied = subst (All (λ id. Has id end_walk.evicted)) done.same_ids (
        All-map (λ id. Has id end_walk.evicted) (λ (m : BlockMeta). m.id) end_walk.blocks
          (All-of_get_elem? (λ (m : BlockMeta). Has m.id end_walk.evicted) end_walk.blocks
            (λ j m g.
              done.gone j m
                (InArc-whole (wrapped w) n j
                  (omega (arith, lt_of_get_elem? end_walk.blocks j m g, done.size)))
                g)))
