-- ===== src/Router/Search.antt =====
-- The binary search over the sorted ring.
use lethe.Base.{
  ℕ, zero, suc, ◌+◌, ◌-◌, ◌/◌, ◌≤◌, ◌<◌, ◌≡◌, List, [], ◌∷◌, length, get_or, ltb, leb, arith,
  Bool-cases, ltb→lt, ltb→le, inl, inr, All,
}
use lethe.Router.{RingEntry, no_entry, search_ring, insert_entry, sort_ring}

abbrev pub hash_at : List RingEntry → ℕ → ℕ
hash_at ring i = (get_or ring i no_entry).hash

-- The hashes do not fall along the ring.
abbrev pub IsSorted : List RingEntry → Type 0
IsSorted [] = Unit
IsSorted (e ∷ l) = All (λ (f : RingEntry). e.hash ≤ f.hash) l × IsSorted l

-- Position `r` splits the ring into hashes below the target and hashes not below it.
pub record Splits (ring : List RingEntry) (target r : ℕ) : Type 0 where
  pub in_range : r ≤ length ring
  pub below : (i : ℕ) → i < r → hash_at ring i < target
  pub above : (i : ℕ) → r ≤ i → i < length ring → target ≤ hash_at ring i

All-hash_at :
    (n : ℕ) (l : List RingEntry) (j : ℕ)
    → All (λ (f : RingEntry). n ≤ f.hash) l
    → j < length l
    → n ≤ hash_at l j
All-hash_at n [] j a h = elim h [ ]
All-hash_at n (e ∷ l) zero a h = a.0
All-hash_at n (e ∷ l) (suc j) a h = All-hash_at n l j a.1 (omega arith)

pub hash_at_mono :
    (ring : List RingEntry) (i j : ℕ)
    → IsSorted ring
    → i ≤ j
    → j < length ring
    → hash_at ring i ≤ hash_at ring j
hash_at_mono [] i j s h g = elim g [ ]
hash_at_mono (e ∷ l) zero zero s h g = omega arith
hash_at_mono (e ∷ l) zero (suc j) s h g = All-hash_at e.hash l j s.0 (omega arith)
hash_at_mono (e ∷ l) (suc i) zero s h g = absurd (omega arith)
hash_at_mono (e ∷ l) (suc i) (suc j) s h g = hash_at_mono l i j s.1 (omega arith) (omega arith)

-- What the loop knows of its range.
record Range (ring : List RingEntry) (target lo hi : ℕ) : Type 0 where
  ordered : lo ≤ hi
  inside : hi ≤ length ring
  below : (i : ℕ) → i < lo → hash_at ring i < target
  above : (i : ℕ) → hi ≤ i → i < length ring → target ≤ hash_at ring i

module _ (ring : List RingEntry) (target : ℕ) (sorted : IsSorted ring) where
  upper-Range :
      (lo hi mid : ℕ)
      → Range ring target lo hi
      → mid < hi
      → hash_at ring mid < target
      → Range ring target (mid + 1) hi
  upper-Range lo hi mid r h c = record {
    ordered = omega arith;
    inside = r.inside;
    below = λ i p.
        omega (arith, hash_at_mono ring i mid sorted (omega arith) (omega (arith, r.inside)));
    above = r.above;
  }

  lower-Range :
      (lo hi mid : ℕ)
      → Range ring target lo hi
      → lo ≤ mid
      → mid < hi
      → target ≤ hash_at ring mid
      → Range ring target lo mid
  lower-Range lo hi mid r g h c = record {
    ordered = g;
    inside = omega (arith, r.inside);
    below = r.below;
    above = λ i p q. omega (arith, hash_at_mono ring mid i sorted p q);
  }

  search_ring-Splits :
      (fuel lo hi : ℕ)
      → hi - lo ≤ fuel
      → Range ring target lo hi
      → Splits ring target (search_ring fuel ring target lo hi)
  unfolding search_ring
  search_ring-Splits zero lo hi f r = record {
    in_range = omega (arith, r.ordered, r.inside);
    below = r.below;
    above = λ i p q. r.above i (omega (arith, r.ordered)) q;
  }
  search_ring-Splits (suc fuel) lo hi f r = elim (Bool-cases (ltb lo hi)) [
    | inr done ↦
        let at : lo ≡ hi = omega (arith, ltb→le lo hi done, r.ordered) in
        rw (done, search_ring)
          (record {
            in_range = omega (arith, r.inside);
            below = r.below;
            above = λ i p q. r.above i (omega arith) q;
          })
    | inl more ↦
        let mid : ℕ = lo + (hi - lo) / 2 in
        let open_range : lo < hi = ltb→lt lo hi more in
        elim (Bool-cases (ltb (hash_at ring mid) target)) [
          | inl small ↦
              rw (more, small, search_ring)
                (search_ring-Splits fuel (mid + 1) hi (omega arith)
                  (upper-Range lo hi mid r (omega arith) (ltb→lt _ _ small)))
          | inr large ↦
              rw (more, large, search_ring)
                (search_ring-Splits fuel lo mid (omega arith)
                  (lower-Range lo hi mid r (omega arith) (omega arith) (ltb→le _ _ large)))
        ]
  ]

  -- On a sorted ring the search of `Route` ends at the position that splits the ring at the target:
  -- the hashes before it are below the target, the others are not.
  pub search_ring_lem : Splits ring target (search_ring (length ring) ring target 0 (length ring))
  search_ring_lem = search_ring-Splits (length ring) 0 (length ring) (omega arith) (record {
    ordered = omega arith;
    inside = omega arith;
    below = λ i h. absurd (omega arith);
    above = λ i h q. absurd (omega arith);
  })

All-insert_entry :
    (n : ℕ) (e : RingEntry) (l : List RingEntry)
    → n ≤ e.hash
    → All (λ (f : RingEntry). n ≤ f.hash) l
    → All (λ (f : RingEntry). n ≤ f.hash) (insert_entry e l)
unfolding insert_entry
All-insert_entry n e [] h a = (h, tt)
All-insert_entry n e (f ∷ l) h a = ground (arith, All-insert_entry n e l h a.1)

All-weaken :
    (m n : ℕ) (l : List RingEntry)
    → m ≤ n
    → All (λ (f : RingEntry). n ≤ f.hash) l
    → All (λ (f : RingEntry). m ≤ f.hash) l
All-weaken m n [] h a = tt
All-weaken m n (f ∷ l) h a = (omega (arith, a.0), All-weaken m n l h a.1)

insert_entry-IsSorted :
    (e : RingEntry) (l : List RingEntry) → IsSorted l → IsSorted (insert_entry e l)
unfolding insert_entry
insert_entry-IsSorted e [] s = (tt, tt)
insert_entry-IsSorted e (f ∷ l) s = elim (Bool-cases (leb e.hash f.hash)) [
  | inl le ↦
      let h : e.hash ≤ f.hash = ground arith in rw le ((h, All-weaken e.hash f.hash l h s.0), s)
  | inr gt ↦ rw gt (All-insert_entry f.hash e l (ground arith) s.0, insert_entry-IsSorted e l s.1)
]

-- `SetPeers` sorts the ring.
pub sort_ring-IsSorted : (l : List RingEntry) → IsSorted (sort_ring l)
unfolding sort_ring
sort_ring-IsSorted [] = tt
sort_ring-IsSorted (e ∷ l) = insert_entry-IsSorted e (sort_ring l) (sort_ring-IsSorted l)
