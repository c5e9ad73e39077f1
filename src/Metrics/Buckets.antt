-- ===== src/Metrics/Buckets.antt =====
-- Histograms of cache_server/src/metrics.cpp against the observations that they summarise.
use lethe.Base.{
  ℕ, zero, suc, ◌+◌, ◌^◌, ◌<◌, ◌≤◌, ◌≡◌, refl, ap, ◌∙◌, Bool, true, not, List, [], ◌∷◌, length,
  if◌then◌else◌, add64, get_or, leb, ℕ_discrete, arith, Bool-cases, inl, inr,
}
use lethe.Metrics.{
  Histogram, new_histogram, bump, cumulative, rendered, bounds_size, find_bucket, observe,
}

-- The exact sums of the buckets, up to one of them and over all.
abbrev pub upto : ℕ → List ℕ → ℕ
upto k [] = 0
upto zero (b ∷ bs) = b
upto (suc k) (b ∷ bs) = b + upto k bs

abbrev pub sum_of : List ℕ → ℕ
sum_of [] = 0
sum_of (b ∷ bs) = b + sum_of bs

abbrev pub one_if : Bool → ℕ
one_if b = if b then 1 else 0

upto_all : (k : ℕ) (bs : List ℕ) → length bs ≤ k + 1 → upto k bs ≡ sum_of bs
upto_all k [] h = refl
upto_all zero (b ∷ []) h = omega arith
upto_all zero (b ∷ c ∷ bs) h = absurd (omega (arith, h))
upto_all (suc k) (b ∷ bs) h = omega (arith, upto_all k bs (omega (arith, h)))

upto_le : (k : ℕ) (bs : List ℕ) → upto k bs ≤ sum_of bs
upto_le k [] = omega arith
upto_le zero (b ∷ bs) = omega arith
upto_le (suc k) (b ∷ bs) = omega (arith, upto_le k bs)

cumulative_lem :
    (cum k : ℕ) (bs : List ℕ)
    → cum + sum_of bs < 2 ^ 64
    → k < length bs
    → get_or (cumulative cum bs) k 0 ≡ cum + upto k bs
unfolding cumulative
cumulative_lem cum k [] h l = absurd (omega (arith, l))
cumulative_lem cum zero (b ∷ bs) h l = omega (arith, h)
cumulative_lem cum (suc k) (b ∷ bs) h l =
    let exact : add64 cum b ≡ cum + b = omega (arith, h) in
    rw exact (cumulative_lem (cum + b) k bs (omega (arith, h)) (omega (arith, l)) ∙ omega arith)

bump_lem :
    (i k : ℕ) (bs : List ℕ)
    → sum_of bs + 1 < 2 ^ 64
    → i < length bs
    → (upto k (bump i bs) ≡ upto k bs + one_if (leb i k))
      × (sum_of (bump i bs) ≡ sum_of bs + 1)
      × (length (bump i bs) ≡ length bs)
unfolding bump
bump_lem i k [] h l = absurd (omega (arith, l))
bump_lem zero zero (b ∷ bs) h l = (omega (arith, h), omega (arith, h), refl)
bump_lem zero (suc k) (b ∷ bs) h l = (ground (arith, h), omega (arith, h), refl)
bump_lem (suc i) zero (b ∷ bs) h l =
    let rest = bump_lem i zero bs (omega (arith, h)) (omega (arith, l)) in
    (ground arith, omega (arith, rest), ap suc rest.2)
bump_lem (suc i) (suc k) (b ∷ bs) h l =
    let rest = bump_lem i k bs (omega (arith, h)) (omega (arith, l)) in
    (ground (arith, rest.0), omega (arith, rest), ap suc rest.2)

module _ {D : Type 0} (above : ℕ → D → Bool) where
  -- A histogram of observations, the last one first.
  unfoldable pub histogram : (D → ℕ) → List D → Histogram
  histogram micros [] = new_histogram
  histogram micros (d ∷ ds) = observe above micros d (histogram micros ds)

  -- How many of them are not above the k-th bound.
  abbrev pub within : ℕ → List D → ℕ
  within k [] = 0
  within k (d ∷ ds) = one_if (not (above k d)) + within k ds

module _ {D : Type 0} (above : ℕ → D → Bool)
    (ascending : (i j : ℕ) (d : D) → i ≤ j → above j d ≡ true → above i d ≡ true) where
  find_bucket_lt :
      (left i : ℕ) (d : D)
      → (i ≤ find_bucket above left i d) × (find_bucket above left i d ≤ i + left)
  unfolding find_bucket
  find_bucket_lt zero i d = (omega arith, omega arith)
  find_bucket_lt (suc left) i d =
      let rest = find_bucket_lt left (suc i) d in (ground (arith, rest), ground (arith, rest))

  -- A duration falls into a bucket up to the k-th exactly if it is not above the k-th bound.
  find_bucket_exact :
      (left i k : ℕ) (d : D)
      → i ≤ k
      → k < i + left
      → leb (find_bucket above left i d) k ≡ not (above k d)
  unfolding find_bucket
  find_bucket_exact zero i k d low high = absurd (omega (arith, low, high))
  find_bucket_exact (suc left) i k d low high = elim (Bool-cases (above i d)) [
    | inr within ↦ ground (arith, within, low, ascending i k d low)
    | inl over ↦ elim (ℕ_discrete k i) [
      | yes here ↦
          let same : above k d ≡ true = ap (λ j. above j d) here ∙ over in
          ground (arith, over, same, here, find_bucket_lt left (suc i) d)
      | no there ↦
          let rest =
            find_bucket_exact left (suc i) k d (omega (arith, low, there)) (omega (arith, high)) in
          ground (arith, over, rest)
    ]
  ]

  -- The buckets of the histogram, exactly.
  record Tallies (ds : List D) (h : Histogram) : Type 0 where
    pub size : length h.buckets ≡ 9
    pub total : sum_of h.buckets ≡ length ds
    pub counted : h.count ≡ length ds
    pub each : (k : ℕ) → k < 8 → upto k h.buckets ≡ within above k ds

  histogram-Tallies :
      (micros : D → ℕ) (ds : List D) → length ds < 2 ^ 64 → Tallies ds (histogram above micros ds)
  unfolding histogram new_histogram observe
  histogram-Tallies micros [] small = record {
    size = refl;
    total = refl;
    counted = refl;
    each = λ k l. omega (arith, upto_le k new_histogram.buckets);
  }
  histogram-Tallies micros (d ∷ ds) small =
      let rest = histogram-Tallies micros ds (omega (arith, small)) in
      let h = histogram above micros ds in
      let i = find_bucket above bounds_size 0 d in
      let in_range : i < length h.buckets =
        omega (arith, find_bucket_lt bounds_size 0 d, rest.size) in
      let room : sum_of h.buckets + 1 < 2 ^ 64 = omega (arith, small, rest.total) in
      record {
        size = (bump_lem i 0 h.buckets room in_range).2 ∙ rest.size;
        total = omega (arith, (bump_lem i 0 h.buckets room in_range).1, rest.total);
        counted = omega (arith, rest.counted, small);
        each = λ k l. ground (
          arith,
          (bump_lem i k h.buckets room in_range).0,
          rest.each k l,
          find_bucket_exact bounds_size 0 k d (omega arith) (omega (arith, l)),
        );
      }

  -- For ascending bounds and fewer than 2^64 observations, the k-th bucket that `render_histogram`
  -- prints is the number of observations that are not above the k-th bound, the last one is the
  -- count that it prints, and this is the number of observations.
  pub rendered_lem :
      (micros : D → ℕ) (ds : List D)
      → length ds < 2 ^ 64
      → let h = histogram above micros ds in
        ((k : ℕ) → k < 8 → get_or (rendered h) k 0 ≡ within above k ds)
        × (get_or (rendered h) 8 0 ≡ h.count)
        × (h.count ≡ length ds)
  unfolding rendered
  rendered_lem micros ds small =
      let t = histogram-Tallies micros ds small in
      let h = histogram above micros ds in
      let room : 0 + sum_of h.buckets < 2 ^ 64 = omega (arith, small, t.total) in
      (
        λ k l.
            cumulative_lem 0 k h.buckets room (omega (arith, t.size, l))
            ∙ omega (arith, t.each k l),
        cumulative_lem 0 8 h.buckets room (omega (arith, t.size))
            ∙ omega (arith, t.total, t.counted, upto_all 8 h.buckets (omega (arith, t.size))),
        t.counted,
      )
