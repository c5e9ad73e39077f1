-- ===== src/Ibverbs/Buffers/Counts.antt =====
-- Counting the entries of the lists of a connection.
use mathlib.Core.List.{lookup}
use lethe.Base.Assoc.{remove}
use lethe.Base.{
  ℕ, ◌+◌, ◌≡◌, ◌<◌, refl, Bool, List, [], ◌∷◌, none, some, if◌then◌else◌, arith, ℕ_discrete, ◌==◌,
  All, ◌≢◌, if_pos, if_neg, ◌∙◌,
}

-- The sum of a weight over a list.
abbrev pub tally {ℓ} : {A : Type ℓ} → (A → ℕ) → List A → ℕ
tally f [] = 0
tally f (x ∷ xs) = f x + tally f xs

abbrev pub one_if : Bool → ℕ
one_if b = if b then 1 else 0

module _ {V : Type 0} where
  pub tally-remove :
      (f : ℕ × V → ℕ) (k : ℕ) (l : List (ℕ × V)) (v : V)
      → lookup ℕ_discrete k l ≡ some v
      → tally f (remove ℕ_discrete k l) + f (k, v) ≡ tally f l
  unfolding lookup remove
  tally-remove f k [] v h = cc
  tally-remove f k ((i, w) ∷ l) v h = ground (arith, tally-remove f k l v)

  -- The entries with a key.
  abbrev pub keyed : ℕ → ℕ × V → ℕ
  keyed k (i, v) = one_if (i == k)

  -- A key that is counted has an entry.
  pub lookup_counted :
      (k : ℕ) (l : List (ℕ × V))
      → 0 < tally (keyed k) l
      → (v : V) × (lookup ℕ_discrete k l ≡ some v)
  unfolding lookup
  lookup_counted k [] h = absurd (omega (arith, h))
  lookup_counted k ((i, w) ∷ l) h = elim (ℕ_discrete k i) [
    | yes e ↦ (w, if_pos (ℕ_discrete k i) e (some w) (lookup ℕ_discrete k l))
    | no n ↦
        let (v, at) = lookup_counted k l (ground (arith, h)) in
        (v, if_neg (ℕ_discrete k i) n (some w) (lookup ℕ_discrete k l) ∙ at)
  ]

  pub counted_lookup :
      (k : ℕ) (l : List (ℕ × V)) (v : V) → lookup ℕ_discrete k l ≡ some v → 0 < tally (keyed k) l
  unfolding lookup
  counted_lookup k [] v h = cc
  counted_lookup k ((i, w) ∷ l) v h = ground (arith, counted_lookup k l v)

  pub uncounted_lookup :
      (k : ℕ) (l : List (ℕ × V)) → tally (keyed k) l ≡ 0 → lookup ℕ_discrete k l ≡ none
  unfolding lookup
  uncounted_lookup k [] h = refl
  uncounted_lookup k ((i, w) ∷ l) h = ground (arith, uncounted_lookup k l)

  -- Where a key is not counted, every entry has another.
  pub All-uncounted :
      (P : ℕ × V → Type 0) (k : ℕ) (l : List (ℕ × V))
      → tally (keyed k) l ≡ 0
      → All P l
      → All (λ e. P e × (e.0 ≢ k)) l
  All-uncounted P k [] h a = tt
  All-uncounted P k ((i, w) ∷ l) h a =
      ((a.0, λ e. ground (arith, h, e)), All-uncounted P k l (omega (arith, h)) a.1)
