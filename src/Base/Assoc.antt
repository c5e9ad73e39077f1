-- ===== src/Base/Assoc.antt =====
-- Association lists over keys with decidable equality, the model of `std::unordered_map`. The
-- order of the list is the order in which an iterator meets the entries.
use Prim.Native.Nat.{ℕ, ◌+◌}
use mathlib.Core.List.{List, [], ◌∷◌, lookup}
use mathlib.Core.Logic.{◌≢◌, ite, if_pos, if_neg}
use mathlib.Core.Option.{none, some}
use mathlib.Core.Path.{◌≡◌, refl, subst}
use native.Mathlib.Omega.{arith}
use lethe.Base.Lists.{All}

module _ {ℓ} {K V : Type ℓ} where
  -- The sum of a measure over the entries.
  abbrev pub total : (V → ℕ) → List (K × V) → ℕ
  total f [] = 0
  total f ((k, v) ∷ l) = f v + total f l

module _ {ℓ} {K V : Type ℓ} (dec : Discrete K) where
  -- `erase(it)`: drops the first entry with the key.
  unfoldable pub remove : K → List (K × V) → List (K × V)
  remove k [] = []
  remove k ((j, v) ∷ l) = ite (dec k j) l ((j, v) ∷ remove k l)

  -- No key occurs twice.
  abbrev pub IsMap : List (K × V) → Type ℓ
  IsMap [] = Unit
  IsMap ((k, v) ∷ l) = (lookup dec k l ≡ none) × IsMap l

  pub lookup-cons_self : (k : K) (v : V) (l : List (K × V)) → lookup dec k ((k, v) ∷ l) ≡ some v
  unfolding lookup
  lookup-cons_self k v l = if_pos (dec k k) refl (some v) (lookup dec k l)

  pub lookup-cons_ne :
      (k j : K) (v : V) (l : List (K × V)) → j ≢ k → lookup dec j ((k, v) ∷ l) ≡ lookup dec j l
  unfolding lookup
  lookup-cons_ne k j v l h = if_neg (dec j k) h (some v) (lookup dec j l)

  pub lookup-remove_ne :
      (k j : K) (l : List (K × V)) → j ≢ k → lookup dec j (remove k l) ≡ lookup dec j l
  unfolding lookup remove
  lookup-remove_ne k j [] h = refl
  lookup-remove_ne k j ((i, v) ∷ l) h = ground (arith, lookup-remove_ne k j l)

  pub lookup-remove_self : (k : K) (l : List (K × V)) → IsMap l → lookup dec k (remove k l) ≡ none
  unfolding lookup remove
  lookup-remove_self k [] h = refl
  lookup-remove_self k ((i, v) ∷ l) h = ground (arith, lookup-remove_self k l h.1)

  pub lookup-remove :
      (k j : K) (l : List (K × V))
      → IsMap l
      → lookup dec j (remove k l) ≡ ite (dec j k) none (lookup dec j l)
  lookup-remove k j l h = ground (arith, lookup-remove_self k l h, lookup-remove_ne k j l)

  pub remove_absent : (k : K) (l : List (K × V)) → lookup dec k l ≡ none → remove k l ≡ l
  unfolding lookup remove
  remove_absent k [] h = refl
  remove_absent k ((i, v) ∷ l) h = ground (arith, remove_absent k l)

  pub lookup-remove-none :
      (k j : K) (l : List (K × V)) → lookup dec j l ≡ none → lookup dec j (remove k l) ≡ none
  unfolding lookup remove
  lookup-remove-none k j [] h = refl
  lookup-remove-none k j ((i, v) ∷ l) h = ground (arith, lookup-remove-none k j l)

  pub remove-IsMap : (k : K) (l : List (K × V)) → IsMap l → IsMap (remove k l)
  unfolding remove
  remove-IsMap k [] h = tt
  remove-IsMap k ((i, v) ∷ l) h = ground (arith, remove-IsMap k l h.1, lookup-remove-none k i l h.0)

  pub total-remove :
      (f : V → ℕ) (k : K) (l : List (K × V)) (v : V)
      → lookup dec k l ≡ some v
      → total f (remove k l) + f v ≡ total f l
  unfolding lookup remove
  total-remove f k [] v h = cc
  total-remove f k ((i, w) ∷ l) v h = ground (arith, total-remove f k l v)

  pub All-remove {ι} :
      (P : K × V → Type ι) (k : K) (l : List (K × V)) → All P l → All P (remove k l)
  unfolding remove
  All-remove P k [] h = tt
  All-remove P k ((i, v) ∷ l) h = ground (arith, All-remove P k l h.1)

  pub lookup-All {ι} :
      (P : K × V → Type ι) (k : K) (l : List (K × V)) {v : V}
      → All P l
      → lookup dec k l ≡ some v
      → P (k, v)
  unfolding lookup
  lookup-All P k [] h e = cc
  lookup-All P k ((i, w) ∷ l) {v} h e = elim (dec k i) [
    | yes p ↦ let q : w ≡ v = ground arith in subst P (cc) h.0
    | no p ↦ lookup-All P k l h.1 (ground arith)
  ]
