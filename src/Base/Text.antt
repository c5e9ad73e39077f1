-- ===== src/Base/Text.antt =====
-- Searching and cutting byte strings, as `std::string::find`, `rfind` and `std::getline` serve the
-- parsers of the server.
use lethe.Base.Tests.{◌==◌, if◌then◌else◌}
use Prim.Native.Char.{code}
use Prim.Native.String.{String}
use Prim.Native.Nat.{ℕ}
use mathlib.Core.Path.{◌≡◌, refl, ap, ◌∙◌}
use mathlib.Core.Logic.{◌≢◌}
use mathlib.Core.Bool.{Bool, true, false}
use mathlib.Core.Option.{Option, none, some}
use mathlib.Core.List.{List, [], ◌∷◌, ◌++◌}
use native.Mathlib.Omega.{arith}
use lethe.Base.Lists.{All}

-- The bytes of an ASCII text.
abbrev pub codes : String → List ℕ
codes String.[] = []
codes (String.◌∷◌ c s) = code c ∷ codes s

abbrev pub put_before : ℕ → Option (List ℕ × List ℕ) → Option (List ℕ × List ℕ)
put_before x none = none
put_before x (some (before, after)) = some (x ∷ before, after)

-- What stands before and after the first `c`.
unfoldable pub cut_first : ℕ → List ℕ → Option (List ℕ × List ℕ)
cut_first c [] = none
cut_first c (x ∷ xs) =
    let rest = cut_first c xs in if x == c then some ([], xs) else put_before x rest

-- What stands before and after the last `c`.
unfoldable pub cut_last : ℕ → List ℕ → Option (List ℕ × List ℕ)
cut_last c [] = none
cut_last c (x ∷ xs) = elim (cut_last c xs) [
  | some (before, after) ↦ some (x ∷ before, after)
  | none ↦ if x == c then some ([], xs) else none
]

abbrev pub grow_first : ℕ → List (List ℕ) → List (List ℕ)
grow_first x [] = (x ∷ []) ∷ []
grow_first x (f ∷ fs) = (x ∷ f) ∷ fs

-- The pieces between the separators `c`.
unfoldable pub pieces : ℕ → List ℕ → List (List ℕ)
pieces c [] = [] ∷ []
pieces c (x ∷ xs) = let rest = pieces c xs in if x == c then [] ∷ rest else grow_first x rest

abbrev pub Lacks : ℕ → List ℕ → Type 0
Lacks c xs = All (λ x. x ≢ c) xs

pub cut_first-append :
    (c : ℕ) (xs ys : List ℕ) → Lacks c xs → cut_first c (xs ++ c ∷ ys) ≡ some (xs, ys)
unfolding cut_first
cut_first-append c [] ys h = ground arith
cut_first-append c (x ∷ xs) ys h = ground (arith, h.0, cut_first-append c xs ys h.1)

pub pieces-last : (c : ℕ) (xs : List ℕ) → Lacks c xs → pieces c xs ≡ xs ∷ []
unfolding pieces
pieces-last c [] h = refl
pieces-last c (x ∷ xs) h = ground (arith, h.0, pieces-last c xs h.1)

pub pieces-append :
    (c : ℕ) (xs ys : List ℕ) → Lacks c xs → pieces c (xs ++ c ∷ ys) ≡ xs ∷ pieces c ys
unfolding pieces
pieces-append c [] ys h = ground arith
pieces-append c (x ∷ xs) ys h = ground (arith, h.0, pieces-append c xs ys h.1)

-- Texts with a separator between them.
abbrev pub joined : ℕ → List (List ℕ) → List ℕ
joined c [] = []
joined c (x ∷ []) = x
joined c (x ∷ y ∷ xs) = x ++ c ∷ joined c (y ∷ xs)

pub pieces-joined :
    (c : ℕ) (x : List ℕ) (xs : List (List ℕ))
    → All (Lacks c) (x ∷ xs)
    → pieces c (joined c (x ∷ xs)) ≡ x ∷ xs
pieces-joined c x [] h = pieces-last c x h.0
pieces-joined c x (y ∷ xs) h =
    pieces-append c x (joined c (y ∷ xs)) h.0 ∙ ap (λ ps. x ∷ ps) (pieces-joined c y xs h.1)

cut_last-Lacks : (c : ℕ) (xs : List ℕ) → Lacks c xs → cut_last c xs ≡ none
unfolding cut_last
cut_last-Lacks c [] h = refl
cut_last-Lacks c (x ∷ xs) h = ground (arith, h.0, cut_last-Lacks c xs h.1)

pub cut_last-append :
    (c : ℕ) (xs ys : List ℕ) → Lacks c ys → cut_last c (xs ++ c ∷ ys) ≡ some (xs, ys)
unfolding cut_last
cut_last-append c [] ys h = ground (arith, cut_last-Lacks c ys h)
cut_last-append c (x ∷ xs) ys h = rw (cut_last-append c xs ys h) refl

-- Whether a byte is in a text, to be computed for constants.
abbrev pub lacks : ℕ → List ℕ → Bool
lacks c [] = true
lacks c (x ∷ xs) = if x == c then false else lacks c xs

pub lacks-Lacks : (c : ℕ) (xs : List ℕ) → lacks c xs ≡ true → Lacks c xs
lacks-Lacks c [] h = tt
lacks-Lacks c (x ∷ xs) h = (ground (arith, h), lacks-Lacks c xs (ground (arith, h)))
