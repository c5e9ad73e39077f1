-- ===== src/Replicator/Members.antt =====
-- Who stands in a route, and which of its members `ReplicateOut` and `DrainReReplication` push to.
use lethe.Base.{
  ◌≡◌, ◌≢◌, refl, sym, subst, ◌∙◌, Bool, true, false, ◌||◌, ◌⊎◌, inl, inr, List, [], ◌∷◌, Has, here,
  there, ite, if◌then◌else◌, Bool-cases,
}
use lethe.Types.{Bytes, bytes_dec}
use lethe.Router.{RouteResult, contains, is_nil}
use lethe.Replicator.{other_peers, drain_targets, in_route}

-- A member of the route other than this node: its primary, if it has one, or a replica.
abbrev pub IsTarget : Bytes → RouteResult → Bytes → Type 0
IsTarget local res p = (p ≢ local) × (((p ≡ res.primary) × (p ≢ [])) ⊎ Has p res.replicas)

-- This node is the primary or a replica of the route.
abbrev pub IsMember : Bytes → RouteResult → Type 0
IsMember local res = (local ≡ res.primary) ⊎ Has local res.replicas

ite-cases :
    {C X : Type 0} (P : C → Type 0) (d : Dec X) (a b : C)
    → (X → P a)
    → ((¬ X) → P b)
    → P (ite d a b)
ite-cases P (yes x) a b h k = h x
ite-cases P (no x) a b h k = k x

pub Has-other_peers :
    (local p : Bytes) (ps : List Bytes) → Has p ps → p ≢ local → Has p (other_peers local ps)
unfolding other_peers
Has-other_peers local p [] h ne = elim h [ ]
Has-other_peers local p (q ∷ ps) (here xs) ne =
    ite-cases (Has p) (bytes_dec p local) (other_peers local ps) (p ∷ other_peers local ps)
      (λ same. absurd (ne same)) (λ other. here (other_peers local ps))
Has-other_peers local p (q ∷ ps) (there y h) ne =
    let rest = Has-other_peers local p ps h ne in
    ite-cases (Has p) (bytes_dec q local) (other_peers local ps) (q ∷ other_peers local ps)
      (λ same. rest) (λ other. there q rest)

head_or_rest :
    (local p q : Bytes) (ps rest : List Bytes)
    → q ≢ local
    → (Has p rest → Has p ps × (p ≢ local))
    → Has p (q ∷ rest)
    → Has p (q ∷ ps) × (p ≢ local)
head_or_rest local p q ps rest other ih (here xs) = (here ps, other)
head_or_rest local p q ps rest other ih (there y h) = let r = ih h in (there q r.0, r.1)

pub other_peers-Has :
    (local p : Bytes) (ps : List Bytes) → Has p (other_peers local ps) → Has p ps × (p ≢ local)
unfolding other_peers
other_peers-Has local p [] h = elim h [ ]
other_peers-Has local p (q ∷ ps) h =
    ite-cases (λ l. Has p l → Has p (q ∷ ps) × (p ≢ local)) (bytes_dec q local)
      (other_peers local ps) (q ∷ other_peers local ps)
      (λ same k. let r = other_peers-Has local p ps k in (there q r.0, r.1))
      (λ other. head_or_rest local p q ps (other_peers local ps) other (other_peers-Has local p ps))
      h

contains-Has : (p : Bytes) (ps : List Bytes) → contains p ps ≡ true → Has p ps
unfolding contains
contains-Has p [] e = absurd (cc)
contains-Has p (q ∷ ps) e =
    ite-cases (λ b. b ≡ true → Has p (q ∷ ps)) (bytes_dec p q) true (contains p ps)
      (λ same k. subst (λ x. Has p (x ∷ ps)) same (here ps))
      (λ other k. there q (contains-Has p ps k)) e

Has-contains : (p : Bytes) (ps : List Bytes) → Has p ps → contains p ps ≡ true
unfolding contains
Has-contains p [] h = elim h [ ]
Has-contains p (q ∷ ps) (here xs) =
    ite-cases (λ b. b ≡ true) (bytes_dec p p) true (contains p ps) (λ same. refl)
      (λ other. absurd (other refl))
Has-contains p (q ∷ ps) (there y h) =
    ite-cases (λ b. b ≡ true) (bytes_dec p q) true (contains p ps) (λ same. refl)
      (λ other. Has-contains p ps h)

pub in_route-IsMember :
    (local : Bytes) (res : RouteResult) → in_route local res ≡ true → IsMember local res
unfolding in_route
in_route-IsMember local res e =
    ite-cases (λ b. b ≡ true → IsMember local res) (bytes_dec res.primary local) true
      (contains local res.replicas) (λ same k. inl (sym same))
      (λ other k. inr (contains-Has local res.replicas k)) e

pub IsMember-in_route :
    (local : Bytes) (res : RouteResult) → IsMember local res → in_route local res ≡ true
unfolding in_route
IsMember-in_route local res m =
    ite-cases (λ b. b ≡ true) (bytes_dec res.primary local) true (contains local res.replicas)
      (λ same. refl)
      (λ other. elim m [
        | inl same ↦ absurd (other (sym same))
        | inr h ↦ Has-contains local res.replicas h
      ])

nil-eq : (p : Bytes) → is_nil p ≡ true → p ≡ []
nil-eq [] e = refl
nil-eq (x ∷ p) e = absurd (cc)

not_nil : (p : Bytes) → is_nil p ≡ false → p ≢ []
not_nil [] e h = cc
not_nil (x ∷ p) e h = cc

-- The primary is a target where it is there and another node.
primary-cases :
    (P : List Bytes → Type 0) (local : Bytes) (res : RouteResult)
    → ((res.primary ≡ []) ⊎ (res.primary ≡ local) → P (other_peers local res.replicas))
    → (res.primary ≢ [] → res.primary ≢ local → P (res.primary ∷ other_peers local res.replicas))
    → P (drain_targets local res)
unfolding drain_targets
primary-cases P local res out inside = elim (Bool-cases (is_nil res.primary)) [
  | inl nobody ↦ rw nobody (out (inl (nil-eq res.primary nobody)))
  | inr somebody ↦ rw somebody (
      ite-cases
        (λ (b : Bool). P (
          if false || b
          then other_peers local res.replicas
          else res.primary ∷ other_peers local res.replicas))
        (bytes_dec res.primary local) true false (λ same. out (inr same))
        (inside (not_nil res.primary somebody)))
]

pub IsTarget-drain_targets :
    (local p : Bytes) (res : RouteResult) → IsTarget local res p → Has p (drain_targets local res)
IsTarget-drain_targets local p res (ne, inr h) =
    let rest = Has-other_peers local p res.replicas h ne in
    primary-cases (Has p) local res (λ o. rest) (λ some_name other. there res.primary rest)
IsTarget-drain_targets local p res (ne, inl (at, some_name)) =
    primary-cases (Has p) local res
      (λ o. elim o [
        | inl nobody ↦ absurd (some_name (at ∙ nobody))
        | inr same ↦ absurd (ne (at ∙ same))
      ])
      (λ some other.
        subst (λ x. Has x (res.primary ∷ other_peers local res.replicas)) (sym at)
          (here (other_peers local res.replicas)))

others-IsTarget :
    (local p : Bytes) (res : RouteResult)
    → Has p (other_peers local res.replicas)
    → IsTarget local res p
others-IsTarget local p res h = let o = other_peers-Has local p res.replicas h in (o.1, inr o.0)

primary_first :
    (local p : Bytes) (res : RouteResult)
    → res.primary ≢ []
    → res.primary ≢ local
    → Has p (res.primary ∷ other_peers local res.replicas)
    → IsTarget local res p
primary_first local p res some_name other (here xs) = (other, inl (refl, some_name))
primary_first local p res some_name other (there y h) = others-IsTarget local p res h

pub drain_targets-IsTarget :
    (local p : Bytes) (res : RouteResult) → Has p (drain_targets local res) → IsTarget local res p
drain_targets-IsTarget local p res h =
    primary-cases (λ l. Has p l → IsTarget local res p) local res (λ o. others-IsTarget local p res)
      (primary_first local p res) h
