-- ===== src/Router/Pick.antt =====
-- The clockwise walk of `Route`: the peers that it picks are distinct, no more than asked for,
-- and all of them if the ring has too few.
use lethe.Base.{
  ℕ, zero, suc, ◌+◌, ◌%◌, ◌≤◌, ◌<◌, ◌≡◌, refl, ◌∙◌, subst, true, false, List, [], ◌∷◌, ◌++◌, length,
  ltb, arith, Bool-cases, ltb→lt, ltb→le, inl, inr, ◌⊎◌, if◌then◌else◌, length-append, ite, if_pos,
  ℕ_discrete,
}
use lethe.Router.{Router, peer_at, contains, pick}
use lethe.Types.{Bytes, bytes_dec}

-- No peer stands in the list twice.
abbrev pub IsDistinct : List Bytes → Type 0
IsDistinct [] = Unit
IsDistinct (p ∷ l) = (contains p l ≡ false) × IsDistinct l

contains-snoc :
    (p q : Bytes) (l : List Bytes)
    → contains q (l ++ (p ∷ [])) ≡ ite (bytes_dec q p) true (contains q l)
unfolding contains
contains-snoc p q [] = refl
contains-snoc p q (x ∷ l) = ground (arith, contains-snoc p q l)

contains_self : (p : Bytes) (l : List Bytes) → contains p (p ∷ l) ≡ true
unfolding contains
contains_self p l = if_pos (bytes_dec p p) refl true (contains p l)

IsDistinct-snoc :
    (p : Bytes) (l : List Bytes) → contains p l ≡ false → IsDistinct l → IsDistinct (l ++ (p ∷ []))
unfolding contains
IsDistinct-snoc p [] h d = (refl, tt)
IsDistinct-snoc p (x ∷ l) h d =
    (ground (arith, contains-snoc p x l), IsDistinct-snoc p l (ground arith) d.1)

-- One step of the walk on the list of picked peers.
abbrev pub add_peer : Bytes → List Bytes → List Bytes
add_peer p picked = if contains p picked then picked else picked ++ (p ∷ [])

add_peer-IsDistinct : (p : Bytes) (l : List Bytes) → IsDistinct l → IsDistinct (add_peer p l)
add_peer-IsDistinct p l d = elim (Bool-cases (contains p l)) [
  | inl old ↦ rw old d
  | inr new ↦ rw new (IsDistinct-snoc p l new d)
]

length-add_peer-le : (p : Bytes) (l : List Bytes) → length (add_peer p l) ≤ length l + 1
length-add_peer-le p l = ground (arith, length-append l (p ∷ []))

contains-add_peer_self : (p : Bytes) (l : List Bytes) → contains p (add_peer p l) ≡ true
contains-add_peer_self p l = elim (Bool-cases (contains p l)) [
  | inl old ↦ rw old old
  | inr new ↦ rw new (contains-snoc p p l ∙ if_pos (bytes_dec p p) refl true (contains p l))
]

contains-add_peer :
    (p q : Bytes) (l : List Bytes) → contains q l ≡ true → contains q (add_peer p l) ≡ true
contains-add_peer p q l h = ground (arith, contains-snoc p q l)

module _ (r : Router) (want idx : ℕ) where
  pub pick-IsDistinct :
      (n step : ℕ) (picked : List Bytes)
      → IsDistinct picked
      → IsDistinct (pick r want idx n step picked)
  unfolding pick
  pick-IsDistinct zero step picked d = d
  pick-IsDistinct (suc n) step picked d =
      let peer = peer_at r ((idx + step) % length r.ring) in
      elim (Bool-cases (ltb (length picked) want)) [
        | inl more ↦
            rw (more, pick)
              (pick-IsDistinct n (suc step) (add_peer peer picked)
                (add_peer-IsDistinct peer picked d))
        | inr enough ↦ rw (enough, pick) d
      ]

  pub length-pick-le :
      (n step : ℕ) (picked : List Bytes)
      → length picked ≤ want
      → length (pick r want idx n step picked) ≤ want
  unfolding pick
  length-pick-le zero step picked d = d
  length-pick-le (suc n) step picked d =
      let peer = peer_at r ((idx + step) % length r.ring) in
      elim (Bool-cases (ltb (length picked) want)) [
        | inl more ↦
            rw (more, pick)
              (length-pick-le n (suc step) (add_peer peer picked)
                (omega (arith, length-add_peer-le peer picked, ltb→lt _ _ more)))
        | inr enough ↦ rw (enough, pick) d
      ]

  contains-pick :
      (n step : ℕ) (picked : List Bytes) (q : Bytes)
      → contains q picked ≡ true
      → contains q (pick r want idx n step picked) ≡ true
  unfolding pick
  contains-pick zero step picked q d = d
  contains-pick (suc n) step picked q d =
      let peer = peer_at r ((idx + step) % length r.ring) in
      elim (Bool-cases (ltb (length picked) want)) [
        | inl more ↦
            rw (more, pick)
              (contains-pick n (suc step) (add_peer peer picked) q
                (contains-add_peer peer q picked d))
        | inr enough ↦ rw (enough, pick) d
      ]

  -- The walk picks as many peers as it wants, or every peer that it passes.
  pub pick_covers :
      (n step : ℕ) (picked : List Bytes)
      → (want ≤ length (pick r want idx n step picked))
        ⊎ ((i : ℕ)
            → step ≤ i
            → i < step + n
            → contains (peer_at r ((idx + i) % length r.ring)) (pick r want idx n step picked)
              ≡ true)
  unfolding pick
  pick_covers zero step picked = inr (λ i h g. absurd (omega arith))
  pick_covers (suc n) step picked =
      let peer = peer_at r ((idx + step) % length r.ring) in
      elim (Bool-cases (ltb (length picked) want)) [
        | inr enough ↦ rw (enough, pick) (inl (ltb→le _ _ enough))
        | inl more ↦
            rw (more, pick)
              (elim (pick_covers n (suc step) (add_peer peer picked)) [
                | inl full ↦ inl full
                | inr rest ↦ inr (λ i h g. covered i h g rest)
              ])
      ]
    where
      next : List Bytes
      next = add_peer (peer_at r ((idx + step) % length r.ring)) picked

      covered :
          (i : ℕ)
          → step ≤ i
          → i < step + suc n
          → ((j : ℕ)
              → suc step ≤ j
              → j < suc step + n
              → contains (peer_at r ((idx + j) % length r.ring)) (pick r want idx n (suc step) next)
                ≡ true)
          → contains (peer_at r ((idx + i) % length r.ring)) (pick r want idx n (suc step) next)
            ≡ true
      covered i h g rest = elim (ℕ_discrete step i) [
        | no p ↦ rest i (omega arith) (omega arith)
        | yes p ↦
            subst
              (λ (k : ℕ).
                contains (peer_at r ((idx + k) % length r.ring)) (pick r want idx n (suc step) next)
                ≡ true)
              p
              (contains-pick n (suc step) next (peer_at r ((idx + step) % length r.ring))
                (contains-add_peer_self (peer_at r ((idx + step) % length r.ring)) picked))
      ]

  -- The first pick stays first.
  pub pick_head :
      (n step : ℕ) (p : Bytes) (l : List Bytes)
      → (rest : List Bytes) × (pick r want idx n step (p ∷ l) ≡ p ∷ rest)
  unfolding pick
  pick_head zero step p l = (l, refl)
  pick_head (suc n) step p l =
      let peer = peer_at r ((idx + step) % length r.ring) in
      elim (Bool-cases (ltb (length (p ∷ l)) want)) [
        | inr enough ↦ (l, rw (enough, pick))
        | inl more ↦ elim (Bool-cases (contains peer (p ∷ l))) [
          | inl old ↦ rw (more, old, pick) (pick_head n (suc step) p l)
          | inr new ↦ rw (more, new, pick) (pick_head n (suc step) p (l ++ (peer ∷ [])))
        ]
      ]
