-- ===== src/Replicator/Fetched.antt =====
-- What `FetchFromAny` finds.
use lethe.Base.{
  ℕ, zero, suc, ◌<◌, Bool, true, false, Option, none, some, List, [], ◌∷◌, ◌≡◌, refl, ap, subst,
  inl, inr, arith, All, Has, here, there, get_elem?, Bool-cases, if◌then◌else◌,
}
use lethe.Types.{Bytes, BlockId, KvBlock}
use lethe.Replicator.Fetch.{
  Reply, threw, replied, answer, Future, fan_out, Round, found, passed, with_first, take_result,
  poll_futures, all_done, next_round, poll_rounds, fetch_from_any,
}
use lethe.Replicator.Polled.{if_both, holder, Returns, poll_rounds-Returns}

-- Whatever a round returns is the answer of a future.
abbrev From : (KvBlock → Type 0) → List Future → Type 0
From P fs = All (λ f. (b : KvBlock) → f.result ≡ some b → P b) fs

abbrev Sound : (KvBlock → Type 0) → Round → Type 0
Sound P (found b) = P b
Sound P (passed any_ready fs) = From P fs

Sound-first :
    (P : KvBlock → Type 0) (f : Future) (r : Round)
    → ((b : KvBlock) → f.result ≡ some b → P b)
    → Sound P r
    → Sound P (with_first f r)
Sound-first P f (found c) p h = h
Sound-first P f (passed any_ready fs) p h = (p, h)

Sound-take :
    (P : KvBlock → Type 0) (o : Option KvBlock) (r : Round)
    → ((b : KvBlock) → o ≡ some b → P b)
    → Sound P r
    → Sound P (take_result o r)
Sound-take P (some b) r p h = p b refl
Sound-take P none r p h = Sound-first P (record { valid = false; result = none }) r p h

poll_futures-Sound :
    (P : KvBlock → Type 0) (ready : ℕ → Bool) (i : ℕ) (any_ready : Bool) (fs : List Future)
    → From P fs
    → Sound P (poll_futures ready i any_ready fs)
unfolding poll_futures
poll_futures-Sound P ready i any_ready [] h = tt
poll_futures-Sound P ready i any_ready (f ∷ fs) h =
    let quiet =
      Sound-first P f (poll_futures ready (suc i) any_ready fs) h.0
        (poll_futures-Sound P ready (suc i) any_ready fs h.1) in
    if_both (Sound P) f.valid
      (if ready i
        then take_result f.result (poll_futures ready (suc i) true fs)
        else with_first f (poll_futures ready (suc i) any_ready fs))
      (with_first f (poll_futures ready (suc i) any_ready fs))
      (if_both (Sound P) (ready i) (take_result f.result (poll_futures ready (suc i) true fs))
        (with_first f (poll_futures ready (suc i) any_ready fs))
        (Sound-take P f.result (poll_futures ready (suc i) true fs) h.0
          (poll_futures-Sound P ready (suc i) true fs h.1))
        quiet)
      quiet

next_round-sound :
    (P : KvBlock → Type 0) (round : Round) (continue : List Future → Option KvBlock) (b : KvBlock)
    → Sound P round
    → ((rest : List Future) → From P rest → continue rest ≡ some b → P b)
    → next_round round continue ≡ some b
    → P b
unfolding next_round
next_round-sound P (found c) continue b h k e = subst P (cc) h
next_round-sound P (passed true rest) continue b h k e = k rest h e
next_round-sound P (passed false rest) continue b h k e = elim (Bool-cases (all_done rest)) [
  | inl done ↦ absurd (ground arith)
  | inr more ↦ k rest h (ground arith)
]

poll_rounds-sound :
    (P : KvBlock → Type 0) (ready : ℕ → ℕ → Bool) (rounds r : ℕ) (fs : List Future) (b : KvBlock)
    → From P fs
    → poll_rounds ready rounds r fs ≡ some b
    → P b
unfolding poll_rounds
poll_rounds-sound P ready zero r fs b h e = absurd (ground arith)
poll_rounds-sound P ready (suc rounds) r fs b h e =
    next_round-sound P (poll_futures (ready r) 0 false fs) (poll_rounds ready rounds (suc r)) b
      (poll_futures-Sound P (ready r) 0 false fs h)
      (λ rest kept. poll_rounds-sound P ready rounds (suc r) rest b kept) e

-- A peer of the list that gave the block.
pub record Giver (fetch : Bytes → BlockId → Reply) (id : BlockId) (ps : List Bytes) (b : KvBlock)
    : Type 0 where
  pub peer : Bytes
  pub listed : Has peer ps
  pub gave : fetch peer id ≡ replied (some b)

answer-some : (r : Reply) (b : KvBlock) → answer r ≡ some b → r ≡ replied (some b)
answer-some threw b h = absurd (ground arith)
answer-some (replied got) b h = ap replied h

From-mono :
    (P Q : KvBlock → Type 0) (fs : List Future)
    → ((b : KvBlock) → P b → Q b)
    → From P fs
    → From Q fs
From-mono P Q [] k h = tt
From-mono P Q (f ∷ fs) k h = ((λ b e. k b (h.0 b e)), From-mono P Q fs k h.1)

fan_out-From :
    (fetch : Bytes → BlockId → Reply) (id : BlockId) (ps : List Bytes)
    → From (Giver fetch id ps) (fan_out fetch id ps)
unfolding fan_out
fan_out-From fetch id [] = tt
fan_out-From fetch id (p ∷ ps) = (
  (λ b e. record { peer = p; listed = here ps; gave = answer-some (fetch p id) b e }),
  From-mono (Giver fetch id ps) (Giver fetch id (p ∷ ps)) (fan_out fetch id ps)
      (λ b g. record { peer = g.peer; listed = there p g.listed; gave = g.gave })
      (fan_out-From fetch id ps),
)

fan_out-get_elem? :
    (fetch : Bytes → BlockId → Reply) (id : BlockId) (ps : List Bytes) (k : ℕ) (p : Bytes)
    (b : KvBlock)
    → get_elem? ps k ≡ some p
    → fetch p id ≡ replied (some b)
    → get_elem? (fan_out fetch id ps) k ≡ some (holder b)
unfolding fan_out
fan_out-get_elem? fetch id [] k p b h e = absurd (ground arith)
fan_out-get_elem? fetch id (q ∷ ps) zero p b h e = let same : q ≡ p = cc in rw (same, e) refl
fan_out-get_elem? fetch id (q ∷ ps) (suc k) p b h e = fan_out-get_elem? fetch id ps k p b h e

returned : (o : Option KvBlock) → Returns o → (b : KvBlock) × (o ≡ some b)
returned none h = absurd h
returned (some b) h = (b, refl)

-- If one of the peers gives `FetchFromAny` the block and its future is found ready in a round that
-- begins before the deadline, whatever the other peers do, it returns a block, and one that a peer
-- of the list gave.
pub fetch_from_any_lem :
    (fetch : Bytes → BlockId → Reply) (ready : ℕ → ℕ → Bool) (rounds m : ℕ) (id : BlockId)
    (ps : List Bytes) (k : ℕ) (p : Bytes) (b : KvBlock)
    → get_elem? ps k ≡ some p
    → fetch p id ≡ replied (some b)
    → ready m k ≡ true
    → m < rounds
    → (c : KvBlock) × (fetch_from_any (some fetch) ready rounds id ps ≡ some c)
      × Giver fetch id ps c
unfolding fetch_from_any
fetch_from_any_lem fetch ready rounds m id [] k p b h e now early = absurd (ground arith)
fetch_from_any_lem fetch ready rounds m id (q ∷ ps) k p b h e now early =
    let fs = fan_out fetch id (q ∷ ps) in
    let got = returned (poll_rounds ready rounds 0 fs) (
      poll_rounds-Returns ready rounds 0 m fs k b (fan_out-get_elem? fetch id (q ∷ ps) k p b h e)
        (omega arith) (omega arith) now) in
    (
      got.0,
      got.1,
      poll_rounds-sound (Giver fetch id (q ∷ ps)) ready rounds 0 fs got.0
          (fan_out-From fetch id (q ∷ ps)) got.1,
    )
