-- ===== src/Replicator/Polled.antt =====
-- The polling of `FetchFromAny` returns where a future that gives a block is ready.
use lethe.Base.{
  ℕ, zero, suc, ◌+◌, ◌≤◌, ◌<◌, Bool, true, false, Option, none, some, List, [], ◌∷◌, ◌≡◌, refl, sym,
  subst, ◌⊎◌, inl, inr, arith, get_elem?, ℕ_discrete, if◌then◌else◌,
}
use lethe.Types.{KvBlock}
use lethe.Replicator.Fetch.{
  Future, Round, found, passed, with_first, take_result, poll_futures, all_done, next_round,
  poll_rounds,
}

-- A future that has not been read and gives the block.
abbrev pub holder : KvBlock → Future
holder b = record { valid = true; result = some b }

abbrev IsFound : Round → Type 0
IsFound (found b) = Unit
IsFound (passed any_ready fs) = ⊥

abbrev Keeps : ℕ → KvBlock → Round → Type 0
Keeps k b (found c) = Unit
Keeps k b (passed any_ready fs) = get_elem? fs k ≡ some (holder b)

Keeps-first :
    (f : Future) (k : ℕ) (b : KvBlock) (r : Round) → Keeps k b r → Keeps (suc k) b (with_first f r)
Keeps-first f k b (found c) h = tt
Keeps-first f k b (passed any_ready fs) h = h

Keeps-take :
    (o : Option KvBlock) (k : ℕ) (b : KvBlock) (r : Round)
    → Keeps k b r
    → Keeps (suc k) b (take_result o r)
Keeps-take none k b (found c) h = tt
Keeps-take none k b (passed any_ready fs) h = h
Keeps-take (some c) k b r h = tt

IsFound-first : (f : Future) (r : Round) → IsFound r → IsFound (with_first f r)
IsFound-first f (found c) h = tt
IsFound-first f (passed any_ready fs) h = h

IsFound-take : (o : Option KvBlock) (r : Round) → IsFound r → IsFound (take_result o r)
IsFound-take none (found c) h = tt
IsFound-take none (passed any_ready fs) h = h
IsFound-take (some c) r h = tt

holder-parts : (b : KvBlock) (f : Future) → some f ≡ some (holder b) → f ≡ holder b
holder-parts b f e = cc

pub if_both {ℓ κ} :
    {A : Type ℓ} (P : A → Type κ) (t : Bool) (x y : A) → P x → P y → P (if t then x else y)
if_both P true x y p q = p
if_both P false x y p q = q

Keeps-held : (b : KvBlock) (any_ready : Bool) (r : Round) → Keeps 0 b (with_first (holder b) r)
Keeps-held b any_ready (found c) = tt
Keeps-held b any_ready (passed a fs) = refl

-- A round does not lose a future that gives a block: it returns, or the future is as before.
poll_futures-Keeps :
    (ready : ℕ → Bool) (i : ℕ) (any_ready : Bool) (fs : List Future) (k : ℕ) (b : KvBlock)
    → get_elem? fs k ≡ some (holder b)
    → Keeps k b (poll_futures ready i any_ready fs)
unfolding poll_futures
poll_futures-Keeps ready i any_ready [] k b h = absurd (ground arith)
poll_futures-Keeps ready i any_ready (f ∷ fs) zero b h = rw (holder-parts b f h) (
    if_both (Keeps 0 b) (ready i) (found b)
      (with_first (holder b) (poll_futures ready (suc i) any_ready fs)) tt
      (Keeps-held b any_ready (poll_futures ready (suc i) any_ready fs)))
poll_futures-Keeps ready i any_ready (f ∷ fs) (suc k) b h =
    let quiet =
      Keeps-first f k b (poll_futures ready (suc i) any_ready fs)
        (poll_futures-Keeps ready (suc i) any_ready fs k b h) in
    if_both (Keeps (suc k) b) f.valid
      (if ready i
        then take_result f.result (poll_futures ready (suc i) true fs)
        else with_first f (poll_futures ready (suc i) any_ready fs))
      (with_first f (poll_futures ready (suc i) any_ready fs))
      (if_both (Keeps (suc k) b) (ready i)
        (take_result f.result (poll_futures ready (suc i) true fs))
        (with_first f (poll_futures ready (suc i) any_ready fs))
        (Keeps-take f.result k b (poll_futures ready (suc i) true fs)
          (poll_futures-Keeps ready (suc i) true fs k b h))
        quiet)
      quiet

poll_futures-IsFound :
    (ready : ℕ → Bool) (i : ℕ) (any_ready : Bool) (fs : List Future) (k : ℕ) (b : KvBlock)
    → get_elem? fs k ≡ some (holder b)
    → ready (i + k) ≡ true
    → IsFound (poll_futures ready i any_ready fs)
unfolding poll_futures
poll_futures-IsFound ready i any_ready [] k b h e = absurd (ground arith)
poll_futures-IsFound ready i any_ready (f ∷ fs) zero b h e =
    let now : ready i ≡ true = subst (λ j. ready j ≡ true) (omega arith) e in
    rw (holder-parts b f h, now) tt
poll_futures-IsFound ready i any_ready (f ∷ fs) (suc k) b h e =
    let later : ready (suc i + k) ≡ true = subst (λ j. ready j ≡ true) (omega arith) e in
    let quiet =
      IsFound-first f (poll_futures ready (suc i) any_ready fs)
        (poll_futures-IsFound ready (suc i) any_ready fs k b h later) in
    if_both IsFound f.valid
      (if ready i
        then take_result f.result (poll_futures ready (suc i) true fs)
        else with_first f (poll_futures ready (suc i) any_ready fs))
      (with_first f (poll_futures ready (suc i) any_ready fs))
      (if_both IsFound (ready i) (take_result f.result (poll_futures ready (suc i) true fs))
        (with_first f (poll_futures ready (suc i) any_ready fs))
        (IsFound-take f.result (poll_futures ready (suc i) true fs)
          (poll_futures-IsFound ready (suc i) true fs k b h later))
        quiet)
      quiet

all_done-holder :
    (fs : List Future) (k : ℕ) (b : KvBlock)
    → get_elem? fs k ≡ some (holder b)
    → all_done fs ≡ false
unfolding all_done
all_done-holder [] k b h = absurd (ground arith)
all_done-holder (f ∷ fs) zero b h = rw (holder-parts b f h) refl
all_done-holder (f ∷ fs) (suc k) b h = ground (arith, all_done-holder fs k b h)

abbrev pub Returns : Option KvBlock → Type 0
Returns none = ⊥
Returns (some b) = Unit

next_round-Returns :
    (round : Round) (k : ℕ) (b : KvBlock) (continue : List Future → Option KvBlock)
    → Keeps k b round
    → IsFound round
      ⊎ ((rest : List Future) → get_elem? rest k ≡ some (holder b) → Returns (continue rest))
    → Returns (next_round round continue)
unfolding next_round
next_round-Returns (found c) k b continue kept h = tt
next_round-Returns (passed true rest) k b continue kept (inr h) = h rest kept
next_round-Returns (passed false rest) k b continue kept (inr h) =
    rw (all_done-holder rest k b kept) (h rest kept)
next_round-Returns (passed true rest) k b continue kept (inl h) = absurd h
next_round-Returns (passed false rest) k b continue kept (inl h) = absurd h

-- The rounds end with a block if a future that gives one is ready in one of them.
pub poll_rounds-Returns :
    (ready : ℕ → ℕ → Bool) (rounds r m : ℕ) (fs : List Future) (k : ℕ) (b : KvBlock)
    → get_elem? fs k ≡ some (holder b)
    → r ≤ m
    → m < r + rounds
    → ready m k ≡ true
    → Returns (poll_rounds ready rounds r fs)
unfolding poll_rounds
poll_rounds-Returns ready zero r m fs k b h lo hi e = absurd (omega arith)
poll_rounds-Returns ready (suc rounds) r m fs k b h lo hi e =
    next_round-Returns (poll_futures (ready r) 0 false fs) k b (poll_rounds ready rounds (suc r))
      (poll_futures-Keeps (ready r) 0 false fs k b h)
      (elim (ℕ_discrete r m) [
        | yes now ↦ inl (
            poll_futures-IsFound (ready r) 0 false fs k b h (
              subst (λ i. ready r i ≡ true) (omega arith)
                (subst (λ j. ready j k ≡ true) (sym now) e)))
        | no early ↦ inr (λ rest kept.
            poll_rounds-Returns ready rounds (suc r) m rest k b kept (omega arith) (omega arith) e)
      ])
