-- ===== src/Replicator/Fetch.antt =====
-- `FetchFromAny` of cache_server/src/replication.cpp: one task for each peer, whose futures are
-- polled in order, round by round, until the deadline. What the transport's `Fetch` gives is a
-- parameter, and so is whether a future is found ready in a round. The rounds that start before the
-- deadline are the fuel: at its end the code returns no block either.
use lethe.Base.{
  ℕ, zero, suc, Bool, true, false, Option, none, some, List, [], ◌∷◌, if◌then◌else◌, ◌&&◌, not,
}
use lethe.Types.{Bytes, BlockId, KvBlock}

-- What the call of the transport in a task comes to.
pub data Reply : Type 0 where
  threw : Reply
  replied : Option KvBlock → Reply

-- The answer of a task, whose `catch` makes no block of an exception.
abbrev pub answer : Reply → Option KvBlock
answer threw = none
answer (replied got) = got

-- A `std::future`, which is valid until `get`.
pub record Future : Type 0 where
  pub valid : Bool
  pub result : Option KvBlock

unfoldable pub fan_out : (Bytes → BlockId → Reply) → BlockId → List Bytes → List Future
fan_out fetch id [] = []
fan_out fetch id (p ∷ ps) =
    record { valid = true; result = answer (fetch p id) } ∷ fan_out fetch id ps

-- How a round over the futures ends: by the return of a block, or with `any_ready`.
pub data Round : Type 0 where
  found : KvBlock → Round
  passed : Bool → List Future → Round

abbrev pub with_first : Future → Round → Round
with_first f (found b) = found b
with_first f (passed any_ready fs) = passed any_ready (f ∷ fs)

-- What `get` on a ready future leads to.
abbrev pub take_result : Option KvBlock → Round → Round
take_result (some b) rest = found b
take_result none rest = with_first (record { valid = false; result = none }) rest

-- The loop over the futures from the i-th on.
unfoldable pub poll_futures : (ℕ → Bool) → ℕ → Bool → List Future → Round
poll_futures ready i any_ready [] = passed any_ready []
poll_futures ready i any_ready (f ∷ fs) =
    if f.valid
    then (if ready i
        then take_result f.result (poll_futures ready (suc i) true fs)
        else with_first f (poll_futures ready (suc i) any_ready fs))
    else with_first f (poll_futures ready (suc i) any_ready fs)

unfoldable pub all_done : List Future → Bool
all_done [] = true
all_done (f ∷ fs) = not f.valid && all_done fs

-- What follows a round that began before the deadline.
unfoldable pub next_round : Round → (List Future → Option KvBlock) → Option KvBlock
unfolding all_done
next_round (found b) continue = some b
next_round (passed true rest) continue = continue rest
next_round (passed false rest) continue = if all_done rest then none else continue rest

-- The loop until the deadline, from the r-th round on.
unfoldable pub poll_rounds : (ℕ → ℕ → Bool) → ℕ → ℕ → List Future → Option KvBlock
unfolding next_round poll_futures
poll_rounds ready zero r fs = none
poll_rounds ready (suc rounds) r fs =
    next_round (poll_futures (ready r) 0 false fs) (poll_rounds ready rounds (suc r))

unfoldable pub fetch_from_any :
    Option (Bytes → BlockId → Reply) → (ℕ → ℕ → Bool) → ℕ → BlockId → List Bytes → Option KvBlock
unfolding fan_out poll_rounds
fetch_from_any transport ready rounds id [] = none
fetch_from_any none ready rounds id (p ∷ ps) = none
fetch_from_any (some fetch) ready rounds id (p ∷ ps) =
    poll_rounds ready rounds 0 (fan_out fetch id (p ∷ ps))
