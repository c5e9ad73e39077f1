-- ===== src/Lifecycle/Calls.antt =====
-- What any sequence of calls leaves running.
use lethe.Base.{
  ◌≡◌, ◌≢◌, refl, ℕ, Bool, true, false, some, List, [], ◌∷◌, All, if◌then◌else◌, ite, suc, arith,
  ◌==◌, ◌++◌, ap, ◌∙◌,
}
use lethe.Types.{Tier, hbm, dram, ssd, tier_dec}
use lethe.Lifecycle.{
  Threads, spawned, evictor_start, evictor_shutdown, membership_start, membership_shutdown,
  transport_shutdown, Call, start, shutdown, steps, take_step, take_steps, run_calls,
}

-- All threads of a server that is up, or none.
abbrev pub level : (Tier → ℕ) → Bool → Bool → Threads
level capacity up linked = record {
  cache_running = up;
  membership_running = up;
  heartbeat_thread = up;
  evictor_running = up;
  tier_threads = if up then spawned capacity else [];
  transport_open = linked;
}

-- The last call says whether the server is up; a shutdown of a server that is up closes the
-- transport for good.
abbrev pub is_up : List Call → Bool → Bool
is_up [] up = up
is_up (start ∷ cs) up = is_up cs true
is_up (shutdown ∷ cs) up = is_up cs false

abbrev pub is_open : List Call → Bool → Bool → Bool
is_open [] up linked = linked
is_open (start ∷ cs) up linked = is_open cs true linked
is_open (shutdown ∷ cs) up linked = is_open cs false (if up then false else linked)

-- The eviction threads, which ask the membership for addresses, run only while it does.
abbrev pub IsSafe : Threads → Type 0
IsSafe s = s.tier_threads ≢ [] → s.heartbeat_thread ≡ true

run_calls-level :
    (capacity : Tier → ℕ) (cs : List Call) (up linked : Bool)
    → (All IsSafe (run_calls capacity cs (level capacity up linked)).0)
      × ((run_calls capacity cs (level capacity up linked)).1
          ≡ some (level capacity (is_up cs up) (is_open cs up linked)))
unfolding run_calls take_steps take_step steps evictor_start evictor_shutdown membership_start
    membership_shutdown transport_shutdown
run_calls-level capacity [] up linked = (tt, refl)
run_calls-level capacity (start ∷ cs) true linked = run_calls-level capacity cs true linked
run_calls-level capacity (start ∷ cs) false linked =
    let r = run_calls-level capacity cs true linked in
    (((λ h. absurd (h refl)), ((λ h. refl), ((λ h. refl), r.0))), r.1)
run_calls-level capacity (shutdown ∷ cs) true linked =
    let r = run_calls-level capacity cs false false in
    (
      (
        (λ h. refl),
        ((λ h. absurd (h refl)), ((λ h. absurd (h refl)), ((λ h. absurd (h refl)), r.0))),
      ),
      r.1,
    )
run_calls-level capacity (shutdown ∷ cs) false linked = run_calls-level capacity cs false linked

-- How many eviction threads are there for a tier.
abbrev pub threads_of : Tier → List Tier → ℕ
threads_of tier [] = 0
threads_of tier (x ∷ xs) = ite (tier_dec tier x) (suc (threads_of tier xs)) (threads_of tier xs)

-- All threads of a server that is up, or none: one eviction thread for each tier that has a
-- capacity.
pub record IsLevel (capacity : Tier → ℕ) (up linked : Bool) (s : Threads) : Type 0 where
  pub cache : s.cache_running ≡ up
  pub membership : s.membership_running ≡ up
  pub heartbeat : s.heartbeat_thread ≡ up
  pub evictor : s.evictor_running ≡ up
  pub sized : (tier : Tier) → up ≡ true → capacity tier ≢ 0 → threads_of tier s.tier_threads ≡ 1
  pub unsized : (tier : Tier) → capacity tier ≡ 0 → threads_of tier s.tier_threads ≡ 0
  pub none_down : up ≡ false → s.tier_threads ≡ []
  pub connections : s.transport_open ≡ linked

-- The threads of the three spawns, by which tiers have no capacity.
threads_lem :
    (tier : Tier) (a b c : Bool)
    → threads_of tier (
        (if a then [] else hbm ∷ [])
        ++ ((if b then [] else dram ∷ []) ++ (if c then [] else ssd ∷ [])))
      ≡ (if elim tier [ hbm ↦ a | dram ↦ b | ssd ↦ c ] then 0 else 1)
unfolding tier_dec
threads_lem hbm true true true = refl
threads_lem hbm true true false = refl
threads_lem hbm true false true = refl
threads_lem hbm true false false = refl
threads_lem hbm false true true = refl
threads_lem hbm false true false = refl
threads_lem hbm false false true = refl
threads_lem hbm false false false = refl
threads_lem dram true true true = refl
threads_lem dram true true false = refl
threads_lem dram true false true = refl
threads_lem dram true false false = refl
threads_lem dram false true true = refl
threads_lem dram false true false = refl
threads_lem dram false false true = refl
threads_lem dram false false false = refl
threads_lem ssd true true true = refl
threads_lem ssd true true false = refl
threads_lem ssd true false true = refl
threads_lem ssd true false false = refl
threads_lem ssd false true true = refl
threads_lem ssd false true false = refl
threads_lem ssd false false true = refl
threads_lem ssd false false false = refl

spawned-threads :
    (capacity : Tier → ℕ) (tier : Tier)
    → threads_of tier (spawned capacity) ≡ (if capacity tier == 0 then 0 else 1)
spawned-threads capacity hbm =
    threads_lem hbm (capacity hbm == 0) (capacity dram == 0) (capacity ssd == 0)
spawned-threads capacity dram =
    threads_lem dram (capacity hbm == 0) (capacity dram == 0) (capacity ssd == 0)
spawned-threads capacity ssd =
    threads_lem ssd (capacity hbm == 0) (capacity dram == 0) (capacity ssd == 0)

level-IsLevel :
    (capacity : Tier → ℕ) (up linked : Bool) → IsLevel capacity up linked (level capacity up linked)
level-IsLevel capacity true linked = record {
  cache = refl;
  membership = refl;
  heartbeat = refl;
  evictor = refl;
  sized = λ tier u ne.
      let test : (capacity tier == 0) ≡ false = ground arith in
      spawned-threads capacity tier ∙ ap (λ (b : Bool). if b then 0 else 1) test;
  unsized = λ tier e.
      let test : (capacity tier == 0) ≡ true = ground arith in
      spawned-threads capacity tier ∙ ap (λ (b : Bool). if b then 0 else 1) test;
  none_down = λ e. absurd (cc);
  connections = refl;
}
level-IsLevel capacity false linked = record {
  cache = refl;
  membership = refl;
  heartbeat = refl;
  evictor = refl;
  sized = λ tier u ne. absurd (cc);
  unsized = λ tier e. refl;
  none_down = λ e. refl;
  connections = refl;
}

-- Any sequence of `Start` and `Shutdown` calls, from a server with all of its threads or none, does
-- what the last call says, and the process does not end: after a start the heartbeat thread runs,
-- and there is one eviction thread for each tier with a capacity and none for the others; after a
-- shutdown none of these threads runs. Whenever eviction threads run, so does the heartbeat thread.
-- A shutdown of a running server closes the transport, and no start opens it again.
pub run_calls_lem :
    (capacity : Tier → ℕ) (cs : List Call) (up linked : Bool)
    → (All IsSafe (run_calls capacity cs (level capacity up linked)).0)
      × (last : Threads) × ((run_calls capacity cs (level capacity up linked)).1 ≡ some last)
      × IsLevel capacity (is_up cs up) (is_open cs up linked) last
run_calls_lem capacity cs up linked =
    let r = run_calls-level capacity cs up linked in
    (
      r.0,
      level capacity (is_up cs up) (is_open cs up linked),
      r.1,
      level-IsLevel capacity (is_up cs up) (is_open cs up linked),
    )
