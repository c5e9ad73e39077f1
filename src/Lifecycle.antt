-- ===== src/Lifecycle.antt =====
-- Starting and stopping the threads of a server: `Start` and `Shutdown` of
-- cache_server/src/cache.cpp, membership.cpp and eviction.cpp. A call is the sequence of its steps;
-- what the threads do is in `Node`. The threads of the replicator and of the metrics live as long
-- as their objects.
pub mod Calls
use lethe.Base.{
  ℕ, Bool, true, false, Option, none, some, List, [], ◌∷◌, ◌++◌, if◌then◌else◌, ◌==◌, not,
}
use lethe.Types.{Tier, hbm, dram, ssd}

-- The flags of the three classes, the threads that can be joined, and whether the transport keeps
-- its connections.
pub record Threads : Type 0 where
  pub cache_running : Bool
  pub membership_running : Bool
  pub heartbeat_thread : Bool
  pub evictor_running : Bool
  pub tier_threads : List Tier
  pub transport_open : Bool

module _ (capacity_bytes : Tier → ℕ) where
  -- The lambda `spawn` of `Evictor::Start`.
  abbrev pub spawn : Tier → List Tier
  spawn tier = if capacity_bytes tier == 0 then [] else tier ∷ []

  abbrev pub spawned : List Tier
  spawned = spawn hbm ++ (spawn dram ++ spawn ssd)

  unfoldable pub evictor_start : Threads → Threads
  evictor_start s =
      if s.evictor_running
      then s
      else record s { evictor_running = true; tier_threads = s.tier_threads ++ spawned }

-- Every thread leaves its loop and is joined.
unfoldable pub evictor_shutdown : Threads → Threads
evictor_shutdown s = record s { evictor_running = false; tier_threads = [] }

-- The assignment of a thread to one that was not joined would end the process, which is `none`.
unfoldable pub membership_start : Threads → Option Threads
membership_start s =
    if s.membership_running
    then some s
    else if s.heartbeat_thread
    then none
    else some (record s { membership_running = true; heartbeat_thread = true })

unfoldable pub membership_shutdown : Threads → Threads
membership_shutdown s =
    if not s.membership_running
    then record s { heartbeat_thread = false }
    else record s { membership_running = false; heartbeat_thread = false }

unfoldable pub transport_shutdown : Threads → Threads
transport_shutdown s = record s { transport_open = false }

-- The steps of `LetheCache::Start` and `LetheCache::Shutdown` after the exchange of the flag.
pub data Step : Type 0 where
  flag : Bool → Step
  start_membership start_evictor stop_evictor stop_membership stop_transport : Step

pub data Call : Type 0 where
  start shutdown : Call

-- The steps of a call, by whether the cache runs.
unfoldable pub steps : Call → Bool → List Step
steps start true = []
steps start false = flag true ∷ start_membership ∷ start_evictor ∷ []
steps shutdown false = []
steps shutdown true = flag false ∷ stop_evictor ∷ stop_membership ∷ stop_transport ∷ []

module _ (capacity_bytes : Tier → ℕ) where
  unfoldable pub take_step : Step → Threads → Option Threads
  unfolding membership_start evictor_start evictor_shutdown membership_shutdown transport_shutdown
  take_step (flag b) s = some (record s { cache_running = b })
  take_step start_membership s = membership_start s
  take_step start_evictor s = some (evictor_start capacity_bytes s)
  take_step stop_evictor s = some (evictor_shutdown s)
  take_step stop_membership s = some (membership_shutdown s)
  take_step stop_transport s = some (transport_shutdown s)

  -- The states between the steps, and the last one if the process gets there.
  unfoldable pub take_steps : List Step → Threads → List Threads × Option Threads
  unfolding take_step
  take_steps [] s = ([], some s)
  take_steps (step ∷ rest) s = elim (take_step step s) [
    | none ↦ ([], none)
    | some next ↦ let r = take_steps rest next in (next ∷ r.0, r.1)
  ]

  unfoldable pub run_calls : List Call → Threads → List Threads × Option Threads
  unfolding take_steps steps
  run_calls [] s = ([], some s)
  run_calls (c ∷ cs) s =
      let r = take_steps (steps c s.cache_running) s in
      elim (r.1) [
        | none ↦ (r.0, none)
        | some next ↦ let rest = run_calls cs next in (r.0 ++ rest.0, rest.1)
      ]
