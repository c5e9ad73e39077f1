-- ===== src/Replicator/Stops.antt =====
-- The end of the worker pool, and the connection calls, of cache_server/src/replication.cpp. A worker
-- leaves its loop only when the queue is empty, so the destructor waits for all the pushes.
use lethe.Base.{
  ℕ, zero, suc, ◌≡◌, refl, ap, ◌∙◌, Bool, Option, none, some, List, [], ◌∷◌, length, arith,
}
use lethe.Types.{Bytes}
use lethe.GrpcStream.{connect, disconnect}
use lethe.Replicator.{Replicator, ReplicateTask, work}

-- The turns that are left to the workers.
unfoldable pub last_turns : ℕ → (ReplicateTask → Bool) → Replicator → Replicator
unfolding work
last_turns zero send r = r
last_turns (suc n) send r = last_turns n send (work send r)

unfoldable pub stop_workers : (ReplicateTask → Bool) → Replicator → Replicator
unfolding last_turns
stop_workers send r = last_turns (length r.queue) send r

-- The calls do nothing without a transport.
unfoldable pub ensure_peer_client :
    Bytes → Bytes → Option (List (Bytes × Bytes)) → Option (List (Bytes × Bytes))
unfolding connect
ensure_peer_client peer_id address none = none
ensure_peer_client peer_id address (some stubs) = some (connect peer_id address stubs)

unfoldable pub drop_peer_client :
    Bytes → Option (List (Bytes × Bytes)) → Option (List (Bytes × Bytes))
unfolding disconnect
drop_peer_client peer_id none = none
drop_peer_client peer_id (some stubs) = some (disconnect peer_id stubs)

tail_of : List ReplicateTask → List ReplicateTask
tail_of [] = []
tail_of (t ∷ ts) = ts

length-nil : (ts : List ReplicateTask) → length ts ≡ 0 → ts ≡ []
length-nil [] h = refl
length-nil (t ∷ ts) h = absurd (omega (arith, h))

length-tail_of : (ts : List ReplicateTask) (n : ℕ) → length ts ≡ suc n → length (tail_of ts) ≡ n
unfolding tail_of
length-tail_of [] n h = absurd (omega (arith, h))
length-tail_of (t ∷ ts) n h = omega (arith, h)

work-queue : (send : ReplicateTask → Bool) (r : Replicator) → (work send r).queue ≡ tail_of r.queue
unfolding work tail_of
work-queue send r = ground arith

last_turns-queue :
    (n : ℕ) (send : ReplicateTask → Bool) (r : Replicator)
    → length r.queue ≡ n
    → (last_turns n send r).queue ≡ []
unfolding last_turns tail_of
last_turns-queue zero send r h = length-nil r.queue h
last_turns-queue (suc n) send r h =
    last_turns-queue n send (work send r)
      (ap length (work-queue send r) ∙ length-tail_of r.queue n h)

-- When the destructor of the replicator returns, every push that was queued has been tried.
pub stop_workers-queue :
    (send : ReplicateTask → Bool) (r : Replicator) → (stop_workers send r).queue ≡ []
unfolding stop_workers
stop_workers-queue send r = last_turns-queue (length r.queue) send r refl
