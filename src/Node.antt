-- ===== src/Node.antt =====
-- A running server: the handlers of cache_server/src/main.cpp over the facade, with the threads of
-- its subsystems. What can happen to it is an event. A call of a handler, the heartbeats of a round, its judgement, a
-- pass of a tier's eviction thread and a turn of a push worker are events, which do not overlap;
-- so are a single call of the tiered store and a single push of `ReplicateOut`, of which the handlers and
-- the passes are made, in any order; and the lock scopes of the re-replication, between which the
-- other events may come. What waits for `rerep_mu` happens when no pass holds it.
pub mod Keeps
pub mod Clusters
pub mod Handlers
pub mod Passes
pub mod Runs
pub mod Boot
use lethe.Base.{ℕ, Bool, List, [], ◌∷◌}
use lethe.Types.{Bytes, KvBlock, Tier}
use lethe.Cache.{LetheCache, store, with_store, rereplicate}
use lethe.Service.{
  PbBlockId, PbBlock, BlockChunk, lookup, insert, fetch, stream_blocks, heartbeat, evict_broadcast,
}
use lethe.Evictor.{EvictionConfig, Hands, run_pass_for_tier}
use lethe.Membership.{send_heartbeats, evaluate_suspicions}
use lethe.Replicator.{Replicator, ReplicateTask, work, push_block}
use lethe.Replicator.Scopes.{
  Pass, idle, checked, copied, check_room, copy_block, push_all, start_round,
}
use lethe.TieredStore.Refines.{Op}
use lethe.TieredStore.Refines
use lethe.Replicator.Store.{tiered_source}
use lethe.TieredStore.{TieredStore}

pub record Node : Type 0 where
  pub cache : LetheCache
  pub hands : Hands
  pub pass : Pass

pub data Event : Type 0 where
  looked_up : List PbBlockId → Event
  inserted : List PbBlock → Event
  fetched : PbBlockId → Event
  streamed : List BlockChunk → Event
  heartbeat_heard : ℕ → Bytes → ℕ → Event
  evictions_heard : List PbBlockId → Bytes → Event
  heartbeats_sent : ℕ → (Bytes → Bool) → Event
  judged : ℕ → Event
  swept : Tier → Event
  called : Op → Event
  pushed : KvBlock → Bytes → Event
  drain_next : Event
  worked : (ReplicateTask → Bool) → Event

abbrev pub with_replicator : Replicator × TieredStore → Node → Node
with_replicator x n = record n {
  cache = record (n.cache) { cluster = record (n.cache.cluster) { replicator = x } };
}

-- The next lock scope of the pass of `DrainReReplication`.
unfoldable pub next_scope : Pass → Node → Node
unfolding check_room copy_block push_all
next_scope idle n =
    let r = check_room n.cache.cluster.router n.cache.cluster.replicator.0 in
    record (with_replicator (r.0, store n.cache) n) { pass = r.1 }
next_scope (checked id targets) n =
    let r = copy_block tiered_source id targets n.cache.cluster.replicator in
    record (with_replicator r.0 n) { pass = r.1 }
next_scope (copied block targets) n =
    record (with_replicator (push_all block targets n.cache.cluster.replicator.0, store n.cache)
      n) { pass = idle }

-- `EvaluateSuspicions`, whose `TriggerReReplication` waits for `rerep_mu`: while a pass holds it,
-- nothing happens.
unfoldable pub judge_when : (Bytes → Bytes) → Pass → ℕ → Node → Node
unfolding start_round
judge_when blake3 idle now n = record n {
  cache = record (n.cache) {
    cluster = evaluate_suspicions blake3 (start_round tiered_source) now n.cache.cluster;
  };
}
judge_when blake3 (checked id targets) now n = n
judge_when blake3 (copied block targets) now n = n

module _ (blake3 : Bytes → Bytes) (eviction : EvictionConfig) where
  unfoldable pub step : Event → Node → Node
  unfolding judge_when next_scope push_block Refines.step
  step (looked_up ids) n = record n { cache = (lookup ids n.cache).0 }
  step (inserted blocks) n = record n { cache = (insert blocks n.cache).0 }
  step (fetched id) n = record n { cache = (fetch id n.cache).0 }
  step (streamed chunks) n = record n { cache = (stream_blocks chunks n.cache).0 }
  step (heartbeat_heard now peer epoch) n = record n {
    cache = (heartbeat blake3 now peer epoch n.cache).0;
  }
  step (evictions_heard ids peer) n = record n { cache = (evict_broadcast ids peer n.cache).0 }
  step (heartbeats_sent now replied) n = record n {
    cache = record (n.cache) {
      cluster = send_heartbeats blake3 rereplicate now replied n.cache.cluster;
    };
  }
  step (judged now) n = judge_when blake3 n.pass now n
  step (swept tier) n =
      let pass = run_pass_for_tier eviction tier (store n.cache) n.hands in
      record n { cache = with_store pass.store n.cache; hands = pass.hands }
  step (called op) n = record n { cache = with_store (Refines.step op (store n.cache)).0 n.cache }
  step (pushed block peer) n =
      with_replicator (push_block block (peer ∷ []) n.cache.cluster.replicator.0, store n.cache) n
  step drain_next n = next_scope n.pass n
  step (worked send) n = record n {
    cache = record (n.cache) {
      cluster = record (n.cache.cluster) {
        replicator = (work send n.cache.cluster.replicator.0, store n.cache);
      };
    };
  }

  unfoldable pub run : List Event → Node → Node
  run [] n = n
  run (e ∷ es) n = run es (step e n)
