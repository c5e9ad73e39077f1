-- ===== src/Node/Runs.antt =====
-- What holds of a node whatever happens to it.
use lethe.Base.{◌≤◌, All, length}
use lethe.Types.{Bytes, BlockId}
use lethe.TieredStore.{TieredStore}
use lethe.TieredStore.Good.{IsLegal}
use lethe.TieredStore.Refines.{
  Op, get_block, put_block, demote_block, erase_block, mark_block, clear_block,
}
use lethe.TieredStore.Refines
use lethe.Cache.{with_store}
use lethe.Cache
use lethe.Replicator.{replication_queue_max}
use lethe.Replicator.Scopes.{targets_of}
use lethe.Node.{Node, Event, inserted, streamed, called}
use lethe.Node.Clusters.{IsSound}
use lethe.Node.Passes.{slack_of, cap_of}
use lethe.Node.Handlers.{IsLegalBlock, IsLegalChunk}
use lethe.Service

-- The node is sound: its ring is well formed, the sweep's cursor is in its round, and before its
-- end while a pass is on, the queue of pushes is within twice its bound, and within it while a pass
-- is on, the targets of the pass are no more than the bound, and the store is good.
abbrev pub IsSoundNode : (BlockId → Bytes) → Node → Type 0
IsSoundNode content n =
    IsSound content (slack_of n.pass) (cap_of n.pass) n.cache.cluster
    × (length (targets_of n.pass) ≤ replication_queue_max)

-- What may be put into a node: blocks that are legal.
abbrev pub IsLegalCall : (BlockId → Bytes) → Op → Type 0
IsLegalCall content (put_block b hint) = IsLegal content b
IsLegalCall content (get_block id) = Unit
IsLegalCall content (demote_block id) = Unit
IsLegalCall content (erase_block id) = Unit
IsLegalCall content (mark_block id) = Unit
IsLegalCall content (clear_block id) = Unit

abbrev pub IsLegalEvent : (BlockId → Bytes) → Event → Type 0
IsLegalEvent content (inserted blocks) = All (IsLegalBlock content) blocks
IsLegalEvent content (streamed chunks) = All (IsLegalChunk content) chunks
IsLegalEvent content (called op) = IsLegalCall content op
IsLegalEvent content _ = Unit
