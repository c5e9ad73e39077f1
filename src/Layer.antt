-- ===== src/Layer.antt =====
-- The interface between TieredStore and the stores of its tiers: the operations that
-- cache_server/src/tiered_store.cpp calls on `hbm_`, `dram_` and `ssd_`, and the laws that its
-- proofs rest on. BlockStore and SsdBlockStore fill both.
pub mod Nullable
use mathlib.Core.Option.{get_or}
use lethe.Base.{
  ℕ, ◌+◌, ◌^◌, ◌<◌, ◌≤◌, ◌≡◌, Bool, true, false, Option, none, some, List, ite, length,
}
use lethe.Types.{Bytes, BlockId, KvBlock, BlockMeta, id_dec}

-- The size of a `std::vector` is at most `PTRDIFF_MAX`.
abbrev pub max_size : ℕ
max_size = 2 ^ 63

pub record Layer (S : Type 0) : Type 0 where
  pub put : KvBlock → S → S × Bool
  pub get : BlockId → S → Option Bytes
  pub erase : BlockId → S → S × ℕ
  pub used_bytes : S → ℕ
  pub capacity_bytes : S → ℕ
  pub snapshot : S → List BlockMeta

pub record LayerLaws {S : Type 0} (l : Layer S) : Type 1 where
  pub IsValid : S → Type 0
  pub put-IsValid :
      (b : KvBlock) (s : S) → length b.bytes < max_size → IsValid s → IsValid (l.put b s).0
  pub erase-IsValid : (id : BlockId) (s : S) → IsValid s → IsValid (l.erase id s).0
  -- A refused block changes nothing.
  pub put_refused : (b : KvBlock) (s : S) → (l.put b s).1 ≡ false → (l.put b s).0 ≡ s
  -- An accepted one is there afterwards, with the bytes of an earlier copy if there was one.
  pub get-put :
      (b : KvBlock) (s : S) (j : BlockId)
      → length b.bytes < max_size
      → IsValid s
      → (l.put b s).1 ≡ true
      → l.get j (l.put b s).0
        ≡ ite (id_dec j b.id) (some (get_or (l.get b.id s) b.bytes)) (l.get j s)
  pub get-erase :
      (id : BlockId) (s : S) (j : BlockId)
      → IsValid s
      → l.get j (l.erase id s).0 ≡ ite (id_dec j id) none (l.get j s)
  -- The bytes that `erase` reports are the bytes that it frees.
  pub used-erase :
      (id : BlockId) (s : S)
      → IsValid s
      → l.used_bytes (l.erase id s).0 + (l.erase id s).1 ≡ l.used_bytes s
  -- A stored payload is a vector of the process.
  pub get-lt-max_size :
      (id : BlockId) (s : S) (bs : Bytes) → IsValid s → l.get id s ≡ some bs → length bs < max_size
  pub used-le-capacity : (s : S) → IsValid s → l.used_bytes s ≤ l.capacity_bytes s
