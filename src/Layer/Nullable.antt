-- ===== src/Layer/Nullable.antt =====
-- A tier that may be absent: the `hbm_ ? hbm_->Put(...) : false` of
-- cache_server/src/tiered_store.cpp. A null `std::unique_ptr` is `none`.
use mathlib.Core.Option.{get_or}
use lethe.Base.{
  ℕ, ◌+◌, ◌<◌, ◌≤◌, ◌≡◌, refl, ap, Bool, true, false, Option, none, some, List, [], ite, length,
  arith,
}
use lethe.Types.{Bytes, BlockId, KvBlock, BlockMeta, id_dec}
use lethe.Layer.{Layer, LayerLaws, max_size}

module _ {S : Type 0} (l : Layer S) where
  unfoldable pub put_or_false : KvBlock → Option S → Option S × Bool
  put_or_false b none = (none, false)
  put_or_false b (some s) = let r = l.put b s in (some r.0, r.1)

  unfoldable pub get_or_miss : BlockId → Option S → Option Bytes
  get_or_miss id none = none
  get_or_miss id (some s) = l.get id s

  unfoldable pub erase_or_zero : BlockId → Option S → Option S × ℕ
  erase_or_zero id none = (none, 0)
  erase_or_zero id (some s) = let r = l.erase id s in (some r.0, r.1)

  unfoldable pub used_or_zero : Option S → ℕ
  used_or_zero none = 0
  used_or_zero (some s) = l.used_bytes s

  unfoldable pub capacity_or_zero : Option S → ℕ
  capacity_or_zero none = 0
  capacity_or_zero (some s) = l.capacity_bytes s

  unfoldable pub snapshot_or_empty : Option S → List BlockMeta
  snapshot_or_empty none = []
  snapshot_or_empty (some s) = l.snapshot s

  abbrev pub nullable : Layer (Option S)
  nullable = record {
    put = put_or_false;
    get = get_or_miss;
    erase = erase_or_zero;
    used_bytes = used_or_zero;
    capacity_bytes = capacity_or_zero;
    snapshot = snapshot_or_empty;
  }

module _ {S : Type 0} {l : Layer S} (laws : LayerLaws l) where
  abbrev pub IsValidOrNull : Option S → Type 0
  IsValidOrNull none = Unit
  IsValidOrNull (some s) = laws.IsValid s

  pub put-valid :
      (b : KvBlock) (o : Option S)
      → length b.bytes < max_size
      → IsValidOrNull o
      → IsValidOrNull (put_or_false l b o).0
  unfolding put_or_false
  put-valid b none h v = tt
  put-valid b (some s) h v = laws.put-IsValid b s h v

  pub erase-valid :
      (id : BlockId) (o : Option S) → IsValidOrNull o → IsValidOrNull (erase_or_zero l id o).0
  unfolding erase_or_zero
  erase-valid id none v = tt
  erase-valid id (some s) v = laws.erase-IsValid id s v

  pub refused :
      (b : KvBlock) (o : Option S) → (put_or_false l b o).1 ≡ false → (put_or_false l b o).0 ≡ o
  unfolding put_or_false
  refused b none h = refl
  refused b (some s) h = ap some (laws.put_refused b s h)

  pub get-put :
      (b : KvBlock) (o : Option S) (j : BlockId)
      → length b.bytes < max_size
      → IsValidOrNull o
      → (put_or_false l b o).1 ≡ true
      → get_or_miss l j (put_or_false l b o).0
        ≡ ite (id_dec j b.id) (some (get_or (get_or_miss l b.id o) b.bytes)) (get_or_miss l j o)
  unfolding put_or_false get_or_miss
  get-put b none j h v e = cc
  get-put b (some s) j h v e = laws.get-put b s j h v e

  pub get-erase :
      (id : BlockId) (o : Option S) (j : BlockId)
      → IsValidOrNull o
      → get_or_miss l j (erase_or_zero l id o).0 ≡ ite (id_dec j id) none (get_or_miss l j o)
  unfolding erase_or_zero get_or_miss
  get-erase id none j v = ground arith
  get-erase id (some s) j v = laws.get-erase id s j v

  pub used-erase :
      (id : BlockId) (o : Option S)
      → IsValidOrNull o
      → used_or_zero l (erase_or_zero l id o).0 + (erase_or_zero l id o).1 ≡ used_or_zero l o
  unfolding erase_or_zero used_or_zero
  used-erase id none v = omega arith
  used-erase id (some s) v = laws.used-erase id s v

  pub get-small :
      (id : BlockId) (o : Option S) (bs : Bytes)
      → IsValidOrNull o
      → get_or_miss l id o ≡ some bs
      → length bs < max_size
  unfolding get_or_miss
  get-small id none bs v e = cc
  get-small id (some s) bs v e = laws.get-lt-max_size id s bs v e

  pub used-le : (o : Option S) → IsValidOrNull o → used_or_zero l o ≤ capacity_or_zero l o
  unfolding used_or_zero capacity_or_zero
  used-le none v = omega arith
  used-le (some s) v = laws.used-le-capacity s v

  abbrev pub nullable_laws : LayerLaws (nullable l)
  nullable_laws = record {
    IsValid = IsValidOrNull;
    put-IsValid = put-valid;
    erase-IsValid = erase-valid;
    put_refused = refused;
    get-put = get-put;
    get-erase = get-erase;
    used-erase = used-erase;
    get-lt-max_size = get-small;
    used-le-capacity = used-le;
  }
