-- ===== src/TieredStore/Make.antt =====
-- The constructor of `TieredStore`, cache_server/src/tiered_store.cpp. The slots are those of the
-- SSD file; which file it is, by whether the path is a directory, is not modelled.
use lethe.Base.{
  ℕ, ◌<◌, ◌≡◌, Bool, true, false, not, ◌&&◌, Option, none, some, ltb, if◌then◌else◌, Bool-cases,
  inl, inr,
}
use lethe.Types.{Bytes, hbm, dram}
use lethe.Layer.{max_size}
use lethe.BlockStore
use lethe.BlockStore.{BlockStore}
use lethe.BlockStore.Laws.{make-IsValid}
use lethe.SsdBlockStore.{Slot, open_file}
use lethe.SsdBlockStore.Reopen.{IsGeometry, IsUniqueFile, open_file-IsValid}
use lethe.Layer.Nullable.{IsValidOrNull}
use lethe.BlockStore.Laws.{block_laws}
use lethe.TieredStore.{TieredStore, is_empty}
use lethe.TieredStore.Copies.{IsValid}

pub record TieredStoreConfig : Type 0 where
  pub hbm_bytes : ℕ
  pub dram_bytes : ℕ
  pub ssd_bytes : ℕ
  pub ssd_path : Bytes
  pub enable_promotion : Bool
  pub promotion_access_threshold : ℕ
  pub ssd_slot_bytes : ℕ

-- The store without its SSD.
abbrev pub memory_tiers : TieredStoreConfig → TieredStore
memory_tiers cfg = record {
  enable_promotion = cfg.enable_promotion;
  promotion_access_threshold = cfg.promotion_access_threshold;
  hbm_store = if ltb 0 cfg.hbm_bytes then some (BlockStore.make hbm cfg.hbm_bytes) else none;
  dram_store = some (BlockStore.make dram cfg.dram_bytes);
  ssd_store = none;
  access_counts = λ id. 0;
  visited = λ id. false;
}

abbrev pub has_ssd : TieredStoreConfig → Bool
has_ssd cfg = ltb 0 cfg.ssd_bytes && not (is_empty cfg.ssd_path)

-- `none` is the exception of the SSD store's constructor.
unfoldable pub make_tiers : (ℕ → Slot) → TieredStoreConfig → Option TieredStore
make_tiers slots cfg =
    let opened : Option TieredStore = elim (open_file slots cfg.ssd_bytes cfg.ssd_slot_bytes) [
      | none ↦ none
      | some s ↦ some (record (memory_tiers cfg) { ssd_store = some s })
    ] in
    if has_ssd cfg then opened else some (memory_tiers cfg)

hbm-IsValid :
    (cfg : TieredStoreConfig)
    → cfg.hbm_bytes < max_size
    → IsValidOrNull block_laws (memory_tiers cfg).hbm_store
hbm-IsValid cfg h = elim (Bool-cases (ltb 0 cfg.hbm_bytes)) [
  | inl there_is ↦ simp there_is (make-IsValid hbm cfg.hbm_bytes h)
  | inr absent ↦ simp absent tt
]

-- For memory sizes below 2^63 and, if the configuration has an SSD, a file of legal sizes in which
-- no two slots hold live headers of one id, the constructor of `TieredStore` succeeds with a well-
-- formed store.
pub make_tiers-IsValid :
    (slots : ℕ → Slot) (cfg : TieredStoreConfig)
    → cfg.hbm_bytes < max_size
    → cfg.dram_bytes < max_size
    → (has_ssd cfg ≡ true → IsGeometry cfg.ssd_bytes cfg.ssd_slot_bytes)
    → (has_ssd cfg ≡ true → IsUniqueFile slots cfg.ssd_bytes cfg.ssd_slot_bytes)
    → (t : TieredStore) × (make_tiers slots cfg ≡ some t) × IsValid t
unfolding make_tiers
make_tiers-IsValid slots cfg h d g u = elim (Bool-cases (has_ssd cfg)) [
  | inl disk ↦
      let (s, at, valid, complete, view) =
        open_file-IsValid slots cfg.ssd_bytes cfg.ssd_slot_bytes (g disk) (u disk) in
      (
        record (memory_tiers cfg) { ssd_store = some s },
        simp (disk, at),
        record {
          hbm_valid = hbm-IsValid cfg h;
          dram_valid = make-IsValid dram cfg.dram_bytes d;
          ssd_valid = valid;
        },
      )
  | inr none_there ↦ (
    memory_tiers cfg,
    simp none_there,
    record {
      hbm_valid = hbm-IsValid cfg h;
      dram_valid = make-IsValid dram cfg.dram_bytes d;
      ssd_valid = tt;
    },
  )
]
