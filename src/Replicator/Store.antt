-- ===== src/Replicator/Store.antt =====
-- The tiered store as the source of the replicator's blocks.
use lethe.Base.{ap, Option}
use lethe.Types.{Bytes, BlockId}
use lethe.TieredStore.{TieredStore, GetResult, get, snapshot}
use lethe.TieredStore.Stored.{stored}
use lethe.TieredStore.Get.{get_miss}
use lethe.TieredStore.Good.{IsGood, get-Keeps, get-found, get-IsGood}
use lethe.Replicator.{BlockSource}
use lethe.Replicator.Round.{SourceLaws}

abbrev pub tiered_source : BlockSource TieredStore
tiered_source = record { get = get; snapshot = snapshot }

-- The tiered store is such a source, for the blocks that its readers find.
abbrev pub tiered_laws : (content : BlockId → Bytes) → SourceLaws tiered_source
tiered_laws content = record {
  Good = IsGood content;
  content = stored;
  get-hit = get-found content;
  get-miss =
      λ id t g absent. ap (λ (r : TieredStore × Option GetResult). r.1) (get_miss id t absent);
  get-Good = get-IsGood content;
  content-get = λ id j t g. (get-Keeps content id t g).same j;
}
