-- ===== src/Metrics.antt =====
-- The series of cache_server/src/metrics.cpp and the calls that record into them. Durations are of
-- a type of their own: what the code computes of them with `double` is a parameter, the test of a
-- duration against the i-th finite bound of a histogram and its whole microseconds.
pub mod Buckets
pub mod Exposition
pub mod Port
use lethe.Base.{
  ℕ, zero, suc, ◌+◌, ◌%◌, ◌^◌, Bool, List, [], ◌∷◌, if◌then◌else◌, add64, u64_mod, ◌==◌,
}
use lethe.Types.{Tier, hbm, dram, ssd}

-- `Histogram`: nine buckets, the last of which has no bound.
pub record Histogram : Type 0 where
  pub buckets : List ℕ
  pub count : ℕ
  pub sum_micros : ℕ

unfoldable pub new_histogram : Histogram
new_histogram = record {
  buckets = 0 ∷ 0 ∷ 0 ∷ 0 ∷ 0 ∷ 0 ∷ 0 ∷ 0 ∷ 0 ∷ [];
  count = 0;
  sum_micros = 0;
}

-- `buckets[i].fetch_add(1)`.
unfoldable pub bump : ℕ → List ℕ → List ℕ
bump i [] = []
bump zero (b ∷ bs) = add64 b 1 ∷ bs
bump (suc i) (b ∷ bs) = b ∷ bump i bs

-- The buckets as `render_histogram` prints them, each with those below it.
unfoldable pub cumulative : ℕ → List ℕ → List ℕ
cumulative cum [] = []
cumulative cum (b ∷ bs) = add64 cum b ∷ cumulative (add64 cum b) bs

unfoldable pub rendered : Histogram → List ℕ
unfolding cumulative
rendered h = cumulative 0 h.buckets

abbrev pub bounds_size : ℕ
bounds_size = 8

-- The index of the RecordTierUsage gauges.
unfoldable pub tier_index : Tier → ℕ
tier_index hbm = 0
tier_index dram = 1
tier_index ssd = 2

module _ {D : Type 0} (above : ℕ → D → Bool) where
  -- `while (i < bounds.size() && sec > bounds[i]) ++i`, with the bounds that are left.
  unfoldable pub find_bucket : ℕ → ℕ → D → ℕ
  find_bucket zero i d = i
  find_bucket (suc left) i d =
      let rest = find_bucket left (suc i) d in if above i d then rest else i

  unfoldable pub observe : (D → ℕ) → D → Histogram → Histogram
  observe micros d h = record {
    buckets = bump (find_bucket bounds_size 0 d) h.buckets;
    count = add64 h.count 1;
    sum_micros = add64 h.sum_micros (micros d);
  }

-- The counters, gauges and latency histograms. A gauge is the 64 bits of its `long long`.
pub record Series : Type 0 where
  pub req_lookup_hit : ℕ
  pub req_lookup_miss : ℕ
  pub req_insert_ok : ℕ
  pub req_stream_ok : ℕ
  pub stream_bytes_total : ℕ
  pub eviction_blocks_total : ℕ
  pub eviction_bytes_freed_total : ℕ
  pub cluster_epoch : ℕ
  pub tier_used : ℕ → ℕ
  pub tier_capacity : ℕ → ℕ
  pub replicas_under_target : ℕ
  pub lat_lookup : Histogram
  pub lat_insert : Histogram
  pub lat_stream : Histogram
  pub failover_recovery : Histogram

abbrev pub store_at : ℕ → ℕ → (ℕ → ℕ) → ℕ → ℕ
store_at i v f j = if j == i then v else f j

module _ {D : Type 0} (above_latency above_recovery : ℕ → D → Bool) (micros : D → ℕ) where
  unfoldable pub record_lookup : ℕ → ℕ → D → Series → Series
  record_lookup hits misses latency s = record s {
    req_lookup_hit = add64 s.req_lookup_hit hits;
    req_lookup_miss = add64 s.req_lookup_miss misses;
    lat_lookup = observe above_latency micros latency s.lat_lookup;
  }

  unfoldable pub record_insert : ℕ → D → Series → Series
  record_insert accepted latency s = record s {
    req_insert_ok = add64 s.req_insert_ok accepted;
    lat_insert = observe above_latency micros latency s.lat_insert;
  }

  unfoldable pub record_stream_bytes : ℕ → D → Series → Series
  record_stream_bytes bytes latency s = record s {
    req_stream_ok = add64 s.req_stream_ok 1;
    stream_bytes_total = add64 s.stream_bytes_total bytes;
    lat_stream = observe above_latency micros latency s.lat_stream;
  }

  unfoldable pub record_failover_recovery : D → Series → Series
  record_failover_recovery duration s = record s {
    failover_recovery = observe above_recovery micros duration s.failover_recovery;
  }

unfoldable pub record_tier_usage : Tier → ℕ → ℕ → Series → Series
unfolding tier_index
record_tier_usage tier used capacity s = record s {
  tier_used = store_at (tier_index tier) (used % u64_mod) s.tier_used;
  tier_capacity = store_at (tier_index tier) (capacity % u64_mod) s.tier_capacity;
}

unfoldable pub record_epoch : ℕ → Series → Series
record_epoch epoch s = record s { cluster_epoch = epoch % u64_mod }

unfoldable pub record_eviction_pass : ℕ → ℕ → Series → Series
record_eviction_pass blocks_evicted bytes_freed s = record s {
  eviction_blocks_total = add64 s.eviction_blocks_total blocks_evicted;
  eviction_bytes_freed_total = add64 s.eviction_bytes_freed_total bytes_freed;
}

unfoldable pub record_under_replicated : ℕ → Series → Series
record_under_replicated count s = record s { replicas_under_target = count % u64_mod }
