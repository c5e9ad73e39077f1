-- ===== src/Metrics/Exposition/Table.antt =====
-- The samples that a scrape of a node should find, as a table: each series with its labels, and the
-- value that it shows.
use mathlib.Core.List.{append_assoc}
use lethe.Base.{ℕ, ◌≡◌, refl, sym, ap, ◌∙◌, List, [], ◌∷◌, ◌++◌}
use lethe.Base.Text.{codes}
use lethe.Types.{Bytes}
use lethe.Router.{to_string}
use lethe.Metrics.{Histogram, Series, rendered}
use lethe.Metrics.Exposition.{
  Line, show_signed, bucket_lines, render_histogram, latencies, tiers, totals, recovery, render,
}
use lethe.Metrics.Exposition.Scraped.{samples}

module _ (latency_bounds recovery_bounds : List Bytes) (show_sum : ℕ → Bytes)
    (node_id : Bytes) where
  -- A series by its name and by the text behind the node's name.
  abbrev pub series : Bytes → Bytes → Bytes
  series name labels = name ++ (codes "{node=\"" ++ (node_id ++ labels))

  -- One row for each bound.
  abbrev pub bucket_rows :
      Bytes → Bytes → List Bytes → List ℕ → List (Bytes × Bytes) → List (Bytes × Bytes)
  bucket_rows name labels [] counts rest = rest
  bucket_rows name labels (b ∷ bounds) [] rest = rest
  bucket_rows name labels (b ∷ bounds) (n ∷ counts) rest =
      (
        series (name ++ codes "_bucket") (labels ++ (codes ",le=\"" ++ (b ++ codes "\"}"))),
        to_string n,
      )
      ∷ bucket_rows name labels bounds counts rest

  -- A histogram: its buckets, each with those below it and the last without a bound, the sum, and
  -- the count.
  abbrev pub histogram_rows :
      Bytes → Bytes → List Bytes → Histogram → List (Bytes × Bytes) → List (Bytes × Bytes)
  histogram_rows name labels bounds h rest =
      bucket_rows name labels (bounds ++ codes "+Inf" ∷ []) (rendered h) (
        (series (name ++ codes "_sum") (labels ++ codes "}"), show_sum h.sum_micros)
        ∷ (series (name ++ codes "_count") (labels ++ codes "}"), to_string h.count)
        ∷ rest)

  -- A latency histogram of an operation.
  abbrev pub latency_rows : Bytes → Histogram → List (Bytes × Bytes) → List (Bytes × Bytes)
  latency_rows labels h rest =
      histogram_rows (codes "lethe_op_latency_seconds") labels latency_bounds h rest

  abbrev pub gauge_rows : Series → List (Bytes × Bytes) → List (Bytes × Bytes)
  gauge_rows s rest =
      (
        series (codes "lethe_tier_bytes") (codes "\",tier=\"hbm\",state=\"used\"}"),
        show_signed (s.tier_used 0),
      )
      ∷ (
        series (codes "lethe_tier_bytes") (codes "\",tier=\"hbm\",state=\"capacity\"}"),
        show_signed (s.tier_capacity 0),
      )
      ∷ (
        series (codes "lethe_tier_bytes") (codes "\",tier=\"dram\",state=\"used\"}"),
        show_signed (s.tier_used 1),
      )
      ∷ (
        series (codes "lethe_tier_bytes") (codes "\",tier=\"dram\",state=\"capacity\"}"),
        show_signed (s.tier_capacity 1),
      )
      ∷ (
        series (codes "lethe_tier_bytes") (codes "\",tier=\"ssd\",state=\"used\"}"),
        show_signed (s.tier_used 2),
      )
      ∷ (
        series (codes "lethe_tier_bytes") (codes "\",tier=\"ssd\",state=\"capacity\"}"),
        show_signed (s.tier_capacity 2),
      )
      ∷ (series (codes "lethe_cluster_epoch") (codes "\"}"), show_signed s.cluster_epoch)
      ∷ (
        series (codes "lethe_replicas_under_target") (codes "\"}"),
        show_signed s.replicas_under_target,
      )
      ∷ (series (codes "lethe_stream_bytes_total") (codes "\"}"), to_string s.stream_bytes_total)
      ∷ (
        series (codes "lethe_eviction_blocks_total") (codes "\"}"),
        to_string s.eviction_blocks_total,
      )
      ∷ (
        series (codes "lethe_eviction_bytes_freed_total") (codes "\"}"),
        to_string s.eviction_bytes_freed_total,
      )
      ∷ rest

  abbrev pub table : Series → List (Bytes × Bytes)
  table s =
      (
        series (codes "lethe_requests_total") (codes "\",op=\"lookup\",result=\"hit\"}"),
        to_string s.req_lookup_hit,
      )
      ∷ (
        series (codes "lethe_requests_total") (codes "\",op=\"lookup\",result=\"miss\"}"),
        to_string s.req_lookup_miss,
      )
      ∷ (
        series (codes "lethe_requests_total") (codes "\",op=\"insert\",result=\"ok\"}"),
        to_string s.req_insert_ok,
      )
      ∷ (
        series (codes "lethe_requests_total") (codes "\",op=\"stream\",result=\"ok\"}"),
        to_string s.req_stream_ok,
      )
      ∷ latency_rows (codes "\",op=\"lookup\"") s.lat_lookup (
          latency_rows (codes "\",op=\"insert\"") s.lat_insert (
            latency_rows (codes "\",op=\"stream\"") s.lat_stream (
              gauge_rows s (
                histogram_rows (codes "lethe_failover_recovery_seconds") (codes "\"")
                  recovery_bounds s.failover_recovery []))))

  -- A series with an ending of its name.
  ended :
      (name ending labels : Bytes)
      → name ++ (ending ++ (codes "{node=\"" ++ (node_id ++ labels)))
        ≡ series (name ++ ending) labels
  ended name ending labels =
      sym (append_assoc name ending (codes "{node=\"" ++ (node_id ++ labels)))

  bucket_lines-rows :
      (name op : Bytes) (bounds : List Bytes) (counts : List ℕ) (lines : List Line)
      → samples (bucket_lines name node_id op bounds counts lines)
        ≡ bucket_rows name (codes "\"" ++ op) bounds counts (samples lines)
  unfolding bucket_lines
  bucket_lines-rows name op [] counts lines = refl
  bucket_lines-rows name op (b ∷ bounds) [] lines = refl
  bucket_lines-rows name op (b ∷ bounds) (n ∷ counts) lines = λ i.
      (
        ended name (codes "_bucket") (codes "\"" ++ (op ++ (codes ",le=\"" ++ (b ++ codes "\"}"))))
            i,
        to_string n,
      )
      ∷ bucket_lines-rows name op bounds counts lines i

  render_histogram-rows :
      (name op : Bytes) (bounds : List Bytes) (h : Histogram) (lines : List Line)
      → samples (render_histogram show_sum bounds name node_id op h lines)
        ≡ histogram_rows name (codes "\"" ++ op) bounds h (samples lines)
  render_histogram-rows name op bounds h lines =
      bucket_lines-rows name op (bounds ++ codes "+Inf" ∷ []) (rendered h) _ ∙ (λ i.
        bucket_rows name (codes "\"" ++ op) (bounds ++ codes "+Inf" ∷ []) (rendered h) (
          (ended name (codes "_sum") (codes "\"" ++ (op ++ codes "}")) i, show_sum h.sum_micros)
          ∷ (ended name (codes "_count") (codes "\"" ++ (op ++ codes "}")) i, to_string h.count)
          ∷ samples lines))

  recovery-rows :
      (s : Series)
      → samples (recovery latency_bounds recovery_bounds show_sum node_id s)
        ≡ histogram_rows
            (codes "lethe_failover_recovery_seconds")
            (codes "\"")
            recovery_bounds
            s.failover_recovery
            []
  recovery-rows s =
      render_histogram-rows (codes "lethe_failover_recovery_seconds") [] recovery_bounds
        s.failover_recovery []

  totals-rows :
      (s : Series) (lines : List Line)
      → samples (
          tiers latency_bounds recovery_bounds show_sum node_id s
            (totals latency_bounds recovery_bounds show_sum node_id s lines))
        ≡ gauge_rows s (samples lines)
  totals-rows s lines = refl

  latencies-rows :
      (s : Series) (lines : List Line)
      → samples (latencies latency_bounds recovery_bounds show_sum node_id s lines)
        ≡ latency_rows (codes "\",op=\"lookup\"") s.lat_lookup (
            latency_rows
              (codes "\",op=\"insert\"")
              s.lat_insert
              (latency_rows (codes "\",op=\"stream\"") s.lat_stream (samples lines)))
  latencies-rows s lines =
      let name = codes "lethe_op_latency_seconds" in
      render_histogram-rows name (codes ",op=\"lookup\"") latency_bounds s.lat_lookup _
      ∙ ap (latency_rows (codes "\",op=\"lookup\"") s.lat_lookup) (
          render_histogram-rows name (codes ",op=\"insert\"") latency_bounds s.lat_insert _
          ∙ ap (latency_rows (codes "\",op=\"insert\"") s.lat_insert) (
              render_histogram-rows name (codes ",op=\"stream\"") latency_bounds s.lat_stream
                lines))

  -- The samples of the printed lines are the table.
  pub samples-render :
      (s : Series) → samples (render latency_bounds recovery_bounds show_sum node_id s) ≡ table s
  unfolding render
  samples-render s =
      let first : List (Bytes × Bytes) → List (Bytes × Bytes) = λ rest.
        (
          series (codes "lethe_requests_total") (codes "\",op=\"lookup\",result=\"hit\"}"),
          to_string s.req_lookup_hit,
        )
        ∷ (
          series (codes "lethe_requests_total") (codes "\",op=\"lookup\",result=\"miss\"}"),
          to_string s.req_lookup_miss,
        )
        ∷ (
          series (codes "lethe_requests_total") (codes "\",op=\"insert\",result=\"ok\"}"),
          to_string s.req_insert_ok,
        )
        ∷ (
          series (codes "lethe_requests_total") (codes "\",op=\"stream\",result=\"ok\"}"),
          to_string s.req_stream_ok,
        )
        ∷ rest in
      ap first (
        latencies-rows s _
        ∙ ap
            (λ (rest : List (Bytes × Bytes)). latency_rows (codes "\",op=\"lookup\"") s.lat_lookup (
              latency_rows (codes "\",op=\"insert\"") s.lat_insert
                (latency_rows (codes "\",op=\"stream\"") s.lat_stream rest)))
            (totals-rows s (recovery latency_bounds recovery_bounds show_sum node_id s)
              ∙ ap (gauge_rows s) (recovery-rows s)))
