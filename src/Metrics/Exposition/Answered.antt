-- ===== src/Metrics/Exposition/Answered.antt =====
-- Every line of the text of the metrics reads back.
use lethe.Base.{ℕ, ◌≡◌, refl, ◌∙◌, true, List, [], ◌++◌, All}
use lethe.Base.Text.{codes, Lacks, lacks}
use lethe.Types.{Bytes}
use lethe.Router.{to_string}
use lethe.Metrics.{Series}
use lethe.Metrics.Exposition.{
  Line, newline, print_lines, show_signed, request_line, tier_line, requests, latencies, tiers,
  totals, recovery, render, render_counter, render_gauge,
}
use lethe.Metrics.Exposition.Scraped.{
  scrape, scrape-print_lines, IsLine, AreLines, no_lines, next, IsValue, is_name, headed-All,
  to_string-IsValue, show_signed-IsValue, series-IsLine, histogram-All,
}
use lethe.Metrics.Exposition.Table.{table, samples-render}

module _ (latency_bounds recovery_bounds : List Bytes) (show_sum : ℕ → Bytes) (node_id : Bytes)
    (one_line : Lacks newline node_id) (latency_plain : All (Lacks newline) latency_bounds)
    (recovery_plain : All (Lacks newline) recovery_bounds) (sums : (n : ℕ) → IsValue (show_sum n))
    (s : Series) where
  request-IsLine :
      (op : Bytes) (v : ℕ) → lacks newline op ≡ true → IsLine (request_line node_id op v)
  request-IsLine op v h =
      series-IsLine node_id one_line (codes "lethe_requests_total") op (to_string v) refl h
        (to_string-IsValue v)

  requests-All :
      (lines : List Line)
      → AreLines lines
      → AreLines (requests latency_bounds recovery_bounds show_sum node_id s lines)
  requests-All lines h =
      headed-All (codes "lethe_requests_total") (codes "Cache requests by op and result")
        (codes "counter") _ refl refl
        (next (request-IsLine (codes ",op=\"lookup\",result=\"hit\"}") s.req_lookup_hit refl) (
          next (request-IsLine (codes ",op=\"lookup\",result=\"miss\"}") s.req_lookup_miss refl) (
            next (request-IsLine (codes ",op=\"insert\",result=\"ok\"}") s.req_insert_ok refl) (
              next (request-IsLine (codes ",op=\"stream\",result=\"ok\"}") s.req_stream_ok refl)
                h))))

  latencies-All :
      (lines : List Line)
      → AreLines lines
      → AreLines (latencies latency_bounds recovery_bounds show_sum node_id s lines)
  latencies-All lines h =
      let family = codes "lethe_op_latency_seconds" in
      headed-All (codes "lethe_op_latency_seconds") (codes "Operation latency seconds")
        (codes "histogram") _ refl refl
        (histogram-All node_id one_line show_sum sums latency_bounds family (codes ",op=\"lookup\"")
          s.lat_lookup _ latency_plain refl refl
          (histogram-All node_id one_line show_sum sums latency_bounds family
            (codes ",op=\"insert\"") s.lat_insert _ latency_plain refl refl
            (histogram-All node_id one_line show_sum sums latency_bounds family
              (codes ",op=\"stream\"") s.lat_stream lines latency_plain refl refl h)))

  tier-IsLine :
      (labels : Bytes) (v : ℕ) → lacks newline labels ≡ true → IsLine (tier_line node_id labels v)
  tier-IsLine labels v h =
      series-IsLine node_id one_line (codes "lethe_tier_bytes") labels (show_signed v) refl h
        (show_signed-IsValue v)

  tiers-All :
      (lines : List Line)
      → AreLines lines
      → AreLines (tiers latency_bounds recovery_bounds show_sum node_id s lines)
  tiers-All lines h =
      headed-All (codes "lethe_tier_bytes") (codes "Tier byte usage and capacity") (codes "gauge") _
        refl refl
        (next (tier-IsLine (codes ",tier=\"hbm\",state=\"used\"}") (s.tier_used 0) refl) (
          next (tier-IsLine (codes ",tier=\"hbm\",state=\"capacity\"}") (s.tier_capacity 0) refl) (
            next (tier-IsLine (codes ",tier=\"dram\",state=\"used\"}") (s.tier_used 1) refl) (
              next
                (tier-IsLine (codes ",tier=\"dram\",state=\"capacity\"}") (s.tier_capacity 1) refl)
                (next (tier-IsLine (codes ",tier=\"ssd\",state=\"used\"}") (s.tier_used 2) refl) (
                  next
                    (tier-IsLine (codes ",tier=\"ssd\",state=\"capacity\"}") (s.tier_capacity 2)
                      refl)
                    h))))))

  counter-All :
      (name help : Bytes) (v : ℕ) (lines : List Line)
      → lacks newline (name ++ (codes " " ++ help)) ≡ true
      → lacks newline (name ++ (codes " " ++ codes "counter")) ≡ true
      → is_name name ≡ true
      → AreLines lines
      → AreLines (render_counter name help node_id v lines)
  counter-All name help v lines h k n rest = headed-All name help (codes "counter") _ h k (
      next
        (series-IsLine node_id one_line name (codes "}") (to_string v) n refl (to_string-IsValue v))
        rest)

  gauge-All :
      (name help : Bytes) (v : ℕ) (lines : List Line)
      → lacks newline (name ++ (codes " " ++ help)) ≡ true
      → lacks newline (name ++ (codes " " ++ codes "gauge")) ≡ true
      → is_name name ≡ true
      → AreLines lines
      → AreLines (render_gauge name help node_id v lines)
  gauge-All name help v lines h k n rest = headed-All name help (codes "gauge") _ h k (
      next
        (series-IsLine node_id one_line name (codes "}") (show_signed v) n refl
          (show_signed-IsValue v))
        rest)

  totals-All :
      (lines : List Line)
      → AreLines lines
      → AreLines (totals latency_bounds recovery_bounds show_sum node_id s lines)
  totals-All lines h =
      gauge-All (codes "lethe_cluster_epoch") (codes "Cluster membership epoch") s.cluster_epoch _
        refl refl refl
        (gauge-All (codes "lethe_replicas_under_target")
          (codes "Blocks currently below replication target") s.replicas_under_target _ refl refl
          refl
          (counter-All (codes "lethe_stream_bytes_total")
            (codes "Total bytes transferred via the KV transport") s.stream_bytes_total _ refl refl
            refl
            (counter-All (codes "lethe_eviction_blocks_total") (codes "Blocks evicted")
              s.eviction_blocks_total _ refl refl refl
              (counter-All (codes "lethe_eviction_bytes_freed_total")
                (codes "Bytes freed by eviction") s.eviction_bytes_freed_total lines refl refl refl
                h))))

  recovery-All : AreLines (recovery latency_bounds recovery_bounds show_sum node_id s)
  recovery-All =
      headed-All (codes "lethe_failover_recovery_seconds") (codes "Failover recovery seconds")
        (codes "histogram") _ refl refl
        (histogram-All node_id one_line show_sum sums recovery_bounds
          (codes "lethe_failover_recovery_seconds") [] s.failover_recovery [] recovery_plain refl
          refl no_lines)

  -- A scraper that splits the text of the metrics into lines, skips the empty ones and the
  -- comments, and takes the value behind the last space of each other line, reads exactly the rows
  -- of a table, in order: for each series its name with its labels and what the counter, gauge or
  -- histogram of that series shows. The node's name and the printed bounds have no line break, and
  -- a printed sum has no line break and no space.
  pub scrape-render :
      scrape (print_lines (render latency_bounds recovery_bounds show_sum node_id s))
      ≡ table latency_bounds recovery_bounds show_sum node_id s
  unfolding render
  scrape-render =
      scrape-print_lines (render latency_bounds recovery_bounds show_sum node_id s)
        (requests-All _ (latencies-All _ (tiers-All _ (totals-All _ recovery-All))))
      ∙ samples-render latency_bounds recovery_bounds show_sum node_id s
