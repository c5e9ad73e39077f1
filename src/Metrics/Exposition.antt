-- ===== src/Metrics/Exposition.antt =====
-- The text that cache_server/src/metrics.cpp answers a scrape with, as its lines. How a `double` is
-- printed is a parameter: the bounds of the two kinds of histograms, and a sum of microseconds in
-- seconds.
pub mod Scraped
pub mod Table
pub mod Answered
use lethe.Base.{ℕ, ◌-◌, ◌^◌, List, [], ◌∷◌, ◌++◌, ltb, if◌then◌else◌, get_or}
use lethe.Base.Text.{codes}
use lethe.Types.{Bytes}
use lethe.Router.{to_string}
use lethe.Metrics.{Histogram, Series, rendered}

-- A line is a comment, or a series with a value behind a space.
pub data Line : Type 0 where
  comment : Bytes → Line
  sample : Bytes → Bytes → Line

abbrev pub newline : ℕ
newline = 10

abbrev pub space : ℕ
space = 32

abbrev pub line_text : Line → Bytes
line_text (comment text) = text
line_text (sample series value) = series ++ space ∷ value

unfoldable pub print_lines : List Line → Bytes
print_lines [] = []
print_lines (l ∷ ls) = line_text l ++ newline ∷ print_lines ls

-- `# HELP` and `# TYPE`.
abbrev pub headed : Bytes → Bytes → Bytes → List Line → List Line
headed name help kind lines =
    comment (codes "# HELP " ++ (name ++ (codes " " ++ help)))
    ∷ comment (codes "# TYPE " ++ (name ++ (codes " " ++ kind)))
    ∷ lines

-- `<<` of a `long long`, which is given by its 64 bits.
unfoldable pub show_signed : ℕ → Bytes
unfolding to_string
show_signed v = if ltb v (2 ^ 63) then to_string v else b'-' ∷ to_string (2 ^ 64 - v)

-- The labels that begin with the node, with what follows them.
abbrev pub labelled : Bytes → Bytes → Bytes
labelled node_id rest = codes "{node=\"" ++ (node_id ++ (codes "\"" ++ rest))

abbrev pub render_counter : Bytes → Bytes → Bytes → ℕ → List Line → List Line
render_counter name help node_id v lines =
    headed name help (codes "counter")
      (sample (name ++ labelled node_id (codes "}")) (to_string v) ∷ lines)

abbrev pub render_gauge : Bytes → Bytes → Bytes → ℕ → List Line → List Line
render_gauge name help node_id v lines =
    headed name help (codes "gauge")
      (sample (name ++ labelled node_id (codes "}")) (show_signed v) ∷ lines)

-- The bucket lines, one for each bound and count; `op` are the labels behind the node's.
unfoldable pub bucket_lines : Bytes → Bytes → Bytes → List Bytes → List ℕ → List Line → List Line
bucket_lines family node_id op [] counts lines = lines
bucket_lines family node_id op (b ∷ bounds) [] lines = lines
bucket_lines family node_id op (b ∷ bounds) (n ∷ counts) lines =
    sample
      (family
        ++ (codes "_bucket" ++ labelled node_id (op ++ (codes ",le=\"" ++ (b ++ codes "\"}")))))
      (to_string n)
    ∷ bucket_lines family node_id op bounds counts lines

module _ (show_sum : ℕ → Bytes) where
  abbrev pub render_histogram :
      List Bytes → Bytes → Bytes → Bytes → Histogram → List Line → List Line
  render_histogram bounds family node_id op h lines =
      bucket_lines family node_id op (bounds ++ codes "+Inf" ∷ []) (rendered h) (
        sample (family ++ (codes "_sum" ++ labelled node_id (op ++ codes "}")))
          (show_sum h.sum_micros)
        ∷ sample (family ++ (codes "_count" ++ labelled node_id (op ++ codes "}")))
            (to_string h.count)
        ∷ lines)

abbrev pub request_line : Bytes → Bytes → ℕ → Line
request_line node_id op v =
    sample (codes "lethe_requests_total" ++ labelled node_id op) (to_string v)

abbrev pub tier_line : Bytes → Bytes → ℕ → Line
tier_line node_id labels v =
    sample (codes "lethe_tier_bytes" ++ labelled node_id labels) (show_signed v)

module _ (latency_bounds recovery_bounds : List Bytes) (show_sum : ℕ → Bytes)
    (node_id : Bytes) where
  abbrev pub requests : Series → List Line → List Line
  requests s lines =
      headed (codes "lethe_requests_total") (codes "Cache requests by op and result")
        (codes "counter")
        (request_line node_id (codes ",op=\"lookup\",result=\"hit\"}") s.req_lookup_hit
          ∷ request_line node_id (codes ",op=\"lookup\",result=\"miss\"}") s.req_lookup_miss
          ∷ request_line node_id (codes ",op=\"insert\",result=\"ok\"}") s.req_insert_ok
          ∷ request_line node_id (codes ",op=\"stream\",result=\"ok\"}") s.req_stream_ok
          ∷ lines)

  abbrev pub latency : Bytes → Histogram → List Line → List Line
  latency op h lines =
      render_histogram show_sum latency_bounds (codes "lethe_op_latency_seconds") node_id op h lines

  abbrev pub latencies : Series → List Line → List Line
  latencies s lines =
      headed (codes "lethe_op_latency_seconds") (codes "Operation latency seconds")
        (codes "histogram")
        (latency (codes ",op=\"lookup\"") s.lat_lookup (
          latency (codes ",op=\"insert\"") s.lat_insert
            (latency (codes ",op=\"stream\"") s.lat_stream lines)))

  abbrev pub tiers : Series → List Line → List Line
  tiers s lines =
      headed (codes "lethe_tier_bytes") (codes "Tier byte usage and capacity") (codes "gauge") (
        tier_line node_id (codes ",tier=\"hbm\",state=\"used\"}") (s.tier_used 0)
        ∷ tier_line node_id (codes ",tier=\"hbm\",state=\"capacity\"}") (s.tier_capacity 0)
        ∷ tier_line node_id (codes ",tier=\"dram\",state=\"used\"}") (s.tier_used 1)
        ∷ tier_line node_id (codes ",tier=\"dram\",state=\"capacity\"}") (s.tier_capacity 1)
        ∷ tier_line node_id (codes ",tier=\"ssd\",state=\"used\"}") (s.tier_used 2)
        ∷ tier_line node_id (codes ",tier=\"ssd\",state=\"capacity\"}") (s.tier_capacity 2)
        ∷ lines)

  abbrev pub totals : Series → List Line → List Line
  totals s lines =
      render_gauge (codes "lethe_cluster_epoch") (codes "Cluster membership epoch") node_id
        s.cluster_epoch
        (render_gauge (codes "lethe_replicas_under_target")
          (codes "Blocks currently below replication target") node_id s.replicas_under_target
          (render_counter (codes "lethe_stream_bytes_total")
            (codes "Total bytes transferred via the KV transport") node_id s.stream_bytes_total
            (render_counter (codes "lethe_eviction_blocks_total") (codes "Blocks evicted") node_id
              s.eviction_blocks_total
              (render_counter (codes "lethe_eviction_bytes_freed_total")
                (codes "Bytes freed by eviction") node_id s.eviction_bytes_freed_total lines))))

  abbrev pub recovery : Series → List Line
  recovery s =
      headed (codes "lethe_failover_recovery_seconds") (codes "Failover recovery seconds")
        (codes "histogram")
        (render_histogram show_sum recovery_bounds (codes "lethe_failover_recovery_seconds") node_id
          [] s.failover_recovery [])

  unfoldable pub render : Series → List Line
  unfolding bucket_lines rendered show_signed to_string
  render s = requests s (latencies s (tiers s (totals s (recovery s))))
