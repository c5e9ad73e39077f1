-- ===== src/Tests/Links.antt =====
-- Endpoints, connections, fetches and the metrics at concrete values.
use mathlib.Core.List.{lookup}
use lethe.Base.{◌≡◌, refl, true, false, some, List, [], ◌∷◌, arith, leb}
use lethe.Types.{Bytes, bytes_dec, BlockId, KvBlock, dram}
use lethe.Base.Assoc.{lookup-cons_self}
use lethe.Replicator.Fetch.{Reply, threw, replied, fetch_from_any}
use lethe.Replicator.Fetched.{Giver, fetch_from_any_lem}
use lethe.Ibverbs.Endpoints.{Endpoint, parse_peer_env}
use lethe.Ibverbs.Endpoints.Listed.{peer_env, latest, parse_peer_env-peer_env}
use lethe.Ibverbs.Connections.{
  Link, QpCalls, DialCalls, Transport, Event, send_begins, dial_ends, connect_request,
  peer_disconnected, disconnect, shutdown, new_transport, run, shut_down, resolved, make_qp,
  new_link,
}
use lethe.Ibverbs.Connections.Sound.{OutUp, Sound, Goes, new-Sound}
use lethe.Ibverbs.Connections.Runs.{run-Sound}
use lethe.Ibverbs.Connections.Ends.{AllReleased, shut_down-AllReleased, redial_lem}
use lethe.Base.{◌+◌, ◌^◌}
use lethe.Base.Text.{codes, lacks-Lacks}
use lethe.Router.{to_string}
use lethe.Metrics.{Series, new_histogram}
use lethe.Metrics.Exposition.{newline, print_lines, render}
use lethe.Metrics.Exposition.Scraped.{scrape, to_string-IsValue}
use lethe.Metrics.Exposition.Table.{table}
use lethe.Metrics.Exposition.Answered.{scrape-render}
use lethe.Base.{length}
use lethe.Types.{replication_push}
use lethe.Service
use lethe.GrpcStream.{push_request}
use lethe.Ibverbs.Message.{header_bytes}
use lethe.Ibverbs.Message.Stale.{arrived}
use lethe.Ibverbs.Landing.{send_block, receive, receive-insert}
use lethe.Tests.Caches.{cache_a}
use lethe.Tests.Data.{payload}
use lethe.Tests.Running.{block_7}

abbrev kv_7 : KvBlock
kv_7 = record { id = block_7; bytes = payload; tier = dram; inserted_epoch = 0 }

-- The first byte of a peer's name says what its fetch comes to.
abbrev replies : Bytes → BlockId → Reply
replies [] id = threw
replies (x ∷ xs) id = replied (some kv_7)

fetch_from_any_lem_example :
    (c : KvBlock) × (fetch_from_any (some replies) (λ r i. leb 3 r) 10 block_7 ([] ∷ (1 ∷ []) ∷ [])
      ≡ some c)
    × Giver replies block_7 ([] ∷ (1 ∷ []) ∷ []) c
fetch_from_any_lem_example =
    fetch_from_any_lem replies (λ r i. leb 3 r) 10 3 block_7 ([] ∷ (1 ∷ []) ∷ []) 1 (1 ∷ []) kv_7
      refl refl refl (omega arith)

abbrev endpoints : List (Bytes × Endpoint)
endpoints =
    (97 ∷ [], record { ip = 49 ∷ 58 ∷ 50 ∷ []; port = 18515 })
    ∷ (98 ∷ [], record { ip = 51 ∷ []; port = 7 })
    ∷ []

parse_peer_env-peer_env_example :
    (out : List (Bytes × Endpoint)) × (parse_peer_env (some (peer_env endpoints)) ≡ some out)
    × ((id : Bytes) → lookup bytes_dec id out ≡ latest id endpoints)
parse_peer_env-peer_env_example = parse_peer_env-peer_env endpoints (
  (ground arith, ground arith, ground arith, omega arith),
  ((ground arith, ground arith, ground arith, omega arith), tt),
)

abbrev qp_works : QpCalls
qp_works = record { alloc_pd = true; create_cq = true; create_qp = true }

abbrev dial_works : DialCalls
dial_works = record {
  create_channel = true;
  create_id = true;
  resolve_addr = true;
  addr_resolved = true;
  resolve_route = true;
  route_resolved = true;
  qp_calls = qp_works;
  registered = true ∷ true ∷ [];
  connect = true;
  established = true;
}

abbrev links_day : List Event
links_day =
    send_begins (97 ∷ [])
    ∷ connect_request qp_works (true ∷ true ∷ [])
    ∷ dial_ends dial_works
    ∷ peer_disconnected 0
    ∷ disconnect (97 ∷ [])
    ∷ send_begins (98 ∷ [])
    ∷ dial_ends dial_works
    ∷ []

run-Sound_example : Goes (run links_day (new_transport endpoints))
run-Sound_example =
    run-Sound links_day (new_transport endpoints)
      (tt, ((λ h. refl), ((λ h k. refl), (tt, (tt, (tt, ((λ h k. refl), tt)))))))
      (new-Sound endpoints)

dial_resolved : resolved dial_works ≡ true
unfolding resolved
dial_resolved = refl

qp_made : (make_qp qp_works (new_link false)).1 ≡ true
unfolding make_qp
qp_made = refl

-- A transport with a connection each way.
abbrev out_link : Link
out_link = record {
  inbound = false;
  cm_id = true;
  channel = true;
  pd = true;
  cq = true;
  qp = true;
  recv_bufs = [];
  send_bufs = true ∷ false ∷ [];
  polling = true;
  stop = false;
}

abbrev in_link : Link
in_link = record {
  inbound = true;
  cm_id = true;
  channel = false;
  pd = true;
  cq = true;
  qp = true;
  recv_bufs = true ∷ true ∷ [];
  send_bufs = [];
  polling = true;
  stop = true;
}

abbrev linked : Transport
linked = record (new_transport endpoints) {
  outbound = (97 ∷ [], out_link) ∷ [];
  inbound = in_link ∷ [];
}

linked-Sound : Sound linked
unfolding lookup
linked-Sound = record {
  distinct = (refl, tt);
  out_up = (
    record {
      dialed = refl;
      cm_id = refl;
      channel = refl;
      pd = refl;
      cq = refl;
      qp = refl;
      no_recv = refl;
      polling = refl;
    },
    tt,
  );
  in_up = (
    record {
      accepted = refl;
      cm_id = refl;
      no_channel = refl;
      pd = refl;
      cq = refl;
      qp = refl;
      registered = refl;
      no_send = refl;
      polling = refl;
    },
    tt,
  );
  dials_new = λ p e. absurd (ground arith);
  clean = tt;
}

shut_down-AllReleased_example : AllReleased linked (shut_down linked)
shut_down-AllReleased_example = shut_down-AllReleased linked linked-Sound refl

redial_lem_example :
    (t : Transport) × (c : Link) × (run
        (shutdown ∷ send_begins (97 ∷ []) ∷ dial_ends dial_works ∷ shutdown ∷ [])
        linked
      ≡ some t)
    × (t.stopped ≡ true)
    × (t.outbound ≡ (97 ∷ [], c) ∷ [])
    × OutUp c
redial_lem_example =
    redial_lem (97 ∷ []) (record { ip = 49 ∷ 58 ∷ 50 ∷ []; port = 18515 }) dial_works linked refl
      refl
      (lookup-cons_self bytes_dec (97 ∷ []) (record { ip = 49 ∷ 58 ∷ 50 ∷ []; port = 18515 })
        ((98 ∷ [], record { ip = 51 ∷ []; port = 7 }) ∷ []))
      dial_resolved qp_made refl

-- The text of a new server's metrics.
abbrev no_series : Series
no_series = record {
  req_lookup_hit = 3;
  req_lookup_miss = 0;
  req_insert_ok = 12;
  req_stream_ok = 0;
  stream_bytes_total = 0;
  eviction_blocks_total = 0;
  eviction_bytes_freed_total = 0;
  cluster_epoch = 1;
  tier_used = λ i. i;
  tier_capacity = λ i. 2 ^ 63 + i;
  replicas_under_target = 0;
  lat_lookup = new_histogram;
  lat_insert = new_histogram;
  lat_stream = new_histogram;
  failover_recovery = new_histogram;
}

scrape-render_example :
    scrape (
      print_lines
        (render (codes "0.5" ∷ codes "1" ∷ []) (codes "8" ∷ []) to_string (codes "a") no_series))
    ≡ table (codes "0.5" ∷ codes "1" ∷ []) (codes "8" ∷ []) to_string (codes "a") no_series
scrape-render_example =
    scrape-render (codes "0.5" ∷ codes "1" ∷ []) (codes "8" ∷ []) to_string (codes "a")
      (lacks-Lacks newline (codes "a") refl)
      (lacks-Lacks newline (codes "0.5") refl, (lacks-Lacks newline (codes "1") refl, tt))
      (lacks-Lacks newline (codes "8") refl, tt) to_string-IsValue no_series

receive-insert_example :
    (sent : Bytes) × (send_block 1000 replication_push block_7 payload [] ≡ some sent)
    × (receive (arrived sent (5 ∷ [])) (header_bytes + length payload) cache_a
        ≡ (Service.insert (push_request block_7 payload) cache_a).0)
receive-insert_example =
    receive-insert 1000 replication_push block_7 payload refl (omega arith) (omega arith)
      (omega arith) (omega arith) (omega arith) [] (5 ∷ []) cache_a
