-- ===== src/Ibverbs/Connections/Runs.antt =====
-- Teardowns keep the connections sound, and so does any run of events.
use mathlib.Core.List.{lookup}
use lethe.Base.{
  ℕ, zero, suc, ◌≡◌, refl, sym, ◌∙◌, subst, Bool, true, false, Option, none, some, List, [], ◌∷◌,
  ◌++◌, map, All, All-append, arith, Bool-cases, Option-cases, if_pos, if_neg, inl, inr,
  if◌then◌else◌,
}
use lethe.Base.Assoc.{remove, remove-IsMap, lookup-remove-none}
use lethe.Types.{Bytes, bytes_dec}
use lethe.Ibverbs.Connections.{
  Link, Dialed, dial, Transport, Event, send_begins, dial_ends, connect_request, peer_disconnected,
  disconnect, shutdown, begin_dial, dial_done, accept, stop_at, disconnect_peer, torn, links,
  shut_down, step, run,
}
use lethe.Ibverbs.Connections.Legal.{teardown-Clears, hang_up-Clears}
use lethe.Ibverbs.Connections.Sound.{OutUp, InUp, Sound, IsClean, Survives, Goes}
use lethe.Ibverbs.Connections.Dials.{
  DialedWell, begin_dial-Sound, dial-DialedWell, end_dial-Sound, accept-Sound,
}

stop_at-All : (n : ℕ) (cs : List Link) → All InUp cs → All InUp (stop_at n cs)
unfolding stop_at
stop_at-All n [] h = tt
stop_at-All zero (c ∷ cs) h = (
  record {
    accepted = h.0.accepted;
    cm_id = h.0.cm_id;
    no_channel = h.0.no_channel;
    pd = h.0.pd;
    cq = h.0.cq;
    qp = h.0.qp;
    registered = h.0.registered;
    no_send = h.0.no_send;
    polling = h.0.polling;
  },
  h.1,
)
stop_at-All (suc n) (c ∷ cs) h = (h.0, stop_at-All n cs h.1)

links-remove :
    (peer : Bytes) (cs : List (Bytes × Link))
    → All OutUp (links cs)
    → All OutUp (links (remove bytes_dec peer cs))
unfolding remove
links-remove peer [] h = tt
links-remove peer ((q, c) ∷ cs) h = elim (bytes_dec peer q) [
  | yes e ↦ rw (if_pos (bytes_dec peer q) e cs ((q, c) ∷ remove bytes_dec peer cs)) h.1
  | no e ↦
      rw (if_neg (bytes_dec peer q) e cs ((q, c) ∷ remove bytes_dec peer cs))
        (h.0, links-remove peer cs h.1)
]

link-eq : (x y : Link) → some x ≡ some y → x ≡ y
link-eq x y h = cc

links-lookup :
    (peer : Bytes) (cs : List (Bytes × Link)) (c : Link)
    → All OutUp (links cs)
    → lookup bytes_dec peer cs ≡ some c
    → OutUp c
unfolding lookup
links-lookup peer [] c h e = absurd (ground arith)
links-lookup peer ((q, d) ∷ cs) c h e = elim (bytes_dec peer q) [
  | yes here ↦
      let found = sym (if_pos (bytes_dec peer q) here (some d) (lookup bytes_dec peer cs)) ∙ e in
      subst OutUp (link-eq d c found) h.0
  | no later ↦
      links-lookup peer cs c h.1
        (sym (if_neg (bytes_dec peer q) later (some d) (lookup bytes_dec peer cs)) ∙ e)
]

disconnect_peer-Sound : (peer : Bytes) (t : Transport) → Sound t → Sound (disconnect_peer peer t)
unfolding disconnect_peer
disconnect_peer-Sound peer t s = elim (Option-cases (lookup bytes_dec peer t.outbound)) [
  | inl absent ↦ rw (disconnect_peer, absent) s
  | inr (c, e) ↦
      rw (disconnect_peer, e)
        (record {
          distinct = remove-IsMap bytes_dec peer t.outbound s.distinct;
          out_up = links-remove peer t.outbound s.out_up;
          in_up = s.in_up;
          dials_new = λ p h. lookup-remove-none bytes_dec peer p t.outbound (s.dials_new p h);
          clean = (hang_up-Clears c (links-lookup peer t.outbound c s.out_up e).no_recv, s.clean);
        })
]

torn-All : (cs : List Link) → All IsClean (map torn cs)
unfolding torn
torn-All [] = tt
torn-All (c ∷ cs) = (teardown-Clears c, torn-All cs)

pub shut_down-stopped : (t : Transport) → t.stopped ≡ true → shut_down t ≡ t
unfolding shut_down
shut_down-stopped t h = simp h refl

pub shut_down-Sound : (t : Transport) → Sound t → Sound (shut_down t)
unfolding shut_down lookup
shut_down-Sound t s = elim (Bool-cases t.stopped) [
  | inl stopped ↦ subst Sound (sym (shut_down-stopped t stopped)) s
  | inr running ↦
      rw (shut_down, running)
        (record {
          distinct = tt;
          out_up = tt;
          in_up = tt;
          dials_new = λ p h. refl;
          clean =
              All-append IsClean (map torn (links t.outbound) ++ map torn t.inbound) t.taken_down
                (All-append IsClean (map torn (links t.outbound)) (map torn t.inbound)
                  (torn-All (links t.outbound)) (torn-All t.inbound))
                s.clean;
        })
]

stopped-in-Sound :
    (t : Transport) (n : ℕ) → Sound t → Sound (record t { inbound = stop_at n t.inbound })
stopped-in-Sound t n s = record {
  distinct = s.distinct;
  out_up = s.out_up;
  in_up = stop_at-All n t.inbound s.in_up;
  dials_new = s.dials_new;
  clean = s.clean;
}

if-Sound : (b : Bool) (t u : Transport) → Sound t → Sound u → Sound (if b then t else u)
if-Sound true t u h k = h
if-Sound false t u h k = k

if-Goes : (b : Bool) (o p : Option Transport) → Goes o → Goes p → Goes (if b then o else p)
if-Goes true o p h k = h
if-Goes false o p h k = k

dial_done-Goes :
    (o : Option Bytes) (r : Dialed) (t : Transport)
    → t.dialing ≡ o
    → DialedWell r
    → Sound t
    → Goes (dial_done o r t)
unfolding dial_done
dial_done-Goes none r t h w s = (t, refl, s)
dial_done-Goes (some peer) r t h w s = end_dial-Sound r peer t w h s

step-Goes : (e : Event) (t : Transport) → Survives e → Sound t → Goes (step e t)
unfolding step
step-Goes (send_begins peer) t v s = (begin_dial peer t, refl, begin_dial-Sound peer t s)
step-Goes (dial_ends d) t v s = dial_done-Goes t.dialing (dial d) t refl (dial-DialedWell d v) s
step-Goes (connect_request q bufs) t v s =
    if-Goes t.stopped (some t) (accept q bufs t) (t, refl, s) (accept-Sound q bufs t v s)
step-Goes (peer_disconnected n) t v s = (
  if t.stopped then t else record t { inbound = stop_at n t.inbound },
  refl,
  if-Sound t.stopped t (record t { inbound = stop_at n t.inbound }) s (stopped-in-Sound t n s),
)
step-Goes (disconnect peer) t v s = (disconnect_peer peer t, refl, disconnect_peer-Sound peer t s)
step-Goes shutdown t v s = (shut_down t, refl, shut_down-Sound t s)

-- Any sequence of dials, connection requests, disconnects and shutdowns, in which each dial that
-- gets its queue pair is established and the buffers of each accepted connection are registered,
-- leaves the process running, from a sound transport: there is one connection to a peer at most,
-- each connection has its rdma_cm_id, its verbs objects and its poller, and a dialed one its event
-- channel, a peer that is being dialed has no connection, and the calls that took a connection down
-- kept the rules of the verbs and left exactly its rdma_cm_id and, if it had one, its event
-- channel, which no call destroys.
pub run-Sound : (es : List Event) (t : Transport) → All Survives es → Sound t → Goes (run es t)
unfolding run
run-Sound [] t v s = (t, refl, s)
run-Sound (e ∷ es) t v s =
    let r = step-Goes e t v.0 s in
    let rest = run-Sound es r.0 v.1 r.2 in (rest.0, rw (run, r.1) rest.1, rest.2)
