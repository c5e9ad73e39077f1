-- ===== src/Ibverbs/Connections.antt =====
-- The connections of cache_server/src/ibverbs_transport.cpp: the lazy dial of a peer, the accepted
-- queue pairs, and their teardown. What each call of rdma_cm and ibverbs answers is part of the
-- event that makes the call. A teardown is the list of the calls that it makes.
pub mod Legal
pub mod Sound
pub mod Dials
pub mod Runs
pub mod Ends
use mathlib.Core.List.{lookup}
use lethe.Base.Assoc.{remove}
use lethe.Base.{
  ℕ, zero, suc, Bool, true, false, Option, none, some, List, [], ◌∷◌, ◌++◌, map, if◌then◌else◌,
  ◌&&◌, not, get_or, set,
}
use lethe.Types.{Bytes, bytes_dec}
use lethe.Ibverbs.Endpoints.{Endpoint}

-- A `Conn` with its rdma_cm_id and its verbs objects, and the event channel that `Dial` made for
-- it. A buffer is there with or without its memory region.
pub record Link : Type 0 where
  pub inbound : Bool
  pub cm_id : Bool
  pub channel : Bool
  pub pd : Bool
  pub cq : Bool
  pub qp : Bool
  pub recv_bufs : List Bool
  pub send_bufs : List Bool
  pub polling : Bool
  pub stop : Bool

-- A connection before `MakeQp`: its rdma_cm_id is that of the request, or `Dial` made it with a
-- channel of its own.
abbrev pub new_link : Bool → Link
new_link inbound = record {
  inbound = inbound;
  cm_id = true;
  channel = not inbound;
  pd = false;
  cq = false;
  qp = false;
  recv_bufs = [];
  send_bufs = [];
  polling = false;
  stop = false;
}

-- Whether the three calls of `MakeQp` work.
pub record QpCalls : Type 0 where
  pub alloc_pd : Bool
  pub create_cq : Bool
  pub create_qp : Bool

unfoldable pub make_qp : QpCalls → Link → Link × Bool
make_qp calls c =
    if not calls.alloc_pd
    then (c, false)
    else if not calls.create_cq
    then (record c { pd = true }, false)
    else if not calls.create_qp
    then (record c { pd = true; cq = true }, false)
    else (record c { pd = true; cq = true; qp = true }, true)

-- What the calls of `Dial` answer, in their order; an event that is awaited is there or not.
pub record DialCalls : Type 0 where
  pub create_channel : Bool
  pub create_id : Bool
  pub resolve_addr : Bool
  pub addr_resolved : Bool
  pub resolve_route : Bool
  pub route_resolved : Bool
  pub qp_calls : QpCalls
  pub registered : List Bool
  pub connect : Bool
  pub established : Bool

-- `Dial` gives no connection, and what was made of one is left; or it destroys a `Conn`
-- whose poller runs, which ends the process; or it gives the connection.
pub data Dialed : Type 0 where
  refused : Link → Dialed
  terminated : Dialed
  connected : Link → Dialed

-- The calls before `MakeQp`.
unfoldable pub resolved : DialCalls → Bool
resolved d =
    d.create_channel && d.create_id && d.resolve_addr && d.addr_resolved && d.resolve_route
    && d.route_resolved

-- What `Dial` leaves where it has no channel or no rdma_cm_id: it destroys a channel without one.
abbrev pub no_link : Link
no_link = record (new_link false) { cm_id = false; channel = false }

-- What `SetupOutbound` makes of a link: the send buffers and the poller.
abbrev pub with_send_buffers : List Bool → Link → Link
with_send_buffers registered c = record c { send_bufs = registered; polling = true }

unfoldable pub dial : DialCalls → Dialed
unfolding make_qp resolved
dial d =
    let made = make_qp d.qp_calls (new_link false) in
    if not (resolved d)
    then refused (if d.create_channel && d.create_id then new_link false else no_link)
    else if not made.1
    then refused made.0
    else if d.connect && d.established
    then connected (with_send_buffers d.registered made.0)
    else terminated

-- The calls that release what a connection has.
pub data Call : Type 0 where
  join_poller destroy_qp destroy_cq dealloc_pd destroy_id destroy_channel : Call
  dereg_recv dereg_send : ℕ → Call

abbrev pub call_if : Bool → Call → List Call → List Call
call_if true call calls = call ∷ calls
call_if false call calls = calls

-- `if (b.mr) ibv_dereg_mr(b.mr)` for each buffer from the i-th on.
unfoldable pub dereg_bufs : (ℕ → Call) → ℕ → List Bool → List Call
dereg_bufs dereg i [] = []
dereg_bufs dereg i (mr ∷ mrs) = call_if mr (dereg i) (dereg_bufs dereg (suc i) mrs)

-- The lambda `teardown` of `Shutdown`.
unfoldable pub teardown : Link → List Call
unfolding dereg_bufs
teardown c =
    call_if c.polling join_poller []
    ++ (call_if c.qp destroy_qp []
        ++ (dereg_bufs dereg_recv 0 c.recv_bufs
            ++ (dereg_bufs dereg_send 0 c.send_bufs
                ++ (call_if c.cq destroy_cq [] ++ call_if c.pd dealloc_pd []))))

-- The calls of `Disconnect`.
unfoldable pub hang_up : Link → List Call
unfolding dereg_bufs
hang_up c =
    call_if c.polling join_poller []
    ++ (call_if c.qp destroy_qp []
        ++ (dereg_bufs dereg_send 0 c.send_bufs
            ++ (call_if c.cq destroy_cq [] ++ call_if c.pd dealloc_pd [])))

-- A connection that was taken down, with the calls that did it.
pub record Release : Type 0 where
  pub link : Link
  pub calls : List Call

-- The connections of the `Impl`. `dialing` is the peer for which a thread holds `dial_mu`; the last
-- two fields record what became of the other connections.
pub record Transport : Type 0 where
  pub peers : List (Bytes × Endpoint)
  pub outbound : List (Bytes × Link)
  pub inbound : List Link
  pub dialing : Option Bytes
  pub stopped : Bool
  pub taken_down : List Release
  pub left_over : List Link

-- A thread comes to the `Dial` of `EnsureOutbound`, or leaves it; a peer asks for a connection or
-- ends one; the transport's own calls.
pub data Event : Type 0 where
  send_begins : Bytes → Event
  dial_ends : DialCalls → Event
  connect_request : QpCalls → List Bool → Event
  peer_disconnected : ℕ → Event
  disconnect : Bytes → Event
  shutdown : Event

abbrev pub new_transport : List (Bytes × Endpoint) → Transport
new_transport peers = record {
  peers = peers;
  outbound = [];
  inbound = [];
  dialing = none;
  stopped = false;
  taken_down = [];
  left_over = [];
}

-- `EnsureOutbound` up to `Dial`, which it comes to if no other thread dials, there is no connection
-- to the peer, and the endpoint is known.
abbrev pub dial_for : Option Bytes → Option Link → Option Endpoint → Bytes → Transport → Transport
dial_for none none (some endpoint) peer t = record t { dialing = some peer }
dial_for none none none peer t = t
dial_for none (some c) endpoint peer t = t
dial_for (some other) c endpoint peer t = t

unfoldable pub begin_dial : Bytes → Transport → Transport
begin_dial peer t =
    dial_for t.dialing (lookup bytes_dec peer t.outbound) (lookup bytes_dec peer t.peers) peer t

-- The rest of `EnsureOutbound`. `emplace` keeps an entry that is there, and the new connection is
-- then destroyed with its poller.
unfoldable pub end_dial : Dialed → Bytes → Transport → Option Transport
end_dial (refused c) peer t = some (record t { dialing = none; left_over = c ∷ t.left_over })
end_dial terminated peer t = none
end_dial (connected c) peer t = elim (lookup bytes_dec peer t.outbound) [
  | some other ↦ none
  | none ↦ some (record t { dialing = none; outbound = (peer, c) ∷ t.outbound })
]

abbrev pub all_true : List Bool → Bool
all_true [] = true
all_true (b ∷ bs) = b && all_true bs

-- A connection request in `ListenLoop`. `PostRecv` reads through the memory region of the buffer,
-- which is a null pointer if its registration failed.
unfoldable pub accept : QpCalls → List Bool → Transport → Option Transport
unfolding make_qp
accept calls registered t =
    let made = make_qp calls (new_link true) in
    if not made.1
    then some (record t { left_over = made.0 ∷ t.left_over })
    else if not (all_true registered)
    then none
    else some (record t {
      inbound = t.inbound ++ (record made.0 { recv_bufs = registered; polling = true } ∷ []);
    })

unfoldable pub stop_at : ℕ → List Link → List Link
stop_at n [] = []
stop_at zero (c ∷ cs) = record c { stop = true } ∷ cs
stop_at (suc n) (c ∷ cs) = c ∷ stop_at n cs

unfoldable pub disconnect_peer : Bytes → Transport → Transport
unfolding hang_up
disconnect_peer peer t = elim (lookup bytes_dec peer t.outbound) [
  | none ↦ t
  | some c ↦ record t {
    outbound = remove bytes_dec peer t.outbound;
    taken_down = record { link = c; calls = hang_up c } ∷ t.taken_down;
  }
]

unfoldable pub torn : Link → Release
unfolding teardown
torn c = record { link = c; calls = teardown c }

abbrev pub links : List (Bytes × Link) → List Link
links [] = []
links ((peer, c) ∷ cs) = c ∷ links cs

unfoldable pub shut_down : Transport → Transport
unfolding torn
shut_down t = if t.stopped then t else record t {
  stopped = true;
  outbound = [];
  inbound = [];
  taken_down = (map torn (links t.outbound) ++ map torn t.inbound) ++ t.taken_down;
}

-- The end of a dial, if there is one.
unfoldable pub dial_done : Option Bytes → Dialed → Transport → Option Transport
unfolding end_dial
dial_done none r t = some t
dial_done (some peer) r t = end_dial r peer t

-- One event; `none` is the end of the process. The thread of `ListenLoop` ends at the shutdown.
unfoldable pub step : Event → Transport → Option Transport
unfolding begin_dial dial_done dial accept stop_at disconnect_peer shut_down
step (send_begins peer) t = some (begin_dial peer t)
step (dial_ends calls) t = dial_done t.dialing (dial calls) t
step (connect_request calls registered) t = if t.stopped then some t else accept calls registered t
step (peer_disconnected n) t =
    some (if t.stopped then t else record t { inbound = stop_at n t.inbound })
step (disconnect peer) t = some (disconnect_peer peer t)
step shutdown t = some (shut_down t)

unfoldable pub run : List Event → Transport → Option Transport
unfolding step
run [] t = some t
run (e ∷ es) t = elim (step e t) [ none ↦ none | some t' ↦ run es t' ]
