-- ===== src/Ibverbs/Connections/Sound.antt =====
-- What holds of the connections while dials, requests and disconnects interleave.
use mathlib.Core.List.{lookup}
use lethe.Base.{◌≡◌, refl, true, false, Option, none, some, List, [], All, ◌&&◌}
use lethe.Base.Assoc.{IsMap}
use lethe.Types.{Bytes, bytes_dec}
use lethe.Ibverbs.Connections.{
  Link, new_transport, new_link, make_qp, resolved, Release, Transport, Event, send_begins,
  dial_ends, connect_request, peer_disconnected, disconnect, shutdown, all_true, links,
}
use lethe.Ibverbs.Endpoints.{Endpoint}
use lethe.Ibverbs.Connections.Legal.{Clears}

-- A dialed connection and an accepted one, with all their objects.
pub record OutUp (c : Link) : Type 0 where
  pub dialed : c.inbound ≡ false
  pub cm_id : c.cm_id ≡ true
  pub channel : c.channel ≡ true
  pub pd : c.pd ≡ true
  pub cq : c.cq ≡ true
  pub qp : c.qp ≡ true
  pub no_recv : c.recv_bufs ≡ []
  pub polling : c.polling ≡ true

pub record InUp (c : Link) : Type 0 where
  pub accepted : c.inbound ≡ true
  pub cm_id : c.cm_id ≡ true
  pub no_channel : c.channel ≡ false
  pub pd : c.pd ≡ true
  pub cq : c.cq ≡ true
  pub qp : c.qp ≡ true
  pub registered : all_true c.recv_bufs ≡ true
  pub no_send : c.send_bufs ≡ []
  pub polling : c.polling ≡ true

-- A release whose calls may be made in their order and leave only the rdma_cm_id and the channel.
abbrev pub IsClean : Release → Type 0
IsClean r = Clears r.calls r.link

pub record Sound (t : Transport) : Type 0 where
  pub distinct : IsMap bytes_dec t.outbound
  pub out_up : All OutUp (links t.outbound)
  pub in_up : All InUp t.inbound
  pub dials_new : (peer : Bytes) → t.dialing ≡ some peer → lookup bytes_dec peer t.outbound ≡ none
  pub clean : All IsClean t.taken_down

-- The events that do not end the process: a dial whose queue pair is made is established, and the
-- buffers of an accepted connection are registered.
abbrev pub Survives : Event → Type 0
Survives (dial_ends d) =
    resolved d ≡ true
    → (make_qp d.qp_calls (new_link false)).1 ≡ true
    → (d.connect && d.established) ≡ true
Survives (connect_request calls registered) =
    (make_qp calls (new_link true)).1 ≡ true → all_true registered ≡ true
Survives (send_begins peer) = Unit
Survives (peer_disconnected n) = Unit
Survives (disconnect peer) = Unit
Survives shutdown = Unit

abbrev pub Goes : Option Transport → Type 0
Goes o = (t : Transport) × (o ≡ some t) × Sound t

pub some-eq : (x y : Bytes) → some x ≡ some y → x ≡ y
some-eq x y h = cc

pub new-Sound : (peers : List (Bytes × Endpoint)) → Sound (new_transport peers)
unfolding lookup
new-Sound peers = record {
  distinct = tt;
  out_up = tt;
  in_up = tt;
  dials_new = λ p e. refl;
  clean = tt;
}
