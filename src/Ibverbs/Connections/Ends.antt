-- ===== src/Ibverbs/Connections/Ends.antt =====
-- What `Shutdown` leaves, and what a `Send` after it makes.
use mathlib.Core.List.{lookup}
use lethe.Base.{
  ◌≡◌, refl, sym, ap, ◌∙◌, subst, true, false, none, some, List, [], ◌∷◌, ◌++◌, map, All, ◌&&◌,
}
use lethe.Types.{Bytes, bytes_dec}
use lethe.Ibverbs.Endpoints.{Endpoint}
use lethe.Ibverbs.Connections.{
  Link, new_link, make_qp, DialCalls, resolved, dial, connected, with_send_buffers, Release,
  Transport, Event, send_begins, dial_ends, shutdown, begin_dial, dial_for, dial_done, end_dial,
  torn, links, shut_down, step, run,
}
use lethe.Ibverbs.Connections.Sound.{OutUp, Sound, IsClean}
use lethe.Ibverbs.Connections.Dials.{make_qp-out}
use lethe.Ibverbs.Connections.Runs.{shut_down-stopped, shut_down-Sound}

abbrev pub released_links : List Release → List Link
released_links [] = []
released_links (r ∷ rs) = r.link ∷ released_links rs

released_links-append :
    (rs ss : List Release) → released_links (rs ++ ss) ≡ released_links rs ++ released_links ss
released_links-append [] ss = refl
released_links-append (r ∷ rs) ss = ap (λ l. r.link ∷ l) (released_links-append rs ss)

ap2-append : {a b c d : List Link} → a ≡ b → c ≡ d → a ++ c ≡ b ++ d
ap2-append p q = λ i. p i ++ q i

released_links-torn : (cs : List Link) → released_links (map torn cs) ≡ cs
unfolding torn
released_links-torn [] = refl
released_links-torn (c ∷ cs) = ap (λ l. c ∷ l) (released_links-torn cs)

-- Every connection was released, each by calls that may be made and leave only its rdma_cm_id and
-- its event channel.
pub record AllReleased (before after : Transport) : Type 0 where
  pub no_out : after.outbound ≡ []
  pub no_in : after.inbound ≡ []
  pub each :
      released_links after.taken_down
      ≡ (links before.outbound ++ before.inbound) ++ released_links before.taken_down
  pub clean : All IsClean after.taken_down

closed : Transport → Transport
closed t = record t {
  stopped = true;
  outbound = [];
  inbound = [];
  taken_down = (map torn (links t.outbound) ++ map torn t.inbound) ++ t.taken_down;
}

shut_down-running : (t : Transport) → t.stopped ≡ false → shut_down t ≡ closed t
unfolding shut_down closed
shut_down-running t h = simp h refl

closed-links :
    (t : Transport)
    → released_links (closed t).taken_down
      ≡ (links t.outbound ++ t.inbound) ++ released_links t.taken_down
unfolding closed
closed-links t =
    released_links-append (map torn (links t.outbound) ++ map torn t.inbound) t.taken_down
    ∙ ap (λ l. l ++ released_links t.taken_down)
        (released_links-append (map torn (links t.outbound)) (map torn t.inbound)
          ∙ ap2-append (released_links-torn (links t.outbound)) (released_links-torn t.inbound))

-- `Shutdown` of a sound transport that was not shut down takes down each of its connections, and no
-- other, by calls that release each verbs object and the thread once, in an order that the rules of
-- the verbs allow; they leave the rdma_cm_id and the event channel of the connection as they were,
-- and nothing else.
pub shut_down-AllReleased :
    (t : Transport) → Sound t → t.stopped ≡ false → AllReleased t (shut_down t)
unfolding closed
shut_down-AllReleased t s h =
    let same = shut_down-running t h in
    subst (AllReleased t) (sym same) (record {
      no_out = refl;
      no_in = refl;
      each = closed-links t;
      clean = (subst Sound same (shut_down-Sound t s)).clean;
    })

run-next :
    (e : Event) (es : List Event) (t u : Transport) → step e t ≡ some u → run (e ∷ es) t ≡ run es u
unfolding run
run-next e es t u h = rw (run, h) refl

begin_dial-known :
    (peer : Bytes) (e : Endpoint) (t : Transport)
    → t.dialing ≡ none
    → lookup bytes_dec peer t.outbound ≡ none
    → lookup bytes_dec peer t.peers ≡ some e
    → begin_dial peer t ≡ record t { dialing = some peer }
unfolding begin_dial
begin_dial-known peer e t idle new known = λ i. dial_for (idle i) (new i) (known i) peer t

dial-connected :
    (d : DialCalls)
    → resolved d ≡ true
    → (make_qp d.qp_calls (new_link false)).1 ≡ true
    → (d.connect && d.established) ≡ true
    → dial d ≡ connected (with_send_buffers d.registered (make_qp d.qp_calls (new_link false)).0)
unfolding dial
dial-connected d found made up = rw (found, made, up) refl

-- A `Send` to a peer with a known endpoint after the `Shutdown` of the transport, from which no
-- other thread dials, makes a new connection if its calls work, with all its objects and a running
-- poller; a second `Shutdown` leaves it there.
pub redial_lem :
    (peer : Bytes) (e : Endpoint) (d : DialCalls) (t : Transport)
    → t.stopped ≡ false
    → t.dialing ≡ none
    → lookup bytes_dec peer t.peers ≡ some e
    → resolved d ≡ true
    → (make_qp d.qp_calls (new_link false)).1 ≡ true
    → (d.connect && d.established) ≡ true
    → (t' : Transport) × (c : Link) × (run
          (shutdown ∷ send_begins peer ∷ dial_ends d ∷ shutdown ∷ [])
          t
        ≡ some t')
      × (t'.stopped ≡ true)
      × (t'.outbound ≡ (peer, c) ∷ [])
      × OutUp c
unfolding run step dial_done end_dial closed lookup
redial_lem peer e d t h idle known found made up =
    let c = with_send_buffers d.registered (make_qp d.qp_calls (new_link false)).0 in
    let u = record (closed t) { dialing = some peer } in
    let w = record (closed t) { dialing = none; outbound = (peer, c) ∷ [] } in
    (
      w,
      c,
      run-next shutdown (send_begins peer ∷ dial_ends d ∷ shutdown ∷ []) t (closed t)
            (ap some (shut_down-running t h))
          ∙ (run-next (send_begins peer) (dial_ends d ∷ shutdown ∷ []) (closed t) u
                (ap some (begin_dial-known peer e (closed t) idle refl known))
              ∙ (run-next (dial_ends d) (shutdown ∷ []) u w
                    (rw (dial-connected d found made up) refl)
                  ∙ run-next shutdown [] w w (ap some (shut_down-stopped w refl)))),
      refl,
      refl,
      make_qp-out d.qp_calls d.registered made,
    )
