-- ===== src/Ibverbs/Connections/Dials.antt =====
-- Dials and connection requests keep the connections sound.
use mathlib.Core.List.{lookup}
use lethe.Base.{
  ◌≡◌, refl, sym, subst, Bool, true, false, Option, none, some, List, [], ◌∷◌, ◌++◌, All-append,
  arith, Bool-cases, ◌⊎◌, inl, inr,
}
use lethe.Types.{Bytes, bytes_dec}
use lethe.Ibverbs.Connections.{
  Link, new_link, QpCalls, make_qp, DialCalls, Dialed, refused, terminated, connected, resolved,
  dial, with_send_buffers, Transport, dial_ends, connect_request, begin_dial, dial_for, end_dial,
  all_true, accept,
}
use lethe.Ibverbs.Endpoints.{Endpoint}
use lethe.Ibverbs.Connections.Sound.{OutUp, InUp, Sound, Survives, Goes, some-eq}

-- Where a dial starts, the peer has no connection.
dial_for-cases :
    (other : Option Bytes) (c : Option Link) (e : Option Endpoint) (peer : Bytes) (t : Transport)
    → (dial_for other c e peer t ≡ t)
      ⊎ ((c ≡ none) × (dial_for other c e peer t ≡ record t { dialing = some peer }))
dial_for-cases none none (some e) peer t = inr (refl, refl)
dial_for-cases none none none peer t = inl refl
dial_for-cases none (some c) e peer t = inl refl
dial_for-cases (some other) c e peer t = inl refl

begin_dial-cases :
    (peer : Bytes) (t : Transport)
    → (begin_dial peer t ≡ t)
      ⊎ ((lookup bytes_dec peer t.outbound ≡ none)
          × (begin_dial peer t ≡ record t { dialing = some peer }))
unfolding begin_dial
begin_dial-cases peer t =
    dial_for-cases t.dialing (lookup bytes_dec peer t.outbound) (lookup bytes_dec peer t.peers) peer
      t

pub begin_dial-Sound : (peer : Bytes) (t : Transport) → Sound t → Sound (begin_dial peer t)
begin_dial-Sound peer t s = elim (begin_dial-cases peer t) [
  | inl same ↦ subst Sound (sym same) s
  | inr (new, e) ↦ subst Sound (sym e) (record {
    distinct = s.distinct;
    out_up = s.out_up;
    in_up = s.in_up;
    dials_new = λ p h. subst (λ q. lookup bytes_dec q t.outbound ≡ none) (some-eq peer p h) new;
    clean = s.clean;
  })
]

pub make_qp-out :
    (q : QpCalls) (bufs : List Bool)
    → (make_qp q (new_link false)).1 ≡ true
    → OutUp (with_send_buffers bufs (make_qp q (new_link false)).0)
unfolding make_qp
make_qp-out q bufs h = ground arith

make_qp-in :
    (q : QpCalls) (bufs : List Bool)
    → (make_qp q (new_link true)).1 ≡ true
    → all_true bufs ≡ true
    → InUp (record (make_qp q (new_link true)).0 { recv_bufs = bufs; polling = true })
unfolding make_qp
make_qp-in q bufs h k = ground arith

-- A dial that survives gives no connection, or a whole one.
abbrev pub DialedWell : Dialed → Type 0
DialedWell (refused c) = Unit
DialedWell terminated = ⊥
DialedWell (connected c) = OutUp c

pub dial-DialedWell : (d : DialCalls) → Survives (dial_ends d) → DialedWell (dial d)
unfolding dial
dial-DialedWell d h = elim (Bool-cases (resolved d)) [
  | inr early ↦ rw early tt
  | inl found ↦ elim (Bool-cases (make_qp d.qp_calls (new_link false)).1) [
    | inr not_made ↦ rw (found, not_made) tt
    | inl made ↦ rw (found, made, h found made) (make_qp-out d.qp_calls d.registered made)
  ]
]

pub end_dial-Sound :
    (r : Dialed) (peer : Bytes) (t : Transport)
    → DialedWell r
    → t.dialing ≡ some peer
    → Sound t
    → Goes (end_dial r peer t)
unfolding end_dial
end_dial-Sound (refused c) peer t w h s = (
  record t { dialing = none; left_over = c ∷ t.left_over },
  refl,
  record {
    distinct = s.distinct;
    out_up = s.out_up;
    in_up = s.in_up;
    dials_new = λ p e. absurd (ground arith);
    clean = s.clean;
  },
)
end_dial-Sound terminated peer t w h s = absurd w
end_dial-Sound (connected c) peer t w h s = (
  record t { dialing = none; outbound = (peer, c) ∷ t.outbound },
  rw (end_dial, s.dials_new peer h) refl,
  record {
    distinct = (s.dials_new peer h, s.distinct);
    out_up = (w, s.out_up);
    in_up = s.in_up;
    dials_new = λ p e. absurd (ground arith);
    clean = s.clean;
  },
)

pub accept-Sound :
    (q : QpCalls) (bufs : List Bool) (t : Transport)
    → Survives (connect_request q bufs)
    → Sound t
    → Goes (accept q bufs t)
unfolding accept
accept-Sound q bufs t v s = elim (Bool-cases (make_qp q (new_link true)).1) [
  | inl made ↦ (
    record t {
      inbound =
          t.inbound
          ++ (record (make_qp q (new_link true)).0 { recv_bufs = bufs; polling = true } ∷ []);
    },
    rw (made, v made) refl,
    record {
      distinct = s.distinct;
      out_up = s.out_up;
      in_up = All-append InUp t.inbound _ s.in_up (make_qp-in q bufs made (v made), tt);
      dials_new = s.dials_new;
      clean = s.clean;
    },
  )
  | inr not_made ↦ (
    record t { left_over = (make_qp q (new_link true)).0 ∷ t.left_over },
    rw not_made refl,
    record {
      distinct = s.distinct;
      out_up = s.out_up;
      in_up = s.in_up;
      dials_new = s.dials_new;
      clean = s.clean;
    },
  )
]
