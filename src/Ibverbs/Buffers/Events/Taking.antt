-- ===== src/Ibverbs/Buffers/Events/Taking.antt =====
-- A `Send` in its loop over attempts keeps the invariant.
use mathlib.Core.List.{lookup}
use lethe.Base.Assoc.{remove, remove_absent, lookup-cons_self, lookup-cons_ne}
use lethe.Base.{
  ℕ, ◌+◌, ◌*◌, ◌%◌, ◌^◌, ◌≡◌, ◌<◌, refl, sym, ap, ◌∙◌, Option, none, some, List, [], ◌∷◌, ltb,
  ℕ_discrete, All-mono, arith, subst, Bool-cases, List-cases, Option-cases, inl, inr,
}
use lethe.Ibverbs.Buffers.{Conn, acquire, max_attempts, wr_id_of, buf_idx_of}
use lethe.Ibverbs.Buffers.Counts.{tally, tally-remove, keyed, counted_lookup, uncounted_lookup}
use lethe.Ibverbs.Buffers.Events.{Sends, try_acquire, attempt}
use lethe.Ibverbs.Buffers.Events.Invariant.{Inv, IsHeld, give_up-Inv}

-- The send that takes a buffer.
module _ (p n b : ℕ) (free : List ℕ) (s : Sends) (e : lookup ℕ_discrete p s.waiting ≡ some n)
    (at : s.conn.free_send ≡ b ∷ free) (small : s.conn.next_wr < 2 ^ 48) (v : Inv s) where
  wr : ℕ
  wr = wr_id_of s.conn.next_wr b

  taken_buffer : b < 8
  taken_buffer = ground (arith, v.buffers b, at)

  wr_lem : (wr ≡ s.conn.next_wr * 2 ^ 16 + b) × (buf_idx_of wr ≡ b)
  unfolding wr
  wr_lem = (omega (arith, taken_buffer, small), omega (arith, taken_buffer, small))

  next_small : (s.conn.next_wr + 1) % 2 ^ 64 ≡ s.conn.next_wr + 1
  next_small = omega (arith, small)

  wr_new : tally (keyed wr) s.conn.pending ≡ 0
  wr_new = v.old wr (omega (arith, wr_lem))

  acquired : Sends
  acquired = record s {
    conn = record {
      free_send = free;
      pending = (wr, p) ∷ s.conn.pending;
      next_wr = s.conn.next_wr + 1;
    };
    waiting = remove ℕ_discrete p s.waiting;
    sending = (wr, (b, p)) ∷ s.sending;
  }

  acquire_taken : acquire p s.conn ≡ (acquired.conn, some (wr, b))
  unfolding acquired wr acquire
  acquire_taken =
      rw
        (
          acquire,
          at,
          remove_absent ℕ_discrete wr s.conn.pending (uncounted_lookup wr s.conn.pending wr_new),
          next_small,
        )
        refl

  try_acquire_taken : try_acquire p n s ≡ acquired
  unfolding acquired try_acquire
  try_acquire_taken =
      rw (try_acquire, acquire_taken)
        (ap
          (λ (r : Conn × Option (ℕ × ℕ)). record s {
            conn = r.0;
            waiting = remove ℕ_discrete p s.waiting;
            sending = (wr, (b, p)) ∷ s.sending;
          })
          acquire_taken)

  IsHeld-older : (x : ℕ × (ℕ × ℕ)) → IsHeld s.conn.pending x → IsHeld ((wr, p) ∷ s.conn.pending) x
  IsHeld-older (i, (c, q)) h = (
    h.0,
    lookup-cons_ne ℕ_discrete wr i p s.conn.pending
          (λ k. ground (arith, wr_new, k, counted_lookup i s.conn.pending q h.1))
        ∙ h.1,
  )

  acquired-Inv : Inv acquired
  unfolding acquired
  acquired-Inv = record {
    buffers = λ i. ground (arith, v.buffers i, at, wr_lem);
    promises = λ q. ground (arith, v.promises q, tally-remove (keyed q) p s.waiting n e);
    requests = λ u. ground (arith, v.requests u);
    held = (
      (sym wr_lem.1, lookup-cons_self ℕ_discrete wr p s.conn.pending),
      All-mono (IsHeld s.conn.pending) (IsHeld ((wr, p) ∷ s.conn.pending)) s.sending IsHeld-older
          v.held,
    );
    once = λ u. ground (arith, v.once u, wr_new);
    old = λ u h. ground (arith, v.old u, h, wr_lem, taken_buffer);
  }

pub acquire_full : (p : ℕ) (c : Conn) → c.free_send ≡ [] → acquire p c ≡ (c, none)
unfolding acquire
acquire_full p c full = rw full refl

-- An attempt that finds no buffer is counted.
retry-Inv :
    (p n : ℕ) (s : Sends)
    → lookup ℕ_discrete p s.waiting ≡ some n
    → s.conn.free_send ≡ []
    → Inv s
    → Inv (try_acquire p n s)
unfolding try_acquire
retry-Inv p n s e full v =
    rw (try_acquire, acquire_full p s.conn full)
      (record {
        buffers = v.buffers;
        promises = λ q. ground (arith, v.promises q, tally-remove (keyed q) p s.waiting n e);
        requests = v.requests;
        held = v.held;
        once = v.once;
        old = v.old;
      })

try_acquire-Inv :
    (p n : ℕ) (s : Sends)
    → lookup ℕ_discrete p s.waiting ≡ some n
    → s.conn.next_wr < 2 ^ 48
    → Inv s
    → Inv (try_acquire p n s)
try_acquire-Inv p n s e small v = elim (List-cases s.conn.free_send) [
  | inl full ↦ retry-Inv p n s e full v
  | inr (b, free, at) ↦
      subst Inv (sym (try_acquire_taken p n b free s e at small v))
        (acquired-Inv p n b free s e at small v)
]

pub attempt-Inv : (p : ℕ) (s : Sends) → s.conn.next_wr < 2 ^ 48 → Inv s → Inv (attempt p s)
unfolding attempt
attempt-Inv p s small v = elim (Option-cases (lookup ℕ_discrete p s.waiting)) [
  | inl idle ↦ rw (attempt, idle) v
  | inr (n, e) ↦ elim (Bool-cases (ltb n max_attempts)) [
    | inl more ↦ rw (attempt, e, more) (try_acquire-Inv p n s e small v)
    | inr last ↦ rw (attempt, e, last) (give_up-Inv p n s e v)
  ]
]
