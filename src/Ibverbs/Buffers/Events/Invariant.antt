-- ===== src/Ibverbs/Buffers/Events/Invariant.antt =====
-- What holds of the sends of a connection after any sequence of events.
use mathlib.Core.List.{lookup}
use lethe.Base.Assoc.{remove, lookup-All, All-remove, lookup-remove_ne}
use lethe.Base.{
  ℕ, ◌+◌, ◌*◌, ◌^◌, ◌≡◌, ◌≤◌, refl, sym, ap, ◌∙◌, Bool, Option, none, some, List, ◌∷◌, ltb, ◌==◌,
  ℕ_discrete, All, All-mono, ◌≢◌, arith, subst, Option-cases, inl, inr,
}
use lethe.Ibverbs.Buffers.{Conn, setup_outbound, abandon, poll_completion, buf_idx_of}
use lethe.Ibverbs.Buffers.Counts.{
  tally, one_if, tally-remove, keyed, lookup_counted, counted_lookup, All-uncounted,
}
use lethe.Ibverbs.Buffers.Events.{Sends, start, reject, begin, give_up, post, fail_post, complete}

-- Weights: a buffer in the free list or in a request, a promise in a list of promises.
abbrev pub is : ℕ → ℕ → ℕ
is i j = one_if (j == i)

abbrev pub of_buffer : ℕ → ℕ × ℕ → ℕ
of_buffer i (wr_id, promise) = one_if (buf_idx_of wr_id == i)

abbrev pub of_promise : ℕ → ℕ × ℕ → ℕ
of_promise p (wr_id, promise) = one_if (promise == p)

-- The holders of a buffer, of a promise and of a request.
abbrev pub holders : ℕ → Conn → ℕ
holders i c = tally (is i) c.free_send + tally (of_buffer i) c.pending

abbrev pub places : ℕ → Sends → ℕ
places p s =
    tally (keyed p) s.waiting + tally (of_promise p) s.conn.pending + tally (keyed p) s.answers

abbrev pub works : ℕ → Sends → ℕ
works w s = tally (keyed w) s.sending + tally (keyed w) s.posted

-- A send that has a buffer holds the request of this buffer, and the promise of the request.
abbrev pub IsHeld : List (ℕ × ℕ) → ℕ × (ℕ × ℕ) → Type 0
IsHeld pending (wr_id, (buf_idx, promise)) =
    (buf_idx ≡ buf_idx_of wr_id) × (lookup ℕ_discrete wr_id pending ≡ some promise)

-- Each of the eight buffers is free or held by one pending request; each promise that was made is
-- waiting, pending or answered, and only once; a pending request is being sent or with the card,
-- and not both; the requests are distinct and older than the next.
pub record Inv (s : Sends) : Type 0 where
  pub buffers : (i : ℕ) → holders i s.conn ≡ one_if (ltb i 8)
  pub promises : (p : ℕ) → places p s ≡ one_if (ltb p s.next_promise)
  pub requests : (w : ℕ) → works w s ≡ tally (keyed w) s.conn.pending
  pub held : All (IsHeld s.conn.pending) s.sending
  pub once : (w : ℕ) → tally (keyed w) s.conn.pending ≤ 1
  pub old : (w : ℕ) → s.conn.next_wr * 2 ^ 16 ≤ w → tally (keyed w) s.conn.pending ≡ 0

pub start-Inv : Inv start
unfolding start setup_outbound
start-Inv = record {
  buffers = λ i. ground arith;
  promises = λ p. ground arith;
  requests = λ w. refl;
  held = tt;
  once = λ w. omega arith;
  old = λ w h. refl;
}

pub reject-Inv : (s : Sends) → Inv s → Inv (reject s)
unfolding reject
reject-Inv s v = record {
  buffers = v.buffers;
  promises = λ p. ground (arith, v.promises p);
  requests = v.requests;
  held = v.held;
  once = v.once;
  old = v.old;
}

pub begin-Inv : (s : Sends) → Inv s → Inv (begin s)
unfolding begin
begin-Inv s v = record {
  buffers = v.buffers;
  promises = λ p. ground (arith, v.promises p);
  requests = v.requests;
  held = v.held;
  once = v.once;
  old = v.old;
}

pub give_up-Inv :
    (p n : ℕ) (s : Sends) → lookup ℕ_discrete p s.waiting ≡ some n → Inv s → Inv (give_up p s)
unfolding give_up
give_up-Inv p n s e v = record {
  buffers = v.buffers;
  promises = λ q. ground (arith, v.promises q, tally-remove (keyed q) p s.waiting n e);
  requests = v.requests;
  held = v.held;
  once = v.once;
  old = v.old;
}

pub post_idle : (w : ℕ) (s : Sends) → lookup ℕ_discrete w s.sending ≡ none → post w s ≡ s
unfolding post
post_idle w s e = rw (post, e) refl

pub fail_post_idle : (w : ℕ) (s : Sends) → lookup ℕ_discrete w s.sending ≡ none → fail_post w s ≡ s
unfolding fail_post
fail_post_idle w s e = rw (fail_post, e) refl

pub post-Inv :
    (w b p : ℕ) (s : Sends) → lookup ℕ_discrete w s.sending ≡ some (b, p) → Inv s → Inv (post w s)
unfolding post
post-Inv w b p s e v =
    rw (post, e)
      (record {
        buffers = v.buffers;
        promises = v.promises;
        requests = λ u. ground (arith, v.requests u, tally-remove (keyed u) w s.sending (b, p) e);
        held = All-remove ℕ_discrete (IsHeld s.conn.pending) w s.sending v.held;
        once = v.once;
        old = v.old;
      })

-- The sends that hold other requests keep them when a request is dropped.
IsHeld-remove :
    (w : ℕ) (pending : List (ℕ × ℕ)) (l : List (ℕ × (ℕ × ℕ)))
    → tally (keyed w) l ≡ 0
    → All (IsHeld pending) l
    → All (IsHeld (remove ℕ_discrete w pending)) l
IsHeld-remove w pending l none_of h =
    All-mono (λ e. IsHeld pending e × (e.0 ≢ w)) (IsHeld (remove ℕ_discrete w pending)) l
      (λ (i, (b, p)) k. (k.0.0, lookup-remove_ne ℕ_discrete w i pending k.1 ∙ k.0.1))
      (All-uncounted (IsHeld pending) w l none_of h)

pub fail_post-Inv :
    (w b p : ℕ) (s : Sends)
    → lookup ℕ_discrete w s.sending ≡ some (b, p)
    → Inv s
    → Inv (fail_post w s)
unfolding fail_post abandon
fail_post-Inv w b p s e v =
    let (same, at) = lookup-All ℕ_discrete (IsHeld s.conn.pending) w s.sending v.held e in
    rw (fail_post, e)
      (record {
        buffers = λ i.
            ground (arith, v.buffers i, same, tally-remove (of_buffer i) w s.conn.pending p at);
        promises =
            λ q. ground (arith, v.promises q, tally-remove (of_promise q) w s.conn.pending p at);
        requests = λ u. ground (
          arith,
          v.requests u,
          tally-remove (keyed u) w s.conn.pending p at,
          tally-remove (keyed u) w s.sending (b, p) e,
        );
        held =
            IsHeld-remove w s.conn.pending (remove ℕ_discrete w s.sending)
              (ground (arith, v.once w, v.requests w, tally-remove (keyed w) w s.sending (b, p) e))
              (All-remove ℕ_discrete (IsHeld s.conn.pending) w s.sending v.held);
        once = λ u. omega (arith, v.once u, tally-remove (keyed u) w s.conn.pending p at);
        old = λ u h. omega (arith, v.old u h, tally-remove (keyed u) w s.conn.pending p at);
      })

poll_completion_known :
    (w p : ℕ) (c : Conn)
    → lookup ℕ_discrete w c.pending ≡ some p
    → poll_completion w c ≡ (
      record c { free_send = buf_idx_of w ∷ c.free_send; pending = remove ℕ_discrete w c.pending },
      some p,
    )
unfolding poll_completion
poll_completion_known w p c at = rw (poll_completion, at) refl

module _ (w b p : ℕ) (ok : Bool) (s : Sends) (e : lookup ℕ_discrete w s.posted ≡ some b)
    (at : lookup ℕ_discrete w s.conn.pending ≡ some p) (v : Inv s) where
  answered : Sends
  answered = record s {
    conn = record (s.conn) {
      free_send = buf_idx_of w ∷ s.conn.free_send;
      pending = remove ℕ_discrete w s.conn.pending;
    };
    posted = remove ℕ_discrete w s.posted;
    answers = (p, ok) ∷ s.answers;
  }

  complete-answered : complete w ok s ≡ answered
  unfolding answered complete
  complete-answered =
      let known = poll_completion_known w p s.conn at in
      rw (complete, e, known)
        (ap
          (λ (r : Conn × Option ℕ). record s {
            conn = r.0;
            posted = remove ℕ_discrete w s.posted;
            answers = (p, ok) ∷ s.answers;
          })
          known)

  answered-Inv : Inv answered
  unfolding answered
  answered-Inv = record {
    buffers = λ i. ground (arith, v.buffers i, tally-remove (of_buffer i) w s.conn.pending p at);
    promises = λ q. ground (arith, v.promises q, tally-remove (of_promise q) w s.conn.pending p at);
    requests = λ u. ground (
      arith,
      v.requests u,
      tally-remove (keyed u) w s.conn.pending p at,
      tally-remove (keyed u) w s.posted b e,
    );
    held =
        IsHeld-remove w s.conn.pending s.sending
          (omega (arith, v.once w, v.requests w, counted_lookup w s.posted b e)) v.held;
    once = λ u. omega (arith, v.once u, tally-remove (keyed u) w s.conn.pending p at);
    old = λ u h. omega (arith, v.old u h, tally-remove (keyed u) w s.conn.pending p at);
  }

pub complete-Inv : (w : ℕ) (ok : Bool) (s : Sends) → Inv s → Inv (complete w ok s)
unfolding complete
complete-Inv w ok s v = elim (Option-cases (lookup ℕ_discrete w s.posted)) [
  | inl idle ↦ subst Inv (sym (rw (complete, idle) refl)) v
  | inr (b, e) ↦
      let (p, at) =
        lookup_counted w s.conn.pending
          (omega (arith, v.requests w, counted_lookup w s.posted b e)) in
      subst Inv (sym (complete-answered w b p ok s e at v)) (answered-Inv w b p ok s e at v)
]
