-- ===== src/Ibverbs/Buffers/Events/Runs.antt =====
-- The sends of a connection over whole runs.
use mathlib.Core.List.{lookup}
use lethe.Base.{
  ℕ, ◌+◌, ◌^◌, ◌≡◌, ◌<◌, ◌≤◌, refl, sym, List, [], ◌∷◌, ltb, ℕ_discrete, length, arith, subst,
  Option-cases, inl, inr,
}
use lethe.Ibverbs.Buffers.{setup_outbound, acquire, abandon, poll_completion}
use lethe.Ibverbs.Buffers.Counts.{tally, one_if, keyed}
use lethe.Ibverbs.Buffers.Events.{
  Sends, start, reject, begin, give_up, try_acquire, attempt, post, fail_post, complete, Event,
  rejected, begun, attempted, post_ok, post_failed, completed, step, run,
}
use lethe.Ibverbs.Buffers.Events.Invariant.{
  Inv, start-Inv, reject-Inv, begin-Inv, post-Inv, fail_post-Inv, complete-Inv, post_idle,
  fail_post_idle, is,
}
use lethe.Ibverbs.Buffers.Events.Taking.{attempt-Inv}

pub step-Inv : (e : Event) (s : Sends) → s.conn.next_wr < 2 ^ 48 → Inv s → Inv (step e s)
unfolding step
step-Inv rejected s small v = reject-Inv s v
step-Inv begun s small v = begin-Inv s v
step-Inv (attempted p) s small v = attempt-Inv p s small v
step-Inv (post_ok w) s small v = elim (Option-cases (lookup ℕ_discrete w s.sending)) [
  | inl idle ↦ subst Inv (sym (post_idle w s idle)) v
  | inr ((b, p), e) ↦ post-Inv w b p s e v
]
step-Inv (post_failed w) s small v = elim (Option-cases (lookup ℕ_discrete w s.sending)) [
  | inl idle ↦ subst Inv (sym (fail_post_idle w s idle)) v
  | inr ((b, p), e) ↦ fail_post-Inv w b p s e v
]
step-Inv (completed w ok) s small v = complete-Inv w ok s v

pub step_counts : (e : Event) (s : Sends) → (step e s).conn.next_wr ≤ s.conn.next_wr + 1
unfolding step reject begin attempt try_acquire give_up acquire post fail_post abandon complete
    poll_completion
step_counts rejected s = omega arith
step_counts begun s = omega arith
step_counts (attempted p) s = ground arith
step_counts (post_ok w) s = ground arith
step_counts (post_failed w) s = ground arith
step_counts (completed w ok) s = ground arith

pub start_small : (es : List Event) → length es < 2 ^ 48 → start.conn.next_wr + length es ≤ 2 ^ 48
unfolding start setup_outbound
start_small es h = omega (arith, h)

run-Inv_from :
    (es : List Event) (s : Sends) → s.conn.next_wr + length es ≤ 2 ^ 48 → Inv s → Inv (run es s)
unfolding run
run-Inv_from [] s small v = v
run-Inv_from (e ∷ es) s small v =
    run-Inv_from es (step e s) (omega (arith, small, step_counts e s))
      (step-Inv e s (omega (arith, small)) v)

pub run_counts :
    (es : List Event) (s : Sends) → (run es s).conn.next_wr ≤ s.conn.next_wr + length es
unfolding run
run_counts [] s = omega arith
run_counts (e ∷ es) s = omega (arith, step_counts e s, run_counts es (step e s))

-- After any sequence of fewer than 2^48 events on a new connection, however sends, posts and
-- completions interleave: each of the eight buffers is free or held by one pending request, and
-- only once; each promise that was made is waiting, pending or answered, and only once; a pending
-- request is being sent or with the card, and not both; and a sender's request names its buffer and
-- its promise.
pub run-Inv : (es : List Event) → length es < 2 ^ 48 → Inv (run es start)
run-Inv es small = run-Inv_from es start (start_small es small) start-Inv

none_keyed : {V : Type 0} (l : List (ℕ × V)) → ((w : ℕ) → tally (keyed w) l ≡ 0) → l ≡ []
none_keyed [] h = refl
none_keyed ((i, v) ∷ l) h = absurd (ground (arith, h i))

-- A connection at rest: no request is pending, every buffer is free, and every promise that was made
-- is answered once or still waits for a buffer.
pub record IsQuiet (s : Sends) : Type 0 where
  pub none_pending : s.conn.pending ≡ []
  pub all_free : (i : ℕ) → tally (is i) s.conn.free_send ≡ one_if (ltb i 8)
  pub answered_once :
      (p : ℕ)
      → tally (keyed p) s.waiting + tally (keyed p) s.answers ≡ one_if (ltb p s.next_promise)

pub run-IsQuiet :
    (es : List Event)
    → length es < 2 ^ 48
    → (run es start).sending ≡ []
    → (run es start).posted ≡ []
    → IsQuiet (run es start)
run-IsQuiet es small idle done =
    let s = run es start in
    let v = run-Inv es small in
    let free = none_keyed s.conn.pending (λ w. ground (arith, v.requests w, idle, done)) in
    record {
      none_pending = free;
      all_free = λ i. ground (arith, v.buffers i, free);
      answered_once = λ p. ground (arith, v.promises p, free);
    }
