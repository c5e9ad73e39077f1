-- ===== src/Ibverbs/Buffers/Events/Attempts.antt =====
-- The loop over attempts of a `Send` ends.
use mathlib.Core.List.{lookup}
use lethe.Base.Assoc.{remove, lookup-remove_ne, lookup-cons_self, lookup-cons_ne}
use lethe.Base.{
  ℕ, ◌+◌, ◌^◌, ◌≡◌, ◌<◌, ◌≤◌, refl, ap, ◌∙◌, none, some, List, [], ◌∷◌, ltb, ◌==◌, ℕ_discrete, ◌≢◌,
  length, arith, ◌⊎◌, ltb→lt, Bool-cases, List-cases, Option-cases, inl, inr,
}
use lethe.Ibverbs.Buffers.{Conn, setup_outbound, acquire, max_attempts, wr_id_of}
use lethe.Ibverbs.Buffers.Counts.{one_if, tally-remove, keyed, uncounted_lookup}
use lethe.Ibverbs.Buffers.Events.{
  Sends, start, reject, begin, give_up, try_acquire, attempt, post, fail_post, complete, Event,
  rejected, begun, attempted, post_ok, post_failed, completed, step, run,
}
use lethe.Ibverbs.Buffers.Events.Invariant.{Inv}
use lethe.Ibverbs.Buffers.Events.Runs.{step-Inv, step_counts, run-Inv, run_counts}
use lethe.Ibverbs.Buffers.Events.Taking.{acquire_full}

-- The attempts of one send among the events.
abbrev pub attempts : ℕ → List Event → ℕ
attempts p [] = 0
attempts p (attempted q ∷ es) = one_if (q == p) + attempts p es
attempts p (_ ∷ es) = attempts p es

-- Two promises are made by different sends.
begun_ne :
    (p : ℕ) (s : Sends)
    → p < s.next_promise
    → lookup ℕ_discrete p (begin s).waiting ≡ lookup ℕ_discrete p s.waiting
unfolding begin
begun_ne p s h = lookup-cons_ne ℕ_discrete s.next_promise p 0 s.waiting (λ e. omega (arith, e, h))

other_attempt :
    (p q : ℕ) (s : Sends)
    → p ≢ q
    → lookup ℕ_discrete p (attempt q s).waiting ≡ lookup ℕ_discrete p s.waiting
unfolding attempt try_acquire give_up lookup
other_attempt p q s h = ground (arith, lookup-remove_ne ℕ_discrete q p s.waiting)

idle_attempt : (p : ℕ) (s : Sends) → lookup ℕ_discrete p s.waiting ≡ none → attempt p s ≡ s
unfolding attempt
idle_attempt p s e = rw (attempt, e) refl

-- No other step touches the attempts of the send.
other_step :
    (e : Event) (p : ℕ) (s : Sends)
    → p < s.next_promise
    → attempts p (e ∷ []) ≡ 0
    → lookup ℕ_discrete p (step e s).waiting ≡ lookup ℕ_discrete p s.waiting
unfolding step reject post fail_post complete
other_step rejected p s h k = refl
other_step begun p s h k = begun_ne p s h
other_step (attempted q) p s h k = other_attempt p q s (λ e. ground (arith, k, e))
other_step (post_ok w) p s h k = ground arith
other_step (post_failed w) p s h k = ground arith
other_step (completed w ok) p s h k = ground arith

step_promises : (e : Event) (s : Sends) → s.next_promise ≤ (step e s).next_promise
unfolding step reject begin attempt try_acquire give_up post fail_post complete
step_promises rejected s = omega arith
step_promises begun s = omega arith
step_promises (attempted p) s = ground arith
step_promises (post_ok w) s = ground arith
step_promises (post_failed w) s = ground arith
step_promises (completed w ok) s = ground arith

waiting_full :
    (p n : ℕ) (s : Sends)
    → s.conn.free_send ≡ []
    → (try_acquire p n s).waiting ≡ (p, n + 1) ∷ remove ℕ_discrete p s.waiting
unfolding try_acquire
waiting_full p n s full = rw (try_acquire, acquire_full p s.conn full) refl

acquire_answers :
    (p b : ℕ) (free : List ℕ) (c : Conn)
    → c.free_send ≡ b ∷ free
    → (acquire p c).1 ≡ some (wr_id_of c.next_wr b, b)
unfolding acquire
acquire_answers p b free c at = rw at refl

waiting_taken :
    (p n b : ℕ) (free : List ℕ) (s : Sends)
    → s.conn.free_send ≡ b ∷ free
    → (try_acquire p n s).waiting ≡ remove ℕ_discrete p s.waiting
unfolding try_acquire
waiting_taken p n b free s at = rw (try_acquire, acquire_answers p b free s.conn at) refl

-- Its own attempt takes a buffer, gives up, or is counted.
own_attempt :
    (p n : ℕ) (s : Sends)
    → Inv s
    → lookup ℕ_discrete p s.waiting ≡ some n
    → let o = lookup ℕ_discrete p (attempt p s).waiting in
      (o ≡ none) ⊎ ((o ≡ some (n + 1)) × (n < max_attempts))
unfolding attempt give_up
own_attempt p n s v e =
    let gone =
      uncounted_lookup p (remove ℕ_discrete p s.waiting)
        (ground (arith, v.promises p, tally-remove (keyed p) p s.waiting n e)) in
    elim (Bool-cases (ltb n max_attempts)) [
      | inl more ↦ elim (List-cases s.conn.free_send) [
        | inl full ↦ inr (
          rw (attempt, e, more, waiting_full p n s full)
              (lookup-cons_self ℕ_discrete p (n + 1) (remove ℕ_discrete p s.waiting)),
          ltb→lt n max_attempts more,
        )
        | inr (b, free, at) ↦ inl (rw (attempt, e, more, waiting_taken p n b free s at) gone)
      ]
      | inr last ↦ inl (rw (attempt, e, last) gone)
    ]

attempts_head :
    (p : ℕ) (e : Event) (es : List Event)
    → attempts p (e ∷ es) ≡ attempts p (e ∷ []) + attempts p es
attempts_head p rejected es = omega arith
attempts_head p begun es = omega arith
attempts_head p (attempted q) es = omega arith
attempts_head p (post_ok w) es = omega arith
attempts_head p (post_failed w) es = omega arith
attempts_head p (completed w ok) es = omega arith

-- An event that is no attempt of the send, or is one.
event_cases :
    (p : ℕ) (e : Event)
    → (attempts p (e ∷ []) ≡ 0) ⊎ ((e ≡ attempted p) × (attempts p (e ∷ []) ≡ 1))
event_cases p (attempted q) = elim (ℕ_discrete q p) [
  | yes h ↦ inr (ap attempted h, ground (arith, h))
  | no h ↦ inl (ground (arith, h))
]
event_cases p rejected = inl refl
event_cases p begun = inl refl
event_cases p (post_ok w) = inl refl
event_cases p (post_failed w) = inl refl
event_cases p (completed w ok) = inl refl

module _ (p : ℕ) where
  stays :
      (es : List Event) (s : Sends)
      → p < s.next_promise
      → lookup ℕ_discrete p s.waiting ≡ none
      → lookup ℕ_discrete p (run es s).waiting ≡ none
  unfolding run step
  stays [] s h gone = gone
  stays (e ∷ es) s h gone =
      stays es (step e s) (omega (arith, h, step_promises e s)) (elim (event_cases p e) [
        | inl other ↦ other_step e p s h other ∙ gone
        | inr (own, _) ↦
            rw own
              (ap (λ (u : Sends). lookup ℕ_discrete p u.waiting) (idle_attempt p s gone) ∙ gone)
      ])

  ends :
      (es : List Event) (s : Sends) (n : ℕ)
      → s.conn.next_wr + length es ≤ 2 ^ 48
      → Inv s
      → p < s.next_promise
      → lookup ℕ_discrete p s.waiting ≡ some n
      → 0 < attempts p es
      → max_attempts < n + attempts p es
      → lookup ℕ_discrete p (run es s).waiting ≡ none
  unfolding run step
  ends [] s n small v h at low high = absurd (omega (arith, low, high))
  ends (e ∷ es) s n small v h at low high =
      let s' = step e s in
      let v' = step-Inv e s (omega (arith, small)) v in
      let small' : s'.conn.next_wr + length es ≤ 2 ^ 48 = omega (arith, small, step_counts e s) in
      let h' : p < s'.next_promise = omega (arith, h, step_promises e s) in
      elim (event_cases p e) [
        | inl other ↦
            ends es s' n small' v' h' (other_step e p s h other ∙ at)
              (omega (arith, low, other, attempts_head p e es))
              (omega (arith, high, other, attempts_head p e es))
        | inr (own, one) ↦ elim (own_attempt p n s v at) [
          | inl gone ↦ stays es s' h' (rw own gone)
          | inr (again, more) ↦
              ends es s' (n + 1) small' v' h' (rw own again)
                (omega (arith, more, high, one, attempts_head p e es))
                (omega (arith, high, one, attempts_head p e es))
        ]
      ]

-- In a run of fewer than 2^48 events, a `Send` whose loop makes more than 2000 attempts, however
-- the events of other sends come between, is no longer in the loop: it has a buffer, or gave up.
pub send_ends :
    (p : ℕ) (es es' : List Event)
    → 1 + length es + length es' ≤ 2 ^ 48
    → p < (run es start).next_promise
    → max_attempts < attempts p es'
    → lookup ℕ_discrete p (run es' (run es start)).waiting ≡ none
unfolding start setup_outbound
send_ends p es es' small h many =
    let s = run es start in
    let v = run-Inv es (omega (arith, small)) in
    elim (Option-cases (lookup ℕ_discrete p s.waiting)) [
      | inl gone ↦ stays p es' s h gone
      | inr (n, at) ↦
          ends p es' s n (omega (arith, small, run_counts es start)) v h at (omega (arith, many))
            (omega (arith, many))
    ]
