-- ===== src/Tests/Transport.antt =====
-- Messages, buffers, histograms and peer lists at concrete values.
use lethe.Base.{
  ℕ, zero, suc, ap, ◌+◌, ◌*◌, ◌<◌, ◌≤◌, ◌≡◌, refl, Bool, true, none, List, [], ◌∷◌, arith, length,
  ltb, get_or, ℕ_discrete,
}
use mathlib.Core.List.{lookup}
use lethe.Ibverbs.Buffers.Events.{
  Event, rejected, begun, attempted, post_ok, post_failed, completed, start, run, step, begin,
}
use lethe.Ibverbs.Buffers.Events.Invariant.{Inv}
use lethe.Ibverbs.Buffers.Events.Runs.{run-Inv}
use lethe.Ibverbs.Buffers.Events.Attempts.{attempts, send_ends}
use lethe.Metrics.{rendered}
use lethe.Metrics.Buckets.{histogram, within, rendered_lem}

-- Two sends, one of which is posted and completed, and one rejected block.
abbrev two_sends : List Event
two_sends =
    begun
    ∷ attempted 0
    ∷ begun
    ∷ post_ok 65543
    ∷ rejected
    ∷ attempted 1
    ∷ completed 65543 true
    ∷ post_failed 131078
    ∷ []

run-Inv_example : Inv (run two_sends start)
run-Inv_example = run-Inv two_sends (omega arith)

-- 2001 attempts of the first send.
abbrev repeated : ℕ → Event → List Event
repeated zero e = []
repeated (suc n) e = e ∷ repeated n e

length-repeated : (n : ℕ) (e : Event) → length (repeated n e) ≡ n
length-repeated zero e = refl
length-repeated (suc n) e = ap suc (length-repeated n e)

attempts-repeated : (n : ℕ) → attempts 0 (repeated n (attempted 0)) ≡ n
attempts-repeated zero = refl
attempts-repeated (suc n) = omega (arith, attempts-repeated n)

began : (run (begun ∷ []) start).next_promise ≡ 1
unfolding run step begin start
began = refl

send_ends_example :
    lookup ℕ_discrete 0 (run (repeated 2001 (attempted 0)) (run (begun ∷ []) start)).waiting ≡ none
send_ends_example =
    send_ends 0 (begun ∷ []) (repeated 2001 (attempted 0))
      (omega (arith, length-repeated 2001 (attempted 0))) (omega (arith, began))
      (omega (arith, attempts-repeated 2001))

-- Durations in tens, bounds at 10, 20 and so on.
abbrev over : ℕ → ℕ → Bool
over i d = ltb (i * 10 + 10) d

over_ascends : (i j d : ℕ) → i ≤ j → over j d ≡ true → over i d ≡ true
over_ascends i j d h e = ground (arith, h, e)

rendered_lem_example :
    ((k : ℕ)
      → k < 8
      → get_or (rendered (histogram over (λ d. d) (5 ∷ 200 ∷ 25 ∷ []))) k 0
        ≡ within over k (5 ∷ 200 ∷ 25 ∷ []))
    × (get_or (rendered (histogram over (λ d. d) (5 ∷ 200 ∷ 25 ∷ []))) 8 0
        ≡ (histogram over (λ d. d) (5 ∷ 200 ∷ 25 ∷ [])).count)
    × ((histogram over (λ d. d) (5 ∷ 200 ∷ 25 ∷ [])).count ≡ 3)
rendered_lem_example = rendered_lem over over_ascends (λ d. d) (5 ∷ 200 ∷ 25 ∷ []) (omega arith)
