-- ===== src/Ibverbs/Buffers/Events.antt =====
-- The sends that share a connection, as a sequence of events: one for each attempt of a `Send`, for
-- each outcome of `ibv_post_send`, and for each completion that the card reports. The card completes
-- a request that was posted, and once. An event that finds no such send changes nothing.
pub mod Invariant
pub mod Taking
pub mod Runs
pub mod Attempts
use mathlib.Core.List.{lookup}
use lethe.Base.Assoc.{remove}
use lethe.Base.{
  ℕ, ◌+◌, ◌≡◌, Bool, true, false, Option, none, some, List, [], ◌∷◌, ltb, if◌then◌else◌, ℕ_discrete,
}
use lethe.Ibverbs.Buffers.{Conn, setup_outbound, acquire, abandon, poll_completion, max_attempts}

-- `waiting` has the sends in the loop over attempts, with the number of attempts made; `sending`
-- those that hold a buffer and have not posted it; `posted` the requests of the card with their
-- buffers; `answers` the values that promises were set to.
pub record Sends : Type 0 where
  pub conn : Conn
  pub next_promise : ℕ
  pub waiting : List (ℕ × ℕ)
  pub sending : List (ℕ × (ℕ × ℕ))
  pub posted : List (ℕ × ℕ)
  pub answers : List (ℕ × Bool)

unfoldable pub start : Sends
start = record {
  conn = setup_outbound;
  next_promise = 0;
  waiting = [];
  sending = [];
  posted = [];
  answers = [];
}

-- A `Send` whose block is too big or that has no connection is answered at once.
unfoldable pub reject : Sends → Sends
reject s = record s {
  next_promise = s.next_promise + 1;
  answers = (s.next_promise, false) ∷ s.answers;
}

unfoldable pub begin : Sends → Sends
begin s = record s { next_promise = s.next_promise + 1; waiting = (s.next_promise, 0) ∷ s.waiting }

unfoldable pub give_up : ℕ → Sends → Sends
give_up promise s = record s {
  waiting = remove ℕ_discrete promise s.waiting;
  answers = (promise, false) ∷ s.answers;
}

unfoldable pub try_acquire : ℕ → ℕ → Sends → Sends
try_acquire promise attempt s =
    let r = acquire promise s.conn in
    elim r.1 [
      | none ↦ record s { waiting = (promise, attempt + 1) ∷ remove ℕ_discrete promise s.waiting }
      | some (wr_id, buf_idx) ↦ record s {
        conn = r.0;
        waiting = remove ℕ_discrete promise s.waiting;
        sending = (wr_id, (buf_idx, promise)) ∷ s.sending;
      }
    ]

unfoldable pub attempt : ℕ → Sends → Sends
unfolding try_acquire give_up
attempt promise s = elim (lookup ℕ_discrete promise s.waiting) [
  | none ↦ s
  | some n ↦ if ltb n max_attempts then try_acquire promise n s else give_up promise s
]

-- `ibv_post_send` succeeded.
unfoldable pub post : ℕ → Sends → Sends
post wr_id s = elim (lookup ℕ_discrete wr_id s.sending) [
  | none ↦ s
  | some (buf_idx, promise) ↦ record s {
    sending = remove ℕ_discrete wr_id s.sending;
    posted = (wr_id, buf_idx) ∷ s.posted;
  }
]

-- `ibv_post_send` failed.
unfoldable pub fail_post : ℕ → Sends → Sends
fail_post wr_id s = elim (lookup ℕ_discrete wr_id s.sending) [
  | none ↦ s
  | some (buf_idx, promise) ↦ record s {
    conn = abandon wr_id buf_idx s.conn;
    sending = remove ℕ_discrete wr_id s.sending;
    answers = (promise, false) ∷ s.answers;
  }
]

-- The card reports a request done, and `PollOutbound` handles the completion.
unfoldable pub complete : ℕ → Bool → Sends → Sends
complete wr_id ok s = elim (lookup ℕ_discrete wr_id s.posted) [
  | none ↦ s
  | some buf_idx ↦
      let r = poll_completion wr_id s.conn in
      let t = record s { conn = r.0; posted = remove ℕ_discrete wr_id s.posted } in
      elim r.1 [ none ↦ t | some promise ↦ record t { answers = (promise, ok) ∷ s.answers } ]
]

pub data Event : Type 0 where
  rejected : Event
  begun : Event
  attempted : ℕ → Event
  post_ok : ℕ → Event
  post_failed : ℕ → Event
  completed : ℕ → Bool → Event

unfoldable pub step : Event → Sends → Sends
step rejected s = reject s
step begun s = begin s
step (attempted promise) s = attempt promise s
step (post_ok wr_id) s = post wr_id s
step (post_failed wr_id) s = fail_post wr_id s
step (completed wr_id ok) s = complete wr_id ok s

unfoldable pub run : List Event → Sends → Sends
run [] s = s
run (e ∷ es) s = run es (step e s)
