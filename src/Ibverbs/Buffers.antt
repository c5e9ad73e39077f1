-- ===== src/Ibverbs/Buffers.antt =====
-- The ring of send buffers of an outbound connection of cache_server/src/ibverbs_transport.cpp, and
-- the threads that share it: each `Send` takes a buffer and posts it, the card completes what was
-- posted, and `PollOutbound` gives the buffer back and answers the sender. A promise is a number.
pub mod Counts
pub mod Events
use mathlib.Core.List.{lookup}
use lethe.Base.Assoc.{remove}
use lethe.Base.{
  ℕ, ◌+◌, ◌*◌, ◌%◌, ◌^◌, Bool, true, false, Option, none, some, List, [], ◌∷◌, ltb, if◌then◌else◌,
  ℕ_discrete,
}

-- The part of `Conn` that `send_mu` guards. The head of `free_send` is the vector's back.
pub record Conn : Type 0 where
  pub free_send : List ℕ
  pub pending : List (ℕ × ℕ)
  pub next_wr : ℕ

abbrev pub max_send_buffers : ℕ
max_send_buffers = 8

abbrev pub max_attempts : ℕ
max_attempts = 2000

-- `SetupOutbound` on a new connection.
unfoldable pub setup_outbound : Conn
setup_outbound = record {
  free_send = 7 ∷ 6 ∷ 5 ∷ 4 ∷ 3 ∷ 2 ∷ 1 ∷ 0 ∷ [];
  pending = [];
  next_wr = 1;
}

-- `(c->next_wr++ << 16) | (buf_idx & 0xffff)`: the low 16 bits of the first are 0.
abbrev pub wr_id_of : ℕ → ℕ → ℕ
wr_id_of wr buf_idx = (wr * 2 ^ 16) % 2 ^ 64 + buf_idx % 2 ^ 16

-- The index that `PollOutbound` takes from the low bits of a work request.
abbrev pub buf_idx_of : ℕ → ℕ
buf_idx_of wr_id = wr_id % 2 ^ 16

-- One attempt of `Send` to take a buffer: the work request and the buffer, if one is free.
unfoldable pub acquire : ℕ → Conn → Conn × Option (ℕ × ℕ)
acquire promise c = elim c.free_send [
  | [] ↦ (c, none)
  | buf_idx ∷ free ↦
      let wr_id = wr_id_of c.next_wr buf_idx in
      (
        record {
          free_send = free;
          pending = (wr_id, promise) ∷ remove ℕ_discrete wr_id c.pending;
          next_wr = (c.next_wr + 1) % 2 ^ 64;
        },
        some (wr_id, buf_idx),
      )
]

-- The cleanup of `Send` after `ibv_post_send` failed.
unfoldable pub abandon : ℕ → ℕ → Conn → Conn
abandon wr_id buf_idx c = record c {
  free_send = buf_idx ∷ c.free_send;
  pending = remove ℕ_discrete wr_id c.pending;
}

-- What `PollOutbound` does with a completion: the promise that it answers, if it knows the request.
unfoldable pub poll_completion : ℕ → Conn → Conn × Option ℕ
poll_completion wr_id c = elim (lookup ℕ_discrete wr_id c.pending) [
  | none ↦ (c, none)
  | some promise ↦ (
    record c {
      free_send = buf_idx_of wr_id ∷ c.free_send;
      pending = remove ℕ_discrete wr_id c.pending;
    },
    some promise,
  )
]
