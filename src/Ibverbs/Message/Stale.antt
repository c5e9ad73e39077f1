-- ===== src/Ibverbs/Message/Stale.antt =====
-- A message read from a buffer whose rest is stale: `HandleRecv` reads nothing behind the message.
use lethe.Base.{
  ℕ, suc, zero, ◌+◌, ◌≤◌, ◌≡◌, refl, sym, ap, ◌∙◌, none, [], ◌∷◌, ◌++◌, length, take, drop, arith,
  ltb, inl, inr, Bool-cases, true, ltb→le,
}
use lethe.Types.{Bytes}
use lethe.Ibverbs.Message.{header_bytes, u32, u32_at, handle_recv}

-- What arrives stands over the bytes that the receive buffer held.
unfoldable pub arrived : Bytes → Bytes → Bytes
arrived message stale = message ++ drop (length message) stale

-- A word within the message is not read from behind it.
u32-stale :
    (k : ℕ) (message stale : Bytes)
    → k + 4 ≤ length message
    → u32 (drop k (message ++ stale)) ≡ u32 (drop k message)
u32-stale zero (a ∷ b ∷ c ∷ d ∷ m) stale h = refl
u32-stale zero (a ∷ b ∷ c ∷ []) stale h = absurd (omega (arith, h))
u32-stale zero (a ∷ b ∷ []) stale h = absurd (omega (arith, h))
u32-stale zero (a ∷ []) stale h = absurd (omega (arith, h))
u32-stale zero [] stale h = absurd (omega (arith, h))
u32-stale (suc k) [] stale h = absurd (omega (arith, h))
u32-stale (suc k) (a ∷ m) stale h = u32-stale k m stale (omega (arith, h))

take-stale :
    (n : ℕ) (message stale : Bytes)
    → n ≤ length message
    → take n (message ++ stale) ≡ take n message
take-stale zero m stale h = refl
take-stale (suc n) [] stale h = absurd (omega (arith, h))
take-stale (suc n) (a ∷ m) stale h = ap (◌∷◌ a) (take-stale n m stale (omega (arith, h)))

take-drop_stale :
    (k n : ℕ) (message stale : Bytes)
    → k + n ≤ length message
    → take n (drop k (message ++ stale)) ≡ take n (drop k message)
take-drop_stale zero n m stale h = take-stale n m stale (omega (arith, h))
take-drop_stale (suc k) n [] stale h = absurd (omega (arith, h))
take-drop_stale (suc k) n (a ∷ m) stale h = take-drop_stale k n m stale (omega (arith, h))

u32_at-stale :
    (k : ℕ) (message stale : Bytes)
    → k + 4 ≤ length message
    → u32_at k (message ++ stale) ≡ u32_at k message
unfolding u32_at
u32_at-stale = u32-stale

handle_recv_short : (m : Bytes) (n : ℕ) → ltb n header_bytes ≡ true → handle_recv m n ≡ none
unfolding handle_recv
handle_recv_short m n short = rw short refl

module _ (m stale : Bytes) (h : header_bytes ≤ length m) where
  same_word : (k : ℕ) → k ≤ 56 → u32_at k (m ++ stale) ≡ u32_at k m
  same_word k l = u32_at-stale k m stale (omega (arith, h, l))

  -- A whole header is read alike whatever stood behind the message.
  handle_recv-long : handle_recv (m ++ stale) (length m) ≡ handle_recv m (length m)
  unfolding handle_recv
  handle_recv-long = elim (Bool-cases (ltb (length m) (header_bytes + u32_at 12 m))) [
    | inl short ↦
        rw (same_word 0 (omega arith), same_word 4 (omega arith), same_word 12 (omega arith), short)
          refl
    | inr fits ↦
        rw
          (
            same_word 0 (omega arith),
            same_word 4 (omega arith),
            same_word 8 (omega arith),
            same_word 12 (omega arith),
            same_word 48 (omega arith),
            same_word 52 (omega arith),
            same_word 56 (omega arith),
            take-drop_stale 16 32 m stale (omega (arith, h)),
            take-drop_stale header_bytes (u32_at 12 m) m stale
                (ltb→le (length m) (header_bytes + u32_at 12 m) fits),
          )
          refl
  ]

pub handle_recv-arrived :
    (message stale : Bytes)
    → handle_recv (arrived message stale) (length message) ≡ handle_recv message (length message)
unfolding arrived
handle_recv-arrived m s = elim (Bool-cases (ltb (length m) header_bytes)) [
  | inl short ↦
      handle_recv_short (m ++ drop (length m) s) (length m) short
      ∙ sym (handle_recv_short m (length m) short)
  | inr long ↦ handle_recv-long m (drop (length m) s) (ltb→le (length m) header_bytes long)
]
