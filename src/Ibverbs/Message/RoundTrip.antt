-- ===== src/Ibverbs/Message/RoundTrip.antt =====
-- Messages between `Send` and `HandleRecv`.
use lethe.Base.{
  ℕ, suc, zero, ◌+◌, ◌%◌, ◌^◌, ◌<◌, ◌≤◌, ◌≡◌, refl, sym, ap, ◌∙◌, some, [], ◌∷◌, ◌++◌, length, take,
  drop, arith, length-append, take-append, subst, ltb, false,
}
use lethe.Types.{Bytes, BlockId, StreamPurpose, replication_push, read_repair, promotion}
use mathlib.Core.List.{append_assoc}
use lethe.Ibverbs.Message.{
  magic, msg_block_push, header_bytes, u32_bytes, u32, u32_at, purpose_code, header, fill_buffer,
  sent_bytes, handle_recv,
}
use lethe.Ibverbs.Message.Stale.{arrived, handle_recv-arrived}

u32-u32_bytes : (n : ℕ) (rest : Bytes) → n < 2 ^ 32 → u32 (u32_bytes n ++ rest) ≡ n
unfolding u32_bytes
u32-u32_bytes n rest h = omega arith

code-lt : (purpose : StreamPurpose) → purpose_code purpose < 2 ^ 8
unfolding purpose_code
code-lt replication_push = omega arith
code-lt read_repair = omega arith
code-lt promotion = omega arith

code_small : (n : ℕ) → n < 2 ^ 8 → n % 2 ^ 8 ≡ n
code_small n h = omega (arith, h)

take_all : (xs : Bytes) → take (length xs) xs ≡ xs
take_all [] = refl
take_all (x ∷ xs) = ap (◌∷◌ x) (take_all xs)

not_less : (a b : ℕ) → b ≤ a → ltb a b ≡ false
not_less a b h = ground arith

drop-append : (n k : ℕ) (xs ys : Bytes) → n ≡ length xs + k → drop n (xs ++ ys) ≡ drop k ys
drop-append n k [] ys h = ap (λ i. drop i ys) (omega (arith, h))
drop-append zero k (x ∷ xs) ys h = absurd (omega (arith, h))
drop-append (suc n) k (x ∷ xs) ys h = drop-append n k xs ys (omega (arith, h))

take-append_exact : (n : ℕ) (xs ys : Bytes) → length xs ≡ n → take n (xs ++ ys) ≡ xs
take-append_exact n xs ys h = subst (λ i. take i (xs ++ ys) ≡ xs) h (take-append xs ys)

module _ (purpose : StreamPurpose) (id : BlockId) (payload : Bytes) where
  message : Bytes
  message = header purpose id (length payload) ++ payload

  -- The words behind the hash.
  words : Bytes
  words = u32_bytes id.layer ++ (u32_bytes id.head_group ++ (u32_bytes id.model_id ++ payload))

  words_flat :
      (u32_bytes id.layer ++ (u32_bytes id.head_group ++ u32_bytes id.model_id)) ++ payload ≡ words
  unfolding words u32_bytes
  words_flat = refl

  flat : Bytes
  flat =
      u32_bytes magic
      ++ (u32_bytes msg_block_push
          ++ (u32_bytes (purpose_code purpose)
              ++ (u32_bytes (length payload % 2 ^ 32) ++ (id.hash ++ words))))

  message-flat : message ≡ flat
  unfolding message flat header u32_bytes
  message-flat =
      ap
        (λ r.
          u32_bytes magic
          ++ (u32_bytes msg_block_push
              ++ (u32_bytes (purpose_code purpose) ++ (u32_bytes (length payload % 2 ^ 32) ++ r))))
        (append_assoc id.hash
            (u32_bytes id.layer ++ (u32_bytes id.head_group ++ u32_bytes id.model_id)) payload
          ∙ ap (λ r. id.hash ++ r) words_flat)

  length-words : length words ≡ 12 + length payload
  unfolding words u32_bytes
  length-words = omega arith

  module _ (hash : length id.hash ≡ 32) where
    length-flat : length flat ≡ header_bytes + length payload
    unfolding flat u32_bytes
    length-flat = omega (arith, length-append id.hash words, length-words, hash)

    flat-hash : take 32 (drop 16 flat) ≡ id.hash
    unfolding flat u32_bytes
    flat-hash = take-append_exact 32 id.hash words hash

    -- Words of the flat message.
    Reads : ℕ → ℕ → Type 0
    Reads offset n = n < 2 ^ 32 → u32_at offset flat ≡ n

    Reads-word :
        (offset k n : ℕ) (rest : Bytes)
        → drop offset flat ≡ drop k words
        → drop k words ≡ u32_bytes n ++ rest
        → Reads offset n
    unfolding u32_at Reads
    Reads-word offset k n rest e e' h = ap u32 (e ∙ e') ∙ u32-u32_bytes n rest h

    Reads-layer : Reads 48 id.layer
    unfolding flat u32_bytes words
    Reads-layer =
        Reads-word 48 0 id.layer (u32_bytes id.head_group ++ (u32_bytes id.model_id ++ payload))
          (drop-append 32 0 id.hash words (omega (arith, hash))) refl

    Reads-group : Reads 52 id.head_group
    unfolding flat u32_bytes words
    Reads-group =
        Reads-word 52 4 id.head_group (u32_bytes id.model_id ++ payload)
          (drop-append 36 4 id.hash words (omega (arith, hash))) refl

    Reads-model : Reads 56 id.model_id
    unfolding flat u32_bytes words
    Reads-model =
        Reads-word 56 8 id.model_id payload (drop-append 40 8 id.hash words (omega (arith, hash)))
          refl

    flat-payload : drop header_bytes flat ≡ payload
    unfolding flat u32_bytes words
    flat-payload = drop-append 44 12 id.hash words (omega (arith, hash))

    reads_magic : u32_at 0 flat ≡ magic
    unfolding flat u32_at u32_bytes
    reads_magic = refl

    reads_type : u32_at 4 flat ≡ msg_block_push
    unfolding flat u32_at u32_bytes
    reads_type = refl

    Reads-purpose : Reads 8 (purpose_code purpose)
    unfolding flat u32_at u32_bytes Reads
    Reads-purpose h =
        u32-u32_bytes (purpose_code purpose)
          (u32_bytes (length payload % 2 ^ 32) ++ (id.hash ++ words)) h

    Reads-size : Reads 12 (length payload)
    unfolding flat u32_at u32_bytes Reads
    Reads-size h =
        u32-u32_bytes (length payload % 2 ^ 32) (id.hash ++ words) (omega (arith, h))
        ∙ omega (arith, h)

    module _ (layer : id.layer < 2 ^ 32) (group : id.head_group < 2 ^ 32)
        (model : id.model_id < 2 ^ 32) (small : header_bytes + length payload < 2 ^ 32) where
      handle_recv-flat :
          handle_recv flat (header_bytes + length payload)
          ≡ some (record { id = id; payload = payload; purpose = purpose_code purpose })
      unfolding handle_recv Reads
      handle_recv-flat =
          let size = Reads-size (omega (arith, small)) in
          rw
            (
              not_less (header_bytes + length payload) header_bytes (omega arith),
              reads_magic,
              reads_type,
              size,
              not_less (header_bytes + length payload) (header_bytes + length payload)
                  (omega arith),
              Reads-layer layer,
              Reads-group group,
              Reads-model model,
              flat-hash,
              flat-payload,
              take_all payload,
              Reads-purpose (omega (arith, code-lt purpose)),
              code_small (purpose_code purpose) (code-lt purpose),
            )
            refl

      sent_bytes-fill_buffer :
          (buffer : Bytes) → sent_bytes payload (fill_buffer purpose id payload buffer) ≡ flat
      unfolding sent_bytes fill_buffer message
      sent_bytes-fill_buffer buffer =
          let behind = drop (header_bytes + length payload) buffer in
          ap (take ((header_bytes + length payload) % 2 ^ 32)) (
            sym (append_assoc (header purpose id (length payload)) payload behind)
            ∙ ap (λ m. m ++ behind) message-flat)
          ∙ take-append_exact ((header_bytes + length payload) % 2 ^ 32) flat behind
              (omega (arith, small, length-flat))

      -- What `Send` makes the card send of a block with a hash of 32 bytes, 32-bit numbers and a
      -- message of fewer than 2^32 bytes, whatever its buffer held before, is read by `HandleRecv`
      -- as the same id, payload and purpose, whatever stood in the buffer that it arrived in.
      pub send_receive :
          (buffer stale : Bytes)
          → handle_recv
              (arrived (sent_bytes payload (fill_buffer purpose id payload buffer)) stale)
              (header_bytes + length payload)
            ≡ some (record { id = id; payload = payload; purpose = purpose_code purpose })
      unfolding message
      send_receive buffer stale =
          rw
            (
              sent_bytes-fill_buffer buffer,
              sym length-flat,
              handle_recv-arrived flat stale,
              length-flat,
            )
            handle_recv-flat
