-- ===== src/Ibverbs/Message.antt =====
-- The wire format of cache_server/src/ibverbs_transport.cpp: what `Send` writes into a registered
-- buffer, and what `HandleRecv` reads from the buffer that a message arrived in. A word of the
-- packed header stands low byte first, the order of the hosts' memory.
pub mod Stale
pub mod RoundTrip
use lethe.Base.{
  ℕ, ◌+◌, ◌*◌, ◌/◌, ◌%◌, ◌^◌, Bool, Option, none, some, List, [], ◌∷◌, ◌++◌, length, take, drop,
  ltb, ◌==◌, if◌then◌else◌, ◌&&◌, not,
}
use lethe.Types.{Bytes, BlockId, StreamPurpose, replication_push, read_repair, promotion}

abbrev pub magic : ℕ
magic = 0x4C455448

abbrev pub msg_block_push : ℕ
msg_block_push = 1

-- `sizeof(MsgHeader)`, the struct being packed.
abbrev pub header_bytes : ℕ
header_bytes = 60

-- A `std::uint32_t` in memory, and the one that four bytes of memory are.
unfoldable pub u32_bytes : ℕ → Bytes
u32_bytes n = n % 256 ∷ n / 2 ^ 8 % 256 ∷ n / 2 ^ 16 % 256 ∷ n / 2 ^ 24 % 256 ∷ []

abbrev pub u32 : Bytes → ℕ
u32 (a ∷ b ∷ c ∷ d ∷ _) = a + 2 ^ 8 * b + 2 ^ 16 * c + 2 ^ 24 * d
u32 _ = 0

unfoldable pub u32_at : ℕ → Bytes → ℕ
u32_at offset memory = u32 (drop offset memory)

-- `static_cast<std::uint32_t>(purpose)`.
unfoldable pub purpose_code : StreamPurpose → ℕ
purpose_code replication_push = 0
purpose_code read_repair = 1
purpose_code promotion = 2

-- The header as `Send` fills it in.
unfoldable pub header : StreamPurpose → BlockId → ℕ → Bytes
header purpose id size =
    u32_bytes magic
    ++ (u32_bytes msg_block_push
        ++ (u32_bytes (purpose_code purpose)
            ++ (u32_bytes (size % 2 ^ 32)
                ++ (id.hash
                    ++ (u32_bytes id.layer
                        ++ (u32_bytes id.head_group ++ u32_bytes id.model_id))))))

-- The send buffer once `Send` has written the header and the payload over what it held.
unfoldable pub fill_buffer : StreamPurpose → BlockId → Bytes → Bytes → Bytes
fill_buffer purpose id payload buffer =
    header purpose id (length payload) ++ (payload ++ drop (header_bytes + length payload) buffer)

-- What the posted work request makes the card send: `sge.length` bytes of the buffer.
unfoldable pub sent_bytes : Bytes → Bytes → Bytes
sent_bytes payload buffer = take ((header_bytes + length payload) % 2 ^ 32) buffer

-- What `HandleRecv` hands to `on_receive`; the purpose is the number of the enumeration.
pub record Received : Type 0 where
  pub id : BlockId
  pub payload : Bytes
  pub purpose : ℕ

unfoldable pub handle_recv : Bytes → ℕ → Option Received
handle_recv memory byte_len =
    if ltb byte_len header_bytes
    then none
    else if not ((u32_at 0 memory == magic) && (u32_at 4 memory == msg_block_push))
    then none
    else if ltb byte_len (header_bytes + u32_at 12 memory)
    then none
    else some (record {
      id = record {
        hash = take 32 (drop 16 memory);
        layer = u32_at 48 memory;
        head_group = u32_at 52 memory;
        model_id = u32_at 56 memory;
      };
      payload = take (u32_at 12 memory) (drop header_bytes memory);
      purpose = u32_at 8 memory % 2 ^ 8;
    })
