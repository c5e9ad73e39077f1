-- ===== src/Ibverbs/Landing.antt =====
-- A push over RDMA from end to end: `Send` of cache_server/src/ibverbs_transport.cpp, the completion
-- of the receive, and the callback that cache_server/src/cache.cpp gives the transport.
use lethe.Base.{
  ℕ, ◌+◌, ◌^◌, ◌<◌, ◌≤◌, ◌≡◌, refl, sym, ap, ◌∙◌, Option, none, some, List, [], ◌∷◌, length, ltb,
  if◌then◌else◌, arith, false,
}
use lethe.Types.{Bytes, BlockId, KvBlock, StreamPurpose, dram}
use lethe.Cache.{LetheCache}
use lethe.Cache
use lethe.Service
use lethe.GrpcStream.{push_request}
use lethe.GrpcStream.Delivery.{push_request-blocks}
use lethe.Ibverbs.Message.{Received, header_bytes, fill_buffer, sent_bytes, handle_recv}
use lethe.Ibverbs.Message.Stale.{arrived}
use lethe.Ibverbs.Message.RoundTrip.{send_receive}

-- What `Send` posts from its buffer, if the block fits into it.
unfoldable pub send_block : ℕ → StreamPurpose → BlockId → Bytes → Bytes → Option Bytes
unfolding sent_bytes fill_buffer
send_block msg_bytes purpose id payload buffer =
    if ltb (header_bytes + msg_bytes) (header_bytes + length payload)
    then none
    else some (sent_bytes payload (fill_buffer purpose id payload buffer))

-- The callback: an insert of the one block.
unfoldable pub on_receive : BlockId → Bytes → LetheCache → LetheCache
on_receive id bytes c =
    (Cache.insert (record { id = id; bytes = bytes; tier = dram; inserted_epoch = 0 } ∷ []) 0 c).0

abbrev pub land : Option Received → LetheCache → LetheCache
land none c = c
land (some r) c = on_receive r.id r.payload c

-- `HandleRecv` of a buffer with the length of the receive.
unfoldable pub receive : Bytes → ℕ → LetheCache → LetheCache
unfolding handle_recv on_receive
receive memory byte_len c = land (handle_recv memory byte_len) c

module _ (msg_bytes : ℕ) (purpose : StreamPurpose) (id : BlockId) (payload : Bytes)
    (hash_32 : length id.hash ≡ 32) (layer : id.layer < 2 ^ 32) (group : id.head_group < 2 ^ 32)
    (model : id.model_id < 2 ^ 32) (fits : length payload ≤ msg_bytes)
    (small : header_bytes + msg_bytes < 2 ^ 32) where
  -- A block with a hash of 32 bytes and 32-bit numbers that fits into the buffers, whose size is
  -- below 2^32, is sent over RDMA, whatever its buffer held before; when it arrives, whatever the
  -- receiving buffer held, the receiver becomes what the RPC handler of an `Insert` of the same
  -- block would make of it.
  pub receive-insert :
      (buffer stale : Bytes) (c : LetheCache)
      → (sent : Bytes) × (send_block msg_bytes purpose id payload buffer ≡ some sent)
        × (receive (arrived sent stale) (header_bytes + length payload) c
            ≡ (Service.insert (push_request id payload) c).0)
  unfolding send_block receive on_receive Service.insert
  receive-insert buffer stale c =
      let room : ltb (header_bytes + msg_bytes) (header_bytes + length payload) ≡ false =
        ground arith in
      (
        sent_bytes payload (fill_buffer purpose id payload buffer),
        rw room refl,
        ap (λ r. land r c)
              (send_receive purpose id payload hash_32 layer group model (omega arith) buffer stale)
            ∙ ap (λ (bs : List KvBlock). (Cache.insert bs 0 c).0)
                (sym (push_request-blocks id payload hash_32)),
      )
