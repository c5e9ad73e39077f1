-- ===== src/Ibverbs.antt =====
-- cache_server/src/ibverbs_transport.cpp: the RDMA transport. `Message` is the layout of a message,
-- `Buffers` the send buffers of one outbound connection.
pub mod Message
pub mod Buffers
pub mod Connections
pub mod Landing
pub mod Endpoints
