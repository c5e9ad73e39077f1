-- ===== src/Lib.antt =====
-- Lethe's cache server: the stores, the ring, the membership and the replication of one node.
--
-- A node keeps key-value blocks in up to three tiers. cache_server/src/cache.cpp is the facade:
-- it looks blocks up in the tiered store, asks the router for the primary of a block that is not
-- there, and pushes what it inserts to the replicas. Membership watches the peers by heartbeats;
-- when one dies or comes back it gives the router a new ring, and it has the replicator push the
-- blocks of this node to the members of their new routes. The evictor takes blocks out of a tier
-- whose use is above a watermark.
--
-- Base: the shared names, 64-bit arithmetic, lists and association lists.
-- Types: cache_server/include/lethe/types.hpp.
-- Layer: the operations that the tiered store uses of a tier, with the laws that it rests on;
--   Nullable is a tier behind a pointer that may be null.
-- BlockStore, SsdBlockStore: cache_server/src/block_store.cpp and ssd_block_store.cpp, which fill
--   the layer. Slots has the invariant of the SSD store, Restart and Reopen the scan of the file
--   by the next process, Complete that the index has every live slot.
-- TieredStore: cache_server/src/tiered_store.cpp; Make is its constructor, Copies has what a
--   tier's copy of a block becomes, Stored what a reader finds, and Get, Put, Demote and Erase
--   one operation each; Good is the store that its clients count on, Refines the cache that they
--   see.
-- Evictor: cache_server/src/eviction.cpp; Sweep has the walk of the hand, Accounting what a pass
--   frees, Relief what a pass over the SSD leaves, Peers what other nodes say they evicted,
--   Broadcast that they are told.
-- Router: cache_server/src/routing.cpp; Search is the binary search, Pick the clockwise walk,
--   Ring what SetPeers builds, Route the replica set.
-- Membership: cache_server/src/membership.cpp; View has the ring and the view of the peers.
-- Replicator: cache_server/src/replication.cpp; Round has a pass of a round, Drain a tick,
--   Trigger its start, Progress that it moves, Completes that it ends, Store the tiered store as
--   the source of blocks, Fetch the polling of the peers' answers, Polled and Fetched what it
--   finds, Stops the end of the workers, Members who a route names, Scopes the lock scopes of the
--   re-replication, and Alone that these make the pass when nothing comes between.
-- Cache: cache_server/src/cache.cpp; Lookups has its reads and writes, Reports what a lookup
--   says, Keeps what a put keeps.
-- Node: a server whose handlers are called while the threads of its subsystems run, as events;
--   Keeps has what the subsystems keep of a node, Clusters the membership, Handlers the calls,
--   Passes the lock scopes, Runs all. Boot is the constructor of the facade: Wired has the peers
--   of a new server, Fresh its store.
-- Lifecycle: Start and Shutdown of cache_server/src/cache.cpp, membership.cpp and eviction.cpp;
--   Calls has the threads that they leave.
-- Service: the RPC handlers of cache_server/src/main.cpp, over the messages of proto/lethe.proto.
-- Startup: what cache_server/src/main.cpp reads from its command line; PeerList is its list of
--   peers, Config the configuration, Written a command line as the scripts write it.
-- GrpcStream: cache_server/src/grpc_stream_transport.cpp; Served is a network of nodes that
--   answer by the handlers of Service, Delivery what a push leaves there, Repeat what a second
--   one does.
-- Ibverbs: cache_server/src/ibverbs_transport.cpp; Message is the wire format, Buffers the send
--   buffers of a connection, whose Events are what sends, the card and the poller do. Endpoints
--   has the variables, Connections the dials, the requests and the teardowns: Legal the rules of
--   the verbs, Sound what holds of connections, Dials and Runs that any run keeps it, Ends what a
--   shutdown leaves. Landing is a push from the sender to the cache of the receiver.
-- Metrics: cache_server/src/metrics.cpp; Buckets has the histograms, Exposition the text of a
--   scrape, Table what a scrape should find, Scraped and Answered that it finds it, Port the
--   port.
-- Tests: runs at concrete values.
--
-- A method is a function from the state to the state and its result, named after the method. A
-- method of a memory or SSD store holds the lock of the store for its whole effect, and so does a
-- push onto the replicator's queue. The other methods take several locks in turn: the tiered
-- store that of each tier, an eviction pass those of its calls of the store, a handler those of
-- all that it calls, DrainReReplication two scopes of mu with a read of the store between them. A
-- theorem on such a method is about a run of it that no other call overlaps. Node lets these runs
-- follow each other in any order; calls of the tiered store, pushes of ReplicateOut and the lock
-- scopes of the re-replication are events of their own there, so these interleave. Not modelled
-- are calls between the locks of one call of the tiered store. A judgement of the membership that
-- comes while a pass holds rerep_mu is taken after it as a whole.
--
-- Numbers are natural numbers with the wrap of their width written out. A byte is a number, and a
-- map is an association list or, where a missing key reads as a default, a function.
--
-- Fuel: the binary search of the ring has the length of the ring, and each round shortens its
-- range; a drain has the length of the round, and each pass moves the cursor or ends the loop;
-- the decimal digits of a number have one more than the number; the walk of an eviction pass has
-- the 2N steps that the code allows it; the polling of the peers has the rounds that begin before
-- its deadline, at which the code stops too.
--
-- BLAKE3, the replies of peers, the outcome of a send by a worker, the stubs of gRPC, the answers
-- of the calls of rdma_cm and ibverbs, and what cache_server/src/metrics.cpp computes with double
-- are parameters, and so is how a double is printed. Threads are sequences of events. The
-- sockets, timers and logs, the recycling of the receive buffers of RDMA, the mapping of the SSD
-- file, the HTTP server of the metrics and the gRPC server of main are not modelled: they are
-- calls of the system whose results no other part reads, or that only set up a part. The choice
-- of the RDMA transport is left out too.
pub mod Base
pub mod Types
pub mod Layer
pub mod BlockStore
pub mod SsdBlockStore
pub mod TieredStore
pub mod Evictor
pub mod Router
pub mod Membership
pub mod Replicator
pub mod Cache
pub mod Service
pub mod GrpcStream
pub mod Startup
pub mod Metrics
pub mod Node
pub mod Ibverbs
pub mod Lifecycle
pub mod Tests
