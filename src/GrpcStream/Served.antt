-- ===== src/GrpcStream/Served.antt =====
-- A network whose addresses are served by nodes: a call of a stub runs the handler of the service
-- of cache_server/src/main.cpp at the address, unless the request is lost, and gives its response,
-- unless that is lost or too late.
use lethe.Base.{Option, none, some, ite}
use lethe.Types.{Bytes, bytes_dec}
use lethe.Cache.{LetheCache}
use lethe.Service.{PbBlockId, PbBlock, InsertResponse, FetchResponse}
use lethe.Service
use lethe.GrpcStream.{Stubs}

abbrev pub Nodes : Type 0
Nodes = Bytes → LetheCache

pub data Fate : Type 0 where
  delivered lost_request lost_response : Fate

abbrev pub update : Bytes → LetheCache → Nodes → Nodes
update address c nodes a = ite (bytes_dec a address) c (nodes a)

-- A handler at an address, under a fate of the call.
unfoldable pub serve {ℓ} :
    {R : Type ℓ} → Fate → Bytes → (LetheCache → LetheCache × R) → Nodes → Nodes × Option R
serve delivered address handler nodes =
    let r = handler (nodes address) in (update address r.0 nodes, some r.1)
serve lost_response address handler nodes = (update address (handler (nodes address)).0 nodes, none)
serve lost_request address handler nodes = (nodes, none)

abbrev pub served : Fate → Stubs Nodes
served fate = record {
  insert = λ address blocks. serve fate address (Service.insert blocks);
  fetch = λ address id. serve fate address (Service.fetch id);
}
