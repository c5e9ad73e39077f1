-- ===== src/Cache/Keeps.antt =====
-- What a put keeps of the store of the facade.
use lethe.Base.{Option}
use lethe.Types.{Bytes, BlockId, KvBlock, Tier}
use lethe.TieredStore.{TieredStore, put}
use lethe.TieredStore.Good.{IsGood, IsLegal, PutResult, refused, taken, put-PutResult}

PutResult-IsGood :
    (content : BlockId → Bytes) (b : KvBlock) (t : TieredStore) (r : TieredStore × Option Tier)
    → IsGood content t
    → PutResult content b t r
    → IsGood content r.0
PutResult-IsGood content b t _ g refused = g
PutResult-IsGood content b t _ g (taken x h held) = h

pub put-IsGood :
    (content : BlockId → Bytes) (b : KvBlock) (hint : Tier) (t : TieredStore)
    → IsLegal content b
    → IsGood content t
    → IsGood content (put b hint t).0
put-IsGood content b hint t legal g =
    PutResult-IsGood content b t (put b hint t) g (put-PutResult content b hint t legal g)
