-- ===== src/TieredStore/Refines.antt =====
-- The tiered store as its clients see it: a map from ids to bytes. A client's run of calls on the
-- store is a run of an abstract cache, which knows no tiers, no capacities and no counters.
use lethe.Base.{
  ◌≡◌, refl, sym, ◌∙◌, Bool, true, false, not, List, [], ◌∷◌, Option, none, some, Option-cases, inl,
  inr, All, ite, subst, ap,
}
use lethe.Types.{Bytes, BlockId, KvBlock, Tier, id_dec}
use lethe.TieredStore.{
  TieredStore, GetResult, get, put, demote, erase, mark_visited, clear_visited, is_null,
}
use lethe.TieredStore.Stored.{stored}
use lethe.TieredStore.Get.{get_miss}
use lethe.TieredStore.Demote.{demote-Demoted}
use lethe.TieredStore.Good.{
  IsGood, get-Keeps, get-found, get-IsGood, demote-IsGood, erase-IsGood, IsLegal, PutResult,
  refused, taken, put-PutResult, stored-erase, mark_visited-IsGood, stored-mark_visited,
  clear_visited-IsGood, stored-clear_visited,
}

-- The calls of a client, and what each tells it about blocks.
pub data Op : Type 0 where
  get_block : BlockId → Op
  put_block : KvBlock → Tier → Op
  demote_block : BlockId → Op
  erase_block : BlockId → Op
  mark_block : BlockId → Op
  clear_block : BlockId → Op

pub data Output : Type 0 where
  found : Option Bytes → Output
  placed : Bool → Output
  moved : Bool → Output
  done : Output

abbrev pub bytes_of : Option GetResult → Option Bytes
bytes_of none = none
bytes_of (some r) = some r.bytes

unfoldable pub step : Op → TieredStore → TieredStore × Output
step (get_block id) t = let r = get id t in (r.0, found (bytes_of r.1))
step (put_block b hint) t = let r = put b hint t in (r.0, placed (not (is_null r.1)))
step (demote_block id) t = let r = demote id t in (r.0, moved r.1)
step (erase_block id) t = ((erase id t).0, done)
step (mark_block id) t = (mark_visited id t, done)
step (clear_block id) t = (clear_visited id t, done)

unfoldable pub run : List Op → TieredStore → TieredStore × List Output
run [] t = (t, [])
run (op ∷ ops) t = let r = step op t in let rest = run ops r.0 in (rest.0, r.1 ∷ rest.1)

-- The abstract cache.
abbrev pub View : Type 0
View = BlockId → Option Bytes

abbrev pub view : TieredStore → View
view t j = stored j t

abbrev pub Same : View → View → Type 0
Same f g = (j : BlockId) → g j ≡ f j

-- A call may answer so, and take the cache from `f` to `g`. A put may be refused, since the abstract
-- cache knows no capacities.
pub data Allowed (f g : View) : Op → Output → Type 0 where
  get_allowed : (id : BlockId) → Same f g → Allowed f g (get_block id) (found (f id))
  put_refused :
      (b : KvBlock) (hint : Tier) → Same f g → Allowed f g (put_block b hint) (placed false)
  put_taken :
      (b : KvBlock) (hint : Tier)
      → ((j : BlockId) → g j ≡ ite (id_dec j b.id) (some b.bytes) (f j))
      → Allowed f g (put_block b hint) (placed true)
  demote_allowed : (id : BlockId) (ok : Bool) → Same f g → Allowed f g (demote_block id) (moved ok)
  erase_allowed :
      (id : BlockId)
      → ((j : BlockId) → g j ≡ ite (id_dec j id) none (f j))
      → Allowed f g (erase_block id) done
  mark_allowed : (id : BlockId) → Same f g → Allowed f g (mark_block id) done
  clear_allowed : (id : BlockId) → Same f g → Allowed f g (clear_block id) done

pub data Runs : View → View → List Op → List Output → Type 0 where
  stop : (f : View) → Runs f f [] []
  then :
      {f g h : View} {op : Op} {out : Output} {ops : List Op} {outs : List Output}
      → Allowed f g op out
      → Runs g h ops outs
      → Runs f h (op ∷ ops) (out ∷ outs)

-- The blocks that a client puts are legal.
abbrev pub IsLegalOp : (BlockId → Bytes) → Op → Type 0
IsLegalOp content (put_block b _) = IsLegal content b
IsLegalOp content _ = Unit

module _ (content : BlockId → Bytes) where
  get-Allowed :
      (id : BlockId) (t : TieredStore)
      → IsGood content t
      → Allowed (view t) (view (get id t).0) (get_block id) (found (bytes_of (get id t).1))
  get-Allowed id t g =
      subst (λ o. Allowed (view t) (view (get id t).0) (get_block id) (found o)) (sym answer)
        (get_allowed id (get-Keeps content id t g).same)
    where
      answer : bytes_of (get id t).1 ≡ stored id t
      answer = elim (Option-cases (stored id t)) [
        | inl absent ↦
            ap (λ (r : TieredStore × Option GetResult). bytes_of r.1) (get_miss id t absent)
            ∙ sym absent
        | inr (bs, held) ↦
            let (got, at, same) = get-found content id t bs g held in
            ap bytes_of at ∙ ap some same ∙ sym held
      ]

  put-Allowed :
      (b : KvBlock) (hint : Tier) (t : TieredStore) (r : TieredStore × Option Tier)
      → IsGood content t
      → PutResult content b t r
      → IsGood content r.0
        × Allowed (view t) (view r.0) (put_block b hint) (placed (not (is_null r.1)))
  put-Allowed b hint t _ g refused = (g, put_refused b hint (λ j. refl))
  put-Allowed b hint t _ g (taken x h held) = (h, put_taken b hint held)

  step-Allowed :
      (op : Op) (t : TieredStore)
      → IsGood content t
      → IsLegalOp content op
      → IsGood content (step op t).0 × Allowed (view t) (view (step op t).0) op (step op t).1
  unfolding step
  step-Allowed (get_block id) t g l = (get-IsGood content id t g, get-Allowed id t g)
  step-Allowed (put_block b hint) t g l =
      put-Allowed b hint t (put b hint t) g (put-PutResult content b hint t l g)
  step-Allowed (demote_block id) t g l = (
    demote-IsGood content id t g,
    demote_allowed id (demote id t).1 (demote-Demoted content id t g.valid g.agrees).keeps.same,
  )
  step-Allowed (erase_block id) t g l =
      (erase-IsGood content id t g, erase_allowed id (λ j. stored-erase id j t g.valid))
  step-Allowed (mark_block id) t g l =
      (mark_visited-IsGood content id t g, mark_allowed id (λ j. stored-mark_visited id j t))
  step-Allowed (clear_block id) t g l =
      (clear_visited-IsGood content id t g, clear_allowed id (λ j. stored-clear_visited id j t))

  -- Any run of calls on a good store, whose puts have bytes, a legal size and the content of their
  -- ids, is a run of an abstract cache from ids to bytes: a get answers what the cache has, a put
  -- is refused without effect or makes the cache have the block, an erase takes the id out, and
  -- demoting, marking and unmarking a block change nothing; the store stays good.
  pub run-Runs :
      (ops : List Op) (t : TieredStore)
      → IsGood content t
      → All (IsLegalOp content) ops
      → IsGood content (run ops t).0 × Runs (view t) (view (run ops t).0) ops (run ops t).1
  unfolding run
  run-Runs [] t g l = (g, stop (view t))
  run-Runs (op ∷ ops) t g l =
      let (h, one) = step-Allowed op t g l.0 in
      let (h', rest) = run-Runs ops (step op t).0 h l.1 in (h', then one rest)
