-- ===== src/Evictor.antt =====
-- cache_server/src/eviction.cpp: one eviction pass over a tier, and the record of what peers
-- evicted. The threads that call the pass on a timer, and the EvictBroadcast RPC, are not
-- modelled: a pass returns the ids to broadcast. A pass runs here without calls of others between its calls
-- of the store, although in the code each of those takes locks of its own.
pub mod Sweep
pub mod Accounting
pub mod Relief
pub mod Peers
pub mod Broadcast
use lethe.Base.{
  ℕ, zero, suc, ◌+◌, ◌-◌, ◌*◌, ◌/◌, ◌%◌, ◌≡◌, Bool, true, false, Option, none, some, List, [], ◌∷◌,
  length, get_elem?, leb, ltb, ◌==◌, if◌then◌else◌, ◌&&◌, not, ◌||◌, set, u64_mod, mul64, sub64,
  add64,
}
use lethe.TieredStore.{
  TieredStore, used_bytes, capacity_bytes, snapshot, clear_visited, demote, erase, is_tier,
}
use lethe.Types.{Tier, hbm, dram, ssd, Bytes, BlockId, BlockMeta}

pub record EvictionConfig : Type 0 where
  pub high_watermark_pct : ℕ
  pub low_watermark_pct : ℕ
  pub broadcast_evictions : Bool

pub record Hands : Type 0 where
  pub hand_hbm : ℕ
  pub hand_dram : ℕ
  pub hand_ssd : ℕ

pub record PassResult : Type 0 where
  pub hbm_evicted : ℕ
  pub dram_evicted : ℕ
  pub ssd_evicted : ℕ
  pub bytes_freed : ℕ
  pub blocks_broadcast : ℕ

-- The variables of the SIEVE walk. `evicted` has the newest id first.
pub record Walk : Type 0 where
  pub store : TieredStore
  pub blocks : List BlockMeta
  pub hand : ℕ
  pub freed_local : ℕ
  pub evicted : List BlockId

-- `if (hand >= blocks.size()) hand = 0`.
abbrev pub wrapped : Walk → ℕ
wrapped w = if leb (length w.blocks) w.hand then 0 else w.hand

-- The branch of a visited block: its bit is cleared in the store and in the snapshot.
unfoldable pub second_chance : BlockMeta → ℕ → Walk → Walk
second_chance meta hand w = record w {
  store = clear_visited meta.id w.store;
  blocks = set w.blocks hand (record meta { visited = false });
  hand = hand + 1;
}

-- The branch of a victim: `Demote`, and `Erase` where that fails or the tier is the SSD.
unfoldable pub evict : Tier → BlockMeta → ℕ → Walk → Walk
evict tier meta hand w =
    let tried = if is_tier tier ssd then (w.store, false) else demote meta.id w.store in
    let dropped = erase meta.id tried.0 in
    record w {
      store = if tried.1 then tried.0 else dropped.0;
      hand = hand + 1;
      freed_local = add64 w.freed_local (if tried.1 then meta.size_bytes else dropped.1);
      evicted = meta.id ∷ w.evicted;
    }

-- One round of the walk. An index out of range does not occur: `hand` has been wrapped.
unfoldable pub walk_step : Tier → Walk → Walk
walk_step tier w = elim (get_elem? w.blocks (wrapped w)) [
  | none ↦ w
  | some meta ↦
      if meta.visited then second_chance meta (wrapped w) w else evict tier meta (wrapped w) w
]

-- `while (freed_local < need && steps < max_steps)`: the fuel is the number of steps left.
unfoldable pub walk : ℕ → Tier → ℕ → Walk → Walk
walk zero tier need w = w
walk (suc steps) tier need w =
    let rest = walk steps tier need (walk_step tier w) in if ltb w.freed_local need then rest else w

abbrev pub hand_of : Tier → Hands → ℕ
hand_of hbm h = h.hand_hbm
hand_of dram h = h.hand_dram
hand_of ssd h = h.hand_ssd

abbrev pub set_hand : Tier → ℕ → Hands → Hands
set_hand hbm n h = record h { hand_hbm = n }
set_hand dram n h = record h { hand_dram = n }
set_hand ssd n h = record h { hand_ssd = n }

abbrev pub empty_result : PassResult
empty_result = record {
  hbm_evicted = 0;
  dram_evicted = 0;
  ssd_evicted = 0;
  bytes_freed = 0;
  blocks_broadcast = 0;
}

-- `cap * pct / 100` on `std::size_t`.
abbrev pub watermark : ℕ → ℕ → ℕ
watermark cap pct = mul64 cap pct / 100

abbrev pub pass_result : EvictionConfig → Tier → Walk → PassResult
pass_result cfg tier w = record {
  hbm_evicted = if is_tier tier hbm then length w.evicted else 0;
  dram_evicted = if is_tier tier dram then length w.evicted else 0;
  ssd_evicted = if is_tier tier ssd then length w.evicted else 0;
  bytes_freed = w.freed_local;
  blocks_broadcast = if cfg.broadcast_evictions then length w.evicted else 0;
}

pub record Pass : Type 0 where
  pub store : TieredStore
  pub hands : Hands
  pub result : PassResult
  pub evicted : List BlockId

abbrev pub idle_pass : TieredStore → Hands → Pass
idle_pass t hands = record { store = t; hands = hands; result = empty_result; evicted = [] }

-- The walk of a pass from its start: 2N steps over a snapshot of N blocks.
unfoldable pub full_walk : EvictionConfig → Tier → TieredStore → Hands → Walk
full_walk cfg tier t hands =
    walk (length (snapshot tier t) * 2) tier
      (sub64 (used_bytes tier t) (watermark (capacity_bytes tier t) cfg.low_watermark_pct))
      (record {
        store = t;
        blocks = snapshot tier t;
        hand = hand_of tier hands;
        freed_local = 0;
        evicted = [];
      })

unfoldable pub is_pressed : EvictionConfig → Tier → TieredStore → Bool
is_pressed cfg tier t =
    not (capacity_bytes tier t == 0)
    && (not (used_bytes tier t == 0)
        && ltb (watermark (capacity_bytes tier t) cfg.high_watermark_pct) (used_bytes tier t))

unfoldable pub run_pass_for_tier : EvictionConfig → Tier → TieredStore → Hands → Pass
run_pass_for_tier cfg tier t hands =
    if is_pressed cfg tier t && ltb 0 (length (snapshot tier t))
    then record {
      store = (full_walk cfg tier t hands).store;
      hands = set_hand tier (full_walk cfg tier t hands).hand hands;
      result = pass_result cfg tier (full_walk cfg tier t hands);
      evicted = (full_walk cfg tier t hands).evicted;
    }
    else idle_pass t hands
