-- ===== src/TieredStore/Good.antt =====
-- A store whose readers find the content of every block that it has: what each operation makes of
-- what they find.
use lethe.Base.{
  ◌<◌, ◌≡◌, ◌≢◌, refl, sym, ap, ◌∙◌, subst, [], length, ite, if_pos, if_neg, Option, none, some,
  Option-cases, inl, inr, arith,
}
use lethe.Types.{Bytes, BlockId, KvBlock, Tier, hbm, dram, ssd, id_dec}
use lethe.Layer.{max_size}
use lethe.TieredStore.{
  TieredStore, GetResult, copy, get, put, demote, erase, mark_visited, clear_visited,
}
use lethe.TieredStore.Copies.{IsValid}
use lethe.TieredStore.Stored.{stored, Agrees}
use lethe.TieredStore.Get.{Keeps, Keeps-refl, fastest, get_hit, get_miss}
use lethe.TieredStore.Put.{PutOutcome, put-Outcome}
use lethe.TieredStore.Demote.{demote-Demoted}
use lethe.TieredStore.Erase.{erase-Erased}

-- A well-formed store whose copies agree and whose blocks have bytes.
pub record IsGood (content : BlockId → Bytes) (t : TieredStore) : Type 0 where
  pub valid : IsValid t
  pub agrees : Agrees content t
  pub has_bytes : (j : BlockId) → stored j t ≢ some []

pub get-Keeps :
    (content : BlockId → Bytes) (id : BlockId) (t : TieredStore)
    → IsGood content t
    → Keeps content t (get id t).0
get-Keeps content id t g = elim (Option-cases (stored id t)) [
  | inl absent ↦
      subst (λ (r : TieredStore × Option GetResult). Keeps content t r.0)
        (sym (get_miss id t absent)) (Keeps-refl content t g.valid g.agrees)
  | inr (bs, held) ↦
      (get_hit content id t bs g.valid g.agrees held (λ e. g.has_bytes id (held ∙ ap some e))).2
]

pub get-found :
    (content : BlockId → Bytes) (id : BlockId) (t : TieredStore) (bs : Bytes)
    → IsGood content t
    → stored id t ≡ some bs
    → (got : GetResult) × ((get id t).1 ≡ some got) × (got.bytes ≡ bs)
get-found content id t bs g held =
    let (moved, at, keeps) =
      get_hit content id t bs g.valid g.agrees held (λ e. g.has_bytes id (held ∙ ap some e)) in
    (record { bytes = bs; tier_found = fastest id t; promoted = moved }, at, refl)

pub get-IsGood :
    (content : BlockId → Bytes) (id : BlockId) (t : TieredStore)
    → IsGood content t
    → IsGood content (get id t).0
get-IsGood content id t g =
    let k = get-Keeps content id t g in
    record {
      valid = k.valid;
      agrees = k.agrees;
      has_bytes = λ j e. g.has_bytes j (sym (k.same j) ∙ e);
    }

Keeps-IsGood :
    (content : BlockId → Bytes) (t u : TieredStore)
    → IsGood content t
    → Keeps content t u
    → IsGood content u
Keeps-IsGood content t u g k = record {
  valid = k.valid;
  agrees = k.agrees;
  has_bytes = λ j e. g.has_bytes j (sym (k.same j) ∙ e);
}

pub demote-IsGood :
    (content : BlockId → Bytes) (id : BlockId) (t : TieredStore)
    → IsGood content t
    → IsGood content (demote id t).0
demote-IsGood content id t g =
    Keeps-IsGood content t (demote id t).0 g (demote-Demoted content id t g.valid g.agrees).keeps

-- A block as a client may put it: of a legal size, with bytes, and with the content of its id.
pub record IsLegal (content : BlockId → Bytes) (b : KvBlock) : Type 0 where
  pub small : length b.bytes < max_size
  pub of_id : b.bytes ≡ content b.id
  pub some_bytes : b.bytes ≢ []

-- The two ways that `Put` can go.
pub data PutResult (content : BlockId → Bytes) (b : KvBlock) (t : TieredStore)
    : TieredStore × Option Tier → Type 0 where
  refused : PutResult content b t (t, none)
  taken :
      {u : TieredStore} (x : Tier)
      → IsGood content u
      → ((j : BlockId) → stored j u ≡ ite (id_dec j b.id) (some b.bytes) (stored j t))
      → PutResult content b t (u, some x)

Outcome-PutResult :
    (content : BlockId → Bytes) (b : KvBlock) (t : TieredStore) (r : TieredStore × Option Tier)
    → IsLegal content b
    → IsGood content t
    → PutOutcome content b t r
    → PutResult content b t r
Outcome-PutResult content b t (u, none) legal g o =
    subst (λ (w : TieredStore). PutResult content b t (w, none)) (sym o) refused
Outcome-PutResult content b t (u, some x) legal g (valid, agrees, held) =
    taken x (record { valid = valid; agrees = agrees; has_bytes = has_bytes }) held
  where
    has_bytes : (j : BlockId) → stored j u ≢ some []
    has_bytes j e = elim (id_dec j b.id) [
      | yes p ↦ legal.some_bytes (cc (if_pos (id_dec j b.id) p (some b.bytes) (stored j t), held j))
      | no p ↦
          g.has_bytes j
            (sym (if_neg (id_dec j b.id) p (some b.bytes) (stored j t)) ∙ sym (held j) ∙ e)
    ]

pub put-PutResult :
    (content : BlockId → Bytes) (b : KvBlock) (hint : Tier) (t : TieredStore)
    → IsLegal content b
    → IsGood content t
    → PutResult content b t (put b hint t)
put-PutResult content b hint t legal g =
    Outcome-PutResult content b t (put b hint t) legal g
      (put-Outcome content b hint t legal.small legal.of_id g.valid g.agrees)

-- After `Erase` the erased block is gone and the others are as they were.
pub stored-erase :
    (id j : BlockId) (t : TieredStore)
    → IsValid t
    → stored j (erase id t).0 ≡ ite (id_dec j id) none (stored j t)
stored-erase id j t v =
    let e = erase-Erased id t v in ground (arith, e.copies hbm j, e.copies dram j, e.copies ssd j)

pub erase-IsGood :
    (content : BlockId → Bytes) (id : BlockId) (t : TieredStore)
    → IsGood content t
    → IsGood content (erase id t).0
erase-IsGood content id t g =
    let e = erase-Erased id t g.valid in
    record {
      valid = e.valid;
      agrees = λ x j bs held. ground (arith, e.copies x j, g.agrees x j bs);
      has_bytes = λ j held. ground (arith, stored-erase id j t g.valid, g.has_bytes j);
    }

-- `MarkVisited` and `ClearVisited` touch no copy.
pub mark_visited-IsGood :
    (content : BlockId → Bytes) (id : BlockId) (t : TieredStore)
    → IsGood content t
    → IsGood content (mark_visited id t)
unfolding mark_visited copy
mark_visited-IsGood content id t g = record {
  valid = record {
    hbm_valid = g.valid.hbm_valid;
    dram_valid = g.valid.dram_valid;
    ssd_valid = g.valid.ssd_valid;
  };
  agrees = λ x j bs held. g.agrees x j bs (sym (same x j) ∙ held);
  has_bytes = g.has_bytes;
}
  where
    same : (x : Tier) (j : BlockId) → copy x j (mark_visited id t) ≡ copy x j t
    same hbm j = refl
    same dram j = refl
    same ssd j = refl

pub stored-mark_visited :
    (id j : BlockId) (t : TieredStore) → stored j (mark_visited id t) ≡ stored j t
unfolding mark_visited copy
stored-mark_visited id j t = refl

pub clear_visited-IsGood :
    (content : BlockId → Bytes) (id : BlockId) (t : TieredStore)
    → IsGood content t
    → IsGood content (clear_visited id t)
unfolding clear_visited copy
clear_visited-IsGood content id t g = record {
  valid = record {
    hbm_valid = g.valid.hbm_valid;
    dram_valid = g.valid.dram_valid;
    ssd_valid = g.valid.ssd_valid;
  };
  agrees = λ x j bs held. g.agrees x j bs (sym (same x j) ∙ held);
  has_bytes = g.has_bytes;
}
  where
    same : (x : Tier) (j : BlockId) → copy x j (clear_visited id t) ≡ copy x j t
    same hbm j = refl
    same dram j = refl
    same ssd j = refl

pub stored-clear_visited :
    (id j : BlockId) (t : TieredStore) → stored j (clear_visited id t) ≡ stored j t
unfolding clear_visited copy
stored-clear_visited id j t = refl
