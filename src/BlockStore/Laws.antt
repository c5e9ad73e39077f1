-- ===== src/BlockStore/Laws.antt =====
-- What the methods of a BlockStore promise, whatever the store holds.
use mathlib.Core.Option.{get_or}
use mathlib.Core.List.{lookup}
use lethe.Base.{
  ℕ, ◌+◌, ◌≤◌, ◌<◌, ◌≡◌, refl, true, false, none, some, length, ap, ite, arith, inl, inr,
  Option-cases, Bool-cases, ltb, ltb→le, add64,
}
use lethe.Base.Assoc.{lookup-remove, remove-IsMap, total-remove, All-remove}
use lethe.BlockStore.{BlockStore, put, get, erase, make, IsValid, block_layer}
use lethe.Layer.{max_size, LayerLaws}
use lethe.Types.{Tier, Bytes, BlockId, KvBlock, id_dec}

pub make-IsValid : (tier : Tier) (capacity : ℕ) → capacity < max_size → IsValid (make tier capacity)
unfolding make
make-IsValid tier capacity h = ground arith

-- `Put` of a block of a legal size keeps a memory store well formed: its ids are distinct, its
-- count of bytes is the sum over its blocks and at most its capacity, and each block stands under
-- its id with the tier of the store.
pub put-IsValid :
    (b : KvBlock) (s : BlockStore) → length b.bytes < max_size → IsValid s → IsValid (put b s).0
unfolding put
put-IsValid b s h v = elim (Option-cases (lookup id_dec b.id s.blocks)) [
  | inr (kv, e) ↦ rw (e, put) v
  | inl e ↦ elim (Bool-cases (ltb s.capacity (add64 s.used (length b.bytes)))) [
    | inl full ↦ rw (e, put, full) v
    | inr fits ↦
        let room : s.used + length b.bytes ≤ s.capacity = omega (
          arith,
          ltb→le s.capacity (add64 s.used (length b.bytes)) fits,
          v.bounded,
          v.addressable,
        ) in
        rw (e, put, fits)
          (record {
            distinct = (e, v.distinct);
            counted = omega (arith, v.counted, v.addressable);
            bounded = omega (arith, v.addressable);
            addressable = v.addressable;
            own = ((refl, refl), v.own);
          })
  ]
]

pub erase-IsValid : (id : BlockId) (s : BlockStore) → IsValid s → IsValid (erase id s).0
unfolding erase
erase-IsValid id s v = elim (Option-cases (lookup id_dec id s.blocks)) [
  | inl e ↦ rw (e, erase) v
  | inr (kv, e) ↦
      rw (e, erase)
        (record {
          distinct = remove-IsMap id_dec id s.blocks v.distinct;
          counted = omega (
            arith,
            total-remove id_dec (λ (b : KvBlock). length b.bytes) id s.blocks kv e,
            v.counted,
            v.bounded,
            v.addressable,
          );
          bounded = omega (
            arith,
            total-remove id_dec (λ (b : KvBlock). length b.bytes) id s.blocks kv e,
            v.counted,
            v.bounded,
            v.addressable,
          );
          addressable = v.addressable;
          own = All-remove id_dec _ id s.blocks v.own;
        })
]

pub put_refused : (b : KvBlock) (s : BlockStore) → (put b s).1 ≡ false → (put b s).0 ≡ s
unfolding put
put_refused b s h = ground arith

-- After an accepted `Put` a memory store returns for the id of the block the bytes that it had
-- under it, or else those of the block, and for every other id what it returned before.
pub get-put :
    (b : KvBlock) (s : BlockStore) (j : BlockId)
    → (put b s).1 ≡ true
    → get j (put b s).0 ≡ ite (id_dec j b.id) (some (get_or (get b.id s) b.bytes)) (get j s)
unfolding put get lookup
get-put b s j h = ground arith

pub get-erase :
    (id : BlockId) (s : BlockStore) (j : BlockId)
    → IsValid s
    → get j (erase id s).0 ≡ ite (id_dec j id) none (get j s)
unfolding erase get
get-erase id s j v = ground (arith, lookup-remove id_dec id j s.blocks v.distinct)

-- The bytes that `Erase` of a well-formed memory store reports are the bytes by which its count
-- falls.
pub used-erase :
    (id : BlockId) (s : BlockStore) → IsValid s → (erase id s).0.used + (erase id s).1 ≡ s.used
unfolding erase
used-erase id s v = elim (Option-cases (lookup id_dec id s.blocks)) [
  | inl e ↦ rw (e, erase) (omega arith)
  | inr (kv, e) ↦
      rw (e, erase)
        (omega (
          arith,
          total-remove id_dec (λ (b : KvBlock). length b.bytes) id s.blocks kv e,
          v.counted,
          v.bounded,
          v.addressable,
        ))
]

pub get-lt-max_size :
    (id : BlockId) (s : BlockStore) (bs : Bytes)
    → IsValid s
    → get id s ≡ some bs
    → length bs < max_size
unfolding get
get-lt-max_size id s bs v e = elim (Option-cases (lookup id_dec id s.blocks)) [
  | inl f ↦ absurd (ground arith)
  | inr (kv, f) ↦
      let same : length kv.bytes ≡ length bs = ap length {x = kv.bytes} (ground arith) in
      omega (
        arith,
        same,
        total-remove id_dec (λ (b : KvBlock). length b.bytes) id s.blocks kv f,
        v.counted,
        v.bounded,
        v.addressable,
      )
]

abbrev pub block_laws : LayerLaws block_layer
block_laws = record {
  IsValid = IsValid;
  put-IsValid = put-IsValid;
  erase-IsValid = erase-IsValid;
  put_refused = put_refused;
  get-put = λ b s j _ _. get-put b s j;
  get-erase = get-erase;
  used-erase = used-erase;
  get-lt-max_size = get-lt-max_size;
  used-le-capacity = λ s v. v.bounded;
}
