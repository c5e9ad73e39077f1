-- ===== src/SsdBlockStore/Laws.antt =====
-- What the methods of an SsdBlockStore promise, whatever the store holds.
use mathlib.Core.Option.{get_or}
use mathlib.Core.List.{lookup}
use lethe.Base.{
  ℕ, ◌+◌, ◌^◌, ◌%◌, ◌≤◌, ◌<◌, ◌≡◌, refl, ap, subst, ◌∙◌, ◌≢◌, Bool, true, false, none, some, List,
  [], ◌∷◌, length, take, drop, take-append, length-take-le, ite, if_pos, if_neg, ◌⊎◌, arith, inl,
  inr, Option-cases, Bool-cases, ltb, ltb→le,
}
use lethe.Base.Assoc.{remove, lookup-remove, total-remove, lookup-All}
use lethe.SsdBlockStore.{
  SsdBlockStore, Slot, slot_magic_live, write, filled, fill_slot, clear_slot, alloc_slot, put, get,
  erase, ssd_layer,
}
use lethe.SsdBlockStore.Slots.{
  Holds, Avoids, AreFree, IsValid, write_self, Avoids-remove, fill_slot-IsValid, clear_slot-IsValid,
  used-le-usable,
}
use lethe.Layer.{max_size, LayerLaws}
use lethe.Types.{Bytes, BlockId, KvBlock, id_dec}

List-cases {ℓ} : {A : Type ℓ} (l : List A) → (l ≡ []) ⊎ ((x : A) × (r : List A) × (l ≡ x ∷ r))
List-cases [] = inl refl
List-cases (x ∷ r) = inr (x, r, refl)

alloc-cons :
    (s : SsdBlockStore) (n : ℕ) (rest : List ℕ)
    → s.free_slots ≡ n ∷ rest
    → alloc_slot s ≡ (record s { free_slots = rest }, some n)
unfolding alloc_slot
alloc-cons s n rest e = ground arith

alloc-nil :
    (s : SsdBlockStore) → s.free_slots ≡ [] → s.bump_next ≡ s.total_slots → alloc_slot s ≡ (s, none)
unfolding alloc_slot
alloc-nil s e h = ground arith

-- The four ways that `put` can go.
pub put_cases {ℓ} :
    (P : SsdBlockStore × Bool → Type ℓ) (b : KvBlock) (s : SsdBlockStore)
    → IsValid s
    → P (s, false)
    → ((n : ℕ) → lookup id_dec b.id s.index ≡ some n → P (s, true))
    → ((n : ℕ) (rest : List ℕ)
        → s.free_slots ≡ n ∷ rest
        → lookup id_dec b.id s.index ≡ none
        → length b.bytes ≤ s.slot_payload_bytes
        → P (fill_slot b n (record s { free_slots = rest }), true))
    → P (put b s)
unfolding put
put_cases P b s v refused known fresh =
    elim (Bool-cases (ltb s.slot_payload_bytes (length b.bytes))) [
      | inl big ↦ rw (big, put) refused
      | inr fits ↦ elim (Option-cases (lookup id_dec b.id s.index)) [
        | inr (n, e) ↦ rw (fits, e, put) (known n e)
        | inl e ↦ elim (List-cases s.free_slots) [
          | inr (n, rest, f) ↦
              rw (fits, e, alloc-cons s n rest f, put)
                (rw (alloc-cons s n rest f) (fresh n rest f e (ltb→le _ _ fits)))
          | inl f ↦ rw (fits, e, alloc-nil s f v.bumped, put) (rw (alloc-nil s f v.bumped) refused)
        ]
      ]
    ]

pub put-IsValid : (b : KvBlock) (s : SsdBlockStore) → IsValid s → IsValid (put b s).0
put-IsValid b s v =
    put_cases (λ r. IsValid r.0) b s v v (λ n e. v)
      λ n rest f e h. fill_slot-IsValid b n rest s v f e h

-- `Erase` keeps an SSD store well formed: the index points to distinct live slots with the ids that
-- it names, the free list has each free slot once, and the count of bytes is the sum over the
-- index.
pub erase-IsValid : (id : BlockId) (s : SsdBlockStore) → IsValid s → IsValid (erase id s).0
unfolding erase
erase-IsValid id s v = elim (Option-cases (lookup id_dec id s.index)) [
  | inl e ↦ rw (e, erase) v
  | inr (n, e) ↦ rw (e, erase) (clear_slot-IsValid id n s v e)
]

pub put_refused : (b : KvBlock) (s : SsdBlockStore) → (put b s).1 ≡ false → (put b s).0 ≡ s
unfolding put alloc_slot
put_refused b s h = ground arith

-- A block of the index is read from its slot.
get-live :
    (id : BlockId) (s : SsdBlockStore) (n : ℕ)
    → (s.slots n).magic ≡ slot_magic_live
    → lookup id_dec id s.index ≡ some n
    → get id s ≡ some (take (s.slots n).payload_size (s.slots n).payload)
unfolding get
get-live id s n h e = ground arith

-- A write to another block's slot is not seen.
get-write :
    (n : ℕ) (slot : Slot) (s : SsdBlockStore) (j : BlockId)
    → Avoids n s.index
    → get j (record s { slots = write n slot s.slots }) ≡ get j s
unfolding get write
get-write n slot s j a = elim (Option-cases (lookup id_dec j s.index)) [
  | inl e ↦ ground arith
  | inr (m, e) ↦ ground (arith, lookup-All id_dec (λ x. x.1 ≢ n) j s.index a e)
]

get-fill_slot :
    (b : KvBlock) (n : ℕ) (rest : List ℕ) (s : SsdBlockStore) (j : BlockId)
    → Avoids n s.index
    → length b.bytes < 2 ^ 32
    → get j (fill_slot b n (record s { free_slots = rest }))
      ≡ ite (id_dec j b.id) (some b.bytes) (get j s)
get-fill_slot b n rest s j a small = elim (id_dec j b.id) [
  | yes p ↦ rw (if_pos _ p) (filled_slot p)
  | no p ↦ rw (if_neg _ p) (other p ∙ get-write n (filled b (s.slots n)) s j a)
]
  where
    after : SsdBlockStore
    after = fill_slot b n (record s { free_slots = rest })

    slot-after : after.slots n ≡ filled b (s.slots n)
    slot-after = unfold fill_slot in write_self n (filled b (s.slots n)) s.slots

    size : length b.bytes % 2 ^ 32 ≡ length b.bytes
    size = omega arith

    filled_slot : j ≡ b.id → get j after ≡ some b.bytes
    filled_slot p =
        get-live j after n (ap (λ (x : Slot). x.magic) slot-after)
          (unfold fill_slot lookup in ground arith)
        ∙ ap (λ (x : Slot). some (take x.payload_size x.payload)) slot-after
        ∙ rw size (ap some (take-append b.bytes (drop (length b.bytes) (s.slots n).payload)))

    other :
        j ≢ b.id → get j after ≡ get j (record s { slots = write n (filled b (s.slots n)) s.slots })
    other p = unfold fill_slot get lookup in ground arith

pub get-put :
    (b : KvBlock) (s : SsdBlockStore) (j : BlockId)
    → IsValid s
    → (put b s).1 ≡ true
    → get j (put b s).0 ≡ ite (id_dec j b.id) (some (get_or (get b.id s) b.bytes)) (get j s)
get-put b s j v =
    put_cases
      (λ r.
        r.1 ≡ true → get j r.0 ≡ ite (id_dec j b.id) (some (get_or (get b.id s) b.bytes)) (get j s))
      b s v (λ h. cc) known fresh
  where
    known :
        (n : ℕ)
        → lookup id_dec b.id s.index ≡ some n
        → true ≡ true
        → get j s ≡ ite (id_dec j b.id) (some (get_or (get b.id s) b.bytes)) (get j s)
    known n e _ =
        ground (arith, get-live b.id s n (lookup-All id_dec _ b.id s.index v.holds e).live e)

    fresh :
        (n : ℕ) (rest : List ℕ)
        → s.free_slots ≡ n ∷ rest
        → lookup id_dec b.id s.index ≡ none
        → length b.bytes ≤ s.slot_payload_bytes
        → true ≡ true
        → get j (fill_slot b n (record s { free_slots = rest }))
          ≡ ite (id_dec j b.id) (some (get_or (get b.id s) b.bytes)) (get j s)
    fresh n rest f e fits _ =
        let free : AreFree s.total_slots s.index (n ∷ rest) =
          subst (AreFree s.total_slots s.index) f v.free in
        let absent : get b.id s ≡ none = unfold get in ground arith in
        rw absent (get-fill_slot b n rest s j free.1 (omega (arith, v.narrow)))

-- After `Erase` a well-formed SSD store misses the id, and returns for every other id what it
-- returned before.
pub get-erase :
    (id : BlockId) (s : SsdBlockStore) (j : BlockId)
    → IsValid s
    → get j (erase id s).0 ≡ ite (id_dec j id) none (get j s)
unfolding erase
get-erase id s j v = elim (Option-cases (lookup id_dec id s.index)) [
  | inl e ↦ rw (e, erase) (unfold get in ground arith)
  | inr (n, e) ↦ rw (e, erase) (cleared n e)
]
  where
    cleared :
        (n : ℕ)
        → lookup id_dec id s.index ≡ some n
        → get j (clear_slot id n s) ≡ ite (id_dec j id) none (get j s)
    cleared n e =
        let h : Holds s.slot_payload_bytes s.total_slots s.slots (id, n) =
          lookup-All id_dec _ id s.index v.holds e in
        let away : Avoids n (remove id_dec id s.index) =
          Avoids-remove id n s.slot_payload_bytes s.total_slots s.slots s.index v.distinct v.holds
            h.named in
        let rest : SsdBlockStore = record s { index = remove id_dec id s.index } in
        unfold clear_slot get in
        get-write n _ rest j away
        ∙ (unfold get in ground (arith, lookup-remove id_dec id j s.index v.distinct))

pub used-erase :
    (id : BlockId) (s : SsdBlockStore) → IsValid s → (erase id s).0.used + (erase id s).1 ≡ s.used
unfolding erase clear_slot
used-erase id s v = elim (Option-cases (lookup id_dec id s.index)) [
  | inl e ↦ rw (e, erase) (omega arith)
  | inr (n, e) ↦
      rw (e, erase)
        (omega (
          arith,
          total-remove id_dec (λ (m : ℕ). (s.slots m).payload_size) id s.index n e,
          v.counted,
          used-le-usable s v,
          v.addressable,
        ))
]

pub get-lt-max_size :
    (id : BlockId) (s : SsdBlockStore) (bs : Bytes)
    → IsValid s
    → get id s ≡ some bs
    → length bs < max_size
get-lt-max_size id s bs v e = elim (Option-cases (lookup id_dec id s.index)) [
  | inl f ↦ cc (absent f)
  | inr (n, f) ↦
      let h : Holds s.slot_payload_bytes s.total_slots s.slots (id, n) =
        lookup-All id_dec _ id s.index v.holds f in
      let same : take (s.slots n).payload_size (s.slots n).payload ≡ bs =
        cc (get-live id s n h.live f) in
      omega (
        arith,
        ap length same,
        length-take-le (s.slots n).payload_size (s.slots n).payload,
        h.sized,
        v.narrow,
      )
]
  where
    absent : lookup id_dec id s.index ≡ none → get id s ≡ none
    absent f = unfold get in ground arith

abbrev pub ssd_laws : LayerLaws ssd_layer
ssd_laws = record {
  IsValid = IsValid;
  put-IsValid = λ b s _. put-IsValid b s;
  erase-IsValid = erase-IsValid;
  put_refused = put_refused;
  get-put = λ b s j _. get-put b s j;
  get-erase = get-erase;
  used-erase = used-erase;
  get-lt-max_size = get-lt-max_size;
  used-le-capacity = used-le-usable;
}
