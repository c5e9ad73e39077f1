-- ===== src/SsdBlockStore/Slots.antt =====
-- The well-formed SSD stores, and what the writes to single slots keep.
use mathlib.Core.List.{lookup}
use lethe.Base.{
  ℕ, ◌+◌, ◌*◌, ◌^◌, ◌≤◌, ◌<◌, ◌≡◌, refl, sym, ap, subst, ◌∙◌, ◌%◌, if_pos, if_neg, ℕ_discrete, ◌≢◌,
  none, some, List, [], ◌∷◌, length, All, arith,
}
use lethe.Base.Assoc.{remove, IsMap, total, remove-IsMap, total-remove, All-remove, lookup-All}
use lethe.SsdBlockStore.{
  SsdBlockStore, Slot, slot_id, slot_magic_live, write, filled, fill_slot, clear_slot,
}
use lethe.Layer.{max_size}
use lethe.Types.{BlockId, KvBlock, id_dec}

-- Slot `n` holds a live block with this id, whose payload lies within the slot.
pub record Holds (limit total_slots : ℕ) (slots : ℕ → Slot) (e : BlockId × ℕ) : Type 0 where
  pub in_file : e.1 < total_slots
  pub live : (slots e.1).magic ≡ slot_magic_live
  pub named : slot_id (slots e.1) ≡ e.0
  pub sized : (slots e.1).payload_size ≤ limit

-- No entry of the index points to slot `n`.
abbrev pub Avoids : ℕ → List (BlockId × ℕ) → Type 0
Avoids n = All (λ e. e.1 ≢ n)

-- The free slots lie in the file, are no block's, and are listed once.
abbrev pub AreFree : ℕ → List (BlockId × ℕ) → List ℕ → Type 0
AreFree total_slots index [] = Unit {0}
AreFree total_slots index (n ∷ ns) =
    (n < total_slots) × Avoids n index × All (λ m. m ≢ n) ns × AreFree total_slots index ns

pub record IsValid (s : SsdBlockStore) : Type 0 where
  pub distinct : IsMap id_dec s.index
  pub holds : All (Holds s.slot_payload_bytes s.total_slots s.slots) s.index
  pub free : AreFree s.total_slots s.index s.free_slots
  pub bumped : s.bump_next ≡ s.total_slots
  pub counted : s.used ≡ total (λ n. (s.slots n).payload_size) s.index
  pub slots_counted : length s.index + length s.free_slots ≤ s.total_slots
  pub usable : s.usable_bytes ≡ s.total_slots * s.slot_payload_bytes
  pub narrow : s.slot_payload_bytes < 2 ^ 32
  pub addressable : s.usable_bytes < max_size

pub write_self : (n : ℕ) (slot : Slot) (slots : ℕ → Slot) → write n slot slots n ≡ slot
unfolding write
write_self n slot slots = if_pos (ℕ_discrete n n) refl slot (slots n)

-- A write to a slot that no entry points to leaves the entries as they are.
pub write-Holds :
    (n : ℕ) (slot : Slot) (limit k : ℕ) (slots : ℕ → Slot) (l : List (BlockId × ℕ))
    → Avoids n l
    → All (Holds limit k slots) l
    → All (Holds limit k (write n slot slots)) l
unfolding write
write-Holds n slot limit k slots [] a h = tt
write-Holds n slot limit k slots ((id, m) ∷ l) a h =
    (ground (arith, h.0), write-Holds n slot limit k slots l a.1 h.1)

pub write-total :
    (n : ℕ) (slot : Slot) (slots : ℕ → Slot) (l : List (BlockId × ℕ))
    → Avoids n l
    → total (λ m. (write n slot slots m).payload_size) l ≡ total (λ m. (slots m).payload_size) l
unfolding write
write-total n slot slots [] a = refl
write-total n slot slots ((id, m) ∷ l) a = ground (arith, write-total n slot slots l a.1)

-- Two blocks do not share a slot: the slot's header names one of them.
Avoids-absent :
    (id : BlockId) (n limit k : ℕ) (slots : ℕ → Slot) (l : List (BlockId × ℕ))
    → lookup id_dec id l ≡ none
    → All (Holds limit k slots) l
    → slot_id (slots n) ≡ id
    → Avoids n l
unfolding lookup
Avoids-absent id n limit k slots [] a h e = tt
Avoids-absent id n limit k slots ((j, m) ∷ l) a h e = elim (id_dec id j) [
  | yes p ↦ absurd (ground arith)
  | no p ↦ (
    (λ q. p (sym e ∙ ap (λ x. slot_id (slots x)) (sym q) ∙ h.0.named)),
    Avoids-absent id n limit k slots l (ground arith) h.1 e,
  )
]

pub Avoids-remove :
    (id : BlockId) (n limit k : ℕ) (slots : ℕ → Slot) (l : List (BlockId × ℕ))
    → IsMap id_dec l
    → All (Holds limit k slots) l
    → slot_id (slots n) ≡ id
    → Avoids n (remove id_dec id l)
unfolding remove
Avoids-remove id n limit k slots [] d h e = tt
Avoids-remove id n limit k slots ((j, m) ∷ l) d h e = elim (id_dec id j) [
  | yes p ↦ rw (if_pos _ p) (Avoids-absent j n limit k slots l d.0 h.1 (e ∙ p))
  | no p ↦ rw (if_neg _ p) (
    (λ q. p (sym e ∙ ap (λ x. slot_id (slots x)) (sym q) ∙ h.0.named)),
    Avoids-remove id n limit k slots l d.1 h.1 e,
  )
]

AreFree-remove :
    (id : BlockId) (k : ℕ) (l : List (BlockId × ℕ)) (ns : List ℕ)
    → AreFree k l ns
    → AreFree k (remove id_dec id l) ns
AreFree-remove id k l [] h = tt
AreFree-remove id k l (n ∷ ns) h =
    (h.0, All-remove id_dec (λ e. e.1 ≢ n) id l h.1, h.2, AreFree-remove id k l ns h.3)

AreFree-cons :
    (id : BlockId) (m k : ℕ) (l : List (BlockId × ℕ)) (ns : List ℕ)
    → AreFree k l ns
    → All (λ n. n ≢ m) ns
    → AreFree k ((id, m) ∷ l) ns
AreFree-cons id m k l [] h a = tt
AreFree-cons id m k l (n ∷ ns) h a =
    (h.0, ((λ e. a.0 (sym e)), h.1), h.2, AreFree-cons id m k l ns h.3 a.1)

-- The slot of a block is not free.
used_not_free :
    (id : BlockId) (m k : ℕ) (l : List (BlockId × ℕ)) (ns : List ℕ)
    → lookup id_dec id l ≡ some m
    → AreFree k l ns
    → All (λ n. n ≢ m) ns
used_not_free id m k l [] e h = tt
used_not_free id m k l (n ∷ ns) e h =
    ((λ q. lookup-All id_dec (λ x. x.1 ≢ n) id l h.1 e (sym q)), used_not_free id m k l ns e h.3)

length-remove :
    (id : BlockId) (l : List (BlockId × ℕ)) (n : ℕ)
    → lookup id_dec id l ≡ some n
    → length (remove id_dec id l) + 1 ≡ length l
unfolding lookup remove
length-remove id [] n e = cc
length-remove id ((j, m) ∷ l) n e = ground (arith, length-remove id l n)

pub total-le :
    (limit k : ℕ) (slots : ℕ → Slot) (l : List (BlockId × ℕ))
    → All (Holds limit k slots) l
    → total (λ n. (slots n).payload_size) l ≤ length l * limit
total-le limit k slots [] h = omega arith
total-le limit k slots ((j, m) ∷ l) h = omega (arith, total-le limit k slots l h.1, h.0.sized)

pub used-le-usable : (s : SsdBlockStore) → IsValid s → s.used ≤ s.usable_bytes
used-le-usable s v =
    grind (arith, total-le s.slot_payload_bytes s.total_slots s.slots s.index v.holds)

-- Filling the slot that `AllocSlot` took off the free list.
pub fill_slot-IsValid :
    (b : KvBlock) (n : ℕ) (rest : List ℕ) (s : SsdBlockStore)
    → IsValid s
    → s.free_slots ≡ n ∷ rest
    → lookup id_dec b.id s.index ≡ none
    → length b.bytes ≤ s.slot_payload_bytes
    → IsValid (fill_slot b n (record s { free_slots = rest }))
unfolding fill_slot
fill_slot-IsValid b n rest s v e absent fits =
    let free : AreFree s.total_slots s.index (n ∷ rest) =
      subst (AreFree s.total_slots s.index) e v.free in
    let slot = filled b (s.slots n) in
    let size : (length b.bytes % 2 ^ 32) ≡ length b.bytes = omega (arith, v.narrow) in
    let same = write-total n slot s.slots s.index free.1 in
    record {
      distinct = (absent, v.distinct);
      holds = (
        record {
          in_file = free.0;
          live = rw (write_self n slot s.slots);
          named = rw (write_self n slot s.slots);
          sized = rw (write_self n slot s.slots) (omega arith);
        },
        write-Holds n slot s.slot_payload_bytes s.total_slots s.slots s.index free.1 v.holds,
      );
      free = AreFree-cons b.id n s.total_slots s.index rest free.3 free.2;
      bumped = v.bumped;
      counted = omega (
        arith,
        same,
        size,
        ap (λ (x : Slot). x.payload_size) (write_self n slot s.slots),
        v.counted,
        used-le-usable s v,
        v.addressable,
      );
      slots_counted = omega (arith, v.slots_counted, ap length e);
      usable = v.usable;
      narrow = v.narrow;
      addressable = v.addressable;
    }

pub clear_slot-IsValid :
    (id : BlockId) (n : ℕ) (s : SsdBlockStore)
    → IsValid s
    → lookup id_dec id s.index ≡ some n
    → IsValid (clear_slot id n s)
unfolding clear_slot
clear_slot-IsValid id n s v e =
    let h : Holds s.slot_payload_bytes s.total_slots s.slots (id, n) =
      lookup-All id_dec (Holds s.slot_payload_bytes s.total_slots s.slots) id s.index v.holds e in
    let away : Avoids n (remove id_dec id s.index) =
      Avoids-remove id n s.slot_payload_bytes s.total_slots s.slots s.index v.distinct v.holds
        h.named in
    let same : total (λ m. ((clear_slot id n s).slots m).payload_size) (remove id_dec id s.index)
        ≡ total (λ m. (s.slots m).payload_size) (remove id_dec id s.index) =
      write-total n _ s.slots (remove id_dec id s.index) away in
    record {
      distinct = remove-IsMap id_dec id s.index v.distinct;
      holds =
          write-Holds n _ s.slot_payload_bytes s.total_slots s.slots (remove id_dec id s.index) away
            (All-remove id_dec _ id s.index v.holds);
      free = (
        h.in_file,
        away,
        used_not_free id n s.total_slots s.index s.free_slots e v.free,
        AreFree-remove id s.total_slots s.index s.free_slots v.free,
      );
      bumped = v.bumped;
      counted = omega (
        arith,
        same,
        total-remove id_dec (λ (m : ℕ). (s.slots m).payload_size) id s.index n e,
        v.counted,
        used-le-usable s v,
        v.addressable,
      );
      slots_counted = omega (arith, v.slots_counted, length-remove id s.index n e);
      usable = v.usable;
      narrow = v.narrow;
      addressable = v.addressable;
    }
