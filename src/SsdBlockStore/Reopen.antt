-- ===== src/SsdBlockStore/Reopen.antt =====
-- Persistence over a process restart: the index rebuilt from the slot headers answers as the one
-- that the old process kept.
use mathlib.Core.List.{lookup}
use lethe.Base.{
  ℕ, zero, suc, ◌-◌, ◌*◌, ◌/◌, ◌^◌, ◌≤◌, ◌<◌, ◌≡◌, refl, sym, ap, subst, ◌∙◌, some, [], arith, inl,
  inr, Option-cases, mul64,
}
use lethe.Base.Assoc.{lookup-All}
use lethe.SsdBlockStore.{
  SsdBlockStore, Slot, slot_id, header_size, get_copy, rebuild_slot, rebuild_below, rebuild_index,
  open_file,
}
use lethe.SsdBlockStore.Slots.{Holds, IsValid}
use lethe.SsdBlockStore.Restart.{IsBlock, IsComplete, Scanned, Scanned-slot, IsComplete→IsUnique}
use lethe.Layer.{max_size}
use lethe.Types.{BlockId, id_dec}

-- The scan leaves the file and its geometry alone.
record SameFile (s t : SsdBlockStore) : Type 0 where
  slots : t.slots ≡ s.slots
  slot_payload_bytes : t.slot_payload_bytes ≡ s.slot_payload_bytes
  total_slots : t.total_slots ≡ s.total_slots

rebuild_slot-SameFile : (n : ℕ) (s t : SsdBlockStore) → SameFile s t → SameFile s (rebuild_slot n t)
unfolding rebuild_slot
rebuild_slot-SameFile n s t h = ground arith

rebuild_below-SameFile : (n : ℕ) (s : SsdBlockStore) → SameFile s (rebuild_below n s)
unfolding rebuild_below
rebuild_below-SameFile zero s = record {
  slots = refl;
  slot_payload_bytes = refl;
  total_slots = refl;
}
rebuild_below-SameFile (suc n) s =
    rebuild_slot-SameFile n s (rebuild_below n s) (rebuild_below-SameFile n s)

Scanned-below :
    (n : ℕ) (s : SsdBlockStore) → Scanned 0 s → n ≤ s.total_slots → Scanned n (rebuild_below n s)
unfolding rebuild_below
Scanned-below zero s v h = v
Scanned-below (suc n) s v h =
    Scanned-slot n (rebuild_below n s) (Scanned-below n s v (omega arith))
      (omega (arith, (rebuild_below-SameFile n s).total_slots))

Scanned→IsValid :
    (s : SsdBlockStore) → Scanned s.total_slots s → IsValid (record s { bump_next = s.total_slots })
Scanned→IsValid s v = record {
  distinct = v.distinct;
  holds = v.holds;
  free = v.free;
  bumped = refl;
  counted = v.counted;
  slots_counted = v.slots_counted;
  usable = v.usable;
  narrow = v.narrow;
  addressable = v.addressable;
}

-- The store before its scan.
abbrev blank : (ℕ → Slot) → ℕ → ℕ → SsdBlockStore
blank slots capacity_bytes slot_bytes = record {
  slot_payload_bytes = slot_bytes - header_size;
  total_slots = capacity_bytes / slot_bytes;
  usable_bytes = mul64 (capacity_bytes / slot_bytes) (slot_bytes - header_size);
  slots = slots;
  index = [];
  free_slots = [];
  bump_next = 0;
  used = 0;
}

-- The sizes that the constructor takes, and whose products fit the machine's words.
pub record IsGeometry (capacity_bytes slot_bytes : ℕ) : Type 0 where
  pub header_fits : header_size < slot_bytes
  pub some_slot : 0 < capacity_bytes / slot_bytes
  pub narrow : slot_bytes < 2 ^ 32
  pub addressable : (capacity_bytes / slot_bytes) * (slot_bytes - header_size) < max_size

-- No two slots of a file hold live headers of one id.
abbrev pub IsUniqueFile : (ℕ → Slot) → ℕ → ℕ → Type 0
IsUniqueFile slots capacity_bytes slot_bytes =
    (m n : ℕ)
    → m < capacity_bytes / slot_bytes
    → n < capacity_bytes / slot_bytes
    → IsBlock (slot_bytes - header_size) (slots m)
    → IsBlock (slot_bytes - header_size) (slots n)
    → slot_id (slots m) ≡ slot_id (slots n)
    → m ≡ n

module _ (slots : ℕ → Slot) (cap sb : ℕ) (g : IsGeometry cap sb)
    (u : IsUniqueFile slots cap sb) where
  opened : SsdBlockStore
  opened = rebuild_index (blank slots cap sb)

  open_file-opened : open_file slots cap sb ≡ some opened
  unfolding open_file opened
  open_file-opened = ground (arith, g.header_fits, g.some_slot)

  blank-Scanned : Scanned 0 (blank slots cap sb)
  blank-Scanned = record {
    unique = u;
    within = omega arith;
    distinct = tt;
    holds = tt;
    free = tt;
    counted = refl;
    slots_counted = omega arith;
    indexed = λ m h. absurd (omega arith);
    usable = grind (arith, g.addressable);
    narrow = omega (arith, g.narrow);
    addressable = omega (arith, g.addressable);
  }

  same : SameFile (blank slots cap sb) (rebuild_below (cap / sb) (blank slots cap sb))
  same = rebuild_below-SameFile (cap / sb) (blank slots cap sb)

  opened-Scanned :
      Scanned
        (rebuild_below (cap / sb) (blank slots cap sb)).total_slots
        (rebuild_below (cap / sb) (blank slots cap sb))
  opened-Scanned =
      subst (λ n. Scanned n (rebuild_below (cap / sb) (blank slots cap sb))) (sym same.total_slots)
        (Scanned-below (cap / sb) (blank slots cap sb) blank-Scanned (omega arith))

  opened-IsValid : IsValid opened
  unfolding opened rebuild_index
  opened-IsValid = Scanned→IsValid _ opened-Scanned

  opened-IsComplete : IsComplete opened
  unfolding opened rebuild_index
  opened-IsComplete = opened-Scanned.indexed

  opened-file :
      (opened.slots ≡ slots)
      × (opened.slot_payload_bytes ≡ sb - header_size)
      × (opened.total_slots ≡ cap / sb)
  unfolding opened rebuild_index
  opened-file = (same.slots, same.slot_payload_bytes, same.total_slots)

-- Two complete indexes of one file agree.
index-agree :
    (s t : SsdBlockStore) (id : BlockId) (n : ℕ)
    → IsValid s
    → IsComplete t
    → s.slots ≡ t.slots
    → s.slot_payload_bytes ≡ t.slot_payload_bytes
    → s.total_slots ≡ t.total_slots
    → lookup id_dec id s.index ≡ some n
    → lookup id_dec id t.index ≡ some n
index-agree s t id n v c es el et e =
    let h : Holds s.slot_payload_bytes s.total_slots s.slots (id, n) =
      lookup-All id_dec (Holds s.slot_payload_bytes s.total_slots s.slots) id s.index v.holds e in
    let at : t.slots n ≡ s.slots n = ap (λ (f : ℕ → Slot). f n) (sym es) in
    let b : IsBlock t.slot_payload_bytes (t.slots n) = record {
      live = ap (λ (x : Slot). x.magic) at ∙ h.live;
      sized = omega (arith, h.sized, ap (λ (x : Slot). x.payload_size) at);
    } in
    let named : slot_id (t.slots n) ≡ id = ap (λ (x : Slot). slot_id x) at ∙ h.named in
    subst (λ i. lookup id_dec i t.index ≡ some n) named (c n (omega (arith, h.in_file)) b)

lookup-agree :
    (s t : SsdBlockStore) (id : BlockId)
    → IsValid s
    → IsValid t
    → IsComplete s
    → IsComplete t
    → s.slots ≡ t.slots
    → s.slot_payload_bytes ≡ t.slot_payload_bytes
    → s.total_slots ≡ t.total_slots
    → lookup id_dec id t.index ≡ lookup id_dec id s.index
lookup-agree s t id vs vt cs ct es el et = elim (Option-cases (lookup id_dec id s.index)) [
  | inr (n, e) ↦ index-agree s t id n vs ct es el et e ∙ sym e
  | inl e ↦ elim (Option-cases (lookup id_dec id t.index)) [
    | inl f ↦ f ∙ sym e
    | inr (n, f) ↦ cc (index-agree t s id n vt cs (sym es) (sym el) (sym et) f)
  ]
]

get_copy-agree :
    (s t : SsdBlockStore) (id : BlockId)
    → s.slots ≡ t.slots
    → lookup id_dec id t.index ≡ lookup id_dec id s.index
    → get_copy id t ≡ get_copy id s
unfolding get_copy
get_copy-agree s t id es e = elim (Option-cases (lookup id_dec id s.index)) [
  | inl f ↦ ground arith
  | inr (n, f) ↦
      let at : t.slots n ≡ s.slots n = ap (λ (x : ℕ → Slot). x n) (sym es) in ground arith
]

-- The store is a view of a file of this size, in slots of this size.
pub record IsViewOf (capacity_bytes slot_bytes : ℕ) (s : SsdBlockStore) : Type 0 where
  pub limit : s.slot_payload_bytes ≡ slot_bytes - header_size
  pub count : s.total_slots ≡ capacity_bytes / slot_bytes

-- A file of legal sizes in which no two slots hold live headers of one id opens as a well-formed
-- store of its geometry whose index has every block of the file.
pub open_file-IsValid :
    (slots : ℕ → Slot) (cap sb : ℕ)
    → IsGeometry cap sb
    → IsUniqueFile slots cap sb
    → (t : SsdBlockStore) × (open_file slots cap sb ≡ some t)
      × IsValid t
      × IsComplete t
      × IsViewOf cap sb t
open_file-IsValid slots cap sb g u =
    let f = opened-file slots cap sb g u in
    (
      opened slots cap sb g u,
      open_file-opened slots cap sb g u,
      opened-IsValid slots cap sb g u,
      opened-IsComplete slots cap sb g u,
      record { limit = f.1; count = f.2 },
    )

-- Opening the file of a well-formed store with a complete index, which is a view of a file of legal
-- sizes, succeeds; the new store is well formed and returns for every id what the old one returned.
pub reopen :
    (s : SsdBlockStore) (cap sb : ℕ)
    → IsGeometry cap sb
    → IsValid s
    → IsComplete s
    → IsViewOf cap sb s
    → (t : SsdBlockStore) × (open_file s.slots cap sb ≡ some t)
      × IsValid t
      × ((id : BlockId) → get_copy id t ≡ get_copy id s)
reopen s cap sb g v c w =
    let u : IsUniqueFile s.slots cap sb =
      subst
        (λ (p : ℕ × ℕ).
          (m n : ℕ)
          → m < p.1
          → n < p.1
          → IsBlock p.0 (s.slots m)
          → IsBlock p.0 (s.slots n)
          → slot_id (s.slots m) ≡ slot_id (s.slots n)
          → m ≡ n)
        (λ i. (w.limit i, w.count i)) (IsComplete→IsUnique s c) in
    let t = opened s.slots cap sb g u in
    let f = opened-file s.slots cap sb g u in
    (
      t,
      open_file-opened s.slots cap sb g u,
      opened-IsValid s.slots cap sb g u,
      λ id. get_copy-agree s t id (sym f.0) (
          lookup-agree s t id v (opened-IsValid s.slots cap sb g u) c
            (opened-IsComplete s.slots cap sb g u) (sym f.0) (w.limit ∙ sym f.1)
            (w.count ∙ sym f.2)),
    )
