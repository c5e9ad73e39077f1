-- ===== src/SsdBlockStore/Restart.antt =====
-- The scan that `SsdBlockStore` makes over the slot headers of an existing file.
use mathlib.Core.List.{lookup}
use lethe.Base.{
  ℕ, suc, ◌+◌, ◌*◌, ◌^◌, ◌≤◌, ◌<◌, ◌≡◌, refl, ap, subst, ◌≢◌, none, some, List, [], ◌∷◌, length,
  All, All-mono, if_pos, dec_lt, arith, inl, inr, Option-cases, Bool-cases, ltb, ltb→le, ltb→lt,
  ◌==◌, add64,
}
use lethe.Base.Assoc.{IsMap, total, lookup-All}
use lethe.SsdBlockStore.{SsdBlockStore, Slot, slot_id, slot_magic_live, rebuild_slot}
use lethe.SsdBlockStore.Slots.{Holds, Avoids, AreFree, total-le}
use lethe.Layer.{max_size}
use lethe.Types.{BlockId, id_dec}

-- The scan takes a slot for a block: its magic is live and its payload fits.
pub record IsBlock (limit : ℕ) (slot : Slot) : Type 0 where
  pub live : slot.magic ≡ slot_magic_live
  pub sized : slot.payload_size ≤ limit

-- Every block of the file below slot `k` is in the index.
abbrev pub IsIndexed : ℕ → SsdBlockStore → Type 0
IsIndexed k s =
    (m : ℕ)
    → m < k
    → IsBlock s.slot_payload_bytes (s.slots m)
    → lookup id_dec (slot_id (s.slots m)) s.index ≡ some m

abbrev pub IsComplete : SsdBlockStore → Type 0
IsComplete s = IsIndexed s.total_slots s

-- No id is in two slots of the file.
abbrev pub IsUnique : SsdBlockStore → Type 0
IsUnique s =
    (m n : ℕ)
    → m < s.total_slots
    → n < s.total_slots
    → IsBlock s.slot_payload_bytes (s.slots m)
    → IsBlock s.slot_payload_bytes (s.slots n)
    → slot_id (s.slots m) ≡ slot_id (s.slots n)
    → m ≡ n

pub IsComplete→IsUnique : (s : SsdBlockStore) → IsComplete s → IsUnique s
IsComplete→IsUnique s c m n hm hn bm bn e =
    ground (arith, c m hm bm, c n hn bn, ap (λ id. lookup id_dec id s.index) e)

-- What holds of the store that the scan has built when it comes to slot `n`.
pub record Scanned (n : ℕ) (s : SsdBlockStore) : Type 0 where
  pub unique : IsUnique s
  pub within : n ≤ s.total_slots
  pub distinct : IsMap id_dec s.index
  pub holds : All (Holds s.slot_payload_bytes n s.slots) s.index
  pub free : AreFree n s.index s.free_slots
  pub counted : s.used ≡ total (λ m. (s.slots m).payload_size) s.index
  pub slots_counted : length s.index + length s.free_slots ≤ n
  pub indexed : IsIndexed n s
  pub usable : s.usable_bytes ≡ s.total_slots * s.slot_payload_bytes
  pub narrow : s.slot_payload_bytes < 2 ^ 32
  pub addressable : s.usable_bytes < max_size

Holds-suc :
    (limit n : ℕ) (slots : ℕ → Slot) (e : BlockId × ℕ)
    → Holds limit n slots e
    → Holds limit (suc n) slots e
Holds-suc limit n slots e h = record {
  in_file = omega (arith, h.in_file);
  live = h.live;
  named = h.named;
  sized = h.sized;
}

Avoids-next :
    (limit n : ℕ) (slots : ℕ → Slot) (l : List (BlockId × ℕ))
    → All (Holds limit n slots) l
    → Avoids n l
Avoids-next limit n slots l =
    All-mono _ _ l (λ e (h : Holds limit n slots e) q. omega (arith, h.in_file))

AreFree-next : (n : ℕ) (l : List (BlockId × ℕ)) (ns : List ℕ) → AreFree n l ns → All (λ m. m ≢ n) ns
AreFree-next n l [] h = tt
AreFree-next n l (m ∷ ns) h = ((λ q. omega (arith, h.0)), AreFree-next n l ns h.3)

AreFree-suc : (n : ℕ) (l : List (BlockId × ℕ)) (ns : List ℕ) → AreFree n l ns → AreFree (suc n) l ns
AreFree-suc n l [] h = tt
AreFree-suc n l (m ∷ ns) h = (omega (arith, h.0), h.1, h.2, AreFree-suc n l ns h.3)

AreFree-grow :
    (id : BlockId) (n : ℕ) (l : List (BlockId × ℕ)) (ns : List ℕ)
    → AreFree n l ns
    → AreFree (suc n) ((id, n) ∷ l) ns
AreFree-grow id n l [] h = tt
AreFree-grow id n l (m ∷ ns) h =
    (omega (arith, h.0), ((λ q. omega (arith, h.0)), h.1), h.2, AreFree-grow id n l ns h.3)

module _ (n : ℕ) (s : SsdBlockStore) (v : Scanned n s) (inside : n < s.total_slots) where
  Scanned-free :
      ¬ IsBlock s.slot_payload_bytes (s.slots n)
      → Scanned (suc n) (record s { free_slots = n ∷ s.free_slots })
  Scanned-free other = record {
    unique = v.unique;
    within = inside;
    distinct = v.distinct;
    holds = All-mono _ _ s.index (Holds-suc s.slot_payload_bytes n s.slots) v.holds;
    free = (
      omega arith,
      Avoids-next s.slot_payload_bytes n s.slots s.index v.holds,
      AreFree-next n s.index s.free_slots v.free,
      AreFree-suc n s.index s.free_slots v.free,
    );
    counted = v.counted;
    slots_counted = omega (arith, v.slots_counted);
    indexed = λ m hm b. elim (dec_lt m n) [
      | yes p ↦ v.indexed m p b
      | no p ↦
          let here : m ≡ n = omega arith in
          absurd (other (subst (λ k. IsBlock s.slot_payload_bytes (s.slots k)) here b))
    ];
    usable = v.usable;
    narrow = v.narrow;
    addressable = v.addressable;
  }

  new_id :
      IsBlock s.slot_payload_bytes (s.slots n) → lookup id_dec (slot_id (s.slots n)) s.index ≡ none
  new_id b = elim (Option-cases (lookup id_dec (slot_id (s.slots n)) s.index)) [
    | inl e ↦ e
    | inr (m, e) ↦
        let h : Holds s.slot_payload_bytes n s.slots (slot_id (s.slots n), m) =
          lookup-All id_dec (Holds s.slot_payload_bytes n s.slots) (slot_id (s.slots n)) s.index
            v.holds e in
        let same : m ≡ n =
          v.unique m n (omega (arith, h.in_file)) inside (record { live = h.live; sized = h.sized })
            b h.named in
        absurd (omega (arith, h.in_file))
  ]

  slots_fit : length s.index * s.slot_payload_bytes + s.slot_payload_bytes ≤ s.usable_bytes
  slots_fit = grind (arith, v.slots_counted, v.usable)

  Scanned-block :
      IsBlock s.slot_payload_bytes (s.slots n)
      → Scanned (suc n) (record s {
        index = (slot_id (s.slots n), n) ∷ s.index;
        used = add64 s.used (s.slots n).payload_size;
      })
  Scanned-block b = record {
    unique = v.unique;
    within = inside;
    distinct = (new_id b, v.distinct);
    holds = (
      record { in_file = omega arith; live = b.live; named = refl; sized = b.sized },
      All-mono _ _ s.index (Holds-suc s.slot_payload_bytes n s.slots) v.holds,
    );
    free = AreFree-grow (slot_id (s.slots n)) n s.index s.free_slots v.free;
    counted = omega (
      arith,
      v.counted,
      total-le s.slot_payload_bytes n s.slots s.index v.holds,
      slots_fit,
      b.sized,
      v.addressable,
    );
    slots_counted = omega (arith, v.slots_counted);
    indexed = λ m hm bm. elim (dec_lt m n) [
      | yes p ↦ unfold lookup in ground (arith, v.indexed m p bm, new_id b)
      | no p ↦
          let here : m ≡ n = omega arith in
          rw here
            (unfold lookup in if_pos (id_dec (slot_id (s.slots n)) (slot_id (s.slots n))) refl _ _)
    ];
    usable = v.usable;
    narrow = v.narrow;
    addressable = v.addressable;
  }

pub Scanned-slot :
    (n : ℕ) (s : SsdBlockStore)
    → Scanned n s
    → n < s.total_slots
    → Scanned (suc n) (rebuild_slot n s)
unfolding rebuild_slot
Scanned-slot n s v inside = elim (Bool-cases ((s.slots n).magic == slot_magic_live)) [
  | inl live ↦ elim (Bool-cases (ltb s.slot_payload_bytes (s.slots n).payload_size)) [
    | inl big ↦
        rw (live, big, rebuild_slot)
          (Scanned-free n s v inside
            (λ b. omega (arith, b.sized, ltb→lt s.slot_payload_bytes (s.slots n).payload_size big)))
    | inr fits ↦
        let b : IsBlock s.slot_payload_bytes (s.slots n) = record {
          live = ground arith;
          sized = ltb→le s.slot_payload_bytes (s.slots n).payload_size fits;
        } in
        rw (live, fits, new_id n s v inside b, rebuild_slot) (Scanned-block n s v inside b)
  ]
  | inr dead ↦ rw (dead, rebuild_slot) (Scanned-free n s v inside (λ b. ground (arith, b.live)))
]
