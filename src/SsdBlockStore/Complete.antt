-- ===== src/SsdBlockStore/Complete.antt =====
-- `Put` and `Erase` keep the index complete for the file, so blocks outlive the process.
use mathlib.Core.Option
use mathlib.Core.Option.{get_or}
use mathlib.Core.List.{lookup}
use lethe.Base.{
  ℕ, ◌≡◌, refl, ap, subst, ◌∙◌, ◌≢◌, true, Option, none, some, List, arith, inl, inr, if_pos,
  Option-cases, ℕ_discrete,
}
use lethe.Base.Assoc.{lookup-remove_ne, lookup-cons_self, lookup-cons_ne}
use lethe.SsdBlockStore.{
  SsdBlockStore, Slot, slot_id, slot_magic_free, write, filled, fill_slot, clear_slot, put, get,
  erase, open_file,
}
use lethe.SsdBlockStore.Slots.{IsValid, write_self}
use lethe.SsdBlockStore.Laws.{put_cases, put-IsValid, get-put}
use lethe.SsdBlockStore.Restart.{IsBlock, IsComplete}
use lethe.SsdBlockStore.Reopen.{IsGeometry, IsViewOf, reopen}
use lethe.Types.{Bytes, BlockId, KvBlock, id_dec}

write_other : (n m : ℕ) (slot : Slot) (slots : ℕ → Slot) → m ≢ n → write n slot slots m ≡ slots m
unfolding write
write_other n m slot slots h = ground arith

fill_slot-IsComplete :
    (b : KvBlock) (n : ℕ) (rest : List ℕ) (s : SsdBlockStore)
    → IsComplete s
    → lookup id_dec b.id s.index ≡ none
    → IsComplete (fill_slot b n (record s { free_slots = rest }))
unfolding fill_slot
fill_slot-IsComplete b n rest s c absent m hm bm = elim (ℕ_discrete m n) [
  | yes p ↦
      let at = write_self n (filled b (s.slots n)) s.slots in
      rw p (rw at (lookup-cons_self id_dec b.id n s.index))
  | no p ↦
      let at = write_other n m (filled b (s.slots n)) s.slots p in
      let old = c m hm (subst (IsBlock s.slot_payload_bytes) at bm) in
      let other : slot_id (s.slots m) ≢ b.id = λ q. cc (ap (λ i. lookup id_dec i s.index) q) in
      rw at (lookup-cons_ne id_dec b.id (slot_id (s.slots m)) n s.index other ∙ old)
]

clear_slot-IsComplete :
    (id : BlockId) (n : ℕ) (s : SsdBlockStore)
    → IsComplete s
    → lookup id_dec id s.index ≡ some n
    → IsComplete (clear_slot id n s)
unfolding clear_slot
clear_slot-IsComplete id n s c e m hm bm = elim (ℕ_discrete m n) [
  | yes p ↦
      let at =
        write_self n (record (s.slots n) { magic = slot_magic_free; payload_size = 0 }) s.slots in
      absurd (
        omega (
          arith,
          bm.live,
          ap (λ (k : ℕ). ((clear_slot id n s).slots k).magic) p,
          ap (λ (x : Slot). x.magic) at,
        ))
  | no p ↦
      let at =
        write_other n m (record (s.slots n) { magic = slot_magic_free; payload_size = 0 }) s.slots
          p in
      let old = c m hm (subst (IsBlock s.slot_payload_bytes) at bm) in
      let other : slot_id (s.slots m) ≢ id = λ q. p (cc (ap (λ i. lookup id_dec i s.index) q)) in
      rw at (lookup-remove_ne id_dec id (slot_id (s.slots m)) s.index other ∙ old)
]

-- `Put` on a well-formed store keeps the index complete: it names every live slot of the file.
pub put-IsComplete :
    (b : KvBlock) (s : SsdBlockStore) → IsValid s → IsComplete s → IsComplete (put b s).0
put-IsComplete b s v c =
    put_cases (λ r. IsComplete r.0) b s v c (λ n e. c)
      λ n rest f e h. fill_slot-IsComplete b n rest s c e

-- `Erase` keeps the index complete: it names every live slot of the file.
pub erase-IsComplete : (id : BlockId) (s : SsdBlockStore) → IsComplete s → IsComplete (erase id s).0
unfolding erase
erase-IsComplete id s c = elim (Option-cases (lookup id_dec id s.index)) [
  | inl e ↦ rw (e, erase) c
  | inr (n, e) ↦ rw (e, erase) (clear_slot-IsComplete id n s c e)
]

put-IsViewOf :
    (b : KvBlock) (s : SsdBlockStore) (cap sb : ℕ)
    → IsValid s
    → IsViewOf cap sb s
    → IsViewOf cap sb (put b s).0
put-IsViewOf b s cap sb v w =
    put_cases (λ r. IsViewOf cap sb r.0) b s v w (λ n e. w)
      λ n rest f e h. unfold fill_slot in record { limit = w.limit; count = w.count }

-- A block that `Put` accepts into a well-formed store with a complete index, which is a view of a
-- file of legal sizes and had no block of the id, is read back with its bytes from the store that
-- the next process opens over the file.
pub put_survives_restart :
    (b : KvBlock) (s : SsdBlockStore) (cap sb : ℕ)
    → IsGeometry cap sb
    → IsValid s
    → IsComplete s
    → IsViewOf cap sb s
    → get b.id s ≡ none
    → (put b s).1 ≡ true
    → (t : SsdBlockStore) × (open_file (put b s).0.slots cap sb ≡ some t)
      × (get b.id t ≡ some b.bytes)
unfolding get
put_survives_restart b s cap sb g v c w absent ok =
    let (t, opened, _, same) =
      reopen (put b s).0 cap sb g (put-IsValid b s v) (put-IsComplete b s v c)
        (put-IsViewOf b s cap sb v w) in
    (
      t,
      opened,
      ap (Option.map (λ (kv : KvBlock). kv.bytes)) (same b.id)
          ∙ get-put b s b.id v ok
          ∙ if_pos (id_dec b.id b.id) refl _ _
          ∙ ap (λ (o : Option Bytes). some (get_or o b.bytes)) absent,
    )
