-- ===== src/TieredStore/Get.antt =====
-- `TieredStore::Get`: which copy it returns, and that promotion moves no block out of reach.
use lethe.Base.{
  ℕ, ◌<◌, ◌≡◌, refl, ◌≢◌, Bool, true, false, none, some, [], ◌∷◌, length, arith, inl, inr,
  Bool-cases, sym, ◌∙◌, ◌&&◌, not, leb,
}
use lethe.Layer.{max_size}
use lethe.TieredStore.{
  TieredStore, copy, put_to_tier, erase_from_tier, probe, note_access, move_up, promote,
  promotion_target, get, is_tier,
}
use lethe.TieredStore.Copies.{
  IsValid, put_to_tier-IsValid, erase_from_tier-IsValid, copy-small, put_refused,
}
use lethe.TieredStore.Stored.{
  stored, Agrees, put_to_tier-Agrees, erase_from_tier-Agrees, stored-move,
}
use lethe.Types.{Tier, hbm, dram, ssd, Bytes, BlockId, KvBlock}

-- The tier of the copy that `stored` gives, if there is one.
abbrev pub fastest : BlockId → TieredStore → Tier
fastest id t = elim (copy hbm id t) [
  | some _ ↦ hbm
  | none ↦ elim (copy dram id t) [ some _ ↦ dram | none ↦ ssd ]
]

-- The store is well-formed, its copies agree, and a reader finds every block that `t` had.
pub record Keeps (content : BlockId → Bytes) (t u : TieredStore) : Type 0 where
  pub valid : IsValid u
  pub agrees : Agrees content u
  pub same : (j : BlockId) → stored j u ≡ stored j t

pub Keeps-refl :
    (content : BlockId → Bytes) (t : TieredStore) → IsValid t → Agrees content t → Keeps content t t
Keeps-refl content t v a = record { valid = v; agrees = a; same = λ j. refl }

pub Keeps-trans :
    {content : BlockId → Bytes} {t u w : TieredStore}
    → Keeps content t u
    → Keeps content u w
    → Keeps content t w
Keeps-trans h k = record { valid = k.valid; agrees = k.agrees; same = λ j. k.same j ∙ h.same j }

-- A put into one tier followed by an erase from another, or by nothing if the put is refused.
pub move-Keeps :
    (content : BlockId → Bytes) (b : KvBlock) (from to : Tier) (t : TieredStore)
    → from ≢ to
    → length b.bytes < max_size
    → b.bytes ≡ content b.id
    → IsValid t
    → Agrees content t
    → copy from b.id t ≡ some b.bytes
    → (put_to_tier b to t).1 ≡ true
    → Keeps content t (erase_from_tier b.id from (put_to_tier b to t).0).0
move-Keeps content b from to t ne h same v a e ok =
    let vp = put_to_tier-IsValid b to t h v in
    record {
      valid = erase_from_tier-IsValid b.id from (put_to_tier b to t).0 vp;
      agrees =
          erase_from_tier-Agrees content b.id from (put_to_tier b to t).0 vp
            (put_to_tier-Agrees content b to t h same v a);
      same = λ j. stored-move content b from to t j ne h same v a e ok;
    }

probe_found :
    (id : BlockId) (t : TieredStore) (x : ℕ) (bs : Bytes)
    → stored id t ≡ some (x ∷ bs)
    → (probe id t ≡ (fastest id t, x ∷ bs)) × (copy (fastest id t) id t ≡ some (x ∷ bs))
unfolding probe
probe_found id t x bs e = ground arith

probe_absent : (id : BlockId) (t : TieredStore) → stored id t ≡ none → probe id t ≡ (ssd, [])
unfolding probe
probe_absent id t e = ground arith

copy-note_access :
    (x : Tier) (j id : BlockId) (t : TieredStore) → copy x j (note_access id t) ≡ copy x j t
unfolding copy note_access
copy-note_access hbm j id t = refl
copy-note_access dram j id t = refl
copy-note_access ssd j id t = refl

note_access-Keeps :
    (content : BlockId → Bytes) (id : BlockId) (t : TieredStore)
    → IsValid t
    → Agrees content t
    → Keeps content t (note_access id t)
unfolding note_access
note_access-Keeps content id t v a = record {
  valid = record { hbm_valid = v.hbm_valid; dram_valid = v.dram_valid; ssd_valid = v.ssd_valid };
  agrees = λ x j bs e. a x j bs (sym (copy-note_access x j id t) ∙ e);
  same = λ j. unfold copy in refl;
}

is_tier-ne : (x y : Tier) → is_tier x y ≡ false → x ≢ y
is_tier-ne hbm hbm h = λ e. cc
is_tier-ne x y h = λ e. ground arith

module _ (content : BlockId → Bytes) (id : BlockId) (found : Tier) (bytes : Bytes) (t : TieredStore)
    (v : IsValid t) (a : Agrees content t) (e : copy found id t ≡ some bytes) where
  move_up-Keeps :
      (target : Tier) → target ≢ found → Keeps content t (move_up id found bytes target t).0
  unfolding move_up
  move_up-Keeps target ne =
      let b : KvBlock = record { id = id; bytes = bytes; tier = target; inserted_epoch = 0 } in
      elim (Bool-cases (put_to_tier b target t).1) [
        | inl ok ↦ rw ok (
            move-Keeps content b found target t (λ q. ne (sym q)) (copy-small found id t bytes v e)
              (a found id bytes e) v a e ok)
        | inr no_room ↦ rw (no_room, put_refused b target t no_room) (Keeps-refl content t v a)
      ]

  promote-Keeps : Keeps content t (promote id (found, bytes) t).0
  unfolding promote
  promote-Keeps =
      let target = promotion_target found t in
      elim (Bool-cases (
        t.enable_promotion
        && (leb t.promotion_access_threshold (t.access_counts id) && not (is_tier target found)))) [
          | inl moves ↦ rw moves (move_up-Keeps target (is_tier-ne target found (ground arith)))
          | inr stays ↦ rw stays (Keeps-refl content t v a)
        ]

-- On a well-formed store whose copies agree, `Get` of a stored block that has bytes returns the
-- bytes and names the tier of the fastest copy; the store stays well formed, its copies agree, and
-- readers find every block as before.
pub get_hit :
    (content : BlockId → Bytes) (id : BlockId) (t : TieredStore) (bs : Bytes)
    → IsValid t
    → Agrees content t
    → stored id t ≡ some bs
    → bs ≢ []
    → (moved : Bool) × ((get id t).1
        ≡ some (record { bytes = bs; tier_found = fastest id t; promoted = moved }))
      × Keeps content t (get id t).0
unfolding get
get_hit content id t [] v a e ne = absurd (ne refl)
get_hit content id t (x ∷ bs) v a e ne =
    let hit = probe_found id t x bs e in
    let t' = note_access id t in
    let k = note_access-Keeps content id t v a in
    let at : copy (fastest id t) id t' ≡ some (x ∷ bs) =
      copy-note_access (fastest id t) id id t ∙ hit.1 in
    (
      (promote id (fastest id t, x ∷ bs) t').1,
      rw (hit.0, get) refl,
      rw (hit.0, get)
          (Keeps-trans k (promote-Keeps content id (fastest id t) (x ∷ bs) t' k.valid k.agrees at)),
    )

-- `Get` of a block that no tier has is a miss, and the miss changes nothing.
pub get_miss : (id : BlockId) (t : TieredStore) → stored id t ≡ none → get id t ≡ (t, none)
unfolding get
get_miss id t e = rw (probe_absent id t e)

-- `Get` of a block without bytes that only the SSD holds is reported as a miss.
pub get_empty_on_ssd :
    (id : BlockId) (t : TieredStore)
    → copy hbm id t ≡ none
    → copy dram id t ≡ none
    → copy ssd id t ≡ some []
    → (get id t).1 ≡ none
unfolding get probe
get_empty_on_ssd id t h d s = ground arith
