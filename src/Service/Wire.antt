-- ===== src/Service/Wire.antt =====
-- Block ids between the node and the wire.
use lethe.Base.{ℕ, zero, suc, ◌-◌, ◌≡◌, refl, ap, ◌∙◌, [], ◌∷◌, ◌++◌, take, length, arith}
use lethe.Types.{Bytes, BlockId, Tier, hbm, dram, ssd}
use lethe.Service.{
  PbBlockId, block_id_from_proto, block_id_to_proto, zeros, tier_code, tier_of_hint,
}

length-zeros : (n : ℕ) → length (zeros n) ≡ n
length-zeros zero = refl
length-zeros (suc n) = ap suc (length-zeros n)

-- A clamped and padded list has the length that was asked for.
length-clamp : (n : ℕ) (xs : Bytes) → length (take n xs ++ zeros (n - length xs)) ≡ n
length-clamp zero xs = length-zeros (0 - length xs) ∙ omega arith
length-clamp (suc n) [] = length-zeros (suc n - 0) ∙ omega arith
length-clamp (suc n) (x ∷ xs) =
    let same : suc n - suc (length xs) ≡ n - length xs = omega arith in
    ap suc (ap (λ k. length (take n xs ++ zeros k)) same ∙ length-clamp n xs)

take_exact : (n : ℕ) (xs : Bytes) → length xs ≡ n → take n xs ++ zeros (n - length xs) ≡ xs
take_exact zero [] h = refl
take_exact zero (x ∷ xs) h = absurd (omega (arith, h))
take_exact (suc n) [] h = absurd (omega (arith, h))
take_exact (suc n) (x ∷ xs) h =
    let same : suc n - suc (length xs) ≡ n - length xs = omega arith in
    ap (◌∷◌ x) (ap (λ k. take n xs ++ zeros k) same ∙ take_exact n xs (omega (arith, h)))

pub block_id_from_proto-to :
    (id : BlockId) → length id.hash ≡ 32 → block_id_from_proto (block_id_to_proto id) ≡ id
unfolding block_id_from_proto block_id_to_proto
block_id_from_proto-to id h = rw (take_exact 32 id.hash h) refl

pub length-hash : (p : PbBlockId) → length (block_id_from_proto p).hash ≡ 32
unfolding block_id_from_proto
length-hash p = length-clamp 32 p.hash

pub tier_of_hint-code : (t : Tier) → tier_of_hint (tier_code t) ≡ t
unfolding tier_of_hint tier_code
tier_of_hint-code hbm = refl
tier_of_hint-code dram = refl
tier_of_hint-code ssd = refl
