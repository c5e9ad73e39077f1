-- ===== src/Router/Decimal.antt =====
-- Numbers that `std::to_string` wrote, read by `std::stoi`.
use lethe.Base.{
  ℕ, zero, suc, ◌+◌, ◌*◌, ◌/◌, ◌%◌, ◌^◌, ◌<◌, ◌≤◌, ◌≡◌, refl, subst, ◌∙◌, ap, true, false, inl, inr,
  some, [], ◌∷◌, All, arith, ◌==◌, Bool-cases, ltb, ltb→lt,
}
use lethe.Types.{Bytes}
use lethe.Router.{digits, to_string}
use lethe.Base.Numbers.{
  is_digit, is_space, skip_spaces, more_digits, digits as read_digits, parse_signed, parse_port,
  signed,
}

abbrev pub IsDigit : ℕ → Type 0
IsDigit c = (48 ≤ c) × (c ≤ 57)

more_digits-cons :
    (m d : ℕ) (cs : Bytes) → d < 10 → more_digits m ((48 + d) ∷ cs) ≡ more_digits (m * 10 + d) cs
unfolding more_digits
more_digits-cons m d cs h =
    let shown : is_digit (48 + d) ≡ true = ground arith in
    rw shown (ap (λ e. more_digits (m * 10 + e) cs) (omega arith))

more_digits-digits :
    (fuel n : ℕ) (acc : Bytes) → n < fuel → more_digits 0 (digits fuel n acc) ≡ more_digits n acc
unfolding digits
more_digits-digits zero n acc h = absurd (omega arith)
more_digits-digits (suc fuel) n acc h = elim (Bool-cases (ltb n 10)) [
  | inl small ↦
      rw small
        (more_digits-cons 0 n acc (ltb→lt n 10 small) ∙ ap (λ e. more_digits e acc) (omega arith))
  | inr large ↦ rw large (
      more_digits-digits fuel (n / 10) ((48 + n % 10) ∷ acc) (ground arith)
      ∙ (more_digits-cons (n / 10) (n % 10) acc (omega arith)
          ∙ ap (λ e. more_digits e acc) (omega arith)))
]

to_string-read : (n : ℕ) → more_digits 0 (to_string n) ≡ n
unfolding to_string more_digits
to_string-read n = more_digits-digits (suc n) n [] (omega arith)

digits-All : (fuel n : ℕ) (acc : Bytes) → All IsDigit acc → All IsDigit (digits fuel n acc)
unfolding digits
digits-All zero n acc h = h
digits-All (suc fuel) n acc h = elim (Bool-cases (ltb n 10)) [
  | inl small ↦ rw small ((omega arith, omega (arith, ltb→lt n 10 small)), h)
  | inr large ↦
      rw large (digits-All fuel (n / 10) ((48 + n % 10) ∷ acc) ((omega arith, omega arith), h))
]

pub to_string-All : (n : ℕ) → All IsDigit (to_string n)
unfolding to_string
to_string-All n = digits-All (suc n) n [] tt

digits-cons :
    (fuel n c : ℕ) (cs : Bytes) → (d : ℕ) × (ds : Bytes) × (digits fuel n (c ∷ cs) ≡ d ∷ ds)
unfolding digits
digits-cons zero n c cs = (c, cs, refl)
digits-cons (suc fuel) n c cs = elim (Bool-cases (ltb n 10)) [
  | inl small ↦ (48 + n, c ∷ cs, rw small refl)
  | inr large ↦ let r = digits-cons fuel (n / 10) (48 + n % 10) (c ∷ cs) in (r.0, r.1, rw large r.2)
]

to_string-cons : (n : ℕ) → (d : ℕ) × (ds : Bytes) × (to_string n ≡ d ∷ ds)
unfolding to_string digits
to_string-cons n = elim (Bool-cases (ltb n 10)) [
  | inl small ↦ (48 + n, [], rw small refl)
  | inr large ↦ let r = digits-cons n (n / 10) (48 + n % 10) [] in (r.0, r.1, rw large r.2)
]

parse_port-digit :
    (c : ℕ) (cs : Bytes)
    → IsDigit c
    → parse_port (c ∷ cs) ≡ signed false (some (more_digits 0 (c ∷ cs)))
unfolding parse_port skip_spaces parse_signed read_digits
parse_port-digit c cs h =
    let solid : is_space c ≡ false = ground (arith, h.0) in
    let plain : (c == 45) ≡ false = ground (arith, h.0) in
    let unsigned : (c == 43) ≡ false = ground (arith, h.0) in
    let shown : is_digit c ≡ true = ground (arith, h.0, h.1) in
    rw (solid, plain, unsigned, shown) refl

pub parse_port-to_string : (n : ℕ) → n < 2 ^ 16 → parse_port (to_string n) ≡ some n
parse_port-to_string n h =
    let r = to_string-cons n in
    let read : more_digits 0 (r.0 ∷ r.1) ≡ n =
      subst (λ cs. more_digits 0 cs ≡ n) r.2 (to_string-read n) in
    let first : IsDigit r.0 = (subst (All IsDigit) r.2 (to_string-All n)).0 in
    let small : ltb n (2 ^ 31) ≡ true = ground arith in
    rw (r.2, parse_port-digit r.0 r.1 first, read, small) (ap some (omega arith))
