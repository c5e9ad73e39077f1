-- ===== src/Base/Numbers.antt =====
-- Numbers in texts, as `std::stoi` and `std::strtoull` read them.
use Prim.Native.Nat.{ℕ, ◌+◌, ◌-◌, ◌*◌, ◌%◌, ◌^◌}
use mathlib.Core.Bool.{Bool, true, false, ◌&&◌, ◌||◌}
use mathlib.Core.Option.{Option, none, some}
use mathlib.Core.List.{List, [], ◌∷◌}
use lethe.Base.Tests.{◌==◌, leb, ltb, if◌then◌else◌}

-- `std::stoi`: white space, a sign, and decimal digits up to the first other byte. There are two
-- exceptions, for no digit and for a number out of the range of `int`; `none` is either.
abbrev pub is_space : ℕ → Bool
is_space c = c == 32 || (leb 9 c && leb c 13)

abbrev pub is_digit : ℕ → Bool
is_digit c = leb 48 c && leb c 57

unfoldable pub skip_spaces : List ℕ → List ℕ
skip_spaces [] = []
skip_spaces (c ∷ cs) = let rest = skip_spaces cs in if is_space c then rest else c ∷ cs

-- The digits that follow a first part of the number.
unfoldable pub more_digits : ℕ → List ℕ → ℕ
more_digits n [] = n
more_digits n (c ∷ cs) =
    let rest = more_digits (n * 10 + (c - 48)) cs in if is_digit c then rest else n

unfoldable pub digits : List ℕ → Option ℕ
unfolding more_digits
digits [] = none
digits (c ∷ cs) = if is_digit c then some (more_digits 0 (c ∷ cs)) else none

-- The conversion to `uint16_t` of an `int`, which is given by its sign and its size.
abbrev pub to_port : Bool → ℕ → Option ℕ
to_port true n = if leb n (2 ^ 31) then some ((2 ^ 16 - n % 2 ^ 16) % 2 ^ 16) else none
to_port false n = if ltb n (2 ^ 31) then some (n % 2 ^ 16) else none

abbrev pub signed : Bool → Option ℕ → Option ℕ
signed negative none = none
signed negative (some n) = to_port negative n

unfoldable pub parse_signed : List ℕ → Option ℕ
unfolding digits
parse_signed [] = none
parse_signed (c ∷ cs) =
    if c == 45
    then signed true (digits cs)
    else if c == 43
    then signed false (digits cs)
    else signed false (digits (c ∷ cs))

-- `static_cast<std::uint16_t>(std::stoi(text))`.
unfoldable pub parse_port : List ℕ → Option ℕ
unfolding skip_spaces parse_signed
parse_port text = parse_signed (skip_spaces text)

-- `std::strtoull(text, nullptr, 10)`: 0 without digits, the greatest number where the digits are
-- out of range, and the negation modulo 2^64 after a minus sign.
abbrev pub to_u64 : Bool → Option ℕ → ℕ
to_u64 negative none = 0
to_u64 negative (some n) =
    if leb (2 ^ 64) n then 2 ^ 64 - 1 else if negative then (2 ^ 64 - n) % 2 ^ 64 else n

abbrev pub u64_signed : List ℕ → ℕ
u64_signed [] = 0
u64_signed (c ∷ cs) =
    if c == 45
    then to_u64 true (digits cs)
    else if c == 43
    then to_u64 false (digits cs)
    else to_u64 false (digits (c ∷ cs))

unfoldable pub parse_u64 : List ℕ → ℕ
unfolding skip_spaces digits
parse_u64 text = u64_signed (skip_spaces text)
