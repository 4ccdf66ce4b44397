-- ===== src/Command/Numbers.antt =====
-- `std::stoull` with base 10, as net/sync_manager.cpp uses it for the expected size. It is
-- specified by strtoull: white space, a sign, and digits; a minus sign negates modulo 2 ^ 64.
pub mod Decimal
use clsync.Base.{
  ℕ, ◌+◌, ◌-◌, ◌*◌, ◌%◌, ◌^◌, Bool, true, false, [], ◌∷◌, Option, some, none, ◌==◌, leb, not,
  is_empty, if◌then◌else◌,
}
use clsync.Text.{Bytes, is_space, is_digit}

unfoldable pub skip_space : Bytes → Bytes
skip_space [] = []
skip_space (c ∷ cs) = let rest = skip_space cs in if is_space c then rest else c ∷ cs

-- The value of the digits that the text begins with, and what stands behind them.
unfoldable pub read_digits : ℕ → Bytes → ℕ × Bytes
unfolding is_digit
read_digits value [] = (value, [])
read_digits value (c ∷ cs) =
    let rest = read_digits (value * 10 + (c - b'0')) cs in
    if is_digit c then rest else (value, c ∷ cs)

abbrev starts_with_digit : Bytes → Bool
starts_with_digit [] = false
starts_with_digit (c ∷ cs) = is_digit c

-- `none` stands for the exceptions invalid_argument and out_of_range.
unfoldable pub magnitude : Bool → Bytes → Option (ℕ × Bytes)
unfolding read_digits
magnitude negative s =
    let (value, rest) = read_digits 0 s in
    if not (starts_with_digit s)
    then none
    else if leb (2 ^ 64) value
    then none
    else some (if negative then (2 ^ 64 - value) % 2 ^ 64 else value, rest)

abbrev signed : Bytes → Option (ℕ × Bytes)
signed [] = none
signed (c ∷ cs) =
    if c == b'-'
    then magnitude true cs
    else if c == b'+'
    then magnitude false cs
    else magnitude false (c ∷ cs)

-- The value, and the text from position `pos` on.
unfoldable pub stoull : Bytes → Option (ℕ × Bytes)
unfolding skip_space magnitude
stoull s = signed (skip_space s)

-- `pos != expected_size.size()` is an error too.
unfoldable pub parse_size : Bytes → Option ℕ
unfolding stoull
parse_size s = elim (stoull s) [
  | none ↦ none
  | some (value, rest) ↦ if is_empty rest then some value else none
]
