-- ===== src/Command/Numbers/Decimal.antt =====
-- What parse_size makes of decimal numbers (net/sync_manager.cpp, the expected size of a download).
use clsync.Base.{
  ℕ, zero, suc, ◌+◌, ◌-◌, ◌*◌, ◌/◌, ◌%◌, ◌^◌, ◌<◌, ◌≡◌, ◌≢◌, refl, ◌∙◌, ap, true, ◌&&◌, [], ◌∷◌,
  ◌++◌, some, none, leb, ltb, if◌then◌else◌, all, arith,
}
use clsync.Text.{Bytes, is_space, is_digit}
use clsync.Command.Numbers.{read_digits, parse_size}

-- The value of a list of digits behind one that is worth `v`.
unfoldable pub value : ℕ → Bytes → ℕ
value v [] = v
value v (c ∷ cs) = value (v * 10 + (c - b'0')) cs

read_digits-all :
    (v : ℕ) (ds : Bytes) → all is_digit ds ≡ true → read_digits v ds ≡ (value v ds, [])
unfolding read_digits value
read_digits-all v [] h = refl
read_digits-all v (c ∷ cs) h = ground (arith, read_digits-all (v * 10 + (c - b'0')) cs)

-- Digits are read as their value in base 10, and refused from 2 ^ 64 on.
pub parse_size_digits :
    (c : ℕ) (cs : Bytes)
    → all is_digit (c ∷ cs) ≡ true
    → parse_size (c ∷ cs)
      ≡ (if leb (2 ^ 64) (value 0 (c ∷ cs)) then none else some (value 0 (c ∷ cs)))
unfolding parse_size is_space is_digit
parse_size_digits c cs h = ground (arith, read_digits-all 0 (c ∷ cs) h)

-- A minus sign in front of digits below 2 ^ 64 is not refused: parse_size negates their value
-- modulo 2 ^ 64, so that a negative size is taken for a huge one.
pub parse_size_minus :
    (c : ℕ) (cs : Bytes)
    → all is_digit (c ∷ cs) ≡ true
    → value 0 (c ∷ cs) < 2 ^ 64
    → parse_size (b'-' ∷ c ∷ cs) ≡ some ((2 ^ 64 - value 0 (c ∷ cs)) % 2 ^ 64)
unfolding parse_size is_space is_digit
parse_size_minus c cs h small = ground (arith, read_digits-all 0 (c ∷ cs) h)

-- The decimal digits of n, given more than n rounds.
unfoldable pub digits_of : ℕ → ℕ → Bytes
digits_of zero n = []
digits_of (suc f) n =
    let front = digits_of f (n / 10) in
    if ltb n 10 then (n + b'0') ∷ [] else front ++ (n % 10 + b'0') ∷ []

abbrev pub decimal : ℕ → Bytes
decimal n = digits_of (suc n) n

value-append : (v : ℕ) (ds es : Bytes) → value v (ds ++ es) ≡ value (value v ds) es
unfolding value
value-append v [] es = refl
value-append v (c ∷ cs) es = value-append (v * 10 + (c - b'0')) cs es

all-append : (ds es : Bytes) → all is_digit (ds ++ es) ≡ (all is_digit ds && all is_digit es)
all-append [] es = refl
all-append (c ∷ cs) es = ground (arith, all-append cs es)

pub digits_of-value : (f n : ℕ) → n < f → value 0 (digits_of f n) ≡ n
unfolding digits_of value
digits_of-value zero n h = elim h [ ]
digits_of-value (suc f) n h = ground (
  arith,
  value-append 0 (digits_of f (n / 10)) ((n % 10 + b'0') ∷ []),
  digits_of-value f (n / 10),
)

pub digits_of-all : (f n : ℕ) → all is_digit (digits_of f n) ≡ true
unfolding digits_of is_digit
digits_of-all zero n = refl
digits_of-all (suc f) n =
    ground
      (arith, all-append (digits_of f (n / 10)) ((n % 10 + b'0') ∷ []), digits_of-all f (n / 10))

snoc-ne-nil : (xs : Bytes) (x : ℕ) → xs ++ x ∷ [] ≢ []
snoc-ne-nil [] x e = cc
snoc-ne-nil (y ∷ xs) x e = cc

pub digits_of-ne-nil : (f n : ℕ) → n < f → digits_of f n ≢ []
unfolding digits_of
digits_of-ne-nil zero n h = elim h [ ]
digits_of-ne-nil (suc f) n h = ground (arith, snoc-ne-nil (digits_of f (n / 10)) (n % 10 + b'0'))

parse_size_fitting :
    (ds : Bytes)
    → ds ≢ []
    → all is_digit ds ≡ true
    → value 0 ds < 2 ^ 64
    → parse_size ds ≡ some (value 0 ds)
parse_size_fitting [] ne h small = absurd (ne refl)
parse_size_fitting (c ∷ cs) ne h small = ground (arith, parse_size_digits c cs h)

-- A 64-bit size written in decimal is read back.
pub parse_size-decimal : (n : ℕ) → n < 2 ^ 64 → parse_size (decimal n) ≡ some n
parse_size-decimal n h =
    let worth = digits_of-value (suc n) n (omega arith) in
    parse_size_fitting (decimal n) (digits_of-ne-nil (suc n) n (omega arith))
      (digits_of-all (suc n) n) (rw worth h)
    ∙ ap some worth
