-- ===== src/Settings/Decimal.antt =====
-- Settings that are written in decimal (net/sync.cpp).
use clsync.Base.{
  ℕ, suc, ◌+◌, ◌-◌, ◌*◌, ◌^◌, ◌<◌, ◌≡◌, ◌≢◌, ◌⊎◌, refl, ◌∙◌, ap, Bool, true, false, some, [], ◌∷◌,
  ◌++◌, all, ◌==◌, arith,
}
use clsync.Text.{Bytes, is_space, is_digit}
use clsync.FileSystem.{ok}
use clsync.Command.Numbers.{skip_space, read_digits, magnitude, stoull}
use clsync.Command.Numbers.Decimal.{
  value, decimal, digits_of-value, digits_of-all, digits_of-ne-nil,
}
use clsync.Settings.{Environment, parse_whole, out_of_range, set_unsigned_from_environment}

skip_space-before :
    (before text : Bytes)
    → all is_space before ≡ true
    → skip_space (before ++ text) ≡ skip_space text
unfolding skip_space
skip_space-before [] text h = refl
skip_space-before (c ∷ cs) text h = ground (arith, skip_space-before cs text)

read_digits-after :
    (v : ℕ) (ds after : Bytes)
    → all is_digit ds ≡ true
    → all is_space after ≡ true
    → read_digits v (ds ++ after) ≡ (value v ds, after)
unfolding read_digits value is_digit is_space
read_digits-after v [] [] h k = refl
read_digits-after v [] (c ∷ after) h k = ground arith
read_digits-after v (c ∷ cs) after h k =
    ground (arith, read_digits-after (v * 10 + (c - b'0')) cs after)

-- Digits are no white space, and no sign.
stoull-digits :
    (c : ℕ) (cs after : Bytes)
    → all is_digit (c ∷ cs) ≡ true
    → all is_space after ≡ true
    → value 0 (c ∷ cs) < 2 ^ 64
    → stoull (c ∷ (cs ++ after)) ≡ some (value 0 (c ∷ cs), after)
unfolding stoull skip_space magnitude is_space is_digit
stoull-digits c cs after h k small = ground (arith, read_digits-after 0 (c ∷ cs) after h k)

parse_whole-digits :
    (c : ℕ) (cs after : Bytes)
    → all is_digit (c ∷ cs) ≡ true
    → all is_space after ≡ true
    → value 0 (c ∷ cs) < 2 ^ 64
    → parse_whole (c ∷ (cs ++ after)) ≡ some (value 0 (c ∷ cs))
unfolding parse_whole
parse_whole-digits c cs after h k small = rw (parse_whole, stoull-digits c cs after h k small, k)

skip_space-digit :
    (c : ℕ) (cs : Bytes)
    → is_digit c ≡ true
    → (skip_space (c ∷ cs) ≡ c ∷ cs) × ((c == b'-') ≡ false)
unfolding skip_space is_digit is_space
skip_space-digit c cs h = ground arith

set_unsigned-digits :
    (env : Environment) (name before ds after : Bytes) (old : ℕ) (allow_zero : Bool)
    → env name ≡ some (before ++ (ds ++ after))
    → all is_space before ≡ true
    → all is_space after ≡ true
    → all is_digit ds ≡ true
    → ds ≢ []
    → value 0 ds < 2 ^ 32
    → (allow_zero ≡ true) ⊎ (0 < value 0 ds)
    → set_unsigned_from_environment env name old allow_zero ≡ ok (value 0 ds)
unfolding set_unsigned_from_environment parse_whole
set_unsigned-digits env name before [] after old allow_zero e b a h ne small range =
    absurd (ne refl)
set_unsigned-digits env name before (c ∷ cs) after old allow_zero e b a h ne small range =
    let start = skip_space-before before (c ∷ (cs ++ after)) b in
    let read = parse_whole-digits c cs after h a (omega arith) in
    let digit : is_digit c ≡ true = ground arith in
    let (kept, plain) = skip_space-digit c (cs ++ after) digit in
    let fits : out_of_range allow_zero (value 0 (c ∷ cs)) ≡ false = ground arith in
    rw (set_unsigned_from_environment, e, start ∙ kept, plain, read, fits)

-- A number below 2 ^ 32 that is written in decimal, with white space around it or not, is read back
-- from the environment, whatever the value before; 0 only where the setting allows it.
pub set_unsigned_from_environment-decimal :
    (env : Environment) (name before after : Bytes) (n old : ℕ) (allow_zero : Bool)
    → env name ≡ some (before ++ (decimal n ++ after))
    → all is_space before ≡ true
    → all is_space after ≡ true
    → n < 2 ^ 32
    → (allow_zero ≡ true) ⊎ (0 < n)
    → set_unsigned_from_environment env name old allow_zero ≡ ok n
set_unsigned_from_environment-decimal env name before after n old allow_zero e b a small range =
    let worth = digits_of-value (suc n) n (omega arith) in
    set_unsigned-digits env name before (decimal n) after old allow_zero e b a
      (digits_of-all (suc n) n) (digits_of-ne-nil (suc n) n (omega arith)) (rw worth small)
      (rw worth range)
    ∙ ap ok worth
