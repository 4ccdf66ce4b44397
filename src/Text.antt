-- ===== src/Text.antt =====
-- Texts as lists of bytes, and what net/sync_manager.cpp uses of the C++ library on them:
-- `==`, `find`, `isspace`, `tolower` and `isxdigit` in the "C" locale.
use Prim.Native.Char.{code}
use Prim.Native.String.{String}
use clsync.Base.{
  ℕ, ◌+◌, ◌≡◌, refl, ◌↔◌, Bool, true, false, ◌&&◌, ◌||◌, List, [], ◌∷◌, arith, ◌==◌, leb,
  if◌then◌else◌,
}

abbrev pub Bytes : Type 0
Bytes = List ℕ

-- The bytes of an ASCII literal.
abbrev pub codes : String → Bytes
codes String.[] = []
codes (String.◌∷◌ c s) = code c ∷ codes s

-- `operator==` of std::string.
unfoldable pub equal : Bytes → Bytes → Bool
equal [] [] = true
equal (x ∷ xs) (y ∷ ys) = x == y && equal xs ys
equal _ _ = false

pub equal_refl : (s : Bytes) → equal s s ≡ true
unfolding equal
equal_refl [] = refl
equal_refl (x ∷ xs) = ground (arith, equal_refl xs)

pub equal_sound : (s t : Bytes) → equal s t ≡ true → s ≡ t
unfolding equal
equal_sound [] [] h = refl
equal_sound [] (y ∷ ys) h = cc
equal_sound (x ∷ xs) [] h = cc
equal_sound (x ∷ xs) (y ∷ ys) h = ground (arith, equal_sound xs ys)

pub equal_iff : (s t : Bytes) → (equal s t ≡ true) ↔ (s ≡ t)
equal_iff s t = (equal_sound s t, λ e. subst-right s t e)
  where
    subst-right : (s t : Bytes) → s ≡ t → equal s t ≡ true
    subst-right s t e = rw e (equal_refl t)

unfoldable pub starts_with : Bytes → Bytes → Bool
starts_with [] s = true
starts_with (p ∷ ps) [] = false
starts_with (p ∷ ps) (c ∷ cs) = p == c && starts_with ps cs

-- `s.find(p) != npos`.
unfoldable pub contains : Bytes → Bytes → Bool
unfolding starts_with
contains p [] = starts_with p []
contains p (c ∷ cs) = starts_with p (c ∷ cs) || contains p cs

unfoldable pub is_space : ℕ → Bool
is_space c = c == b' ' || (leb 9 c && leb c 13)

unfoldable pub to_lower : ℕ → ℕ
to_lower c = if leb b'A' c && leb c b'Z' then c + 32 else c

unfoldable pub is_digit : ℕ → Bool
is_digit c = leb b'0' c && leb c b'9'

unfoldable pub is_xdigit : ℕ → Bool
unfolding is_digit
is_xdigit c = is_digit c || (leb b'A' c && leb c b'F') || (leb b'a' c && leb c b'f')
