-- ===== src/Checks/Url.antt =====
-- Which texts is_http_url of net/sync_manager.cpp takes for an HTTP URL.
use clsync.Base.{
  ◌≡◌, refl, ◌↔◌, ◌⊎◌, inl, inr, Bool, true, not, ◌&&◌, [], ◌∷◌, ◌++◌, map, arith, ap, sym, subst,
  ◌∙◌, ◌==◌, Bool-cases,
}
use clsync.Text.{Bytes, codes, equal_iff, to_lower}
use clsync.Checks.{before_colon, is_http_url}

abbrev pub IsHttpScheme : Bytes → Type 0
IsHttpScheme s = (map to_lower s ≡ codes "http") ⊎ (map to_lower s ≡ codes "https")

before_colon_split :
    (s : Bytes) → (before_colon s ≡ s) ⊎ ((rest : Bytes) × (s ≡ before_colon s ++ b':' ∷ rest))
unfolding before_colon
before_colon_split [] = inl refl
before_colon_split (c ∷ cs) = elim (Bool-cases (c == b':')) [
  | inl e ↦ inr (cs, ground arith)
  | inr e ↦ elim (before_colon_split cs) [
    | inl whole ↦ inl (ground arith)
    | inr (rest, split) ↦ inr (rest, ground arith)
  ]
]

colon_free : Bytes → Bool
colon_free [] = true
colon_free (c ∷ cs) = not (c == b':') && colon_free cs

colon_free-lower : (s : Bytes) → colon_free (map to_lower s) ≡ true → colon_free s ≡ true
unfolding colon_free to_lower
colon_free-lower [] h = refl
colon_free-lower (c ∷ cs) h = ground (arith, colon_free-lower cs)

IsHttpScheme-colon_free : (s : Bytes) → IsHttpScheme s → colon_free s ≡ true
unfolding colon_free
IsHttpScheme-colon_free s (inl e) = colon_free-lower s (rw e)
IsHttpScheme-colon_free s (inr e) = colon_free-lower s (rw e)

before_colon-colon_free : (s : Bytes) → colon_free s ≡ true → before_colon s ≡ s
unfolding before_colon colon_free
before_colon-colon_free [] h = refl
before_colon-colon_free (c ∷ cs) h = ground (arith, before_colon-colon_free cs)

before_colon-append : (s rest : Bytes) → colon_free s ≡ true → before_colon (s ++ b':' ∷ rest) ≡ s
unfolding before_colon colon_free
before_colon-append [] rest h = refl
before_colon-append (c ∷ cs) rest h = ground (arith, before_colon-append cs rest)

abbrev pub IsHttpText : Bytes → Type 0
IsHttpText s =
    IsHttpScheme s
    ⊎ ((scheme : Bytes) × (rest : Bytes) × (s ≡ scheme ++ b':' ∷ rest) × IsHttpScheme scheme)

scheme_iff : (s : Bytes) → (is_http_url s ≡ true) ↔ IsHttpScheme (before_colon s)
unfolding is_http_url
scheme_iff s = ground (
  arith,
  equal_iff (map to_lower (before_colon s)) (codes "http"),
  equal_iff (map to_lower (before_colon s)) (codes "https"),
)

is_http_url_sound : (s : Bytes) → is_http_url s ≡ true → IsHttpText s
is_http_url_sound s h = elim (before_colon_split s) [
  | inl whole ↦ inl (subst IsHttpScheme whole ((scheme_iff s).0 h))
  | inr (rest, split) ↦ inr (before_colon s, rest, split, (scheme_iff s).0 h)
]

is_http_url_complete : (s : Bytes) → IsHttpText s → is_http_url s ≡ true
is_http_url_complete s (inl bare) =
    (scheme_iff s).1
      (subst IsHttpScheme (sym (before_colon-colon_free s (IsHttpScheme-colon_free s bare))) bare)
is_http_url_complete s (inr (scheme, rest, split, is_scheme)) = (scheme_iff s).1 (
    subst IsHttpScheme
      (sym (
        ap before_colon split
        ∙ before_colon-append scheme rest (IsHttpScheme-colon_free scheme is_scheme)))
      is_scheme)

-- is_http_url accepts a text exactly when it spells "http" or "https", in any case, and nothing
-- more, or such a scheme followed by a colon and any further text.
pub is_http_url_iff : (s : Bytes) → (is_http_url s ≡ true) ↔ IsHttpText s
is_http_url_iff s = (is_http_url_sound s, is_http_url_complete s)
