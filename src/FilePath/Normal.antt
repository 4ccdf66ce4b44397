-- ===== src/FilePath/Normal.antt =====
-- What lexically_normal does to "..".
use mathlib.Core.List.{reverse-cons}
use clsync.Base.{
  ℕ, zero, suc, ◌≡◌, refl, Bool, true, false, ◌||◌, List, [], ◌∷◌, ◌++◌, arith, if◌then◌else◌,
  is_empty, reverse, length,
}
use clsync.Text.{Bytes, equal, equal_iff, equal_refl}
use clsync.FilePath.{
  FilePath, dot, dot_dot, Stack, reduce_part, reduce, normal_names, lexically_normal, has_dot_dot,
}

-- Whether a walk along the names, from `depth` directories below its start, leaves its start.
unfoldable pub leaves_start : ℕ → List Bytes → Bool
leaves_start depth [] = false
leaves_start zero (p ∷ ps) =
    let stays = leaves_start zero ps in
    let enters = leaves_start 1 ps in
    if is_empty p || equal p dot then stays else if equal p dot_dot then true else enters
leaves_start (suc depth) (p ∷ ps) =
    let stays = leaves_start (suc depth) ps in
    let returns = leaves_start depth ps in
    let enters = leaves_start (suc (suc depth)) ps in
    if is_empty p || equal p dot then stays else if equal p dot_dot then returns else enters

reduce-escaped :
    (s : Stack × Bool) (ps : List Bytes)
    → has_dot_dot s.0 ≡ true
    → has_dot_dot (reduce false s ps).0 ≡ true
unfolding reduce has_dot_dot
reduce-escaped s [] h = h
reduce-escaped s (p ∷ ps) h = reduce-escaped (reduce_part false s.0 p) ps (part s.0 p h)
  where
    part :
        (st : Stack) (p : Bytes)
        → has_dot_dot st ≡ true
        → has_dot_dot (reduce_part false st p).0 ≡ true
    part [] p h = cc
    part (top ∷ rest) p h = unfold reduce_part in ground (arith, equal_iff p dot_dot)

reduce-leaves_start :
    (s : Stack × Bool) (ps : List Bytes)
    → has_dot_dot s.0 ≡ false
    → has_dot_dot (reduce false s ps).0 ≡ leaves_start (length s.0) ps
unfolding reduce reduce_part has_dot_dot leaves_start
reduce-leaves_start s [] h = h
reduce-leaves_start ([], slash) (p ∷ ps) h = ground (
  arith,
  equal_refl dot_dot,
  reduce-leaves_start ([], true) ps,
  reduce-escaped (dot_dot ∷ [], false) ps,
  reduce-leaves_start (p ∷ [], false) ps,
)
reduce-leaves_start (top ∷ rest, slash) (p ∷ ps) h = ground (
  arith,
  reduce-leaves_start (top ∷ rest, true) ps,
  reduce-leaves_start (rest, true) ps,
  reduce-leaves_start (p ∷ top ∷ rest, false) ps,
)

has_dot_dot-append :
    (xs ys : List Bytes) → has_dot_dot (xs ++ ys) ≡ (has_dot_dot xs || has_dot_dot ys)
unfolding has_dot_dot
has_dot_dot-append [] ys = refl
has_dot_dot-append (x ∷ xs) ys = ground (arith, has_dot_dot-append xs ys)

has_dot_dot-reverse : (xs : List Bytes) → has_dot_dot (reverse xs) ≡ has_dot_dot xs
unfolding has_dot_dot
has_dot_dot-reverse [] = refl
has_dot_dot-reverse (x ∷ xs) =
    ground
      (arith, reverse-cons x xs, has_dot_dot-append (reverse xs) (x ∷ []), has_dot_dot-reverse xs)

normal_names-has_dot_dot : (s : Stack × Bool) → has_dot_dot (normal_names false s) ≡ has_dot_dot s.0
unfolding normal_names has_dot_dot equal
normal_names-has_dot_dot ([], slash) = ground arith
normal_names-has_dot_dot (top ∷ rest, slash) =
    ground
      (arith, has_dot_dot-append (reverse (top ∷ rest)) ([] ∷ []), has_dot_dot-reverse (top ∷ rest))

-- The normal form of a relative path holds a ".." exactly when a walk along the path leaves the
-- directory that it starts from.
pub lexically_normal-has_dot_dot :
    (p : FilePath)
    → p.rooted ≡ false
    → has_dot_dot (lexically_normal p).names ≡ leaves_start 0 p.names
unfolding lexically_normal has_dot_dot leaves_start
lexically_normal-has_dot_dot p h = ground (
  arith,
  normal_names-has_dot_dot (reduce false ([], false) p.names),
  reduce-leaves_start ([], false) p.names,
)
