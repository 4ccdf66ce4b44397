-- ===== src/Rfs/Mounted.antt =====
-- Which paths is_target_mounted_file of include/rfs/fs_file.cpp takes for the hidden file.
use clsync.Base.{
  ℕ, suc, ◌≡◌, ◌↔◌, ◌⊎◌, inl, inr, refl, sym, ap, ap₂, ◌∙◌, Bool, true, false, ◌||◌, [], ◌∷◌, ◌++◌,
  some, none, ◌==◌, drop, arith, append_assoc, Bool-cases, Option-cases,
}
use clsync.Text.{Bytes, codes, equal, equal_iff, starts_with}
use clsync.Rfs.{find_last_of, file_name, is_target_mounted_file}

-- A list with no `c` in it.
abbrev pub Lacks : ℕ → Bytes → Type 0
Lacks c s = find_last_of c s ≡ none

find_last_of-cons :
    (c d : ℕ) (s : Bytes)
    → find_last_of c (d ∷ s) ≡ none
    → (find_last_of c s ≡ none) × ((d == c) ≡ false)
unfolding find_last_of
find_last_of-cons c d s h = ground arith

-- The last separator is the one that nothing but other characters follows.
find_last_of-prefix :
    (c : ℕ) (d s : Bytes)
    → Lacks c s
    → (at : ℕ) × (find_last_of c (d ++ c ∷ s) ≡ some at) × (drop (suc at) (d ++ c ∷ s) ≡ s)
unfolding find_last_of
find_last_of-prefix c [] s h = (0, ground arith, refl)
find_last_of-prefix c (x ∷ d) s h =
    let (at, found, left) = find_last_of-prefix c d s h in (suc at, ground (arith, found), left)

find_last_of-split :
    (c : ℕ) (s : Bytes) (at : ℕ)
    → find_last_of c s ≡ some at
    → (d : Bytes) × (s ≡ d ++ c ∷ drop (suc at) s) × Lacks c (drop (suc at) s)
unfolding find_last_of
find_last_of-split c [] at h = cc
find_last_of-split c (x ∷ s) at h = elim (Option-cases (find_last_of c s)) [
  | inr (k, e) ↦
      let (d, same, lacks) = find_last_of-split c s k e in
      let later : suc k ≡ at = ground arith in rw (← later) (x ∷ d, ap (◌∷◌ x) same, lacks)
  | inl e ↦ let here : (at ≡ 0) × (x ≡ c) = ground arith in rw (here.0, here.1) ([], refl, e)
]

-- The end of a path that nothing but a separator, if any, divides from what stands before it.
abbrev pub IsDirectory : Bytes → Type 0
IsDirectory dir = (dir ≡ []) ⊎ ((d : Bytes) × (dir ≡ d ++ b'/' ∷ []))

file_name-split :
    (path : Bytes)
    → (dir : Bytes) × IsDirectory dir × (path ≡ dir ++ file_name path) × Lacks b'/' (file_name path)
unfolding file_name
file_name-split path = elim (Option-cases (find_last_of b'/' path)) [
  | inl e ↦ rw (file_name, e) ([], inl refl, refl, e)
  | inr (sep, e) ↦
      let (d, same, lacks) = find_last_of-split b'/' path sep e in
      rw (file_name, e)
        (
          d ++ b'/' ∷ [],
          inr (d, refl),
          same ∙ sym (append_assoc d (b'/' ∷ []) (drop (suc sep) path)),
          lacks,
        )
]

file_name-append :
    (dir name : Bytes) → IsDirectory dir → Lacks b'/' name → file_name (dir ++ name) ≡ name
unfolding file_name
file_name-append dir name (inl e) lacks = rw e (rw (file_name, lacks))
file_name-append dir name (inr (d, e)) lacks =
    let (sep, found, left) = find_last_of-prefix b'/' d name lacks in
    rw (e, append_assoc d (b'/' ∷ []) name) (rw (file_name, found) left)

-- The names of the hidden file and of its streams.
abbrev pub IsMountedName : Bytes → Type 0
IsMountedName name =
    (name ≡ codes ".mounted") ⊎ ((stream : Bytes) × (name ≡ codes ".mounted:" ++ stream))

starts_with-split : (p s : Bytes) → starts_with p s ≡ true → (t : Bytes) × (s ≡ p ++ t)
unfolding starts_with
starts_with-split [] s h = (s, refl)
starts_with-split (c ∷ p) [] h = cc
starts_with-split (c ∷ p) (d ∷ s) h =
    let both : (c ≡ d) × (starts_with p s ≡ true) = ground arith in
    let (t, e) = starts_with-split p s both.1 in (t, ap₂ ◌∷◌ (sym both.0) e)

starts_with-append : (p t : Bytes) → starts_with p (p ++ t) ≡ true
unfolding starts_with
starts_with-append [] t = refl
starts_with-append (c ∷ p) t = ground (arith, starts_with-append p t)

or_right : (a b : Bool) → b ≡ true → (a || b) ≡ true
or_right a b h = ground arith

IsMountedName-iff :
    (name : Bytes)
    → ((equal name (codes ".mounted") || starts_with (codes ".mounted:") name) ≡ true)
      ↔ IsMountedName name
IsMountedName-iff name = (read, back)
  where
    read :
        (equal name (codes ".mounted") || starts_with (codes ".mounted:") name) ≡ true
        → IsMountedName name
    read h = elim (Bool-cases (equal name (codes ".mounted"))) [
      | inl e ↦ inl ((equal_iff name (codes ".mounted")).0 e)
      | inr e ↦ inr (starts_with-split (codes ".mounted:") name (rw e at h))
    ]

    back :
        IsMountedName name
        → (equal name (codes ".mounted") || starts_with (codes ".mounted:") name) ≡ true
    back (inl e) = rw ((equal_iff name (codes ".mounted")).1 e)
    back (inr (stream, e)) =
        or_right (equal name (codes ".mounted")) (starts_with (codes ".mounted:") name)
          (ap (starts_with (codes ".mounted:")) e ∙ starts_with-append (codes ".mounted:") stream)

-- is_target_mounted_file accepts exactly the paths whose last part, the one behind the last "/" or the
-- whole path, is ".mounted" or begins with ".mounted:".
pub is_target_mounted_file_iff :
    (path : Bytes)
    → (is_target_mounted_file path ≡ true) ↔ (
        (dir : Bytes) × (name : Bytes) × (path ≡ dir ++ name)
        × IsDirectory dir
        × Lacks b'/' name
        × IsMountedName name)
unfolding is_target_mounted_file
is_target_mounted_file_iff path = (read, back)
  where
    read :
        is_target_mounted_file path ≡ true
        → (dir : Bytes) × (name : Bytes) × (path ≡ dir ++ name)
          × IsDirectory dir
          × Lacks b'/' name
          × IsMountedName name
    read h =
        let (dir, ends, same, lacks) = file_name-split path in
        (dir, file_name path, same, ends, lacks, (IsMountedName-iff (file_name path)).0 h)

    back :
        ((dir : Bytes) × (name : Bytes) × (path ≡ dir ++ name)
          × IsDirectory dir
          × Lacks b'/' name
          × IsMountedName name)
        → is_target_mounted_file path ≡ true
    back (dir, name, same, ends, lacks, mounted) =
        let last = ap file_name same ∙ file_name-append dir name ends lacks in
        (IsMountedName-iff (file_name path)).1 (rw last mounted)
