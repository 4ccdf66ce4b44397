-- ===== src/Rfs/Windows.antt =====
-- The Windows branches of include/rfs: is_target_mounted_file of fs_file.cpp, and get_file_info of
-- ntfs/ntfs.cpp. What it asks of the Windows API is a parameter.
use clsync.Base.{
  ℕ, suc, ◌≡◌, refl, ap, ◌∙◌, Bool, true, false, ◌||◌, List, [], ◌∷◌, ◌++◌, Option, some, none,
  ◌==◌, drop, map, is_empty, map-append, if◌then◌else◌, pos, arith,
}
use clsync.Text.{Bytes, codes, equal, starts_with, to_lower}
use clsync.Rfs.{Stream, File}

-- `find_last_of("/\\")`.
unfoldable pub find_last_separator : Bytes → Option ℕ
find_last_separator [] = none
find_last_separator (d ∷ ds) = elim (find_last_separator ds) [
  | some at ↦ some (suc at)
  | none ↦ if d == b'/' || d == b'\\' then some 0 else none
]

unfoldable pub last_part : Bytes → Bytes
unfolding find_last_separator
last_part path = elim (find_last_separator path) [ none ↦ path | some sep ↦ drop (suc sep) path ]

unfoldable pub is_target_mounted_file : Bytes → Bool
unfolding last_part equal starts_with
is_target_mounted_file path =
    let filename = last_part (map to_lower path) in
    equal filename (codes ".mounted") || starts_with (codes ".mounted:") filename

abbrev is_hidden : Bytes → Bool
is_hidden filename = equal filename (codes ".mounted") || starts_with (codes ".mounted:") filename

-- Whether a path is taken for the hidden file does not depend on the case of its letters.
is_target_mounted_file-to_lower :
    (s t : Bytes)
    → map to_lower s ≡ map to_lower t
    → is_target_mounted_file s ≡ is_target_mounted_file t
unfolding is_target_mounted_file
is_target_mounted_file-to_lower s t e = ap (λ l. is_hidden (last_part l)) e

find_last_separator-backslash :
    (dir name : Bytes)
    → find_last_separator name ≡ none
    → (at : ℕ) × (find_last_separator (dir ++ b'\\' ∷ name) ≡ some at)
      × (drop (suc at) (dir ++ b'\\' ∷ name) ≡ name)
unfolding find_last_separator
find_last_separator-backslash [] name lacks = (0, ground arith, refl)
find_last_separator-backslash (d ∷ dir) name lacks =
    let (at, found, left) = find_last_separator-backslash dir name lacks in
    (suc at, ground (arith, found), left)

last_part-backslash :
    (dir name : Bytes)
    → find_last_separator name ≡ none
    → last_part (dir ++ b'\\' ∷ name) ≡ last_part name
unfolding last_part
last_part-backslash dir name lacks =
    let (at, found, left) = find_last_separator-backslash dir name lacks in
    rw (found, lacks, last_part) left

-- What stands before a backslash does not count.
is_target_mounted_file-backslash :
    (dir name : Bytes)
    → find_last_separator (map to_lower name) ≡ none
    → is_target_mounted_file (dir ++ b'\\' ∷ name) ≡ is_target_mounted_file name
unfolding is_target_mounted_file to_lower
is_target_mounted_file-backslash dir name lacks = ap is_hidden (
    ap last_part (map-append to_lower dir (b'\\' ∷ name))
    ∙ last_part-backslash (map to_lower dir) (map to_lower name) lacks)

module _ (st : Stream) (Info : Type 0) (to_wide : Bytes → List ℕ) where
  -- The file, the value and what `info` points to, given FindFirstFileW for the disk as it is;
  -- without it the search has found nothing. A null `info` is none.
  unfoldable pub get_file_info :
      (List ℕ → Option Info) → Option Info → File st → File st × Bool × Option Info
  unfolding is_target_mounted_file
  get_file_info find_first none f = (f, false, none)
  get_file_info find_first (some info) f =
      if is_empty f.path
      then (f, false, some info)
      else if is_target_mounted_file f.path
      then (record f { last_error = pos 2 }, false, some info)
      else elim (find_first (to_wide f.path)) [
        | some found ↦ (f, true, some found)
        | none ↦ (f, false, some info)
      ]
