-- ===== src/Resolve.antt =====
-- `is_descendant_of` and `SyncManager::resolve_local_path` of net/sync_manager.cpp.
pub mod Confined
pub mod Windows
mod Tests
use clsync.Base.{
  Bool, true, false, not, ◌&&◌, ◌||◌, List, [], ◌∷◌, ◌++◌, Option, none, some, if◌then◌else◌, ◌≡◌,
  refl, ◌⊎◌, inl, inr,
}
use clsync.Text.{Bytes, equal, codes}
use clsync.FilePath.{
  FilePath, dot, path_empty, parts, of_text, lexically_normal, join, parent_path, has_dot_dot,
}
use clsync.FileSystem.{ok, fails, FileSystem}

-- The POSIX branch of `path_part_equal`: the parts are single names.
pub path_part_equal : Bytes → Bytes → Bool
path_part_equal = equal

-- The loop over the two iterators; the child comes first, as in the source.
unfoldable pub parts_descend : List Bytes → List Bytes → Bool
unfolding path_part_equal
parts_descend child [] = true
parts_descend [] (q ∷ qs) = false
parts_descend (p ∷ ps) (q ∷ qs) = path_part_equal p q && parts_descend ps qs

unfoldable pub is_descendant_of : FilePath → FilePath → Bool
unfolding parts_descend
is_descendant_of child parent = parts_descend (parts child) (parts parent)

-- The path, or the text that `error` gets.
pub data Resolved : Type 0 where
  resolved : FilePath → Resolved
  refused : Bytes → Resolved

is_dot : List Bytes → Bool
is_dot (n ∷ []) = equal n dot
is_dot _ = false

-- has_root_name is always false on POSIX, and is_absolute and has_root_directory agree.
unfoldable pub rejected_form : FilePath → Bool
unfolding is_dot
rejected_form p = path_empty p || p.rooted || is_dot p.names

module _ (fs : FileSystem) where
  open fs use {Disk, weakly_canonical, create_directories}

  -- The directories that `create_parent` asks for: the disk afterwards, and the message of a failure.
  pub make_parent : Disk → FilePath → Bool → Disk × Option Bytes
  make_parent disk candidate false = (disk, none)
  make_parent disk candidate true = create_directories disk (parent_path candidate)

  -- From `weakly_canonical(candidate.parent_path())` on.
  pub check_parent : Disk → FilePath → FilePath → Resolved
  check_parent disk root candidate = elim (weakly_canonical disk (parent_path candidate)) [
    | fails message ↦ refused (codes "Local path resolves outside local_root.")
    | ok parent ↦
        if is_descendant_of parent root
        then resolved candidate
        else refused (codes "Local path resolves outside local_root.")
  ]

  -- What stands behind the checks on the text of the path.
  pub locate : Disk → FilePath → FilePath → Bool → Disk × Resolved
  unfolding make_parent check_parent
  locate disk root normalized create_parent =
      let candidate = join root normalized in
      let made = make_parent disk candidate create_parent in
      elim made.1 [
        | some message ↦ (made.0, refused (codes "Cannot create output directory: " ++ message))
        | none ↦ (made.0, check_parent made.0 root candidate)
      ]

  unfoldable pub resolve_local_path : Disk → Bytes → Bytes → Bool → Disk × Resolved
  unfolding locate
  resolve_local_path disk local_root path create_parent =
      let normalized = lexically_normal (of_text path) in
      if rejected_form normalized
      then (disk, refused (codes "Local path must be a non-empty relative path."))
      else if has_dot_dot normalized.names
      then (disk, refused (codes "Local path must not escape local_root."))
      else elim (weakly_canonical disk (of_text local_root)) [
        | fails message ↦ (disk, refused (codes "Cannot resolve local root: " ++ message))
        | ok root ↦ locate disk root normalized create_parent
      ]

pub Resolved-cases :
    (r : Resolved)
    → ((path : FilePath) × (r ≡ resolved path)) ⊎ ((text : Bytes) × (r ≡ refused text))
Resolved-cases (resolved path) = inl (path, refl)
Resolved-cases (refused text) = inr (text, refl)
