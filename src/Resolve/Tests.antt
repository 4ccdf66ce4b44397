-- ===== src/Resolve/Tests.antt =====
-- Paths of net/sync_manager.cpp: tests, and the theorems at them.
use clsync.Base.{◌≡◌, refl, ◌↔◌, inr, true, List, [], ◌∷◌, ◌++◌}
use clsync.Text.{Bytes, codes, equal}
use clsync.FilePath.{FilePath, of_text, parts, lexically_normal, join, parent_path, has_dot_dot}
use clsync.FilePath.Normal.{leaves_start, lexically_normal-has_dot_dot}
use clsync.FileSystem.{ok}
use clsync.FileSystem.Memory.{plain_fs}
use clsync.Resolve.{is_descendant_of, resolved, refused, rejected_form, resolve_local_path}
use clsync.Resolve.Confined.{
  is_descendant_of_iff, Confined, resolve_local_path-Confined, resolve_local_path-refused,
}

normal_forms :
    ((lexically_normal (of_text (codes "a//b/../c/."))).names ≡ codes "a" ∷ codes "c" ∷ [] ∷ [])
    × ((lexically_normal (of_text (codes "a/.."))).names ≡ codes "." ∷ [])
    × ((lexically_normal (of_text (codes "../a/../.."))).names ≡ codes ".." ∷ codes ".." ∷ [])
    × ((lexically_normal (of_text (codes "/../a"))).names ≡ codes "a" ∷ [])
unfolding of_text lexically_normal equal
normal_forms = (refl, refl, refl, refl)

abbrev root : FilePath
root = record { rooted = true; names = codes "data" ∷ [] }

abbrev target : FilePath
target = record { rooted = true; names = codes "data" ∷ codes "x" ∷ codes "y" ∷ [] }

resolves :
    (resolve_local_path (plain_fs 5) tt (codes "/data") (codes "x/./y") true).1 ≡ resolved target
unfolding resolve_local_path of_text lexically_normal is_descendant_of join parent_path has_dot_dot
    rejected_form equal
resolves = refl

lexically_normal-has_dot_dot_example :
    has_dot_dot (lexically_normal (of_text (codes "a/../../b"))).names
    ≡ leaves_start 0 (of_text (codes "a/../../b")).names
unfolding of_text
lexically_normal-has_dot_dot_example =
    lexically_normal-has_dot_dot (of_text (codes "a/../../b")) refl

is_descendant_of_iff_example :
    (is_descendant_of target root ≡ true)
    ↔ ((rest : List Bytes) × (parts target ≡ parts root ++ rest))
is_descendant_of_iff_example = is_descendant_of_iff target root

resolve_local_path-Confined_example :
    (r : FilePath) × ((plain_fs 5).weakly_canonical tt (of_text (codes "/data")) ≡ ok r)
    × Confined
        (plain_fs 5)
        (resolve_local_path (plain_fs 5) tt (codes "/data") (codes "x/./y") true).0
        r
        target
resolve_local_path-Confined_example =
    resolve_local_path-Confined (plain_fs 5) tt (codes "/data") (codes "x/./y") true target resolves

resolve_local_path-refused_example :
    resolve_local_path (plain_fs 5) tt (codes "/data") (codes "a/../../b") true
    ≡ (tt, refused (codes "Local path must not escape local_root."))
unfolding of_text leaves_start equal lexically_normal rejected_form
resolve_local_path-refused_example =
    resolve_local_path-refused (plain_fs 5) tt (codes "/data") (codes "a/../../b") true (inr refl)
