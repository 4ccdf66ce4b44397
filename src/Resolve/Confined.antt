-- ===== src/Resolve/Confined.antt =====
-- What a path that resolve_local_path returns is known to be.
use clsync.Base.{
  ◌≡◌, ◌≢◌, refl, ap₂, subst, ◌∙◌, ◌↔◌, ◌⊎◌, inl, inr, Bool, true, false, List, [], ◌∷◌, ◌++◌,
  arith, Bool-cases, if◌then◌else◌,
}
use clsync.Text.{Bytes, codes, equal_iff, equal_refl}
use clsync.FilePath.{
  FilePath, parts, of_text, lexically_normal, join, parent_path, has_dot_dot, without_end,
}
use clsync.FilePath.Normal.{leaves_start, lexically_normal-has_dot_dot}
use clsync.FileSystem.{Answer-cases, ok, FileSystem}
use clsync.Resolve.{
  parts_descend, path_part_equal, is_descendant_of, resolved, refused, rejected_form, check_parent,
  locate, resolve_local_path,
}

parts_descend-append : (ps qs : List Bytes) → parts_descend (ps ++ qs) ps ≡ true
unfolding parts_descend path_part_equal
parts_descend-append [] qs = refl
parts_descend-append (p ∷ ps) qs = ground (arith, equal_refl p, parts_descend-append ps qs)

parts_descend_split :
    (ps qs : List Bytes) → parts_descend ps qs ≡ true → (rest : List Bytes) × (ps ≡ qs ++ rest)
unfolding parts_descend path_part_equal
parts_descend_split ps [] h = (ps, refl)
parts_descend_split [] (q ∷ qs) h = cc
parts_descend_split (p ∷ ps) (q ∷ qs) h =
    let tail = parts_descend_split ps qs (ground arith) in
    (tail.0, ap₂ ◌∷◌ (ground (arith, equal_iff p q)) tail.1)

-- `is_descendant_of child parent` holds exactly when the parts of the child are those of the
-- parent followed by more.
pub is_descendant_of_iff :
    (child parent : FilePath)
    → (is_descendant_of child parent ≡ true)
      ↔ ((rest : List Bytes) × (parts child ≡ parts parent ++ rest))
unfolding is_descendant_of
is_descendant_of_iff child parent = (
  parts_descend_split (parts child) (parts parent),
  λ r. rw r.1 (parts_descend-append (parts parent) r.0),
)

-- The candidate lies below the root by its names, and the directory that holds it has a
-- canonical form, on the disk that the call leaves, whose parts begin with those of the root.
pub record Confined (fs : FileSystem) (disk : fs.Disk) (root candidate : FilePath) : Type 0 where
  pub below : List Bytes
  pub names_split : candidate.names ≡ without_end root.names ++ below
  pub same_root : candidate.rooted ≡ root.rooted
  pub below_ne_nil : below ≢ []
  pub no_dot_dot : has_dot_dot below ≡ false
  pub parent : FilePath
  pub parent_is : fs.weakly_canonical disk (parent_path candidate) ≡ ok parent
  pub rest : List Bytes
  pub parent_split : parts parent ≡ parts root ++ rest

relative_form : (p : FilePath) → rejected_form (lexically_normal p) ≡ false → p.rooted ≡ false
unfolding rejected_form lexically_normal
relative_form p h = ground arith

-- The text of a refusal by the form of the path alone.
abbrev pub refusal : FilePath → Bytes
refusal p =
    if rejected_form p
    then codes "Local path must be a non-empty relative path."
    else codes "Local path must not escape local_root."

module _ (fs : FileSystem) where
  check_parent_inversion :
      (disk : fs.Disk) (root candidate found : FilePath)
      → check_parent fs disk root candidate ≡ resolved found
      → (parent : FilePath) × (fs.weakly_canonical disk (parent_path candidate) ≡ ok parent)
        × (is_descendant_of parent root ≡ true)
        × (candidate ≡ found)
  unfolding check_parent
  check_parent_inversion disk root candidate found h =
      elim (Answer-cases (fs.weakly_canonical disk (parent_path candidate))) [
        | inl (parent, e) ↦ (parent, e, ground arith, ground arith)
        | inr (message, e) ↦ ground arith
      ]

  locate_inversion :
      (disk : fs.Disk) (root normalized : FilePath) (create_parent : Bool) (found : FilePath)
      → (locate fs disk root normalized create_parent).1 ≡ resolved found
      → check_parent fs (locate fs disk root normalized create_parent).0 root (join root normalized)
        ≡ resolved found
  unfolding locate
  locate_inversion disk root normalized create_parent found h = ground arith

  locate-Confined :
      (disk : fs.Disk) (root normalized : FilePath) (create_parent : Bool) (candidate : FilePath)
      → rejected_form normalized ≡ false
      → has_dot_dot normalized.names ≡ false
      → (locate fs disk root normalized create_parent).1 ≡ resolved candidate
      → Confined fs (locate fs disk root normalized create_parent).0 root candidate
  locate-Confined disk root normalized create_parent candidate form plain h =
      let after = (locate fs disk root normalized create_parent).0 in
      let inverted =
        check_parent_inversion after root (join root normalized) candidate
          (locate_inversion disk root normalized create_parent candidate h) in
      let split = (is_descendant_of_iff inverted.0 root).0 inverted.2 in
      record {
        below = normalized.names;
        names_split = unfold join rejected_form in ground (arith, inverted.3);
        same_root = unfold join rejected_form in ground (arith, inverted.3);
        below_ne_nil = unfold rejected_form in ground arith;
        no_dot_dot = plain;
        parent = inverted.0;
        parent_is =
            subst (λ c. fs.weakly_canonical after (parent_path c) ≡ ok inverted.0) inverted.3
              inverted.1;
        rest = split.0;
        parent_split = split.1;
      }

  resolve_inversion :
      (disk : fs.Disk) (local_root path : Bytes) (create_parent : Bool) (candidate : FilePath)
      → (resolve_local_path fs disk local_root path create_parent).1 ≡ resolved candidate
      → (root : FilePath) × (fs.weakly_canonical disk (of_text local_root) ≡ ok root)
        × (rejected_form (lexically_normal (of_text path)) ≡ false)
        × (has_dot_dot (lexically_normal (of_text path)).names ≡ false)
        × (resolve_local_path fs disk local_root path create_parent
            ≡ locate fs disk root (lexically_normal (of_text path)) create_parent)
  unfolding resolve_local_path
  resolve_inversion disk local_root path create_parent candidate h =
      elim (Answer-cases (fs.weakly_canonical disk (of_text local_root))) [
        | inl (root, e) ↦ (root, e, ground arith, ground arith, ground arith)
        | inr (message, e) ↦ ground arith
      ]

  -- A path that resolve_local_path accepts is confined to the local root: the names behind the
  -- root are not empty and hold no "..", and the directory that holds the file resolves, on the
  -- disk after the call, to the root or a directory below it, whatever links the disk holds.
  pub resolve_local_path-Confined :
      (disk : fs.Disk) (local_root path : Bytes) (create_parent : Bool) (candidate : FilePath)
      → (resolve_local_path fs disk local_root path create_parent).1 ≡ resolved candidate
      → (root : FilePath) × (fs.weakly_canonical disk (of_text local_root) ≡ ok root)
        × Confined fs (resolve_local_path fs disk local_root path create_parent).0 root candidate
  resolve_local_path-Confined disk local_root path create_parent candidate h =
      let inverted = resolve_inversion disk local_root path create_parent candidate h in
      (
        inverted.0,
        inverted.1,
        rw inverted.4 (
            locate-Confined disk inverted.0 (lexically_normal (of_text path)) create_parent
              candidate inverted.2 inverted.3 (rw inverted.4 at h)),
      )

  refused_form :
      (disk : fs.Disk) (local_root path : Bytes) (create_parent : Bool)
      → rejected_form (lexically_normal (of_text path)) ≡ true
      → resolve_local_path fs disk local_root path create_parent
        ≡ (disk, refused (codes "Local path must be a non-empty relative path."))
  unfolding resolve_local_path
  refused_form disk local_root path create_parent e = rw e

  refused_escape :
      (disk : fs.Disk) (local_root path : Bytes) (create_parent : Bool)
      → rejected_form (lexically_normal (of_text path)) ≡ false
      → has_dot_dot (lexically_normal (of_text path)).names ≡ true
      → resolve_local_path fs disk local_root path create_parent
        ≡ (disk, refused (codes "Local path must not escape local_root."))
  unfolding resolve_local_path
  refused_escape disk local_root path create_parent e h = rw (e, h)

  -- A path that is absolute, or along which a walk leaves the directory that it starts from, is
  -- refused, with a text that depends on the path alone: whatever the disk holds and answers, also
  -- where the local root cannot be resolved, and the disk is left as it was.
  pub resolve_local_path-refused :
      (disk : fs.Disk) (local_root path : Bytes) (create_parent : Bool)
      → ((of_text path).rooted ≡ true) ⊎ (leaves_start 0 (of_text path).names ≡ true)
      → resolve_local_path fs disk local_root path create_parent
        ≡ (disk, refused (refusal (lexically_normal (of_text path))))
  resolve_local_path-refused disk local_root path create_parent h =
      elim (Bool-cases (rejected_form (lexically_normal (of_text path)))) [
        | inl e ↦ rw e (refused_form disk local_root path create_parent e)
        | inr e ↦
            let relative = relative_form (of_text path) e in
            rw e (
              refused_escape disk local_root path create_parent e
                (lexically_normal-has_dot_dot (of_text path) relative ∙ leaves relative))
      ]
    where
      leaves : (of_text path).rooted ≡ false → leaves_start 0 (of_text path).names ≡ true
      leaves relative = ground arith
