-- ===== src/Resolve/Windows.antt =====
-- The Windows branch of path_part_equal of net/sync_manager.cpp. Names are lists of 16-bit units, and
-- towlower is a parameter.
use clsync.Base.{
  ℕ, ◌≡◌, refl, suc, ap, ap₂, ◌↔◌, Bool, true, false, ◌&&◌, List, [], ◌∷◌, ◌==◌, arith, map, length,
  if◌then◌else◌,
}

module _ (towlower : ℕ → ℕ) where
  -- The loop over the indices, which are in range for both.
  unfoldable pub same_units : List ℕ → List ℕ → Bool
  same_units (a ∷ s) (b ∷ t) = towlower a == towlower b && same_units s t
  same_units _ _ = true

  unfoldable pub path_part_equal : List ℕ → List ℕ → Bool
  unfolding same_units
  path_part_equal s t = if length s == length t then same_units s t else false

  same_units-map :
      (s t : List ℕ) → length s ≡ length t → same_units s t ≡ true → map towlower s ≡ map towlower t
  unfolding same_units
  same_units-map [] [] e h = refl
  same_units-map [] (b ∷ t) e h = ground arith
  same_units-map (a ∷ s) [] e h = ground arith
  same_units-map (a ∷ s) (b ∷ t) e h =
      let first : towlower a ≡ towlower b = ground arith in
      ap₂ (◌∷◌) first (same_units-map s t (ground arith) (ground arith))

  map-same_units :
      (s t : List ℕ)
      → map towlower s ≡ map towlower t
      → (length s ≡ length t) × (same_units s t ≡ true)
  unfolding same_units
  map-same_units [] [] h = (refl, refl)
  map-same_units [] (b ∷ t) h = cc
  map-same_units (a ∷ s) [] h = cc
  map-same_units (a ∷ s) (b ∷ t) h =
      let first : towlower a ≡ towlower b = cc in
      let rest = map-same_units s t cc in (ap suc rest.0, ground (arith, first, rest.1))

  -- Two names are equal on Windows exactly when they are the same in lower case.
  pub path_part_equal_iff :
      (s t : List ℕ) → (path_part_equal s t ≡ true) ↔ (map towlower s ≡ map towlower t)
  unfolding path_part_equal
  path_part_equal_iff s t = (
    λ h. same_units-map s t (ground arith) (ground arith),
    λ h. ground (arith, map-same_units s t h),
  )
