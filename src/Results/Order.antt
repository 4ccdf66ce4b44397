-- ===== src/Results/Order.antt =====
-- The order of an unordered_map (`results_` of net/sync_manager.h): what the loops and the look-ups
-- make of the same entries in another order.
use mathlib.Core.List.{Permᴰ}
use mathlib.Core.List.Permᴰ
use clsync.Base.{◌≡◌, refl, sym, ap, subst, ◌∙◌, [], ◌∷◌, ◌++◌, none, arith, Bool-cases, inl, inr}
use clsync.Text.{Bytes, equal, equal_iff}
use clsync.Task.{SyncResult}
use clsync.Results.{
  Results, lookup, update, emplace, update_all, map_option, lookup-update_all, lookup-emplace,
}

-- No key stands twice.
abbrev pub IsUnique : Results → Type 0
IsUnique [] = Unit
IsUnique ((k, r) ∷ m) = (lookup k m ≡ none) × IsUnique m

swap-lookup :
    (a b : Bytes × SyncResult) (l : Results)
    → IsUnique (a ∷ b ∷ l)
    → IsUnique (b ∷ a ∷ l) × ((k : Bytes) → lookup k (a ∷ b ∷ l) ≡ lookup k (b ∷ a ∷ l))
unfolding lookup
swap-lookup a b l u = (
  (
    ground (arith, u.0, u.1, equal_iff a.0 b.0, equal_iff b.0 a.0),
    (ground (arith, u.0, equal_iff b.0 a.0), u.1.1),
  ),
  λ k. ground (arith, u.0, equal_iff b.0 k, equal_iff a.0 k, equal_iff b.0 a.0),
)

-- Another order of a map is a map, and looks up the same.
pub Perm-lookup :
    {m m' : Results}
    → Permᴰ m m'
    → IsUnique m
    → IsUnique m' × ((k : Bytes) → lookup k m ≡ lookup k m')
unfolding lookup
Perm-lookup Permᴰ.nil u = (tt, λ k. refl)
Perm-lookup (Permᴰ.cons {a} {b} {l₁} {l₂} e p) u =
    let (u', same) = Perm-lookup p u.1 in
    rw (← e) ((sym (same a.0) ∙ u.0, u'), λ k. rw (same k) refl)
Perm-lookup (Permᴰ.swap {a} {b} {b' = b'} {l = l} e f) u =
    subst (λ t. IsUnique t × ((k : Bytes) → lookup k (a ∷ b ∷ l) ≡ lookup k t))
      (ap (λ x. b ∷ x ∷ l) e ∙ ap (λ x. x ∷ b' ∷ l) f) (swap-lookup a b l u)
Perm-lookup (Permᴰ.trans p q) u =
    let (u', first) = Perm-lookup p u in
    let (u'', second) = Perm-lookup q u' in (u'', λ k. first k ∙ second k)

Perm-update_entry :
    (k : Bytes) (f : SyncResult → SyncResult) (a b : Bytes × SyncResult) (l : Results)
    → IsUnique (a ∷ b ∷ l)
    → Permᴰ (update k f (a ∷ b ∷ l)) (update k f (b ∷ a ∷ l))
unfolding update lookup
Perm-update_entry k f a b l u = elim (Bool-cases (equal a.0 k)) [
  | inl first ↦ elim (Bool-cases (equal b.0 k)) [
    | inl second ↦ absurd (ground (arith, u.0, equal_iff a.0 k, equal_iff b.0 k, equal_iff b.0 a.0))
    | inr other ↦ rw (first, other) (Permᴰ.swap refl refl)
  ]
  | inr other ↦ elim (Bool-cases (equal b.0 k)) [
    | inl second ↦ rw (other, second) (Permᴰ.swap refl refl)
    | inr third ↦ rw (other, third) (Permᴰ.swap refl refl)
  ]
]

pub Perm-update :
    (k : Bytes) (f : SyncResult → SyncResult) {m m' : Results}
    → Permᴰ m m'
    → IsUnique m
    → Permᴰ (update k f m) (update k f m')
unfolding update
Perm-update k f Permᴰ.nil u = Permᴰ.nil
Perm-update k f (Permᴰ.cons {a} {b} {l₁} {l₂} e p) u = rw (← e) (elim (Bool-cases (equal a.0 k)) [
  | inl hit ↦ rw hit (Permᴰ.cons refl p)
  | inr other ↦ rw other (Permᴰ.cons refl (Perm-update k f p u.1))
])
Perm-update k f (Permᴰ.swap {a} {b} {b' = b'} {l = l} e e') u =
    subst (λ t. Permᴰ (update k f (a ∷ b ∷ l)) (update k f t))
      (ap (λ x. b ∷ x ∷ l) e ∙ ap (λ x. x ∷ b' ∷ l) e') (Perm-update_entry k f a b l u)
Perm-update k f (Permᴰ.trans p q) u =
    Permᴰ.trans (Perm-update k f p u) (Perm-update k f q (Perm-lookup p u).0)

pub Perm-update_all :
    (f : SyncResult → SyncResult) {m m' : Results}
    → Permᴰ m m'
    → Permᴰ (update_all f m) (update_all f m')
unfolding update_all
Perm-update_all f Permᴰ.nil = Permᴰ.nil
Perm-update_all f (Permᴰ.cons e p) = Permᴰ.cons (ap (λ a. (a.0, f a.1)) e) (Perm-update_all f p)
Perm-update_all f (Permᴰ.swap e e') =
    Permᴰ.swap (ap (λ a. (a.0, f a.1)) e) (ap (λ a. (a.0, f a.1)) e')
Perm-update_all f (Permᴰ.trans p q) = Permᴰ.trans (Perm-update_all f p) (Perm-update_all f q)

-- A key that is not there is put behind the others.
emplace-fresh :
    (k : Bytes) (r : SyncResult) (m : Results)
    → lookup k m ≡ none
    → emplace k r m ≡ m ++ (k, r) ∷ []
unfolding emplace lookup
emplace-fresh k r [] fresh = refl
emplace-fresh k r ((j, q) ∷ m) fresh = ground (arith, emplace-fresh k r m)

pub Perm-emplace :
    (k : Bytes) (r : SyncResult) {m m' : Results}
    → Permᴰ m m'
    → IsUnique m
    → lookup k m ≡ none
    → Permᴰ (emplace k r m) (emplace k r m')
Perm-emplace k r {m} {m'} p u fresh =
    rw (emplace-fresh k r m fresh, emplace-fresh k r m' (sym ((Perm-lookup p u).1 k) ∙ fresh))
      (Permᴰ.append_right ((k, r) ∷ []) p)

-- The writes leave every key unique.
lookup-update-none :
    (j k : Bytes) (f : SyncResult → SyncResult) (m : Results)
    → lookup j m ≡ none
    → lookup j (update k f m) ≡ none
unfolding lookup update
lookup-update-none j k f [] h = refl
lookup-update-none j k f ((i, r) ∷ m) h =
    ground (arith, equal_iff i k, equal_iff i j, lookup-update-none j k f m)

pub update-IsUnique :
    (k : Bytes) (f : SyncResult → SyncResult) (m : Results) → IsUnique m → IsUnique (update k f m)
unfolding update
update-IsUnique k f [] u = u
update-IsUnique k f ((i, r) ∷ m) u = elim (Bool-cases (equal i k)) [
  | inl hit ↦ rw hit u
  | inr other ↦ rw other (lookup-update-none i k f m u.0, update-IsUnique k f m u.1)
]

pub update_all-IsUnique :
    (f : SyncResult → SyncResult) (m : Results) → IsUnique m → IsUnique (update_all f m)
unfolding update_all
update_all-IsUnique f [] u = u
update_all-IsUnique f ((i, r) ∷ m) u =
    (lookup-update_all i f m ∙ ap (map_option f) u.0, update_all-IsUnique f m u.1)

pub emplace-IsUnique :
    (k : Bytes) (r : SyncResult) (m : Results)
    → lookup k m ≡ none
    → IsUnique m
    → IsUnique (emplace k r m)
unfolding emplace lookup
emplace-IsUnique k r [] fresh u = (refl, tt)
emplace-IsUnique k r ((i, q) ∷ m) fresh u = elim (Bool-cases (equal i k)) [
  | inl hit ↦ absurd (ground (arith, fresh))
  | inr other ↦ rw other (
    lookup-emplace k i r m (ground (arith, fresh))
        ∙ ground (arith, u.0, equal_iff k i, equal_iff i k),
    emplace-IsUnique k r m (ground (arith, fresh)) u.1,
  )
]
