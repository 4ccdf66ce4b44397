-- ===== src/Results.antt =====
-- `results_` of net/sync_manager.h, an unordered_map from task ids to results. The order of the
-- list stands for the map's order of iteration, which the C++ library leaves open.
pub mod Order
use clsync.Base.{◌≡◌, refl, List, [], ◌∷◌, Option, none, some, arith, if◌then◌else◌}
use clsync.Text.{Bytes, equal, equal_iff}
use clsync.Task.{SyncResult}

abbrev pub Results : Type 0
Results = List (Bytes × SyncResult)

-- `find`.
unfoldable pub lookup : Bytes → Results → Option SyncResult
lookup k [] = none
lookup k ((j, r) ∷ m) = if equal j k then some r else lookup k m

-- A write through the reference that `at` returns.
unfoldable pub update : Bytes → (SyncResult → SyncResult) → Results → Results
update k f [] = []
update k f ((j, r) ∷ m) = if equal j k then (j, f r) ∷ m else (j, r) ∷ update k f m

-- `emplace` leaves the map alone where the key is there.
unfoldable pub emplace : Bytes → SyncResult → Results → Results
emplace k v [] = (k, v) ∷ []
emplace k v ((j, r) ∷ m) = if equal j k then (j, r) ∷ m else (j, r) ∷ emplace k v m

-- A loop over the map that writes through each reference.
unfoldable pub update_all : (SyncResult → SyncResult) → Results → Results
update_all f [] = []
update_all f ((j, r) ∷ m) = (j, f r) ∷ update_all f m

abbrev pub map_option : (SyncResult → SyncResult) → Option SyncResult → Option SyncResult
map_option f none = none
map_option f (some r) = some (f r)

pub lookup-update :
    (k j : Bytes) (f : SyncResult → SyncResult) (m : Results)
    → lookup j (update k f m) ≡ (if equal k j then map_option f (lookup j m) else lookup j m)
unfolding lookup update
lookup-update k j f [] = ground arith
lookup-update k j f ((i, r) ∷ m) =
    ground (arith, equal_iff k j, equal_iff i k, equal_iff i j, lookup-update k j f m)

pub lookup-emplace :
    (k j : Bytes) (v : SyncResult) (m : Results)
    → lookup k m ≡ none
    → lookup j (emplace k v m) ≡ (if equal k j then some v else lookup j m)
unfolding lookup emplace
lookup-emplace k j v [] h = refl
lookup-emplace k j v ((i, r) ∷ m) h =
    ground (arith, equal_iff k j, equal_iff i k, equal_iff i j, lookup-emplace k j v m)

pub lookup-update_all :
    (j : Bytes) (f : SyncResult → SyncResult) (m : Results)
    → lookup j (update_all f m) ≡ map_option f (lookup j m)
unfolding lookup update_all
lookup-update_all j f [] = refl
lookup-update_all j f ((i, r) ∷ m) = ground (arith, lookup-update_all j f m)
