-- ===== src/Concurrent/Tally.antt =====
-- How often the workers of net/sync_manager.cpp take a task, over a whole run.
pub mod Bound
use clsync.Base.{
  ℕ, zero, suc, ◌+◌, ◌*◌, ◌≤◌, ◌≡◌, [], ◌∷◌, some, none, arith, inl, inr, All, length, Bool-cases,
}
use clsync.Text.{Bytes, equal}
use clsync.Task.{SyncTask, SyncResult}
use clsync.Results.{Results, lookup, update, emplace, update_all}
use clsync.Manager.Lifecycle.{new_result}
use clsync.Concurrent.{System, Step, enqueues, claims, Reach, here, next}

-- All attempts at all tasks.
unfoldable pub total : Results → ℕ
total [] = 0
total ((id, r) ∷ m) = r.attempts + total m

pub mul_le : (k a b : ℕ) → a ≤ b → k * a ≤ k * b
mul_le zero a b h = omega arith
mul_le (suc k) a b h = omega (arith, mul_le k a b h)

abbrev pub Tried : ℕ → Bytes × SyncResult → Type 0
Tried n entry = entry.1.attempts ≤ n

pub total-le : (n : ℕ) (m : Results) → All (Tried n) m → total m ≤ n * length m
unfolding total
total-le n [] a = omega arith
total-le n (entry ∷ m) a = omega (arith, total-le n m a.1, a.0)

-- The results after a step that makes `d` attempts and stores `k` tasks.
pub record Grows (n d k : ℕ) (old new : Results) : Type 0 where
  pub attempts : total new ≡ total old + d
  pub tasks : length new ≡ length old + k
  pub tried : All (Tried n) old → All (Tried n) new

pub same-Grows : (n : ℕ) (m : Results) → Grows n 0 0 m m
same-Grows n m = record { attempts = omega arith; tasks = omega arith; tried = λ a. a }

pub update-Grows :
    (n d : ℕ) (k : Bytes) (f : SyncResult → SyncResult) (m : Results) (r : SyncResult)
    → lookup k m ≡ some r
    → (f r).attempts ≡ r.attempts + d
    → (r.attempts ≤ n → (f r).attempts ≤ n)
    → Grows n d 0 m (update k f m)
unfolding total lookup update
update-Grows n d k f [] r known e b = absurd (ground arith)
update-Grows n d k f ((j, q) ∷ m) r known e b = elim (Bool-cases (equal j k)) [
  | inl same ↦
      let found : q ≡ r = ground arith in
      rw (same, found)
        (record { attempts = omega (arith, e); tasks = omega arith; tried = λ a. (b a.0, a.1) })
  | inr other ↦
      let rest = update-Grows n d k f m r (ground arith) e b in
      rw other (record {
        attempts = omega (arith, rest.attempts);
        tasks = omega (arith, rest.tasks);
        tried = λ a. (a.0, rest.tried a.1);
      })
]

pub update_all-Grows :
    (n : ℕ) (f : SyncResult → SyncResult) (m : Results)
    → ((r : SyncResult) → (f r).attempts ≡ r.attempts)
    → Grows n 0 0 m (update_all f m)
unfolding total update_all
update_all-Grows n f [] e = same-Grows n []
update_all-Grows n f ((j, q) ∷ m) e =
    let rest = update_all-Grows n f m e in
    record {
      attempts = omega (arith, rest.attempts, e q);
      tasks = omega (arith, rest.tasks);
      tried = λ a. (rw e a.0, rest.tried a.1);
    }

pub emplace-Grows :
    (n : ℕ) (task : SyncTask) (m : Results)
    → lookup task.id m ≡ none
    → Grows n 0 1 m (emplace task.id (new_result task) m)
unfolding total lookup emplace
emplace-Grows n task [] fresh = record {
  attempts = omega arith;
  tasks = omega arith;
  tried = λ a. (omega arith, tt);
}
emplace-Grows n task ((j, q) ∷ m) fresh = elim (Bool-cases (equal j task.id)) [
  | inl same ↦ absurd (ground arith)
  | inr other ↦
      let rest = emplace-Grows n task m (ground arith) in
      rw other (record {
        attempts = omega (arith, rest.attempts);
        tasks = omega (arith, rest.tasks);
        tried = λ a. (a.0, rest.tried a.1);
      })
]

-- How many tasks a step takes from the queues, and how many calls of `enqueue` it ends.
abbrev pub taken : {s t : System} → Step s t → ℕ
taken (claims large now item m h) = 1
taken _ = 0

abbrev pub offered : {s t : System} → Step s t → ℕ
offered (enqueues task large now text) = 1
offered _ = 0

-- The same over a run.
unfoldable pub taken_in : {s t : System} → Reach s t → ℕ
taken_in here = 0
taken_in (next r st) = taken st + taken_in r

unfoldable pub offered_in : {s t : System} → Reach s t → ℕ
offered_in here = 0
offered_in (next r st) = offered st + offered_in r
