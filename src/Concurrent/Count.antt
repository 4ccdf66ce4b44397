-- ===== src/Concurrent/Count.antt =====
-- How often a task stands in a queue or among the jobs.
use clsync.Base.{
  ℕ, ◌+◌, ◌≡◌, List, [], ◌∷◌, ◌++◌, Option, some, none, arith, leb, if◌then◌else◌, All, Bool-cases,
  inl, inr, Option-cases,
}
use clsync.Text.{Bytes, equal}
use clsync.Task.{TaskState, pending, in_progress, retry, SyncResult, QueueItem}
use clsync.Manager.Take.{first_ready}

unfoldable pub count : Bytes → List QueueItem → ℕ
count id [] = 0
count id (item ∷ q) = (if equal item.id id then 1 else 0) + count id q

-- 1 for a task that has to stand in a queue.
abbrev pub waiting_state : TaskState → ℕ
waiting_state pending = 1
waiting_state retry = 1
waiting_state _ = 0

-- 1 for a task that a worker has to hold.
abbrev pub running_state : TaskState → ℕ
running_state in_progress = 1
running_state _ = 0

abbrev pub waiting : Option SyncResult → ℕ
waiting none = 0
waiting (some r) = waiting_state r.state

abbrev pub running : Option SyncResult → ℕ
running none = 0
running (some r) = running_state r.state

pub count-append : (id : Bytes) (p q : List QueueItem) → count id (p ++ q) ≡ count id p + count id q
unfolding count
count-append id [] q = omega arith
count-append id (item ∷ p) q = omega (arith, count-append id p q)

-- An item that is found leaves the queue, and no other does.
pub count-first_ready :
    (now : ℕ) (q : List QueueItem) (item : QueueItem) (rest : List QueueItem) (id : Bytes)
    → first_ready now q ≡ some (item, rest)
    → count id q ≡ count id (item ∷ rest)
unfolding count first_ready
count-first_ready now [] item rest id h = cc
count-first_ready now (x ∷ q) item rest id h = elim (Bool-cases (leb x.ready_at now)) [
  | inl ready ↦ ground arith
  | inr early ↦ elim (Option-cases (first_ready now q)) [
    | inl e ↦ ground arith
    | inr ((found, left), e) ↦ ground (arith, count-first_ready now q found left id e)
  ]
]

-- What holds of all items of a queue holds of the one that is found and of those left.
abbrev pub Found {κ} : (QueueItem → Type κ) → Option (QueueItem × List QueueItem) → Type κ
Found P none = Unit
Found P (some (item, rest)) = P item × All P rest

Found-cons {κ} :
    (P : QueueItem → Type κ) (x : QueueItem) (o : Option (QueueItem × List QueueItem))
    → P x
    → Found P o
    → Found P (elim o [ none ↦ none | some (found, left) ↦ some (found, x ∷ left) ])
Found-cons P x none p f = tt
Found-cons P x (some (found, left)) p f = (f.0, (p, f.1))

pub Found-first_ready {κ} :
    (P : QueueItem → Type κ) (now : ℕ) (q : List QueueItem) → All P q → Found P (first_ready now q)
unfolding first_ready
Found-first_ready P now [] a = tt
Found-first_ready P now (x ∷ q) a = elim (Bool-cases (leb x.ready_at now)) [
  | inl ready ↦ rw ready a
  | inr early ↦ rw early (Found-cons P x (first_ready now q) a.0 (Found-first_ready P now q a.1))
]
