-- ===== src/Concurrent/Idle.antt =====
-- What the callers of SyncManager (net/sync.cpp) may rely on when the work is over.
use clsync.Base.{
  ℕ, ◌+◌, ◌≤◌, ◌<◌, ◌≡◌, ◌≢◌, refl, ap, ◌⊎◌, inl, inr, Bool, true, false, ◌++◌, ◌∷◌, [], List,
  Option, some, none, arith, length, Option-cases,
}
use clsync.Text.{Bytes, equal_refl}
use clsync.Task.{TaskState, completed, failed, cancelled, SyncConfig, SyncResult, QueueItem}
use clsync.Results.{lookup}
use clsync.Manager.{queue_of, is_idle, wait_for_idle, result}
use clsync.Manager.Take.{take_pass, throws, first_ready}
use clsync.Manager.Finish.{complete_task, requeue_task}
use clsync.Concurrent.{System, Reach}
use clsync.Concurrent.Count.{count, count-append, waiting, running, count-first_ready}
use clsync.Concurrent.Invariant.{Inv}
use clsync.Concurrent.Invariant.Steps.{initial, Reach-init-Inv}

-- Over: no thread will change it again.
abbrev pub IsOver : TaskState → Type 0
IsOver state = (state ≡ completed) ⊎ (state ≡ failed) ⊎ (state ≡ cancelled)

empty_of_length : (q : List QueueItem) → length q ≡ 0 → q ≡ []
empty_of_length [] h = refl
empty_of_length (x ∷ q) h = absurd (omega arith)

IsOver-of_weights :
    (o : Option SyncResult) (r : SyncResult)
    → o ≡ some r
    → waiting o ≡ 0
    → running o ≡ 0
    → IsOver r.state
IsOver-of_weights o r e w h = ground arith

pub is_idle-IsOver :
    (s : System) (id : Bytes) (r : SyncResult)
    → Inv s
    → is_idle s.manager ≡ true
    → lookup id s.results ≡ some r
    → IsOver r.state
unfolding is_idle count
is_idle-IsOver s id r v idle known =
    IsOver-of_weights (lookup id s.results) r known (ground (arith, v.queued id))
      (ground (arith, v.held id, v.active, empty_of_length s.jobs))

-- When wait_for_idle returns true, every task that was ever accepted is over: completed, failed or
-- cancelled.
pub wait_for_idle-IsOver :
    (c : SyncConfig) {s : System} (id : Bytes) (r : SyncResult)
    → Reach (initial c) s
    → wait_for_idle s.manager ≡ some true
    → result id s.manager ≡ some r
    → IsOver r.state
unfolding wait_for_idle result
wait_for_idle-IsOver c {s} id r reach waited known =
    is_idle-IsOver s id r (Reach-init-Inv c reach) (ground arith) known

-- However often it fails, no task is tried more than `max_retries + 1` times.
attempts-le :
    (c : SyncConfig) {s : System} (id : Bytes) (r : SyncResult)
    → Reach (initial c) s
    → result id s.manager ≡ some r
    → r.attempts ≤ s.config.max_retries + 1
unfolding result
attempts-le c {s} id r reach known = ground (arith, (Reach-init-Inv c reach).budget id)

pub lookup-of_waiting :
    (id : Bytes) (s : System)
    → 0 < waiting (lookup id s.results) + running (lookup id s.results)
    → (r : SyncResult) × (lookup id s.results ≡ some r)
lookup-of_waiting id s h = elim (Option-cases (lookup id s.results)) [
  | inl e ↦ absurd (ground arith)
  | inr known ↦ known
]

pub count_self : (item : QueueItem) (q : List QueueItem) → 0 < count item.id (item ∷ q)
unfolding count
count_self item q = ground (arith, equal_refl item.id)

throws_inversion :
    (large : Bool) (now : ℕ) (s : System)
    → take_pass large now s.manager ≡ throws
    → (item : QueueItem) × (rest : List QueueItem) × (first_ready now (queue_of large s.manager)
        ≡ some (item, rest))
      × (lookup item.id s.results ≡ none)
unfolding take_pass
throws_inversion true now s h = elim (Option-cases (first_ready now s.large_queue)) [
  | inl e ↦ absurd (ground arith)
  | inr ((item, rest), e) ↦ (item, rest, e, ground arith)
]
throws_inversion false now s h = elim (Option-cases (first_ready now s.small_queue)) [
  | inl e ↦ absurd (ground arith)
  | inr ((item, rest), e) ↦ (item, rest, e, ground arith)
]

pub count-queue_of :
    (id : Bytes) (large : Bool) (s : System)
    → Inv s
    → count id (queue_of large s.manager) ≤ waiting (lookup id s.results)
count-queue_of id true s v = omega (arith, v.queued id)
count-queue_of id false s v = omega (arith, v.queued id)

-- In every state that the threads can reach, `results_.at` in take_task does not throw, whichever queue
-- the worker serves and whatever the time.
pub take_pass-ne-throws :
    (c : SyncConfig) {s : System} (large : Bool) (now : ℕ)
    → Reach (initial c) s
    → take_pass large now s.manager ≢ throws
take_pass-ne-throws c {s} large now reach h =
    let (item, rest, found, missing) = throws_inversion large now s h in
    let there = count_self item rest in
    let same = count-first_ready now (queue_of large s.manager) item rest item.id found in
    let bound = count-queue_of item.id large s (Reach-init-Inv c reach) in
    ground (arith, there, same, bound)

pub held_known :
    (s : System) (before after : List QueueItem) (item : QueueItem)
    → Inv s
    → s.jobs ≡ before ++ (item ∷ after)
    → (r : SyncResult) × (lookup item.id s.results ≡ some r)
held_known s before after item v e = lookup-of_waiting item.id s (
    omega (
      arith,
      v.held item.id,
      ap (count item.id) e,
      count-append item.id before (item ∷ after),
      count_self item after,
    ))

-- `results_.at` never throws in complete_task and requeue_task when a worker calls them for a task
-- that it holds.
pub finish_succeeds :
    (c : SyncConfig) {s : System} (before after : List QueueItem) (item : QueueItem)
    (state : TaskState) (text : Bytes) (status now : ℕ)
    → Reach (initial c) s
    → s.jobs ≡ before ++ (item ∷ after)
    → (complete_task item.id state text status s.manager ≢ none)
      × (requeue_task item text status now s.manager ≢ none)
unfolding complete_task requeue_task
finish_succeeds c {s} before after item state text status now reach e =
    let known = held_known s before after item (Reach-init-Inv c reach) e in
    (ground (arith, known.1), ground (arith, known.1))
