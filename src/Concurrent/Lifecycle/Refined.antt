-- ===== src/Concurrent/Lifecycle/Refined.antt =====
-- Every step of the threads of SyncManager (net/sync_manager.cpp) moves every task along its life.
use clsync.Base.{
  ℕ, ◌<◌, ◌≤◌, ◌≡◌, refl, inl, inr, ◌⊎◌, Bool, true, false, List, ◌++◌, ◌∷◌, some, none, arith,
  Bool-cases, Option-cases, if_cases,
}
use clsync.Text.{Bytes, equal, equal_iff}
use clsync.Task.{
  TaskState, in_progress, failed, SyncTask, SyncResult, QueueItem, ServiceState, retry, cancelled,
}
use clsync.Results.{
  Results, lookup, update, emplace, update_all, lookup-update, lookup-update_all, lookup-emplace,
}
use clsync.Manager.{SyncManager, push_back, is_waiting, same_service, queue_of, set_result_callback}
use clsync.Manager.Service.{set_service_state, fail_result}
use clsync.Manager.Take.{first_ready, take_pass, takes, begin_attempt}
use clsync.Manager.Finish.{complete_task, requeue_task, set_outcome}
use clsync.Manager.Lifecycle.{admit, launch, begin_stop, end_stop, cancel, new_result}
use clsync.Concurrent.{
  System, Step, enqueues, claims, serves, completes, requeues, launches, begins_stop, ends_stop,
  sets_callback, IsFinal, attempts_of,
}
use clsync.Concurrent.Count.{count, count-append, count-first_ready, waiting_state, running_state}
use clsync.Concurrent.Invariant.{Inv}
use clsync.Concurrent.Invariant.Claim.{claim_inversion}
use clsync.Concurrent.Invariant.Finish.{complete_inversion, requeue_inversion}
use clsync.Concurrent.Idle.{count_self, count-queue_of}
use clsync.Concurrent.Lifecycle.{Move, stays, comes, begins, ends, gives_up, Ends}

-- The moves of the task `id` from one map of results to another.
abbrev Moved : ℕ → Bytes → Results → Results → Type 0
Moved n id old new = Move n (lookup id old) (lookup id new)

update-Moved :
    (n : ℕ) (k id : Bytes) (f : SyncResult → SyncResult) (m : Results) (r : SyncResult)
    → lookup k m ≡ some r
    → Move n (some r) (some (f r))
    → Moved n id m (update k f m)
update-Moved n k id f m r known moves = elim (Bool-cases (equal k id)) [
  | inl same ↦
      let old : lookup id m ≡ some r = ground (arith, equal_iff k id) in
      let new : lookup id (update k f m) ≡ some (f r) = ground (arith, lookup-update k id f m) in
      rw (old, new) moves
  | inr other ↦ stays (ground (arith, lookup-update k id f m))
]

update_all-Moved :
    (n : ℕ) (id : Bytes) (f : SyncResult → SyncResult) (m : Results)
    → ((r : SyncResult) → Move n (some r) (some (f r)))
    → Moved n id m (update_all f m)
update_all-Moved n id f m moves = elim (Option-cases (lookup id m)) [
  | inl e ↦ stays (ground (arith, lookup-update_all id f m))
  | inr (r, e) ↦
      let new : lookup id (update_all f m) ≡ some (f r) =
        ground (arith, lookup-update_all id f m) in
      rw (e, new) (moves r)
]

emplace-Moved :
    (n : ℕ) (id : Bytes) (m : Results) (task : SyncTask)
    → lookup task.id m ≡ none
    → Moved n id m (emplace task.id (new_result task) m)
emplace-Moved n id m task fresh = elim (Bool-cases (equal task.id id)) [
  | inl same ↦
      comes task (ground (arith, equal_iff task.id id))
        (ground (arith, lookup-emplace task.id id (new_result task) m))
  | inr other ↦ stays (ground (arith, lookup-emplace task.id id (new_result task) m))
]

pub admit_inversion :
    (s : System) (task : SyncTask) (large : Bool) (now : ℕ) (text : Bytes)
    → let after = (admit task large now text s.manager).manager.results in
      (after ≡ s.results)
      ⊎ ((lookup task.id s.results ≡ none) × (after ≡ emplace task.id (new_result task) s.results))
unfolding admit
admit_inversion s task true now text = ground arith
admit_inversion s task false now text = ground arith

admit-Moved :
    (n : ℕ) (id : Bytes) (s : System) (task : SyncTask) (large : Bool) (now : ℕ) (text : Bytes)
    → Moved n id s.results (admit task large now text s.manager).manager.results
admit-Moved n id s task large now text = elim (admit_inversion s task large now text) [
  | inl kept ↦ stays (rw kept refl)
  | inr (fresh, put) ↦ rw put (emplace-Moved n id s.results task fresh)
]

-- A claimed task waited, and may be tried once more.
pub claimed_waits :
    (s : System) (large : Bool) (now : ℕ) (item : QueueItem) (rest : List QueueItem)
    (r : SyncResult)
    → Inv s
    → first_ready now (queue_of large s.manager) ≡ some (item, rest)
    → lookup item.id s.results ≡ some r
    → (waiting_state r.state ≡ 1) × (r.attempts ≤ s.config.max_retries)
claimed_waits s large now item rest r v found known =
    let there = count_self item rest in
    let same = count-first_ready now (queue_of large s.manager) item rest item.id found in
    let bound = count-queue_of item.id large s v in
    let waits : waiting_state r.state ≡ 1 = ground arith in
    (waits, ground (arith, v.budget item.id))

claim-Moved :
    (id : Bytes) (s : System) (large : Bool) (now : ℕ) (item : QueueItem) (m : SyncManager)
    → take_pass large now s.manager ≡ takes item m
    → Inv s
    → Moved s.config.max_retries id s.results m.results
claim-Moved id s large now item m h v =
    let (rest, r, found, known, e) = claim_inversion large now s.manager m item h in
    let (waits, left) = claimed_waits s large now item rest r v found known in
    rw e (
      update-Moved s.config.max_retries item.id id begin_attempt s.results r known
        (begins r waits left refl refl))

held_runs :
    (s : System) (before after : List QueueItem) (item : QueueItem) (r : SyncResult)
    → Inv s
    → s.jobs ≡ before ++ (item ∷ after)
    → lookup item.id s.results ≡ some r
    → r.state ≡ in_progress
held_runs s before after item r v e known =
    let there = count_self item after in
    let split = count-append item.id before (item ∷ after) in
    let holds : 0 < count item.id s.jobs = rw e (omega arith) in
    let runs : 0 < running_state r.state = ground (arith, v.held item.id) in ground arith

finish-Moved :
    (id : Bytes) (s : System) (before after : List QueueItem) (item : QueueItem) (state : TaskState)
    (text : Bytes) (status : ℕ) (r : SyncResult)
    → Inv s
    → s.jobs ≡ before ++ (item ∷ after)
    → lookup item.id s.results ≡ some r
    → Ends s.config.max_retries r.attempts state
    → Moved s.config.max_retries id s.results
        (update item.id (set_outcome state text status) s.results)
finish-Moved id s before after item state text status r v e known how =
    update-Moved s.config.max_retries item.id id (set_outcome state text status) s.results r known
      (ends r state text status (held_runs s before after item r v e known) how refl refl)

complete-Moved :
    (id : Bytes) (s : System) (before after : List QueueItem) (item : QueueItem) (state : TaskState)
    (text : Bytes) (status : ℕ) (m : SyncManager)
    → Inv s
    → s.jobs ≡ before ++ (item ∷ after)
    → IsFinal state
    → complete_task item.id state text status s.manager ≡ some m
    → Moved s.config.max_retries id s.results m.results
complete-Moved id s before after item state text status m v e final h =
    let (r, known, written) = complete_inversion item.id state text status s.manager m h in
    rw written (finish-Moved id s before after item state text status r v e known (ground arith))

pub push_back-results :
    (large : Bool) (item : QueueItem) (m : SyncManager)
    → (push_back large item m).results ≡ m.results
push_back-results true item m = refl
push_back-results false item m = refl

requeue-Moved :
    (id : Bytes) (s : System) (before after : List QueueItem) (item : QueueItem) (text : Bytes)
    (status now : ℕ) (m : SyncManager)
    → Inv s
    → s.jobs ≡ before ++ (item ∷ after)
    → attempts_of (lookup item.id s.results) ≤ s.config.max_retries
    → requeue_task item text status now s.manager ≡ some m
    → Moved s.config.max_retries id s.results m.results
requeue-Moved id s before after item text status now m v e room h =
    let (r, known, how) = requeue_inversion item text status now s.manager m h in
    elim how [
      | inl (state, over, written) ↦
          rw written
            (finish-Moved id s before after item state text status r v e known (ground arith))
      | inr written ↦
          rw (written, push_back-results)
            (finish-Moved id s before after item retry text status r v e known (ground arith))
    ]

fail_result-Move : (n : ℕ) (r : SyncResult) → Move n (some r) (some (fail_result r))
unfolding fail_result
fail_result-Move n r = elim (Bool-cases (is_waiting r.state)) [
  | inl waits ↦
      gives_up r failed (fail_result r).error (ground arith) (inl refl) refl (ground arith)
  | inr other ↦ stays (ground arith)
]

cancel-Move : (n : ℕ) (r : SyncResult) → Move n (some r) (some (cancel r))
cancel-Move n r = elim (Bool-cases (is_waiting r.state)) [
  | inl waits ↦ gives_up r cancelled r.error (ground arith) (inr refl) refl (ground arith)
  | inr other ↦ stays (ground arith)
]

set_service_state-Moved :
    (n : ℕ) (id : Bytes) (state : ServiceState) (m : SyncManager)
    → Moved n id m.results (set_service_state state m).results
unfolding set_service_state
set_service_state-Moved n id state m =
    if_cases (λ x. Moved n id m.results x.results) (same_service m.service_state state)
      (record m { service_state = state }) _ (λ same. stays refl)
      λ new.
        if_cases (λ x. Moved n id m.results x.results) (same_service state ServiceState.error) _
          (record m { service_state = state })
          (λ broken. update_all-Moved n id fail_result m.results (fail_result-Move n))
          λ other. stays refl

-- Each step moves every task along its life, or leaves it alone.
pub Step-Moved :
    {s t : System} (id : Bytes)
    → Step s t
    → Inv s
    → Moved s.config.max_retries id s.results t.results
unfolding launch begin_stop end_stop set_result_callback
Step-Moved {s} id (enqueues task large now text) v =
    admit-Moved s.config.max_retries id s task large now text
Step-Moved {s} id (claims large now item m h) v = claim-Moved id s large now item m h v
Step-Moved {s} id (serves state) v = set_service_state-Moved s.config.max_retries id state s.manager
Step-Moved {s} id (completes before after item state text status m e final h) v =
    complete-Moved id s before after item state text status m v e final h
Step-Moved {s} id (requeues before after item text status now m e room h) v =
    requeue-Moved id s before after item text status now m v e room h
Step-Moved id (launches h) v = stays refl
Step-Moved {s} id (begins_stop h) v =
    update_all-Moved s.config.max_retries id cancel s.results (cancel-Move s.config.max_retries)
Step-Moved id (ends_stop h) v = stays refl
Step-Moved id sets_callback v = stays refl
