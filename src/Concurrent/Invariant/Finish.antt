-- ===== src/Concurrent/Invariant/Finish.antt =====
-- `complete_task` and `requeue_task` keep the invariant.
use clsync.Base.{
  ℕ, ◌+◌, ◌≤◌, ◌≡◌, refl, ◌⊎◌, inl, inr, Bool, true, false, List, [], ◌∷◌, ◌++◌, some, arith,
  length-append, All-append, Bool-cases, Option-cases,
}
use clsync.Text.{Bytes, equal_iff}
use clsync.Task.{TaskState, failed, retry, cancelled, ServiceState, SyncResult, QueueItem}
use clsync.Results.{lookup, lookup-update}
use clsync.Manager.{SyncManager, same_service, push_back}
use clsync.Manager.Finish.{complete_task, requeue_task, set_outcome, store}
use clsync.Concurrent.{System, attempts_of, IsFinal}
use clsync.Concurrent.Count.{count, waiting_state, running_state, count-append}
use clsync.Concurrent.Invariant.{Small, Large, Inv}

pub complete_inversion :
    (id : Bytes) (state : TaskState) (text : Bytes) (status : ℕ) (m m' : SyncManager)
    → complete_task id state text status m ≡ some m'
    → (r : SyncResult) × (lookup id m.results ≡ some r) × (m' ≡ store id state text status r m)
unfolding complete_task
complete_inversion id state text status m m' h = elim (Option-cases (lookup id m.results)) [
  | inl e ↦ ground arith
  | inr (r, e) ↦ (r, e, ground arith)
]

completed-Inv :
    (s : System) (before after : List QueueItem) (item : QueueItem) (state : TaskState)
    (text : Bytes) (status : ℕ) (r : SyncResult)
    → s.jobs ≡ before ++ (item ∷ after)
    → (waiting_state state ≡ 0) × (running_state state ≡ 0)
    → lookup item.id s.results ≡ some r
    → Inv s
    → Inv (record { manager = store item.id state text status r s.manager; jobs = before ++ after })
unfolding count
completed-Inv s before after item state text status r e final known v = record {
  queued = λ id. ground (
    arith,
    lookup-update item.id id (set_outcome state text status) s.results,
    equal_iff item.id id,
    count-append id before (item ∷ after),
    v.queued id,
    v.held id,
  );
  held = λ id. ground (
    arith,
    lookup-update item.id id (set_outcome state text status) s.results,
    equal_iff item.id id,
    count-append id before (item ∷ after),
    count-append id before after,
    v.held id,
  );
  active =
      ground (arith, length-append before (item ∷ after), length-append before after, v.active);
  small_items = v.small_items;
  large_items = v.large_items;
  budget = λ id. ground (
    arith,
    lookup-update item.id id (set_outcome state text status) s.results,
    equal_iff item.id id,
    v.budget id,
  );
}

pub completes-Inv :
    (s : System) (before after : List QueueItem) (item : QueueItem) (state : TaskState)
    (text : Bytes) (status : ℕ) (m : SyncManager)
    → s.jobs ≡ before ++ (item ∷ after)
    → IsFinal state
    → complete_task item.id state text status s.manager ≡ some m
    → Inv s
    → Inv (record { manager = m; jobs = before ++ after })
completes-Inv s before after item state text status m e final h v =
    let i = complete_inversion item.id state text status s.manager m h in
    rw i.2 (completed-Inv s before after item state text status i.0 e (ground arith) i.1 v)

-- The manager with a task back in its queue, its result not yet written.
abbrev pushed : QueueItem → ℕ → SyncManager → SyncManager
pushed item now m = push_back item.large (record item { ready_at = now + m.config.retry_delay }) m

pub requeue_inversion :
    (item : QueueItem) (text : Bytes) (status now : ℕ) (m m' : SyncManager)
    → requeue_task item text status now m ≡ some m'
    → (r : SyncResult) × (lookup item.id m.results ≡ some r)
      × (((state : TaskState) × ((state ≡ cancelled) ⊎ (state ≡ failed))
            × (m' ≡ store item.id state text status r m))
          ⊎ (m' ≡ store item.id retry text status r (pushed item now m)))
unfolding requeue_task
requeue_inversion item text status now m m' h = elim (Option-cases (lookup item.id m.results)) [
  | inl e ↦ ground arith
  | inr (r, e) ↦ elim (Bool-cases m.stopping) [
    | inl stops ↦ (r, e, inl (cancelled, inl refl, ground arith))
    | inr runs ↦ elim (Bool-cases (same_service m.service_state ServiceState.error)) [
      | inl broken ↦ (r, e, inl (failed, inr refl, ground arith))
      | inr well ↦ (r, e, inr (ground arith))
    ]
  ]
]

requeued-Inv :
    (s : System) (before after : List QueueItem) (item : QueueItem) (large : Bool) (text : Bytes)
    (status now : ℕ) (r : SyncResult)
    → s.jobs ≡ before ++ (item ∷ after)
    → item.large ≡ large
    → attempts_of (lookup item.id s.results) ≤ s.config.max_retries
    → lookup item.id s.results ≡ some r
    → Inv s
    → Inv (record {
      manager =
          store item.id retry text status r
            (push_back large (record item { ready_at = now }) s.manager);
      jobs = before ++ after;
    })
unfolding count
requeued-Inv s before after item true text status now r e flag room known v = record {
  queued = λ id. ground (
    arith,
    lookup-update item.id id (set_outcome retry text status) s.results,
    equal_iff item.id id,
    count-append id s.large_queue (record item { ready_at = now } ∷ []),
    count-append id before (item ∷ after),
    v.queued id,
    v.held id,
  );
  held = λ id. ground (
    arith,
    lookup-update item.id id (set_outcome retry text status) s.results,
    equal_iff item.id id,
    count-append id before (item ∷ after),
    count-append id before after,
    v.held id,
  );
  active =
      ground (arith, length-append before (item ∷ after), length-append before after, v.active);
  small_items = v.small_items;
  large_items = All-append Large s.large_queue _ v.large_items (flag, tt);
  budget = λ id. ground (
    arith,
    lookup-update item.id id (set_outcome retry text status) s.results,
    equal_iff item.id id,
    v.budget id,
  );
}
requeued-Inv s before after item false text status now r e flag room known v = record {
  queued = λ id. ground (
    arith,
    lookup-update item.id id (set_outcome retry text status) s.results,
    equal_iff item.id id,
    count-append id s.small_queue (record item { ready_at = now } ∷ []),
    count-append id before (item ∷ after),
    v.queued id,
    v.held id,
  );
  held = λ id. ground (
    arith,
    lookup-update item.id id (set_outcome retry text status) s.results,
    equal_iff item.id id,
    count-append id before (item ∷ after),
    count-append id before after,
    v.held id,
  );
  active =
      ground (arith, length-append before (item ∷ after), length-append before after, v.active);
  small_items = All-append Small s.small_queue _ v.small_items (flag, tt);
  large_items = v.large_items;
  budget = λ id. ground (
    arith,
    lookup-update item.id id (set_outcome retry text status) s.results,
    equal_iff item.id id,
    v.budget id,
  );
}

pub requeues-Inv :
    (s : System) (before after : List QueueItem) (item : QueueItem) (text : Bytes) (status now : ℕ)
    (m : SyncManager)
    → s.jobs ≡ before ++ (item ∷ after)
    → attempts_of (lookup item.id s.results) ≤ s.config.max_retries
    → requeue_task item text status now s.manager ≡ some m
    → Inv s
    → Inv (record { manager = m; jobs = before ++ after })
requeues-Inv s before after item text status now m e room h v =
    let i = requeue_inversion item text status now s.manager m h in
    elim i.2 [
      | inl (state, over, written) ↦
          rw written
            (completed-Inv s before after item state text status i.0 e (ground arith) i.1 v)
      | inr written ↦
          rw written
            (requeued-Inv s before after item item.large text status _ i.0 e refl room i.1 v)
    ]
