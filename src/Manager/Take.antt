-- ===== src/Manager/Take.antt =====
-- `take_task` of net/sync_manager.cpp.
use clsync.Base.{ℕ, suc, Bool, not, List, [], ◌∷◌, Option, some, none, leb, if◌then◌else◌}
use clsync.Task.{in_progress, connected, error, SyncResult, QueueItem}
use clsync.Results.{lookup, update}
use clsync.Manager.{SyncManager, same_service, queue_of, with_queue}

-- `find_if` for an item with `ready_at <= now`, and the queue after `erase`.
unfoldable pub first_ready : ℕ → List QueueItem → Option (QueueItem × List QueueItem)
first_ready now [] = none
first_ready now (item ∷ q) =
    let rest = first_ready now q in
    if leb item.ready_at now
    then some (item, q)
    else elim rest [ none ↦ none | some (found, left) ↦ some (found, item ∷ left) ]

-- `min_element` by `ready_at`: the time of the item that it finds.
unfoldable pub next_ready : List QueueItem → Option ℕ
next_ready [] = none
next_ready (item ∷ q) = elim (next_ready q) [
  | none ↦ some item.ready_at
  | some t ↦ some (if leb item.ready_at t then item.ready_at else t)
]

-- What one pass of the loop ends in: the call returns nullopt, waits on `queue_cv_` for the
-- service or for work, sleeps, returns an item, or `results_.at` throws.
pub data Pass : Type 0 where
  quits awaits_service awaits_task throws : Pass
  sleeps_until : ℕ → Pass
  takes : QueueItem → SyncManager → Pass

abbrev pub begin_attempt : SyncResult → SyncResult
begin_attempt r = record r { state = in_progress; attempts = suc r.attempts }

-- The item is out of the queue: mark its result and count it.
unfoldable pub claim : QueueItem → SyncManager → Pass
unfolding lookup update
claim item m = elim (lookup item.id m.results) [
  | none ↦ throws
  | some r ↦ takes item (record m {
    results = update item.id begin_attempt m.results;
    active_tasks = suc m.active_tasks;
  })
]

abbrev pub no_ready : List QueueItem → Pass
no_ready q = elim (next_ready q) [ none ↦ awaits_task | some t ↦ sleeps_until t ]

-- The pass behind the tests of the state.
abbrev pub take_found : Bool → ℕ → SyncManager → Pass
take_found large now m = elim (first_ready now (queue_of large m)) [
  | some (item, rest) ↦ claim item (with_queue large rest m)
  | none ↦ no_ready (queue_of large m)
]

unfoldable pub take_pass : Bool → ℕ → SyncManager → Pass
unfolding claim same_service first_ready next_ready
take_pass large now m =
    if m.stopping
    then quits
    else if same_service m.service_state error
    then quits
    else if not (same_service m.service_state connected)
    then awaits_service
    else take_found large now m

-- The whole call, over the states and times that its passes see: the worker goes on while a pass
-- waits or sleeps. `none` means that it still waits at the end.
unfoldable pub take_task : Bool → List (SyncManager × ℕ) → Option Pass
unfolding take_pass
take_task large [] = none
take_task large ((m, now) ∷ seen) =
    let later = take_task large seen in
    elim (take_pass large now m) [
      | awaits_service ↦ later
      | awaits_task ↦ later
      | sleeps_until t ↦ later
      | done ↦ some done
    ]
