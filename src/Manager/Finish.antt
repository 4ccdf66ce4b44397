-- ===== src/Manager/Finish.antt =====
-- `complete_task` and `requeue_task` of net/sync_manager.cpp. `none` means that `results_.at` throws.
use clsync.Base.{ℕ, ◌+◌, ◌-◌, ◌||◌, [], ◌∷◌, Option, some, none, if◌then◌else◌}
use clsync.Text.{Bytes}
use clsync.Task.{TaskState, failed, retry, cancelled, error, SyncResult, QueueItem}
use clsync.Results.{lookup, update}
use clsync.Manager.{SyncManager, same_service, deliver, push_back}

-- `stored.state = …; stored.error = …; stored.http_status = …`.
abbrev pub set_outcome : TaskState → Bytes → ℕ → SyncResult → SyncResult
set_outcome state text status r = record r { state = state; error = text; http_status = status }

-- The write to the result, the count of active tasks (which stops at 0) and the callback.
abbrev pub store : Bytes → TaskState → Bytes → ℕ → SyncResult → SyncManager → SyncManager
store id state text status r m = deliver (set_outcome state text status r ∷ []) (record m {
  results = update id (set_outcome state text status) m.results;
  active_tasks = m.active_tasks - 1;
})

unfoldable pub complete_task : Bytes → TaskState → Bytes → ℕ → SyncManager → Option SyncManager
unfolding lookup update
complete_task id state text status m = elim (lookup id m.results) [
  | none ↦ none
  | some r ↦ some (store id state text status r m)
]

-- `requeue_task` behind its look-up, given the result that it finds.
abbrev pub put_back : QueueItem → Bytes → ℕ → ℕ → SyncResult → SyncManager → SyncManager
put_back item text status now r m =
    if m.stopping || same_service m.service_state error
    then store item.id (if m.stopping then cancelled else failed) text status r m
    else store item.id retry text status r
        (push_back item.large (record item { ready_at = now + m.config.retry_delay }) m)

unfoldable pub requeue_task : QueueItem → Bytes → ℕ → ℕ → SyncManager → Option SyncManager
unfolding lookup update same_service
requeue_task item text status now m = elim (lookup item.id m.results) [
  | none ↦ none
  | some r ↦ some (put_back item text status now r m)
]
