-- ===== src/Concurrent/Tests.antt =====
-- A run of two tasks through SyncManager (net/sync_manager.cpp): tests, and the theorems at it.
use clsync.Base.{◌≢◌, ◌≡◌, refl, inl, true, false, [], ◌∷◌, none, some, arith}
use clsync.Text.{codes, equal}
use clsync.Task.{completed, failed, cancelled, connected, stopping, SyncResult, QueueItem}
use clsync.FilePath.{of_text, lexically_normal, join, parent_path, has_dot_dot}
use clsync.FileSystem.Memory.{plain_fs}
use clsync.Resolve.{is_descendant_of, rejected_form}
use clsync.Manager.Work.{Transfer, process_task}
use clsync.Task.Sample.{settings, fetch}
use clsync.Results.{lookup, update}
use clsync.Manager.{SyncManager, init, wait_for_idle, result}
use clsync.Manager.Service.{set_service_state}
use clsync.Manager.Take.{take_pass, throws, begin_attempt}
use clsync.Manager.Finish.{complete_task, requeue_task, set_outcome}
use clsync.Manager.Lifecycle.{admit, launch, begin_stop}
use clsync.Concurrent.{
  System, enqueues, claims, serves, completes, requeues, launches, begins_stop, Reach, here, next,
}
use clsync.Concurrent.Invariant.{Inv}
use clsync.Concurrent.Invariant.Steps.{initial, Reach-init-Inv}
use clsync.Concurrent.Idle.{IsOver, wait_for_idle-IsOver, finish_succeeds, take_pass-ne-throws}
use clsync.Concurrent.Stop.{stop-IsOver}
use clsync.Concurrent.Sequential.{process_task-Reach}
use clsync.Concurrent.Lifecycle.{Moves}
use clsync.Concurrent.Lifecycle.Final.{result-Moves, result-final}

abbrev fetch_item : QueueItem
fetch_item = record { id = codes "a"; large = false; ready_at = 0 }

-- Launched, connected, and one task queued.
abbrev queued_system : System
queued_system = record {
  manager = (admit fetch false 0 [] (set_service_state connected (launch (init settings)))).manager;
  jobs = [];
}

queued_run : Reach (initial settings) queued_system
unfolding init
queued_run = next (next (next here (launches refl)) (serves connected)) (enqueues fetch false 0 [])

-- The worker has the task.
abbrev busy_manager : SyncManager
busy_manager = record queued_system.manager {
  small_queue = [];
  results = update (codes "a") begin_attempt queued_system.results;
  active_tasks = 1;
}

abbrev busy_system : System
busy_system = record { manager = busy_manager; jobs = fetch_item ∷ [] }

busy_run : Reach (initial settings) busy_system
unfolding init launch set_service_state admit take_pass equal
busy_run = next queued_run (claims false 0 fetch_item busy_manager refl)

-- The worker is done with it.
abbrev idle_manager : SyncManager
idle_manager = record busy_manager {
  results = update (codes "a") (set_outcome completed [] 200) busy_manager.results;
  active_tasks = 0;
}

abbrev idle_system : System
idle_system = record { manager = idle_manager; jobs = [] }

idle_run : Reach (initial settings) idle_system
unfolding init launch set_service_state admit complete_task equal
idle_run =
    next busy_run (completes [] [] fetch_item completed [] 200 idle_manager refl (inl refl) refl)

-- `stop` begins while the worker has the task; its transfer fails and is not tried again.
abbrev stopping_manager : SyncManager
stopping_manager = set_service_state stopping (begin_stop busy_manager)

abbrev stopped_manager : SyncManager
stopped_manager = record stopping_manager {
  results = update (codes "a") (set_outcome cancelled [] 503) stopping_manager.results;
  active_tasks = 0;
}

abbrev stopped_system : System
stopped_system = record { manager = stopped_manager; jobs = [] }

stopped_run : Reach (initial settings) stopped_system
unfolding init launch set_service_state admit begin_stop requeue_task equal
stopped_run =
    next (next (next busy_run (begins_stop refl)) (serves stopping))
      (requeues [] [] fetch_item [] 503 7 stopped_manager refl (omega arith) refl)

abbrev fetched : SyncResult
fetched = record { task = fetch; state = completed; attempts = 1; http_status = 200; error = [] }

abbrev cancelled_fetch : SyncResult
cancelled_fetch = record {
  task = fetch;
  state = cancelled;
  attempts = 1;
  http_status = 503;
  error = [];
}

Reach-init-Inv_example : Inv idle_system
Reach-init-Inv_example = Reach-init-Inv settings idle_run

wait_for_idle-IsOver_example : IsOver completed
unfolding init launch set_service_state admit lookup update equal wait_for_idle result
wait_for_idle-IsOver_example = wait_for_idle-IsOver settings (codes "a") fetched idle_run refl refl

finish_succeeds_example :
    (complete_task (codes "a") failed [] 503 busy_manager ≢ none)
    × (requeue_task fetch_item [] 503 9 busy_manager ≢ none)
finish_succeeds_example = finish_succeeds settings [] [] fetch_item failed [] 503 9 busy_run refl

take_pass-ne-throws_example : take_pass false 0 queued_system.manager ≢ throws
take_pass-ne-throws_example = take_pass-ne-throws settings false 0 queued_run

stop-IsOver_example : IsOver cancelled
unfolding init launch set_service_state admit begin_stop lookup update equal result
stop-IsOver_example = stop-IsOver settings (codes "a") cancelled_fetch stopped_run refl refl refl

-- A transfer that succeeds.
abbrev succeeds : Transfer (plain_fs 5)
succeeds disk task path = (disk, record { success = true; status = 200; error = [] })

process_task-Reach_example : Reach busy_system idle_system
unfolding init launch set_service_state admit process_task lookup update equal of_text
    lexically_normal is_descendant_of join parent_path has_dot_dot rejected_form
process_task-Reach_example =
    process_task-Reach (plain_fs 5) succeeds tt 0 fetch_item busy_system [] [] idle_manager refl
      refl

-- The worker takes the queued task and completes it.
work_run : Reach queued_system idle_system
unfolding init launch set_service_state admit take_pass complete_task equal
work_run =
    next (next here (claims false 0 fetch_item busy_manager refl))
      (completes [] [] fetch_item completed [] 200 idle_manager refl (inl refl) refl)

result-Moves_example :
    Moves 1 (result (codes "a") queued_system.manager) (result (codes "a") idle_manager)
result-Moves_example = result-Moves settings (codes "a") queued_run work_run

-- `stop` after the task is over.
stop_run : Reach idle_system (record idle_system { manager = begin_stop idle_manager })
unfolding init launch set_service_state admit
stop_run = next here (begins_stop refl)

result-final_example : result (codes "a") (begin_stop idle_manager) ≡ some fetched
unfolding init launch set_service_state admit lookup update equal result
result-final_example = result-final settings (codes "a") fetched idle_run stop_run refl (inl refl)
