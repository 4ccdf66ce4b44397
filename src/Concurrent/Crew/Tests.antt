-- ===== src/Concurrent/Crew/Tests.antt =====
-- Two runs of the threads of net/sync_manager.cpp: the theorems at them.
use clsync.Base.{◌≤◌, ◌≡◌, refl, ◌⊎◌, true, false, [], ◌∷◌, some}
use clsync.Text.{codes, equal}
use clsync.Task.{failed, cancelled, error, connected, disconnected, SyncResult, QueueItem}
use clsync.Task.Sample.{settings, fetch}
use clsync.Results.{lookup, update}
use clsync.Manager.{SyncManager, init, result, same_service, wait_for_idle}
use clsync.Manager.Service.{set_service_state}
use clsync.Manager.Take.{take_pass, begin_attempt}
use clsync.Manager.Lifecycle.{admit, launch, begin_stop, new_result}
use clsync.Concurrent.{enqueues, serves, launches}
use clsync.Concurrent.Count.{waiting_state}
use clsync.Concurrent.Crew.{Crew, acts, starts_task, leaves, CrewReach, here, next, new_crew}
use clsync.Concurrent.Crew.Through.{Through, IsUseful}
use clsync.Concurrent.Crew.Progress.Alive.{launched}
use clsync.Concurrent.Crew.Progress.End.{start-wait_for_idle}
use clsync.Concurrent.Crew.Bound.{running_of, running_of-le}
use clsync.Concurrent.Crew.Stranded.{deserted-never_runs}

abbrev fetch_item : QueueItem
fetch_item = record { id = codes "a"; large = false; ready_at = 0 }

-- Launched and connected, with a task that a worker takes.
abbrev queued_manager : SyncManager
queued_manager =
    (admit fetch false 0 [] (set_service_state connected (launch (init settings)))).manager

abbrev busy_manager : SyncManager
busy_manager = record queued_manager {
  small_queue = [];
  results = update (codes "a") begin_attempt queued_manager.results;
  active_tasks = 1;
}

abbrev busy_crew : Crew
busy_crew = record {
  system = record { manager = busy_manager; jobs = fetch_item ∷ [] };
  free = true ∷ [];
}

busy_run : CrewReach (new_crew settings) busy_crew
unfolding init launch set_service_state admit take_pass equal
busy_run =
    next
      (next (next (next here (acts (launches refl) refl)) (acts (serves connected) tt))
        (acts (enqueues fetch false 0 []) tt))
      (starts_task [] (true ∷ []) false 0 fetch_item busy_manager refl refl)

running_of-le_example : (1 ≤ 1) × (0 ≤ 1)
unfolding running_of
running_of-le_example = running_of-le settings busy_run

-- The service fails for good, both workers end, the service comes back, and a task is accepted.
abbrev failed_manager : SyncManager
failed_manager = set_service_state error (launch (init settings))

abbrev deserted_crew : Crew
deserted_crew = record {
  system = record {
    manager = (admit fetch false 0 [] (set_service_state connected failed_manager)).manager;
    jobs = [];
  };
  free = [];
}

deserted_run : CrewReach (new_crew settings) deserted_crew
unfolding init launch set_service_state admit take_pass
deserted_run =
    next
      (next
        (next
          (next (next (next here (acts (launches refl) refl)) (acts (serves error) tt))
            (leaves [] (true ∷ []) false 0 refl refl))
          (leaves [] [] true 0 refl refl))
        (acts (serves connected) tt))
      (acts (enqueues fetch false 0 []) tt)

-- The connection is lost once more.
abbrev lost_crew : Crew
lost_crew = record {
  system = record {
    manager = set_service_state disconnected deserted_crew.system.manager;
    jobs = [];
  };
  free = [];
}

lost_run : CrewReach deserted_crew lost_crew
lost_run = next here (acts (serves disconnected) tt)

deserted-never_runs_example :
    (r' : SyncResult) × (result (codes "a") lost_crew.manager ≡ some r')
    × ((waiting_state r'.state ≡ 1) ⊎ (r'.state ≡ failed) ⊎ (r'.state ≡ cancelled))
unfolding init launch set_service_state admit lookup equal result
deserted-never_runs_example =
    deserted-never_runs settings (codes "a") (new_result fetch) deserted_run (refl, refl, refl) refl
      refl lost_run

-- The run from the start on until a worker holds a task.
started_run : CrewReach (launched (new_crew settings)) busy_crew
unfolding init launch set_service_state admit take_pass equal
started_run =
    next (next (next here (acts (serves connected) tt)) (acts (enqueues fetch false 0 []) tt))
      (starts_task [] (true ∷ []) false 0 fetch_item busy_manager refl refl)

start-wait_for_idle_example :
    (v : Crew) × Through IsUseful busy_crew v × (wait_for_idle v.manager ≡ some true)
unfolding init same_service started_run
start-wait_for_idle_example =
    start-wait_for_idle settings (new_crew settings) here refl refl refl started_run
      (((tt, refl), tt), tt)

-- `stop` begins while the worker has the task.
abbrev stopping_crew : Crew
stopping_crew = record {
  system = record { manager = begin_stop busy_manager; jobs = fetch_item ∷ [] };
  free = true ∷ [];
}
