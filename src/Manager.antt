-- ===== src/Manager.antt =====
-- The state of `SyncManager` in net/sync_manager.h, and the members that only read it.
-- A member is a function on this state; what it does under one hold of `mutex_` is one function.
-- Notifying a condition variable changes no state here; Concurrent.Wake has the sleepers.
-- `delivered` records the calls of the result callback, the last one at the end; the callback runs
-- after the lock is released.
pub mod Service
pub mod Take
pub mod Finish
pub mod Work
pub mod Lifecycle
use clsync.Base.{
  ℕ, Bool, true, false, not, ◌&&◌, ◌||◌, List, [], ◌∷◌, ◌++◌, ◌==◌, if◌then◌else◌, is_empty, Option,
}
use clsync.Text.{Bytes}
use clsync.Task.{
  TaskState, pending, retry, ServiceState, connecting, connected, disconnected, error, stopping,
  SyncConfig, SyncResult, QueueItem,
}
use clsync.Results.{Results, lookup}

pub record SyncManager : Type 0 where
  pub config : SyncConfig
  pub service_state : ServiceState
  pub small_queue : List QueueItem
  pub large_queue : List QueueItem
  pub results : Results
  pub has_callback : Bool
  -- The threads in `workers_`, each with the queue that it serves.
  pub workers : List Bool
  -- Whether `monitor_` is joinable.
  pub monitor : Bool
  pub started : Bool
  pub stopping : Bool
  pub active_tasks : ℕ
  pub delivered : List SyncResult

-- `SyncManager(SyncConfig)`.
unfoldable pub init : SyncConfig → SyncManager
init c = record {
  config = c;
  service_state = disconnected;
  small_queue = [];
  large_queue = [];
  results = [];
  has_callback = false;
  workers = [];
  monitor = false;
  started = false;
  stopping = false;
  active_tasks = 0;
  delivered = [];
}

abbrev service_code : ServiceState → ℕ
service_code connecting = 0
service_code connected = 1
service_code disconnected = 2
service_code error = 3
service_code stopping = 4

-- `==` on the enum.
unfoldable pub same_service : ServiceState → ServiceState → Bool
same_service a b = service_code a == service_code b

-- `state == Pending || state == Retry`.
abbrev pub is_waiting : TaskState → Bool
is_waiting pending = true
is_waiting retry = true
is_waiting _ = false

abbrev pub queue_of : Bool → SyncManager → List QueueItem
queue_of true m = m.large_queue
queue_of false m = m.small_queue

abbrev pub with_queue : Bool → List QueueItem → SyncManager → SyncManager
with_queue true q m = record m { large_queue = q }
with_queue false q m = record m { small_queue = q }

-- `(large ? large_queue_ : small_queue_).push_back(item)`.
abbrev pub push_back : Bool → QueueItem → SyncManager → SyncManager
push_back large item m = with_queue large (queue_of large m ++ item ∷ []) m

-- A call of the result callback, where one is set.
abbrev pub deliver : List SyncResult → SyncManager → SyncManager
deliver rs m = record m { delivered = if m.has_callback then m.delivered ++ rs else m.delivered }

-- The condition that `wait_for_idle` waits for, but for errors and the stop.
unfoldable pub is_idle : SyncManager → Bool
is_idle m = m.active_tasks == 0 && is_empty m.small_queue && is_empty m.large_queue

-- What one look of `wait_for_idle` at the state gives: nothing while its predicate fails, and
-- then the value of the call. When the time is over the value is `false`.
unfoldable pub wait_for_idle : SyncManager → Option Bool
unfolding is_idle same_service
wait_for_idle m =
    if is_idle m || same_service m.service_state error || m.stopping
    then Option.some (not (same_service m.service_state error) && not m.stopping)
    else Option.none

unfoldable pub result : Bytes → SyncManager → Option SyncResult
unfolding lookup
result id m = lookup id m.results

unfoldable pub values : Results → List SyncResult
values [] = []
values ((j, r) ∷ m) = r ∷ values m

unfoldable pub results_of : SyncManager → List SyncResult
unfolding values
results_of m = values m.results

unfoldable pub set_result_callback : SyncManager → SyncManager
set_result_callback m = record m { has_callback = true }
