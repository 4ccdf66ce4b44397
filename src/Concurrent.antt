-- ===== src/Concurrent.antt =====
-- The threads of `SyncManager` as interleavings. Each step is what one thread does under one hold
-- of `mutex_` (net/sync_manager.cpp); any thread may be the next. A job is a task that a worker
-- has taken and not finished; process_task reads the result of its job, and only that worker
-- writes its count of attempts meanwhile.
pub mod Order
pub mod Wake
pub mod Count
pub mod Invariant
pub mod Idle
pub mod Stop
pub mod Frame
pub mod Tally
pub mod Crew
pub mod Lifecycle
pub mod Sequential
mod Tests
use clsync.Base.{ℕ, ◌≤◌, ◌≡◌, ◌⊎◌, Bool, true, false, List, [], ◌∷◌, ◌++◌, Option, some, none}
use clsync.Text.{Bytes}
use clsync.Task.{TaskState, completed, failed, ServiceState, SyncTask, SyncResult, QueueItem}
use clsync.Results.{lookup}
use clsync.Manager.{SyncManager, set_result_callback}
use clsync.Manager.Service.{set_service_state}
use clsync.Manager.Take.{take_pass, takes}
use clsync.Manager.Finish.{complete_task, requeue_task}
use clsync.Manager.Lifecycle.{admit, launch, begin_stop, end_stop}

pub record System : Type 0 where
  pub manager : SyncManager
  pub open manager use {results, small_queue, large_queue, config, active_tasks}
  pub jobs : List QueueItem

abbrev pub attempts_of : Option SyncResult → ℕ
attempts_of none = 0
attempts_of (some r) = r.attempts

-- What a worker may store as the state of a task that it is done with.
abbrev pub IsFinal : TaskState → Type 0
IsFinal state = (state ≡ completed) ⊎ (state ≡ failed)

pub data Step (s : System) : System → Type 0 where
  -- The locked part of `enqueue`.
  enqueues :
      (task : SyncTask) (large : Bool) (now : ℕ) (text : Bytes)
      → Step s (record s { manager = (admit task large now text s.manager).manager })
  -- The pass of `take_task` that returns an item.
  claims :
      (large : Bool) (now : ℕ) (item : QueueItem) (m : SyncManager)
      → take_pass large now s.manager ≡ takes item m
      → Step s (record { manager = m; jobs = item ∷ s.jobs })
  -- `set_service_state`, from the monitor, a worker or `stop`.
  serves :
      (state : ServiceState) → Step s (record s { manager = set_service_state state s.manager })
  completes :
      (before after : List QueueItem) (item : QueueItem) (state : TaskState) (text : Bytes)
      (status : ℕ) (m : SyncManager)
      → s.jobs ≡ before ++ (item ∷ after)
      → IsFinal state
      → complete_task item.id state text status s.manager ≡ some m
      → Step s (record { manager = m; jobs = before ++ after })
  requeues :
      (before after : List QueueItem) (item : QueueItem) (text : Bytes) (status now : ℕ)
      (m : SyncManager)
      → s.jobs ≡ before ++ (item ∷ after)
      → attempts_of (lookup item.id s.results) ≤ s.config.max_retries
      → requeue_task item text status now s.manager ≡ some m
      → Step s (record { manager = m; jobs = before ++ after })
  launches : s.manager.started ≡ false → Step s (record s { manager = launch s.manager })
  begins_stop : s.manager.started ≡ true → Step s (record s { manager = begin_stop s.manager })
  -- The joins return when no worker has a job left.
  ends_stop : s.jobs ≡ [] → Step s (record s { manager = end_stop s.manager })
  sets_callback : Step s (record s { manager = set_result_callback s.manager })

pub data Reach (s : System) : System → Type 0 where
  here : Reach s s
  next : {t u : System} → Reach s t → Step t u → Reach s u
