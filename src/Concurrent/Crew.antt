-- ===== src/Concurrent/Crew.antt =====
-- The worker threads of net/sync_manager.cpp, one by one: `worker_loop` ends for good when
-- `take_task` returns nullopt. `start` and `stop` are called by one thread, so that `start` finds
-- no thread that is not joined.
pub mod Bound
pub mod Stranded
pub mod Through
pub mod Progress
mod Tests
use clsync.Base.{ℕ, ◌≡◌, Bool, true, false, List, [], ◌∷◌, ◌++◌}
use clsync.Task.{SyncConfig, QueueItem}
use clsync.Manager.{SyncManager}
use clsync.Manager.Take.{take_pass, quits, takes}
use clsync.Manager.Lifecycle.{threads}
use clsync.Concurrent.{System, Step, completes, requeues, launches, claims, ends_stop}
use clsync.Concurrent.Invariant.Steps.{initial}

pub record Crew : Type 0 where
  pub system : System
  pub open system use {manager, jobs}
  -- The workers in `take_task`, each with the queue that it serves. A worker with a task is the
  -- one that took it from its queue.
  pub free : List Bool

-- The threads that `start` adds.
abbrev pub crew_of : SyncConfig → List Bool
crew_of c = threads c.small_file_workers false ++ threads c.large_file_workers true

-- The workers that are in `take_task` after a step and were not before.
abbrev pub freed : {s t : System} → Step s t → List Bool
freed (completes before after item state text status m e final h) = item.large ∷ []
freed (requeues before after item text status now m e room h) = item.large ∷ []
freed {s} (launches h) = crew_of s.manager.config
freed _ = []

-- What a step needs of the threads. The steps of `take_task` are the constructors of CrewStep.
abbrev pub IsAllowed : (free : List Bool) {s t : System} → Step s t → Type 0
IsAllowed free (claims large now item m h) = ⊥
IsAllowed free {s} (launches h) = s.manager.workers ≡ []
IsAllowed free (ends_stop h) = free ≡ []
IsAllowed free _ = Unit

pub data CrewStep (w : Crew) : Crew → Type 0 where
  acts :
      {t : System} (st : Step w.system t)
      → IsAllowed w.free st
      → CrewStep w (record { system = t; free = freed st ++ w.free })
  starts_task :
      (before after : List Bool) (large : Bool) (now : ℕ) (item : QueueItem) (m : SyncManager)
      → w.free ≡ before ++ (large ∷ after)
      → take_pass large now w.manager ≡ takes item m
      → CrewStep w
          (record { system = record { manager = m; jobs = item ∷ w.jobs }; free = before ++ after })
  -- `take_task` returns nullopt, and the thread ends.
  leaves :
      (before after : List Bool) (large : Bool) (now : ℕ)
      → w.free ≡ before ++ (large ∷ after)
      → take_pass large now w.manager ≡ quits
      → CrewStep w (record w { free = before ++ after })

pub data CrewReach (w : Crew) : Crew → Type 0 where
  here : CrewReach w w
  next : {v u : Crew} → CrewReach w v → CrewStep v u → CrewReach w u

-- The new manager, with no thread.
abbrev pub new_crew : SyncConfig → Crew
new_crew c = record { system = initial c; free = [] }
