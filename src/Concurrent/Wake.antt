-- ===== src/Concurrent/Wake.antt =====
-- The condition variables `queue_cv_` and `idle_cv_` of net/sync_manager.cpp: who sleeps on them,
-- and who notifies them. A thread that sleeps does not look at the state until a notification
-- reaches it, its time is over, or it wakes for no reason.
pub mod Kept
pub mod Sleeping
pub mod Lists
pub mod Heard
mod Tests
use clsync.Base.{
  ℕ, suc, All, ◌++◌, ◌+◌, ◌≡◌, Bool, true, false, not, ◌||◌, List, [], ◌∷◌, none, ltb,
  if◌then◌else◌, is_empty,
}
use clsync.Task.{connected, error, SyncConfig, QueueItem}
use clsync.Manager.{SyncManager, queue_of, is_idle, same_service, wait_for_idle}
use clsync.Manager.Take.{Pass, take_pass, awaits_service, awaits_task, sleeps_until}
use clsync.Manager.Lifecycle.{admit}
use clsync.Concurrent.{
  System, Step, enqueues, serves, completes, requeues, launches, begins_stop, ends_stop,
}
use clsync.Concurrent.Invariant.Steps.{initial}

pub data Condition : Type 0 where
  queue_cv idle_cv : Condition

-- A thread that sleeps: a caller in wait_for_idle, the monitor between two checks, and a worker in
-- one of the three waits of take_task.
pub data Sleeper : Type 0 where
  for_idle for_stop for_service : Sleeper
  for_task : Bool → Sleeper
  for_time : Bool → ℕ → Sleeper

abbrev pub sleeps_on : Sleeper → Condition
sleeps_on for_idle = idle_cv
sleeps_on _ = queue_cv

unfoldable pub has_earlier : ℕ → List QueueItem → Bool
has_earlier t [] = false
has_earlier t (item ∷ q) = ltb item.ready_at t || has_earlier t q

-- The predicates that the waits are given. The wait for a time has none: it is in vain where the
-- service is lost, the manager stops, or an item comes that is ready before.
unfoldable pub must_wake : Sleeper → SyncManager → Bool
unfolding is_idle same_service has_earlier
must_wake for_idle m = is_idle m || same_service m.service_state error || m.stopping
must_wake for_stop m = m.stopping
must_wake for_service m =
    m.stopping || same_service m.service_state connected || same_service m.service_state error
must_wake (for_task large) m =
    m.stopping || not (same_service m.service_state connected) || not (is_empty (queue_of large m))
must_wake (for_time large t) m =
    m.stopping || not (same_service m.service_state connected) || has_earlier t (queue_of large m)

-- How a worker sleeps after a pass of take_task.
pub data SleepsAfter (large : Bool) : Pass → Sleeper → Type 0 where
  service_wait : SleepsAfter large awaits_service for_service
  task_wait : SleepsAfter large awaits_task (for_task large)
  time_wait : {t : ℕ} → SleepsAfter large (sleeps_until t) (for_time large t)

abbrev pub same_condition : Condition → Condition → Bool
same_condition queue_cv queue_cv = true
same_condition idle_cv idle_cv = true
same_condition _ _ = false

-- Those that `notify_all` leaves asleep.
unfoldable pub wake_all : Condition → List Sleeper → List Sleeper
wake_all c [] = []
wake_all c (s ∷ l) =
    let rest = wake_all c l in if same_condition (sleeps_on s) c then rest else s ∷ rest

pub record World : Type 0 where
  pub system : System
  pub open system use {manager}
  pub asleep : List Sleeper
  -- The calls of notify_all that threads are still to make, after they have given up `mutex_`.
  pub due : Condition → ℕ

-- `if (active_tasks_ == 0 && small_queue_.empty() && large_queue_.empty()) idle_cv_.notify_all();`
abbrev pub notify_idle : SyncManager → List Sleeper → List Sleeper
notify_idle m asleep = if is_idle m then wake_all idle_cv asleep else asleep

-- Who is left asleep when the step gives up `mutex_`.
abbrev pub left_asleep : {s t : System} → Step s t → List Sleeper → List Sleeper
left_asleep (serves state) asleep = wake_all idle_cv (wake_all queue_cv asleep)
left_asleep {t = t} (completes before after item state text status m e final h) asleep =
    notify_idle t.manager asleep
left_asleep {t = t} (requeues before after item text status now m e room h) asleep =
    notify_idle t.manager asleep
left_asleep _ asleep = asleep

-- How often the thread then notifies `queue_cv_`, and `idle_cv_`. A refused `enqueue` notifies
-- nobody.
abbrev pub notices : Condition → {s t : System} → Step s t → ℕ
notices queue_cv {s} (enqueues task large now text) =
    if (admit task large now text s.manager).accepted then 1 else 0
notices queue_cv (requeues before after item text status now m e room h) = 1
notices c (begins_stop h) = 1
notices c _ = 0

-- `start` comes when the threads of an earlier `start` are joined, and the joins of `stop` return
-- when the workers and the monitor have ended: only callers of wait_for_idle can be asleep.
abbrev pub OnlyCallers : List Sleeper → Type 0
OnlyCallers = All (λ s. s ≡ for_idle)

abbrev pub IsJoined : List Sleeper → {s t : System} → Step s t → Type 0
IsJoined asleep (launches h) = OnlyCallers asleep
IsJoined asleep (ends_stop h) = OnlyCallers asleep
IsJoined asleep _ = Unit

abbrev pub after_step : (w : World) {t : System} → Step w.system t → World
after_step w {t} st = record {
  system = t;
  asleep = left_asleep st w.asleep;
  due = λ c. notices c st + w.due c;
}

-- A `notify_all` behind the lock; `n` more are to come.
abbrev pub after_notice : World → Condition → ℕ → World
after_notice w c n = record w {
  asleep = wake_all c w.asleep;
  due = λ d. if same_condition d c then n else w.due d;
}

pub data WakeStep (w : World) : World → Type 0 where
  acts : {t : System} (st : Step w.system t) → IsJoined w.asleep st → WakeStep w (after_step w st)
  -- A wait tests its predicate again before it goes on, which is the test of the next pass.
  worker_sleeps :
      (large : Bool) (now : ℕ) (s : Sleeper)
      → SleepsAfter large (take_pass large now w.manager) s
      → WakeStep w (record w { asleep = s ∷ w.asleep })
  caller_sleeps :
      wait_for_idle w.manager ≡ none → WakeStep w (record w { asleep = for_idle ∷ w.asleep })
  monitor_sleeps :
      w.manager.stopping ≡ false → WakeStep w (record w { asleep = for_stop ∷ w.asleep })
  notifies : (c : Condition) (n : ℕ) → w.due c ≡ suc n → WakeStep w (after_notice w c n)
  -- Its time is over, or it wakes for no reason.
  wakes :
      (before after : List Sleeper) (s : Sleeper)
      → w.asleep ≡ before ++ (s ∷ after)
      → WakeStep w (record w { asleep = before ++ after })

pub data WakeReach (w : World) : World → Type 0 where
  here : WakeReach w w
  next : {v u : World} → WakeReach w v → WakeStep v u → WakeReach w u

abbrev pub new_world : SyncConfig → World
new_world c = record { system = initial c; asleep = []; due = λ c. 0 }
