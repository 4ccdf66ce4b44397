-- ===== src/Concurrent/Wake/Tests.antt =====
-- A worker that sleeps when a task comes, and when `stop` comes.
use clsync.Base.{◌≤◌, ◌≡◌, refl, true, false, [], ◌∷◌}
use clsync.Text.{equal}
use clsync.Task.{connected}
use clsync.Task.Sample.{settings, fetch}
use clsync.Manager.{init}
use clsync.Manager.Service.{set_service_state}
use clsync.Manager.Take.{take_pass}
use clsync.Manager.Lifecycle.{admit, launch, begin_stop}
use clsync.Concurrent.{enqueues, serves, launches, begins_stop}
use clsync.Concurrent.Wake.{
  Condition, queue_cv, idle_cv, for_task, task_wait, must_wake, wake_all, World, after_step,
  after_notice, WakeReach, here, next, acts, worker_sleeps, notifies, new_world,
}
use clsync.Concurrent.Wake.Heard.{WakeReach-IsHeard, stop-awake}

abbrev connected_world : World
unfolding init
connected_world = after_step (after_step (new_world settings) (launches refl)) (serves connected)

-- A worker for small files waits for a task.
abbrev waiting_world : World
waiting_world = record connected_world { asleep = for_task false ∷ [] }

waiting_run : WakeReach (new_world settings) waiting_world
unfolding init launch set_service_state take_pass wake_all
waiting_run =
    next (next (next here (acts (launches refl) tt)) (acts (serves connected) tt))
      (worker_sleeps false 0 (for_task false) task_wait)

-- The task is there, and enqueue has not notified yet.
abbrev told_world : World
told_world = after_step waiting_world (enqueues fetch false 0 [])

WakeReach-IsHeard_example :
    (must_wake (for_task false) told_world.manager ≡ true → 1 ≤ 1) × Unit {0}
unfolding init launch admit set_service_state equal
WakeReach-IsHeard_example =
    WakeReach-IsHeard settings (next waiting_run (acts (enqueues fetch false 0 []) tt))

has_work : must_wake (for_task false) told_world.manager ≡ true
unfolding init launch admit set_service_state equal must_wake
has_work = refl

-- The notifications that stop makes behind its lock.
abbrev stopping_world : World
unfolding init launch set_service_state
stopping_world = after_step waiting_world (begins_stop refl)

abbrev stopped_world : World
stopped_world = after_notice (after_notice stopping_world queue_cv 0) idle_cv 0

all_told : (c : Condition) → stopped_world.due c ≡ 0
unfolding init launch set_service_state
all_told queue_cv = refl
all_told idle_cv = refl

stop-awake_example : stopped_world.asleep ≡ []
unfolding init launch begin_stop set_service_state wake_all
stop-awake_example =
    stop-awake settings {w = stopped_world}
      (next (next (next waiting_run (acts (begins_stop refl) tt)) (notifies queue_cv 0 refl))
        (notifies idle_cv 0 refl))
      refl all_told
