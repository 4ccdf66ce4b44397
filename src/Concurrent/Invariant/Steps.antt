-- ===== src/Concurrent/Invariant/Steps.antt =====
-- Every step of every thread keeps the invariant, from the new manager on.
use clsync.Base.{refl, [], arith}
use clsync.Task.{SyncConfig}
use clsync.Results.{lookup}
use clsync.Manager.{init, set_result_callback}
use clsync.Manager.Lifecycle.{launch, end_stop}
use clsync.Concurrent.{
  System, Step, enqueues, claims, serves, completes, requeues, launches, begins_stop, ends_stop,
  sets_callback, Reach, here, next,
}
use clsync.Concurrent.Count.{count}
use clsync.Concurrent.Invariant.{Inv}
use clsync.Concurrent.Invariant.Admit.{admit-Inv}
use clsync.Concurrent.Invariant.Claim.{claims-Inv}
use clsync.Concurrent.Invariant.Finish.{completes-Inv, requeues-Inv}
use clsync.Concurrent.Invariant.Service.{set_service_state-Inv, begin_stop-Inv}

pub Step-Inv : {s t : System} → Step s t → Inv s → Inv t
unfolding launch end_stop set_result_callback
Step-Inv {s} (enqueues task large now text) v = admit-Inv s task large now text v
Step-Inv {s} (claims large now item m h) v = claims-Inv s large now item m h v
Step-Inv {s} (serves state) v = set_service_state-Inv s state v
Step-Inv {s} (completes before after item state text status m e final h) v =
    completes-Inv s before after item state text status m e final h v
Step-Inv {s} (requeues before after item text status now m e room h) v =
    requeues-Inv s before after item text status now m e room h v
Step-Inv (launches h) v = v
Step-Inv {s} (begins_stop h) v = begin_stop-Inv s v
Step-Inv (ends_stop h) v = v
Step-Inv sets_callback v = v

pub Reach-Inv : {s t : System} → Inv s → Reach s t → Inv t
Reach-Inv v here = v
Reach-Inv v (next r st) = Step-Inv st (Reach-Inv v r)

-- The new manager, with no thread at work.
abbrev pub initial : SyncConfig → System
initial c = record { manager = init c; jobs = [] }

init-Inv : (c : SyncConfig) → Inv (initial c)
unfolding init lookup count
init-Inv c = record {
  queued = λ id. refl;
  held = λ id. refl;
  active = refl;
  small_items = tt;
  large_items = tt;
  budget = λ id. omega arith;
}

-- Whatever the threads do from the start on, the shared state is consistent: a task is in the
-- queues exactly while it waits, once and in the queue of its size; one worker holds it exactly
-- while it is in progress; `active_tasks_` counts the held tasks; and no task has been tried more
-- than `max_retries + 1` times.
pub Reach-init-Inv : (c : SyncConfig) {s : System} → Reach (initial c) s → Inv s
Reach-init-Inv c r = Reach-Inv (init-Inv c) r
