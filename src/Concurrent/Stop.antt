-- ===== src/Concurrent/Stop.antt =====
-- `stop` of net/sync_manager.cpp: once `stopping_` is set nothing waits any more, whatever the
-- threads that still run do.
use clsync.Base.{ℕ, ◌≡◌, refl, Bool, true, false, [], some, arith}
use clsync.Text.{Bytes}
use clsync.Task.{TaskState, SyncTask, SyncConfig, SyncResult, QueueItem, ServiceState}
use clsync.Manager.{SyncManager, init, is_idle, set_result_callback, result}
use clsync.Manager.Service.{set_service_state}
use clsync.Manager.Take.{take_pass, takes}
use clsync.Manager.Finish.{complete_task, requeue_task}
use clsync.Manager.Lifecycle.{admit, launch, begin_stop, end_stop}
use clsync.Concurrent.{
  System, Step, enqueues, claims, serves, completes, requeues, launches, begins_stop, ends_stop,
  sets_callback, Reach, here, next,
}
use clsync.Concurrent.Invariant.{Inv}
use clsync.Concurrent.Invariant.Claim.{claim_inversion}
use clsync.Concurrent.Invariant.Steps.{initial, Reach-init-Inv}
use clsync.Concurrent.Idle.{IsOver, is_idle-IsOver}

-- While the manager stops, or before it first starts, its queues are empty.
abbrev pub IsQuiet : SyncManager → Type 0
IsQuiet m = m.stopping ≡ true → (m.small_queue ≡ []) × (m.large_queue ≡ [])

admit-IsQuiet :
    (task : SyncTask) (large : Bool) (now : ℕ) (text : Bytes) (m : SyncManager)
    → IsQuiet m
    → IsQuiet (admit task large now text m).manager
unfolding admit
admit-IsQuiet task true now text m q = ground (arith)
admit-IsQuiet task false now text m q = ground (arith)

set_service_state-IsQuiet :
    (state : ServiceState) (m : SyncManager) → IsQuiet m → IsQuiet (set_service_state state m)
unfolding set_service_state
set_service_state-IsQuiet state m q = ground arith

complete_task-IsQuiet :
    (id : Bytes) (state : TaskState) (text : Bytes) (status : ℕ) (m m' : SyncManager)
    → complete_task id state text status m ≡ some m'
    → IsQuiet m
    → IsQuiet m'
unfolding complete_task
complete_task-IsQuiet id state text status m m' h q = ground arith

requeue_task-IsQuiet :
    (item : QueueItem) (text : Bytes) (status now : ℕ) (m m' : SyncManager)
    → requeue_task item text status now m ≡ some m'
    → IsQuiet m
    → IsQuiet m'
unfolding requeue_task
requeue_task-IsQuiet item text status now m m' h q = ground arith

take_pass-stopping :
    (large : Bool) (now : ℕ) (m m' : SyncManager) (item : QueueItem)
    → take_pass large now m ≡ takes item m'
    → (m.stopping ≡ false) × (m'.stopping ≡ false)
unfolding take_pass
take_pass-stopping true now m m' item h = ground (arith, (claim_inversion true now m m' item h).4)
take_pass-stopping false now m m' item h = ground (arith, (claim_inversion false now m m' item h).4)

Step-IsQuiet : {s t : System} → Step s t → IsQuiet s.manager → IsQuiet t.manager
unfolding launch begin_stop end_stop set_result_callback
Step-IsQuiet {s} (enqueues task large now text) q = admit-IsQuiet task large now text s.manager q
Step-IsQuiet {s} (claims large now item m h) q =
    ground (arith, take_pass-stopping large now s.manager m item h)
Step-IsQuiet {s} (serves state) q = set_service_state-IsQuiet state s.manager q
Step-IsQuiet {s} (completes before after item state text status m e final h) q =
    complete_task-IsQuiet item.id state text status s.manager m h q
Step-IsQuiet {s} (requeues before after item text status now m e room h) q =
    requeue_task-IsQuiet item text status now s.manager m h q
Step-IsQuiet (launches h) q = ground arith
Step-IsQuiet (begins_stop h) q = λ _. (refl, refl)
Step-IsQuiet (ends_stop h) q = q
Step-IsQuiet sets_callback q = q

Reach-IsQuiet : {s t : System} → IsQuiet s.manager → Reach s t → IsQuiet t.manager
Reach-IsQuiet q here = q
Reach-IsQuiet q (next r st) = Step-IsQuiet st (Reach-IsQuiet q r)

init-IsQuiet : (c : SyncConfig) → IsQuiet (init c)
unfolding init
init-IsQuiet c h = (refl, refl)

-- When `stop` has begun and the workers have finished what they held, which the joins of `stop`
-- wait for, every task that was ever accepted is over: no task is left behind as pending, in
-- progress or waiting for a retry, whatever the threads did in between.
pub stop-IsOver :
    (c : SyncConfig) {s : System} (id : Bytes) (r : SyncResult)
    → Reach (initial c) s
    → s.manager.stopping ≡ true
    → s.jobs ≡ []
    → result id s.manager ≡ some r
    → IsOver r.state
unfolding result is_idle
stop-IsOver c {s} id r reach stops joined known =
    let quiet = Reach-IsQuiet (init-IsQuiet c) reach stops in
    let v = Reach-init-Inv c reach in is_idle-IsOver s id r v (idle v quiet) known
  where
    idle : Inv s → (s.small_queue ≡ []) × (s.large_queue ≡ []) → is_idle s.manager ≡ true
    idle v quiet = ground (arith, v.active)
