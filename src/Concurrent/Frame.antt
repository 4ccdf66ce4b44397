-- ===== src/Concurrent/Frame.antt =====
-- What the sections of net/sync_manager.cpp leave alone: only `start` and `stop` write `started_`,
-- `stopping_` and `workers_`, and nothing writes `config_`.
use clsync.Base.{ℕ, ◌≡◌, refl, Bool, true, false, some, arith}
use clsync.Text.{Bytes}
use clsync.Task.{TaskState, SyncTask, QueueItem, ServiceState}
use clsync.Manager.{SyncManager}
use clsync.Manager.Service.{set_service_state}
use clsync.Manager.Take.{take_pass, takes}
use clsync.Manager.Finish.{complete_task, requeue_task}
use clsync.Manager.Lifecycle.{admit}
use clsync.Concurrent.{System, Step, enqueues, claims, serves, completes, requeues}
use clsync.Concurrent.Invariant.Claim.{claim_inversion}

abbrev pub IsFramed : SyncManager → SyncManager → Type 0
IsFramed m m' =
    (m'.config ≡ m.config)
    × (m'.workers ≡ m.workers)
    × (m'.started ≡ m.started)
    × (m'.stopping ≡ m.stopping)

pub admit-IsFramed :
    (task : SyncTask) (large : Bool) (now : ℕ) (text : Bytes) (m : SyncManager)
    → IsFramed m (admit task large now text m).manager
unfolding admit
admit-IsFramed task true now text m = ground arith
admit-IsFramed task false now text m = ground arith

take_pass-IsFramed :
    (large : Bool) (now : ℕ) (item : QueueItem) (m m' : SyncManager)
    → take_pass large now m ≡ takes item m'
    → IsFramed m m'
take_pass-IsFramed true now item m m' h =
    rw (claim_inversion true now m m' item h).4 (refl, refl, refl, refl)
take_pass-IsFramed false now item m m' h =
    rw (claim_inversion false now m m' item h).4 (refl, refl, refl, refl)

pub set_service_state-IsFramed :
    (state : ServiceState) (m : SyncManager) → IsFramed m (set_service_state state m)
unfolding set_service_state
set_service_state-IsFramed state m = ground arith

complete_task-IsFramed :
    (id : Bytes) (state : TaskState) (text : Bytes) (status : ℕ) (m m' : SyncManager)
    → complete_task id state text status m ≡ some m'
    → IsFramed m m'
unfolding complete_task
complete_task-IsFramed id state text status m m' h = ground arith

requeue_task-IsFramed :
    (item : QueueItem) (large : Bool) (text : Bytes) (status now : ℕ) (m m' : SyncManager)
    → item.large ≡ large
    → requeue_task item text status now m ≡ some m'
    → IsFramed m m'
unfolding requeue_task
requeue_task-IsFramed item true text status now m m' e h = ground arith
requeue_task-IsFramed item false text status now m m' e h = ground arith

-- The steps of workers, of the monitor and of `enqueue`.
abbrev pub IsService : {s t : System} → Step s t → Type 0
IsService (enqueues task large now text) = Unit
IsService (claims large now item m h) = Unit
IsService (serves state) = Unit
IsService (completes before after item state text status m e final h) = Unit
IsService (requeues before after item text status now m e room h) = Unit
IsService _ = ⊥

pub Step-IsFramed : {s t : System} (st : Step s t) → IsService st → IsFramed s.manager t.manager
Step-IsFramed {s} (enqueues task large now text) w = admit-IsFramed task large now text s.manager
Step-IsFramed {s} (claims large now item m h) w = take_pass-IsFramed large now item s.manager m h
Step-IsFramed {s} (serves state) w = set_service_state-IsFramed state s.manager
Step-IsFramed {s} (completes before after item state text status m e final h) w =
    complete_task-IsFramed item.id state text status s.manager m h
Step-IsFramed {s} (requeues before after item text status now m e room h) w =
    requeue_task-IsFramed item item.large text status now s.manager m refl h
Step-IsFramed (Step.launches h) w = absurd w
Step-IsFramed (Step.begins_stop h) w = absurd w
Step-IsFramed (Step.ends_stop h) w = absurd w
Step-IsFramed Step.sets_callback w = absurd w
