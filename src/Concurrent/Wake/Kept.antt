-- ===== src/Concurrent/Wake/Kept.antt =====
-- Which sections of net/sync_manager.cpp give a sleeping thread something to do.
use clsync.Base.{
  ℕ, suc, ◌≡◌, refl, ◌⊎◌, inl, inr, Bool, true, false, List, [], ◌∷◌, some, arith, subst, is_empty,
  Option-cases,
}
use clsync.Text.{Bytes}
use clsync.Task.{TaskState, SyncTask, QueueItem}
use clsync.Results.{Results, update}
use clsync.Manager.{SyncManager, queue_of, with_queue, is_idle, set_result_callback}
use clsync.Manager.Take.{take_pass, takes, first_ready, begin_attempt}
use clsync.Manager.Finish.{complete_task, requeue_task}
use clsync.Manager.Lifecycle.{admit, launch, end_stop}
use clsync.Concurrent.Invariant.Claim.{claim_inversion}
use clsync.Concurrent.Wake.{
  queue_cv, idle_cv, Sleeper, for_idle, for_stop, for_service, for_task, for_time, sleeps_on,
  same_condition, has_earlier, must_wake,
}

has_earlier-first_ready :
    (t now : ℕ) (q : List QueueItem) (item : QueueItem) (rest : List QueueItem)
    → first_ready now q ≡ some (item, rest)
    → has_earlier t rest ≡ true
    → has_earlier t q ≡ true
unfolding first_ready has_earlier
has_earlier-first_ready t now [] item rest e h = ground arith
has_earlier-first_ready t now (i ∷ q) item rest e h = elim (Option-cases (first_ready now q)) [
  | inl none_ready ↦ ground arith
  | inr ((j, left), e') ↦ ground (arith, has_earlier-first_ready t now q j left e')
]

first_ready-is_empty :
    (now : ℕ) (q : List QueueItem) (found : QueueItem × List QueueItem)
    → first_ready now q ≡ some found
    → is_empty q ≡ false
unfolding first_ready
first_ready-is_empty now [] found e = ground arith
first_ready-is_empty now (i ∷ q) found e = refl

claimed-must_wake :
    (large : Bool) (now : ℕ) (item : QueueItem) (rest : List QueueItem) (R : Results) (n : ℕ)
    (m : SyncManager) (s : Sleeper)
    → first_ready now (queue_of large m) ≡ some (item, rest)
    → must_wake s (record (with_queue large rest m) { results = R; active_tasks = suc n }) ≡ true
    → must_wake s m ≡ true
unfolding must_wake is_idle
claimed-must_wake true now item rest R n m for_idle e w = ground arith
claimed-must_wake true now item rest R n m for_stop e w = ground arith
claimed-must_wake true now item rest R n m for_service e w = ground arith
claimed-must_wake true now item rest R n m (for_task true) e w =
    ground (arith, first_ready-is_empty now (queue_of true m) (item, rest) e)
claimed-must_wake true now item rest R n m (for_task false) e w = ground arith
claimed-must_wake true now item rest R n m (for_time true t) e w =
    ground (arith, has_earlier-first_ready t now (queue_of true m) item rest e)
claimed-must_wake true now item rest R n m (for_time false t) e w = ground arith
claimed-must_wake false now item rest R n m for_idle e w = ground arith
claimed-must_wake false now item rest R n m for_stop e w = ground arith
claimed-must_wake false now item rest R n m for_service e w = ground arith
claimed-must_wake false now item rest R n m (for_task true) e w = ground arith
claimed-must_wake false now item rest R n m (for_task false) e w =
    ground (arith, first_ready-is_empty now (queue_of false m) (item, rest) e)
claimed-must_wake false now item rest R n m (for_time true t) e w = ground arith
claimed-must_wake false now item rest R n m (for_time false t) e w =
    ground (arith, has_earlier-first_ready t now (queue_of false m) item rest e)

-- Taking a task gives nobody else something to do.
pub claims-must_wake :
    (large : Bool) (now : ℕ) (item : QueueItem) (m m' : SyncManager) (s : Sleeper)
    → take_pass large now m ≡ takes item m'
    → must_wake s m' ≡ true
    → must_wake s m ≡ true
claims-must_wake large now item m m' s h w =
    let (rest, r, e, known, same) = claim_inversion large now m m' item h in
    claimed-must_wake large now item rest (update item.id begin_attempt m.results) m.active_tasks m
      s e (subst (λ k. must_wake s k ≡ true) same w)

pub requeue_task-must_wake :
    (item : QueueItem) (large : Bool) (text : Bytes) (status now : ℕ) (m m' : SyncManager)
    → item.large ≡ large
    → requeue_task item text status now m ≡ some m'
    → is_idle m' ≡ false
    → must_wake for_idle m' ≡ true
    → must_wake for_idle m ≡ true
unfolding must_wake requeue_task
requeue_task-must_wake item true text status now m m' e h busy w = ground arith
requeue_task-must_wake item false text status now m m' e h busy w = ground arith

-- `start` gives a caller of wait_for_idle nothing to do.
pub launch-must_wake :
    (m : SyncManager) → must_wake for_idle (launch m) ≡ true → must_wake for_idle m ≡ true
unfolding must_wake launch is_idle
launch-must_wake m w = ground arith

frame-must_wake :
    (workers : List Bool) (monitor has_callback : Bool) (m : SyncManager) (s : Sleeper)
    → must_wake s (record m { workers = workers; monitor = monitor; has_callback = has_callback })
      ≡ must_wake s m
unfolding must_wake is_idle
frame-must_wake workers monitor has_callback m for_idle = refl
frame-must_wake workers monitor has_callback m for_stop = refl
frame-must_wake workers monitor has_callback m for_service = refl
frame-must_wake workers monitor has_callback m (for_task true) = refl
frame-must_wake workers monitor has_callback m (for_task false) = refl
frame-must_wake workers monitor has_callback m (for_time true t) = refl
frame-must_wake workers monitor has_callback m (for_time false t) = refl

pub end_stop-must_wake : (m : SyncManager) (s : Sleeper) → must_wake s (end_stop m) ≡ must_wake s m
unfolding end_stop
end_stop-must_wake m s = frame-must_wake [] false m.has_callback m s

pub set_result_callback-must_wake :
    (m : SyncManager) (s : Sleeper) → must_wake s (set_result_callback m) ≡ must_wake s m
unfolding set_result_callback
set_result_callback-must_wake m s = frame-must_wake m.workers m.monitor true m s

pub complete_task-must_wake :
    (id : Bytes) (state : TaskState) (text : Bytes) (status : ℕ) (m m' : SyncManager) (s : Sleeper)
    → complete_task id state text status m ≡ some m'
    → (is_idle m' ≡ true → same_condition (sleeps_on s) idle_cv ≡ false)
    → must_wake s m' ≡ true
    → must_wake s m ≡ true
unfolding must_wake complete_task
complete_task-must_wake id state text status m m' for_idle h left w = ground (arith, left)
complete_task-must_wake id state text status m m' for_stop h left w = ground (arith, left)
complete_task-must_wake id state text status m m' for_service h left w = ground (arith, left)
complete_task-must_wake id state text status m m' (for_task true) h left w = ground (arith, left)
complete_task-must_wake id state text status m m' (for_task false) h left w = ground (arith, left)
complete_task-must_wake id state text status m m' (for_time true t) h left w = ground (arith, left)
complete_task-must_wake id state text status m m' (for_time false t) h left w = ground (arith, left)

pub admit-must_wake :
    (task : SyncTask) (large : Bool) (now : ℕ) (text : Bytes) (m : SyncManager) (s : Sleeper)
    → must_wake s (admit task large now text m).manager ≡ true
    → (must_wake s m ≡ true)
      ⊎ ((sleeps_on s ≡ queue_cv) × ((admit task large now text m).accepted ≡ true))
unfolding must_wake admit
admit-must_wake task true now text m for_idle w = ground arith
admit-must_wake task false now text m for_idle w = ground arith
admit-must_wake task true now text m for_stop w = ground arith
admit-must_wake task false now text m for_stop w = ground arith
admit-must_wake task true now text m for_service w = ground arith
admit-must_wake task false now text m for_service w = ground arith
admit-must_wake task true now text m (for_task true) w = ground arith
admit-must_wake task false now text m (for_task true) w = ground arith
admit-must_wake task true now text m (for_task false) w = ground arith
admit-must_wake task false now text m (for_task false) w = ground arith
admit-must_wake task true now text m (for_time true t) w = ground arith
admit-must_wake task false now text m (for_time true t) w = ground arith
admit-must_wake task true now text m (for_time false t) w = ground arith
admit-must_wake task false now text m (for_time false t) w = ground arith
