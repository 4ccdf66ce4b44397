-- ===== src/Concurrent/Crew/Progress/Alive.antt =====
-- How long the worker threads of net/sync_manager.cpp are there.
use clsync.Base.{
  ℕ, ◌+◌, ◌<◌, ◌≤◌, ◌≡◌, refl, ◌∙◌, ap, Bool, true, false, List, ◌∷◌, ◌++◌, some, arith,
}
use clsync.Text.{Bytes}
use clsync.Task.{TaskState, ServiceState, error, SyncTask, SyncConfig, QueueItem}
use clsync.Manager.{SyncManager, same_service, set_result_callback}
use clsync.Manager.Service.{set_service_state}
use clsync.Manager.Take.{take_pass, takes, quits}
use clsync.Manager.Finish.{complete_task, requeue_task}
use clsync.Manager.Lifecycle.{admit, launch, lacks_workers}
use clsync.Concurrent.{
  System, Step, enqueues, claims, serves, completes, requeues, launches, begins_stop, ends_stop,
  sets_callback,
}
use clsync.Concurrent.Frame.{Step-IsFramed}
use clsync.Concurrent.Invariant.{Inv}
use clsync.Concurrent.Invariant.Claim.{claim_inversion}
use clsync.Concurrent.Invariant.Steps.{Reach-init-Inv}
use clsync.Concurrent.Crew.{
  Crew, crew_of, freed, IsAllowed, CrewStep, acts, starts_task, leaves, CrewReach, here, next,
  new_crew,
}
use clsync.Concurrent.Crew.Bound.{
  serving, running_of, serving-append, serving-crew_of, running_of-append, taken_kind,
  CrewReach-Crewed,
}
use clsync.Concurrent.Crew.Stranded.{CrewReach-trans}
use clsync.Concurrent.Crew.Progress.{IsStaffed}

-- The step neither gives the service up nor stops the manager.
abbrev pub IsMild : {s t : System} → Step s t → Type 0
IsMild (serves state) = same_service state error ≡ false
IsMild (begins_stop h) = ⊥
IsMild (ends_stop h) = ⊥
IsMild _ = Unit

abbrev pub IsMildStep : {w v : Crew} → CrewStep w v → Type 0
IsMildStep (acts st a) = IsMild st
IsMildStep _ = Unit

abbrev pub IsUnbroken : {w v : Crew} → CrewReach w v → Type 0
IsUnbroken here = Unit
IsUnbroken (next run st) = IsUnbroken run × IsMildStep st

-- The steps of SyncManager lose no worker.
acts-workers :
    (k : Bool) (free : List Bool) {s t : System} (st : Step s t)
    → IsAllowed free st
    → serving k free + running_of k s.jobs ≤ serving k (freed st ++ free) + running_of k t.jobs
unfolding serving running_of
acts-workers k free (enqueues task large now text) a = omega arith
acts-workers k free (claims large now item m h) a = absurd a
acts-workers k free (serves state) a = omega arith
acts-workers k free (completes before after item state text status m e final h) a =
    ground (arith, running_of-append k before (item ∷ after), running_of-append k before after)
acts-workers k free (requeues before after item text status now m e room h) a =
    ground (arith, running_of-append k before (item ∷ after), running_of-append k before after)
acts-workers k free {s} (launches h) a =
    omega (arith, serving-append k (crew_of s.manager.config) free)
acts-workers k free (begins_stop h) a = omega arith
acts-workers k free (ends_stop h) a = omega arith
acts-workers k free sets_callback a = omega arith

admit-service :
    (task : SyncTask) (large : Bool) (now : ℕ) (text : Bytes) (m : SyncManager)
    → (admit task large now text m).manager.service_state ≡ m.service_state
unfolding admit
admit-service task true now text m = ground arith
admit-service task false now text m = ground arith

take_pass-service :
    (large : Bool) (now : ℕ) (item : QueueItem) (m m' : SyncManager)
    → take_pass large now m ≡ takes item m'
    → (m'.service_state ≡ m.service_state) × (m'.stopping ≡ m.stopping) × (m'.started ≡ m.started)
take_pass-service true now item m m' h =
    rw (claim_inversion true now m m' item h).4 (refl, refl, refl)
take_pass-service false now item m m' h =
    rw (claim_inversion false now m m' item h).4 (refl, refl, refl)

set_service_state-service :
    (state : ServiceState) (m : SyncManager) → (set_service_state state m).service_state ≡ state
unfolding set_service_state
set_service_state-service state m = ground arith

complete_task-service :
    (id : Bytes) (state : TaskState) (text : Bytes) (status : ℕ) (m m' : SyncManager)
    → complete_task id state text status m ≡ some m'
    → m'.service_state ≡ m.service_state
unfolding complete_task
complete_task-service id state text status m m' h = ground arith

requeue_task-service :
    (item : QueueItem) (large : Bool) (text : Bytes) (status now : ℕ) (m m' : SyncManager)
    → item.large ≡ large
    → requeue_task item text status now m ≡ some m'
    → m'.service_state ≡ m.service_state
unfolding requeue_task
requeue_task-service item true text status now m m' e h = ground arith
requeue_task-service item false text status now m m' e h = ground arith

-- The manager takes tasks.
abbrev Works : SyncManager → Type 0
Works m = (m.stopping ≡ false) × (same_service m.service_state error ≡ false) × (m.started ≡ true)

kept :
    (m m' : SyncManager)
    → m'.service_state ≡ m.service_state
    → m'.stopping ≡ m.stopping
    → m'.started ≡ m.started
    → Works m
    → Works m'
kept m m' same flag begun works =
    (flag ∙ works.0, ap (λ s. same_service s error) same ∙ works.1, begun ∙ works.2)

acts-Works : {s t : System} (st : Step s t) → IsMild st → Works s.manager → Works t.manager
unfolding launch set_result_callback same_service
acts-Works {s} {t} (enqueues task large now text) mild works =
    kept s.manager t.manager (admit-service task large now text s.manager)
      (Step-IsFramed {s = s} (enqueues task large now text) tt).3
      (Step-IsFramed {s = s} (enqueues task large now text) tt).2 works
acts-Works {s} (claims large now item m h) mild works =
    let same = take_pass-service large now item s.manager m h in
    kept s.manager m same.0 same.1 same.2 works
acts-Works {s} {t} (serves state) mild works = (
  (Step-IsFramed {s = s} (serves state) tt).3 ∙ works.0,
  ap (λ x. same_service x error) (set_service_state-service state s.manager) ∙ mild,
  (Step-IsFramed {s = s} (serves state) tt).2 ∙ works.2,
)
acts-Works {s} (completes before after item state text status m e final h) mild works =
    kept s.manager m (complete_task-service item.id state text status s.manager m h)
      (Step-IsFramed {s = s} (completes before after item state text status m e final h) tt).3
      (Step-IsFramed {s = s} (completes before after item state text status m e final h) tt).2 works
acts-Works {s} (requeues before after item text status now m e room h) mild works =
    kept s.manager m (requeue_task-service item item.large text status now s.manager m refl h)
      (Step-IsFramed {s = s} (requeues before after item text status now m e room h) tt).3
      (Step-IsFramed {s = s} (requeues before after item text status now m e room h) tt).2 works
acts-Works (launches h) mild works = (refl, refl, refl)
acts-Works (begins_stop h) mild works = absurd mild
acts-Works (ends_stop h) mild works = absurd mild
acts-Works sets_callback mild works = works

stays_in : (large : Bool) (now : ℕ) (m : SyncManager) → Works m → take_pass large now m ≡ quits → ⊥
unfolding take_pass
stays_in true now m works h = ground arith
stays_in false now m works h = ground arith

CrewStep-IsStaffed :
    {w v : Crew} (st : CrewStep w v) → IsMildStep st → Inv w.system → IsStaffed w → IsStaffed v
unfolding serving running_of
CrewStep-IsStaffed {w} (acts st a) mild v staffed =
    let works = acts-Works st mild (staffed.runs, staffed.serves, staffed.begun) in
    record {
      begun = works.2;
      runs = works.0;
      serves = works.1;
      workers = λ k. omega (arith, acts-workers k w.free st a, staffed.workers k);
    }
CrewStep-IsStaffed {w} (starts_task before after large now item m e h) mild v staffed =
    let same = take_pass-service large now item w.manager m h in
    let works =
      kept w.manager m same.0 same.1 same.2 (staffed.runs, staffed.serves, staffed.begun) in
    let kind = taken_kind w.system large now item m h v in
    record {
      begun = works.2;
      runs = works.0;
      serves = works.1;
      workers = λ k.
          let some_left = staffed.workers k in
          ground (arith, serving-append k before (large ∷ after), serving-append k before after);
    }
CrewStep-IsStaffed {w} (leaves before after large now e h) mild v staffed =
    absurd (stays_in large now w.manager (staffed.runs, staffed.serves, staffed.begun) h)

pub CrewReach-IsStaffed :
    (c : SyncConfig) {w v : Crew}
    → CrewReach (new_crew c) w
    → (run : CrewReach w v) → IsUnbroken run
    → IsStaffed w
    → IsStaffed v
CrewReach-IsStaffed c before here unbroken staffed = staffed
CrewReach-IsStaffed c before (next run st) unbroken staffed =
    CrewStep-IsStaffed st unbroken.1
      (Reach-init-Inv c (CrewReach-Crewed c (CrewReach-trans before run)).reach)
      (CrewReach-IsStaffed c before run unbroken.0 staffed)

crew_of-serves : (c : SyncConfig) (k : Bool) → lacks_workers c ≡ false → 0 < serving k (crew_of c)
crew_of-serves c true enough = ground (arith, serving-crew_of c)
crew_of-serves c false enough = ground (arith, serving-crew_of c)

-- The crew after `start`.
abbrev pub launched : Crew → Crew
launched w = record {
  system = record { manager = launch w.manager; jobs = w.jobs };
  free = crew_of w.manager.config ++ w.free;
}

pub launch-IsStaffed : (w : Crew) → lacks_workers w.manager.config ≡ false → IsStaffed (launched w)
unfolding launch same_service
launch-IsStaffed w enough = record {
  begun = refl;
  runs = refl;
  serves = refl;
  workers = λ k. omega (
    arith,
    crew_of-serves w.manager.config k enough,
    serving-append k (crew_of w.manager.config) w.free,
  );
}
