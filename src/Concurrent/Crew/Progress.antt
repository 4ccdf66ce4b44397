-- ===== src/Concurrent/Crew/Progress.antt =====
-- What the workers of net/sync_manager.cpp can do next: finish what they hold, and take what waits.
pub mod Alive
pub mod End
pub mod Joined
use clsync.Base.{
  suc, ◌+◌, ◌<◌, ◌≡◌, refl, ◌∙◌, ap, Bool, true, false, not, List, [], ◌∷◌, ◌++◌, some, arith, inl,
}
use clsync.Task.{completed, connected, error, SyncConfig, SyncResult, QueueItem}
use clsync.Results.{lookup, update}
use clsync.Manager.{SyncManager, queue_of, with_queue, same_service}
use clsync.Manager.Take.{take_pass, takes, first_ready, begin_attempt}
use clsync.Manager.Finish.{complete_task, store}
use clsync.Concurrent.{System, completes, serves}
use clsync.Concurrent.Count.{count}
use clsync.Concurrent.Invariant.{Inv}
use clsync.Concurrent.Invariant.Steps.{Reach-init-Inv}
use clsync.Concurrent.Idle.{held_known, lookup-of_waiting, count_self, count-queue_of}
use clsync.Concurrent.Crew.{Crew, CrewStep, acts, starts_task, CrewReach, next, new_crew}
use clsync.Concurrent.Crew.Bound.{serving, running_of, serving-append, CrewReach-Crewed, taken_kind}
use clsync.Concurrent.Crew.Through.{Through, rests, goes, Through-trans, IsUseful, IsLeaving}

-- The manager works: it is started and not stopping, the service is not given up, and a worker of each queue is
-- left.
pub record IsStaffed (w : Crew) : Type 0 where
  pub begun : w.manager.started ≡ true
  pub runs : w.manager.stopping ≡ false
  pub serves : same_service w.manager.service_state error ≡ false
  pub workers : (large : Bool) → 0 < serving large w.free + running_of large w.jobs

find_worker :
    (large : Bool) (free : List Bool)
    → 0 < serving large free
    → (before : List Bool) × (after : List Bool) × (free ≡ before ++ (large ∷ after))
unfolding serving
find_worker large [] h = absurd (omega arith)
find_worker true (true ∷ free) h = ([], free, refl)
find_worker false (false ∷ free) h = ([], free, refl)
find_worker true (false ∷ free) h =
    let (before, after, e) = find_worker true free (omega arith) in
    (false ∷ before, after, ap (◌∷◌ false) e)
find_worker false (true ∷ free) h =
    let (before, after, e) = find_worker false free (omega arith) in
    (true ∷ before, after, ap (◌∷◌ true) e)

-- The crew after a worker has completed the task at the front.
abbrev pub done : Crew → QueueItem → List QueueItem → SyncResult → Crew
done w item rest r = record {
  system = record { manager = store item.id completed [] 200 r w.manager; jobs = rest };
  free = item.large ∷ w.free;
}

pub complete_first :
    (w : Crew) (item : QueueItem) (rest : List QueueItem)
    → Inv w.system
    → w.jobs ≡ item ∷ rest
    → (r : SyncResult) × (st : CrewStep w (done w item rest r)) × IsUseful _ _ st × IsLeaving _ _ st
unfolding complete_task
complete_first w item rest v e =
    let (r, known) = held_known w.system [] rest item v e in
    (
      r,
      acts
          (completes [] rest item completed [] 200 (store item.id completed [] 200 r w.manager) e
            (inl refl) (ground (arith, known)))
          tt,
      refl,
      tt,
    )

done-IsStaffed :
    (w : Crew) (item : QueueItem) (rest : List QueueItem) (r : SyncResult)
    → w.jobs ≡ item ∷ rest
    → IsStaffed w
    → IsStaffed (done w item rest r)
unfolding serving running_of
done-IsStaffed w item rest r e staffed = record {
  begun = staffed.begun;
  runs = staffed.runs;
  serves = staffed.serves;
  workers = λ large. let h = staffed.workers large in ground (arith, h);
}

-- Every task that runs can be completed, with no other step.
pub finish_jobs :
    (c : SyncConfig) (w : Crew) (jobs : List QueueItem)
    → w.jobs ≡ jobs
    → CrewReach (new_crew c) w
    → IsStaffed w
    → (v : Crew) × Through IsUseful w v × (v.jobs ≡ []) × IsStaffed v
finish_jobs c w [] e r staffed = (w, rests, e, staffed)
finish_jobs c w (item ∷ rest) e r staffed =
    let (found, st, useful, leaving) =
      complete_first w item rest (Reach-init-Inv c (CrewReach-Crewed c r).reach) e in
    let (v, run, empty, still) =
      finish_jobs c (done w item rest found) rest refl (next r st)
        (done-IsStaffed w item rest found e staffed) in
    (v, Through-trans IsUseful (goes rests st useful) run, empty, still)

-- The manager after a worker has taken the item at the front of its queue.
abbrev taken : Bool → QueueItem → List QueueItem → SyncManager → SyncManager
taken large item rest m = record (with_queue large rest m) {
  results = update item.id begin_attempt m.results;
  active_tasks = suc m.active_tasks;
}

first_known :
    (s : System) (large : Bool) (item : QueueItem) (rest : List QueueItem)
    → Inv s
    → queue_of large s.manager ≡ item ∷ rest
    → (r : SyncResult) × (lookup item.id s.results ≡ some r)
first_known s large item rest v e =
    lookup-of_waiting item.id s
      (omega (arith, count_self item rest, ap (count item.id) e, count-queue_of item.id large s v))

first_ready_now :
    (q : List QueueItem) (item : QueueItem) (rest : List QueueItem)
    → q ≡ item ∷ rest
    → first_ready item.ready_at q ≡ some (item, rest)
unfolding first_ready
first_ready_now q item rest e = rw e (ground arith)

-- The item at the front of a queue can be taken, at the time when it is ready.
take_first :
    (s : System) (large : Bool) (item : QueueItem) (rest : List QueueItem)
    → Inv s
    → s.manager.stopping ≡ false
    → s.manager.service_state ≡ connected
    → queue_of large s.manager ≡ item ∷ rest
    → take_pass large item.ready_at s.manager ≡ takes item (taken large item rest s.manager)
unfolding take_pass
take_first s true item rest v runs well e =
    let (r, known) = first_known s true item rest v e in
    let ready = first_ready_now s.large_queue item rest e in ground arith
take_first s false item rest v runs well e =
    let (r, known) = first_known s false item rest v e in
    let ready = first_ready_now s.small_queue item rest e in ground arith

-- The manager works, and no task runs.
pub record IsReady (w : Crew) : Type 0 where
  pub runs : w.manager.stopping ≡ false
  pub well : w.manager.service_state ≡ connected
  pub idle : w.jobs ≡ []
  pub workers : (large : Bool) → 0 < serving large w.free

-- The crew after a free worker has taken the item at the front of its queue.
abbrev busy : Crew → Bool → QueueItem → List QueueItem → List Bool → Crew
busy w large item rest free = record {
  system = record { manager = taken large item rest w.manager; jobs = item ∷ w.jobs };
  free = free;
}

-- What the task leaves alone, and the queue without it.
served_fields :
    (large : Bool) (item : QueueItem) (rest : List QueueItem) (r : SyncResult) (m : SyncManager)
    → let m' = store item.id completed [] 200 r (taken large item rest m) in
      (m'.stopping ≡ m.stopping)
      × (m'.service_state ≡ m.service_state)
      × (queue_of large m' ≡ rest)
      × (queue_of (not large) m' ≡ queue_of (not large) m)
served_fields true item rest r m = (refl, refl, refl, refl)
served_fields false item rest r m = (refl, refl, refl, refl)

worker_back :
    (k : Bool) (large : Bool) (item : QueueItem) (free before after : List Bool)
    → free ≡ before ++ (large ∷ after)
    → item.large ≡ large
    → serving k (item.large ∷ (before ++ after)) ≡ serving k free
unfolding serving
worker_back k large item free before after e kind =
    rw (e, kind)
      (omega (arith, serving-append k before after, serving-append k before (large ∷ after)))

-- A task is taken by a free worker and completed.
pub serve_first :
    (c : SyncConfig) (w : Crew) (large : Bool) (item : QueueItem) (rest : List QueueItem)
    → CrewReach (new_crew c) w
    → IsReady w
    → queue_of large w.manager ≡ item ∷ rest
    → (v : Crew) × Through IsUseful w v
      × IsReady v
      × (queue_of large v.manager ≡ rest)
      × (queue_of (not large) v.manager ≡ queue_of (not large) w.manager)
serve_first c w large item rest r ready e =
    let v = Reach-init-Inv c (CrewReach-Crewed c r).reach in
    let took = take_first w.system large item rest v ready.runs ready.well e in
    let kind =
      taken_kind w.system large item.ready_at item (taken large item rest w.manager) took v in
    let (before, after, split) = find_worker large w.free (ready.workers large) in
    let st : CrewStep w (busy w large item rest (before ++ after)) =
      starts_task before after large item.ready_at item (taken large item rest w.manager) split
        took in
    let (found, ends, useful, leaving) =
      complete_first (busy w large item rest (before ++ after)) item w.jobs
        (Reach-init-Inv c (CrewReach-Crewed c (next r st)).reach) refl in
    let fields = served_fields large item rest found w.manager in
    (
      done (busy w large item rest (before ++ after)) item w.jobs found,
      goes (goes rests st tt) ends useful,
      record {
        runs = fields.0 ∙ ready.runs;
        well = fields.1 ∙ ready.well;
        idle = ready.idle;
        workers =
            λ k. rw (worker_back k large item w.free before after split kind) (ready.workers k);
      },
      fields.2,
      fields.3,
    )
