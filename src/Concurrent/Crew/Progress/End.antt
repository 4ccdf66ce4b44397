-- ===== src/Concurrent/Crew/Progress/End.antt =====
-- That the workers of net/sync_manager.cpp can always come to the end of their work.
use clsync.Base.{◌≡◌, refl, ◌∙◌, ap, Bool, true, false, not, List, [], ◌∷◌, some, arith, length}
use clsync.Task.{connected, SyncConfig, QueueItem}
use clsync.Manager.{queue_of, wait_for_idle}
use clsync.Manager.Service.{set_service_state}
use clsync.Concurrent.{serves}
use clsync.Concurrent.Frame.{set_service_state-IsFramed}
use clsync.Concurrent.Invariant.Steps.{Reach-init-Inv}
use clsync.Concurrent.Crew.{Crew, acts, CrewReach, next, new_crew}
use clsync.Concurrent.Crew.Bound.{running_of, CrewReach-Crewed}
use clsync.Concurrent.Crew.Stranded.{CrewReach-trans}
use clsync.Concurrent.Crew.Through.{
  Through, rests, goes, Through-trans, Through-CrewReach, IsUseful,
}
use clsync.Manager.{init}
use clsync.Manager.Lifecycle.{lacks_workers}
use clsync.Concurrent.{launches}
use clsync.Concurrent.Lifecycle.Final.{Reach-config}
use clsync.Concurrent.Crew.Progress.Alive.{
  IsUnbroken, launched, launch-IsStaffed, CrewReach-IsStaffed,
}
use clsync.Concurrent.Crew.Progress.{IsStaffed, IsReady, finish_jobs, serve_first}

-- A queue can be worked off.
serve_queue :
    (c : SyncConfig) (w : Crew) (large : Bool) (q : List QueueItem)
    → CrewReach (new_crew c) w
    → IsReady w
    → queue_of large w.manager ≡ q
    → (v : Crew) × Through IsUseful w v
      × IsReady v
      × (queue_of large v.manager ≡ [])
      × (queue_of (not large) v.manager ≡ queue_of (not large) w.manager)
serve_queue c w large [] r ready e = (w, rests, ready, e, refl)
serve_queue c w large (item ∷ rest) r ready e =
    let (u, run, still, left, other) = serve_first c w large item rest r ready e in
    let (v, run', still', left', other') =
      serve_queue c u large rest (CrewReach-trans r (Through-CrewReach IsUseful run)) still left in
    (v, Through-trans IsUseful run run', still', left', other' ∙ other)

-- The service is found well.
connect : (w : Crew) → IsStaffed w → w.jobs ≡ [] → (v : Crew) × Through IsUseful w v × IsReady v
unfolding set_service_state running_of
connect w staffed idle = (
  record {
    system = record { manager = set_service_state connected w.manager; jobs = w.jobs };
    free = w.free;
  },
  goes rests (acts (serves connected) tt) (refl, staffed.begun, staffed.runs),
  record {
    runs = (set_service_state-IsFramed connected w.manager).3 ∙ staffed.runs;
    well = ground arith;
    idle = idle;
    workers = λ large. omega (arith, staffed.workers large, ap (running_of large) idle);
  },
)

idle_end :
    (c : SyncConfig) (v : Crew)
    → CrewReach (new_crew c) v
    → IsReady v
    → queue_of true v.manager ≡ []
    → queue_of false v.manager ≡ []
    → wait_for_idle v.manager ≡ some true
unfolding wait_for_idle
idle_end c v r ready large small =
    let inv = Reach-init-Inv c (CrewReach-Crewed c r).reach in
    ground (arith, inv.active, ap length ready.idle, ready.runs, ready.well)

-- While a worker of each queue is left, the work can be brought to its end.
IsStaffed-wait_for_idle :
    (c : SyncConfig) (w : Crew)
    → CrewReach (new_crew c) w
    → IsStaffed w
    → (v : Crew) × Through IsUseful w v × (wait_for_idle v.manager ≡ some true)
IsStaffed-wait_for_idle c w r staffed =
    let (w1, r1, empty, staffed') = finish_jobs c w w.jobs refl r staffed in
    let (w2, r2, ready) = connect w1 staffed' empty in
    let to2 = CrewReach-trans r (Through-CrewReach IsUseful (Through-trans IsUseful r1 r2)) in
    let (w3, r3, ready3, small, large) =
      serve_queue c w2 false w2.system.small_queue to2 ready refl in
    let to3 = CrewReach-trans to2 (Through-CrewReach IsUseful r3) in
    let (w4, r4, ready4, large4, small4) =
      serve_queue c w3 true w3.system.large_queue to3 ready3 refl in
    (
      w4,
      Through-trans IsUseful (Through-trans IsUseful (Through-trans IsUseful r1 r2) r3) r4,
      idle_end c w4 (CrewReach-trans to3 (Through-CrewReach IsUseful r4)) ready4 large4
          (small4 ∙ small),
    )

-- From the moment when `start` has made the threads, whatever these and the callers do, as long as
-- the service is never given up and the manager never stopped, the work can be brought to its end:
-- by steps of nothing but workers that take tasks, transfers that succeed and the monitor that finds
-- the service well, the threads can always go on so that wait_for_idle returns true, whatever waits,
-- runs or is to be retried.
pub start-wait_for_idle :
    (c : SyncConfig) (w : Crew) {v : Crew}
    → CrewReach (new_crew c) w
    → w.manager.started ≡ false
    → w.manager.workers ≡ []
    → lacks_workers c ≡ false
    → (run : CrewReach (launched w) v) → IsUnbroken run
    → (u : Crew) × Through IsUseful v u × (wait_for_idle u.manager ≡ some true)
unfolding init
start-wait_for_idle c w {v} before stopped joined enough run unbroken =
    let made : CrewReach (new_crew c) (launched w) = next before (acts (launches stopped) joined) in
    let same = Reach-config (CrewReach-Crewed c before).reach in
    let staffed = launch-IsStaffed w (ap lacks_workers same ∙ enough) in
    IsStaffed-wait_for_idle c v (CrewReach-trans made run)
      (CrewReach-IsStaffed c made run unbroken staffed)
