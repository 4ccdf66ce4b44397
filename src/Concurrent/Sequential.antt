-- ===== src/Concurrent/Sequential.antt =====
-- The members of SyncManager (net/sync_manager.cpp) that hold the lock several times are
-- sequences of the steps, so what holds of every interleaving of the steps holds with them.
use clsync.Base.{
  ℕ, ◌≡◌, refl, inl, inr, Bool, true, false, List, [], ◌∷◌, ◌++◌, some, arith, Option-cases,
  Bool-cases, if_cases, ◌||◌, ◌==◌, leb,
}
use clsync.Task.{SyncResult, QueueItem, connected, disconnected, completed, failed, stopping}
use clsync.FileSystem.{FileSystem}
use clsync.FilePath.{FilePath}
use clsync.Resolve.{Resolved-cases, resolve_local_path}
use clsync.Results.{lookup}
use clsync.Manager.{SyncManager, same_service}
use clsync.Manager.Service.{set_service_state, monitor_round, monitor_loop}
use clsync.Manager.Work.{
  Outcome, Transfer, is_download, may_retry, note_outage, settle, process_task,
}
use clsync.Manager.Lifecycle.{stop}
use clsync.Concurrent.{
  System, serves, completes, requeues, begins_stop, ends_stop, Reach, here, next, attempts_of,
}

pub Reach-trans : {s t u : System} → Reach s t → Reach t u → Reach s u
Reach-trans r here = r
Reach-trans r (next q st) = next (Reach-trans r q) st

-- `stop`, where no worker holds a task, is a sequence of steps.
pub stop-Reach : (s : System) → s.jobs ≡ [] → Reach s (record s { manager = stop s.manager })
unfolding stop
stop-Reach s idle =
    if_cases (λ m. Reach s (record s { manager = m })) s.manager.started _ s.manager
      (λ runs. next (next (next here (begins_stop runs)) (serves stopping)) (ends_stop idle))
      (λ over. here)

monitor_round-Reach :
    (answer : Bool) (s : System) (failures : ℕ)
    → Reach s (record s { manager = (monitor_round answer (s.manager, failures)).0 })
unfolding monitor_round
monitor_round-Reach true s failures = next here (serves connected)
monitor_round-Reach false s failures = next here (serves _)

-- The loop of the monitor is a sequence of steps, whatever its health checks answer.
pub monitor_loop-Reach :
    (answers : List Bool) (s : System) (failures : ℕ)
    → Reach s (record s { manager = (monitor_loop answers (s.manager, failures)).0 })
unfolding monitor_loop
monitor_loop-Reach [] s failures = here
monitor_loop-Reach (answer ∷ answers) s failures =
    if_cases (λ (p : SyncManager × ℕ). Reach s (record s { manager = p.0 })) s.manager.stopping
      (s.manager, failures) _ (λ stops. here)
      λ runs.
        let after = monitor_round answer (s.manager, failures) in
        Reach-trans (monitor_round-Reach answer s failures)
          (monitor_loop-Reach answers (record s { manager = after.0 }) after.1)

-- The outage of a failed transfer changes the service state and nothing else.
note_outage-keeps :
    (status : ℕ) (m : SyncManager)
    → ((note_outage status m).results ≡ m.results) × ((note_outage status m).config ≡ m.config)
unfolding note_outage set_service_state same_service
note_outage-keeps status m = ground arith

note_outage-Reach :
    (s : System) (status : ℕ) → Reach s (record s { manager = note_outage status s.manager })
unfolding note_outage
note_outage-Reach s status =
    if_cases (λ m. Reach s (record s { manager = m })) (status == 0 || leb 500 status) _ s.manager
      (λ outage. next here (serves disconnected)) (λ other. here)

settle-Reach :
    (s : System) (before after : List QueueItem) (item : QueueItem) (o : Outcome) (now : ℕ)
    (m : SyncManager)
    → s.jobs ≡ before ++ (item ∷ after)
    → settle item (attempts_of (lookup item.id s.results)) o now s.manager ≡ some m
    → Reach s (record { manager = m; jobs = before ++ after })
unfolding settle
settle-Reach s before after item o now m e h = elim (Bool-cases o.success) [
  | inl good ↦
      next here (completes before after item completed [] o.status m e (inl refl) (ground arith))
  | inr bad ↦ elim (Bool-cases (may_retry (attempts_of (lookup item.id s.results)) o s.manager)) [
    | inl again ↦
        let kept = note_outage-keeps o.status s.manager in
        next (note_outage-Reach s o.status) (
          requeues before after item o.error o.status now m e (ground (arith, kept)) (ground arith))
    | inr never ↦
        next here
          (completes before after item failed o.error o.status m e (inr refl) (ground arith))
  ]
]

-- process_task, run for a task that a worker holds, is a sequence of steps at whose end the
-- worker holds the task no more.
pub process_task-Reach :
    (fs : FileSystem) (transfer : Transfer fs) (disk : fs.Disk) (now : ℕ) (item : QueueItem)
    (s : System) (before after : List QueueItem) (m : SyncManager)
    → s.jobs ≡ before ++ (item ∷ after)
    → (process_task fs transfer disk now item s.manager).1 ≡ some m
    → Reach s (record { manager = m; jobs = before ++ after })
unfolding process_task
process_task-Reach fs transfer disk now item s before after m e h =
    elim (Option-cases (lookup item.id s.results)) [
      | inl missing ↦ absurd (ground arith)
      | inr (r, known) ↦
          elim (Resolved-cases
            (resolve_local_path fs disk s.config.local_root r.task.local_path
              (is_download r.task.direction)).1) [
                | inl (path, found) ↦
                    settle-Reach s before after item (sent_outcome r path) now m e (ground arith)
                | inr (text, found) ↦
                    next here
                      (completes before after item failed text 0 m e (inr refl) (ground arith))
              ]
    ]
  where
    sent_outcome : SyncResult → FilePath → Outcome
    sent_outcome r path =
        (transfer
          (resolve_local_path fs disk s.config.local_root r.task.local_path
            (is_download r.task.direction)).0
          r.task path).1
