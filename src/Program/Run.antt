-- ===== src/Program/Run.antt =====
-- The run of main in net/sync.cpp from its loop over the commands on, interleaved with the threads
-- of SyncManager and with their calls of the result callback.
use clsync.Base.{ℕ, ◌≡◌, Bool, true, false, ◌&&◌, List, [], ◌∷◌, ◌++◌, some, if◌then◌else◌, all}
use clsync.Text.{Bytes, codes}
use clsync.Task.{completed, stopping, SyncTask, SyncResult}
use clsync.FileSystem.{FileSystem}
use clsync.Reborn.{Socket, SocketStat, process_requests}
use clsync.Command.{Request, asks, read_tokens, enqueue_ipc_command}
use clsync.Command.Tokens.{parse_tokens}
use clsync.Manager.{SyncManager, results_of, wait_for_idle}
use clsync.Manager.Service.{set_service_state}
use clsync.Manager.Lifecycle.{Reply, begin_stop, end_stop}
use clsync.Concurrent.{System, Step, claims, serves, completes, requeues}
use clsync.Program.{
  Program, Point, reads, stops, sets_stopping, joins, waits, denies, judges, ends, processes, exits,
  send, result_message,
}

-- The steps that workers and the monitor take; the others are main's.
abbrev pub IsWork : {s t : System} → Step s t → Type 0
IsWork (claims large now item m h) = Unit
IsWork (serves state) = Unit
IsWork (completes before after item state text status m e final h) = Unit
IsWork (requeues before after item text status now m e room h) = Unit
IsWork _ = ⊥

-- `result.state == TaskState::Completed`.
abbrev pub is_completed : SyncResult → Bool
is_completed r = elim r.state [ completed ↦ true | _ ↦ false ]

abbrev with_manager : SyncManager → Program → Program
with_manager m p = record p { system = record { manager = m; jobs = p.system.jobs } }

module _ (fs : FileSystem) where
  pub data MainStep (p : Program) : Program → Type 0 where
    -- A thread of the manager; `results` are those that it has to call the callback with.
    works :
        {t : System} (st : Step p.system t) (results : List SyncResult)
        → IsWork st
        → t.manager.delivered ≡ p.system.manager.delivered ++ results
        → MainStep p (record p { system = t; due = p.due ++ results })
    -- A thread locks `ipc_mutex` in the callback, sends and unlocks.
    calls :
        (before after : List SyncResult) (r : SyncResult)
        → p.due ≡ before ++ (r ∷ after)
        → p.locked ≡ false
        → MainStep p (record p { due = before ++ after; socket = send (result_message r) p.socket })
    accepts :
        (disk : fs.Disk) (now : ℕ) (command : Bytes) (rest : List Bytes) (task : SyncTask)
        (reply : Reply)
        → p.point ≡ reads (command ∷ rest)
        → read_tokens (parse_tokens command) ≡ asks task
        → enqueue_ipc_command fs disk now command p.error p.system.manager ≡ reply
        → reply.accepted ≡ true
        → MainStep p
            (record (with_manager reply.manager p) { error = reply.error; point = reads rest })
    -- `enqueue_ipc_command` calls `stop()`.
    commands_stop :
        (command : Bytes) (rest : List Bytes)
        → p.point ≡ reads (command ∷ rest)
        → read_tokens (parse_tokens command) ≡ Request.stops
        → MainStep p (record p { point = stops (reads rest) })
    refuses :
        (disk : fs.Disk) (now : ℕ) (command : Bytes) (rest : List Bytes) (reply : Reply)
        → p.point ≡ reads (command ∷ rest)
        → enqueue_ipc_command fs disk now command p.error p.system.manager ≡ reply
        → reply.accepted ≡ false
        → MainStep p (record (with_manager reply.manager p) { error = reply.error; point = denies })
    reports_error :
        (fuel : ℕ) (stat : SocketStat) (socket : Socket)
        → p.point ≡ denies
        → p.locked ≡ false
        → process_requests fuel (send (codes "SYNC ERROR") p.socket) ≡ some (stat, socket)
        → MainStep p (record p { socket = socket; point = stops (exits 1) })
    skips_stop :
        (to : Point)
        → p.point ≡ stops to
        → p.system.manager.started ≡ false
        → MainStep p (record p { point = to })
    begins_stop :
        (to : Point)
        → p.point ≡ stops to
        → p.system.manager.started ≡ true
        → MainStep p
            (record (with_manager (begin_stop p.system.manager) p) { point = sets_stopping to })
    says_stopping :
        (to : Point)
        → p.point ≡ sets_stopping to
        → MainStep p (record (with_manager (set_service_state stopping p.system.manager) p) {
          point = joins to;
        })
    -- A thread ends when it has no task and no call of the callback left.
    joins_threads :
        (to : Point)
        → p.point ≡ joins to
        → p.system.jobs ≡ []
        → p.due ≡ []
        → MainStep p (record (with_manager (end_stop p.system.manager) p) { point = to })
    starts_waiting : p.point ≡ reads [] → MainStep p (record p { point = waits })
    wakes :
        (idle : Bool)
        → p.point ≡ waits
        → wait_for_idle p.system.manager ≡ some idle
        → MainStep p (record p { point = judges idle })
    -- Five minutes are over.
    times_out : p.point ≡ waits → MainStep p (record p { point = judges false })
    judges_results :
        (idle : Bool)
        → p.point ≡ judges idle
        → MainStep p
            (record p { point = ends (idle && all is_completed (results_of p.system.manager)) })
    announces :
        (succeeded : Bool)
        → p.point ≡ ends succeeded
        → p.locked ≡ false
        → MainStep p (record p {
          socket =
              send (if succeeded then codes "SYNC COMPLETED" else codes "SYNC FAILED") p.socket;
          locked = true;
          point = stops (processes succeeded);
        })
    answers :
        (succeeded : Bool) (fuel : ℕ) (stat : SocketStat) (socket : Socket)
        → p.point ≡ processes succeeded
        → process_requests fuel p.socket ≡ some (stat, socket)
        → MainStep p (record p {
          socket = socket;
          locked = false;
          point = exits (if succeeded then 0 else 1);
        })

  pub data Runs (p : Program) : Program → Type 0 where
    here : Runs p p
    next : {q r : Program} → Runs p q → MainStep q r → Runs p r
