-- ===== src/Manager/Work.antt =====
-- `process_task` of net/sync_manager.cpp, with the transfer by class Network as a parameter.
use clsync.Base.{ℕ, Bool, true, false, ◌&&◌, ◌||◌, [], Option, some, none, ◌==◌, leb, if◌then◌else◌}
use clsync.Text.{Bytes}
use clsync.Task.{
  SyncDirection, download, upload, completed, failed, disconnected, SyncTask, QueueItem,
}
use clsync.FilePath.{FilePath}
use clsync.FileSystem.{FileSystem}
use clsync.Resolve.{resolved, refused, resolve_local_path}
use clsync.Checks.{is_retryable}
use clsync.Results.{lookup}
use clsync.Manager.{SyncManager}
use clsync.Manager.Service.{set_service_state}
use clsync.Manager.Finish.{complete_task, requeue_task}

-- What a transfer leaves: its value, `last_http_status()` and the error text.
pub record Outcome : Type 0 where
  pub success : Bool
  pub status : ℕ
  pub error : Bytes

abbrev pub is_download : SyncDirection → Bool
is_download download = true
is_download upload = false

-- `is_retryable(status, error) && attempts <= config_.max_retries`.
abbrev pub may_retry : ℕ → Outcome → SyncManager → Bool
may_retry attempts o m = is_retryable o.status o.error && leb attempts m.config.max_retries

-- `if (status == 0 || status >= 500) set_service_state(Disconnected)`.
unfoldable pub note_outage : ℕ → SyncManager → SyncManager
unfolding set_service_state
note_outage status m = if status == 0 || leb 500 status then set_service_state disconnected m else m

-- The part of process_task behind the transfer.
unfoldable pub settle : QueueItem → ℕ → Outcome → ℕ → SyncManager → Option SyncManager
unfolding note_outage complete_task requeue_task
settle item attempts o now m =
    if o.success
    then complete_task item.id completed [] o.status m
    else if may_retry attempts o m
    then requeue_task item o.error o.status now (note_outage o.status m)
    else complete_task item.id failed o.error o.status m

module _ (fs : FileSystem) where
  abbrev pub Transfer : Type 0
  Transfer = fs.Disk → SyncTask → FilePath → fs.Disk × Outcome

  unfoldable pub process_task :
      Transfer → fs.Disk → ℕ → QueueItem → SyncManager → fs.Disk × Option SyncManager
  unfolding settle resolve_local_path
  process_task transfer disk now item m = elim (lookup item.id m.results) [
    | none ↦ (disk, none)
    | some r ↦
        let found =
          resolve_local_path fs disk m.config.local_root r.task.local_path
            (is_download r.task.direction) in
        elim found.1 [
          | refused text ↦ (found.0, complete_task item.id failed text 0 m)
          | resolved path ↦
              let sent = transfer found.0 r.task path in
              (sent.0, settle item r.attempts sent.1 now m)
        ]
  ]
