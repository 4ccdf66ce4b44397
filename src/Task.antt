-- ===== src/Task.antt =====
-- The data of net/sync_manager.h and of DownloadValidation in net/network.h.
pub mod Sample
use clsync.Base.{ℕ, Bool, Option}
use clsync.Text.{Bytes}

pub data SyncDirection : Type 0 where
  download upload : SyncDirection

pub data TaskState : Type 0 where
  pending in_progress completed failed retry cancelled : TaskState

pub data ServiceState : Type 0 where
  connecting connected disconnected error stopping : ServiceState

pub record DownloadValidation : Type 0 where
  pub expected_size : Option ℕ
  pub expected_sha256 : Bytes

pub record SyncConfig : Type 0 where
  pub local_root : Bytes
  pub health_url : Bytes
  pub user_agent : Bytes
  pub large_file_threshold : ℕ
  pub small_file_workers : ℕ
  pub large_file_workers : ℕ
  pub max_retries : ℕ
  pub network_timeout_ms : ℕ
  pub retry_delay : ℕ
  pub monitor_interval : ℕ

pub record SyncTask : Type 0 where
  pub id : Bytes
  pub direction : SyncDirection
  pub url : Bytes
  pub local_path : Bytes
  pub validation : DownloadValidation

pub record SyncResult : Type 0 where
  pub task : SyncTask
  pub state : TaskState
  pub attempts : ℕ
  pub http_status : ℕ
  pub error : Bytes

pub record QueueItem : Type 0 where
  pub id : Bytes
  pub large : Bool
  pub ready_at : ℕ
