-- ===== src/Manager/Lifecycle.antt =====
-- `start`, `stop`, `is_large_task` and `enqueue` of net/sync_manager.cpp.
use clsync.Base.{
  ℕ, ◌≡◌, arith, zero, suc, Bool, true, false, not, ◌||◌, List, [], ◌∷◌, ◌++◌, Option, some, none,
  ◌==◌, leb, if◌then◌else◌, is_empty,
}
use clsync.Text.{Bytes, codes}
use clsync.Task.{
  cancelled, pending, download, upload, connecting, stopping, SyncConfig, SyncTask, SyncResult,
}
use clsync.FilePath.{of_text}
use clsync.FileSystem.{FileSystem, ok, fails}
use clsync.Resolve.{resolved, refused, resolve_local_path}
use clsync.Checks.{is_http_url, valid_checksum}
use clsync.Results.{lookup, emplace, update_all}
use clsync.Manager.{SyncManager, is_waiting, push_back}
use clsync.Manager.Service.{set_service_state}

-- The manager, the value of the call, and the text that the caller's `error` holds afterwards.
pub record Reply : Type 0 where
  pub manager : SyncManager
  pub accepted : Bool
  pub error : Bytes

abbrev refuse : SyncManager → Bytes → Reply
refuse m text = record { manager = m; accepted = false; error = text }

abbrev accept : SyncManager → Bytes → Reply
accept m text = record { manager = m; accepted = true; error = text }

abbrev pub threads : ℕ → Bool → List Bool
threads zero large = []
threads (suc n) large = large ∷ threads n large

-- The writes of `start` behind its checks.
unfoldable pub launch : SyncManager → SyncManager
launch m = record m {
  stopping = false;
  started = true;
  service_state = connecting;
  workers =
      m.workers
      ++ (threads m.config.small_file_workers false ++ threads m.config.large_file_workers true);
  monitor = true;
}

abbrev pub lacks_workers : SyncConfig → Bool
lacks_workers c =
    c.small_file_workers == 0 || c.large_file_workers == 0 || c.network_timeout_ms == 0

abbrev pub cancel : SyncResult → SyncResult
cancel r = if is_waiting r.state then record r { state = cancelled } else r

-- The part of `stop` under the lock.
unfoldable pub begin_stop : SyncManager → SyncManager
unfolding update_all
begin_stop m = record m {
  stopping = true;
  started = false;
  results = update_all cancel m.results;
  small_queue = [];
  large_queue = [];
}

-- After the joins, which wait until no worker runs.
unfoldable pub end_stop : SyncManager → SyncManager
end_stop m = record m { workers = []; monitor = false }

-- The whole of `stop`, where no worker runs a task meanwhile.
unfoldable pub stop : SyncManager → SyncManager
unfolding begin_stop set_service_state end_stop
stop m = if m.started then end_stop (set_service_state stopping (begin_stop m)) else m

-- The destructor.
unfoldable pub destroy : SyncManager → SyncManager
unfolding stop
destroy m = stop m

-- After `stop`, the destructor finds nothing to do.
destroy-stop : (m : SyncManager) → destroy (stop m) ≡ stop m
unfolding destroy stop begin_stop set_service_state end_stop
destroy-stop m = ground arith

abbrev at_least : Option ℕ → ℕ → Bool
at_least none bound = false
at_least (some n) bound = leb bound n

abbrev pub new_result : SyncTask → SyncResult
new_result task = record { task = task; state = pending; attempts = 0; http_status = 0; error = [] }

-- The part of `enqueue` under the lock.
unfoldable pub admit : SyncTask → Bool → ℕ → Bytes → SyncManager → Reply
unfolding lookup emplace
admit task large now text m =
    if not m.started || m.stopping
    then refuse m (codes "Sync manager is not running.")
    else elim (lookup task.id m.results) [
      | some r ↦ refuse m (codes "Task id already exists.")
      | none ↦
          accept
            (push_back large (record { id = task.id; large = large; ready_at = now })
              (record m { results = emplace task.id (new_result task) m.results }))
            text
    ]

abbrev pub malformed : SyncTask → Bool
malformed task =
    is_empty task.id
    || not (is_http_url task.url)
    || is_empty task.local_path
    || not (valid_checksum task.validation.expected_sha256)

module _ (fs : FileSystem) where
  -- A negative timeout, which `long` admits, is not modelled: sync.cpp fills it from an unsigned.
  unfoldable pub start : fs.Disk → Bytes → SyncManager → fs.Disk × Reply
  unfolding launch
  start disk text m =
      if m.started
      then (disk, accept m text)
      else if is_empty m.config.local_root || is_empty m.config.health_url
      then (disk, refuse m (codes "local_root and health_url are required."))
      else if lacks_workers m.config
      then (disk, refuse m (codes "worker counts and network timeout must be positive."))
      else let made = fs.create_directories disk (of_text m.config.local_root) in
        elim made.1 [
          | some message ↦ (made.0, refuse m (codes "Cannot create local root: " ++ message))
          | none ↦ (made.0, accept (launch m) text)
        ]

  -- The size of the file that an upload names.
  pub is_large_upload : fs.Disk → SyncConfig → SyncTask → Bytes → Bool × Bytes
  unfolding resolve_local_path
  is_large_upload disk c task text =
      elim (resolve_local_path fs disk c.local_root task.local_path false).1 [
        | refused message ↦ (false, message)
        | resolved path ↦ elim (fs.file_size disk path) [
          | fails message ↦ (false, codes "Cannot read upload file size: " ++ message)
          | ok size ↦ (leb c.large_file_threshold size, text)
        ]
      ]

  pub is_large_download : fs.Disk → SyncConfig → SyncTask → Bytes → Bool × Bytes
  unfolding resolve_local_path
  is_large_download disk c task text =
      elim (resolve_local_path fs disk c.local_root task.local_path false).1 [
        | refused message ↦ (false, message)
        | resolved path ↦ (at_least task.validation.expected_size c.large_file_threshold, text)
      ]

  -- The value, and the caller's `error` afterwards; a call that succeeds leaves it alone.
  unfoldable pub is_large_task : fs.Disk → SyncConfig → SyncTask → Bytes → Bool × Bytes
  unfolding is_large_upload is_large_download
  is_large_task disk c task text = elim task.direction [
    | download ↦ is_large_download disk c task text
    | upload ↦ is_large_upload disk c task text
  ]

  unfoldable pub enqueue : fs.Disk → ℕ → SyncTask → Bytes → SyncManager → Reply
  unfolding admit is_large_task
  enqueue disk now task text m =
      if malformed task
      then refuse m (
          codes "Task requires id, HTTP(S) URL, relative local path, and a valid optional SHA-256.")
      else let (large, text') = is_large_task disk m.config task text in
        if not (is_empty text') then refuse m text' else admit task large now text' m
