-- ===== src/Command.antt =====
-- `enqueue_ipc_command` of net/sync_manager.cpp.
pub mod Tokens
pub mod Numbers
pub mod RoundTrip
mod Tests
use clsync.Base.{
  ℕ, Bool, true, false, ◌||◌, List, [], ◌∷◌, Option, some, none, if◌then◌else◌, is_empty,
}
use clsync.Text.{Bytes, codes, equal}
use clsync.Task.{download, upload, SyncTask}
use clsync.FileSystem.{FileSystem}
use clsync.Manager.{SyncManager}
use clsync.Manager.Lifecycle.{Reply, enqueue, stop}
use Tokens.{parse_tokens}
use Numbers.{parse_size}

-- What the tokens of a command ask for, or the text that `error` gets.
pub data Request : Type 0 where
  stops : Request
  asks : SyncTask → Request
  invalid : Bytes → Request

abbrev pub malformed_command : Request
malformed_command = invalid (codes "Malformed IPC command.")

-- "-" and the empty text stand for a field that is left out.
abbrev pub left_out : Bytes → Bool
left_out field = equal field (codes "-") || is_empty field

abbrev pub download_task : Bytes → Bytes → Bytes → Option ℕ → Bytes → SyncTask
download_task id url path size sha256 = record {
  id = id;
  direction = download;
  url = url;
  local_path = path;
  validation = record {
    expected_size = size;
    expected_sha256 = if left_out sha256 then [] else sha256;
  };
}

abbrev pub upload_task : Bytes → Bytes → Bytes → SyncTask
upload_task id url path = record {
  id = id;
  direction = upload;
  url = url;
  local_path = path;
  validation = record { expected_size = none; expected_sha256 = [] };
}

-- The tokens behind DOWNLOAD.
read_download : List Bytes → Request
read_download (id ∷ url ∷ path ∷ size ∷ sha256 ∷ []) =
    if left_out size then asks (download_task id url path none sha256) else elim (parse_size size) [
      | none ↦ invalid (codes "Invalid expected size.")
      | some n ↦ asks (download_task id url path (some n) sha256)
    ]
read_download _ = malformed_command

-- The tokens behind UPLOAD.
read_upload : List Bytes → Request
read_upload (id ∷ url ∷ path ∷ []) = asks (upload_task id url path)
read_upload _ = malformed_command

unfoldable pub read_tokens : List Bytes → Request
unfolding read_download read_upload
read_tokens [] = invalid (codes "Empty IPC command.")
read_tokens (operation ∷ fields) =
    if equal operation (codes "STOP")
    then (if is_empty fields then stops else malformed_command)
    else if equal operation (codes "DOWNLOAD")
    then read_download fields
    else if equal operation (codes "UPLOAD")
    then read_upload fields
    else invalid (codes "Unsupported IPC command.")

-- The reply to a request; `text` is what the caller's `error` holds before the call.
unfoldable pub answer : (fs : FileSystem) → fs.Disk → ℕ → Request → Bytes → SyncManager → Reply
unfolding stop enqueue
answer fs disk now stops text m = record { manager = stop m; accepted = true; error = text }
answer fs disk now (asks task) text m = enqueue fs disk now task text m
answer fs disk now (invalid message) text m = record {
  manager = m;
  accepted = false;
  error = message;
}

unfoldable pub enqueue_ipc_command :
    (fs : FileSystem) → fs.Disk → ℕ → Bytes → Bytes → SyncManager → Reply
unfolding answer parse_tokens read_tokens
enqueue_ipc_command fs disk now command text m =
    answer fs disk now (read_tokens (parse_tokens command)) text m
