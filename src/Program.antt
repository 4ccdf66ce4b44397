-- ===== src/Program.antt =====
-- The program of net/sync.cpp: how main comes to its loop over the commands, and the messages that
-- its result callback sends. The text that `output` logs is left out. A message goes through
-- `c_str()`; ids come from the arguments of the program and hold no zero byte.
pub mod Run
pub mod Kept
pub mod Reached
pub mod Start
pub mod Flags
pub mod ExitCode
pub mod Deadlock
mod Tests
use clsync.Base.{ℕ, not, List, [], ◌∷◌, ◌++◌, Option, some, none, if◌then◌else◌, Bool, false}
use clsync.Text.{Bytes, codes}
use clsync.Task.{
  TaskState, pending, in_progress, completed, failed, retry, cancelled, SyncConfig, SyncResult,
}
use clsync.FileSystem.{FileSystem, ok, fails}
use clsync.Command.Numbers.Decimal.{decimal}
use clsync.Reborn.{Socket, new_socket, send_request, is_open}
use clsync.Settings.{Environment, load_configuration}
use clsync.Manager.{init, set_result_callback}
use clsync.Manager.Lifecycle.{start}
use clsync.Concurrent.{System}

-- The initial values of the members of SyncConfig, with no root and no health URL yet.
abbrev pub default_config : SyncConfig
default_config = record {
  local_root = [];
  health_url = [];
  user_agent = codes "clsync/1.0";
  large_file_threshold = 8388608;
  small_file_workers = 2;
  large_file_workers = 2;
  max_retries = 3;
  network_timeout_ms = 30000;
  retry_delay = 500;
  monitor_interval = 1000;
}

unfoldable pub task_state_name : TaskState → Bytes
task_state_name pending = codes "PENDING"
task_state_name in_progress = codes "IN_PROGRESS"
task_state_name completed = codes "COMPLETED"
task_state_name failed = codes "FAILED"
task_state_name retry = codes "RETRY"
task_state_name cancelled = codes "CANCELLED"

-- What the result callback sends.
unfoldable pub result_message : SyncResult → Bytes
unfolding task_state_name
result_message r =
    codes "SYNC "
    ++ (r.task.id
        ++ (codes " " ++ (task_state_name r.state ++ (codes " attempts=" ++ decimal r.attempts))))

-- Where main is. `stops p`, `sets_stopping p` and `joins p` are the places in `manager.stop()`,
-- which goes on to `p`: before its lock, before set_service_state, and at the joins. `judges b` is
-- behind wait_for_idle, `denies` is behind a command that is refused, `ends b` before the last lock, with the value of `succeeded`.
pub data Point : Type 0 where
  reads : List Bytes → Point
  stops sets_stopping joins : Point → Point
  waits denies : Point
  judges ends processes : Bool → Point
  exits : ℕ → Point

pub record Program : Type 0 where
  pub system : System
  pub socket : Socket
  -- The calls of the result callback that have not locked `ipc_mutex` yet.
  pub due : List SyncResult
  -- Whether main holds `ipc_mutex` over several steps.
  pub locked : Bool
  pub error : Bytes
  pub point : Point

-- `socket->sendRequest(message)`.
abbrev pub send : Bytes → Socket → Socket
send message socket = (send_request (some message) socket).1

pub data Startup : Type 0 where
  quits : ℕ → Startup
  runs : Program → Startup

abbrev pub socket_path : Option Bytes → Bytes
socket_path none = codes "clsync.sock"
socket_path (some path) = path

-- main behind load_configuration, up to its loop.
unfoldable pub prepare :
    (fs : FileSystem) → fs.Disk → Option Bytes → Option ℕ → List Bytes → SyncConfig → Startup
unfolding new_socket send_request init set_result_callback start
prepare fs disk path fd commands config =
    let socket = new_socket (some (socket_path path)) fd in
    let started = (start fs disk [] (set_result_callback (init config))).1 in
    if not (is_open socket)
    then quits 1
    else if not started.accepted
    then quits 1
    else runs (record {
      system = record { manager = started.manager; jobs = [] };
      socket = send (codes "SYNC READY") socket;
      due = [];
      locked = false;
      error = started.error;
      point = reads commands;
    })

-- main up to its loop, over the arguments, the program's name among them. `fd` is what `::socket`
-- gives.
unfoldable pub startup : (fs : FileSystem) → fs.Disk → Environment → Option ℕ → List Bytes → Startup
unfolding load_configuration prepare
startup fs disk env fd (name ∷ root ∷ url ∷ command ∷ commands) =
    elim (load_configuration env (record default_config { local_root = root; health_url = url })) [
      | fails message ↦ quits 2
      | ok config ↦
          prepare fs disk (env (codes "CLSYNC_SOCKET_PATH")) fd (command ∷ commands) config
    ]
startup fs disk env fd _ = quits 2
