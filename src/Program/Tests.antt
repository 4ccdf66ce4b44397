-- ===== src/Program/Tests.antt =====
-- A run of net/sync.cpp with one download, to its end: the theorem at it.
use clsync.Base.{ℕ, ◌≢◌, ◌≡◌, refl, inl, true, false, [], ◌∷◌, some, none, All, List}
use clsync.Text.{Bytes, codes, equal, starts_with, is_space, is_digit}
use clsync.Task.{completed, stopping, connected, SyncConfig, QueueItem, SyncResult}
use clsync.FileSystem.Memory.{plain_fs}
use clsync.FilePath.{of_text, lexically_normal, join, parent_path, has_dot_dot}
use clsync.Resolve.{is_descendant_of, rejected_form}
use clsync.Checks.{is_http_url, valid_checksum}
use clsync.Task.Sample.{fetch}
use clsync.Settings.{Environment}
use clsync.Reborn.Processing.{drained}
use clsync.Reborn.{SocketStat, Socket, new_socket, send_request, process_requests}
use clsync.Command.{read_tokens, enqueue_ipc_command}
use clsync.Command.Numbers.{parse_size}
use clsync.Command.Tokens.{parse_tokens}
use clsync.Manager.{SyncManager, init, set_result_callback, wait_for_idle, results_of}
use clsync.Manager.Service.{set_service_state}
use clsync.Manager.Take.{take_pass, begin_attempt}
use clsync.Manager.Finish.{complete_task}
use clsync.Manager.Lifecycle.{launch, admit, begin_stop, end_stop}
use clsync.Program.Deadlock.{announced-never_exits}
use clsync.Program.{
  joins, Program, reads, stops, processes, exits, startup, runs, default_config, send,
  task_state_name, result_message,
}
use clsync.Program.Run.{
  Runs, here, next, MainStep, works, calls, accepts, starts_waiting, wakes, judges_results,
  announces, begins_stop, says_stopping, joins_threads, answers,
}
use clsync.Program.ExitCode.{exits-IsDone}
use clsync.Program.Reached.{IsDone}
use clsync.Results.{update}
use clsync.Concurrent.{claims, serves, completes}

abbrev no_environment : Environment
no_environment name = none

abbrev arguments : List Bytes
arguments =
    codes "clsync" ∷ codes "/data" ∷ codes "http://h" ∷ codes "DOWNLOAD a http://h/a a 5 -" ∷ []

abbrev sample_config : SyncConfig
sample_config = record default_config { local_root = codes "/data"; health_url = codes "http://h" }

abbrev ready_socket : Socket
unfolding new_socket send_request
ready_socket = send (codes "SYNC READY") (new_socket (some (codes "clsync.sock")) (some 3))

abbrev ready_program : Program
ready_program = record {
  system = record { manager = launch (set_result_callback (init sample_config)); jobs = [] };
  socket = ready_socket;
  due = [];
  locked = false;
  error = [];
  point = reads (codes "DOWNLOAD a http://h/a a 5 -" ∷ []);
}

started : startup (plain_fs 5) tt no_environment (some 3) arguments ≡ runs ready_program
unfolding startup launch set_result_callback init new_socket send_request
started = refl

abbrev queued_program : Program
unfolding init launch set_result_callback admit
queued_program = record ready_program {
  system = record {
    manager = (admit fetch false 0 [] ready_program.system.manager).manager;
    jobs = [];
  };
  point = reads [];
}

accepted : MainStep (plain_fs 5) ready_program queued_program
unfolding init launch set_result_callback admit enqueue_ipc_command of_text lexically_normal
    is_descendant_of join parent_path has_dot_dot rejected_form equal is_http_url valid_checksum
    is_space is_digit parse_tokens read_tokens starts_with parse_size
accepted =
    accepts tt 0 (codes "DOWNLOAD a http://h/a a 5 -") [] fetch
      (record { manager = queued_program.system.manager; accepted = true; error = [] }) refl refl
      refl refl

abbrev fetch_item : QueueItem
fetch_item = record { id = codes "a"; large = false; ready_at = 0 }

abbrev fetched : SyncResult
fetched = record { task = fetch; state = completed; attempts = 1; http_status = 200; error = [] }

-- The manager when a worker has taken the task, and when it has completed it.
abbrev busy_manager : SyncManager
unfolding set_service_state
busy_manager = record (set_service_state connected queued_program.system.manager) {
  small_queue = [];
  results = update (codes "a") begin_attempt queued_program.system.results;
  active_tasks = 1;
}

abbrev idle_manager : SyncManager
idle_manager = record busy_manager {
  results = (codes "a", fetched) ∷ [];
  active_tasks = 0;
  delivered = fetched ∷ [];
}

-- The manager connects, a worker takes the task, completes it and calls the callback.
abbrev fetched_program : Program
unfolding send_request task_state_name
fetched_program = record queued_program {
  system = record { manager = idle_manager; jobs = [] };
  socket = send (result_message fetched) queued_program.socket;
}

work : Runs (plain_fs 5) ready_program fetched_program
unfolding init launch set_result_callback admit enqueue_ipc_command set_service_state take_pass
    complete_task update equal fetched_program
work =
    next
      (next
        (next (next (next here accepted) (works (serves connected) [] tt refl))
          (works (claims false 0 fetch_item busy_manager refl) [] tt refl))
        (works (completes [] [] fetch_item completed [] 200 idle_manager refl (inl refl) refl)
          (fetched ∷ []) tt refl))
      (calls [] [] fetched refl refl)

-- main finds it done, says so, stops the manager and exits.
abbrev announced_program : Program
unfolding send_request
announced_program = record fetched_program {
  socket = send (codes "SYNC COMPLETED") fetched_program.socket;
  locked = true;
  point = stops (processes true);
}

announced : Runs (plain_fs 5) ready_program announced_program
unfolding init launch set_result_callback admit set_service_state wait_for_idle results_of
    send_request fetched_program
announced =
    next
      (next (next (next work (starts_waiting refl)) (wakes true refl refl))
        (judges_results true refl))
      (announces true refl refl)

abbrev ended_program : Program
unfolding begin_stop end_stop set_service_state drained
ended_program = record announced_program {
  system = record {
    manager = end_stop (set_service_state stopping (begin_stop idle_manager));
    jobs = [];
  };
  socket = drained announced_program.socket;
  locked = false;
  point = exits 0;
}

ended : Runs (plain_fs 5) ready_program ended_program
unfolding init launch set_result_callback admit set_service_state begin_stop end_stop new_socket
    send_request process_requests drained fetched_program result_message
ended =
    next
      (next
        (next (next announced (begins_stop (processes true) refl refl))
          (says_stopping (processes true) refl))
        (joins_threads (processes true) refl refl refl))
      (answers true 9 SocketStat.ok (drained announced_program.socket) refl refl)

exits-IsDone_example : All (IsDone ended_program.system) (codes "DOWNLOAD a http://h/a a 5 -" ∷ [])
unfolding ended_program
exits-IsDone_example =
    exits-IsDone (plain_fs 5) tt no_environment (some 3) arguments started ended refl

-- The task is completed, but main is quicker than the worker's call of the callback: it finds the
-- work done, locks `ipc_mutex`, says so and stops the manager.
abbrev closing_program : Program
unfolding send_request
closing_program = record queued_program {
  system = record { manager = idle_manager; jobs = [] };
  socket = send (codes "SYNC COMPLETED") queued_program.socket;
  due = fetched ∷ [];
  locked = true;
  point = stops (processes true);
}

closing : Runs (plain_fs 5) ready_program closing_program
unfolding init launch set_result_callback admit enqueue_ipc_command set_service_state take_pass
    complete_task update equal send_request wait_for_idle results_of
closing =
    next
      (next
        (next
          (next
            (next
              (next (next (next here accepted) (works (serves connected) [] tt refl))
                (works (claims false 0 fetch_item busy_manager refl) [] tt refl))
              (works (completes [] [] fetch_item completed [] 200 idle_manager refl (inl refl) refl)
                (fetched ∷ []) tt refl))
            (starts_waiting refl))
          (wakes true refl refl))
        (judges_results true refl))
      (announces true refl refl)

-- It waits for the worker.
abbrev stuck_program : Program
unfolding set_service_state begin_stop
stuck_program = record closing_program {
  system = record { manager = set_service_state stopping (begin_stop idle_manager); jobs = [] };
  point = joins (processes true);
}

stuck : Runs (plain_fs 5) closing_program stuck_program
unfolding set_service_state begin_stop init launch set_result_callback admit closing_program
stuck =
    next (next here (begins_stop (processes true) refl refl)) (says_stopping (processes true) refl)

announced-never_exits_example :
    ((code : ℕ) → stuck_program.point ≢ exits code) × (stuck_program.due ≢ [])
unfolding init launch set_result_callback admit set_service_state closing_program stuck_program
announced-never_exits_example =
    announced-never_exits (plain_fs 5) tt no_environment (some 3) arguments true started closing
      refl refl (λ e. absurd cc) stuck
