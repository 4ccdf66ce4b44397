-- ===== src/Program/Flags.antt =====
-- That main of net/sync.cpp keeps `started_` and `stopping_` of the manager opposite.
use clsync.Base.{ℕ, ◌≡◌, refl, ◌∙◌, ap, sym, true, not, List}
use clsync.Text.{Bytes}
use clsync.Task.{stopping, SyncTask}
use clsync.FileSystem.{FileSystem}
use clsync.Command.{asks, read_tokens, enqueue_ipc_command}
use clsync.Command.Tokens.{parse_tokens}
use clsync.Manager.{SyncManager}
use clsync.Manager.Service.{set_service_state}
use clsync.Manager.Lifecycle.{Reply, begin_stop, end_stop, new_result}
use clsync.Program.{Program}
use clsync.Program.Run.{
  MainStep, works, calls, accepts, commands_stop, refuses, reports_error, skips_stop, begins_stop,
  says_stopping, joins_threads, starts_waiting, wakes, times_out, judges_results, announces,
  answers,
}
use clsync.Concurrent.Frame.{IsFramed, Step-IsFramed, set_service_state-IsFramed, admit-IsFramed}
use clsync.Program.Kept.{IsWork-IsService, enqueue-accepted, admit-accepted, refused-same}
use clsync.Program.Reached.{IsKnown}

-- The manager stops exactly when it is not started.
abbrev pub HasFlags : SyncManager → Type 0
HasFlags m = m.stopping ≡ not m.started

IsFramed-HasFlags : (m m' : SyncManager) → IsFramed m m' → HasFlags m → HasFlags m'
IsFramed-HasFlags m m' k h = k.3 ∙ (h ∙ ap not (sym k.2))

pub accepted_command :
    (fs : FileSystem) (disk : fs.Disk) (now : ℕ) (command : Bytes) (task : SyncTask) (text : Bytes)
    (m : SyncManager) (reply : Reply)
    → read_tokens (parse_tokens command) ≡ asks task
    → enqueue_ipc_command fs disk now command text m ≡ reply
    → reply.accepted ≡ true
    → ((jobs : List _) → IsKnown (record { manager = reply.manager; jobs = jobs }) command)
      × IsFramed m reply.manager
accepted_command fs disk now command task text m reply asked called granted =
    let (large, text', made) =
      enqueue-accepted fs disk now command task text m reply asked called granted in
    let admitted =
      admit-accepted task large now text' m (ap (λ r. r.accepted) (sym made) ∙ granted) in
    rw made (
      (λ jobs. (task, new_result task, asked, admitted, refl)),
      admit-IsFramed task large now text' m,
    )

pub MainStep-HasFlags :
    {fs : FileSystem} {p q : Program}
    → MainStep fs p q
    → HasFlags p.system.manager
    → HasFlags q.system.manager
unfolding begin_stop end_stop
MainStep-HasFlags {fs} {p} (works {t} st results w d) h =
    IsFramed-HasFlags p.system.manager t.manager (Step-IsFramed st (IsWork-IsService st w)) h
MainStep-HasFlags (calls before after r e l) h = h
MainStep-HasFlags {fs} {p} (accepts disk now command rest task reply e asked called granted) h =
    IsFramed-HasFlags p.system.manager reply.manager
      (accepted_command fs disk now command task p.error p.system.manager reply asked called
        granted).1
      h
MainStep-HasFlags (commands_stop command rest e asked) h = h
MainStep-HasFlags {fs} {p} (refuses disk now command rest reply e called denied) h =
    rw (refused-same fs disk now command p.error p.system.manager reply called denied) h
MainStep-HasFlags (reports_error fuel stat socket e l done) h = h
MainStep-HasFlags (skips_stop to e s) h = h
MainStep-HasFlags (begins_stop to e s) h = refl
MainStep-HasFlags {fs} {p} (says_stopping to e) h =
    IsFramed-HasFlags p.system.manager (set_service_state stopping p.system.manager)
      (set_service_state-IsFramed stopping p.system.manager) h
MainStep-HasFlags (joins_threads to e j d) h = h
MainStep-HasFlags (starts_waiting e) h = h
MainStep-HasFlags (wakes idle e w) h = h
MainStep-HasFlags (times_out e) h = h
MainStep-HasFlags (judges_results idle e) h = h
MainStep-HasFlags (announces succeeded e l) h = h
MainStep-HasFlags (answers succeeded fuel stat socket e done) h = h
