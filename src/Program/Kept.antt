-- ===== src/Program/Kept.antt =====
-- What the steps of net/sync.cpp keep: they are steps of SyncManager, so each stored task keeps its
-- result's task for good, and its result once it is over.
use clsync.Base.{
  ℕ, ◌≡◌, refl, sym, ap, ◌∙◌, Bool, true, false, not, Option, some, arith, inl, inr, ◌⊎◌, is_empty,
  if◌then◌else◌,
}
use clsync.Text.{Bytes, equal_iff}
use clsync.Task.{stopping, SyncTask, SyncConfig, SyncResult}
use clsync.FileSystem.{FileSystem}
use clsync.Results.{lookup-emplace}
use clsync.Command.{Request, asks, read_tokens, answer, enqueue_ipc_command}
use clsync.Command.Tokens.{parse_tokens}
use clsync.Manager.{SyncManager, result}
use clsync.Manager.Lifecycle.{Reply, admit, enqueue, is_large_task, malformed, new_result}
use clsync.Concurrent.{
  System, Step, enqueues, claims, serves, completes, requeues, ends_stop, Reach, here, next,
}
use clsync.Concurrent.Frame.{IsService}
use clsync.Concurrent.Invariant.Steps.{initial}
use clsync.Concurrent.Lifecycle.{Move, stays, comes, begins, ends, gives_up, Moves}
use clsync.Concurrent.Lifecycle.Final.{result-Moves}
use clsync.Program.{Program}
use clsync.Program.Run.{
  IsWork, MainStep, works, calls, accepts, commands_stop, refuses, reports_error, skips_stop,
  begins_stop, says_stopping, joins_threads, starts_waiting, wakes, times_out, judges_results,
  announces, answers,
}

Move-task :
    (n : ℕ) (old new : Option SyncResult) (r : SyncResult)
    → Move n old new
    → old ≡ some r
    → (r' : SyncResult) × (new ≡ some r') × (r'.task ≡ r.task)
Move-task n old new r (stays e) h = (r, ground arith, refl)
Move-task n old new r (comes task e e') h = absurd (ground arith)
Move-task n old new r (begins q w l e e') h = (_, e', ground arith)
Move-task n old new r (ends q state text status w l e e') h = (_, e', ground arith)
Move-task n old new r (gives_up q state text w l e e') h = (_, e', ground arith)

Moves-task :
    (n : ℕ) (old : Option SyncResult) {new : Option SyncResult} (r : SyncResult)
    → Moves n old new
    → old ≡ some r
    → (r' : SyncResult) × (new ≡ some r') × (r'.task ≡ r.task)
Moves-task n old r Moves.here h = (r, h, refl)
Moves-task n old {new} r (Moves.next {mid} ms m) h =
    let (q, known, same) = Moves-task n old r ms h in
    let (q', known', same') = Move-task n mid new q m known in (q', known', same' ∙ same)

-- A task that is known stays known, whatever the threads do.
pub result-task :
    (c : SyncConfig) {s t : System} (id : Bytes) (r : SyncResult)
    → Reach (initial c) s
    → Reach s t
    → result id s.manager ≡ some r
    → (r' : SyncResult) × (result id t.manager ≡ some r') × (r'.task ≡ r.task)
result-task c id r before after known =
    Moves-task c.max_retries _ r (result-Moves c id before after) known

pub IsWork-IsService : {s t : System} (st : Step s t) → IsWork st → IsService st
IsWork-IsService (claims large now item m h) w = tt
IsWork-IsService (serves state) w = tt
IsWork-IsService (completes before after item state text status m e final h) w = tt
IsWork-IsService (requeues before after item text status now m e room h) w = tt
IsWork-IsService (Step.enqueues task large now text) w = absurd w
IsWork-IsService (Step.launches h) w = absurd w
IsWork-IsService (Step.begins_stop h) w = absurd w
IsWork-IsService (Step.ends_stop h) w = absurd w
IsWork-IsService Step.sets_callback w = absurd w

-- What an accepted task leaves: its own new result.
pub admit-accepted :
    (task : SyncTask) (large : Bool) (now : ℕ) (text : Bytes) (m : SyncManager)
    → (admit task large now text m).accepted ≡ true
    → result task.id (admit task large now text m).manager ≡ some (new_result task)
unfolding admit result
admit-accepted task true now text m h =
    ground
      (arith, lookup-emplace task.id task.id (new_result task) m.results, equal_iff task.id task.id)
admit-accepted task false now text m h =
    ground
      (arith, lookup-emplace task.id task.id (new_result task) m.results, equal_iff task.id task.id)

admit-refused :
    (task : SyncTask) (large : Bool) (now : ℕ) (text : Bytes) (m : SyncManager)
    → (admit task large now text m).accepted ≡ false
    → (admit task large now text m).manager ≡ m
unfolding admit
admit-refused task true now text m h = ground arith
admit-refused task false now text m h = ground arith

-- A reply that leaves the manager alone and refuses, or that of the locked part.
abbrev Admits : SyncTask → ℕ → SyncManager → Reply → Type 0
Admits task now m reply =
    ((reply.accepted ≡ false) × (reply.manager ≡ m))
    ⊎ ((large : Bool) × (text : Bytes) × (reply ≡ admit task large now text m))

Admits-if :
    (task : SyncTask) (now : ℕ) (m : SyncManager) (b : Bool) (text : Bytes) (reply : Reply)
    → Admits task now m reply
    → Admits task now m
        (if b then record { manager = m; accepted = false; error = text } else reply)
Admits-if task now m true text reply h = inl (refl, refl)
Admits-if task now m false text reply h = h

enqueue-Admits :
    (fs : FileSystem) (disk : fs.Disk) (now : ℕ) (task : SyncTask) (text : Bytes) (m : SyncManager)
    → Admits task now m (enqueue fs disk now task text m)
unfolding enqueue
enqueue-Admits fs disk now task text m =
    let sized = is_large_task fs disk m.config task text in
    Admits-if task now m (malformed task) _ _
      (Admits-if task now m (not (is_empty sized.1)) sized.1 _ (inr (sized.0, sized.1, refl)))

-- An accepted task went through the locked part of `enqueue`.
pub enqueue-accepted :
    (fs : FileSystem) (disk : fs.Disk) (now : ℕ) (command : Bytes) (task : SyncTask) (text : Bytes)
    (m : SyncManager) (reply : Reply)
    → read_tokens (parse_tokens command) ≡ asks task
    → enqueue_ipc_command fs disk now command text m ≡ reply
    → reply.accepted ≡ true
    → (large : Bool) × (text' : Bytes) × (reply ≡ admit task large now text' m)
unfolding enqueue_ipc_command answer
enqueue-accepted fs disk now command task text m reply asked e h =
    let same : enqueue fs disk now task text m ≡ reply = ground arith in
    elim (enqueue-Admits fs disk now task text m) [
      | inl bad ↦ absurd (ground arith)
      | inr (large, text', made) ↦ (large, text', sym same ∙ made)
    ]

Request-refused :
    (fs : FileSystem) (disk : fs.Disk) (now : ℕ) (request : Request) (text : Bytes)
    (m : SyncManager)
    → (answer fs disk now request text m).accepted ≡ false
    → (answer fs disk now request text m).manager ≡ m
unfolding answer
Request-refused fs disk now Request.stops text m h = absurd (ground arith)
Request-refused fs disk now (Request.invalid message) text m h = refl
Request-refused fs disk now (asks task) text m h = elim (enqueue-Admits fs disk now task text m) [
  | inl bad ↦ bad.1
  | inr (large, text', made) ↦
      rw made (admit-refused task large now text' m (ap (λ r. r.accepted) (sym made) ∙ h))
]

-- A command that is refused changes nothing.
pub refused-same :
    (fs : FileSystem) (disk : fs.Disk) (now : ℕ) (command text : Bytes) (m : SyncManager)
    (reply : Reply)
    → enqueue_ipc_command fs disk now command text m ≡ reply
    → reply.accepted ≡ false
    → reply.manager ≡ m
unfolding enqueue_ipc_command
refused-same fs disk now command text m reply e h =
    ap (λ r. r.manager) (sym e)
    ∙ Request-refused fs disk now (read_tokens (parse_tokens command)) text m
        (ap (λ r. r.accepted) e ∙ h)

-- Each step of main and of the threads beside it is a step of SyncManager or leaves it alone.
pub MainStep-Reach : {fs : FileSystem} {p q : Program} → MainStep fs p q → Reach p.system q.system
MainStep-Reach (works st results w d) = next here st
MainStep-Reach (calls before after r e l) = here
MainStep-Reach {fs} {p} (accepts disk now command rest task reply e asked called granted) =
    let (large, text, made) =
      enqueue-accepted fs disk now command task p.error p.system.manager reply asked called
        granted in
    rw made (next here (enqueues task large now text))
MainStep-Reach (commands_stop command rest e asked) = here
MainStep-Reach {fs} {p} (refuses disk now command rest reply e called denied) =
    rw (refused-same fs disk now command p.error p.system.manager reply called denied) here
MainStep-Reach (reports_error fuel stat socket e l done) = here
MainStep-Reach (skips_stop to e s) = here
MainStep-Reach (begins_stop to e s) = next here (Step.begins_stop s)
MainStep-Reach (says_stopping to e) = next here (serves stopping)
MainStep-Reach (joins_threads to e j d) = next here (ends_stop j)
MainStep-Reach (starts_waiting e) = here
MainStep-Reach (wakes idle e w) = here
MainStep-Reach (times_out e) = here
MainStep-Reach (judges_results idle e) = here
MainStep-Reach (announces succeeded e l) = here
MainStep-Reach (answers succeeded fuel stat socket e done) = here
