-- ===== src/Program/Reached.antt =====
-- What main of net/sync.cpp has reached at each of its places, and that the threads beside it take
-- nothing from it.
use clsync.Base.{◌≡◌, ◌∙◌, true, false, ◌++◌, ◌∷◌, List, [], some, inl, inr, ◌⊎◌, All}
use clsync.Text.{Bytes}
use clsync.Task.{completed, SyncTask, SyncConfig, SyncResult}
use clsync.Command.{asks, read_tokens}
use clsync.Command.Tokens.{parse_tokens}
use clsync.Manager.{result}
use clsync.Concurrent.{System, Reach}
use clsync.Concurrent.Invariant.Steps.{initial}
use clsync.Concurrent.Lifecycle.Final.{result-final}
use clsync.Program.{
  Point, reads, stops, sets_stopping, joins, waits, denies, judges, ends, processes, exits,
}
use clsync.Program.Kept.{result-task}

-- The command asks for a task, and the manager has that task under its id.
abbrev pub IsKnown : System → Bytes → Type 0
IsKnown s command =
    (task : SyncTask) × (r : SyncResult) × (read_tokens (parse_tokens command) ≡ asks task)
    × (result task.id s.manager ≡ some r)
    × (r.task ≡ task)

-- The command asks for a task, and the manager has completed that very task.
abbrev pub IsDone : System → Bytes → Type 0
IsDone s command =
    (task : SyncTask) × (r : SyncResult) × (read_tokens (parse_tokens command) ≡ asks task)
    × (result task.id s.manager ≡ some r)
    × (r.task ≡ task)
    × (r.state ≡ completed)

-- What main has reached behind `stop()`.
abbrev pub After : List Bytes → System → Point → Type 0
After commands s (reads rest) = Unit
After commands s (processes succeeded) = succeeded ≡ true → All (IsDone s) commands
After commands s (exits code) = code ≡ 0 → All (IsDone s) commands
After commands s _ = ⊥

-- What main has reached, at each of its places. A manager that was stopped never comes back.
abbrev pub Reached : List Bytes → System → Point → Type 0
Reached commands s (reads rest) =
    (s.manager.started ≡ false)
    ⊎ ((read : List Bytes) × (commands ≡ read ++ rest) × All (IsKnown s) read)
Reached commands s denies = Unit
Reached commands s (stops to) = After commands s to
Reached commands s (sets_stopping to) = (s.manager.started ≡ false) × After commands s to
Reached commands s (joins to) = (s.manager.started ≡ false) × After commands s to
Reached commands s waits = (s.manager.started ≡ false) ⊎ All (IsKnown s) commands
Reached commands s (judges idle) = idle ≡ true → All (IsKnown s) commands
Reached commands s (ends succeeded) = succeeded ≡ true → All (IsDone s) commands
Reached commands s (processes succeeded) = succeeded ≡ true → All (IsDone s) commands
Reached commands s (exits code) = code ≡ 0 → All (IsDone s) commands

module _ (c : SyncConfig) {s t : System} (before : Reach (initial c) s) (after : Reach s t) where
  pub IsKnown-kept : (commands : List Bytes) → All (IsKnown s) commands → All (IsKnown t) commands
  IsKnown-kept [] a = tt
  IsKnown-kept (command ∷ commands) ((task, r, asked, known, same), a) =
      let (r', known', same') = result-task c task.id r before after known in
      ((task, r', asked, known', same' ∙ same), IsKnown-kept commands a)

  pub IsDone-kept : (commands : List Bytes) → All (IsDone s) commands → All (IsDone t) commands
  IsDone-kept [] a = tt
  IsDone-kept (command ∷ commands) ((task, r, asked, known, same, done), a) =
      let known' = result-final c task.id r before after known (inl done) in
      ((task, r, asked, known', same, done), IsDone-kept commands a)

  pub After-kept : (commands : List Bytes) (p : Point) → After commands s p → After commands t p
  After-kept commands (reads rest) a = tt
  After-kept commands (processes succeeded) a = λ h. IsDone-kept commands (a h)
  After-kept commands (exits code) a = λ h. IsDone-kept commands (a h)
  After-kept commands waits a = a
  After-kept commands denies a = a
  After-kept commands (stops to) a = a
  After-kept commands (sets_stopping to) a = a
  After-kept commands (joins to) a = a
  After-kept commands (judges idle) a = a
  After-kept commands (ends succeeded) a = a

  -- Work of the threads takes nothing from what main has reached.
  pub Reached-kept :
      (commands : List Bytes) (p : Point)
      → t.manager.started ≡ s.manager.started
      → Reached commands s p
      → Reached commands t p
  Reached-kept commands (reads rest) same (inl over) = inl (same ∙ over)
  Reached-kept commands (reads rest) same (inr (read, split, known)) =
      inr (read, split, IsKnown-kept read known)
  Reached-kept commands denies same a = tt
  Reached-kept commands (stops to) same a = After-kept commands to a
  Reached-kept commands (sets_stopping to) same (over, a) = (same ∙ over, After-kept commands to a)
  Reached-kept commands (joins to) same (over, a) = (same ∙ over, After-kept commands to a)
  Reached-kept commands waits same (inl over) = inl (same ∙ over)
  Reached-kept commands waits same (inr known) = inr (IsKnown-kept commands known)
  Reached-kept commands (judges idle) same a = λ h. IsKnown-kept commands (a h)
  Reached-kept commands (ends succeeded) same a = λ h. IsDone-kept commands (a h)
  Reached-kept commands (processes succeeded) same a = λ h. IsDone-kept commands (a h)
  Reached-kept commands (exits code) same a = λ h. IsDone-kept commands (a h)

-- Behind `stop()` main has what it had before.
pub After-Reached :
    (commands : List Bytes) (s : System) (p : Point)
    → s.manager.started ≡ false
    → After commands s p
    → Reached commands s p
After-Reached commands s (reads rest) over a = inl over
After-Reached commands s (processes succeeded) over a = a
After-Reached commands s (exits code) over a = a
After-Reached commands s waits over a = absurd a
After-Reached commands s denies over a = absurd a
After-Reached commands s (stops to) over a = absurd a
After-Reached commands s (sets_stopping to) over a = absurd a
After-Reached commands s (joins to) over a = absurd a
After-Reached commands s (judges idle) over a = absurd a
After-Reached commands s (ends succeeded) over a = absurd a
