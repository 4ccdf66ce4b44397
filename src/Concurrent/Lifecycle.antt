-- ===== src/Concurrent/Lifecycle.antt =====
-- The life of one task, as the callers of SyncManager (net/sync_manager.cpp) see it through its
-- stored result, apart from queues, workers and counters.
pub mod Refined
pub mod Final
use clsync.Base.{ℕ, suc, [], ◌≤◌, ◌≡◌, refl, subst, ◌⊎◌, Option, some, none, arith}
use clsync.Text.{Bytes}
use clsync.Task.{
  TaskState, pending, in_progress, retry, completed, failed, cancelled, SyncTask, SyncResult,
}
use clsync.Concurrent.Count.{waiting_state}
use clsync.Concurrent.Idle.{IsOver}

-- What ends or interrupts an attempt; `retry` only while an attempt is left.
abbrev pub Ends : ℕ → ℕ → TaskState → Type 0
Ends max_retries attempts state =
    (state ≡ completed)
    ⊎ (state ≡ failed)
    ⊎ (state ≡ cancelled)
    ⊎ ((state ≡ retry) × (attempts ≤ max_retries))

-- One change of what is stored for a task.
pub data Move (max_retries : ℕ) (old new : Option SyncResult) : Type 0 where
  stays : new ≡ old → Move max_retries old new
  comes :
      (task : SyncTask)
      → old ≡ none
      → new
        ≡ some (record { task = task; state = pending; attempts = 0; http_status = 0; error = [] })
      → Move max_retries old new
  -- An attempt begins; no more than `max_retries` have been made.
  begins :
      (r : SyncResult)
      → waiting_state r.state ≡ 1
      → r.attempts ≤ max_retries
      → old ≡ some r
      → new ≡ some (record r { state = in_progress; attempts = suc r.attempts })
      → Move max_retries old new
  ends :
      (r : SyncResult) (state : TaskState) (text : Bytes) (status : ℕ)
      → r.state ≡ in_progress
      → Ends max_retries r.attempts state
      → old ≡ some r
      → new ≡ some (record r { state = state; error = text; http_status = status })
      → Move max_retries old new
  -- The service is lost, or the manager stops, while the task waits.
  gives_up :
      (r : SyncResult) (state : TaskState) (text : Bytes)
      → waiting_state r.state ≡ 1
      → (state ≡ failed) ⊎ (state ≡ cancelled)
      → old ≡ some r
      → new ≡ some (record r { state = state; error = text })
      → Move max_retries old new

pub data Moves (max_retries : ℕ) (old : Option SyncResult) : Option SyncResult → Type 0 where
  here : Moves max_retries old old
  next :
      {mid new : Option SyncResult}
      → Moves max_retries old mid
      → Move max_retries mid new
      → Moves max_retries old new

Move-over :
    (max_retries : ℕ) (r : SyncResult) (new : Option SyncResult)
    → IsOver r.state
    → Move max_retries (some r) new
    → new ≡ some r
Move-over max_retries r new over (stays e) = e
Move-over max_retries r new over (comes task old e) = absurd (ground arith)
Move-over max_retries r new over (begins q waits left old e) = absurd (ground arith)
Move-over max_retries r new over (ends q state text status runs how old e) = absurd (ground arith)
Move-over max_retries r new over (gives_up q state text waits how old e) = absurd (ground arith)

pub Moves-over :
    (max_retries : ℕ) (r : SyncResult) {new : Option SyncResult}
    → IsOver r.state
    → Moves max_retries (some r) new
    → new ≡ some r
Moves-over max_retries r over here = refl
Moves-over max_retries r {new} over (next {mid} ms m) =
    let same = Moves-over max_retries r over ms in
    Move-over max_retries r new over (subst (λ o. Move max_retries o new) same m)
