-- ===== src/Concurrent/Invariant.antt =====
-- The invariant of the state that the threads of net/sync_manager.cpp share, and that every step
-- keeps it.
pub mod Admit
pub mod Claim
pub mod Finish
pub mod Service
pub mod Steps
use clsync.Base.{ℕ, ◌+◌, ◌≤◌, ◌≡◌, true, false, List, length, All}
use clsync.Text.{Bytes}
use clsync.Task.{QueueItem}
use clsync.Results.{Results, lookup}
use clsync.Concurrent.{System, attempts_of}
use clsync.Concurrent.Count.{count, waiting, running}

abbrev pub Small : QueueItem → Type 0
Small item = item.large ≡ false

abbrev pub Large : QueueItem → Type 0
Large item = item.large ≡ true

pub record Consistent (max_retries : ℕ) (small large : List QueueItem) (results : Results)
    (active_tasks : ℕ) (jobs : List QueueItem) : Type 0 where
  -- A task is in the queues, once, exactly while its state is Pending or Retry.
  pub queued : (id : Bytes) → count id small + count id large ≡ waiting (lookup id results)
  -- A worker holds a task, and one worker only, exactly while its state is InProgress.
  pub held : (id : Bytes) → count id jobs ≡ running (lookup id results)
  pub active : active_tasks ≡ length jobs
  pub small_items : All Small small
  pub large_items : All Large large
  -- No task is tried more than `max_retries + 1` times, the attempt that it waits for included.
  pub budget :
      (id : Bytes) → attempts_of (lookup id results) + waiting (lookup id results) ≤ max_retries + 1

abbrev pub Inv : System → Type 0
Inv s = Consistent s.config.max_retries s.small_queue s.large_queue s.results s.active_tasks s.jobs
