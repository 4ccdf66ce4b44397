-- ===== src/Concurrent/Tally/Bound.antt =====
-- That the work of a run of net/sync_manager.cpp is bounded.
use clsync.Base.{ℕ, ◌≤◌, ◌≡◌, All, length}
use clsync.Results.{Results}
use clsync.Concurrent.{System, Reach}
use clsync.Concurrent.Tally.{total, Tried, Grows, taken_in, offered_in}

-- A step stores no more new tasks than it was offered.
abbrev Counted : ℕ → ℕ → ℕ → Results → Results → Type 0
Counted n d offers old new = (k : ℕ) × (k ≤ offers) × Grows n d k old new

-- What a run from the new manager has done to the results.
record Tallied (n : ℕ) {s t : System} (run : Reach s t) : Type 0 where
  attempts : total t.results ≡ taken_in run
  tasks : length t.results ≤ offered_in run
  tried : All (Tried n) t.results
