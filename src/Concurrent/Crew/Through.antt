-- ===== src/Concurrent/Crew/Through.antt =====
-- Runs of the threads of net/sync_manager.cpp that take certain steps only.
use clsync.Base.{◌≡◌, true, false}
use clsync.Task.{completed, connected}
use clsync.Concurrent.{System, Step, completes, serves, ends_stop}
use clsync.Concurrent.Crew.{Crew, CrewStep, acts, starts_task, leaves, CrewReach}

module _ (P : (w v : Crew) → CrewStep w v → Type 0) where
  -- A run each step of which is one of `P`.
  pub data Through (w : Crew) : Crew → Type 0 where
    rests : Through w w
    goes : {v u : Crew} → Through w v → (st : CrewStep v u) → P v u st → Through w u

  pub Through-trans : {w v u : Crew} → Through w v → Through v u → Through w u
  Through-trans run rests = run
  Through-trans run (goes more st fits) = goes (Through-trans run more) st fits

  pub Through-CrewReach : {w v : Crew} → Through w v → CrewReach w v
  Through-CrewReach rests = CrewReach.here
  Through-CrewReach (goes run st fits) = CrewReach.next (Through-CrewReach run) st

-- A worker completes its task, or the monitor, which runs from `start` to `stop`, finds the service
-- well.
abbrev pub IsFruitful : {s t : System} → Step s t → Type 0
IsFruitful (completes before after item state text status m e final h) = state ≡ completed
IsFruitful {s} (serves state) =
    (state ≡ connected) × (s.manager.started ≡ true) × (s.manager.stopping ≡ false)
IsFruitful _ = ⊥

-- A worker takes a task or completes it, or the service is found well: nothing is stopped, started,
-- enqueued or given up.
abbrev pub IsUseful : (w v : Crew) → CrewStep w v → Type 0
IsUseful w v (acts st a) = IsFruitful st
IsUseful w v (starts_task before after large now item m e h) = Unit
IsUseful w v (leaves before after large now e h) = ⊥

-- A worker is done with its task, or `stop` has joined the threads.
abbrev pub IsEnding : {s t : System} → Step s t → Type 0
IsEnding (completes before after item state text status m e final h) = Unit
IsEnding (ends_stop h) = Unit
IsEnding _ = ⊥

-- Nothing but what is left to do once `stop` has begun: a worker is done with its task or ends, or
-- the joins return.
abbrev pub IsLeaving : (w v : Crew) → CrewStep w v → Type 0
IsLeaving w v (acts st a) = IsEnding st
IsLeaving w v (starts_task before after large now item m e h) = ⊥
IsLeaving w v (leaves before after large now e h) = Unit
