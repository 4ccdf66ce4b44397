-- ===== src/Concurrent/Crew/Stranded.antt =====
-- What becomes of a task in net/sync_manager.cpp when no worker thread is left.
use clsync.Base.{ℕ, ◌≡◌, ◌∙◌, ap, sym, Bool, true, List, [], ◌∷◌, ◌++◌, some, arith, inl, inr, ◌⊎◌}
use clsync.Text.{Bytes}
use clsync.Task.{failed, cancelled, SyncConfig, SyncResult}
use clsync.Results.{lookup}
use clsync.Manager.{result, set_result_callback}
use clsync.Manager.Lifecycle.{begin_stop, end_stop}
use clsync.Concurrent.{
  System, Step, enqueues, claims, serves, completes, requeues, launches, begins_stop, ends_stop,
  sets_callback,
}
use clsync.Concurrent.Count.{count, waiting_state, running}
use clsync.Concurrent.Frame.{Step-IsFramed}
use clsync.Concurrent.Invariant.{Inv}
use clsync.Concurrent.Invariant.Steps.{Reach-init-Inv, Step-Inv}
use clsync.Concurrent.Lifecycle.{Move, stays, comes, begins, ends, gives_up}
use clsync.Concurrent.Lifecycle.Refined.{Step-Moved}
use clsync.Concurrent.Lifecycle.Final.{result-final}
use clsync.Concurrent.Crew.{
  Crew, CrewStep, acts, starts_task, leaves, CrewReach, new_crew, IsAllowed, freed,
}
use clsync.Concurrent.Crew.Bound.{Crewed, CrewReach-Crewed, CrewStep-Reach}

-- No worker is left, and the manager has not been stopped.
abbrev pub IsDeserted : Crew → Type 0
IsDeserted w = (w.free ≡ []) × (w.jobs ≡ []) × (w.manager.started ≡ true)

abbrev Waits : Bytes → System → Type 0
Waits id s = (r : SyncResult) × (result id s.manager ≡ some r) × (waiting_state r.state ≡ 1)

-- Over, but not completed.
abbrev IsLost : Bytes → System → Type 0
IsLost id s =
    (r : SyncResult) × (result id s.manager ≡ some r) × ((r.state ≡ failed) ⊎ (r.state ≡ cancelled))

Move-IsLost :
    (n : ℕ) (id : Bytes) (s t : System) (r : SyncResult)
    → lookup id s.results ≡ some r
    → waiting_state r.state ≡ 1
    → running (lookup id t.results) ≡ 0
    → Move n (lookup id s.results) (lookup id t.results)
    → Waits id t ⊎ IsLost id t
unfolding result
Move-IsLost n id s t r known waits idle (stays e) = inl (r, e ∙ known, waits)
Move-IsLost n id s t r known waits idle (comes task old new) = absurd (ground arith)
Move-IsLost n id s t r known waits idle (begins q w l old new) = absurd (ground arith)
Move-IsLost n id s t r known waits idle (ends q state text status w how old new) =
    absurd (ground arith)
Move-IsLost n id s t r known waits idle (gives_up q state text w how old new) = inr (_, new, how)

-- A step that leaves no worker with a task leaves the task waiting or loses it.
Step-IsLost :
    {s t : System} (id : Bytes)
    → Step s t
    → Inv s
    → t.jobs ≡ []
    → Waits id s
    → Waits id t ⊎ IsLost id t
unfolding result count
Step-IsLost {s} {t} id st v empty (r, known, waits) =
    let idle : running (lookup id t.results) ≡ 0 =
      sym ((Step-Inv st v).held id) ∙ ap (count id) empty in
    Move-IsLost s.config.max_retries id s t r known waits idle (Step-Moved id st v)

cons_in_nil {ℓ} : {A : Type ℓ} (before after : List A) (x : A) → before ++ (x ∷ after) ≡ [] → ⊥
cons_in_nil [] after x e = absurd (cc)
cons_in_nil (y ∷ before) after x e = absurd (cc)

-- A stop ends the tasks that wait.
begin_stop-ne-Waits :
    (id : Bytes) (s : System)
    → Inv (record s { manager = begin_stop s.manager })
    → Waits id (record s { manager = begin_stop s.manager })
    → ⊥
unfolding begin_stop result count
begin_stop-ne-Waits id s v (r, known, waits) = ground (arith, v.queued id)

abbrev IsStranded : Bytes → Crew → Type 0
IsStranded id w = (Waits id w.system × IsDeserted w) ⊎ IsLost id w.system

deserted :
    (id : Bytes) (w : Crew)
    → IsDeserted w
    → Waits id w.system ⊎ IsLost id w.system
    → IsStranded id w
deserted id w gone (inl waits) = inl (waits, gone)
deserted id w gone (inr lost) = inr lost

acts-IsStranded :
    (id : Bytes) (free : List Bool) {s t : System} (st : Step s t)
    → IsAllowed free st
    → Inv s
    → Waits id s
    → IsDeserted (record { system = s; free = free })
    → IsStranded id (record { system = t; free = freed st ++ free })
unfolding end_stop set_result_callback result
acts-IsStranded id free {s} {t} (enqueues task large now text) a v waits gone =
    let st : Step s t = enqueues task large now text in
    deserted id (record { system = t; free = free })
      (gone.0, gone.1, (Step-IsFramed {s = s} (enqueues task large now text) tt).2 ∙ gone.2)
      (Step-IsLost id st v gone.1 waits)
acts-IsStranded id free (claims large now item m h) a v waits gone = absurd a
acts-IsStranded id free {s} {t} (serves state) a v waits gone =
    let st : Step s t = serves state in
    deserted id (record { system = t; free = free })
      (gone.0, gone.1, (Step-IsFramed {s = s} (serves state) tt).2 ∙ gone.2)
      (Step-IsLost id st v gone.1 waits)
acts-IsStranded id free (completes before after item state text status m e final h) a v waits gone =
    absurd (cons_in_nil before after item (sym e ∙ gone.1))
acts-IsStranded id free (requeues before after item text status now m e room h) a v waits gone =
    absurd (cons_in_nil before after item (sym e ∙ gone.1))
acts-IsStranded id free (launches h) a v waits gone = absurd (ground arith)
acts-IsStranded id free {s} {t} (begins_stop h) a v waits gone =
    let st : Step s t = begins_stop h in
    elim (Step-IsLost id st v gone.1 waits) [
      | inl still ↦ absurd (begin_stop-ne-Waits id s (Step-Inv st v) still)
      | inr lost ↦ inr lost
    ]
acts-IsStranded id free (ends_stop h) a v waits gone = inl (waits, gone)
acts-IsStranded id free sets_callback a v waits gone = inl (waits, gone)

CrewStep-IsStranded :
    (id : Bytes) (c : SyncConfig) {w v : Crew}
    → CrewStep w v
    → Crewed c w
    → IsStranded id w
    → IsStranded id v
CrewStep-IsStranded id c st made (inr (r, known, over)) =
    inr (r, result-final c id r made.reach (CrewStep-Reach st) known (inr over), over)
CrewStep-IsStranded id c {w} (acts st a) made (inl (waits, gone)) =
    acts-IsStranded id w.free st a (Reach-init-Inv c made.reach) waits gone
CrewStep-IsStranded id c (starts_task before after large now item m e h) made (inl (waits, gone)) =
    absurd (cons_in_nil before after large (sym e ∙ gone.0))
CrewStep-IsStranded id c (leaves before after large now e h) made (inl (waits, gone)) =
    absurd (cons_in_nil before after large (sym e ∙ gone.0))

pub CrewReach-trans : {w v u : Crew} → CrewReach w v → CrewReach v u → CrewReach w u
CrewReach-trans r CrewReach.here = r
CrewReach-trans r (CrewReach.next q st) = CrewReach.next (CrewReach-trans r q) st

CrewReach-IsStranded :
    (id : Bytes) (c : SyncConfig) {w v : Crew}
    → CrewReach (new_crew c) w
    → CrewReach w v
    → IsStranded id w
    → IsStranded id v
CrewReach-IsStranded id c before CrewReach.here lost = lost
CrewReach-IsStranded id c before (CrewReach.next r st) lost =
    CrewStep-IsStranded id c st (CrewReach-Crewed c (CrewReach-trans before r))
      (CrewReach-IsStranded id c before r lost)

-- When no worker is left and the manager has not been stopped, a task that waits is never
-- transferred, whatever the threads and the callers do from then on, also when the service is found
-- well again or the manager is stopped and started: its state stays Pending or Retry, or it is
-- Failed or Cancelled.
pub deserted-never_runs :
    (c : SyncConfig) {w v : Crew} (id : Bytes) (r : SyncResult)
    → CrewReach (new_crew c) w
    → IsDeserted w
    → result id w.manager ≡ some r
    → waiting_state r.state ≡ 1
    → CrewReach w v
    → (r' : SyncResult) × (result id v.manager ≡ some r')
      × ((waiting_state r'.state ≡ 1) ⊎ (r'.state ≡ failed) ⊎ (r'.state ≡ cancelled))
deserted-never_runs c id r before gone known waits after =
    elim (CrewReach-IsStranded id c before after (inl ((r, known, waits), gone))) [
      | inl ((r', known', waits'), gone') ↦ (r', known', inl waits')
      | inr (r', known', over) ↦ (r', known', inr over)
    ]
