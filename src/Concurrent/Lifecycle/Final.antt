-- ===== src/Concurrent/Lifecycle/Final.antt =====
-- What the life of a task in SyncManager (net/sync_manager.cpp) means for its callers.
use clsync.Base.{◌≡◌, refl, sym, ◌∙◌, some, subst}
use clsync.Text.{Bytes}
use clsync.Task.{SyncConfig, SyncResult}
use clsync.Manager.{init, set_result_callback, result}
use clsync.Manager.Lifecycle.{launch, begin_stop, end_stop}
use clsync.Concurrent.{
  System, Step, enqueues, claims, serves, completes, requeues, launches, begins_stop, ends_stop,
  sets_callback, Reach,
}
use clsync.Concurrent.Frame.{Step-IsFramed}
use clsync.Concurrent.Invariant.{Inv}
use clsync.Concurrent.Invariant.Steps.{initial, Reach-init-Inv, Reach-Inv}
use clsync.Concurrent.Idle.{IsOver}
use clsync.Concurrent.Lifecycle.{Moves, Moves-over}
use clsync.Concurrent.Lifecycle.Refined.{Step-Moved}

Step-config : {s t : System} (st : Step s t) → t.config ≡ s.config
unfolding launch begin_stop end_stop set_result_callback
Step-config {s} (enqueues task large now text) =
    (Step-IsFramed {s = s} (enqueues task large now text) tt).0
Step-config {s} (claims large now item m h) =
    (Step-IsFramed {s = s} (claims large now item m h) tt).0
Step-config {s} (serves state) = (Step-IsFramed {s = s} (serves state) tt).0
Step-config {s} (completes before after item state text status m e final h) =
    (Step-IsFramed {s = s} (completes before after item state text status m e final h) tt).0
Step-config {s} (requeues before after item text status now m e room h) =
    (Step-IsFramed {s = s} (requeues before after item text status now m e room h) tt).0
Step-config (launches h) = refl
Step-config (begins_stop h) = refl
Step-config (ends_stop h) = refl
Step-config sets_callback = refl

pub Reach-config : {s t : System} → Reach s t → t.config ≡ s.config
Reach-config Reach.here = refl
Reach-config (Reach.next r st) = Step-config st ∙ Reach-config r

Reach-Moves :
    {s t : System} (id : Bytes)
    → Inv s
    → Reach s t
    → Moves s.config.max_retries (result id s.manager) (result id t.manager)
unfolding result
Reach-Moves id v Reach.here = Moves.here
Reach-Moves {s} id v (Reach.next r st) =
    Moves.next (Reach-Moves id v r) (rw (sym (Reach-config r)) (Step-Moved id st (Reach-Inv v r)))

-- Whatever the threads do from a reachable state on, the stored result of a task only goes through
-- its life: it comes as Pending with no attempt; an attempt begins from Pending or Retry, and only
-- while no more than `max_retries` were made; it ends as Completed, Failed, Cancelled or, while an
-- attempt is left, Retry; and a task that waits may become Failed or Cancelled.
pub result-Moves :
    (c : SyncConfig) {s t : System} (id : Bytes)
    → Reach (initial c) s
    → Reach s t
    → Moves c.max_retries (result id s.manager) (result id t.manager)
unfolding init
result-Moves c {s} {t} id before after =
    subst (λ (k : SyncConfig). Moves k.max_retries (result id s.manager) (result id t.manager))
      (Reach-config before) (Reach-Moves id (Reach-init-Inv c before) after)

-- A result that says Completed, Failed or Cancelled is final: whatever the threads do afterwards,
-- a stop and a new start included, `result` gives the same attempts, status and error text.
pub result-final :
    (c : SyncConfig) {s t : System} (id : Bytes) (r : SyncResult)
    → Reach (initial c) s
    → Reach s t
    → result id s.manager ≡ some r
    → IsOver r.state
    → result id t.manager ≡ some r
result-final c {s} {t} id r before after known over = Moves-over c.max_retries r over (
    subst (λ o. Moves c.max_retries o (result id t.manager)) known (result-Moves c id before after))
