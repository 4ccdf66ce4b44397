-- ===== src/Concurrent/Order/Take.antt =====
-- take_task of net/sync_manager.cpp on a state whose `results_` has another order.
use clsync.Base.{
  ℕ, ◌≢◌, sym, ◌∙◌, Bool, true, false, List, arith, Option-cases, inl, inr, if◌then◌else◌, not,
}
use clsync.Task.{QueueItem, error, connected}
use clsync.Results.{lookup}
use clsync.Results.Order.{Perm-lookup, Perm-update, update-IsUnique}
use clsync.Manager.{SyncManager, same_service}
use clsync.Manager.Take.{
  Pass, take_pass, claim, takes, begin_attempt, first_ready, take_found, no_ready, next_ready,
  quits, awaits_service,
}
use clsync.Concurrent.Order.{Alike, alike}

-- The passes end in the same way, and those that take an item in states that are alike.
pub data PassAlike : Pass → Pass → Type 0 where
  same_pass : {p : Pass} → ((item : QueueItem) (m : SyncManager) → p ≢ takes item m) → PassAlike p p
  both_take :
      (item : QueueItem) {m m' : SyncManager}
      → Alike m m'
      → PassAlike (takes item m) (takes item m')

no_ready-ne-takes :
    (q : List QueueItem) (item : QueueItem) (m : SyncManager) → no_ready q ≢ takes item m
no_ready-ne-takes q item m h = elim (Option-cases (next_ready q)) [
  | inl e ↦ ground arith
  | inr (t, e) ↦ ground arith
]

claim-Alike :
    (item : QueueItem) {m m' : SyncManager} → Alike m m' → PassAlike (claim item m) (claim item m')
unfolding claim
claim-Alike item {m} (alike u p d) = elim (Option-cases (lookup item.id m.results)) [
  | inl gone ↦
      rw (gone, sym ((Perm-lookup p u).1 item.id) ∙ gone, claim) (same_pass (λ i k h. ground arith))
  | inr (r, known) ↦
      rw (known, sym ((Perm-lookup p u).1 item.id) ∙ known, claim)
        (both_take item (
          alike (update-IsUnique item.id begin_attempt m.results u)
            (Perm-update item.id begin_attempt p u) d))
]

take_found-Alike :
    (large : Bool) (now : ℕ) {m m' : SyncManager}
    → Alike m m'
    → PassAlike (take_found large now m) (take_found large now m')
take_found-Alike true now {m} (alike u p d) = elim (Option-cases (first_ready now m.large_queue)) [
  | inl e ↦ rw (e, take_found) (same_pass (no_ready-ne-takes _))
  | inr ((item, rest), e) ↦ rw (e, take_found) (claim-Alike item (alike u p d))
]
take_found-Alike false now {m} (alike u p d) = elim (Option-cases (first_ready now m.small_queue)) [
  | inl e ↦ rw (e, take_found) (same_pass (no_ready-ne-takes _))
  | inr ((item, rest), e) ↦ rw (e, take_found) (claim-Alike item (alike u p d))
]

-- Behind tests that read the same on both sides.
gate-PassAlike :
    (stopped hard ill : Bool) {p p' : Pass}
    → PassAlike p p'
    → PassAlike
        (if stopped then quits else if hard then quits else if ill then awaits_service else p)
        (if stopped then quits else if hard then quits else if ill then awaits_service else p')
gate-PassAlike true hard ill same = same_pass (λ i k h. ground arith)
gate-PassAlike false true ill same = same_pass (λ i k h. ground arith)
gate-PassAlike false false true same = same_pass (λ i k h. ground arith)
gate-PassAlike false false false same = same

pub take_pass-Alike :
    (large : Bool) (now : ℕ) {m m' : SyncManager}
    → Alike m m'
    → PassAlike (take_pass large now m) (take_pass large now m')
unfolding take_pass same_service
take_pass-Alike large now {m} (alike u p d) =
    gate-PassAlike m.stopping (same_service m.service_state error)
      (not (same_service m.service_state connected))
      (take_found-Alike large now {m = m} (alike u p d))
