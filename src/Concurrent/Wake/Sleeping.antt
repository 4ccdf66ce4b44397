-- ===== src/Concurrent/Wake/Sleeping.antt =====
-- When the workers of net/sync_manager.cpp go to sleep in take_task.
use clsync.Base.{
  ℕ, ◌≤◌, ◌≡◌, ◌≢◌, refl, inl, inr, Bool, true, false, List, [], ◌∷◌, some, none, arith, is_empty,
  Option-cases,
}
use clsync.Task.{QueueItem}
use clsync.Results.{lookup}
use clsync.Manager.{SyncManager, queue_of, with_queue}
use clsync.Manager.Take.{
  Pass, take_pass, first_ready, next_ready, claim, awaits_service, awaits_task, sleeps_until,
  no_ready, take_found,
}
use clsync.Concurrent.Wake.{
  Sleeper, has_earlier, must_wake, SleepsAfter, service_wait, task_wait, time_wait,
}

next_ready-is_empty : (q : List QueueItem) → next_ready q ≡ none → is_empty q ≡ true
unfolding next_ready
next_ready-is_empty [] e = refl
next_ready-is_empty (item ∷ q) e = elim (Option-cases (next_ready q)) [
  | inl last ↦ ground arith
  | inr (v, e') ↦ ground arith
]

has_earlier-is_empty : (u : ℕ) (q : List QueueItem) → is_empty q ≡ true → has_earlier u q ≡ false
unfolding has_earlier
has_earlier-is_empty u [] e = refl
has_earlier-is_empty u (item ∷ q) e = ground arith

has_earlier-next_ready :
    (t u : ℕ) (q : List QueueItem) → next_ready q ≡ some t → u ≤ t → has_earlier u q ≡ false
unfolding next_ready has_earlier
has_earlier-next_ready t u [] e l = refl
has_earlier-next_ready t u (item ∷ q) e l = elim (Option-cases (next_ready q)) [
  | inl last ↦ ground (arith, has_earlier-is_empty u q (next_ready-is_empty q last))
  | inr (v, e') ↦ ground (arith, has_earlier-next_ready v u q e')
]

claim-ne-sleeps :
    (large : Bool) (item : QueueItem) (m : SyncManager) {p : Pass} {s : Sleeper}
    → SleepsAfter large p s
    → claim item m ≢ p
unfolding claim
claim-ne-sleeps large item m service_wait e = elim (Option-cases (lookup item.id m.results)) [
  | inl gone ↦ ground arith
  | inr (r, known) ↦ ground arith
]
claim-ne-sleeps large item m task_wait e = elim (Option-cases (lookup item.id m.results)) [
  | inl gone ↦ ground arith
  | inr (r, known) ↦ ground arith
]
claim-ne-sleeps large item m time_wait e = elim (Option-cases (lookup item.id m.results)) [
  | inl gone ↦ ground arith
  | inr (r, known) ↦ ground arith
]

-- A pass that sleeps has found no item that is ready.
take_found-no_ready :
    (large : Bool) (now : ℕ) (m : SyncManager) {p : Pass} {s : Sleeper}
    → SleepsAfter large p s
    → take_found large now m ≡ p
    → no_ready (queue_of large m) ≡ p
take_found-no_ready large now m a e = elim (Option-cases (first_ready now (queue_of large m))) [
  | inl nothing ↦ ground arith
  | inr ((item, rest), found) ↦
      absurd (claim-ne-sleeps large item (with_queue large rest m) a (ground arith))
]

no_ready-for_service : (q : List QueueItem) → no_ready q ≢ awaits_service
no_ready-for_service q e = elim (Option-cases (next_ready q)) [
  | inl nothing ↦ ground arith
  | inr (t, some_item) ↦ ground arith
]

no_ready-for_task : (q : List QueueItem) → no_ready q ≡ awaits_task → is_empty q ≡ true
no_ready-for_task q e = elim (Option-cases (next_ready q)) [
  | inl nothing ↦ next_ready-is_empty q nothing
  | inr (t, some_item) ↦ ground arith
]

no_ready-for_time :
    (q : List QueueItem) (t : ℕ) → no_ready q ≡ sleeps_until t → has_earlier t q ≡ false
no_ready-for_time q t e = elim (Option-cases (next_ready q)) [
  | inl nothing ↦ ground arith
  | inr (u, some_item) ↦ has_earlier-next_ready u t q some_item (ground arith)
]

-- A worker goes to sleep where it has nothing to do.
pub sleeps-must_wake :
    (large : Bool) (now : ℕ) (m : SyncManager) {p : Pass} {s : Sleeper}
    → SleepsAfter large p s
    → take_pass large now m ≡ p
    → must_wake s m ≡ false
unfolding must_wake take_pass
sleeps-must_wake large now m service_wait e =
    ground
      (arith, take_found-no_ready large now m service_wait, no_ready-for_service (queue_of large m))
sleeps-must_wake large now m task_wait e =
    ground (arith, take_found-no_ready large now m task_wait, no_ready-for_task (queue_of large m))
sleeps-must_wake large now m (time_wait {t}) e = ground (
  arith,
  take_found-no_ready large now m (time_wait {t = t}),
  no_ready-for_time (queue_of large m) t,
)
