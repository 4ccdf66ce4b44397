-- ===== src/Concurrent/Invariant/Claim.antt =====
-- `take_task` keeps the invariant: an item that it returns changes from a queue to a worker.
use clsync.Base.{
  ℕ, suc, ◌≡◌, subst, inl, inr, Bool, true, false, List, ◌∷◌, some, arith, Option-cases,
}
use clsync.Text.{equal_iff}
use clsync.Task.{SyncResult, QueueItem}
use clsync.Results.{lookup, update, lookup-update}
use clsync.Manager.{SyncManager, queue_of, with_queue}
use clsync.Manager.Take.{first_ready, take_pass, takes, begin_attempt}
use clsync.Concurrent.{System}
use clsync.Concurrent.Count.{count, count-first_ready, Found, Found-first_ready}
use clsync.Concurrent.Invariant.{Small, Large, Inv}

pub claim_inversion :
    (large : Bool) (now : ℕ) (m m' : SyncManager) (item : QueueItem)
    → take_pass large now m ≡ takes item m'
    → (rest : List QueueItem) × (r : SyncResult) × (first_ready now (queue_of large m)
        ≡ some (item, rest))
      × (lookup item.id m.results ≡ some r)
      × (m' ≡ record (with_queue large rest m) {
        results = update item.id begin_attempt m.results;
        active_tasks = suc m.active_tasks;
      })
unfolding take_pass
claim_inversion true now m m' item h = elim (Option-cases (first_ready now m.large_queue)) [
  | inl e ↦ ground arith
  | inr ((found, rest), e) ↦ elim (Option-cases (lookup found.id m.results)) [
    | inl l ↦ ground arith
    | inr (r, l) ↦ (rest, r, ground arith, ground arith, ground arith)
  ]
]
claim_inversion false now m m' item h = elim (Option-cases (first_ready now m.small_queue)) [
  | inl e ↦ ground arith
  | inr ((found, rest), e) ↦ elim (Option-cases (lookup found.id m.results)) [
    | inl l ↦ ground arith
    | inr (r, l) ↦ (rest, r, ground arith, ground arith, ground arith)
  ]
]

-- The state after a worker has taken an item from a queue.
abbrev claimed : System → Bool → QueueItem → List QueueItem → System
claimed s large item rest = record {
  manager = record (with_queue large rest s.manager) {
    results = update item.id begin_attempt s.results;
    active_tasks = suc s.active_tasks;
  };
  jobs = item ∷ s.jobs;
}

claimed-Inv :
    (s : System) (large : Bool) (now : ℕ) (item : QueueItem) (rest : List QueueItem)
    (r : SyncResult)
    → first_ready now (queue_of large s.manager) ≡ some (item, rest)
    → lookup item.id s.results ≡ some r
    → Inv s
    → Inv (claimed s large item rest)
unfolding count
claimed-Inv s true now item rest r e known v = record {
  queued = λ id. ground (
    arith,
    lookup-update item.id id begin_attempt s.results,
    equal_iff item.id id,
    count-first_ready now s.large_queue item rest id e,
    v.queued id,
  );
  held = λ id. ground (
    arith,
    lookup-update item.id id begin_attempt s.results,
    equal_iff item.id id,
    count-first_ready now s.large_queue item rest id e,
    v.queued id,
    v.held id,
  );
  active = omega (arith, v.active);
  small_items = v.small_items;
  large_items = (subst (Found Large) e (Found-first_ready Large now s.large_queue v.large_items)).1;
  budget = λ id. ground (
    arith,
    lookup-update item.id id begin_attempt s.results,
    equal_iff item.id id,
    count-first_ready now s.large_queue item rest id e,
    v.queued id,
    v.budget id,
  );
}
claimed-Inv s false now item rest r e known v = record {
  queued = λ id. ground (
    arith,
    lookup-update item.id id begin_attempt s.results,
    equal_iff item.id id,
    count-first_ready now s.small_queue item rest id e,
    v.queued id,
  );
  held = λ id. ground (
    arith,
    lookup-update item.id id begin_attempt s.results,
    equal_iff item.id id,
    count-first_ready now s.small_queue item rest id e,
    v.queued id,
    v.held id,
  );
  active = omega (arith, v.active);
  small_items = (subst (Found Small) e (Found-first_ready Small now s.small_queue v.small_items)).1;
  large_items = v.large_items;
  budget = λ id. ground (
    arith,
    lookup-update item.id id begin_attempt s.results,
    equal_iff item.id id,
    count-first_ready now s.small_queue item rest id e,
    v.queued id,
    v.budget id,
  );
}

pub claims-Inv :
    (s : System) (large : Bool) (now : ℕ) (item : QueueItem) (m : SyncManager)
    → take_pass large now s.manager ≡ takes item m
    → Inv s
    → Inv (record { manager = m; jobs = item ∷ s.jobs })
claims-Inv s large now item m h v =
    let i = claim_inversion large now s.manager m item h in
    rw i.4 (claimed-Inv s large now item i.0 i.1 i.2 i.3 v)
