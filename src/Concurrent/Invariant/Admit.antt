-- ===== src/Concurrent/Invariant/Admit.antt =====
-- The locked part of `enqueue` keeps the invariant.
use clsync.Base.{
  ℕ, ◌≡◌, refl, inl, inr, Bool, true, false, [], ◌∷◌, none, arith, All-append, Option-cases,
}
use clsync.Text.{Bytes, equal_iff}
use clsync.Task.{SyncTask}
use clsync.Results.{lookup, emplace, lookup-emplace}
use clsync.Manager.{push_back}
use clsync.Manager.Lifecycle.{new_result, admit}
use clsync.Concurrent.{System}
use clsync.Concurrent.Count.{count, count-append}
use clsync.Concurrent.Invariant.{Small, Large, Inv}

-- The state after an accepted task.
abbrev admitted : System → SyncTask → Bool → ℕ → System
admitted s task large now = record s {
  manager =
      push_back large (record { id = task.id; large = large; ready_at = now })
        (record s.manager { results = emplace task.id (new_result task) s.results });
}

admitted-Inv :
    (s : System) (task : SyncTask) (large : Bool) (now : ℕ)
    → lookup task.id s.results ≡ none
    → Inv s
    → Inv (admitted s task large now)
unfolding count
admitted-Inv s task true now fresh v = record {
  queued = λ id. ground (
    arith,
    lookup-emplace task.id id (new_result task) s.results,
    equal_iff task.id id,
    count-append id s.large_queue (record { id = task.id; large = true; ready_at = now } ∷ []),
    v.queued id,
  );
  held = λ id. ground (
    arith,
    lookup-emplace task.id id (new_result task) s.results,
    equal_iff task.id id,
    v.held id,
  );
  active = v.active;
  small_items = v.small_items;
  large_items = All-append Large s.large_queue _ v.large_items (refl, tt);
  budget = λ id. ground (
    arith,
    lookup-emplace task.id id (new_result task) s.results,
    equal_iff task.id id,
    v.budget id,
  );
}
admitted-Inv s task false now fresh v = record {
  queued = λ id. ground (
    arith,
    lookup-emplace task.id id (new_result task) s.results,
    equal_iff task.id id,
    count-append id s.small_queue (record { id = task.id; large = false; ready_at = now } ∷ []),
    v.queued id,
  );
  held = λ id. ground (
    arith,
    lookup-emplace task.id id (new_result task) s.results,
    equal_iff task.id id,
    v.held id,
  );
  active = v.active;
  small_items = All-append Small s.small_queue _ v.small_items (refl, tt);
  large_items = v.large_items;
  budget = λ id. ground (
    arith,
    lookup-emplace task.id id (new_result task) s.results,
    equal_iff task.id id,
    v.budget id,
  );
}

pub admit-Inv :
    (s : System) (task : SyncTask) (large : Bool) (now : ℕ) (text : Bytes)
    → Inv s
    → Inv (record s { manager = (admit task large now text s.manager).manager })
unfolding admit
admit-Inv s task large now text v = elim (Option-cases (lookup task.id s.results)) [
  | inl fresh ↦ ground (arith, admitted-Inv s task large now fresh v)
  | inr (r, known) ↦ ground arith
]
