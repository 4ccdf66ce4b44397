-- ===== src/Concurrent/Order/Matched.antt =====
-- Runs in which `results_` of net/sync_manager.h is rehashed at any time.
mod Tests
use mathlib.Core.List.{Permᴰ}
use mathlib.Core.List.Permᴰ
use mathlib.Core.Option.{some-injective}
use clsync.Concurrent.Idle.{IsOver, wait_for_idle-IsOver}
use clsync.Base.{true, sym, ◌≡◌, refl, ap, subst, ◌∙◌, Bool, List, ◌≤◌, all, Option, some, arith}
use clsync.Text.{Bytes}
use clsync.Task.{SyncConfig, SyncResult, QueueItem}
use clsync.Results.{Results, lookup}
use clsync.Results.Order.{IsUnique, Perm-lookup}
use clsync.Manager.{
  SyncManager, init, wait_for_idle, result, results_of, values, set_result_callback,
}
use clsync.Manager.Take.{Pass, takes}
use clsync.Manager.Lifecycle.{launch, end_stop}
use clsync.Concurrent.{
  System, Step, enqueues, claims, serves, completes, requeues, launches, begins_stop, ends_stop,
  sets_callback, Reach, here, next, attempts_of,
}
use clsync.Concurrent.Invariant.Steps.{initial}
use clsync.Concurrent.Order.{
  Alike, alike, BothAlike, both_throw, both_return, set_service_state-Alike, admit-Alike,
  complete_task-Alike, requeue_task-Alike, begin_stop-Alike,
}
use clsync.Concurrent.Order.Take.{PassAlike, both_take, same_pass, take_pass-Alike}

-- The steps of the threads, and at any time another order of the entries.
pub data HashedReach (s : System) : System → Type 0 where
  unmoved : HashedReach s s
  steps : {t u : System} → HashedReach s t → Step t u → HashedReach s u
  rehashes :
      {t : System} {entries : Results}
      → HashedReach s t
      → Permᴰ t.manager.results entries
      → HashedReach s (record t { manager = record t.manager { results = entries } })

Alike-rehash :
    {m m' : SyncManager} {entries : Results}
    → Alike m m'
    → Permᴰ m.results entries
    → Alike (record m { results = entries }) m'
Alike-rehash (alike u p d) q = alike (Perm-lookup q u).0 (Permᴰ.trans (Permᴰ.symm q) p) d

-- What `take_task` takes in one order, it takes in the other.
Alike-takes :
    {p p' : Pass} {m : SyncManager} {item : QueueItem}
    → PassAlike p p'
    → p ≡ takes item m
    → (m' : SyncManager) × (p' ≡ takes item m') × Alike m m'
Alike-takes (same_pass never) h = absurd (never _ _ h)
Alike-takes {m = found} {item = other} (both_take item {m} {m' = m'} a) h =
    let same : item ≡ other = cc in
    let moved : m ≡ found = cc in (m', ap (λ i. takes i m') same, subst (λ k. Alike k m') moved a)

Alike-returns :
    {o o' : Option SyncManager} {m : SyncManager}
    → BothAlike o o'
    → o ≡ some m
    → (m' : SyncManager) × (o' ≡ some m') × Alike m m'
Alike-returns both_throw h = ground arith
Alike-returns (both_return {m' = m'} a) h =
    (m', refl, subst (λ m. Alike m m') (some-injective _ _ h) a)

Alike-lookup :
    {m m' : SyncManager} → Alike m m' → (id : Bytes) → lookup id m.results ≡ lookup id m'.results
Alike-lookup (alike u p d) id = (Perm-lookup p u).1 id

-- The same step, from another order.
Alike-Step :
    {s t : System} {m : SyncManager}
    → Step s t
    → Alike s.manager m
    → (k : SyncManager) × Step (record s { manager = m }) (record t { manager = k })
      × Alike t.manager k
unfolding launch end_stop set_result_callback
Alike-Step (enqueues task large now text) a =
    (_, enqueues task large now text, admit-Alike task large now text a)
Alike-Step (claims large now item k h) a =
    let (k', h', a') = Alike-takes (take_pass-Alike large now a) h in
    (k', claims large now item k' h', a')
Alike-Step (serves state) a = (_, serves state, set_service_state-Alike state a)
Alike-Step (completes before after item state text status k e final h) a =
    let (k', h', a') = Alike-returns (complete_task-Alike item.id state text status a) h in
    (k', completes before after item state text status k' e final h', a')
Alike-Step {s} (requeues before after item text status now k e room h) (alike u p d) =
    let (k', h', a') = Alike-returns (requeue_task-Alike item text status now (alike u p d)) h in
    (
      k',
      requeues before after item text status now k' e
          (subst (λ o. attempts_of o ≤ s.config.max_retries) ((Perm-lookup p u).1 item.id) room) h',
      a',
    )
Alike-Step (launches h) (alike u p d) = (_, launches h, alike u p d)
Alike-Step (begins_stop h) (alike u p d) = (_, begins_stop h, begin_stop-Alike (alike u p d))
Alike-Step (ends_stop h) (alike u p d) = (_, ends_stop h, alike u p d)
Alike-Step sets_callback (alike u p d) = (_, sets_callback, alike u p d)

-- The run without the rehashes.
HashedReach-Alike :
    {s t : System}
    → IsUnique s.results
    → HashedReach s t
    → (k : SyncManager) × Reach s (record t { manager = k }) × Alike t.manager k
HashedReach-Alike {s} u unmoved = (s.manager, here, alike u (Permᴰ.refl _) (Permᴰ.refl _))
HashedReach-Alike u (steps r st) =
    let (k, run, a) = HashedReach-Alike u r in
    let (k', st', a') = Alike-Step st a in (k', next run st', a')
HashedReach-Alike u (rehashes r q) =
    let (k, run, a) = HashedReach-Alike u r in (k, run, Alike-rehash a q)

Perm-values : {m m' : Results} → Permᴰ m m' → Permᴰ (values m) (values m')
unfolding values
Perm-values Permᴰ.nil = Permᴰ.nil
Perm-values (Permᴰ.cons e p) = Permᴰ.cons (ap (λ a. a.1) e) (Perm-values p)
Perm-values (Permᴰ.swap e f) = Permᴰ.swap (ap (λ a. a.1) e) (ap (λ a. a.1) f)
Perm-values (Permᴰ.trans p q) = Permᴰ.trans (Perm-values p) (Perm-values q)

Perm-all :
    (test : SyncResult → Bool) {rs rs' : List SyncResult}
    → Permᴰ rs rs'
    → all test rs ≡ all test rs'
Perm-all test Permᴰ.nil = refl
Perm-all test (Permᴰ.cons e p) = ground (arith, ap test e, Perm-all test p)
Perm-all test (Permᴰ.swap e f) = ground (arith, ap test e, ap test f)
Perm-all test (Permᴰ.trans p q) = Perm-all test p ∙ Perm-all test q

-- What a caller can see, but for the order.
abbrev pub Agrees : SyncManager → SyncManager → Type 0
Agrees m k =
    ((id : Bytes) → result id m ≡ result id k)
    × (wait_for_idle m ≡ wait_for_idle k)
    × Permᴰ (results_of m) (results_of k)
    × ((test : SyncResult → Bool) → all test (results_of m) ≡ all test (results_of k))
    × Permᴰ m.delivered k.delivered

Alike-Agrees : {m k : SyncManager} → Alike m k → Agrees m k
unfolding result wait_for_idle results_of
Alike-Agrees (alike u p d) =
    ((Perm-lookup p u).1, refl, Perm-values p, (λ test. Perm-all test (Perm-values p)), d)

-- A run in which `results_` takes another order at any time is matched by a run in which it keeps
-- the order of the insertions: at the ends, `result` and wait_for_idle say the same, a test of all
-- of `results` gives the same, and `results` and the calls of the callback are the same but for
-- their order.
pub HashedReach-Reach :
    (c : SyncConfig) {t : System}
    → HashedReach (initial c) t
    → (k : SyncManager) × Reach (initial c) (record t { manager = k }) × Agrees t.manager k
unfolding init
HashedReach-Reach c r = let (k, run, a) = HashedReach-Alike tt r in (k, run, Alike-Agrees a)

-- So what holds of every run holds of one with rehashes: when wait_for_idle returns true, every
-- accepted task is over.
rehashed-IsOver :
    (c : SyncConfig) (id : Bytes) (r : SyncResult) {t : System}
    → HashedReach (initial c) t
    → wait_for_idle t.manager ≡ some true
    → result id t.manager ≡ some r
    → IsOver r.state
rehashed-IsOver c id r run waited known =
    let (k, matched, same) = HashedReach-Reach c run in
    wait_for_idle-IsOver c id r matched (sym same.1 ∙ waited) (sym (same.0 id) ∙ known)
