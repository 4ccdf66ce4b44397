-- ===== src/Concurrent/Crew/Bound.antt =====
-- How many tasks run at once in net/sync_manager.cpp.
use clsync.Base.{
  ℕ, zero, suc, ◌+◌, ◌≤◌, ◌≡◌, refl, ◌∙◌, ap, sym, subst, Bool, true, false, List, [], ◌∷◌, ◌++◌,
  arith, inl, inr, ◌⊎◌,
}
use clsync.Task.{SyncConfig, QueueItem}
use clsync.Manager.{SyncManager, init, set_result_callback}
use clsync.Manager.Take.{take_pass, takes}
use clsync.Manager.Lifecycle.{threads, launch, begin_stop, end_stop}
use clsync.Concurrent.{
  System, Step, enqueues, claims, serves, completes, requeues, launches, begins_stop, ends_stop,
  sets_callback, Reach,
}
use clsync.Concurrent.Count.{Found, Found-first_ready}
use clsync.Concurrent.Frame.{IsFramed, Step-IsFramed}
use clsync.Concurrent.Invariant.{Inv, Small, Large}
use clsync.Concurrent.Invariant.Claim.{claim_inversion}
use clsync.Concurrent.Invariant.Steps.{initial, Reach-init-Inv}
use clsync.Concurrent.Sequential.{Reach-trans}
use clsync.Concurrent.Lifecycle.Final.{Reach-config}
use clsync.Concurrent.Crew.{
  Crew, crew_of, freed, IsAllowed, CrewStep, acts, starts_task, leaves, CrewReach, new_crew,
}

abbrev pub same_kind : Bool → Bool → ℕ
same_kind true true = 1
same_kind false false = 1
same_kind _ _ = 0

-- How many of the threads serve the queue.
unfoldable pub serving : Bool → List Bool → ℕ
serving large [] = 0
serving large (w ∷ ws) = same_kind large w + serving large ws

-- How many of the tasks that run come from the queue.
unfoldable pub running_of : Bool → List QueueItem → ℕ
running_of large [] = 0
running_of large (item ∷ q) = same_kind large item.large + running_of large q

pub serving-append :
    (large : Bool) (v w : List Bool) → serving large (v ++ w) ≡ serving large v + serving large w
unfolding serving
serving-append large [] w = omega arith
serving-append large (x ∷ v) w = omega (arith, serving-append large v w)

pub running_of-append :
    (large : Bool) (p q : List QueueItem)
    → running_of large (p ++ q) ≡ running_of large p + running_of large q
unfolding running_of
running_of-append large [] q = omega arith
running_of-append large (x ∷ p) q = omega (arith, running_of-append large p q)

-- No more workers than those that are to be joined.
abbrev Fits : Crew → Type 0
Fits w =
    (large : Bool)
    → serving large w.free + running_of large w.jobs ≤ serving large w.manager.workers

-- The threads to be joined are none, or those that `start` made.
abbrev Manned : SyncManager → Type 0
Manned m = (m.workers ≡ []) ⊎ (m.workers ≡ crew_of m.config)

pub CrewStep-Reach : {w v : Crew} → CrewStep w v → Reach w.system v.system
CrewStep-Reach (acts st a) = Reach.next Reach.here st
CrewStep-Reach (starts_task before after large now item m e h) =
    Reach.next Reach.here (claims large now item m h)
CrewStep-Reach (leaves before after large now e h) = Reach.here

-- A worker takes an item of its own queue.
pub taken_kind :
    (s : System) (large : Bool) (now : ℕ) (item : QueueItem) (m : SyncManager)
    → take_pass large now s.manager ≡ takes item m
    → Inv s
    → item.large ≡ large
taken_kind s true now item m h v =
    let (rest, r, found, known, made) = claim_inversion true now s.manager m item h in
    (subst (Found Large) found (Found-first_ready Large now s.large_queue v.large_items)).0
taken_kind s false now item m h v =
    let (rest, r, found, known, made) = claim_inversion false now s.manager m item h in
    (subst (Found Small) found (Found-first_ready Small now s.small_queue v.small_items)).0

acts-Fits :
    (free : List Bool) {s t : System} (st : Step s t)
    → IsAllowed free st
    → Fits (record { system = s; free = free })
    → Fits (record { system = t; free = freed st ++ free })
unfolding serving running_of launch begin_stop end_stop set_result_callback
acts-Fits free {s} (enqueues task large now text) a f k =
    let same = (Step-IsFramed {s = s} (enqueues task large now text) tt).1 in ground (arith, f k)
acts-Fits free (claims large now item m h) a f k = absurd a
acts-Fits free {s} (serves state) a f k =
    let same = (Step-IsFramed {s = s} (serves state) tt).1 in ground (arith, f k)
acts-Fits free {s} (completes before after item state text status m e final h) a f k =
    let same =
      (Step-IsFramed {s = s} (completes before after item state text status m e final h) tt).1 in
    ground (arith, f k, running_of-append k before (item ∷ after), running_of-append k before after)
acts-Fits free {s} (requeues before after item text status now m e room h) a f k =
    let same =
      (Step-IsFramed {s = s} (requeues before after item text status now m e room h) tt).1 in
    ground (arith, f k, running_of-append k before (item ∷ after), running_of-append k before after)
acts-Fits free {s} (launches h) a f k =
    ground (arith, f k, serving-append k (crew_of s.manager.config) free)
acts-Fits free (begins_stop h) a f k = f k
acts-Fits free (ends_stop h) a f k = ground arith
acts-Fits free sets_callback a f k = f k

CrewStep-Fits : {w v : Crew} → CrewStep w v → Inv w.system → Fits w → Fits v
unfolding serving running_of
CrewStep-Fits {w} (acts st a) v f k = acts-Fits w.free st a f k
CrewStep-Fits {w} (starts_task before after large now item m e h) v f k =
    let same = (Step-IsFramed {s = w.system} (claims large now item m h) tt).1 in
    let kind = taken_kind w.system large now item m h v in
    ground (arith, f k, serving-append k before (large ∷ after), serving-append k before after)
CrewStep-Fits {w} (leaves before after large now e h) v f k =
    ground (arith, f k, serving-append k before (large ∷ after), serving-append k before after)

IsFramed-Manned : (m m' : SyncManager) → IsFramed m m' → Manned m → Manned m'
IsFramed-Manned m m' k (inl none) = inl (k.1 ∙ none)
IsFramed-Manned m m' k (inr made) = inr (k.1 ∙ (made ∙ ap crew_of (sym k.0)))

acts-Manned :
    (free : List Bool) {s t : System} (st : Step s t)
    → IsAllowed free st
    → Manned s.manager
    → Manned t.manager
unfolding launch begin_stop end_stop set_result_callback
acts-Manned free {s} {t} (enqueues task large now text) a f =
    IsFramed-Manned s.manager t.manager (Step-IsFramed {s = s} (enqueues task large now text) tt) f
acts-Manned free (claims large now item m h) a f = absurd a
acts-Manned free {s} {t} (serves state) a f =
    IsFramed-Manned s.manager t.manager (Step-IsFramed {s = s} (serves state) tt) f
acts-Manned free {s} {t} (completes before after item state text status m e final h) a f =
    IsFramed-Manned s.manager m
      (Step-IsFramed {s = s} (completes before after item state text status m e final h) tt) f
acts-Manned free {s} {t} (requeues before after item text status now m e room h) a f =
    IsFramed-Manned s.manager m
      (Step-IsFramed {s = s} (requeues before after item text status now m e room h) tt) f
acts-Manned free {s} (launches h) a f = inr (ap (λ ws. ws ++ crew_of s.manager.config) a)
acts-Manned free (begins_stop h) a f = f
acts-Manned free (ends_stop h) a f = inl refl
acts-Manned free sets_callback a f = f

CrewStep-Manned : {w v : Crew} → CrewStep w v → Manned w.manager → Manned v.manager
CrewStep-Manned {w} (acts st a) f = acts-Manned w.free st a f
CrewStep-Manned {w} (starts_task before after large now item m e h) f =
    IsFramed-Manned w.manager m (Step-IsFramed {s = w.system} (claims large now item m h) tt) f
CrewStep-Manned (leaves before after large now e h) f = f

-- What holds of the threads, whatever they do.
pub record Crewed (c : SyncConfig) (w : Crew) : Type 0 where
  pub reach : Reach (initial c) w.system
  pub fits : Fits w
  pub manned : Manned w.manager

pub CrewReach-Crewed : (c : SyncConfig) {w : Crew} → CrewReach (new_crew c) w → Crewed c w
unfolding init serving running_of
CrewReach-Crewed c CrewReach.here = record {
  reach = Reach.here;
  fits = λ large. omega arith;
  manned = inl refl;
}
CrewReach-Crewed c (CrewReach.next r st) =
    let v = CrewReach-Crewed c r in
    record {
      reach = Reach-trans v.reach (CrewStep-Reach st);
      fits = CrewStep-Fits st (Reach-init-Inv c v.reach) v.fits;
      manned = CrewStep-Manned st v.manned;
    }

serving-threads :
    (n : ℕ)
    → (serving false (threads n false) ≡ n)
      × (serving true (threads n false) ≡ 0)
      × (serving false (threads n true) ≡ 0)
      × (serving true (threads n true) ≡ n)
unfolding serving
serving-threads zero = (refl, refl, refl, refl)
serving-threads (suc n) = omega (arith, serving-threads n)

pub serving-crew_of :
    (c : SyncConfig)
    → (serving false (crew_of c) ≡ c.small_file_workers)
      × (serving true (crew_of c) ≡ c.large_file_workers)
serving-crew_of c =
    let small = threads c.small_file_workers false in
    let large = threads c.large_file_workers true in
    omega (
      arith,
      serving-append false small large,
      serving-append true small large,
      serving-threads c.small_file_workers,
      serving-threads c.large_file_workers,
    )

-- At no time do more than `small_file_workers` tasks of the queue for small files run, or more than
-- `large_file_workers` of the queue for large files: a worker serves its own queue only, and
-- `start` makes no more workers, also when the manager is stopped and started again.
pub running_of-le :
    (c : SyncConfig) {w : Crew}
    → CrewReach (new_crew c) w
    → (running_of false w.jobs ≤ c.small_file_workers)
      × (running_of true w.jobs ≤ c.large_file_workers)
unfolding serving init
running_of-le c {w} r =
    let v = CrewReach-Crewed c r in
    let same = Reach-config v.reach in
    elim v.manned [
      | inl none ↦
          let unmanned : (large : Bool) → serving large w.manager.workers ≡ 0 =
            λ large. rw none refl in
          omega (arith, v.fits false, v.fits true, unmanned false, unmanned true)
      | inr made ↦
          let manned : w.manager.workers ≡ crew_of c = made ∙ ap crew_of same in
          let served : (large : Bool)
              → serving large w.manager.workers ≡ serving large (crew_of c) =
            λ large. ap (serving large) manned in
          omega (arith, v.fits false, v.fits true, served false, served true, serving-crew_of c)
    ]
