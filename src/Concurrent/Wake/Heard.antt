-- ===== src/Concurrent/Wake/Heard.antt =====
-- That no thread of net/sync_manager.cpp misses what it waits for.
use clsync.Base.{
  ◌≤◌, ◌≡◌, ◌≢◌, refl, sym, subst, ◌∙◌, ◌⊎◌, inl, inr, true, false, List, [], ◌∷◌, none, arith,
  Bool-cases, All,
}
use clsync.Task.{SyncConfig}
use clsync.Manager.{SyncManager, is_idle, wait_for_idle}
use clsync.Manager.Lifecycle.{launch}
use clsync.Concurrent.{
  System, Step, enqueues, claims, serves, completes, requeues, launches, begins_stop, ends_stop,
  sets_callback,
}
use clsync.Concurrent.Wake.{
  Condition, queue_cv, idle_cv, Sleeper, for_idle, for_stop, for_service, for_task, for_time,
  sleeps_on, same_condition, must_wake, wake_all, World, notify_idle, left_asleep, notices,
  OnlyCallers, IsJoined, WakeStep, acts, worker_sleeps, caller_sleeps, monitor_sleeps, notifies,
  wakes, after_step, WakeReach, here, next, new_world,
}
use clsync.Concurrent.Wake.Kept.{
  claims-must_wake, complete_task-must_wake, requeue_task-must_wake, admit-must_wake,
  launch-must_wake, end_stop-must_wake, set_result_callback-must_wake,
}
use clsync.Concurrent.Wake.Sleeping.{sleeps-must_wake}
use clsync.Concurrent.Wake.Lists.{wake_all-All, map-All, wake_both, drop_one}

-- Nobody sleeps with something to do, unless a notification is still to come.
abbrev IsHeard : World → Sleeper → Type 0
IsHeard w s = must_wake s w.manager ≡ true → 1 ≤ w.due (sleeps_on s)

module _ (w : World) {t : System} (st : Step w.system t) where
  still-IsHeard :
      (s : Sleeper)
      → (must_wake s t.manager ≡ true
          → (must_wake s w.manager ≡ true) ⊎ (1 ≤ notices (sleeps_on s) st))
      → IsHeard w s
      → IsHeard (after_step w st) s
  still-IsHeard s reason heard now = elim (reason now) [
    | inl old ↦ omega (arith, heard old)
    | inr told ↦ omega (arith, told)
  ]

  -- Where everybody is left asleep.
  none_woken :
      All (IsHeard w) w.asleep
      → ((s : Sleeper)
          → must_wake s t.manager ≡ true
          → (must_wake s w.manager ≡ true) ⊎ (1 ≤ notices (sleeps_on s) st))
      → All (IsHeard (after_step w st)) w.asleep
  none_woken heard reason = map-All _ _ w.asleep (λ s. still-IsHeard s (reason s)) heard

  -- Whom `notify_idle` leaves asleep.
  idle_told :
      (All (λ s. IsHeard w s) w.asleep)
      → ((s : Sleeper)
          → (is_idle t.manager ≡ true → same_condition (sleeps_on s) idle_cv ≡ false)
          → must_wake s t.manager ≡ true
          → (must_wake s w.manager ≡ true) ⊎ (1 ≤ notices (sleeps_on s) st))
      → All (IsHeard (after_step w st)) (notify_idle t.manager w.asleep)
  idle_told heard reason = elim (Bool-cases (is_idle t.manager)) [
    | inl idle ↦ rw idle (
        map-All _ _ (wake_all idle_cv w.asleep) (λ s h. still-IsHeard s (reason s (λ i. h.1)) h.0)
          (wake_all-All (IsHeard w) idle_cv w.asleep heard))
    | inr busy ↦ rw busy (
        map-All _ _ w.asleep (λ s h. still-IsHeard s (reason s (λ i. absurd (ground arith))) h)
          heard)
  ]

sleeper-cases : (s : Sleeper) → (s ≡ for_idle) ⊎ (sleeps_on s ≡ queue_cv)
sleeper-cases for_idle = inl refl
sleeper-cases for_stop = inr refl
sleeper-cases for_service = inr refl
sleeper-cases (for_task large) = inr refl
sleeper-cases (for_time large t) = inr refl

-- A caller is left asleep in a busy state only.
busy_left :
    (s : Sleeper) (m : SyncManager)
    → s ≡ for_idle
    → (is_idle m ≡ true → same_condition (sleeps_on s) idle_cv ≡ false)
    → is_idle m ≡ false
busy_left s m caller left = elim (Bool-cases (is_idle m)) [
  | inl idle ↦ absurd (
      subst (λ x. same_condition (sleeps_on x) idle_cv ≢ false) (sym caller) (λ e. ground arith)
        (left idle))
  | inr busy ↦ busy
]

launch-IsHeard :
    (w : World) (h : w.manager.started ≡ false) (l : List Sleeper)
    → OnlyCallers l
    → All (IsHeard w) l
    → All (IsHeard (after_step w (launches h))) l
launch-IsHeard w h [] only heard = tt
launch-IsHeard w h (s ∷ l) only heard = (
  still-IsHeard w (launches h) s
      (λ e. inl (
        rw only.0 (
          launch-must_wake w.manager
            (subst (λ x. must_wake x (launch w.manager) ≡ true) only.0 e))))
      heard.0,
  launch-IsHeard w h l only.1 heard.1,
)

acts-IsHeard :
    (w : World) {t : System} (st : Step w.system t)
    → IsJoined w.asleep st
    → All (IsHeard w) w.asleep
    → All (IsHeard (after_step w st)) (left_asleep st w.asleep)
acts-IsHeard w (enqueues task large now text) joined heard =
    none_woken w (enqueues task large now text) heard (λ s e.
      elim (admit-must_wake task large now text w.manager s e) [
        | inl old ↦ inl old
        | inr (q, a) ↦ inr (rw (q, a) (omega arith))
      ])
acts-IsHeard w (claims large now item m h) joined heard =
    none_woken w (claims large now item m h) heard
      (λ s e. inl (claims-must_wake large now item w.manager m s h e))
acts-IsHeard w (serves state) joined heard = wake_both _ w.asleep
acts-IsHeard w (completes before after item state text status m e final h) joined heard =
    idle_told w (completes before after item state text status m e final h) heard (λ s left now.
      inl (complete_task-must_wake item.id state text status w.manager m s h left now))
acts-IsHeard w (requeues before after item text status now m e room h) joined heard =
    idle_told w (requeues before after item text status now m e room h) heard (λ s left woken.
      elim (sleeper-cases s) [
        | inl caller ↦ inl (
            rw caller (
              requeue_task-must_wake item item.large text status now w.manager m refl h
                (busy_left s m caller left) (subst (λ x. must_wake x m ≡ true) caller woken)))
        | inr other ↦ inr (rw other (omega arith))
      ])
acts-IsHeard w (launches h) joined heard = launch-IsHeard w h w.asleep joined heard
acts-IsHeard w (begins_stop h) joined heard = none_woken w (begins_stop h) heard (λ s e.
    inr (elim (sleeper-cases s) [
      | inl caller ↦ rw caller (omega arith)
      | inr other ↦ rw other (omega arith)
    ]))
acts-IsHeard w (ends_stop h) joined heard =
    none_woken w (ends_stop h) heard (λ s e. inl (sym (end_stop-must_wake w.manager s) ∙ e))
acts-IsHeard w sets_callback joined heard =
    none_woken w sets_callback heard
      (λ s e. inl (sym (set_result_callback-must_wake w.manager s) ∙ e))

-- A thread that has just gone to sleep has nothing to do.
idle_IsHeard : (w : World) (s : Sleeper) → must_wake s w.manager ≡ false → IsHeard w s
idle_IsHeard w s nothing e = absurd (ground arith)

caller_sleeps-must_wake : (m : SyncManager) → wait_for_idle m ≡ none → must_wake for_idle m ≡ false
unfolding must_wake wait_for_idle
caller_sleeps-must_wake m h = ground arith

monitor_sleeps-must_wake : (m : SyncManager) → m.stopping ≡ false → must_wake for_stop m ≡ false
unfolding must_wake
monitor_sleeps-must_wake m h = h

WakeStep-IsHeard :
    {v w : World} → WakeStep v w → All (IsHeard v) v.asleep → All (IsHeard w) w.asleep
WakeStep-IsHeard {v} (acts st joined) heard = acts-IsHeard v st joined heard
WakeStep-IsHeard {v} (worker_sleeps large now s a) heard =
    (idle_IsHeard v s (sleeps-must_wake large now v.manager a refl), heard)
WakeStep-IsHeard {v} (caller_sleeps h) heard =
    (idle_IsHeard v for_idle (caller_sleeps-must_wake v.manager h), heard)
WakeStep-IsHeard {v} (monitor_sleeps h) heard =
    (idle_IsHeard v for_stop (monitor_sleeps-must_wake v.manager h), heard)
WakeStep-IsHeard {v} (notifies c n h) heard =
    map-All _ _ (wake_all c v.asleep) (λ s left e. rw left.1 (left.0 e))
      (wake_all-All (IsHeard v) c v.asleep heard)
WakeStep-IsHeard {v} (wakes before after s h) heard =
    drop_one (IsHeard v) before after s (subst (All (IsHeard v)) h heard)

-- No wake-up is lost: whenever a sleeping thread has something to do, that is, its predicate holds
-- or, in the wait for a time, an item comes that is ready before, a notification of its condition
-- variable is still to come. This holds for workers, monitor and callers of wait_for_idle in every
-- order of their steps, although enqueue, requeue_task and stop notify after they have given up
-- the lock.
pub WakeReach-IsHeard :
    (c : SyncConfig) {w : World}
    → WakeReach (new_world c) w
    → All (λ s. must_wake s w.manager ≡ true → 1 ≤ w.due (sleeps_on s)) w.asleep
WakeReach-IsHeard c here = tt
WakeReach-IsHeard c (next r st) = WakeStep-IsHeard st (WakeReach-IsHeard c r)

stopping-must_wake : (m : SyncManager) (s : Sleeper) → m.stopping ≡ true → must_wake s m ≡ true
unfolding must_wake
stopping-must_wake m for_idle h = ground arith
stopping-must_wake m for_stop h = h
stopping-must_wake m for_service h = ground arith
stopping-must_wake m (for_task large) h = ground arith
stopping-must_wake m (for_time large t) h = ground arith

none_asleep :
    (w : World) (l : List Sleeper)
    → w.manager.stopping ≡ true
    → ((c : Condition) → w.due c ≡ 0)
    → All (IsHeard w) l
    → l ≡ []
none_asleep w [] stopped told heard = refl
none_asleep w (s ∷ l) stopped told heard =
    let one = heard.0 (stopping-must_wake w.manager s stopped) in
    absurd (omega (arith, one, told (sleeps_on s)))

-- Once stop has begun and every notification is made, no thread is asleep: neither a worker nor the
-- monitor keeps the joins waiting, and no call of wait_for_idle goes on waiting.
pub stop-awake :
    (c : SyncConfig) {w : World}
    → WakeReach (new_world c) w
    → w.manager.stopping ≡ true
    → ((d : Condition) → w.due d ≡ 0)
    → w.asleep ≡ []
stop-awake c {w} r stopped told = none_asleep w w.asleep stopped told (WakeReach-IsHeard c r)
