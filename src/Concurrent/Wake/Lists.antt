-- ===== src/Concurrent/Wake/Lists.antt =====
-- Who is left of the threads that sleep on the condition variables of net/sync_manager.cpp.
use clsync.Base.{◌≡◌, inl, inr, false, List, [], ◌∷◌, ◌++◌, Bool-cases, All}
use clsync.Concurrent.Wake.{
  Condition, queue_cv, idle_cv, Sleeper, for_idle, for_stop, for_service, for_task, for_time,
  sleeps_on, same_condition, wake_all,
}

-- A notification leaves those on the other condition variable.
pub wake_all-All :
    (P : Sleeper → Type 0) (c : Condition) (l : List Sleeper)
    → All P l
    → All (λ s. P s × (same_condition (sleeps_on s) c ≡ false)) (wake_all c l)
unfolding wake_all
wake_all-All P c [] h = tt
wake_all-All P c (s ∷ l) h = elim (Bool-cases (same_condition (sleeps_on s) c)) [
  | inl called ↦ rw called (wake_all-All P c l h.1)
  | inr other ↦ rw other ((h.0, other), wake_all-All P c l h.1)
]

pub map-All :
    (P Q : Sleeper → Type 0) (l : List Sleeper) → ((s : Sleeper) → P s → Q s) → All P l → All Q l
map-All P Q [] f h = tt
map-All P Q (s ∷ l) f h = (f s h.0, map-All P Q l f h.1)

pub wake_both :
    (P : Sleeper → Type 0) (l : List Sleeper) → All P (wake_all idle_cv (wake_all queue_cv l))
unfolding wake_all
wake_both P [] = tt
wake_both P (for_idle ∷ l) = wake_both P l
wake_both P (for_stop ∷ l) = wake_both P l
wake_both P (for_service ∷ l) = wake_both P l
wake_both P (for_task large ∷ l) = wake_both P l
wake_both P (for_time large t ∷ l) = wake_both P l

pub drop_one :
    (P : Sleeper → Type 0) (before after : List Sleeper) (s : Sleeper)
    → All P (before ++ (s ∷ after))
    → All P (before ++ after)
drop_one P [] after s h = h.1
drop_one P (b ∷ before) after s h = (h.0, drop_one P before after s h.1)
