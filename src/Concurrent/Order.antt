-- ===== src/Concurrent/Order.antt =====
-- `results_` of net/sync_manager.h is an unordered_map. Its order of iteration is not specified and
-- may change with any insertion; the order of the calls of the result callback follows it.
pub mod Take
pub mod Matched
use mathlib.Core.List.{Permᴰ}
use mathlib.Core.List.Permᴰ
use clsync.Base.{
  ℕ, refl, sym, ap, subst, ◌∙◌, Bool, true, false, List, ◌∷◌, Option, none, some, Bool-cases,
  Option-cases, inl, inr, ◌+◌, if◌then◌else◌, not, ◌||◌,
}
use clsync.Text.{Bytes}
use clsync.Task.{
  TaskState, SyncTask, SyncResult, ServiceState, QueueItem, error, cancelled, failed, retry,
}
use clsync.Results.{Results, lookup}
use clsync.Results.Order.{
  IsUnique, Perm-lookup, Perm-update, Perm-update_all, Perm-emplace, update-IsUnique,
  update_all-IsUnique, emplace-IsUnique,
}
use clsync.Manager.{SyncManager, deliver, push_back, is_waiting, same_service}
use clsync.Manager.Service.{set_service_state, fail_result, failed_results, fail_waiting}
use clsync.Manager.Finish.{complete_task, requeue_task, put_back, store}
use clsync.Manager.Lifecycle.{admit, begin_stop, new_result, cancel}

-- The same state but for the order of `results_` and of the calls of the callback.
pub data Alike (m : SyncManager) : SyncManager → Type 0 where
  alike :
      {entries : Results} {calls : List SyncResult}
      → IsUnique m.results
      → Permᴰ m.results entries
      → Permᴰ m.delivered calls
      → Alike m (record m { results = entries; delivered = calls })

deliver-Alike :
    {rs rs' : List SyncResult} {m m' : SyncManager}
    → Permᴰ rs rs'
    → Alike m m'
    → Alike (deliver rs m) (deliver rs' m')
deliver-Alike {rs} {rs'} {m} q (alike u p d) = elim (Bool-cases m.has_callback) [
  | inl set ↦ rw set (alike u p (Permᴰ.trans (Permᴰ.append_right rs d) (Permᴰ.append_left _ q)))
  | inr unset ↦ rw unset (alike u p d)
]

push_back-Alike :
    (large : Bool) (item : QueueItem) {m m' : SyncManager}
    → Alike m m'
    → Alike (push_back large item m) (push_back large item m')
push_back-Alike true item (alike u p d) = alike u p d
push_back-Alike false item (alike u p d) = alike u p d

failed_results_swap :
    (a b : Bytes × SyncResult) (l : Results)
    → Permᴰ (failed_results (a ∷ b ∷ l)) (failed_results (b ∷ a ∷ l))
unfolding failed_results
failed_results_swap a b l = elim (Bool-cases (is_waiting a.1.state)) [
  | inl first ↦ elim (Bool-cases (is_waiting b.1.state)) [
    | inl second ↦ rw (first, second) (Permᴰ.swap refl refl)
    | inr other ↦ rw (first, other) (Permᴰ.refl _)
  ]
  | inr other ↦ rw other (Permᴰ.refl _)
]

Perm-failed_results : {m m' : Results} → Permᴰ m m' → Permᴰ (failed_results m) (failed_results m')
unfolding failed_results
Perm-failed_results Permᴰ.nil = Permᴰ.nil
Perm-failed_results (Permᴰ.cons {a} {b} e p) = rw (← e) (elim (Bool-cases (is_waiting a.1.state)) [
  | inl hit ↦ rw hit (Permᴰ.cons refl (Perm-failed_results p))
  | inr other ↦ rw other (Perm-failed_results p)
])
Perm-failed_results (Permᴰ.swap {a} {b} {b' = b'} {l = l} e f) =
    subst (λ t. Permᴰ (failed_results (a ∷ b ∷ l)) (failed_results t))
      (ap (λ x. b ∷ x ∷ l) e ∙ ap (λ x. x ∷ b' ∷ l) f) (failed_results_swap a b l)
Perm-failed_results (Permᴰ.trans p q) = Permᴰ.trans (Perm-failed_results p) (Perm-failed_results q)

fail_waiting-Alike : {m m' : SyncManager} → Alike m m' → Alike (fail_waiting m) (fail_waiting m')
unfolding fail_waiting
fail_waiting-Alike (alike u p d) =
    deliver-Alike (Perm-failed_results p)
      (alike (update_all-IsUnique fail_result _ u) (Perm-update_all fail_result p) d)

pub set_service_state-Alike :
    (s : ServiceState) {m m' : SyncManager}
    → Alike m m'
    → Alike (set_service_state s m) (set_service_state s m')
unfolding set_service_state same_service
set_service_state-Alike s {m} (alike u p d) = elim (Bool-cases (same_service m.service_state s)) [
  | inl same ↦ rw same (alike u p d)
  | inr other ↦ elim (Bool-cases (same_service s error)) [
    | inl hard ↦
        rw (other, hard) (fail_waiting-Alike {m = record m { service_state = s }} (alike u p d))
    | inr soft ↦ rw (other, soft) (alike u p d)
  ]
]

pub admit-Alike :
    (task : SyncTask) (large : Bool) (now : ℕ) (text : Bytes) {m m' : SyncManager}
    → Alike m m'
    → Alike (admit task large now text m).manager (admit task large now text m').manager
unfolding admit
admit-Alike task large now text {m} (alike {entries} u p d) =
    elim (Bool-cases (not m.started || m.stopping)) [
      | inl closed ↦ rw closed (alike u p d)
      | inr opened ↦ elim (Option-cases (lookup task.id m.results)) [
        | inl fresh ↦
            rw (opened, fresh, sym ((Perm-lookup p u).1 task.id) ∙ fresh)
              (push_back-Alike large (record { id = task.id; large = large; ready_at = now })
                (alike (emplace-IsUnique task.id (new_result task) m.results fresh u)
                  (Perm-emplace task.id (new_result task) p u fresh) d))
        | inr (r, known) ↦
            rw (opened, known, sym ((Perm-lookup p u).1 task.id) ∙ known) (alike u p d)
      ]
    ]

store-Alike :
    (id : Bytes) (state : TaskState) (text : Bytes) (status : ℕ) (r : SyncResult)
    {m m' : SyncManager}
    → Alike m m'
    → Alike (store id state text status r m) (store id state text status r m')
store-Alike id state text status r (alike u p d) =
    deliver-Alike (Permᴰ.refl _) (alike (update-IsUnique id _ _ u) (Perm-update id _ p u) d)

pub begin_stop-Alike : {m m' : SyncManager} → Alike m m' → Alike (begin_stop m) (begin_stop m')
unfolding begin_stop
begin_stop-Alike (alike u p d) = alike (update_all-IsUnique cancel _ u) (Perm-update_all cancel p) d

-- Both calls throw, or both return, in states that are alike.
pub data BothAlike : Option SyncManager → Option SyncManager → Type 0 where
  both_throw : BothAlike none none
  both_return : {m m' : SyncManager} → Alike m m' → BothAlike (some m) (some m')

pub complete_task-Alike :
    (id : Bytes) (state : TaskState) (text : Bytes) (status : ℕ) {m m' : SyncManager}
    → Alike m m'
    → BothAlike (complete_task id state text status m) (complete_task id state text status m')
unfolding complete_task
complete_task-Alike id state text status {m} (alike u p d) =
    elim (Option-cases (lookup id m.results)) [
      | inl gone ↦ rw (gone, sym ((Perm-lookup p u).1 id) ∙ gone, complete_task) both_throw
      | inr (r, known) ↦
          rw (known, sym ((Perm-lookup p u).1 id) ∙ known, complete_task)
            (both_return (store-Alike id state text status r (alike u p d)))
    ]

put_back-Alike :
    (item : QueueItem) (text : Bytes) (status now : ℕ) (r : SyncResult) {m m' : SyncManager}
    → Alike m m'
    → Alike (put_back item text status now r m) (put_back item text status now r m')
put_back-Alike item text status now r {m} (alike u p d) =
    elim (Bool-cases (m.stopping || same_service m.service_state error)) [
      | inl over ↦ rw over (
          store-Alike item.id (if m.stopping then cancelled else failed) text status r {m = m}
            (alike u p d))
      | inr goes_on ↦
          let later = record item { ready_at = now + m.config.retry_delay } in
          rw goes_on (
            store-Alike item.id retry text status r {m = push_back item.large later m}
              (push_back-Alike item.large later {m = m} (alike u p d)))
    ]

pub requeue_task-Alike :
    (item : QueueItem) (text : Bytes) (status now : ℕ) {m m' : SyncManager}
    → Alike m m'
    → BothAlike (requeue_task item text status now m) (requeue_task item text status now m')
unfolding requeue_task
requeue_task-Alike item text status now {m} (alike u p d) =
    elim (Option-cases (lookup item.id m.results)) [
      | inl gone ↦ rw (gone, sym ((Perm-lookup p u).1 item.id) ∙ gone, requeue_task) both_throw
      | inr (r, known) ↦
          rw (known, sym ((Perm-lookup p u).1 item.id) ∙ known, requeue_task)
            (both_return (put_back-Alike item text status now r {m = m} (alike u p d)))
    ]
