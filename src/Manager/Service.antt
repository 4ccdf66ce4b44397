-- ===== src/Manager/Service.antt =====
-- `set_service_state` and `monitor_loop` of net/sync_manager.cpp.
use clsync.Base.{
  ℕ, ◌≡◌, refl, sym, ap, ◌∙◌, ◌==◌, length, ◌+◌, ◌%◌, ◌^◌, Bool, true, false, List, [], ◌∷◌, ltb,
  if◌then◌else◌, is_empty,
}
use clsync.Text.{Bytes, codes}
use clsync.Task.{
  failed, ServiceState, connecting, connected, disconnected, error, stopping, SyncResult,
}
use clsync.Results.{Results, update_all}
use clsync.Manager.{SyncManager, same_service, is_waiting, deliver}

-- The name in the line that a change logs.
unfoldable state_name : ServiceState → Bytes
state_name connecting = codes "CONNECTING"
state_name connected = codes "CONNECTED"
state_name disconnected = codes "DISCONNECTED"
state_name error = codes "ERROR"
state_name stopping = codes "STOPPING"

abbrev named : ℕ → ServiceState
named n =
    if n == 10
    then connecting
    else if n == 9
    then connected
    else if n == 12
    then disconnected
    else if n == 5
    then error
    else stopping

state_name-named : (state : ServiceState) → named (length (state_name state)) ≡ state
unfolding state_name
state_name-named connecting = refl
state_name-named connected = refl
state_name-named disconnected = refl
state_name-named error = refl
state_name-named stopping = refl

-- The log tells the states apart.
state_name_injective : (a b : ServiceState) → state_name a ≡ state_name b → a ≡ b
state_name_injective a b h =
    sym (state_name-named a) ∙ ap (λ name. named (length name)) h ∙ state_name-named b

-- What the change to Error does to one stored result.
unfoldable pub fail_result : SyncResult → SyncResult
fail_result r =
    if is_waiting r.state
    then record r {
      state = failed;
      error =
          if is_empty r.error then codes "Service health check failed permanently." else r.error;
    }
    else r

-- The results that it changes, as the callback gets them.
unfoldable pub failed_results : Results → List SyncResult
unfolding fail_result
failed_results [] = []
failed_results ((j, r) ∷ m) =
    let rest = failed_results m in if is_waiting r.state then fail_result r ∷ rest else rest

unfoldable pub fail_waiting : SyncManager → SyncManager
unfolding failed_results update_all
fail_waiting m =
    deliver (failed_results m.results)
      (record m { results = update_all fail_result m.results; small_queue = []; large_queue = [] })

unfoldable pub set_service_state : ServiceState → SyncManager → SyncManager
unfolding fail_waiting same_service
set_service_state s m =
    let entered = record m { service_state = s } in
    if same_service m.service_state s
    then entered
    else if same_service s error
    then fail_waiting entered
    else entered

-- One round of `monitor_loop` behind its test of `stopping_`, given the answer of the health
-- check: the manager and `consecutive_failures`, a 32-bit unsigned int.
unfoldable pub monitor_round : Bool → SyncManager × ℕ → SyncManager × ℕ
unfolding set_service_state
monitor_round true (m, failures) = (set_service_state connected m, 0)
monitor_round false (m, failures) =
    let count = (failures + 1) % 2 ^ 32 in
    (set_service_state (if ltb m.config.max_retries count then error else disconnected) m, count)

-- The loop over the answers that its health checks get. The wait at the end of a round ends the
-- loop on `stopping_`, as the test at the start of the next round does.
unfoldable pub monitor_loop : List Bool → SyncManager × ℕ → SyncManager × ℕ
unfolding monitor_round
monitor_loop [] s = s
monitor_loop (answer ∷ answers) s =
    let next = monitor_loop answers (monitor_round answer s) in if s.0.stopping then s else next
