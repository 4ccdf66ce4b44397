-- ===== src/Concurrent/Invariant/Service.antt =====
-- `set_service_state` and `stop` keep the invariant.
use clsync.Base.{◌≡◌, refl, sym, ◌∙◌, inl, inr, [], Option, some, none, arith, Bool-cases}
use clsync.Task.{ServiceState, SyncResult}
use clsync.Results.{map_option, update_all, lookup, lookup-update_all}
use clsync.Manager.{same_service}
use clsync.Manager.Service.{fail_result, set_service_state}
use clsync.Manager.Lifecycle.{begin_stop, cancel}
use clsync.Concurrent.{System, attempts_of}
use clsync.Concurrent.Count.{waiting_state, running_state, count, waiting, running}
use clsync.Concurrent.Invariant.{Inv}

-- The change ends every task that waits and no other.
abbrev EndsWaiting : (SyncResult → SyncResult) → Type 0
EndsWaiting f =
    (r : SyncResult)
    → (waiting_state (f r).state ≡ 0)
      × (running_state (f r).state ≡ running_state r.state)
      × ((f r).attempts ≡ r.attempts)

map_option-weights :
    (f : SyncResult → SyncResult) (o : Option SyncResult)
    → EndsWaiting f
    → (waiting (map_option f o) ≡ 0)
      × (running (map_option f o) ≡ running o)
      × (attempts_of (map_option f o) ≡ attempts_of o)
map_option-weights f none ends = (refl, refl, refl)
map_option-weights f (some r) ends = ends r

-- Such a change keeps the invariant if both queues are emptied with it.
cleared-Inv :
    (s : System) (f : SyncResult → SyncResult)
    → EndsWaiting f
    → Inv s
    → Inv (record s {
      manager = record s.manager {
        results = update_all f s.results;
        small_queue = [];
        large_queue = [];
      };
    })
unfolding count
cleared-Inv s f ends v = record {
  queued = λ id. rw lookup-update_all (sym (map_option-weights f (lookup id s.results) ends).0);
  held = λ id.
      rw lookup-update_all (v.held id ∙ sym (map_option-weights f (lookup id s.results) ends).1);
  active = v.active;
  small_items = tt;
  large_items = tt;
  budget = λ id.
      rw lookup-update_all
        (omega (arith, v.budget id, map_option-weights f (lookup id s.results) ends));
}

fail_result-EndsWaiting : EndsWaiting fail_result
unfolding fail_result
fail_result-EndsWaiting r = ground arith

cancel-EndsWaiting : EndsWaiting cancel
cancel-EndsWaiting r = ground arith

pub set_service_state-Inv :
    (s : System) (state : ServiceState)
    → Inv s
    → Inv (record s { manager = set_service_state state s.manager })
unfolding set_service_state
set_service_state-Inv s state v =
    let w = cleared-Inv s fail_result fail_result-EndsWaiting v in
    elim (Bool-cases (same_service s.manager.service_state state)) [
      | inl same ↦ rw same v
      | inr new ↦ elim (Bool-cases (same_service state ServiceState.error)) [
        | inl broken ↦ rw (new, broken) w
        | inr other ↦ rw (new, other) v
      ]
    ]

pub begin_stop-Inv : (s : System) → Inv s → Inv (record s { manager = begin_stop s.manager })
unfolding begin_stop
begin_stop-Inv s v = cleared-Inv s cancel cancel-EndsWaiting v
