-- ===== src/Concurrent/Order/Matched/Tests.antt =====
-- Two tasks whose results change their order before the service is given up.
use mathlib.Core.List.{Permᴰ}
use clsync.Base.{◌≡◌, refl, false, [], ◌∷◌}
use clsync.Text.{codes, equal}
use clsync.Task.{error, SyncTask}
use clsync.Task.Sample.{settings, fetch}
use clsync.Results.{Results}
use clsync.Manager.{SyncManager, init, set_result_callback}
use clsync.Manager.Service.{set_service_state, fail_result}
use clsync.Manager.Lifecycle.{admit, launch, new_result}
use clsync.Concurrent.{System, enqueues, serves, launches, sets_callback, Reach}
use clsync.Concurrent.Invariant.Steps.{initial}
use clsync.Concurrent.Order.Matched.{
  HashedReach, unmoved, steps, rehashes, Agrees, HashedReach-Reach,
}

abbrev other : SyncTask
other = record fetch { id = codes "b" }

abbrev queued_manager : SyncManager
queued_manager =
    (admit other false 2 []
      (admit fetch false 1 [] (launch (set_result_callback (init settings)))).manager).manager

abbrev turned : Results
turned = (codes "b", new_result other) ∷ (codes "a", new_result fetch) ∷ []

abbrev failed_system : System
failed_system = record {
  manager = set_service_state error (record queued_manager { results = turned });
  jobs = [];
}

turned_run : HashedReach (initial settings) failed_system
unfolding init launch set_result_callback admit equal
turned_run =
    steps
      (rehashes
        (steps
          (steps (steps (steps unmoved sets_callback) (launches refl)) (enqueues fetch false 1 []))
          (enqueues other false 2 []))
        (Permᴰ.swap refl refl))
      (serves error)

-- The callback gets the results in the order of the map.
delivered_order :
    failed_system.manager.delivered
    ≡ fail_result (new_result other) ∷ fail_result (new_result fetch) ∷ []
unfolding init launch set_result_callback admit set_service_state equal
delivered_order = refl

HashedReach-Reach_example :
    (k : SyncManager) × Reach (initial settings) (record { manager = k; jobs = [] })
    × Agrees failed_system.manager k
HashedReach-Reach_example = HashedReach-Reach settings turned_run
