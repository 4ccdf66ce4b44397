-- ===== src/Shutdown.antt =====
-- The end of main in net/sync.cpp and the result callback, which share `ipc_mutex`. A worker of
-- net/sync_manager.cpp calls the callback after it has counted its task down and released the
-- manager's own mutex, so wait_for_idle can return before the callback has run.
use clsync.Base.{ℕ, suc, ◌+◌, ◌<◌, ◌≡◌, ◌≢◌, ◌⊎◌, inl, inr, refl, arith}

-- Where main is, from the last block on: before its lock_guard, before sendRequest, in
-- manager.stop() where the workers are joined, before processRequests, and at the end.
pub data MainThread : Type 0 where
  locking sending joining processing returned : MainThread

-- Who holds `ipc_mutex`.
pub data Owner : Type 0 where
  nobody main_thread worker : Owner

pub record Threads : Type 0 where
  pub main : MainThread
  pub owner : Owner
  -- The workers that have a task to finish.
  pub running : ℕ
  -- The workers that are about to lock `ipc_mutex` in the callback.
  pub calling : ℕ

pub data EndStep : Threads → Threads → Type 0 where
  locks :
      (r c : ℕ)
      → EndStep
          (record { main = locking; owner = nobody; running = r; calling = c })
          (record { main = sending; owner = main_thread; running = r; calling = c })
  sends :
      (o : Owner) (r c : ℕ)
      → EndStep
          (record { main = sending; owner = o; running = r; calling = c })
          (record { main = joining; owner = o; running = r; calling = c })
  -- A join returns when the worker has ended, so no callback holds the mutex either.
  joins :
      EndStep
        (record { main = joining; owner = main_thread; running = 0; calling = 0 })
        (record { main = processing; owner = main_thread; running = 0; calling = 0 })
  unlocks :
      (r c : ℕ)
      → EndStep
          (record { main = processing; owner = main_thread; running = r; calling = c })
          (record { main = returned; owner = nobody; running = r; calling = c })
  finishes :
      (m : MainThread) (o : Owner) (r c : ℕ)
      → EndStep
          (record { main = m; owner = o; running = suc r; calling = c })
          (record { main = m; owner = o; running = r; calling = suc c })
  enters :
      (m : MainThread) (r c : ℕ)
      → EndStep
          (record { main = m; owner = nobody; running = r; calling = suc c })
          (record { main = m; owner = worker; running = r; calling = c })
  leaves :
      (m : MainThread) (r c : ℕ)
      → EndStep
          (record { main = m; owner = worker; running = r; calling = c })
          (record { main = m; owner = nobody; running = r; calling = c })

pub data Reaches : Threads → Threads → Type 0 where
  stays : (s : Threads) → Reaches s s
  goes : (s t u : Threads) → Reaches s t → EndStep t u → Reaches s u

-- Main at its last block, while callbacks are due.
abbrev pub ending : ℕ → ℕ → Threads
ending r c = record { main = locking; owner = nobody; running = r; calling = c }

-- Main has the mutex and waits, or is about to wait, for a worker that waits for the mutex.
record IsLocked (s : Threads) : Type 0 where
  before_join : (s.main ≡ sending) ⊎ (s.main ≡ joining)
  held : s.owner ≡ main_thread
  due : 0 < s.running + s.calling

EndStep-IsLocked : (s t : Threads) → EndStep s t → IsLocked s → IsLocked t
EndStep-IsLocked s t (locks r c) h = elim h.before_join [ inl e ↦ cc | inr e ↦ cc ]
EndStep-IsLocked s t (sends o r c) h = record { before_join = inr refl; held = h.held; due = h.due }
EndStep-IsLocked s t joins h = absurd (let due = h.due in omega arith)
EndStep-IsLocked s t (unlocks r c) h = elim h.before_join [ inl e ↦ cc | inr e ↦ cc ]
EndStep-IsLocked s t (finishes m o r c) h = record {
  before_join = h.before_join;
  held = h.held;
  due = omega arith;
}
EndStep-IsLocked s t (enters m r c) h = absurd (nobody-ne-main h.held)
  where
    nobody-ne-main : nobody ≢ main_thread
    nobody-ne-main e = cc
EndStep-IsLocked s t (leaves m r c) h = absurd (worker-ne-main h.held)
  where
    worker-ne-main : worker ≢ main_thread
    worker-ne-main e = cc

Reaches-IsLocked : (s t : Threads) → Reaches s t → IsLocked s → IsLocked t
Reaches-IsLocked s t (stays u) h = h
Reaches-IsLocked s t (goes a b c p q) h = EndStep-IsLocked b t q (Reaches-IsLocked s b p h)

IsLocked-main : (s : Threads) → IsLocked s → s.main ≢ returned
IsLocked-main s h e = elim h.before_join [ inl f ↦ sending-ne e f | inr f ↦ joining-ne e f ]
  where
    sending-ne : s.main ≡ returned → s.main ≢ sending
    sending-ne e f = cc

    joining-ne : s.main ≡ returned → s.main ≢ joining
    joining-ne e f = cc

-- When main comes to its last block while a worker still runs or has its callback before it, main can
-- reach a state from which no continuation of any thread lets it return.
ending-Reaches :
    (r c : ℕ)
    → 0 < r + c
    → (s : Threads) × Reaches (ending r c) s × ((t : Threads) → Reaches s t → t.main ≢ returned)
ending-Reaches r c due =
    let taken : Threads = record {
      main = sending;
      owner = main_thread;
      running = r;
      calling = c;
    } in
    let locked : IsLocked taken = record { before_join = inl refl; held = refl; due = due } in
    (
      taken,
      goes _ _ _ (stays _) (locks r c),
      λ t p. IsLocked-main t (Reaches-IsLocked taken t p locked),
    )
