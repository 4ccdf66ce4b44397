-- ===== src/Program/Deadlock.antt =====
-- The end of main in net/sync.cpp, where `manager.stop()` runs under `ipc_mutex`.
use clsync.Base.{
  ℕ, ◌≡◌, ◌≢◌, ◌⊎◌, inl, inr, refl, sym, ap, ◌∙◌, Bool, true, false, List, [], ◌∷◌, ◌++◌, Option,
  arith,
}
use clsync.Text.{Bytes}
use clsync.Task.{SyncResult}
use clsync.FileSystem.{FileSystem}
use clsync.Settings.{Environment}
use clsync.Concurrent.Frame.{Step-IsFramed}
use clsync.Program.{Point, Program, stops, sets_stopping, joins, processes, exits, startup, runs}
use clsync.Program.Kept.{IsWork-IsService}
use clsync.Program.Start.{startup-Prepared}
use clsync.Program.Run.{
  MainStep, works, calls, accepts, commands_stop, refuses, reports_error, skips_stop, begins_stop,
  says_stopping, joins_threads, starts_waiting, wakes, times_out, judges_results, announces,
  answers, Runs,
}

-- The places behind the announcement of the end, up to the exit.
abbrev is_closing : Point → Bool
is_closing (stops to) = is_closing to
is_closing (sets_stopping to) = is_closing to
is_closing (joins to) = is_closing to
is_closing (processes succeeded) = true
is_closing _ = false

HoldsLock : Program → Type 0
HoldsLock p = is_closing p.point ≡ true → p.locked ≡ true

false-ne-true : false ≢ true
false-ne-true e = cc

MainStep-HoldsLock : {fs : FileSystem} {p q : Program} → MainStep fs p q → HoldsLock p → HoldsLock q
unfolding HoldsLock
MainStep-HoldsLock (works st results w d) k h = k h
MainStep-HoldsLock (calls before after r e l) k h = k h
MainStep-HoldsLock (accepts disk now command rest task reply e asked called granted) k h =
    absurd (false-ne-true h)
MainStep-HoldsLock (commands_stop command rest e asked) k h = absurd (false-ne-true h)
MainStep-HoldsLock (refuses disk now command rest reply e called denied) k h =
    absurd (false-ne-true h)
MainStep-HoldsLock (reports_error fuel stat socket e l done) k h = absurd (false-ne-true h)
MainStep-HoldsLock (skips_stop to e s) k h = k (ap is_closing e ∙ h)
MainStep-HoldsLock (begins_stop to e s) k h = k (ap is_closing e ∙ h)
MainStep-HoldsLock (says_stopping to e) k h = k (ap is_closing e ∙ h)
MainStep-HoldsLock (joins_threads to e j d) k h = k (ap is_closing e ∙ h)
MainStep-HoldsLock (starts_waiting e) k h = absurd (false-ne-true h)
MainStep-HoldsLock (wakes idle e w) k h = absurd (false-ne-true h)
MainStep-HoldsLock (times_out e) k h = absurd (false-ne-true h)
MainStep-HoldsLock (judges_results idle e) k h = absurd (false-ne-true h)
MainStep-HoldsLock (announces succeeded e l) k h = refl
MainStep-HoldsLock (answers succeeded fuel stat socket e done) k h = absurd (false-ne-true h)

Runs-HoldsLock : {fs : FileSystem} {p q : Program} → Runs fs p q → HoldsLock p → HoldsLock q
Runs-HoldsLock Runs.here k = k
Runs-HoldsLock (Runs.next run st) k = MainStep-HoldsLock st (Runs-HoldsLock run k)

-- main is in its last `stop`, up to the joins.
abbrev IsStopping : Program → Type 0
IsStopping p =
    ((succeeded : Bool) × (p.point ≡ stops (processes succeeded))
      × (p.system.manager.started ≡ true))
    ⊎ ((succeeded : Bool) × (p.point ≡ sets_stopping (processes succeeded)))
    ⊎ ((succeeded : Bool) × (p.point ≡ joins (processes succeeded)))

-- There, main holds `ipc_mutex`, and a call of the result callback is due.
record IsStuck (p : Program) : Type 0 where
  place : IsStopping p
  locked : p.locked ≡ true
  due : p.due ≢ []

append_empty : (due results : List SyncResult) → due ++ results ≡ [] → due ≡ []
append_empty [] results e = refl
append_empty (r ∷ due) results e = absurd cc

-- Such a place is none of the others.
elsewhere : (p : Program) (to : Point) → p.point ≡ to → IsStopping p → is_closing to ≡ true
elsewhere p to e (inl (b, f, s)) = ap is_closing (sym e ∙ f)
elsewhere p to e (inr (inl (b, f))) = ap is_closing (sym e ∙ f)
elsewhere p to e (inr (inr (b, f))) = ap is_closing (sym e ∙ f)

not_started :
    (p : Program) (to : Point)
    → p.point ≡ stops to
    → p.system.manager.started ≡ false
    → IsStopping p
    → ⊥
not_started p to e s (inl (b, f, t)) = absurd (false-ne-true (sym s ∙ t))
not_started p to e s (inr (inl (b, f))) = absurd cc
not_started p to e s (inr (inr (b, f))) = absurd cc

stops_to :
    (p : Program) (to : Point) → p.point ≡ stops to → IsStopping p → (b : Bool) × (to ≡ processes b)
stops_to p to e (inl (b, f, t)) = (b, cc)
stops_to p to e (inr (inl (b, f))) = absurd cc
stops_to p to e (inr (inr (b, f))) = absurd cc

sets_to :
    (p : Program) (to : Point)
    → p.point ≡ sets_stopping to
    → IsStopping p
    → (b : Bool) × (to ≡ processes b)
sets_to p to e (inl (b, f, t)) = absurd cc
sets_to p to e (inr (inl (b, f))) = (b, cc)
sets_to p to e (inr (inr (b, f))) = absurd cc

not_processing : (p : Program) (b : Bool) → p.point ≡ processes b → IsStopping p → ⊥
not_processing p b e (inl (c, f, t)) = cc
not_processing p b e (inr (inl (c, f))) = cc
not_processing p b e (inr (inr (c, f))) = cc

MainStep-IsStuck : {fs : FileSystem} {p q : Program} → MainStep fs p q → IsStuck p → IsStuck q
MainStep-IsStuck {fs} {p} (works {t} st results w d) v = record {
  place = elim v.place [
    | inl (b, f, s) ↦ inl (b, f, (Step-IsFramed st (IsWork-IsService st w)).2 ∙ s)
    | inr rest ↦ inr rest
  ];
  locked = v.locked;
  due = λ e. v.due (append_empty p.due results e);
}
MainStep-IsStuck (calls before after r e l) v = absurd (ground (arith, v.locked))
MainStep-IsStuck {fs} {p} (accepts disk now command rest task reply e asked called granted) v =
    absurd (false-ne-true (elsewhere p _ e v.place))
MainStep-IsStuck {fs} {p} (commands_stop command rest e asked) v =
    absurd (false-ne-true (elsewhere p _ e v.place))
MainStep-IsStuck {fs} {p} (refuses disk now command rest reply e called denied) v =
    absurd (false-ne-true (elsewhere p _ e v.place))
MainStep-IsStuck {fs} {p} (reports_error fuel stat socket e l done) v =
    absurd (false-ne-true (elsewhere p _ e v.place))
MainStep-IsStuck {fs} {p} (skips_stop to e s) v = absurd (not_started p to e s v.place)
MainStep-IsStuck {fs} {p} (begins_stop to e s) v =
    let (b, f) = stops_to p to e v.place in
    record { place = inr (inl (b, ap sets_stopping f)); locked = v.locked; due = v.due }
MainStep-IsStuck {fs} {p} (says_stopping to e) v =
    let (b, f) = sets_to p to e v.place in
    record { place = inr (inr (b, ap joins f)); locked = v.locked; due = v.due }
MainStep-IsStuck (joins_threads to e j d) v = absurd (v.due d)
MainStep-IsStuck {fs} {p} (starts_waiting e) v = absurd (false-ne-true (elsewhere p _ e v.place))
MainStep-IsStuck {fs} {p} (wakes idle e w) v = absurd (false-ne-true (elsewhere p _ e v.place))
MainStep-IsStuck {fs} {p} (times_out e) v = absurd (false-ne-true (elsewhere p _ e v.place))
MainStep-IsStuck {fs} {p} (judges_results idle e) v =
    absurd (false-ne-true (elsewhere p _ e v.place))
MainStep-IsStuck {fs} {p} (announces succeeded e l) v =
    absurd (false-ne-true (elsewhere p _ e v.place))
MainStep-IsStuck {fs} {p} (answers succeeded fuel stat socket e done) v =
    absurd (not_processing p succeeded e v.place)

Runs-IsStuck : {fs : FileSystem} {p q : Program} → Runs fs p q → IsStuck p → IsStuck q
Runs-IsStuck Runs.here v = v
Runs-IsStuck (Runs.next run st) v = MainStep-IsStuck st (Runs-IsStuck run v)

-- In every run of the program from its start: when main has announced the end, its manager is still
-- started, and a call of the result callback is due that has not locked `ipc_mutex` yet, then the
-- program never ends, whatever main and the threads do: main has no exit code, and a call stays due.
pub announced-never_exits :
    (fs : FileSystem) (disk : fs.Disk) (env : Environment) (fd : Option ℕ) (args : List Bytes)
    (succeeded : Bool) {start p q : Program}
    → startup fs disk env fd args ≡ runs start
    → Runs fs start p
    → p.point ≡ stops (processes succeeded)
    → p.system.manager.started ≡ true
    → p.due ≢ []
    → Runs fs p q
    → ((code : ℕ) → q.point ≢ exits code) × (q.due ≢ [])
unfolding HoldsLock
announced-never_exits fs disk env fd args succeeded {start} {p} {q} made before place alive due
      after =
    let (c, prepared) = startup-Prepared fs disk env fd args start made in
    let lock =
      Runs-HoldsLock before
        (λ h. absurd (false-ne-true (sym (ap is_closing prepared.point) ∙ h))) in
    let stuck = Runs-IsStuck after (record {
      place = inl (succeeded, place, alive);
      locked = lock (ap is_closing place);
      due = due;
    }) in
    ((λ code e. absurd (false-ne-true (elsewhere q _ e stuck.place))), stuck.due)
