-- ===== src/Program/ExitCode.antt =====
-- What the exit code of net/sync.cpp tells its caller.
use clsync.Base.{
  ℕ, ◌≡◌, refl, ◌∙◌, sym, subst, true, ◌++◌, ◌∷◌, List, [], Option, some, arith, inl, inr, All,
  All-append, all, drop, append_assoc, append-nil,
}
use clsync.Text.{Bytes}
use clsync.Task.{completed, stopping, SyncConfig, SyncResult}
use clsync.FileSystem.{FileSystem}
use clsync.Results.{Results, lookup}
use clsync.Manager.{init, set_result_callback, result, results_of, values, wait_for_idle}
use clsync.Manager.Lifecycle.{launch, begin_stop, end_stop}
use clsync.Concurrent.{System, Step, Reach, here, next}
use clsync.Concurrent.Invariant.Steps.{initial}
use clsync.Concurrent.Sequential.{Reach-trans}
use clsync.Program.{runs, startup, Program, exits}
use clsync.Program.Run.{
  is_completed, MainStep, works, calls, accepts, commands_stop, refuses, reports_error, skips_stop,
  begins_stop, says_stopping, joins_threads, starts_waiting, wakes, times_out, judges_results,
  announces, answers, Runs,
}
use clsync.Concurrent.Frame.{Step-IsFramed, set_service_state-IsFramed}
use clsync.Program.Kept.{IsWork-IsService, MainStep-Reach}
use clsync.Settings.{Environment}
use clsync.Program.Start.{Prepared, startup-Prepared}
use clsync.Program.Reached.{
  IsKnown, IsDone, Reached, IsKnown-kept, Reached-kept, After-kept, After-Reached,
}
use clsync.Program.Flags.{HasFlags, accepted_command, MainStep-HasFlags}

values-all :
    (m : Results) (id : Bytes) (r : SyncResult)
    → all is_completed (values m) ≡ true
    → lookup id m ≡ some r
    → r.state ≡ completed
unfolding lookup values
values-all [] id r h known = absurd (ground arith)
values-all ((j, q) ∷ m) id r h known = ground (arith, values-all m id r)

-- When every result is Completed, the known commands are done.
judged :
    (s : System) (commands : List Bytes)
    → all is_completed (results_of s.manager) ≡ true
    → All (IsKnown s) commands
    → All (IsDone s) commands
unfolding results_of result
judged s [] h a = tt
judged s (command ∷ commands) h ((task, r, asked, known, same), a) = (
  (task, r, asked, known, same, values-all s.manager.results task.id r h known),
  judged s commands h a,
)

MainStep-Reached :
    (c : SyncConfig) (commands : List Bytes) {fs : FileSystem} {p q : Program}
    → MainStep fs p q
    → Reach (initial c) p.system
    → HasFlags p.system.manager
    → Reached commands p.system p.point
    → Reached commands q.system q.point
unfolding begin_stop end_stop wait_for_idle
MainStep-Reached c commands {fs} {p} (works st results w d) v h a =
    Reached-kept c v (next here st) commands p.point (Step-IsFramed st (IsWork-IsService st w)).2 a
MainStep-Reached c commands (calls before after r e l) v h a = a
MainStep-Reached c commands {fs} {p}
      (accepts disk now command rest task reply e asked called granted) v h a =
    let made =
      accepted_command fs disk now command task p.error p.system.manager reply asked called
        granted in
    let after =
      MainStep-Reach {p = p} (accepts disk now command rest task reply e asked called granted) in
    elim (subst (Reached commands p.system) e a) [
      | inl over ↦ inl (made.1.2 ∙ over)
      | inr (read, split, known) ↦ inr (
        read ++ command ∷ [],
        split ∙ sym (append_assoc read (command ∷ []) rest),
        All-append (IsKnown (record { manager = reply.manager; jobs = p.system.jobs })) read
            (command ∷ []) (IsKnown-kept c v after read known) (made.0 p.system.jobs, tt),
      )
    ]
MainStep-Reached c commands (commands_stop command rest e asked) v h a = tt
MainStep-Reached c commands (refuses disk now command rest reply e called denied) v h a = tt
MainStep-Reached c commands (reports_error fuel stat socket e l done) v h a =
    λ one. absurd (omega (arith, one))
MainStep-Reached c commands {fs} {p} (skips_stop to e s) v h a =
    After-Reached commands p.system to s (subst (Reached commands p.system) e a)
MainStep-Reached c commands {fs} {p} (begins_stop to e s) v h a = (
  refl,
  After-kept c v (next here (Step.begins_stop s)) commands to
      (subst (Reached commands p.system) e a),
)
MainStep-Reached c commands {fs} {p} (says_stopping to e) v h a =
    let (over, b) = subst (Reached commands p.system) e a in
    (
      (set_service_state-IsFramed stopping p.system.manager).2 ∙ over,
      After-kept c v (next here (Step.serves stopping)) commands to b,
    )
MainStep-Reached c commands {fs} {p} (joins_threads to e j d) v h a =
    let (over, b) = subst (Reached commands p.system) e a in
    After-Reached commands (record p.system { manager = end_stop p.system.manager }) to over
      (After-kept c v (next here (Step.ends_stop j)) commands to b)
MainStep-Reached c commands {fs} {p} (starts_waiting e) v h a =
    elim (subst (Reached commands p.system) e a) [
      | inl over ↦ inl over
      | inr (read, split, known) ↦ inr (rw (split ∙ append-nil read) known)
    ]
MainStep-Reached c commands {fs} {p} (wakes idle e w) v h a =
    elim (subst (Reached commands p.system) e a) [
      | inl over ↦ λ good. absurd (ground arith)
      | inr known ↦ λ good. known
    ]
MainStep-Reached c commands (times_out e) v h a = λ bad. absurd (ground arith)
MainStep-Reached c commands {fs} {p} (judges_results idle e) v h a =
    let known = subst (Reached commands p.system) e a in
    λ good. judged p.system commands (ground arith) (known (ground arith))
MainStep-Reached c commands {fs} {p} (announces succeeded e l) v h a =
    subst (Reached commands p.system) e a
MainStep-Reached c commands {fs} {p} (answers succeeded fuel stat socket e done) v h a =
    let known = subst (Reached commands p.system) e a in λ zero_code. known (ground arith)

module _ (c : SyncConfig) (commands : List Bytes) where
  record Good (q : Program) : Type 0 where
    reach : Reach (initial c) q.system
    flags : HasFlags q.system.manager
    reached : Reached commands q.system q.point

  Runs-Good : {fs : FileSystem} {p q : Program} → Good p → Runs fs p q → Good q
  Runs-Good g Runs.here = g
  Runs-Good g (Runs.next run st) =
      let v = Runs-Good g run in
      record {
        reach = Reach-trans v.reach (MainStep-Reach st);
        flags = MainStep-HasFlags st v.flags;
        reached = MainStep-Reached c commands st v.reach v.flags v.reached;
      }

Prepared-Good :
    (c : SyncConfig) (commands : List Bytes) (p : Program)
    → Prepared c commands p
    → Good c commands p
unfolding launch set_result_callback init
Prepared-Good c commands p ready = record {
  reach =
      subst (Reach (initial c)) (sym ready.system)
        (next (next here Step.sets_callback) (Step.launches refl));
  flags = rw ready.system refl;
  reached = subst (Reached commands p.system) (sym ready.point) (inr ([], refl, tt));
}

-- When main exits with 0, each of its commands asked for a task, none of them for a stop, and the
-- manager has completed that very task, whatever the threads did and however main waited.
pub exits-IsDone :
    (fs : FileSystem) (disk : fs.Disk) (env : Environment) (fd : Option ℕ) (args : List Bytes)
    {p q : Program}
    → startup fs disk env fd args ≡ runs p
    → Runs fs p q
    → q.point ≡ exits 0
    → All (IsDone q.system) (drop 3 args)
exits-IsDone fs disk env fd args {p} {q} began run ended =
    let (c, ready) = startup-Prepared fs disk env fd args p began in
    let good = Runs-Good c (drop 3 args) (Prepared-Good c (drop 3 args) p ready) run in
    subst (Reached (drop 3 args) q.system) ended good.reached refl
