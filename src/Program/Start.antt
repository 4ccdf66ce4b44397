-- ===== src/Program/Start.antt =====
-- How main of net/sync.cpp comes to its loop over the commands.
use clsync.Base.{
  ℕ, ◌≡◌, refl, ◌∙◌, ap, true, false, ◌∷◌, List, [], Option, arith, inl, inr, drop, Bool-cases,
}
use clsync.Text.{Bytes, codes}
use clsync.Task.{SyncConfig}
use clsync.FileSystem.{FileSystem, Answer-cases}
use clsync.Settings.{Environment, load_configuration}
use clsync.Manager.{init, set_result_callback, SyncManager}
use clsync.Manager.Lifecycle.{start, launch}
use clsync.Program.{Program, reads, runs, startup, prepare, default_config}

-- Over the commands, with the manager just launched.
pub record Prepared (c : SyncConfig) (commands : List Bytes) (p : Program) : Type 0 where
  pub system : p.system ≡ record { manager = launch (set_result_callback (init c)); jobs = [] }
  pub point : p.point ≡ reads commands

start-launch :
    (fs : FileSystem) (disk : fs.Disk) (text : Bytes) (m : SyncManager)
    → m.started ≡ false
    → (start fs disk text m).1.accepted ≡ true
    → (start fs disk text m).1.manager ≡ launch m
unfolding start
start-launch fs disk text m fresh granted = ground arith

fresh : (c : SyncConfig) → (set_result_callback (init c)).started ≡ false
unfolding set_result_callback init
fresh c = refl

prepare-Prepared :
    (fs : FileSystem) (disk : fs.Disk) (path : Option Bytes) (fd : Option ℕ) (commands : List Bytes)
    (c : SyncConfig) (p : Program)
    → prepare fs disk path fd commands c ≡ runs p
    → Prepared c commands p
unfolding prepare
prepare-Prepared fs disk path fd commands c p h =
    elim (Bool-cases (start fs disk [] (set_result_callback (init c))).1.accepted) [
      | inl granted ↦
          let made = start-launch fs disk [] (set_result_callback (init c)) (fresh c) granted in
          let started : p.system ≡ record {
            manager = (start fs disk [] (set_result_callback (init c))).1.manager;
            jobs = [];
          } =
            ground arith in
          record {
            system = started ∙ ap (λ m. record { manager = m; jobs = [] }) made;
            point = ground arith;
          }
      | inr denied ↦ absurd (ground arith)
    ]

pub startup-Prepared :
    (fs : FileSystem) (disk : fs.Disk) (env : Environment) (fd : Option ℕ) (args : List Bytes)
    (p : Program)
    → startup fs disk env fd args ≡ runs p
    → (c : SyncConfig) × Prepared c (drop 3 args) p
unfolding startup
startup-Prepared fs disk env fd [] p h = absurd (ground arith)
startup-Prepared fs disk env fd (name ∷ []) p h = absurd (ground arith)
startup-Prepared fs disk env fd (name ∷ root ∷ []) p h = absurd (ground arith)
startup-Prepared fs disk env fd (name ∷ root ∷ url ∷ []) p h = absurd (ground arith)
startup-Prepared fs disk env fd (name ∷ root ∷ url ∷ command ∷ commands) p h =
    elim (Answer-cases
      (load_configuration env (record default_config { local_root = root; health_url = url }))) [
        | inl (c, loaded) ↦ (
          c,
          prepare-Prepared fs disk (env (codes "CLSYNC_SOCKET_PATH")) fd (command ∷ commands) c p
              (ground arith),
        )
        | inr (message, bad) ↦ absurd (ground arith)
      ]
