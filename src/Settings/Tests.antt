-- ===== src/Settings/Tests.antt =====
-- An environment for the settings of net/sync.cpp.
use clsync.Base.{◌≡◌, refl, true, false, some, none, inr, arith, if◌then◌else◌}
use clsync.Text.{codes, equal, is_space}
use clsync.Task.{SyncConfig}
use clsync.Task.Sample.{settings}
use clsync.FileSystem.{ok, fails}
use clsync.Manager.Lifecycle.{lacks_workers}
use clsync.Command.Numbers.{skip_space, stoull}
use clsync.Command.Numbers.Decimal.{digits_of}
use clsync.Settings.{
  Environment, parse_whole, set_unsigned_from_environment, set_nonzero, read_threshold,
  load_configuration,
}
use clsync.Settings.Accepted.{
  IsUsable, without_delay, load_configuration-IsUsable, load_configuration-retry_delay,
}
use clsync.Settings.Decimal.{set_unsigned_from_environment-decimal}

abbrev sample : Environment
unfolding equal
sample name =
    if equal name (codes "CLSYNC_RETRY_DELAY_MS")
    then some (codes "0")
    else if equal name (codes "CLSYNC_SMALL_WORKERS")
    then some (codes " 12 ")
    else none

abbrev loaded : SyncConfig
loaded = record settings { small_file_workers = 12 }

settings-IsUsable : IsUsable settings
settings-IsUsable = record {
  small = (omega arith, omega arith);
  large = (omega arith, omega arith);
  retries = omega arith;
  timeout = (omega arith, omega arith);
}

loads : load_configuration sample settings ≡ ok loaded
unfolding equal load_configuration set_unsigned_from_environment set_nonzero read_threshold
    parse_whole skip_space stoull is_space
loads = refl

refuses_negative :
    set_unsigned_from_environment (λ name. some (codes "-1")) (codes "N") 3 true
    ≡ fails (codes "Invalid N")
unfolding set_unsigned_from_environment skip_space is_space
refuses_negative = refl

load_configuration-IsUsable_example : IsUsable loaded × (lacks_workers loaded ≡ false)
load_configuration-IsUsable_example =
    load_configuration-IsUsable sample settings loaded settings-IsUsable loads

load_configuration-retry_delay_example :
    load_configuration sample settings ≡ load_configuration (without_delay sample) settings
unfolding equal
load_configuration-retry_delay_example = load_configuration-retry_delay sample settings refl

padded_setting : set_unsigned_from_environment sample (codes "CLSYNC_SMALL_WORKERS") 2 false ≡ ok 12
unfolding equal digits_of is_space
padded_setting =
    set_unsigned_from_environment-decimal sample (codes "CLSYNC_SMALL_WORKERS") (codes " ")
      (codes " ") 12 2 false refl refl refl (omega arith) (inr (omega arith))
