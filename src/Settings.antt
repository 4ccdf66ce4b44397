-- ===== src/Settings.antt =====
-- The settings that net/sync.cpp reads from the environment: set_unsigned_from_environment and
-- load_configuration. `unsigned long` has 64 bits, so `std::stoul` reads what `std::stoull` does.
-- An `error` is `fails`; what a failing call leaves in the configuration is not kept, since main
-- returns then.
pub mod Accepted
pub mod Decimal
mod Tests
use clsync.Base.{
  ℕ, ◌-◌, ◌^◌, Bool, true, false, not, ◌&&◌, [], ◌∷◌, ◌++◌, Option, some, none, ◌==◌, ltb, all,
  if◌then◌else◌,
}
use clsync.Text.{Bytes, codes, is_space}
use clsync.Task.{SyncConfig}
use clsync.FileSystem.{Answer, ok, fails}
use clsync.Command.Numbers.{skip_space, stoull}

-- `std::getenv`; `none` is a null pointer.
abbrev pub Environment : Type 0
Environment = Bytes → Option Bytes

infixl 5 ◌>>=◌
abbrev pub ◌>>=◌ : {A B : Type 0} → Answer A → (A → Answer B) → Answer B
ok a >>= f = f a
fails message >>= f = fails message

-- `*raw == '\0' || *raw == '-'`.
abbrev pub lacks_number : Bytes → Bool
lacks_number [] = true
lacks_number (c ∷ cs) = c == b'-'

-- A number, and only white space behind it. `none` stands for the exceptions too.
unfoldable pub parse_whole : Bytes → Option ℕ
unfolding stoull
parse_whole raw = elim (stoull raw) [
  | none ↦ none
  | some (parsed, rest) ↦ if all is_space rest then some parsed else none
]

abbrev invalid : Bytes → {A : Type 0} → Answer A
invalid name = fails (codes "Invalid " ++ name)

-- `(!allow_zero && parsed == 0) || parsed > max`.
abbrev pub out_of_range : Bool → ℕ → Bool
out_of_range allow_zero parsed =
    if not allow_zero && parsed == 0 then true else ltb (2 ^ 32 - 1) parsed

-- What the call leaves in `value`.
unfoldable pub set_unsigned_from_environment : Environment → Bytes → ℕ → Bool → Answer ℕ
unfolding skip_space parse_whole
set_unsigned_from_environment env name value allow_zero = elim (env name) [
  | none ↦ ok value
  | some text ↦
      let raw = skip_space text in
      if lacks_number raw then invalid name else elim (parse_whole raw) [
        | none ↦ invalid name
        | some parsed ↦ if out_of_range allow_zero parsed then invalid name else ok parsed
      ]
]

-- The local variable starts at 0, and `if (parsed)` keeps the old value then.
unfoldable pub set_nonzero : Environment → Bytes → ℕ → Bool → Answer ℕ
unfolding set_unsigned_from_environment
set_nonzero env name value allow_zero = do
  parsed ← set_unsigned_from_environment env name 0 allow_zero
  ok (if parsed == 0 then value else parsed)

unfoldable pub read_threshold : Environment → ℕ → Answer ℕ
unfolding skip_space parse_whole
read_threshold env value = elim (env (codes "CLSYNC_LARGE_FILE_THRESHOLD")) [
  | none ↦ ok value
  | some text ↦
      let threshold = skip_space text in
      if lacks_number threshold
      then invalid (codes "CLSYNC_LARGE_FILE_THRESHOLD")
      else elim (parse_whole threshold) [
        | none ↦ invalid (codes "CLSYNC_LARGE_FILE_THRESHOLD")
        | some parsed ↦ ok parsed
      ]
]

abbrev pub read_agent : Option Bytes → Bytes → Bytes
read_agent none old = old
read_agent (some agent) old = agent

unfoldable pub load_configuration : Environment → SyncConfig → Answer SyncConfig
unfolding set_unsigned_from_environment set_nonzero read_threshold
load_configuration env config = do
  small ←
      set_unsigned_from_environment env (codes "CLSYNC_SMALL_WORKERS") config.small_file_workers
        false
  large ←
      set_unsigned_from_environment env (codes "CLSYNC_LARGE_WORKERS") config.large_file_workers
        false
  retries ← set_unsigned_from_environment env (codes "CLSYNC_MAX_RETRIES") config.max_retries true
  timeout ← set_nonzero env (codes "CLSYNC_TIMEOUT_MS") config.network_timeout_ms false
  delay ← set_nonzero env (codes "CLSYNC_RETRY_DELAY_MS") config.retry_delay true
  interval ← set_nonzero env (codes "CLSYNC_MONITOR_INTERVAL_MS") config.monitor_interval false
  threshold ← read_threshold env config.large_file_threshold
  ok (record config {
    user_agent = read_agent (env (codes "CLSYNC_USER_AGENT")) config.user_agent;
    large_file_threshold = threshold;
    small_file_workers = small;
    large_file_workers = large;
    max_retries = retries;
    network_timeout_ms = timeout;
    retry_delay = delay;
    monitor_interval = interval;
  })
