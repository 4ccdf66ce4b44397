-- ===== src/Settings/Accepted.antt =====
-- What the settings that net/sync.cpp accepts are like.
use clsync.Base.{
  ℕ, ◌^◌, ◌<◌, ◌≡◌, ◌⊎◌, refl, ◌∙◌, ap, Bool, true, false, some, none, arith, ◌==◌, if◌then◌else◌,
}
use clsync.Text.{Bytes, codes, equal, is_space}
use clsync.Task.{SyncConfig}
use clsync.FileSystem.{Answer, ok, fails}
use clsync.Manager.Lifecycle.{lacks_workers}
use clsync.Command.Numbers.{skip_space, stoull}
use clsync.Settings.{
  parse_whole, Environment, ◌>>=◌, set_unsigned_from_environment, set_nonzero, read_agent,
  read_threshold, load_configuration,
}

>>=-eq-ok :
    {A B : Type 0} (m : Answer A) (f : A → Answer B) (b : B)
    → (m >>= f) ≡ ok b
    → (a : A) × (m ≡ ok a) × (f a ≡ ok b)
>>=-eq-ok (ok a) f b h = (a, refl, h)
>>=-eq-ok (fails message) f b h = cc

-- The value is the old one, or one that the test of the range lets through.
set_unsigned-range :
    (env : Environment) (name : Bytes) (value parsed : ℕ) (allow_zero : Bool)
    → set_unsigned_from_environment env name value allow_zero ≡ ok parsed
    → (parsed ≡ value) ⊎ ((parsed < 2 ^ 32) × ((allow_zero ≡ false) → 0 < parsed))
unfolding set_unsigned_from_environment
set_unsigned-range env name value parsed allow_zero h = ground arith

set_nonzero-range :
    (env : Environment) (name : Bytes) (value parsed : ℕ) (allow_zero : Bool)
    → set_nonzero env name value allow_zero ≡ ok parsed
    → (parsed ≡ value) ⊎ ((0 < parsed) × (parsed < 2 ^ 32))
unfolding set_nonzero
set_nonzero-range env name value parsed allow_zero h =
    let (n, read, kept) =
      >>=-eq-ok (set_unsigned_from_environment env name 0 allow_zero) _ parsed h in
    ground (arith, set_unsigned-range env name 0 n allow_zero read)

-- Numbers that fit into an `unsigned int`, with at least one worker for either queue and a timeout.
pub record IsUsable (c : SyncConfig) : Type 0 where
  pub small : (0 < c.small_file_workers) × (c.small_file_workers < 2 ^ 32)
  pub large : (0 < c.large_file_workers) × (c.large_file_workers < 2 ^ 32)
  pub retries : c.max_retries < 2 ^ 32
  pub timeout : (0 < c.network_timeout_ms) × (c.network_timeout_ms < 2 ^ 32)

-- How the accepted configuration came about.
record Loaded (env : Environment) (c d : SyncConfig) : Type 0 where
  small :
      set_unsigned_from_environment env (codes "CLSYNC_SMALL_WORKERS") c.small_file_workers false
      ≡ ok d.small_file_workers
  large :
      set_unsigned_from_environment env (codes "CLSYNC_LARGE_WORKERS") c.large_file_workers false
      ≡ ok d.large_file_workers
  retries :
      set_unsigned_from_environment env (codes "CLSYNC_MAX_RETRIES") c.max_retries true
      ≡ ok d.max_retries
  timeout :
      set_nonzero env (codes "CLSYNC_TIMEOUT_MS") c.network_timeout_ms false
      ≡ ok d.network_timeout_ms
  delay : set_nonzero env (codes "CLSYNC_RETRY_DELAY_MS") c.retry_delay true ≡ ok d.retry_delay

ok_inj : {A : Type 0} (a b : A) → ok a ≡ ok b → a ≡ b
ok_inj a b e = cc

load_configuration-Loaded :
    (env : Environment) (c d : SyncConfig) → load_configuration env c ≡ ok d → Loaded env c d
unfolding load_configuration
load_configuration-Loaded env c d h =
    let (small, small_read, h1) = >>=-eq-ok _ _ d h in
    let (large, large_read, h2) = >>=-eq-ok _ _ d h1 in
    let (retries, retries_read, h3) = >>=-eq-ok _ _ d h2 in
    let (timeout, timeout_read, h4) = >>=-eq-ok _ _ d h3 in
    let (delay, delay_read, h5) = >>=-eq-ok _ _ d h4 in
    let (interval, interval_read, h6) =
      >>=-eq-ok (set_nonzero env (codes "CLSYNC_MONITOR_INTERVAL_MS") c.monitor_interval false) _ d
        h5 in
    let (threshold, threshold_read, h7) =
      >>=-eq-ok (read_threshold env c.large_file_threshold) _ d h6 in
    let made = ok_inj _ d h7 in
    record {
      small = small_read ∙ ap (λ r. ok r.small_file_workers) made;
      large = large_read ∙ ap (λ r. ok r.large_file_workers) made;
      retries = retries_read ∙ ap (λ r. ok r.max_retries) made;
      timeout = timeout_read ∙ ap (λ r. ok r.network_timeout_ms) made;
      delay = delay_read ∙ ap (λ r. ok r.retry_delay) made;
    }

IsUsable-lacks_workers : (c : SyncConfig) → IsUsable c → lacks_workers c ≡ false
IsUsable-lacks_workers c u =
    let small = u.small in let large = u.large in let timeout = u.timeout in ground arith

set_unsigned-zero :
    (env : Environment) (name : Bytes)
    → env name ≡ some (codes "0")
    → set_unsigned_from_environment env name 0 true ≡ ok 0
unfolding set_unsigned_from_environment parse_whole skip_space stoull is_space
set_unsigned-zero env name e = rw (set_unsigned_from_environment, e)

set_nonzero-zero :
    (env : Environment) (name : Bytes) (value : ℕ)
    → env name ≡ some (codes "0")
    → set_nonzero env name value true ≡ ok value
unfolding set_nonzero
set_nonzero-zero env name value e =
    ap (λ m. m >>= λ parsed. ok (if parsed == 0 then value else parsed))
      (set_unsigned-zero env name e)

-- When load_configuration accepts the environment and the numbers that it started from are usable, so
-- are the numbers of the result, and the test by which `start` refuses a configuration does not.
pub load_configuration-IsUsable :
    (env : Environment) (c d : SyncConfig)
    → IsUsable c
    → load_configuration env c ≡ ok d
    → IsUsable d × (lacks_workers d ≡ false)
load_configuration-IsUsable env c d u h =
    let l = load_configuration-Loaded env c d h in
    let small = u.small in
    let large = u.large in
    let retries = u.retries in
    let timeout = u.timeout in
    let usable : IsUsable d = record {
      small = ground (arith, set_unsigned-range _ _ _ _ _ l.small);
      large = ground (arith, set_unsigned-range _ _ _ _ _ l.large);
      retries = ground (arith, set_unsigned-range _ _ _ _ _ l.retries);
      timeout = ground (arith, set_nonzero-range _ _ _ _ _ l.timeout);
    } in
    (usable, IsUsable-lacks_workers d usable)

-- The environment without the variable of the retry delay.
abbrev pub without_delay : Environment → Environment
unfolding equal
without_delay env name = if equal name (codes "CLSYNC_RETRY_DELAY_MS") then none else env name

-- What becomes of the settings, given what reading the retry delay gives.
abbrev after_delay : Environment → SyncConfig → Answer ℕ → Answer SyncConfig
after_delay env c delay_read = do
  small ←
      set_unsigned_from_environment env (codes "CLSYNC_SMALL_WORKERS") c.small_file_workers false
  large ←
      set_unsigned_from_environment env (codes "CLSYNC_LARGE_WORKERS") c.large_file_workers false
  retries ← set_unsigned_from_environment env (codes "CLSYNC_MAX_RETRIES") c.max_retries true
  timeout ← set_nonzero env (codes "CLSYNC_TIMEOUT_MS") c.network_timeout_ms false
  delay ← delay_read
  interval ← set_nonzero env (codes "CLSYNC_MONITOR_INTERVAL_MS") c.monitor_interval false
  threshold ← read_threshold env c.large_file_threshold
  ok (record c {
    user_agent = read_agent (env (codes "CLSYNC_USER_AGENT")) c.user_agent;
    large_file_threshold = threshold;
    small_file_workers = small;
    large_file_workers = large;
    max_retries = retries;
    network_timeout_ms = timeout;
    retry_delay = delay;
    monitor_interval = interval;
  })

-- A retry delay of "0" is neither refused nor followed: load_configuration gives the very answer,
-- accepted or not, that it gives in the same environment without the variable, which leaves the
-- delay as it was.
pub load_configuration-retry_delay :
    (env : Environment) (c : SyncConfig)
    → env (codes "CLSYNC_RETRY_DELAY_MS") ≡ some (codes "0")
    → load_configuration env c ≡ load_configuration (without_delay env) c
unfolding load_configuration set_unsigned_from_environment set_nonzero read_threshold equal
load_configuration-retry_delay env c zero_delay =
    ap (after_delay env c)
      (set_nonzero-zero env (codes "CLSYNC_RETRY_DELAY_MS") c.retry_delay zero_delay)
