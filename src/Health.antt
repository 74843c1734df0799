-- ===== src/Health.antt =====
-- pytmbot/health_system/health_system.py: the levels, the checkers with their caches, and what each
-- checker makes of what it reads. Times are whole microseconds, percentages are thousandths of a
-- percent. The details of a result, which are only shown, are left out.
pub mod Monitor
pub mod Overall
pub mod Rounds
pub mod Freshness
pub mod Stuck
mod Tests
use pytmbot.Base.{
  ℕ, ◌+◌, ◌*◌, ◌/◌, String, Bool, true, false, not, ◌&&◌, ◌||◌, Option, none, some, List, [], ◌∷◌,
  ltb, leb, length, min, if◌then◌else◌,
}
use pytmbot.Base.Dict.{Dict}
use pytmbot.Base.Eq.{◌==◌, nat_eq}
use pytmbot.Session.Methods.{Stats}

-- `HealthLevel`
pub data HealthLevel : Type 0 where
  healthy degraded unhealthy critical offline : HealthLevel

abbrev pub value : HealthLevel → ℕ
value healthy = 100
value degraded = 75
value unhealthy = 50
value critical = 25
value offline = 0

pub record HealthResult : Type 0 where
  pub level : HealthLevel
  pub component : String
  pub latency : ℕ
  pub timestamp : ℕ

-- `is_operational`
abbrev pub is_operational : HealthLevel → Bool
is_operational level = leb (value degraded) (value level)

pub record SystemHealth : Type 0 where
  pub overall : HealthLevel
  pub components : Dict String HealthResult
  pub timestamp : ℕ
  pub check_duration : ℕ

abbrev pub count_levels : (HealthLevel → Bool) → Dict String HealthResult → ℕ
count_levels p [] = 0
count_levels p ((name, r) ∷ d) = (if p r.level then 1 else 0) + count_levels p d

-- `operational_count`, `total_count`, and the two numbers of `health_ratio`.
abbrev pub operational_count : SystemHealth → ℕ
operational_count h = count_levels is_operational h.components

abbrev pub total_count : SystemHealth → ℕ
total_count h = length h.components

abbrev pub healthy_count : SystemHealth → ℕ
healthy_count h = count_levels (λ l. value l == 100) h.components

-- The cache of a `BaseHealthChecker`.
pub record Cache : Type 0 where
  pub last_check : ℕ
  pub cached_result : Option HealthResult

abbrev pub empty_cache : Cache
empty_cache = record { last_check = 0; cached_result = none }

-- One call of `_perform_check` at two readings of the counter: the result, or an exception after
-- so long.
pub data Performed : Type 0 where
  performed : HealthResult → Performed
  raised : (latency timestamp : ℕ) → Performed

abbrev pub result_of : String → Performed → HealthResult
result_of name (performed r) = r
result_of name (raised latency timestamp) = record {
  level = critical;
  component = name;
  latency = latency;
  timestamp = timestamp;
}

-- `check_sync`, at the time and with the check that it makes if it makes one. The second test, under
-- the lock, reads the same time and finds the same cache but for another thread's check.
unfoldable pub check_sync : String → ℕ → ℕ → Performed → Cache → HealthResult × Cache
check_sync name cache_ttl now check cache =
    let fresh = result_of name check in
    let checked : HealthResult × Cache =
      (fresh, record { last_check = now; cached_result = some fresh }) in
    elim cache.cached_result [
      | none ↦ checked
      | some r ↦ if ltb now (cache.last_check + cache_ttl) then (r, cache) else checked
    ]

-- What the call of `get_me` comes to: an answer with its bot, an answer of nothing, a time-out or a
-- failure of the network, an error of the API with its code, or another exception.
pub data ApiAnswer : Type 0 where
  bot_info no_bot_info no_connection other_exception : ApiAnswer
  api_error : ℕ → ApiAnswer

-- `TelegramApiChecker._perform_check`: `none` is an exception. A bot that is gone is `none` too.
unfoldable pub telegram_level : Option ApiAnswer → ℕ → Option HealthLevel
telegram_level none latency = some offline
telegram_level (some bot_info) latency = some (if ltb 3_000_000 latency then degraded else healthy)
telegram_level (some no_bot_info) latency = some critical
telegram_level (some no_connection) latency = some unhealthy
telegram_level (some (api_error code)) latency = some (
    if code == 401 || code == 403 || code == 404
    then critical
    else if code == 409 || code == 429
    then degraded
    else unhealthy)
telegram_level (some other_exception) latency = none

-- `PollingChecker._perform_check`: the bot with its flag and, if it has a thread that tells, whether
-- that is alive.
unfoldable pub polling_level : Option (Bool × Option Bool) → HealthLevel
polling_level none = offline
polling_level (some (false, alive)) = unhealthy
polling_level (some (true, none)) = healthy
polling_level (some (true, some false)) = critical
polling_level (some (true, some true)) = healthy

-- What the process adapter answers: an exception, nothing, or the two percentages as
-- `_parse_percentage` reads them.
pub data ProcessStats : Type 0 where
  process_exception no_stats : ProcessStats
  percentages : (memory cpu : ℕ) → ProcessStats

abbrev percent : ℕ → ℕ
percent n = n * 1000

-- `SystemResourceChecker._perform_check`
unfoldable pub resource_level : Option ProcessStats → HealthLevel
resource_level none = offline
resource_level (some process_exception) = critical
resource_level (some no_stats) = unhealthy
resource_level (some (percentages memory cpu)) =
    if ltb (percent 90) memory || ltb (percent 95) cpu
    then critical
    else if ltb (percent 80) memory || ltb (percent 90) cpu
    then unhealthy
    else if ltb (percent 70) memory || ltb (percent 80) cpu
    then degraded
    else healthy

-- `SessionChecker._perform_check` of a manager that answers. The ratios are exact here: below 10 ^ 15
-- sessions the quotient of two floats compares with 0.3 and 0.5 like the fractions.
unfoldable pub session_level : Option Stats → HealthLevel
session_level none = offline
session_level (some stats) =
    if stats.total_sessions == 0
    then healthy
    else if ltb stats.total_sessions (2 * stats.blocked_sessions)
    then unhealthy
    else if ltb (3 * stats.total_sessions) (10 * stats.blocked_sessions)
        || ltb 1000 stats.total_sessions
    then degraded
    else healthy
