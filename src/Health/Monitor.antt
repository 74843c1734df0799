-- ===== src/Health/Monitor.antt =====
-- pytmbot/health_system/health_system.py: `HealthMonitor`. The monitor's calls of its checkers are a
-- function from their names; a method that holds the lock twice is one step, which is what its one
-- thread makes of it.
use pytmbot.Base.{
  ℕ, ◌+◌, ◌-◌, ◌*◌, ◌/◌, String, Bool, true, false, not, ◌&&◌, Option, none, some, List, [], ◌∷◌,
  ◌++◌, ltb, leb, length, drop, if◌then◌else◌,
}
use pytmbot.Base.Dict.{Dict, lookup, insert}
use pytmbot.Base.Eq.{◌==◌, nat_eq, string_eq}
use pytmbot.Health.{
  HealthLevel, degraded, unhealthy, critical, offline, value, HealthResult, is_operational,
  SystemHealth, count_levels,
}

-- The checkers are listed with their intervals: `_checkers` and `_intervals` have the same keys.
pub record State : Type 0 where
  pub checkers : Dict String ℕ
  pub history : List SystemHealth
  pub max_history : ℕ
  pub running : Bool
  pub latest : Option SystemHealth
  pub base_interval : ℕ
  pub stop_event : Bool
  pub monitor_failures : ℕ

abbrev pub new_monitor : ℕ → State
new_monitor max_history = record {
  checkers = [];
  history = [];
  max_history = max_history;
  running = false;
  latest = none;
  base_interval = 120_000_000;
  stop_event = false;
  monitor_failures = 0;
}

-- `append` of a `deque` with a greatest length.
unfoldable pub append_bounded : ℕ → SystemHealth → List SystemHealth → List SystemHealth
append_bounded bound h hs = let hs' = hs ++ h ∷ [] in drop (length hs' - bound) hs'

unfoldable pub publish : SystemHealth → State → State
unfolding append_bounded
publish h s = record s { history = append_bounded s.max_history h s.history; latest = some h }

unfoldable pub add_checker : String → ℕ → State → State
add_checker name interval s = record s { checkers = insert name interval s.checkers }

abbrev pub components_of : Option SystemHealth → Dict String HealthResult
components_of none = []
components_of (some h) = h.components

abbrev timestamp_of : Option HealthResult → ℕ
timestamp_of none = 0
timestamp_of (some r) = r.timestamp

-- The check of a component is due: `current_time - last_check >= interval`.
abbrev pub is_due : ℕ → Option SystemHealth → String → ℕ → Bool
is_due now latest name interval =
    leb (timestamp_of (lookup name (components_of latest)) + interval) now

unfoldable pub to_check : ℕ → Option SystemHealth → Dict String ℕ → List String
to_check now latest [] = []
to_check now latest ((name, interval) ∷ d) =
    let rest = to_check now latest d in
    if is_due now latest name interval then name ∷ rest else rest

-- The result that stands for a check that raised; its own reading of the clock is taken for that of
-- the check.
abbrev pub or_critical : String → ℕ → Option HealthResult → HealthResult
or_critical name now (some r) = r
or_critical name now none = record {
  level = critical;
  component = name;
  latency = 0;
  timestamp = now;
}

unfoldable pub update_components :
    ℕ
    → (String → Option HealthResult)
    → List String
    → Dict String HealthResult
    → Dict String HealthResult
update_components now check [] d = d
update_components now check (name ∷ names) d =
    update_components now check names (insert name (or_critical name now (check name)) d)

-- `min` of levels.
abbrev pub worse : HealthLevel → HealthLevel → HealthLevel
worse a b = if ltb (value b) (value a) then b else a

unfoldable pub worst : HealthLevel → Dict String HealthResult → HealthLevel
worst level [] = level
worst level ((name, r) ∷ d) = worst (worse level r.level) d

-- `min(result.level for result in components.values())`, of components that are not empty.
unfoldable pub lowest : Dict String HealthResult → HealthLevel
unfolding worst
lowest [] = offline
lowest ((name, r) ∷ d) = worst r.level d

-- The overall level: offline without components; `unhealthy` is softened while seven in ten are
-- operational.
unfoldable pub overall_of : Dict String HealthResult → HealthLevel
unfolding lowest
overall_of [] = offline
overall_of (e ∷ d) =
    let level = lowest (e ∷ d) in
    let operational = count_levels is_operational (e ∷ d) in
    if (value level == value unhealthy) && leb (7 * length (e ∷ d)) (10 * operational)
    then degraded
    else level

abbrev pub is_empty : List String → Bool
is_empty [] = true
is_empty (name ∷ names) = false

-- `check_all` at the readings of the clock and of the counter.
unfoldable pub health_now : ℕ → ℕ → (String → Option HealthResult) → State → SystemHealth
unfolding to_check update_components overall_of
health_now now duration check s =
    let components =
      update_components now check (to_check now s.latest s.checkers) (components_of s.latest) in
    record {
      overall = overall_of components;
      components = components;
      timestamp = now;
      check_duration = duration;
    }

abbrev pub or_compute : SystemHealth → Bool → State → Option SystemHealth → SystemHealth × State
or_compute fresh nothing_due s none = (fresh, publish fresh s)
or_compute fresh nothing_due s (some h) = if nothing_due then (h, s) else (fresh, publish fresh s)

unfoldable pub check_all : ℕ → ℕ → (String → Option HealthResult) → State → SystemHealth × State
unfolding health_now publish
check_all now duration check s =
    or_compute (health_now now duration check s) (is_empty (to_check now s.latest s.checkers)) s
      s.latest

-- `_publish_monitor_failure`
unfoldable pub failure_health : ℕ → State → SystemHealth
unfolding lowest
failure_health now s =
    let failure : HealthResult = record {
      level = critical;
      component = "health_monitor";
      latency = 0;
      timestamp = now;
    } in
    let components = insert "health_monitor" failure (components_of s.latest) in
    record {
      overall = lowest components;
      components = components;
      timestamp = now;
      check_duration = 0;
    }

-- `start_monitoring` and `stop_monitoring`, but for the thread.
unfoldable pub start_monitoring : ℕ → State → State
start_monitoring base_interval s =
    if s.running
    then s
    else record s { base_interval = base_interval; running = true; stop_event = false }

unfoldable pub stop_monitoring : State → State
stop_monitoring s = if s.running then record s { running = false; stop_event = true } else s

-- The pause after a check, by the overall level.
unfoldable pub interval_after : ℕ → HealthLevel → ℕ
interval_after base_interval overall =
    if leb (value overall) (value unhealthy)
    then base_interval / 2
    else if value overall == value degraded
    then base_interval * 3 / 4
    else base_interval

-- What happens in a round of `_monitor_loop` besides the check: nothing, or an exception before the
-- check has published its result or after.
pub data Trouble : Type 0 where
  fine before_check after_check : Trouble

pub record Round : Type 0 where
  pub now : ℕ
  pub duration : ℕ
  pub failed_at : ℕ
  pub check : String → Option HealthResult
  pub trouble : Trouble

-- The `except` of the loop.
unfoldable pub monitor_failed : ℕ → State → ℕ × State
unfolding failure_health publish
monitor_failed now s =
    let s' : State = record s { monitor_failures = s.monitor_failures + 1 } in
    (s.base_interval, publish (failure_health now s') s')

-- The end of a round, from the states before and after the check.
unfoldable pub end_round : Trouble → ℕ → SystemHealth → State → State → ℕ × State
unfolding interval_after monitor_failed
end_round fine failed_at health s s' =
    (interval_after s.base_interval health.overall, record s' { monitor_failures = 0 })
end_round before_check failed_at health s s' = monitor_failed failed_at s
end_round after_check failed_at health s s' = monitor_failed failed_at s'

-- One round: the pause after it, and the state.
unfoldable pub monitor_round : Round → State → ℕ × State
unfolding check_all end_round
monitor_round q s =
    let (health, s') = check_all q.now q.duration q.check s in
    end_round q.trouble q.failed_at health s s'

-- `_monitor_loop`: the rounds are made while the monitor runs.
unfoldable pub monitor_loop : List Round → State → State
unfolding monitor_round
monitor_loop [] s = s
monitor_loop (q ∷ qs) s =
    let rest = monitor_loop qs (monitor_round q s).1 in
    if s.running && not s.stop_event then rest else s

-- `is_healthy`
unfoldable pub is_healthy : State → Bool
is_healthy s = elim s.latest [ none ↦ false | some h ↦ is_operational h.overall ]
