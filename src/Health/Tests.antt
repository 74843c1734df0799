-- ===== src/Health/Tests.antt =====
-- Runs of the health monitor on small inputs, and the theorems at concrete inputs.
use pytmbot.Base.{◌*◌, ◌≤◌, ◌≡◌, ◌↔◌, refl, String, true, false, Option, some, [], ◌∷◌, arith}
use pytmbot.Base.Dict.{IsDict, lookup, contains, insert}
use pytmbot.Base.Eq.{nat_eq, string_eq}
use pytmbot.Health.{
  HealthLevel, healthy, HealthResult, is_operational, total_count, count_levels, operational_count,
}
use pytmbot.Health.Monitor.{
  State, new_monitor, health_now, add_checker, check_all, start_monitoring, monitor_failed,
  monitor_loop, Round, fine, before_check, is_healthy,
}
use pytmbot.Health.Overall.{is_tolerable, health_now-IsFit}
use pytmbot.Health.Rounds.{IsBounded, monitor_loop-IsBounded}
use pytmbot.Health.Freshness.{IsFresh, check_all-IsFresh}
use pytmbot.Health.Stuck.{failure_stays}

abbrev result : HealthLevel → String → HealthResult
result level name = record { level = level; component = name; latency = 0; timestamp = 500 }

abbrev all_well : String → Option HealthResult
all_well name = some (result healthy name)

abbrev monitor : State
monitor =
    start_monitoring 120 (add_checker "polling" 45 (add_checker "sessions" 60 (new_monitor 15)))

abbrev well : Round
well = record { now = 500; duration = 1; failed_at = 501; check = all_well; trouble = fine }

abbrev ill : Round
ill = record well { trouble = before_check }

abbrev later : Round
later = record well { now = 900 }

healthy_at_first : is_healthy (monitor_loop (well ∷ []) monitor) ≡ true
unfolding is_healthy monitor_loop start_monitoring add_checker insert lookup
healthy_at_first = refl

not_again : is_healthy (monitor_loop (well ∷ ill ∷ later ∷ []) monitor) ≡ false
unfolding is_healthy monitor_loop start_monitoring add_checker insert lookup
not_again = refl

unregistered : contains "health_monitor" monitor.checkers ≡ false
unfolding contains start_monitoring add_checker insert
unregistered = refl

failure_stays_example :
    is_healthy (monitor_loop (well ∷ later ∷ []) (monitor_failed 499 monitor).1) ≡ false
failure_stays_example = failure_stays 499 (well ∷ later ∷ []) monitor unregistered

monitor-IsBounded : IsBounded monitor
unfolding start_monitoring add_checker
monitor-IsBounded = omega arith

rounds-IsBounded : IsBounded (monitor_loop (well ∷ ill ∷ later ∷ []) monitor)
rounds-IsBounded = monitor_loop-IsBounded (well ∷ ill ∷ later ∷ []) monitor monitor-IsBounded

monitor-IsDict : IsDict monitor.checkers
unfolding start_monitoring add_checker insert contains
monitor-IsDict = (refl, (refl, tt))

listed : lookup "polling" monitor.checkers ≡ some 45
unfolding lookup start_monitoring add_checker insert
listed = refl

check_all-IsFresh_example : IsFresh 500 all_well "polling" 45 (check_all 500 1 all_well monitor).0
check_all-IsFresh_example =
    check_all-IsFresh 500 1 all_well "polling" 45 (omega arith) monitor monitor-IsDict listed

health_now-IsFit_example : (is_operational (health_now 500 1 all_well monitor).overall ≡ true) ↔ (
    (1 ≤ total_count (health_now 500 1 all_well monitor))
    × (count_levels is_tolerable (health_now 500 1 all_well monitor).components
        ≡ total_count (health_now 500 1 all_well monitor))
    × (7 * total_count (health_now 500 1 all_well monitor)
        ≤ 10 * operational_count (health_now 500 1 all_well monitor)))
health_now-IsFit_example = health_now-IsFit 500 1 all_well monitor
