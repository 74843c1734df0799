-- ===== src/Health/Stuck.antt =====
-- After a failed round of the loop of pytmbot/health_system/health_system.py.
use pytmbot.Base.{
  ℕ, ◌+◌, ◌≤◌, ◌≡◌, refl, String, Bool, true, false, not, ◌&&◌, Option, none, some, List, [], ◌∷◌,
  arith, if-keeps,
}
use pytmbot.Base.Dict.{Dict, lookup, contains, insert, lookup-insert}
use pytmbot.Base.Eq.{nat_eq, string_eq, ==_refl}
use pytmbot.Health.{HealthLevel, critical, value, HealthResult, SystemHealth}
use pytmbot.Health.Monitor.{
  State, components_of, to_check, health_now, or_compute, check_all, is_empty, publish,
  failure_health, monitor_failed, Trouble, fine, before_check, after_check, Round, end_round,
  monitor_round, monitor_loop, is_healthy, worse, worst, lowest, overall_of,
}
use pytmbot.Health.Freshness.{lookup-update_components, named_absent}

worst-le : (l : HealthLevel) (d : Dict String HealthResult) → value (worst l d) ≤ value l
unfolding worst
worst-le l [] = omega arith
worst-le l ((name, r) ∷ d) = ground (arith, worst-le (worse l r.level) d)

worst-lookup :
    (k : String) (l : HealthLevel) (d : Dict String HealthResult) {r : HealthResult}
    → lookup k d ≡ some r
    → value (worst l d) ≤ value r.level
unfolding worst lookup
worst-lookup k l [] h = ground (arith, h)
worst-lookup k l ((name, x) ∷ d) {r} h =
    ground (arith, h, worst-le (worse l x.level) d, worst-lookup k (worse l x.level) d {r = r})

lowest-lookup :
    (k : String) (d : Dict String HealthResult) {r : HealthResult}
    → lookup k d ≡ some r
    → value (lowest d) ≤ value r.level
unfolding lowest lookup
lowest-lookup k [] h = ground (arith, h)
lowest-lookup k ((name, x) ∷ d) {r} h =
    ground (arith, h, worst-le x.level d, worst-lookup k x.level d {r = r})

overall_of-lookup :
    (k : String) (d : Dict String HealthResult) {r : HealthResult}
    → lookup k d ≡ some r
    → value r.level ≤ 25
    → value (overall_of d) ≤ 25
unfolding overall_of lookup
overall_of-lookup k [] h low = ground (arith, h)
overall_of-lookup k (e ∷ d) {r} h low = ground (arith, low, lowest-lookup k (e ∷ d) {r = r} h)

-- A snapshot with the failure of the monitor among its components.
abbrev IsMarked : SystemHealth → Type 0
IsMarked h =
    (r : HealthResult) × (lookup "health_monitor" h.components ≡ some r)
    × (value r.level ≤ 25)
    × (value h.overall ≤ 25)

abbrev pub IsStuck : State → Type 0
IsStuck s =
    (contains "health_monitor" s.checkers ≡ false)
    × ((h : SystemHealth) × (s.latest ≡ some h) × IsMarked h)

monitor_failed-IsStuck :
    (now : ℕ) (s : State)
    → contains "health_monitor" s.checkers ≡ false
    → IsStuck (monitor_failed now s).1
unfolding monitor_failed publish failure_health
monitor_failed-IsStuck now s free =
    let low : value (lowest (insert "health_monitor" failure (components_of s.latest))) ≤ 25 =
      lowest-lookup "health_monitor" (insert "health_monitor" failure (components_of s.latest))
        {r = failure} stored in
    (free, (failure_health now s', refl, (failure, stored, omega arith, low)))
  where
    s' : State
    s' = record s { monitor_failures = s.monitor_failures + 1 }

    failure : HealthResult
    failure = record {
      level = critical;
      component = "health_monitor";
      latency = 0;
      timestamp = now;
    }

    stored :
        lookup "health_monitor" (insert "health_monitor" failure (components_of s.latest))
        ≡ some failure
    stored = ground (
      arith,
      lookup-insert "health_monitor" "health_monitor" failure (components_of s.latest),
      ==_refl {K = String} "health_monitor",
    )

health_now-IsMarked :
    (now duration : ℕ) (check : String → Option HealthResult) (s : State) (h : SystemHealth)
    → contains "health_monitor" s.checkers ≡ false
    → s.latest ≡ some h
    → IsMarked h
    → IsMarked (health_now now duration check s)
unfolding health_now
health_now-IsMarked now duration check s h free e (r, stored, low, _) =
    let kept : lookup "health_monitor" (health_now now duration check s).components ≡ some r =
      ground (
        arith,
        stored,
        e,
        named_absent "health_monitor" now s.latest s.checkers free,
        lookup-update_components "health_monitor" now check (to_check now s.latest s.checkers)
            (components_of s.latest),
      ) in
    (
      r,
      kept,
      low,
      overall_of-lookup "health_monitor" (health_now now duration check s).components {r = r} kept
          low,
    )

or_compute-IsStuck :
    (fresh : SystemHealth) (idle : Bool) (s : State) (latest : Option SystemHealth)
    → contains "health_monitor" s.checkers ≡ false
    → s.latest ≡ latest
    → ((l : SystemHealth) → latest ≡ some l → IsMarked l)
    → IsMarked fresh
    → IsStuck (or_compute fresh idle s latest).1
unfolding publish
or_compute-IsStuck fresh idle s none free e old new = (free, (fresh, refl, new))
or_compute-IsStuck fresh true s (some l) free e old new = (free, (l, e, old l refl))
or_compute-IsStuck fresh false s (some l) free e old new = (free, (fresh, refl, new))

check_all-IsStuck :
    (now duration : ℕ) (check : String → Option HealthResult) (s : State)
    → IsStuck s
    → IsStuck (check_all now duration check s).1
unfolding check_all
check_all-IsStuck now duration check s (free, (h, e, marked)) =
    or_compute-IsStuck (health_now now duration check s)
      (is_empty (to_check now s.latest s.checkers)) s s.latest free refl
      (λ l e'. let same : h ≡ l = ground (arith, e, e') in rw same at marked)
      (health_now-IsMarked now duration check s h free e marked)

end_round-IsStuck :
    (t : Trouble) (failed_at : ℕ) (health : SystemHealth) (s s' : State)
    → IsStuck s
    → IsStuck s'
    → IsStuck (end_round t failed_at health s s').1
unfolding end_round
end_round-IsStuck fine failed_at health s s' h h' = h'
end_round-IsStuck before_check failed_at health s s' h h' = monitor_failed-IsStuck failed_at s h.0
end_round-IsStuck after_check failed_at health s s' h h' = monitor_failed-IsStuck failed_at s' h'.0

monitor_loop-IsStuck : (qs : List Round) (s : State) → IsStuck s → IsStuck (monitor_loop qs s)
unfolding monitor_loop monitor_round
monitor_loop-IsStuck [] s h = h
monitor_loop-IsStuck (q ∷ qs) s h =
    if-keeps IsStuck (s.running && not s.stop_event)
      (monitor_loop-IsStuck qs (monitor_round q s).1 (
        end_round-IsStuck q.trouble q.failed_at (check_all q.now q.duration q.check s).0 s
          (check_all q.now q.duration q.check s).1 h
          (check_all-IsStuck q.now q.duration q.check s h)))
      h

-- Once a round of the loop has failed, the monitor is not healthy again after any further rounds,
-- whatever they find, if no checker is registered under the name that the failure is published by.
pub failure_stays :
    (failed_at : ℕ) (qs : List Round) (s : State)
    → contains "health_monitor" s.checkers ≡ false
    → is_healthy (monitor_loop qs (monitor_failed failed_at s).1) ≡ false
unfolding is_healthy
failure_stays failed_at qs s free =
    let (_, (h, e, (r, stored, low, overall))) =
      monitor_loop-IsStuck qs (monitor_failed failed_at s).1
        (monitor_failed-IsStuck failed_at s free) in
    ground (arith, e, overall)
