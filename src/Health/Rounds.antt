-- ===== src/Health/Rounds.antt =====
-- The monitor's loop of pytmbot/health_system/health_system.py, round by round.
use pytmbot.Base.{
  ℕ, ◌+◌, ◌≤◌, String, Bool, true, false, not, ◌&&◌, Option, none, some, List, [], ◌∷◌, ◌++◌, ◌-◌,
  arith, length, length-drop, if-keeps,
}
use pytmbot.Base.Eq.{nat_eq, string_eq}
use pytmbot.Health.{HealthResult, SystemHealth}
use pytmbot.Health.Monitor.{
  State, to_check, health_now, or_compute, check_all, is_empty, append_bounded, publish,
  failure_health, monitor_failed, Trouble, fine, before_check, after_check, Round, end_round,
  monitor_round, monitor_loop,
}

length-append_bounded :
    (bound : ℕ) (h : SystemHealth) (hs : List SystemHealth)
    → length (append_bounded bound h hs) ≤ bound
unfolding append_bounded
length-append_bounded bound h hs =
    omega (arith, length-drop (length (hs ++ h ∷ []) - bound) (hs ++ h ∷ []))

abbrev pub IsBounded : State → Type 0
IsBounded s = length s.history ≤ s.max_history

or_compute-IsBounded :
    (fresh : SystemHealth) (idle : Bool) (s : State) (latest : Option SystemHealth)
    → IsBounded s
    → IsBounded (or_compute fresh idle s latest).1
unfolding publish
or_compute-IsBounded fresh idle s none h = length-append_bounded s.max_history fresh s.history
or_compute-IsBounded fresh true s (some l) h = h
or_compute-IsBounded fresh false s (some l) h = length-append_bounded s.max_history fresh s.history

check_all-IsBounded :
    (now duration : ℕ) (check : String → Option HealthResult) (s : State)
    → IsBounded s
    → IsBounded (check_all now duration check s).1
unfolding check_all
check_all-IsBounded now duration check s h =
    or_compute-IsBounded (health_now now duration check s)
      (is_empty (to_check now s.latest s.checkers)) s s.latest h

monitor_failed-IsBounded : (now : ℕ) (s : State) → IsBounded (monitor_failed now s).1
unfolding monitor_failed publish
monitor_failed-IsBounded now s =
    length-append_bounded s.max_history
      (failure_health now (record s { monitor_failures = s.monitor_failures + 1 })) s.history

end_round-IsBounded :
    (t : Trouble) (at : ℕ) (health : SystemHealth) (s s' : State)
    → IsBounded s'
    → IsBounded (end_round t at health s s').1
unfolding end_round
end_round-IsBounded fine at health s s' h = h
end_round-IsBounded before_check at health s s' h = monitor_failed-IsBounded at s
end_round-IsBounded after_check at health s s' h = monitor_failed-IsBounded at s'

-- Whatever the checks answer or raise, and wherever the loop's own exceptions come: the history of
-- the monitor has at most `max_history` snapshots after any number of rounds, if so at the start.
pub monitor_loop-IsBounded :
    (qs : List Round) (s : State) → IsBounded s → IsBounded (monitor_loop qs s)
unfolding monitor_loop monitor_round
monitor_loop-IsBounded [] s h = h
monitor_loop-IsBounded (q ∷ qs) s h =
    if-keeps IsBounded (s.running && not s.stop_event)
      (monitor_loop-IsBounded qs (monitor_round q s).1 (
        end_round-IsBounded q.trouble q.failed_at (check_all q.now q.duration q.check s).0 s
          (check_all q.now q.duration q.check s).1
          (check_all-IsBounded q.now q.duration q.check s h)))
      h
