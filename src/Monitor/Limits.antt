-- ===== src/Monitor/Limits.antt =====
-- The budget of notifications and the interval of pytmbot/plugins/monitor/methods.py.
use pytmbot.Base.{
  ℕ, ◌≤◌, Bool, true, false, ◌&&◌, Option, none, some, List, [], ◌∷◌, arith, leb, ltb, max,
  if-keeps,
}
use pytmbot.Base.Dict.{lookup, erase}
use pytmbot.Base.Eq.{nat_eq}
use pytmbot.Base.Text.{codes_eq}
use pytmbot.Monitor.{
  Config, State, Notice, alert, initial, send_notification, maybe_reset_notification_budget,
  adjust_check_interval, Observation, find_active_event_id, search_events, search_afresh, use_index,
  search_and_index, create_event, notify_if_new, create_or_notify_event, resolve_event_and_notify,
  observe, is_unresolved,
}

-- A step of the monitor's cycle.
pub data Step : Type 0 where
  adjusted : Option ℕ → Step
  observed : Observation → Step

module _ (c : Config) (uuid4 : ℕ → ℕ) where
  -- The budget is kept, and the interval is at least a second and at most the longer of half a
  -- minute and the configured one.
  abbrev pub IsWithin : State → Type 0
  IsWithin s =
      (s.notification_count ≤ c.max_notifications)
      × (1 ≤ s.check_interval)
      × (s.check_interval ≤ max 30 (max 1 c.configured_interval))

  reset-IsWithin :
      (now : ℕ) (s : State) → IsWithin s → IsWithin (maybe_reset_notification_budget now s)
  unfolding maybe_reset_notification_budget
  reset-IsWithin now s h =
      if-keeps IsWithin (ltb 0 s.next_notification_reset_at && leb s.next_notification_reset_at now)
        (omega arith, h.1, h.2) h

  send-IsWithin :
      (counts works : Bool) (now : ℕ) (n : Notice) (s : State)
      → IsWithin s
      → IsWithin (send_notification c counts works now n s).1
  unfolding send_notification
  send-IsWithin false works now n s h = h
  send-IsWithin true works now n s h = ground (arith, reset-IsWithin now s h)

  search_afresh-IsWithin : (t : List ℕ) (s : State) → IsWithin s → IsWithin (search_afresh t s).1
  unfolding search_afresh
  search_afresh-IsWithin t s h = by_found (search_events t s.active_events)
    where
      by_found : (o : Option ℕ) → IsWithin (search_and_index t s o).1
      by_found none = h
      by_found (some i) = h

  use_index-IsWithin :
      (t : List ℕ) (s : State) (o : Option ℕ) → IsWithin s → IsWithin (use_index t s o).1
  use_index-IsWithin t s none h = search_afresh-IsWithin t s h
  use_index-IsWithin t s (some i) h =
      if-keeps (λ (r : Option ℕ × State). IsWithin r.1) (is_unresolved (lookup i s.active_events)) h
        (search_afresh-IsWithin t (record s { active_event_ids = erase t s.active_event_ids }) h)

  notify-IsWithin :
      (o : Observation) (r : Option ℕ × State)
      → IsWithin r.1
      → IsWithin (notify_if_new c uuid4 o r).1
  unfolding notify_if_new create_event
  notify-IsWithin o (some i, s) h = h
  notify-IsWithin o (none, s) h =
      send-IsWithin true o.works o.now (alert o.of_type) (create_event uuid4 o.now o.of_type s) h

  observe-IsWithin : (o : Observation) (s : State) → IsWithin s → IsWithin (observe c uuid4 o s).1
  unfolding observe create_or_notify_event resolve_event_and_notify find_active_event_id
  observe-IsWithin o s h =
      if-keeps (λ (r : List Notice × State). IsWithin r.1) o.is_over
        (notify-IsWithin o (find_active_event_id o.of_type s)
          (use_index-IsWithin o.of_type s (lookup o.of_type s.active_event_ids) h))
        h

  adjust-IsWithin :
      (load : Option ℕ) (s : State) → IsWithin s → IsWithin (adjust_check_interval c load s)
  unfolding adjust_check_interval
  adjust-IsWithin none s h = h
  adjust-IsWithin (some load) s h = ground (arith, h)

  unfoldable pub run : List Step → State → State
  run [] s = s
  run (adjusted load ∷ steps) s = run steps (adjust_check_interval c load s)
  run (observed o ∷ steps) s = run steps (observe c uuid4 o s).1

  run_from-IsWithin : (steps : List Step) (s : State) → IsWithin s → IsWithin (run steps s)
  unfolding run
  run_from-IsWithin [] s h = h
  run_from-IsWithin (adjusted load ∷ steps) s h =
      run_from-IsWithin steps (adjust_check_interval c load s) (adjust-IsWithin load s h)
  run_from-IsWithin (observed o ∷ steps) s h =
      run_from-IsWithin steps (observe c uuid4 o s).1 (observe-IsWithin o s h)

  -- After any steps from the start on, whatever the loads, the observations and the sendings: at
  -- most the configured number of notifications is counted at a time, and the interval is at least
  -- one second and at most the longer of 30 seconds and the configured one.
  pub run-IsWithin : (steps : List Step) → IsWithin (run steps (initial c))
  run-IsWithin steps = run_from-IsWithin steps (initial c) (omega arith, omega arith, omega arith)
