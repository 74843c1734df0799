-- ===== src/RateLimit/Violations.antt =====
-- pytmbot/middleware/rate_limit.py on a violation: what is counted, logged and sent, and what
-- `pre_process` decides.
use pytmbot.Base.{
  ℕ, zero, suc, ◌+◌, ◌-◌, ◌≤◌, ◌<◌, ◌≡◌, refl, Bool, true, false, none, some, [], arith, leb, ltb,
  length, Option-cases, inl, inr, if◌then◌else◌,
}
use pytmbot.Base.Dict.{lookup, lookup-insert, insert}
use pytmbot.Base.Eq.{◌==◌, nat_eq, ==_iff}
use pytmbot.Telegram.{Update, User, proceed, cancel_update}
use pytmbot.RateLimit.{
  Limits, State, minutes, or_default, requests_of, drop_stale, backoff_interval,
  should_log_violation, track_violation, warn, from_user, process_user, pre_process,
}
use pytmbot.RateLimit.Window.{check_and_track_lem}

abbrev pub violations : ℕ → State → ℕ
violations user s = or_default 0 (lookup user s.violation_count)

abbrev pub last_log : ℕ → State → ℕ
last_log user s = or_default 0 (lookup user s.last_violation_log)

-- The five intervals, and that a longer run of violations stays at the last of them.
pub backoff_interval_lem :
    (count : ℕ)
    → backoff_interval count ≡ (
        if leb count 1
        then minutes 1
        else if leb count 2
        then minutes 5
        else if leb count 3
        then minutes 15
        else if leb count 4
        then minutes 30
        else minutes 60)
unfolding backoff_interval
backoff_interval_lem zero = refl
backoff_interval_lem (suc zero) = refl
backoff_interval_lem (suc (suc zero)) = refl
backoff_interval_lem (suc (suc (suc zero))) = refl
backoff_interval_lem (suc (suc (suc (suc zero)))) = refl
backoff_interval_lem (suc (suc (suc (suc (suc n))))) = ground arith

module _ (user now other : ℕ) (s : State) where
  -- A violation adds one to the user's counter, and is logged exactly if the backoff interval of
  -- the new count has passed since the last log; then the log time is the present. Nobody else's
  -- counter, log time or requests change.
  pub track_violation_lem :
      let count = violations user s + 1 in
      let (r, s') = track_violation user now s in
      (r ≡ (count, leb (backoff_interval count) (now - last_log user s)))
      × (violations other s' ≡ (if user == other then count else violations other s))
      × (last_log other s'
          ≡ (if (if user == other then r.1 else false) then now else last_log other s))
      × (requests_of other s' ≡ requests_of other s)
  unfolding track_violation should_log_violation
  track_violation_lem = ground (
    arith,
    ==_iff user user,
    ==_iff user other,
    lookup-insert user user (violations user s + 1) s.violation_count,
    lookup-insert user other (violations user s + 1) s.violation_count,
    lookup-insert user other (violations user s + 1)
        (insert user (violations user s + 1) s.violation_count),
    lookup-insert user other (last_log user s) s.last_violation_log,
    lookup-insert user other now (insert user (last_log user s) s.last_violation_log),
  )

backoff_interval-positive : (count : ℕ) → minutes 1 ≤ backoff_interval count
backoff_interval-positive count = ground (arith, backoff_interval_lem count)

-- After a violation that was logged, the user's next violation is logged exactly if the interval
-- of its own, higher count has passed since; the intervals are a minute at least.
log_spacing :
    (user now later : ℕ) (s : State)
    → (track_violation user now s).0.1 ≡ true
    → let ((count, _), s') = track_violation user now s in
      ((track_violation user later s').0.1 ≡ leb (backoff_interval (count + 1)) (later - now))
      × (minutes 1 ≤ backoff_interval (count + 1))
log_spacing user now later s logged = ground (
  arith,
  ==_iff user user,
  track_violation_lem user now user s,
  track_violation_lem user later user (track_violation user now s).1,
  backoff_interval-positive (violations user s + 1 + 1),
)

-- The first violation of a new streak (the counter is at zero) is still not logged while the last
-- log of an earlier streak is less than a minute old.
first_violation_suppressed :
    (user now : ℕ) (s : State)
    → violations user s ≡ 0
    → now < last_log user s + minutes 1
    → (track_violation user now s).0 ≡ (1, false)
first_violation_suppressed user now s fresh soon =
    ground
      (arith, track_violation_lem user now user s, backoff_interval_lem (violations user s + 1))

-- The update is of a user who has fewer than `limit` requests in the window.
abbrev pub passes : Limits → Update → ℕ → State → Bool
passes l update now s = elim (from_user update) [
  | none ↦ false
  | some u ↦ ltb (length (drop_stale (now - l.period) (requests_of u.id s))) l.limit
]

module _ (l : Limits) (update : Update) (now later : ℕ) (s : State) where
  process_user_lem :
      (u : User)
      → let fits = ltb (length (drop_stale (now - l.period) (requests_of u.id s))) l.limit in
        let o = process_user l u.id update now later s in
        (o.verdict ≡ (if fits then proceed else cancel_update))
        × (o.calls ≡ (if fits then [] else warn update))
  unfolding process_user
  process_user_lem u = ground (arith, check_and_track_lem l u.id now u.id s)

  -- `pre_process` lets an update pass exactly if it has a user with fewer than `limit` requests in
  -- the window; it sends nothing then, nor for an update without a user, and the warning otherwise.
  pre_process_verdict :
      let o = pre_process l update now later s in
      (o.verdict ≡ (if passes l update now s then proceed else cancel_update))
      × (o.calls ≡ (
          if passes l update now s
          then []
          else elim (from_user update) [ none ↦ [] | some u ↦ warn update ]))
  unfolding pre_process
  pre_process_verdict = elim (Option-cases (from_user update)) [
    | inl e ↦ ground arith
    | inr (u, e) ↦ ground (arith, process_user_lem u)
  ]
