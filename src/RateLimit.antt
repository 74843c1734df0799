-- ===== src/RateLimit.antt =====
-- pytmbot/middleware/rate_limit.py: the sliding-window rate limiter, method by method. Times are
-- whole microseconds since `datetime.min`, the resolution of `datetime`; each reading of the clock
-- is an argument. The methods hold one lock, so each of them is one step on the state.
pub mod Window
pub mod Spec
pub mod Violations
mod Tests
use pytmbot.Base.{
  ℕ, ◌+◌, ◌-◌, ◌*◌, Bool, true, false, Option, none, some, List, [], ◌∷◌, ◌++◌, leb, ltb, length,
  get_or, min, if◌then◌else◌,
}
use pytmbot.Base.Dict.{Dict, lookup, contains, insert, erase}
use pytmbot.Base.Eq.{◌==◌, nat_eq}
use pytmbot.Telegram.{
  User, Update, message, callback_query, BotCall, send_message, answer_callback_query, Verdict,
  proceed, cancel_update, rate_limit_warning,
}

pub record Limits : Type 0 where
  pub limit : ℕ
  pub period : ℕ

pub record State : Type 0 where
  pub user_requests : Dict ℕ (List ℕ)
  pub violation_count : Dict ℕ ℕ
  pub last_violation_log : Dict ℕ ℕ

abbrev pub minutes : ℕ → ℕ
minutes n = n * 60_000_000

abbrev pub violation_backoff_intervals : List ℕ
violation_backoff_intervals = minutes 1 ∷ minutes 5 ∷ minutes 15 ∷ minutes 30 ∷ minutes 60 ∷ []

-- The two `ValueError`s of `__init__`.
pub data InitError : Type 0 where
  limit_not_positive period_not_positive : InitError

pub data Created : Type 0 where
  created : Limits → State → Created
  refused : InitError → Created

unfoldable pub create : ℕ → ℕ → Created
create limit period =
    if leb limit 0
    then refused limit_not_positive
    else if leb period 0
    then refused period_not_positive
    else created (record { limit = limit; period = period })
        (record { user_requests = []; violation_count = []; last_violation_log = [] })

-- An entry of a `defaultdict`: the stored value, or the default.
abbrev pub or_default {ℓ} : {A : Type ℓ} → A → Option A → A
or_default d none = d
or_default d (some a) = a

abbrev pub requests_of : ℕ → State → List ℕ
requests_of user s = or_default [] (lookup user s.user_requests)

-- `while requests and requests[0] < cutoff_time: requests.popleft()`
unfoldable pub drop_stale : ℕ → List ℕ → List ℕ
drop_stale cutoff [] = []
drop_stale cutoff (t ∷ ts) =
    let rest = drop_stale cutoff ts in if ltb t cutoff then rest else t ∷ ts

-- The end of `_clean_old_requests_locked`, once the stale entries are gone: an empty deque takes
-- the user's counters with it.
unfoldable pub store_cleaned : ℕ → List ℕ → State → State
store_cleaned user [] s = record {
  user_requests = erase user s.user_requests;
  violation_count = erase user s.violation_count;
  last_violation_log = erase user s.last_violation_log;
}
store_cleaned user (t ∷ ts) s = record s { user_requests = insert user (t ∷ ts) s.user_requests }

-- `_clean_old_requests_locked`: (cleaned, remaining).
unfoldable pub clean_requests : ℕ → ℕ → List ℕ → State → (ℕ × ℕ) × State
unfolding store_cleaned
clean_requests user cutoff [] s = ((0, 0), s)
clean_requests user cutoff (t ∷ ts) s =
    if leb cutoff t
    then ((0, length (t ∷ ts)), s)
    else let kept = drop_stale cutoff (t ∷ ts) in
      ((length (t ∷ ts) - length kept, length kept), store_cleaned user kept s)

unfoldable pub clean_old_requests : Limits → ℕ → ℕ → State → (ℕ × ℕ) × State
unfolding clean_requests
clean_old_requests l user now s = clean_requests user (now - l.period) (requests_of user s) s

-- `self._user_requests[user_id].append(current_time)`, and the reset of the violation counter.
unfoldable pub register_request : ℕ → ℕ → State → (ℕ × Bool) × State
register_request user now s =
    let requests = requests_of user s ++ now ∷ [] in
    let known = contains user s.violation_count in
    (
      (length requests, known),
      record s {
        user_requests = insert user requests s.user_requests;
        violation_count = if known then insert user 0 s.violation_count else s.violation_count;
      },
    )

-- `_check_and_track_request`: (is_limited, current_requests, violation_reset).
unfoldable pub check_and_track : Limits → ℕ → ℕ → State → (Bool × ℕ × Bool) × State
unfolding clean_old_requests register_request
check_and_track l user now s =
    let ((_, current), s') = clean_old_requests l user now s in
    if leb l.limit current
    then ((true, current, false), s')
    else let ((current', reset), s'') = register_request user now s' in
      ((false, current', reset), s'')

-- `VIOLATION_BACKOFF_INTERVALS[min(count - 1, 4)]`, for a count of at least one.
unfoldable pub backoff_interval : ℕ → ℕ
backoff_interval count =
    get_or violation_backoff_intervals (min (count - 1) (length violation_backoff_intervals - 1)) 0

-- `_should_log_violation`. Reading a `defaultdict` stores the default it returns.
unfoldable pub should_log_violation : ℕ → ℕ → State → Bool × State
unfolding backoff_interval
should_log_violation user now s =
    let count = or_default 0 (lookup user s.violation_count) in
    let last = or_default 0 (lookup user s.last_violation_log) in
    let s' : State = record s {
      violation_count = insert user count s.violation_count;
      last_violation_log = insert user last s.last_violation_log;
    } in
    (if count == 0 then true else leb (backoff_interval count) (now - last), s')

-- The part of `_handle_rate_limit` that holds the lock: (violation_count, should_log).
unfoldable pub track_violation : ℕ → ℕ → State → (ℕ × Bool) × State
unfolding should_log_violation
track_violation user now s =
    let count = or_default 0 (lookup user s.violation_count) + 1 in
    let (should_log, s') =
      should_log_violation user now
        (record s { violation_count = insert user count s.violation_count }) in
    (
      (count, should_log),
      if should_log
          then record s' { last_violation_log = insert user now s'.last_violation_log }
          else s',
    )

-- The warning that `_handle_rate_limit` sends; a failure to send is only logged.
unfoldable pub warn : Update → List BotCall
warn (callback_query ident user chat payload) =
    answer_callback_query ident rate_limit_warning false ∷ []
warn (message user none text) = []
warn (message user (some chat) text) = send_message chat rate_limit_warning ∷ []

abbrev pub from_user : Update → Option User
from_user (message user chat text) = user
from_user (callback_query ident user chat payload) = user

-- The outcome of `pre_process`: its verdict, its calls, and whether a violation was logged.
pub record Outcome : Type 0 where
  pub verdict : Verdict
  pub calls : List BotCall
  pub logged : Bool
  pub state : State

unfoldable pub handle_rate_limit : ℕ → Update → ℕ → State → Outcome
unfolding track_violation warn
handle_rate_limit user update now s =
    let ((_, should_log), s') = track_violation user now s in
    record { verdict = cancel_update; calls = warn update; logged = should_log; state = s' }

-- `pre_process` for a known user: the clock is read once for the check and once more on a violation.
unfoldable pub process_user : Limits → ℕ → Update → ℕ → ℕ → State → Outcome
unfolding check_and_track handle_rate_limit
process_user l user update now later s =
    let ((limited, _, _), s') = check_and_track l user now s in
    if limited
    then handle_rate_limit user update later s'
    else record { verdict = proceed; calls = []; logged = false; state = s' }

unfoldable pub pre_process : Limits → Update → ℕ → ℕ → State → Outcome
unfolding process_user
pre_process l update now later s = elim (from_user update) [
  | none ↦ record { verdict = cancel_update; calls = []; logged = false; state = s }
  | some user ↦ process_user l user.id update now later s
]
