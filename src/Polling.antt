-- ===== src/Polling.antt =====
-- The polling of updates and its errors: `_handle_critical_api_error`, `_handle_polling_error` and
-- `_start_polling_loop` of pytmbot/pytmbot_instance.py. The readings of the clock are in microseconds,
-- the sleeps in seconds.
pub mod Backoff
mod Tests
use pytmbot.Base.{
  ℕ, zero, suc, ◌+◌, ◌-◌, ◌*◌, ◌/◌, min, max, Bool, true, false, not, ◌||◌, Option, none, some,
  List, [], ◌∷◌, ◌++◌, leb, ltb, if◌then◌else◌,
}
use pytmbot.Base.Eq.{◌==◌, nat_eq}

-- What the polling raises: one of `CriticalExceptionTypes`; an `ApiTelegramException` with its code
-- and the number in its `retry_after`, if it is one (those below zero count as zero, since it is
-- raised to one); another of `PollingExceptionTypes`; or anything else.
pub data Error : Type 0 where
  critical : Error
  api : (code : ℕ) (retry_after : Option ℕ) → Error
  connection unexpected : Error

abbrev pub base_sleep_time : ℕ
base_sleep_time = 10

abbrev pub max_sleep_time : ℕ
max_sleep_time = 300

abbrev circuit_threshold : ℕ
circuit_threshold = 3

abbrev max_open_seconds : ℕ
max_open_seconds = 900

-- The circuit of the rate of the API.
pub record Circuit : Type 0 where
  pub consecutive : ℕ
  pub open_until : Option ℕ

-- The end of handling an error of the API: whether it is recovered from, the sleeps, and the circuit.
pub record Handled : Type 0 where
  pub recovered : Bool
  pub sleeps : List ℕ
  pub circuit : Circuit

abbrev recovered_after : List ℕ → Circuit → Handled
recovered_after sleeps c = record { recovered = true; sleeps = sleeps; circuit = c }

abbrev clamp : Option ℕ → ℕ
clamp raw = max 1 (min (elim raw [ none ↦ 60 | some n ↦ n ]) max_sleep_time)

-- The rate limit while the circuit is not open.
unfoldable pub count_limit : ℕ → ℕ → Circuit → Handled
count_limit retry_after now c =
    let n = c.consecutive + 1 in
    let open_seconds = min (retry_after * n) max_open_seconds in
    if leb circuit_threshold n
    then recovered_after (min open_seconds max_sleep_time ∷ [])
        (record { consecutive = n; open_until = some (now + open_seconds * 1_000_000) })
    else recovered_after (min retry_after max_sleep_time ∷ []) (record c { consecutive = n })

unfoldable pub handle_rate_limited : Option ℕ → ℕ → Circuit → Handled
unfolding count_limit
handle_rate_limited raw now c = elim c.open_until [
  | none ↦ count_limit (clamp raw) now c
  | some until ↦
      if ltb now until
      then recovered_after (min (max 1 ((until - now) / 1_000_000)) max_sleep_time ∷ []) c
      else count_limit (clamp raw) now c
]

-- `_handle_critical_api_error` with the codes of `_is_critical_api_error`; a code that is not one of
-- them is recovered from without more. A conflict is met by the strategy of the module, a stop of the
-- polling and a sleep.
unfoldable pub handle_api_error : ℕ → Option ℕ → ℕ → Circuit → Handled
unfolding handle_rate_limited
handle_api_error code raw now c =
    if code == 401 || (code == 403 || code == 404)
    then record { recovered = false; sleeps = []; circuit = c }
    else if code == 409
    then recovered_after (base_sleep_time * 2 ∷ []) c
    else if code == 429
    then handle_rate_limited raw now c
    else recovered_after [] c

-- The variables of the loop, and the sleeps so far, the last first.
pub record State : Type 0 where
  pub consecutive_errors : ℕ
  pub sleep_time : ℕ
  pub circuit : Circuit
  pub slept : List ℕ

abbrev pub initial : State
initial = record {
  consecutive_errors = 0;
  sleep_time = base_sleep_time;
  circuit = record { consecutive = 0; open_until = none };
  slept = [];
}

-- The end of `_handle_polling_error` for an error that it takes: a sleep, which doubles.
abbrev pub back_off : State → State
back_off s = record s {
  consecutive_errors = s.consecutive_errors + 1;
  sleep_time = min (s.sleep_time * 2) max_sleep_time;
  slept = s.sleep_time ∷ s.slept;
}

-- `_handle_polling_error`; `none` is the error raised again.
unfoldable pub handle_polling_error : Error → ℕ → State → Option State
unfolding handle_api_error
handle_polling_error critical now s = none
handle_polling_error (api code raw) now s =
    let h = handle_api_error code raw now s.circuit in
    if h.recovered
    then some (back_off (record s { circuit = h.circuit; slept = h.sleeps ++ s.slept }))
    else none
handle_polling_error connection now s = some (back_off s)
handle_polling_error unexpected now s = none

-- How a round of the loop ends: the polling returns, or raises at a time.
pub data Round : Type 0 where
  polled : Round
  broken : Error → ℕ → Round

-- A round of `_start_polling_loop`: after an error the polling is stopped and the loop sleeps before
-- the error is handled.
unfoldable pub round : Round → State → Option State
unfolding handle_polling_error
round polled s = some (record initial { slept = s.slept })
round (broken error now) s =
    handle_polling_error error now (record s { slept = s.sleep_time ∷ s.slept })

unfoldable pub poll : List Round → State → Option State
unfolding round
poll [] s = some s
poll (r ∷ rs) s = elim (round r s) [ none ↦ none | some s' ↦ poll rs s' ]
