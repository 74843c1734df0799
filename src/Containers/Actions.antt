-- ===== src/Containers/Actions.antt =====
-- pytmbot/adapters/docker/container_manager.py: the actions' names, the statuses that they lead to,
-- the history of operations, time-outs and the check of a new name.
use pytmbot.Base.{
  ℕ, ◌+◌, max, Bool, not, ◌&&◌, ◌||◌, Option, none, some, List, [], ◌∷◌, ◌++◌, ◌-◌, ◌⊎◌, inl, inr,
  ltb, leb, length, take, if◌then◌else◌,
}
use pytmbot.Base.Dict.{Dict, insert, erase}
use pytmbot.Base.Eq.{◌==◌, nat_eq, string_eq}
use pytmbot.Base.Text.{strip, is_space, all_of, codes_eq}
use pytmbot.Containers.{
  seconds, Operation, start, stop, restart, rename, Invalid, empty_name, name_too_long,
  name_too_short, bad_name_format, Error, timed_out, Run, Config,
}

-- `str.upper` on the ASCII letters and on the other characters that it turns into letters of the
-- actions' names: the long s and the two ligatures of s and t.
abbrev upper_char : ℕ → List ℕ
upper_char c =
    if leb b'a' c && leb c b'z'
    then (c - 32) ∷ []
    else if c == 383
    then b'S' ∷ []
    else if c == 64261 || c == 64262
    then b'S' ∷ b'T' ∷ []
    else c ∷ []

unfoldable pub upper : List ℕ → List ℕ
upper [] = []
upper (c ∷ text) = upper_char c ++ upper text

abbrev start_value : List ℕ
start_value = b'S' ∷ b'T' ∷ b'A' ∷ b'R' ∷ b'T' ∷ []

abbrev stop_value : List ℕ
stop_value = b'S' ∷ b'T' ∷ b'O' ∷ b'P' ∷ []

abbrev restart_value : List ℕ
restart_value = b'R' ∷ b'E' ∷ start_value

abbrev rename_value : List ℕ
rename_value = b'R' ∷ b'E' ∷ b'N' ∷ b'A' ∷ b'M' ∷ b'E' ∷ []

-- `ContainerAction.from_str`: `none` is the `ValueError`.
unfoldable pub from_str : List ℕ → Option Operation
unfolding upper
from_str value =
    let name = upper value in
    if name == start_value
    then some start
    else if name == stop_value
    then some stop
    else if name == restart_value
    then some restart
    else if name == rename_value
    then some rename
    else none

abbrev pub running : List ℕ
running = b'r' ∷ b'u' ∷ b'n' ∷ b'n' ∷ b'i' ∷ b'n' ∷ b'g' ∷ []

abbrev pub restarting : List ℕ
restarting = b'r' ∷ b'e' ∷ b's' ∷ b't' ∷ b'a' ∷ b'r' ∷ b't' ∷ b'i' ∷ b'n' ∷ b'g' ∷ []

abbrev pub exited : List ℕ
exited = b'e' ∷ b'x' ∷ b'i' ∷ b't' ∷ b'e' ∷ b'd' ∷ []

abbrev pub stopped : List ℕ
stopped = b's' ∷ b't' ∷ b'o' ∷ b'p' ∷ b'p' ∷ b'e' ∷ b'd' ∷ []

-- `current_status in expected_statuses`, for the operation's own set.
abbrev pub is_expected : Operation → List ℕ → Bool
is_expected stop status = status == exited || status == stopped
is_expected _ status = status == running || status == restarting

-- The operation's name in a key of the history.
abbrev pub name_of : Operation → List ℕ
name_of start = b's' ∷ b't' ∷ b'a' ∷ b'r' ∷ b't' ∷ []
name_of stop = b's' ∷ b't' ∷ b'o' ∷ b'p' ∷ []
name_of restart = b'r' ∷ b'e' ∷ b's' ∷ b't' ∷ b'a' ∷ b'r' ∷ b't' ∷ []
name_of rename = b'r' ∷ b'e' ∷ b'n' ∷ b'a' ∷ b'm' ∷ b'e' ∷ []

-- `sorted(..., key=lambda x: x[1])`: entries of one time keep their order.
unfoldable pub insert_by_time : List ℕ × ℕ → Dict (List ℕ) ℕ → Dict (List ℕ) ℕ
insert_by_time (key, t) [] = (key, t) ∷ []
insert_by_time (key, t) ((j, u) ∷ d) =
    let rest = insert_by_time (key, t) d in if leb t u then (key, t) ∷ (j, u) ∷ d else (j, u) ∷ rest

unfoldable pub sort_by_time : Dict (List ℕ) ℕ → Dict (List ℕ) ℕ
unfolding insert_by_time
sort_by_time [] = []
sort_by_time (e ∷ d) = insert_by_time e (sort_by_time d)

-- `for key, _ in oldest_keys: del self._operation_history[key]`
unfoldable pub del_keys : List (List ℕ × ℕ) → Dict (List ℕ) ℕ → Dict (List ℕ) ℕ
del_keys [] d = d
del_keys ((key, t) ∷ keys) d = del_keys keys (erase key d)

unfoldable pub record_operation : ℕ → Operation → List ℕ → Dict (List ℕ) ℕ → Dict (List ℕ) ℕ
unfolding sort_by_time del_keys
record_operation now op container_id d =
    let d' = insert (name_of op ++ b':' ∷ container_id) now d in
    if ltb 100 (length d') then del_keys (take 10 (sort_by_time d')) d' else d'

abbrev pub max_operation_timeout : ℕ
max_operation_timeout = seconds 30

abbrev or_else : ℕ → Option ℕ → ℕ
or_else default none = default
or_else default (some n) = n

-- `max(float(timeout) + 5.0, self._max_operation_timeout)`
abbrev with_margin : ℕ → ℕ
with_margin timeout = max (timeout + seconds 5) max_operation_timeout

abbrev pub timeout_of : Config → Operation → ℕ
timeout_of c stop = with_margin (or_else (seconds 10) c.stop_timeout)
timeout_of c restart = with_margin (or_else (seconds 10) c.restart_timeout)
timeout_of c _ = or_else max_operation_timeout c.start_timeout

-- `_run_with_timeout` of a run that ended so: leaving the `with ThreadPoolExecutor` waits for the
-- thread, so that the run has ended, with its effect, in either case. A time-out of zero counts as
-- not given.
unfoldable pub run_with_timeout : ℕ → Run → Option Error
run_with_timeout timeout r =
    if ltb (if timeout == 0 then max_operation_timeout else timeout) r.took
    then some timed_out
    else r.failure

-- `is_new_name_valid` of pytmbot/utils/validation.py.
unfoldable pub is_new_name_valid : List ℕ → Bool
is_new_name_valid name = leb 1 (length name) && leb (length name) 64 && not (all_of is_space name)

-- `_rename_container` before its `try`: the name, or what is wrong with it.
unfoldable pub check_name : List ℕ → Invalid ⊎ List ℕ
check_name [] = inl empty_name
check_name (c ∷ text) =
    let name = strip (c ∷ text) in
    if ltb 64 (length name)
    then inl name_too_long
    else if ltb (length name) 1
    then inl name_too_short
    else if is_new_name_valid name
    then inr name
    else inl bad_name_format
