-- ===== src/Containers.antt =====
-- pytmbot/adapters/docker/container_manager.py: `validate_access`, the guard of the four container
-- operations, and the state that they share. Times are whole microseconds.
pub mod Actions
pub mod Manager
pub mod Admission
pub mod History
pub mod Bounds
pub mod Guarded
pub mod Outcomes
pub mod Reports
mod Tests
use pytmbot.Base.{
  ℕ, zero, suc, ◌+◌, ◌*◌, String, Bool, true, false, Option, none, some, List, [], ◌∷◌, ltb, leb,
  length, if◌then◌else◌,
}
use pytmbot.Base.Dict.{Dict, lookup, insert, erase}
use pytmbot.Base.Eq.{◌==◌, nat_eq}
use pytmbot.Base.Text.{strip}
use pytmbot.Session.Store.{Sessions}
use pytmbot.Session.Store as Store
use pytmbot.Session.Methods.{is_authenticated}

abbrev pub seconds : ℕ → ℕ
seconds n = n * 1_000_000

-- `ContainerAction`
pub data Operation : Type 0 where
  start stop restart rename : Operation

abbrev pub is_operation : Operation → Operation → Bool
is_operation start start = true
is_operation stop stop = true
is_operation restart restart = true
is_operation rename rename = true
is_operation _ _ = false

-- What a `ValueError` is about.
pub data Invalid : Type 0 where
  empty_action empty_container bad_user empty_name name_too_long name_too_short bad_name_format :
      Invalid
  invalid_action : List ℕ → Invalid
  refused_value : String → Invalid

-- What a `PermissionError` is about; the last one is a refusal by the operating system.
pub data Denial : Type 0 where
  too_soon not_admin not_authenticated by_system : Denial

pub data Error : Type 0 where
  value_error : Invalid → Error
  key_error : String → Error
  permission_error : Denial → Error
  unexpected : List ℕ → Error
  timed_out : Error
  other_error : String → Error

-- `done` is the `None` that an operation returns.
pub data Outcome : Type 0 where
  done : Outcome
  raised : Error → Outcome

-- The attributes of a `Container` of the Docker client that the operations read.
pub record Container : Type 0 where
  pub name : List ℕ
  pub status : List ℕ

pub data Fetched : Type 0 where
  found : Container → Fetched
  failed : Error → Fetched

-- How a call of the Docker client ended, and how long it took.
pub record Run : Type 0 where
  pub failure : Option Error
  pub took : ℕ

-- The Docker client, with the daemon behind it in a state of type `W`: what a
-- `docker_client_context` raises when it is entered, `containers.get`, the calls that change a
-- container, and `Container.reload`.
pub record Daemon (W : Type 0) : Type 0 where
  pub connect : W → Option Error
  pub get : List ℕ → W → Fetched
  pub run : Operation → List ℕ → W → Run × W
  pub set_name : List ℕ → List ℕ → W → Option Error × W
  pub reload : List ℕ → W → Fetched

-- The settings that the guard and the operations read, a time-out being `none` where the settings
-- have none, with the attributes of the session manager.
pub record Config : Type 0 where
  pub allowed_admins_ids : List ℕ
  pub session : Store.Config
  pub start_timeout : Option ℕ
  pub stop_timeout : Option ℕ
  pub restart_timeout : Option ℕ

-- The readings of the clock by one call: at the test of the interval, by the session manager, and
-- at the record of the operation.
pub record Readings : Type 0 where
  pub limited_at : ℕ
  pub session_clock : ℕ → ℕ
  pub blocked_at : ℕ
  pub unblocked_at : ℕ
  pub expired_at : ℕ
  pub recorded_at : ℕ

-- Each decorated operation has a dictionary of its own; the history is the manager's.
pub record State (W : Type 0) : Type 0 where
  pub rate_limits : Operation → Dict ℕ ℕ
  pub operation_history : Dict (List ℕ) ℕ
  pub sessions : Sessions
  pub world : W

-- `_normalize_container_id`: `none` is the `ValueError`.
abbrev non_empty : List ℕ → Option (List ℕ)
non_empty [] = none
non_empty (c ∷ text) = some (c ∷ text)

unfoldable pub normalize_container_id : List ℕ → Option (List ℕ)
normalize_container_id container_id = non_empty (strip container_id)

-- The constants of `validate_access`.
abbrev pub min_operation_interval : ℕ
min_operation_interval = seconds 1

abbrev pub rate_limit_cache_ttl : ℕ
rate_limit_cache_ttl = seconds 300

abbrev pub max_rate_limited_users : ℕ
max_rate_limited_users = 2048

-- The users last seen before `now` less the time that entries are kept.
unfoldable pub stale_user_ids : ℕ → Dict ℕ ℕ → List ℕ
stale_user_ids now [] = []
stale_user_ids now ((user, last_seen) ∷ d) =
    let rest = stale_user_ids now d in
    if ltb (last_seen + rate_limit_cache_ttl) now then user ∷ rest else rest

unfoldable pub pop_users : List ℕ → Dict ℕ ℕ → Dict ℕ ℕ
pop_users [] d = d
pop_users (user ∷ users) d = pop_users users (erase user d)

-- `min(_rate_limits, key=...)`, beyond a first entry: the first of those seen longest ago.
unfoldable pub oldest_user : ℕ → ℕ → Dict ℕ ℕ → ℕ
oldest_user user seen [] = user
oldest_user user seen ((u, t) ∷ d) =
    oldest_user (if ltb t seen then u else user) (if ltb t seen then t else seen) d

unfoldable pub pop_oldest : Dict ℕ ℕ → Dict ℕ ℕ
pop_oldest [] = []
pop_oldest ((user, seen) ∷ d) = erase (oldest_user user seen d) ((user, seen) ∷ d)

-- `while len(_rate_limits) > max_rate_limited_users`, for so many rounds at most.
unfoldable pub pop_while : ℕ → Dict ℕ ℕ → Dict ℕ ℕ
pop_while zero d = d
pop_while (suc rounds) d =
    let rest = pop_while rounds (pop_oldest d) in
    if ltb max_rate_limited_users (length d) then rest else d

unfoldable pub clean_rate_limits : ℕ → Dict ℕ ℕ → Dict ℕ ℕ
clean_rate_limits now d =
    let d' = pop_users (stale_user_ids now d) d in
    if ltb max_rate_limited_users (length d) then pop_while (length d') d' else d

abbrev pub or_zero : Option ℕ → ℕ
or_zero none = 0
or_zero (some t) = t

-- The part of the guard that holds the lock: whether the call may go on.
unfoldable pub check_interval : ℕ → ℕ → Dict ℕ ℕ → Bool × Dict ℕ ℕ
unfolding clean_rate_limits
check_interval now user d =
    let d' = clean_rate_limits now d in
    if ltb now (or_zero (lookup user d') + min_operation_interval)
    then (false, d')
    else (true, insert user now d')

-- `user_id in allowed_admins_ids`
unfoldable pub is_listed : ℕ → List ℕ → Bool
is_listed user [] = false
is_listed user (u ∷ us) = if u == user then true else is_listed user us

-- An exception ends the call.
abbrev pub and_then : {W : Type 0} → Outcome × W → (W → Outcome × W) → Outcome × W
and_then (done, s) f = f s
and_then (raised e, s) f = (raised e, s)

module _ {W : Type 0} (c : Config) (k : Readings) (user : ℕ) where
  abbrev pub set_limits : Operation → Dict ℕ ℕ → State W → State W
  set_limits op d s = record s {
    rate_limits = λ o. if is_operation op o then d else s.rate_limits o;
  }

  -- The tests of the administrator and of the session. The session manager has no
  -- `get_session_info`, so that the test of the session's age is not reached.
  unfoldable pub authorize : State W → Outcome × State W
  authorize s =
      if is_listed user c.allowed_admins_ids
      then (let (ok, sessions) =
            is_authenticated c.session k.session_clock user k.blocked_at k.unblocked_at k.expired_at
              s.sessions in
          (
            (if ok then done else raised (permission_error not_authenticated)),
            record s { sessions = sessions },
          ))
      else (raised (permission_error not_admin), s)

  -- `validate_access` around the operation `op`, which takes the normalized identifier.
  unfoldable pub validate_access :
      Operation → (List ℕ → State W → Outcome × State W) → List ℕ → State W → Outcome × State W
  unfolding check_interval authorize
  validate_access op body container_id s =
      if leb user 0
      then (raised (value_error bad_user), s)
      else elim (normalize_container_id container_id) [
        | none ↦ (raised (value_error empty_container), s)
        | some container_ref ↦
            let (admitted, limits) = check_interval k.limited_at user (s.rate_limits op) in
            if admitted
            then and_then (authorize (set_limits op limits s)) (body container_ref)
            else (raised (permission_error too_soon), set_limits op limits s)
      ]
