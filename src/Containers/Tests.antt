-- ===== src/Containers/Tests.antt =====
-- Runs of the container manager on a small daemon, and the theorems at concrete inputs.
use pytmbot.Base.{
  ℕ, ◌+◌, ◌≤◌, ◌≡◌, ◌⊎◌, refl, true, false, Option, none, some, List, [], ◌∷◌, arith, length,
  if◌then◌else◌,
}
use pytmbot.Base.Dict.{lookup, insert}
use pytmbot.Base.Eq.{◌==◌, nat_eq}
use pytmbot.Base.Text.{strip, lower, codes_eq}
use pytmbot.Session.Store.{authenticated, UserSession, new_session, minutes, default_config}
use pytmbot.Containers.{
  seconds, Operation, start, stop, restart, rename, invalid_action, value_error, permission_error,
  too_soon, other_error, Outcome, done, raised, Container, Fetched, found, failed, Run, Daemon,
  Config, Readings, State, max_rate_limited_users, check_interval,
}
use pytmbot.Containers.Actions.{exited, running, from_str}
use pytmbot.Containers.Manager.{managing_container}
use pytmbot.Containers.Admission.{checks, admitted_once_a_second}
use pytmbot.Containers.Guarded.{IsPermitted, IsUntouched, managing_container-IsGuarded}
use pytmbot.Containers.Outcomes.{IsCarriedOut, managing_container-IsCarriedOut}
use pytmbot.Containers.Reports.{IsSummedUp, managing_container-IsSummedUp}
use pytmbot.Containers.Bounds.{Call, IsBounded, manage_all, manage_all-IsBounded}

-- A daemon with one container, known by the text `a`.
abbrev get_one : List ℕ → Container → Fetched
get_one ref x = if ref == (b'a' ∷ []) then found x else failed (other_error "NotFound")

abbrev run_one : Operation → Container → Container
run_one stop x = record x { status = exited }
run_one _ x = record x { status = running }

abbrev one : Daemon Container
one = record {
  connect = λ x. none;
  get = get_one;
  run = λ op ref x. (record { failure = none; took = seconds 2 }, run_one op x);
  set_name = λ ref n x. (none, record x { name = n });
  reload = get_one;
}

abbrev admins : Config
admins = record {
  allowed_admins_ids = 7 ∷ [];
  session = default_config;
  start_timeout = none;
  stop_timeout = none;
  restart_timeout = none;
}

abbrev at_second : ℕ → Readings
at_second n = record {
  limited_at = seconds n;
  session_clock = λ u. seconds n;
  blocked_at = seconds n;
  unblocked_at = seconds n;
  expired_at = seconds n;
  recorded_at = seconds n;
}

abbrev logged_in : UserSession
logged_in = record new_session { auth_state = authenticated; login_time = some (seconds 1) }

abbrev before : State Container
before = record {
  rate_limits = λ op. [];
  operation_history = [];
  sessions = (7, logged_in) ∷ [];
  world = record { name = b'x' ∷ []; status = running };
}

-- ` Stop `
abbrev stop_text : List ℕ
stop_text = b' ' ∷ b'S' ∷ b't' ∷ b'o' ∷ b'p' ∷ b' ' ∷ []

abbrev stopped_one : State Container
stopped_one = (managing_container admins one (at_second 9) 7 (b'a' ∷ []) stop_text none before).1

managing-stop :
    (managing_container admins one (at_second 9) 7 (b'a' ∷ []) stop_text none before).0 ≡ done
unfolding managing_container strip pytmbot.Base.Text.drop_trailing pytmbot.Base.Text.skip_spaces
    pytmbot.Base.Text.is_space pytmbot.Containers.normalize_container_id lower lookup
    pytmbot.Containers.is_listed pytmbot.Session.Methods.is_authenticated
    pytmbot.Session.Methods.with_session pytmbot.Session.Store.is_blocked_now
    pytmbot.Session.Store.is_expired
managing-stop = refl

abbrev new_text : Option (List ℕ)
new_text = none

-- A stop that is not allowed, by a user who is no administrator.
managing_container-IsGuarded_example :
    IsUntouched admins
      (at_second 9)
      8
      before
      (managing_container admins one (at_second 9) 8 (b'a' ∷ []) stop_text none before).1
    ⊎ ((op : Operation) × (from_str (lower (strip stop_text)) ≡ some op)
        × IsPermitted admins (at_second 9) 8 op before)
managing_container-IsGuarded_example =
    managing_container-IsGuarded admins one (at_second 9) 8 none before (b'a' ∷ []) stop_text

managing_container-IsCarriedOut_example :
    IsCarriedOut admins one
      (at_second 9)
      7
      none
      before
      (lower (strip stop_text))
      (strip (b'a' ∷ []))
      stopped_one.world
managing_container-IsCarriedOut_example =
    managing_container-IsCarriedOut admins one (at_second 9) 7 none before (b'a' ∷ []) stop_text
      managing-stop

-- ` rename`
abbrev rename_text : List ℕ
rename_text = b' ' ∷ b'r' ∷ b'e' ∷ b'n' ∷ b'a' ∷ b'm' ∷ b'e' ∷ []

-- An empty new name is reported as an invalid action.
managing-empty_name :
    (managing_container admins one (at_second 9) 7 (b'a' ∷ []) rename_text (some []) before).0
    ≡ raised (value_error (invalid_action (lower (strip rename_text))))
unfolding managing_container strip pytmbot.Base.Text.drop_trailing pytmbot.Base.Text.skip_spaces
    pytmbot.Base.Text.is_space pytmbot.Containers.normalize_container_id lower lookup
    pytmbot.Containers.is_listed pytmbot.Session.Methods.is_authenticated
    pytmbot.Session.Methods.with_session pytmbot.Session.Store.is_blocked_now
    pytmbot.Session.Store.is_expired
managing-empty_name = refl

managing_container-IsSummedUp_example :
    IsSummedUp admins one
      (at_second 9)
      7
      (some [])
      before
      rename_text
      (managing_container admins one (at_second 9) 7 (b'a' ∷ []) rename_text (some []) before).0
managing_container-IsSummedUp_example =
    managing_container-IsSummedUp admins one (at_second 9) 7 (some []) before (b'a' ∷ [])
      rename_text

abbrev stop_at : ℕ → Call
stop_at n = record {
  user_id = 7;
  container_id = b'a' ∷ [];
  action = stop_text;
  new_container_name = none;
  readings = at_second n;
}

before-IsBounded : IsBounded before
before-IsBounded = ((λ op. omega arith), omega arith)

manage_all-IsBounded_example :
    IsBounded (manage_all admins one (stop_at 9 ∷ stop_at 12 ∷ []) before)
manage_all-IsBounded_example =
    manage_all-IsBounded admins one (stop_at 9 ∷ stop_at 12 ∷ []) before before-IsBounded

-- The second stop within a second is refused, by the dictionary that the first has left.
managing-too_soon :
    (managing_container admins one (at_second 9) 7 (b'a' ∷ []) stop_text none stopped_one).0
    ≡ raised (permission_error too_soon)
unfolding managing_container strip pytmbot.Base.Text.drop_trailing pytmbot.Base.Text.skip_spaces
    pytmbot.Base.Text.is_space pytmbot.Containers.normalize_container_id lower lookup
    pytmbot.Containers.is_listed pytmbot.Session.Methods.is_authenticated
    pytmbot.Session.Methods.with_session pytmbot.Session.Store.is_blocked_now
    pytmbot.Session.Store.is_expired insert
managing-too_soon = refl

-- A start of the container in the same moment is not: it has a dictionary of its own.
managing-start :
    (managing_container admins one
      (at_second 9)
      7
      (b'a' ∷ [])
      (b's' ∷ b't' ∷ b'a' ∷ b'r' ∷ b't' ∷ [])
      none
      stopped_one).0
    ≡ done
unfolding managing_container strip pytmbot.Base.Text.drop_trailing pytmbot.Base.Text.skip_spaces
    pytmbot.Base.Text.is_space pytmbot.Containers.normalize_container_id lower lookup
    pytmbot.Containers.is_listed pytmbot.Session.Methods.is_authenticated
    pytmbot.Session.Methods.with_session pytmbot.Session.Store.is_blocked_now
    pytmbot.Session.Store.is_expired insert
managing-start = refl

first-admitted : (check_interval (seconds 9) 7 []).0 ≡ true
unfolding check_interval lookup
first-admitted = refl

tracked_users : length (check_interval (seconds 9) 7 []).1 + 1 ≤ max_rate_limited_users
unfolding check_interval lookup insert
tracked_users = omega arith

admitted_once_a_second_example :
    (check_interval
      (seconds 9 + 5)
      7
      (checks ((seconds 9, 8) ∷ []) (check_interval (seconds 9) 7 []).1)).0
    ≡ false
admitted_once_a_second_example =
    admitted_once_a_second 7 (seconds 9) (seconds 9 + 5) ((seconds 9, 8) ∷ []) [] first-admitted
      tracked_users ((λ e. ground (arith, e)), tt) (omega arith)
