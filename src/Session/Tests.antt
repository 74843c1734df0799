-- ===== src/Session/Tests.antt =====
-- Runs of the session manager on small inputs, and the theorems at concrete inputs.
use pytmbot.Base.{ℕ, ◌≡◌, refl, true, some, List, [], ◌∷◌, arith}
use pytmbot.Base.Dict.{IsDict, lookup, contains, insert, erase}
use pytmbot.Base.Eq.{nat_eq, string_eq}
use pytmbot.Session.Store.{
  authenticated, processing, blocked, is_state, UserSession, new_session, minutes, Sessions, Config,
  default_config, select, erase_all, is_expired, evict,
}
use pytmbot.Session.Methods.{
  with_session, increment_totp_attempts, get_totp_attempts, is_authenticated, valid_state,
}
use pytmbot.Session.Spares.{evict_spares}
use pytmbot.Session.Current.{IsWithin, current}
use pytmbot.Session.Capacity.{
  Call, of_user, UserCall, set_state, log_in, increment, check_blocked, reset_attempts,
  perform_user, perform, perform_all, perform_all-IsWithin, perform_user-login,
}
use pytmbot.Session.Authentication.{is_authenticated_lem}
use pytmbot.Session.Blocking.{IsShutOut, increment_all, perform_calls, increment_blocks}

abbrev at_minute : ℕ → ℕ → ℕ
at_minute m user = minutes m

abbrev small : Config
small = record default_config { max_sessions = 2 }

abbrev logged_in : UserSession
logged_in = record new_session { auth_state = authenticated; login_time = some (minutes 1) }

abbrev failing : UserSession
failing = record new_session { auth_state = processing; totp_attempts = 4 }

abbrev shut : UserSession
shut = record new_session {
  auth_state = blocked;
  totp_attempts = 5;
  blocked_time = some (minutes 12);
}

abbrev three : Sessions
three = (1, logged_in) ∷ (2, failing) ∷ (3, shut) ∷ []

three-IsDict : IsDict three
unfolding contains
three-IsDict = (refl, (refl, (refl, tt)))

abbrev script : List ((ℕ → ℕ) × Call)
script =
    (at_minute 1, of_user 1 (set_state "authenticated"))
    ∷ (at_minute 1, of_user 1 (log_in (minutes 1)))
    ∷ (at_minute 2, of_user 2 (increment (minutes 2)))
    ∷ (at_minute 2, of_user 3 (increment (minutes 2)))
    ∷ []

-- With room for two, the third user takes the place of the second, who is not logged in.
perform_all-script :
    perform_all small script []
    ≡ (1, logged_in) ∷ (3, record new_session { totp_attempts = 1 }) ∷ []
unfolding perform_all perform perform_user evict select erase_all is_expired valid_state
    with_session lookup contains insert erase
perform_all-script = refl

-- Two sessions that have lost their login since.
abbrev again : UserSession
again = record new_session { auth_state = processing; login_time = some (minutes 1) }

abbrev full : Sessions
full = (1, logged_in) ∷ (2, again) ∷ (3, again) ∷ []

full-IsDict : IsDict full
unfolding contains
full-IsDict = (refl, (refl, (refl, tt)))

evict_spares_example :
    lookup 1 (evict (record small { max_sessions = 3 }) (at_minute 2) full).1 ≡ some logged_in
unfolding evict select erase_all is_expired lookup erase
evict_spares_example =
    evict_spares (record small { max_sessions = 3 }) (at_minute 2) full full-IsDict 1 3 logged_in
      again refl refl refl refl refl

perform_all-IsWithin_example : IsWithin small (perform_all small script [])
perform_all-IsWithin_example = perform_all-IsWithin small script (omega arith)

perform_user-login_example : is_state (current 1 three).auth_state authenticated ≡ true
unfolding perform_user with_session lookup insert
perform_user-login_example =
    perform_user-login small (at_minute 2) 1 (log_in (minutes 2)) three refl refl

is_authenticated_lem_example :
    (is_authenticated small (at_minute 11) 1 (minutes 11) (minutes 11) (minutes 11) three).0 ≡ true
unfolding lookup
is_authenticated_lem_example =
    is_authenticated_lem small (at_minute 11) 1 (minutes 11) (minutes 11) (minutes 11) three

-- What the user does while the block lasts.
abbrev meanwhile : List ((ℕ → ℕ) × UserCall)
meanwhile =
    (at_minute 3, check_blocked (minutes 3) (minutes 3))
    ∷ (at_minute 4, reset_attempts)
    ∷ (at_minute 5, increment (minutes 5))
    ∷ []

increment_blocks_example :
    let (attempts, e) =
      increment_totp_attempts small
        (at_minute 2)
        2
        (minutes 2)
        (increment_all small (at_minute 2) 2 (minutes 1 ∷ []) three) in
    (attempts ≡ 6)
    × ((get_totp_attempts small (at_minute 3) 2 e).0 ≡ attempts)
    × IsShutOut small
        (at_minute 11)
        2
        (minutes 12)
        (minutes 13)
        (minutes 13)
        (perform_calls small 2 meanwhile e)
unfolding lookup
increment_blocks_example =
    increment_blocks small (at_minute 2) (at_minute 3) (at_minute 11) 2 (minutes 2) (minutes 12)
      (minutes 13) (minutes 13) (minutes 1 ∷ []) meanwhile three (omega arith)
      (omega arith, (tt, (omega arith, tt))) (omega arith)
