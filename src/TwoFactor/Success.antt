-- ===== src/TwoFactor/Success.antt =====
-- What a verified code brings: the session after `handle_totp_code_verification` of
-- pytmbot/handlers/auth_processing/twofa_processing.py passes `is_authenticated`.
use pytmbot.Base.{ℕ, ◌+◌, ◌≤◌, ◌<◌, ◌≡◌, true, Option, none, some, List, arith}
use pytmbot.Base.Dict.{lookup}
use pytmbot.Base.Eq.{nat_eq, string_eq}
use pytmbot.Telegram.{User}
use pytmbot.Session.Store.{
  authenticated, processing, is_state, UserSession, minutes, Sessions, Config,
}
use pytmbot.Session.Methods.{
  assign_state, get_auth_state, get_totp_attempts, get_blocked_time, is_authenticated,
  set_login_time, get_referer_uri, get_handler_type, reset_referer_data,
}
use pytmbot.Session.Current.{current, with_session_lem}
use pytmbot.Session.Authentication.{is_authenticated_lem}
use pytmbot.TwoFactor.Digits.{extract_totp_code, is_valid_totp_code}
use pytmbot.TwoFactor.Replay.{verify_totp_code}
use pytmbot.TwoFactor.Burst.{consume_totp_attempt}
use pytmbot.TwoFactor.Handler.{
  Auth, Setup, Clocks, create_referer_keyboard, log_in, check_code, guard_attempt,
  handle_totp_code_verification,
}
use pytmbot.TwoFactor.Login.{
  passes_guards, current-with_session, current-assign_state, current-get_auth_state,
  current-get_totp_attempts, current-get_blocked_time, current-set_login_time,
}

abbrev logged_in : Clocks → UserSession → UserSession
logged_in k s = record s {
  auth_state = authenticated;
  login_time = some k.last;
  referer_uri = none;
  handler_type = none;
}

module _ (p : Setup) (k : Clocks) where
  create_referer_keyboard_lem :
      (user : ℕ) (d : Sessions)
      → lookup user (create_referer_keyboard p k user d).1
        ≡ some (record (current user d) { referer_uri = none; handler_type = none })
  unfolding create_referer_keyboard reset_referer_data get_handler_type get_referer_uri
  create_referer_keyboard_lem user d =
      let c : Config = p.manager in
      let d1 : Sessions = (get_handler_type c k.evicting user d).1 in
      let d2 : Sessions = (get_referer_uri c k.evicting user d1).1 in
      ground (
        arith,
        current-with_session c k.evicting user d (λ s. (s.handler_type, s)),
        current-with_session c k.evicting user d1 (λ s. (s.referer_uri, s)),
        with_session_lem c k.evicting user
            (λ s. (tt, record s { referer_uri = none; handler_type = none })) d2,
      )

  log_in_lem :
      (user : ℕ) (a : Auth)
      → lookup user (log_in p k user a).state.sessions
        ≡ some (logged_in k (current user a.sessions))
  unfolding log_in
  log_in_lem user a =
      let c : Config = p.manager in
      let d1 : Sessions = assign_state c k.evicting user authenticated a.sessions in
      let d2 : Sessions = set_login_time c k.evicting user k.last d1 in
      ground (
        arith,
        current-assign_state c k.evicting user a.sessions authenticated,
        current-set_login_time c k.evicting user d1 k.last,
        create_referer_keyboard_lem user d2,
      )

  guard_attempt_lem :
      (user : User) (code : List ℕ) (a : Auth)
      → passes_guards p k user code a ≡ true
      → lookup user.id (guard_attempt p k user code a).state.sessions
        ≡ some (logged_in k (current user.id a.sessions))
  unfolding guard_attempt check_code
  guard_attempt_lem user code a h =
      let c : Config = p.manager in
      let d1 : Sessions = (get_blocked_time c k.evicting user.id a.sessions).1 in
      let d2 : Sessions = (get_totp_attempts c k.evicting user.id d1).1 in
      let b : Auth = record a {
        sessions = d2;
        bursts = (consume_totp_attempt p.totp_max_attempts user.id k.monotonic a.bursts).1;
        register = (verify_totp_code (p.verify user.id) user.id code k.step k.writing a.register).1;
      } in
      ground (
        arith,
        current-get_blocked_time c k.evicting user.id a.sessions,
        current-get_totp_attempts c k.evicting user.id d1,
        log_in_lem user.id b,
      )

  -- From the processing state, a text that holds a code which passes the guards and the
  -- verification makes the user authenticated, at any later reading of the clock, until the session
  -- times out.
  pub a_code_logs_in :
      (user : User) (text : Option (List ℕ)) (code : List ℕ) (a : Auth)
      → is_state (current user.id a.sessions).auth_state processing ≡ true
      → extract_totp_code text ≡ some code
      → is_valid_totp_code code ≡ true
      → passes_guards p k user code a ≡ true
      → (clock : ℕ → ℕ) (now later last : ℕ) → k.test < now
      → last ≤ k.last + minutes p.manager.session_timeout
      → (is_authenticated p.manager clock user.id now later last
          (handle_totp_code_verification p k (some user) text a).state.sessions).0
        ≡ true
  unfolding handle_totp_code_verification
  a_code_logs_in user text code a state e valid h clock now later last after soon =
      let c : Config = p.manager in
      let b : Auth = record a { sessions = (get_auth_state c k.evicting user.id a.sessions).1 } in
      let stored =
        guard_attempt_lem user code b
          (ground (arith, current-get_auth_state c k.evicting user.id a.sessions)) in
      rw (current-get_auth_state c k.evicting user.id a.sessions).0 (
        rw (state, e, valid)
          (ground (
            arith,
            stored,
            current-get_auth_state c k.evicting user.id a.sessions,
            is_authenticated_lem c clock user.id now later last
                (guard_attempt p k user code b).state.sessions,
          )))
