-- ===== src/TwoFactor/Login.antt =====
-- What pytmbot/handlers/auth_processing/twofa_processing.py takes to log a user in.
use pytmbot.Base.{
  ℕ, ◌+◌, ◌≡◌, refl, Bool, true, false, not, ◌&&◌, Option, none, some, List, arith, leb, ltb,
  Option-cases, inl, inr,
}
use pytmbot.Base.Eq.{nat_eq, string_eq}
use pytmbot.Telegram.{User}
use pytmbot.Session.Store.{
  AuthState, authenticated, processing, blocked, is_state, UserSession, minutes, Sessions, Config,
}
use pytmbot.Session.Methods.{
  with_session, block_until, block_minutes, count_attempt, assign_state, get_auth_state,
  increment_totp_attempts, get_totp_attempts, reset_totp_attempts, set_blocked_time,
  get_blocked_time, set_login_time,
}
use pytmbot.Session.Current.{current, with_session_lem}
use pytmbot.TwoFactor.Digits.{extract_totp_code, is_valid_totp_code}
use pytmbot.TwoFactor.Replay.{verify_totp_code}
use pytmbot.TwoFactor.Burst.{consume_totp_attempt}
use pytmbot.TwoFactor.Handler.{
  Auth, Setup, Clocks, TotpReply, wrong_code, invalid_code, can_authenticate, count_failure,
  block_user, check_code, guard_attempt, handle_totp_code_verification,
}

module _ (c : Config) (clock : ℕ → ℕ) (user : ℕ) (d : Sessions) where
  pub current-with_session :
      {A : Type 0} (body : UserSession → A × UserSession)
      → current user (with_session c clock user body d).1 ≡ (body (current user d)).1
  current-with_session body = ground (arith, with_session_lem c clock user body d)

  pub current-assign_state :
      (state : AuthState)
      → current user (assign_state c clock user state d)
        ≡ record (current user d) { auth_state = state }
  unfolding assign_state
  current-assign_state state = current-with_session (λ s. (tt, record s { auth_state = state }))

  pub current-get_auth_state :
      ((get_auth_state c clock user d).0 ≡ (current user d).auth_state)
      × (current user (get_auth_state c clock user d).1 ≡ current user d)
  unfolding get_auth_state
  current-get_auth_state = (
    (with_session_lem c clock user (λ s. (s.auth_state, s)) d).0,
    current-with_session (λ s. (s.auth_state, s)),
  )

  pub current-get_totp_attempts :
      ((get_totp_attempts c clock user d).0 ≡ (current user d).totp_attempts)
      × (current user (get_totp_attempts c clock user d).1 ≡ current user d)
  unfolding get_totp_attempts
  current-get_totp_attempts = (
    (with_session_lem c clock user (λ s. (s.totp_attempts, s)) d).0,
    current-with_session (λ s. (s.totp_attempts, s)),
  )

  pub current-get_blocked_time :
      ((get_blocked_time c clock user d).0 ≡ (current user d).blocked_time)
      × (current user (get_blocked_time c clock user d).1 ≡ current user d)
  unfolding get_blocked_time
  current-get_blocked_time = (
    (with_session_lem c clock user (λ s. (s.blocked_time, s)) d).0,
    current-with_session (λ s. (s.blocked_time, s)),
  )

  pub current-set_blocked_time :
      (duration : Option ℕ) (now : ℕ)
      → current user (set_blocked_time c clock user duration now d)
        ≡ block_until c clock user
            (now + minutes (block_minutes c clock user duration))
            (current user d)
  unfolding set_blocked_time
  current-set_blocked_time duration now =
      current-with_session (λ s.
        (tt, block_until c clock user (now + minutes (block_minutes c clock user duration)) s))

  pub current-increment :
      (now : ℕ)
      → current user (increment_totp_attempts c clock user now d).1
        ≡ (count_attempt c clock user now (current user d)).1
  unfolding increment_totp_attempts
  current-increment now = current-with_session (count_attempt c clock user now)

  pub current-set_login_time :
      (now : ℕ)
      → current user (set_login_time c clock user now d)
        ≡ record (current user d) { login_time = some now }
  unfolding set_login_time
  current-set_login_time now = current-with_session (λ s. (tt, record s { login_time = some now }))

-- The user's session is in the logged-in state.
abbrev pub is_in : ℕ → Auth → Bool
is_in user a = is_state (current user a.sessions).auth_state authenticated

module _ (p : Setup) (k : Clocks) where
  count_failure-is_in :
      (user : ℕ) (reply : TotpReply) (a : Auth)
      → is_in user a ≡ false
      → is_in user (count_failure p k user reply a).state ≡ false
  unfolding count_failure
  count_failure-is_in user reply a h =
      ground (arith, current-increment p.manager k.evicting user a.sessions k.last)

  block_user-is_in :
      (user : ℕ) (d : Sessions)
      → is_state (current user (block_user p k user d)).auth_state authenticated ≡ false
  unfolding block_user
  block_user-is_in user d =
      rw
        (current-set_blocked_time p.manager k.evicting user
          (reset_totp_attempts p.manager k.evicting user
            (assign_state p.manager k.evicting user blocked d))
          none k.last)
        refl

  -- Whether the code passes, once the guards let it through.
  abbrev pub passes_check : User → List ℕ → Auth → Bool
  passes_check user code a =
      can_authenticate p user
      && (verify_totp_code (p.verify user.id) user.id code k.step k.writing a.register).0

  check_code-is_in :
      (user : User) (code : List ℕ) (a : Auth)
      → is_in user.id a ≡ false
      → is_in user.id (check_code p k user code a).state ≡ true
      → passes_check user code a ≡ true
  unfolding check_code
  check_code-is_in user code a h after = ground (
    arith,
    count_failure-is_in user.id wrong_code (record a {
      register = (verify_totp_code (p.verify user.id) user.id code k.step k.writing a.register).1;
    }),
  )

  abbrev is_over : Option ℕ → Bool
  is_over none = true
  is_over (some until) = leb until k.test

  -- What the guards ask for: no block that lasts, an attempt within the burst limit, and fewer
  -- failed attempts than the maximum; and that the code passes.
  abbrev pub passes_guards : User → List ℕ → Auth → Bool
  passes_guards user code a =
      is_over (current user.id a.sessions).blocked_time
      && not (consume_totp_attempt p.totp_max_attempts user.id k.monotonic a.bursts).0
      && ltb (current user.id a.sessions).totp_attempts p.totp_max_attempts
      && passes_check user code a

  guard_attempt-is_in :
      (user : User) (code : List ℕ) (a : Auth)
      → is_in user.id a ≡ false
      → is_in user.id (guard_attempt p k user code a).state ≡ true
      → passes_guards user code a ≡ true
  unfolding guard_attempt
  guard_attempt-is_in user code a h after =
      let c : Config = p.manager in
      let d1 : Sessions = (get_blocked_time c k.evicting user.id a.sessions).1 in
      let d2 : Sessions = (get_totp_attempts c k.evicting user.id d1).1 in
      let b : Auth = record a {
        sessions = d2;
        bursts = (consume_totp_attempt p.totp_max_attempts user.id k.monotonic a.bursts).1;
      } in
      ground (
        arith,
        current-get_blocked_time c k.evicting user.id a.sessions,
        current-get_totp_attempts c k.evicting user.id d1,
        current-set_blocked_time c k.evicting user.id d2 (some 1) k.last,
        block_user-is_in user.id d2,
        check_code-is_in user code b,
      )

  abbrev pub passes_text : User → Option (List ℕ) → Auth → Bool
  passes_text user text a = elim (extract_totp_code text) [
    | none ↦ false
    | some code ↦ is_valid_totp_code code && passes_guards user code a
  ]

  -- The handler of a code logs a user in who is not only from the processing state, on a text that
  -- holds a code of six digits, without a block that lasts, within the burst limit, below the
  -- maximum of failed attempts, and if `verify_totp_code` accepts the code for the user.
  pub only_a_code_logs_in :
      (user : User) (text : Option (List ℕ)) (a : Auth)
      → is_in user.id a ≡ false
      → is_in user.id (handle_totp_code_verification p k (some user) text a).state ≡ true
      → is_state (current user.id a.sessions).auth_state processing && passes_text user text a
        ≡ true
  unfolding handle_totp_code_verification
  only_a_code_logs_in user text a h after =
      let c : Config = p.manager in
      let d1 : Sessions = (get_auth_state c k.evicting user.id a.sessions).1 in
      let b : Auth = record a { sessions = d1 } in
      elim (Option-cases (extract_totp_code text)) [
        | inl e ↦ ground (arith, current-get_auth_state c k.evicting user.id a.sessions)
        | inr (code, e) ↦ ground (
          arith,
          current-get_auth_state c k.evicting user.id a.sessions,
          count_failure-is_in user.id invalid_code b,
          guard_attempt-is_in user code b,
        )
      ]
