-- ===== src/Session/Methods.antt =====
-- pytmbot/middleware/session_manager.py: the methods of `SessionManager`.
use pytmbot.Base.{
  ℕ, ◌+◌, String, Bool, true, false, not, ◌&&◌, Option, none, some, [], ◌∷◌, leb, length,
  if◌then◌else◌,
}
use pytmbot.Base.Dict.{insert}
use pytmbot.Base.Eq.{◌==◌, nat_eq, string_eq}
use pytmbot.Session.Store.{
  AuthState, authenticated, processing, blocked, unauthenticated, is_state, UserSession, minutes,
  is_expired, is_blocked_now, Sessions, Config, select, erase_all, expired_at, get_or_create,
}

-- `with self.session_context(user_id) as session:` with a body that changes the session and returns.
unfoldable pub with_session :
    {A : Type 0} → Config → (ℕ → ℕ) → ℕ → (UserSession → A × UserSession) → Sessions → A × Sessions
unfolding get_or_create
with_session c clock user body d =
    let (s, d') = get_or_create c clock user d in let (a, s') = body s in (a, insert user s' d')

-- `_StateFabric.valid_states`, as the reading of a state's text.
unfoldable pub valid_state : String → Option AuthState
valid_state text =
    if text == "authenticated"
    then some authenticated
    else if text == "processing"
    then some processing
    else if text == "blocked"
    then some blocked
    else if text == "unauthenticated"
    then some unauthenticated
    else none

module _ (c : Config) (clock : ℕ → ℕ) (user : ℕ) where
  abbrev pub change : (UserSession → UserSession) → Sessions → Sessions
  change f d = (with_session c clock user (λ s. (tt, f s)) d).1

  abbrev pub read : {A : Type 0} → (UserSession → A) → Sessions → A × Sessions
  read f = with_session c clock user (λ s. (f s, s))

  unfoldable pub assign_state : AuthState → Sessions → Sessions
  assign_state state = change (λ s. record s { auth_state = state })

  -- `none` is the `ValueError` on a text that names no state.
  unfoldable pub set_auth_state : String → Sessions → Option Sessions
  unfolding assign_state
  set_auth_state text d = elim (valid_state text) [
    | none ↦ none
    | some state ↦ some (assign_state state d)
  ]

  unfoldable pub get_auth_state : Sessions → AuthState × Sessions
  get_auth_state = read (λ s. s.auth_state)

  -- `_block_user_internal`
  abbrev pub block_until : ℕ → UserSession → UserSession
  block_until until s = record s { blocked_time = some until; auth_state = blocked }

  abbrev pub count_attempt : ℕ → UserSession → ℕ × UserSession
  count_attempt now s =
      let attempts = s.totp_attempts + 1 in
      let s' : UserSession = record s { totp_attempts = attempts } in
      (
        attempts,
        if leb c.max_totp_attempts attempts
            then block_until (now + minutes c.block_duration) s'
            else s',
      )

  unfoldable pub increment_totp_attempts : ℕ → Sessions → ℕ × Sessions
  increment_totp_attempts now = with_session c clock user (count_attempt now)

  unfoldable pub get_totp_attempts : Sessions → ℕ × Sessions
  get_totp_attempts = read (λ s. s.totp_attempts)

  unfoldable pub reset_totp_attempts : Sessions → Sessions
  reset_totp_attempts = change (λ s. record s { totp_attempts = 0 })

  -- `duration_minutes or self.block_duration`: zero counts as not given.
  abbrev pub block_minutes : Option ℕ → ℕ
  block_minutes none = c.block_duration
  block_minutes (some m) = if m == 0 then c.block_duration else m

  unfoldable pub set_blocked_time : Option ℕ → ℕ → Sessions → Sessions
  set_blocked_time duration now = change (block_until (now + minutes (block_minutes duration)))

  -- `_auto_unblock_if_due`
  abbrev pub auto_unblock : ℕ → UserSession → UserSession
  auto_unblock now s = elim s.blocked_time [
    | none ↦ s
    | some until ↦ if leb now until then s else record s {
      blocked_time = none;
      auth_state = if is_state s.auth_state blocked then unauthenticated else s.auth_state;
    }
  ]

  unfoldable pub get_blocked_time : Sessions → Option ℕ × Sessions
  get_blocked_time = read (λ s. s.blocked_time)

  -- Two readings of the clock: for the test, and for the automatic unblocking.
  unfoldable pub is_blocked : ℕ → ℕ → Sessions → Bool × Sessions
  is_blocked now later =
      with_session c clock user
        λ s. if is_blocked_now s now then (true, s) else (false, auto_unblock later s)

  unfoldable pub set_login_time : ℕ → Sessions → Sessions
  set_login_time now = change (λ s. record s { login_time = some now })

  abbrev pub check_session : ℕ → ℕ → ℕ → UserSession → Bool × UserSession
  check_session now later last s =
      let is_blocked = is_blocked_now s now in
      let s' = if is_blocked then s else auto_unblock later s in
      (
        is_state s'.auth_state authenticated
            && not is_blocked
            && not (is_expired s' c.session_timeout last),
        s',
      )

  -- Three readings of the clock: for the block, the automatic unblocking and the expiry.
  unfoldable pub is_authenticated : ℕ → ℕ → ℕ → Sessions → Bool × Sessions
  is_authenticated now later last = with_session c clock user (check_session now later last)

  unfoldable pub set_referer_data : String → String → Sessions → Sessions
  set_referer_data handler uri =
      change (λ s. record s { referer_uri = some uri; handler_type = some handler })

  unfoldable pub get_referer_uri : Sessions → Option String × Sessions
  get_referer_uri = read (λ s. s.referer_uri)

  unfoldable pub get_handler_type : Sessions → Option String × Sessions
  get_handler_type = read (λ s. s.handler_type)

  unfoldable pub reset_referer_data : Sessions → Sessions
  reset_referer_data = change (λ s. record s { referer_uri = none; handler_type = none })

-- The worker of `_start_cleanup_thread` calls this once an interval.
unfoldable pub clear_expired_sessions : Config → (ℕ → ℕ) → Sessions → Sessions
clear_expired_sessions c clock d = erase_all (select (expired_at c clock) d) d

pub record Stats : Type 0 where
  pub total_sessions : ℕ
  pub authenticated_sessions : ℕ
  pub blocked_sessions : ℕ
  pub expired_sessions : ℕ
  pub processing_sessions : ℕ
  pub evicted_sessions : ℕ

-- The loop of `get_session_stats` over the sessions that are left.
unfoldable pub tally : Sessions → Stats → Stats
tally [] n = n
tally ((u, s) ∷ d) n = tally d (elim s.auth_state [
  | authenticated ↦ record n { authenticated_sessions = n.authenticated_sessions + 1 }
  | blocked ↦ record n { blocked_sessions = n.blocked_sessions + 1 }
  | processing ↦ record n { processing_sessions = n.processing_sessions + 1 }
  | unauthenticated ↦ n
])

unfoldable pub get_session_stats : Config → (ℕ → ℕ) → Sessions → Stats × Sessions
unfolding tally
get_session_stats c clock d =
    let expired = select (expired_at c clock) d in
    let d' = erase_all expired d in
    (
      tally d' (record {
        total_sessions = length d';
        authenticated_sessions = 0;
        blocked_sessions = 0;
        expired_sessions = 0;
        processing_sessions = 0;
        evicted_sessions = length expired;
      }),
      d',
    )

-- `shutdown` empties the dictionary.
unfoldable pub shutdown : Sessions → Sessions
shutdown d = []
