-- ===== src/Session/Store.antt =====
-- pytmbot/middleware/session_manager.py: `_UserSession`, the dictionary of sessions and its hard
-- cap. A method that reads the clock at a session of the dictionary takes the readings as a
-- function of the session's user: a dictionary lists each user once.
use pytmbot.Base.{
  ℕ, ◌+◌, ◌-◌, ◌*◌, String, Bool, true, false, not, Option, none, some, List, [], ◌∷◌, leb, ltb,
  length, take, if◌then◌else◌,
}
use pytmbot.Base.Dict.{Dict, lookup, insert, erase}
use pytmbot.Base.Eq.{nat_eq}

-- `_StateFabric`
pub data AuthState : Type 0 where
  authenticated processing blocked unauthenticated : AuthState

abbrev pub is_state : AuthState → AuthState → Bool
is_state authenticated authenticated = true
is_state processing processing = true
is_state blocked blocked = true
is_state unauthenticated unauthenticated = true
is_state _ _ = false

pub record UserSession : Type 0 where
  pub auth_state : AuthState
  pub totp_attempts : ℕ
  pub blocked_time : Option ℕ
  pub login_time : Option ℕ
  pub referer_uri : Option String
  pub handler_type : Option String

abbrev pub new_session : UserSession
new_session = record {
  auth_state = unauthenticated;
  totp_attempts = 0;
  blocked_time = none;
  login_time = none;
  referer_uri = none;
  handler_type = none;
}

abbrev pub minutes : ℕ → ℕ
minutes n = n * 60_000_000

abbrev pub expires : Option ℕ → ℕ → ℕ → Bool
expires none timeout now = true
expires (some login) timeout now = ltb (login + minutes timeout) now

-- A session that never logged in counts as expired.
unfoldable pub is_expired : UserSession → ℕ → ℕ → Bool
is_expired s timeout now = expires s.login_time timeout now

abbrev pub blocks : Option ℕ → ℕ → Bool
blocks none now = false
blocks (some until) now = leb now until

unfoldable pub is_blocked_now : UserSession → ℕ → Bool
is_blocked_now s now = blocks s.blocked_time now

abbrev pub Sessions : Type 0
Sessions = Dict ℕ UserSession

-- The attributes of a manager; the durations are in minutes. `max_sessions` is the class's
-- `_MAX_SESSIONS`.
pub record Config : Type 0 where
  pub session_timeout : ℕ
  pub max_totp_attempts : ℕ
  pub block_duration : ℕ
  pub max_sessions : ℕ

abbrev pub default_config : Config
default_config = record {
  session_timeout = 10;
  max_totp_attempts = 5;
  block_duration = 10;
  max_sessions = 10_000;
}

-- `[uid for uid, session in sessions.items() if p(uid, session)]`
unfoldable pub select : (ℕ → UserSession → Bool) → Sessions → List ℕ
select p [] = []
select p ((u, s) ∷ d) = let rest = select p d in if p u s then u ∷ rest else rest

-- `for uid in users: del self._user_sessions[uid]`
unfoldable pub erase_all : List ℕ → Sessions → Sessions
erase_all [] d = d
erase_all (u ∷ us) d = erase_all us (erase u d)

abbrev pub expired_at : Config → (ℕ → ℕ) → ℕ → UserSession → Bool
expired_at c clock u s = is_expired s c.session_timeout (clock u)

abbrev pub not_authenticated : ℕ → UserSession → Bool
not_authenticated u s = not (is_state s.auth_state authenticated)

abbrev pub anyone : ℕ → UserSession → Bool
anyone u s = true

-- There is room for one more session: `overflow <= 0`.
abbrev pub has_room : Config → Sessions → Bool
has_room c d = leb (length d + 1) c.max_sessions

abbrev pub overflow : Config → Sessions → ℕ
overflow c d = length d + 1 - c.max_sessions

-- The last resort of `_evict_sessions_if_needed`: the oldest sessions, whatever their state.
unfoldable pub evict_oldest : Config → Sessions → ℕ × Sessions
evict_oldest c d =
    let victims = take (overflow c d) (select anyone d) in (length victims, erase_all victims d)

-- Its second resort: the oldest sessions that are not authenticated.
unfoldable pub evict_others : Config → Sessions → ℕ × Sessions
unfolding evict_oldest
evict_others c d =
    let victims = take (overflow c d) (select not_authenticated d) in
    let d' = erase_all victims d in
    if has_room c d'
    then (length victims, d')
    else let (n, d'') = evict_oldest c d' in (length victims + n, d'')

-- `_evict_sessions_if_needed`
unfoldable pub evict : Config → (ℕ → ℕ) → Sessions → ℕ × Sessions
unfolding evict_others
evict c clock d =
    if has_room c d
    then (0, d)
    else let expired = select (expired_at c clock) d in
      let d' = erase_all expired d in
      if has_room c d'
      then (length expired, d')
      else let (n, d'') = evict_others c d' in (length expired + n, d'')

abbrev pub or_create : Config → (ℕ → ℕ) → ℕ → Sessions → Option UserSession → UserSession × Sessions
or_create c clock user d (some s) = (s, d)
or_create c clock user d none = (new_session, insert user new_session (evict c clock d).1)

-- `_get_or_create_session_locked`
unfoldable pub get_or_create : Config → (ℕ → ℕ) → ℕ → Sessions → UserSession × Sessions
get_or_create c clock user d = or_create c clock user d (lookup user d)
