-- ===== src/Session/Capacity.antt =====
-- Sequences of calls on the manager of pytmbot/middleware/session_manager.py, from any threads in any
-- order: the cap holds, nobody is listed twice, and no call touches another user's session.
use pytmbot.Base.{
  ℕ, ◌≤◌, ◌≡◌, ◌≢◌, sym, ap, ◌∙◌, String, Bool, true, false, Option, none, some, List, [], ◌∷◌,
  arith, length, Option-cases, inl, inr,
}
use pytmbot.Base.Dict.{lookup, IsDict}
use pytmbot.Base.Eq.{nat_eq}
use pytmbot.Session.Store.{
  authenticated, is_state, UserSession, Sessions, Config, select, expired_at,
}
use pytmbot.Session.Methods.{
  with_session, valid_state, set_auth_state, get_auth_state, increment_totp_attempts,
  get_totp_attempts, reset_totp_attempts, set_blocked_time, get_blocked_time, is_blocked,
  set_login_time, is_authenticated, set_referer_data, get_referer_uri, get_handler_type,
  reset_referer_data, clear_expired_sessions, get_session_stats, shutdown,
}
use pytmbot.Session.Select.{erase_all-select, length-drop_where, drop_where-IsDict}
use pytmbot.Session.Current.{
  IsWithin, current, with_session_lem, with_session-other, with_session-IsWithin,
}

-- A method call of one user; the readings of the clock come with it.
pub data UserCall : Type 0 where
  set_state : String → UserCall
  get_state get_attempts reset_attempts get_blocked get_referer get_handler reset_referer : UserCall
  increment log_in : ℕ → UserCall
  block : Option ℕ → ℕ → UserCall
  check_blocked : ℕ → ℕ → UserCall
  check_authenticated : ℕ → ℕ → ℕ → UserCall
  set_referer : String → String → UserCall

pub data Call : Type 0 where
  of_user : ℕ → UserCall → Call
  clear stats stop : Call

unfoldable pub perform_user : Config → (ℕ → ℕ) → ℕ → UserCall → Sessions → Sessions
unfolding set_auth_state get_auth_state increment_totp_attempts get_totp_attempts
    reset_totp_attempts set_blocked_time get_blocked_time is_blocked set_login_time is_authenticated
    set_referer_data get_referer_uri get_handler_type reset_referer_data
perform_user c clock u (set_state text) d = elim (set_auth_state c clock u text d) [
  | none ↦ d
  | some e ↦ e
]
perform_user c clock u get_state d = (get_auth_state c clock u d).1
perform_user c clock u get_attempts d = (get_totp_attempts c clock u d).1
perform_user c clock u reset_attempts d = reset_totp_attempts c clock u d
perform_user c clock u get_blocked d = (get_blocked_time c clock u d).1
perform_user c clock u get_referer d = (get_referer_uri c clock u d).1
perform_user c clock u get_handler d = (get_handler_type c clock u d).1
perform_user c clock u reset_referer d = reset_referer_data c clock u d
perform_user c clock u (increment now) d = (increment_totp_attempts c clock u now d).1
perform_user c clock u (log_in now) d = set_login_time c clock u now d
perform_user c clock u (block duration now) d = set_blocked_time c clock u duration now d
perform_user c clock u (check_blocked now later) d = (is_blocked c clock u now later d).1
perform_user c clock u (check_authenticated now later last) d =
    (is_authenticated c clock u now later last d).1
perform_user c clock u (set_referer handler uri) d = set_referer_data c clock u handler uri d

unfoldable pub perform : Config → (ℕ → ℕ) → Call → Sessions → Sessions
perform c clock (of_user u call) d = perform_user c clock u call d
perform c clock clear d = clear_expired_sessions c clock d
perform c clock stats d = (get_session_stats c clock d).1
perform c clock stop d = shutdown d

unfoldable pub perform_all : Config → List ((ℕ → ℕ) × Call) → Sessions → Sessions
perform_all c [] d = d
perform_all c ((clock, call) ∷ calls) d = perform_all c calls (perform c clock call d)

module _ (c : Config) (clock : ℕ → ℕ) (u : ℕ) where
  -- Every method of a user leaves the dictionary alone, or is a body run on the user's session.
  data Shape (d : Sessions) : Sessions → Type 1 where
    untouched : Shape d d
    ran :
        {A : Type 0} (body : UserSession → A × UserSession)
        → Shape d (with_session c clock u body d).1

  perform_user-Shape : (call : UserCall) (d : Sessions) → Shape d (perform_user c clock u call d)
  unfolding perform_user
  perform_user-Shape (set_state text) d = elim (Option-cases (valid_state text)) [
    | inl e ↦ rw (e, perform_user) untouched
    | inr (state, e) ↦ rw (e, perform_user) (ran (λ s. (tt, record s { auth_state = state })))
  ]
  perform_user-Shape _ d = ran _

  Shape-IsWithin : {d e : Sessions} → Shape d e → 1 ≤ c.max_sessions → IsWithin c d → IsWithin c e
  Shape-IsWithin untouched cap w = w
  Shape-IsWithin {d} (ran body) cap w = with_session-IsWithin c clock u body d cap w

  Shape-other :
      {d e : Sessions} (v : ℕ) (t : UserSession)
      → Shape d e
      → IsDict d
      → u ≢ v
      → lookup v e ≡ some t
      → lookup v d ≡ some t
  Shape-other v t untouched unique ne h = h
  Shape-other {d} v t (ran body) unique ne h = with_session-other c clock u body d v t unique ne h

clear-IsWithin :
    (c : Config) (clock : ℕ → ℕ) (d : Sessions)
    → IsWithin c d
    → IsWithin c (clear_expired_sessions c clock d)
unfolding clear_expired_sessions
clear-IsWithin c clock d w = rw (erase_all-select (expired_at c clock) d w.unique) (record {
  unique =
      drop_where-IsDict (length (select (expired_at c clock) d)) (expired_at c clock) d w.unique;
  bounded =
      omega (
        arith,
        w,
        length-drop_where (length (select (expired_at c clock) d)) (expired_at c clock) d,
      );
})

perform-IsWithin :
    (c : Config) (clock : ℕ → ℕ) (call : Call) (d : Sessions)
    → 1 ≤ c.max_sessions
    → IsWithin c d
    → IsWithin c (perform c clock call d)
unfolding perform get_session_stats shutdown
perform-IsWithin c clock (of_user u call) d cap w =
    Shape-IsWithin c clock u (perform_user-Shape c clock u call d) cap w
perform-IsWithin c clock clear d cap w = clear-IsWithin c clock d w
perform-IsWithin c clock stats d cap w = unfold clear_expired_sessions in clear-IsWithin c clock d w
perform-IsWithin c clock stop d cap w = record { unique = tt; bounded = omega arith }

perform_all-keeps :
    (c : Config) (calls : List ((ℕ → ℕ) × Call)) (d : Sessions)
    → 1 ≤ c.max_sessions
    → IsWithin c d
    → IsWithin c (perform_all c calls d)
unfolding perform_all
perform_all-keeps c [] d cap w = w
perform_all-keeps c ((clock, call) ∷ calls) d cap w =
    perform_all-keeps c calls (perform c clock call d) cap (perform-IsWithin c clock call d cap w)

-- After any sequence of calls from the empty manager, with any readings of the clock, there are at
-- most `max_sessions` sessions (for a cap of at least one), and no user has two.
pub perform_all-IsWithin :
    (c : Config) (calls : List ((ℕ → ℕ) × Call))
    → 1 ≤ c.max_sessions
    → IsWithin c (perform_all c calls [])
perform_all-IsWithin c calls cap =
    perform_all-keeps c calls [] cap (record { unique = tt; bounded = omega arith })

with_session-login :
    {A : Type 0} (c : Config) (clock : ℕ → ℕ) (u : ℕ) (body : UserSession → A × UserSession)
    (d : Sessions)
    → ((s : UserSession)
        → is_state (body s).1.auth_state authenticated ≡ true
        → is_state s.auth_state authenticated ≡ true)
    → is_state (current u (with_session c clock u body d).1).auth_state authenticated ≡ true
    → is_state (current u d).auth_state authenticated ≡ true
with_session-login c clock u body d keep h = keep (current u d) (
    let e : current u (with_session c clock u body d).1 ≡ (body (current u d)).1 =
      ground (arith, with_session_lem c clock u body d) in
    ap (λ (s : UserSession). is_state s.auth_state authenticated) (sym e) ∙ h)

-- Whether the call is `set_auth_state` with the text of the logged-in state.
abbrev pub authenticates : UserCall → Bool
authenticates (set_state text) = elim (valid_state text) [
  | none ↦ false
  | some state ↦ is_state state authenticated
]
authenticates _ = false

-- Only `set_auth_state(user, "authenticated")` logs a user in: after any other call of the user the
-- session's state is the logged-in one only if it was before.
pub perform_user-login :
    (c : Config) (clock : ℕ → ℕ) (u : ℕ) (call : UserCall) (d : Sessions)
    → authenticates call ≡ false
    → is_state (current u (perform_user c clock u call d)).auth_state authenticated ≡ true
    → is_state (current u d).auth_state authenticated ≡ true
unfolding perform_user
perform_user-login c clock u (set_state text) d n h = elim (Option-cases (valid_state text)) [
  | inl e ↦ rw (e, perform_user) at h
  | inr (state, e) ↦
      ground (arith, with_session_lem c clock u (λ s. (tt, record s { auth_state = state })) d)
]
perform_user-login c clock u _ d n h = with_session-login c clock u _ d (λ s x. ground arith) h

-- A call for one user changes no other user's session: what is there afterwards was there before.
pub perform_user-other :
    (c : Config) (clock : ℕ → ℕ) (u v : ℕ) (call : UserCall) (d : Sessions) (t : UserSession)
    → IsDict d
    → u ≢ v
    → lookup v (perform_user c clock u call d) ≡ some t
    → lookup v d ≡ some t
perform_user-other c clock u v call d t unique ne =
    Shape-other c clock u v t (perform_user-Shape c clock u call d) unique ne
