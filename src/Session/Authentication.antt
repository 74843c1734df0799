-- ===== src/Session/Authentication.antt =====
-- `is_authenticated` of pytmbot/middleware/session_manager.py against its meaning.
use pytmbot.Base.{
  ℕ, ◌+◌, ◌≤◌, ◌≡◌, Bool, true, false, not, ◌&&◌, none, some, arith, inl, inr, Option-cases,
}
use pytmbot.Base.Dict.{lookup}
use pytmbot.Base.Eq.{nat_eq}
use pytmbot.Session.Store.{
  authenticated, is_state, UserSession, minutes, blocks, expires, is_expired, is_blocked_now,
  Sessions, Config,
}
use pytmbot.Session.Methods.{check_session, is_authenticated}
use pytmbot.Session.Current.{current, with_session_lem}

-- The session is in the logged-in state, its block (if any) is over at `now`, and its login is at
-- most the timeout old at `last`.
abbrev pub is_valid_login : Config → ℕ → ℕ → UserSession → Bool
is_valid_login c now last s =
    is_state s.auth_state authenticated
    && not (blocks s.blocked_time now)
    && not (expires s.login_time c.session_timeout last)

module _ (c : Config) (clock : ℕ → ℕ) (user now later last : ℕ) (d : Sessions) where
  check_session_lem :
      (s : UserSession)
      → (check_session c clock user now later last s).0 ≡ is_valid_login c now last s
  unfolding is_expired is_blocked_now
  check_session_lem s = ground arith

  -- `is_authenticated` answers true exactly for a valid login: a user without a session, and one
  -- who is blocked, never logged in or logged in too long ago, is not authenticated. The automatic
  -- unblocking on the way does not change the answer.
  pub is_authenticated_lem :
      (is_authenticated c clock user now later last d).0 ≡ (elim (lookup user d) as (λ x. Bool) [
        | none ↦ false
        | some s ↦ is_valid_login c now last s
      ])
  unfolding is_authenticated
  is_authenticated_lem = ground (
    arith,
    with_session_lem c clock user (check_session c clock user now later last) d,
    check_session_lem (current user d),
  )

  -- Together with the meaning of the parts: a true answer has a session behind it, with a login time
  -- at most the timeout old.
  pub is_authenticated_sound :
      (is_authenticated c clock user now later last d).0 ≡ true
      → (s : UserSession) × (login : ℕ) × (lookup user d ≡ some s)
        × (s.auth_state ≡ authenticated)
        × (s.login_time ≡ some login)
        × (last ≤ login + minutes c.session_timeout)
  is_authenticated_sound h = elim (Option-cases (lookup user d)) [
    | inl e ↦ absurd (cc (h, e, is_authenticated_lem))
    | inr (s, e) ↦ elim (Option-cases s.login_time) [
      | inl f ↦ absurd (ground (arith, is_authenticated_lem))
      | inr (login, f) ↦ (
        s,
        login,
        e,
        ground (arith, is_authenticated_lem),
        f,
        ground (arith, is_authenticated_lem),
      )
    ]
  ]
