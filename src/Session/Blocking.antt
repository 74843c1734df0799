-- ===== src/Session/Blocking.antt =====
-- Blocking in pytmbot/middleware/session_manager.py: how a block begins, holds and ends.
use pytmbot.Base.{
  ℕ, ◌+◌, ◌≤◌, ◌<◌, ◌≡◌, refl, Bool, true, false, Option, none, some, List, [], ◌∷◌, All, leb,
  length, arith, if◌then◌else◌, Option-cases, inl, inr,
}
use pytmbot.Base.Dict.{lookup}
use pytmbot.Base.Eq.{◌==◌, nat_eq}
use pytmbot.Session.Store.{
  blocked, unauthenticated, UserSession, minutes, blocks, is_blocked_now, Sessions, Config,
}
use pytmbot.Session.Methods.{
  auto_unblock, is_authenticated, is_blocked, block_minutes, block_until, count_attempt,
  increment_totp_attempts, get_totp_attempts, set_blocked_time, valid_state, check_session,
}
use pytmbot.Session.Current.{current, with_session_lem}
use pytmbot.Session.Capacity.{
  UserCall, set_state, get_state, get_attempts, reset_attempts, get_blocked, get_referer,
  get_handler, reset_referer, increment, log_in, block, check_blocked, check_authenticated,
  set_referer, perform_user,
}
use pytmbot.Session.Authentication.{is_authenticated_lem}

module _ (c : Config) (clock : ℕ → ℕ) (user now later : ℕ) (d : Sessions) where
  -- `is_blocked` answers by the block of the user's session. While it holds nothing changes; once
  -- it is over (by the second reading too) the block is lifted, the blocked state goes back to the
  -- unauthenticated one, and all else stays, the count of failed attempts included.
  pub is_blocked_lem :
      let s = current user d in
      let (answer, e) = is_blocked c clock user now later d in
      (answer ≡ blocks s.blocked_time now)
      × (lookup user e ≡ some (if answer then s else auto_unblock c clock user later s))
  unfolding is_blocked is_blocked_now
  is_blocked_lem = ground (
    arith,
    with_session_lem c clock user
        (λ s.
          if is_blocked_now s now then (true, s) else (false, auto_unblock c clock user later s))
        d,
  )

module _ (c : Config) (clock : ℕ → ℕ) (user now : ℕ) (d : Sessions) where
  increment_lem :
      let (n, e) = increment_totp_attempts c clock user now d in
      (n ≡ (current user d).totp_attempts + 1)
      × (lookup user e ≡ some (count_attempt c clock user now (current user d)).1)
  unfolding increment_totp_attempts
  increment_lem = ground (arith, with_session_lem c clock user (count_attempt c clock user now) d)

  set_blocked_time_lem :
      (duration : Option ℕ)
      → lookup user (set_blocked_time c clock user duration now d)
        ≡ some (
            block_until c clock user
              (now + minutes (block_minutes c clock user duration))
              (current user d))
  unfolding set_blocked_time
  set_blocked_time_lem duration = ground (
    arith,
    with_session_lem c clock user
        (λ s.
          (tt, block_until c clock user (now + minutes (block_minutes c clock user duration)) s))
        d,
  )

-- At these readings of the clock the user is shut out: `is_blocked` answers true and
-- `is_authenticated` false.
abbrev pub IsShutOut : Config → (ℕ → ℕ) → (user now later last : ℕ) → Sessions → Type 0
IsShutOut c clock user now later last d =
    ((is_blocked c clock user now later d).0 ≡ true)
    × ((is_authenticated c clock user now later last d).0 ≡ false)

shut_out :
    (c : Config) (clock : ℕ → ℕ) (user now later last until : ℕ) (d : Sessions) (s : UserSession)
    → lookup user d ≡ some s
    → s.blocked_time ≡ some until
    → now ≤ until
    → IsShutOut c clock user now later last d
shut_out c clock user now later last until d s e b le = (
  ground (arith, is_blocked_lem c clock user now later d),
  ground (arith, is_authenticated_lem c clock user now later last d),
)

-- Failed attempts at these times.
unfoldable pub increment_all : Config → (ℕ → ℕ) → ℕ → List ℕ → Sessions → Sessions
increment_all c clock user [] d = d
increment_all c clock user (t ∷ ts) d =
    increment_all c clock user ts (increment_totp_attempts c clock user t d).1

increment_all-attempts :
    (c : Config) (clock : ℕ → ℕ) (user : ℕ) (ts : List ℕ) (d : Sessions)
    → (current user (increment_all c clock user ts d)).totp_attempts
      ≡ (current user d).totp_attempts + length ts
unfolding increment_all
increment_all-attempts c clock user [] d = omega arith
increment_all-attempts c clock user (t ∷ ts) d = ground (
  arith,
  increment_lem c clock user t d,
  increment_all-attempts c clock user ts (increment_totp_attempts c clock user t d).1,
)

-- Calls of the user, each with its reading of the clock at an eviction.
unfoldable pub perform_calls : Config → ℕ → List ((ℕ → ℕ) × UserCall) → Sessions → Sessions
perform_calls c user [] d = d
perform_calls c user ((clock, call) ∷ calls) d =
    perform_calls c user calls (perform_user c clock user call d)

-- What the times of a call have to do with a block from `start` to `until`: a failed attempt comes
-- after its start, tests of the block before its end, and a new block does not end before it.
abbrev pub IsDuring : Config → (start until : ℕ) → UserCall → Type 0
IsDuring c start until (increment t) = start ≤ t
IsDuring c start until (check_blocked now later) = now ≤ until
IsDuring c start until (check_authenticated now later last) = now ≤ until
IsDuring c start until (block none t) = until ≤ t + minutes c.block_duration
IsDuring c start until (block (some m) t) =
    until ≤ t + minutes (if m == 0 then c.block_duration else m)
IsDuring c start until _ = Unit {0}

-- A block that lasts until this time at least.
abbrev lasts : ℕ → Option ℕ → Bool
lasts until none = false
lasts until (some end) = leb until end

module _ (c : Config) (user start : ℕ) where
  abbrev until : ℕ
  until = start + minutes c.block_duration

  perform_user-lasts :
      (clock : ℕ → ℕ) (call : UserCall) (d : Sessions)
      → IsDuring c start until call
      → lasts until (current user d).blocked_time ≡ true
      → lasts until (current user (perform_user c clock user call d)).blocked_time ≡ true
  unfolding perform_user is_blocked_now
  perform_user-lasts clock get_state d during h =
      ground (arith, with_session_lem c clock user (λ s. (s.auth_state, s)) d)
  perform_user-lasts clock get_attempts d during h =
      ground (arith, with_session_lem c clock user (λ s. (s.totp_attempts, s)) d)
  perform_user-lasts clock get_blocked d during h =
      ground (arith, with_session_lem c clock user (λ s. (s.blocked_time, s)) d)
  perform_user-lasts clock get_referer d during h =
      ground (arith, with_session_lem c clock user (λ s. (s.referer_uri, s)) d)
  perform_user-lasts clock get_handler d during h =
      ground (arith, with_session_lem c clock user (λ s. (s.handler_type, s)) d)
  perform_user-lasts clock reset_attempts d during h =
      ground (arith, with_session_lem c clock user (λ s. (tt, record s { totp_attempts = 0 })) d)
  perform_user-lasts clock reset_referer d during h = ground (
    arith,
    with_session_lem c clock user (λ s. (tt, record s { referer_uri = none; handler_type = none }))
        d,
  )
  perform_user-lasts clock (log_in now) d during h =
      ground
        (arith, with_session_lem c clock user (λ s. (tt, record s { login_time = some now })) d)
  perform_user-lasts clock (set_referer handler uri) d during h = ground (
    arith,
    with_session_lem c clock user
        (λ s. (tt, record s { referer_uri = some uri; handler_type = some handler })) d,
  )
  perform_user-lasts clock (increment now) d during h =
      ground (arith, with_session_lem c clock user (count_attempt c clock user now) d)
  perform_user-lasts clock (block none now) d during h =
      ground (arith, set_blocked_time_lem c clock user now d none)
  perform_user-lasts clock (block (some m) now) d during h =
      ground (arith, set_blocked_time_lem c clock user now d (some m))
  perform_user-lasts clock (check_blocked now later) d during h =
      ground (arith, is_blocked_lem c clock user now later d)
  perform_user-lasts clock (check_authenticated now later last) d during h =
      ground (arith, with_session_lem c clock user (check_session c clock user now later last) d)
  perform_user-lasts clock (set_state text) d during h = elim (Option-cases (valid_state text)) [
    | inl e ↦ ground (arith, e)
    | inr (state, e) ↦
        ground
          (arith, e, with_session_lem c clock user (λ s. (tt, record s { auth_state = state })) d)
  ]

  perform_calls-lasts :
      (calls : List ((ℕ → ℕ) × UserCall)) (d : Sessions)
      → All (λ k. IsDuring c start until k.1) calls
      → lasts until (current user d).blocked_time ≡ true
      → lasts until (current user (perform_calls c user calls d)).blocked_time ≡ true
  unfolding perform_calls
  perform_calls-lasts [] d during h = h
  perform_calls-lasts ((clock, call) ∷ calls) d during h =
      perform_calls-lasts calls (perform_user c clock user call d) during.1
        (perform_user-lasts clock call d during.0 h)

lasting :
    (c : Config) (clock : ℕ → ℕ) (user now later last until : ℕ) (d : Sessions)
    → lasts until (current user d).blocked_time ≡ true
    → now ≤ until
    → IsShutOut c clock user now later last d
lasting c clock user now later last until d h le = (
  ground (arith, h, is_blocked_lem c clock user now later d),
  ground (arith, h, is_authenticated_lem c clock user now later last d),
)

-- Failed attempts are counted one by one. If with the last of them, at `start`, their number reaches
-- the maximum, the user is shut out for the configured duration, whatever calls of the user come
-- after it: among them any reading of the session, a reset of the count and a change of the state,
-- tests of the block before its end, later failed attempts, and new blocks that end no earlier. Calls
-- that remove the session, as by the cleanup or an eviction, are not among them.
pub increment_blocks :
    (c : Config) (clock clock' clock'' : ℕ → ℕ) (user start now later last : ℕ) (ts : List ℕ)
    (calls : List ((ℕ → ℕ) × UserCall)) (d : Sessions)
    → c.max_totp_attempts ≤ (current user d).totp_attempts + length ts + 1
    → All (λ k. IsDuring c start (start + minutes c.block_duration) k.1) calls
    → now ≤ start + minutes c.block_duration
    → let (attempts, e) =
        increment_totp_attempts c clock user start (increment_all c clock user ts d) in
      (attempts ≡ (current user d).totp_attempts + length ts + 1)
      × ((get_totp_attempts c clock' user e).0 ≡ attempts)
      × IsShutOut c clock'' user now later last (perform_calls c user calls e)
unfolding get_totp_attempts
increment_blocks c clock clock' clock'' user start now later last ts calls d h during le =
    let d1 : Sessions = increment_all c clock user ts d in
    let e : Sessions = (increment_totp_attempts c clock user start d1).1 in
    let counted = increment_all-attempts c clock user ts d in
    let blocked : lasts (start + minutes c.block_duration) (current user e).blocked_time ≡ true =
      ground (arith, h, counted, increment_lem c clock user start d1) in
    (
      omega (arith, counted, increment_lem c clock user start d1),
      ground (
        arith,
        increment_lem c clock user start d1,
        with_session_lem c clock' user (λ s. (s.totp_attempts, s)) e,
      ),
      lasting c clock'' user now later last (start + minutes c.block_duration)
          (perform_calls c user calls e) (perform_calls-lasts c user start calls e during blocked)
          le,
    )

module _ (c : Config) (clock : ℕ → ℕ) (user start : ℕ) (d : Sessions) (clock' : ℕ → ℕ)
    (now later last : ℕ) where
  -- `set_blocked_time` shuts the user out for the minutes given, or for the configured duration if
  -- none, or zero, are given.
  set_blocked_time_blocks :
      (duration : Option ℕ)
      → now ≤ start + minutes (block_minutes c clock user duration)
      → IsShutOut c clock' user now later last (set_blocked_time c clock user duration start d)
  set_blocked_time_blocks duration le =
      shut_out c clock' user now later last (start + minutes (block_minutes c clock user duration))
        (set_blocked_time c clock user duration start d)
        (block_until c clock user (start + minutes (block_minutes c clock user duration))
          (current user d))
        (set_blocked_time_lem c clock user start d duration) refl le

-- Once a block is over, `is_blocked` lifts it: the user is let go on unauthenticated, and the count
-- of failed attempts is still the one that caused the block.
block_lifts :
    (c : Config) (clock : ℕ → ℕ) (user now later until : ℕ) (d : Sessions) (s : UserSession)
    → lookup user d ≡ some s
    → s.blocked_time ≡ some until
    → s.auth_state ≡ blocked
    → until < now
    → until < later
    → let (answer, e) = is_blocked c clock user now later d in
      (answer ≡ false)
      × (lookup user e ≡ some (record s { blocked_time = none; auth_state = unauthenticated }))
block_lifts c clock user now later until d s there b state over over' =
    ground (arith, is_blocked_lem c clock user now later d)
