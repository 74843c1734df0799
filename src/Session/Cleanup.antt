-- ===== src/Session/Cleanup.antt =====
-- The removal of expired sessions in pytmbot/middleware/session_manager.py, by the worker thread and
-- by the statistics.
use pytmbot.Base.{
  ℕ, ◌+◌, ◌≡◌, refl, Bool, false, Option, none, some, List, [], ◌∷◌, arith, length, All, ◌⊎◌,
  if◌then◌else◌, inl, inr, Option-cases, Bool-cases,
}
use pytmbot.Base.Dict.{lookup, IsDict}
use pytmbot.Base.Eq.{◌==◌, nat_eq, ==_iff}
use pytmbot.Session.Store.{
  AuthState, authenticated, processing, blocked, is_state, UserSession, Sessions, Config, select,
  erase_all, expired_at, is_expired,
}
use pytmbot.Session.Methods.{
  clear_expired_sessions, Stats, tally, get_session_stats, is_blocked, get_totp_attempts,
}
use pytmbot.Session.Select.{
  drop_where, erase_all-select, length-drop_where, drop_where-All, lookup-drop_where_kept,
  lookup-drop_where,
}
use pytmbot.Session.Current.{with_session_lem}
use pytmbot.Session.Blocking.{is_blocked_lem}

lookup-All :
    (p : ℕ → UserSession → Bool) (u : ℕ) (d : Sessions) {s : UserSession}
    → All (λ e. p e.0 e.1 ≡ false) d
    → lookup u d ≡ some s
    → p u s ≡ false
unfolding lookup
lookup-All p u [] a h = cc
lookup-All p u ((v, t) ∷ d) {s} a h = elim (Bool-cases (v == u)) [
  | inl hit ↦ ground (arith, ==_iff v u)
  | inr miss ↦ lookup-All p u d a.1 (ground arith)
]

module _ (c : Config) (clock : ℕ → ℕ) (d : Sessions) (unique : IsDict d) where
  -- From a dictionary that lists nobody twice, the cleanup removes exactly the sessions that are
  -- expired, and changes no other.
  pub lookup-clear_expired_sessions :
      (u : ℕ)
      → lookup u (clear_expired_sessions c clock d)
        ≡ (elim (lookup u d) as (λ x. Option UserSession) [
          | none ↦ none
          | some s ↦ if expired_at c clock u s then none else some s
        ])
  unfolding clear_expired_sessions
  lookup-clear_expired_sessions u =
      rw (erase_all-select (expired_at c clock) d unique) (by_entry (Option-cases (lookup u d)))
    where
      n : ℕ
      n = length (select (expired_at c clock) d)

      by_entry :
          (lookup u d ≡ none) ⊎ ((s : UserSession) × (lookup u d ≡ some s))
          → lookup u (drop_where n (expired_at c clock) d)
            ≡ (elim (lookup u d) as (λ x. Option UserSession) [
              | none ↦ none
              | some s ↦ if expired_at c clock u s then none else some s
            ])
      by_entry (inl e) = elim (Option-cases (lookup u (drop_where n (expired_at c clock) d))) [
        | inl f ↦ cc
        | inr (t, f) ↦ cc (lookup-drop_where n u (expired_at c clock) d unique f)
      ]
      by_entry (inr (s, e)) = elim (Option-cases (lookup u (drop_where n (expired_at c clock) d))) [
        | inl f ↦ ground (arith, lookup-drop_where_kept n u (expired_at c clock) d e)
        | inr (t, f) ↦ ground (
          arith,
          lookup-drop_where n u (expired_at c clock) d unique f,
          lookup-All (expired_at c clock) u (drop_where n (expired_at c clock) d)
              (drop_where-All n (expired_at c clock) d (omega arith)) f,
        )
      ]

  -- A user who has not logged in loses the session, whatever it holds: after a cleanup a block that
  -- still has time to run is gone, and so is the count of failed attempts.
  pub clear_forgets_block :
      (u : ℕ) (s : UserSession)
      → lookup u d ≡ some s
      → s.login_time ≡ none
      → let e = clear_expired_sessions c clock d in
        ((now later : ℕ) → (is_blocked c clock u now later e).0 ≡ false)
        × ((get_totp_attempts c clock u e).0 ≡ 0)
  unfolding is_expired get_totp_attempts
  clear_forgets_block u s there never = (
    λ now later. ground (
      arith,
      lookup-clear_expired_sessions u,
      is_blocked_lem c clock u now later (clear_expired_sessions c clock d),
    ),
    ground (
      arith,
      lookup-clear_expired_sessions u,
      with_session_lem c clock u (λ x. (x.totp_attempts, x)) (clear_expired_sessions c clock d),
    ),
  )

-- How many sessions are in a state.
unfoldable pub count_state : AuthState → Sessions → ℕ
count_state state [] = 0
count_state state ((u, s) ∷ d) =
    (if is_state s.auth_state state then 1 else 0) + count_state state d

tally_lem :
    (d : Sessions) (n : Stats)
    → ((tally d n).total_sessions ≡ n.total_sessions)
      × ((tally d n).evicted_sessions ≡ n.evicted_sessions)
      × ((tally d n).expired_sessions ≡ n.expired_sessions)
      × ((tally d n).authenticated_sessions
          ≡ n.authenticated_sessions + count_state authenticated d)
      × ((tally d n).blocked_sessions ≡ n.blocked_sessions + count_state blocked d)
      × ((tally d n).processing_sessions ≡ n.processing_sessions + count_state processing d)
unfolding tally count_state
tally_lem [] n = omega arith
tally_lem ((u, s) ∷ d) n = ground (
  arith,
  tally_lem d n,
  tally_lem d (record n { authenticated_sessions = n.authenticated_sessions + 1 }),
  tally_lem d (record n { blocked_sessions = n.blocked_sessions + 1 }),
  tally_lem d (record n { processing_sessions = n.processing_sessions + 1 }),
)

module _ (c : Config) (clock : ℕ → ℕ) (d : Sessions) (unique : IsDict d) where
  -- The statistics are of the sessions that are left after the removal of the expired ones: with
  -- those evicted they are all that there were, each of the three states is counted exactly, and the
  -- count of expired sessions is zero in every answer.
  get_session_stats_lem :
      let (n, e) = get_session_stats c clock d in
      (e ≡ clear_expired_sessions c clock d)
      × (n.total_sessions ≡ length e)
      × (n.total_sessions + n.evicted_sessions ≡ length d)
      × (n.authenticated_sessions ≡ count_state authenticated e)
      × (n.blocked_sessions ≡ count_state blocked e)
      × (n.processing_sessions ≡ count_state processing e)
      × (n.expired_sessions ≡ 0)
  unfolding get_session_stats clear_expired_sessions
  get_session_stats_lem =
      let expired : List ℕ = select (expired_at c clock) d in
      let e : Sessions = erase_all expired d in
      let left : length e + length expired ≡ length d =
        rw (erase_all-select (expired_at c clock) d unique)
          (omega (arith, length-drop_where (length expired) (expired_at c clock) d)) in
      let counts = tally_lem e (record {
        total_sessions = length e;
        authenticated_sessions = 0;
        blocked_sessions = 0;
        expired_sessions = 0;
        processing_sessions = 0;
        evicted_sessions = length expired;
      }) in
      (
        refl,
        omega (arith, counts),
        omega (arith, counts, left),
        omega (arith, counts),
        omega (arith, counts),
        omega (arith, counts),
        omega (arith, counts),
      )
