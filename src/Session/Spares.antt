-- ===== src/Session/Spares.antt =====
-- Who is evicted by pytmbot/middleware/session_manager.py: valid logins come last.
use pytmbot.Base.{
  ℕ, ◌≡◌, true, false, some, [], ◌∷◌, arith, length, All, leb, not, Bool-cases, inl, inr,
}
use pytmbot.Base.Dict.{lookup, IsDict}
use pytmbot.Base.Eq.{◌==◌, nat_eq}
use pytmbot.Session.Store.{
  authenticated, is_state, UserSession, Sessions, Config, select, expired_at, not_authenticated,
  anyone, has_room, overflow, evict,
}
use pytmbot.Session.Select.{
  length-drop_where, drop_where-All, drop_where-subset, lookup-drop_where_kept,
}
use pytmbot.Session.Eviction.{expired_dropped, others_dropped, oldest_dropped, evict_lem}

lookup-All :
    (Q : UserSession → Type 0) (u : ℕ) (d : Sessions) {s : UserSession}
    → All (λ e. Q e.1) d
    → lookup u d ≡ some s
    → Q s
unfolding lookup
lookup-All Q u [] a h = cc
lookup-All Q u ((v, t) ∷ d) {s} a h = elim (Bool-cases (v == u)) [
  | inl hit ↦ let e : t ≡ s = ground arith in rw e at (a.0)
  | inr miss ↦ lookup-All Q u d a.1 (ground arith)
]

abbrev pub IsLoggedIn : UserSession → Type 0
IsLoggedIn s = is_state s.auth_state authenticated ≡ true

module _ (c : Config) (clock : ℕ → ℕ) (d : Sessions) (unique : IsDict d) (u w : ℕ)
    (s t : UserSession) (login : IsLoggedIn s) (live : expired_at c clock u s ≡ false)
    (there : lookup u d ≡ some s) (other : is_state t.auth_state authenticated ≡ false) where
  abbrev Spares : Sessions → Type 0
  Spares e = lookup w e ≡ some t → lookup u e ≡ some s

  expired_dropped-there : lookup u (expired_dropped c clock d) ≡ some s
  expired_dropped-there =
      lookup-drop_where_kept (length (select (expired_at c clock) d)) u (expired_at c clock) d there
        live

  others_dropped-there : lookup u (others_dropped c (expired_dropped c clock d)) ≡ some s
  others_dropped-there =
      lookup-drop_where_kept (overflow c (expired_dropped c clock d)) u not_authenticated
        (expired_dropped c clock d) expired_dropped-there (ground arith)

  -- Where the second stage leaves no room, it has dropped every session that is not logged in.
  last_stage :
      has_room c (expired_dropped c clock d) ≡ false
      → has_room c (others_dropped c (expired_dropped c clock d)) ≡ false
      → Spares (oldest_dropped c (others_dropped c (expired_dropped c clock d)))
  last_stage full1 full2 h = elim (Bool-cases (leb (length (select not_authenticated d1)) n)) [
    | inl enough ↦ cc (
      other,
      lookup-All (λ x. not (is_state x.auth_state authenticated) ≡ false) w (oldest_dropped c d2)
          (drop_where-subset (overflow c d2) (λ e. not_authenticated e.0 e.1 ≡ false) anyone d2
            (drop_where-All n not_authenticated d1 (ground arith)))
          h,
    )
    | inr more ↦ ground (arith, length-drop_where n not_authenticated d1)
  ]
    where
      d1 : Sessions
      d1 = expired_dropped c clock d

      n : ℕ
      n = overflow c d1

      d2 : Sessions
      d2 = others_dropped c d1

  -- In a dictionary that lists nobody twice, a valid login is not evicted while any session that is
  -- not logged in is left.
  pub evict_spares : lookup w (evict c clock d).1 ≡ some t → lookup u (evict c clock d).1 ≡ some s
  evict_spares h =
      ground
        (arith, evict_lem c clock d unique, expired_dropped-there, others_dropped-there, last_stage)
