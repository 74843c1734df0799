-- ===== src/Session/Eviction.antt =====
-- `_evict_sessions_if_needed` of pytmbot/middleware/session_manager.py: it makes room for one
-- session, changes none, and drops a valid login only after all sessions without one.
use pytmbot.Base.{ℕ, ◌≤◌, ◌≡◌, refl, true, some, [], ◌∷◌, arith, length, if◌then◌else◌, if-keeps}
use pytmbot.Base.Dict.{lookup, IsDict}
use pytmbot.Base.Eq.{nat_eq}
use pytmbot.Session.Store.{
  UserSession, Sessions, Config, select, expired_at, not_authenticated, anyone, has_room, overflow,
  evict_oldest, evict_others, evict,
}
use pytmbot.Session.Select.{
  drop_where, erase_all-take-select, erase_all-select, length-drop_where, drop_where-IsDict,
  lookup-drop_where,
}

length-select-anyone : (d : Sessions) → length (select anyone d) ≡ length d
unfolding select
length-select-anyone [] = refl
length-select-anyone ((u, s) ∷ d) = ground (arith, length-select-anyone d)

module _ (c : Config) where
  abbrev pub oldest_dropped : Sessions → Sessions
  oldest_dropped d = drop_where (overflow c d) anyone d

  abbrev pub others_dropped : Sessions → Sessions
  others_dropped d = drop_where (overflow c d) not_authenticated d

  abbrev pub expired_dropped : (ℕ → ℕ) → Sessions → Sessions
  expired_dropped clock d =
      drop_where (length (select (expired_at c clock) d)) (expired_at c clock) d

  evict_oldest_lem : (d : Sessions) → IsDict d → (evict_oldest c d).1 ≡ oldest_dropped d
  unfolding evict_oldest
  evict_oldest_lem d h = erase_all-take-select (overflow c d) anyone d h

  evict_others_lem :
      (d : Sessions)
      → IsDict d
      → (evict_others c d).1 ≡ (
          if has_room c (others_dropped d)
          then others_dropped d
          else oldest_dropped (others_dropped d))
  unfolding evict_others
  evict_others_lem d h = ground (
    arith,
    erase_all-take-select (overflow c d) not_authenticated d h,
    drop_where-IsDict (overflow c d) not_authenticated d h,
    evict_oldest_lem (others_dropped d),
  )

  -- The three stages, each as a drop of the first sessions that a test selects.
  pub evict_lem :
      (clock : ℕ → ℕ) (d : Sessions)
      → IsDict d
      → (evict c clock d).1 ≡ (
          if has_room c d
          then d
          else let d1 = expired_dropped clock d in
            if has_room c d1
            then d1
            else let d2 = others_dropped d1 in if has_room c d2 then d2 else oldest_dropped d2)
  unfolding evict
  evict_lem clock d h = ground (
    arith,
    erase_all-select (expired_at c clock) d h,
    drop_where-IsDict (length (select (expired_at c clock) d)) (expired_at c clock) d h,
    evict_others_lem (expired_dropped clock d),
  )

  oldest_dropped-room : (d : Sessions) → 1 ≤ c.max_sessions → has_room c (oldest_dropped d) ≡ true
  oldest_dropped-room d h =
      ground (arith, length-drop_where (overflow c d) anyone d, length-select-anyone d)

module _ (c : Config) (clock : ℕ → ℕ) (d : Sessions) (unique : IsDict d) where
  -- For a cap of at least one, the three stages of `evict` make room, whatever the sessions are that
  -- list nobody twice.
  pub evict-room : 1 ≤ c.max_sessions → has_room c (evict c clock d).1 ≡ true
  evict-room h =
      rw (evict_lem c clock d unique)
        (ground (arith, oldest_dropped-room c (others_dropped c (expired_dropped c clock d)) h))

  pub expired_dropped-IsDict : IsDict (expired_dropped c clock d)
  expired_dropped-IsDict =
      drop_where-IsDict (length (select (expired_at c clock) d)) (expired_at c clock) d unique

  pub others_dropped-IsDict : IsDict (others_dropped c (expired_dropped c clock d))
  others_dropped-IsDict =
      drop_where-IsDict (overflow c (expired_dropped c clock d)) not_authenticated
        (expired_dropped c clock d) expired_dropped-IsDict

  pub evict-IsDict : IsDict (evict c clock d).1
  evict-IsDict = rw (evict_lem c clock d unique) (
      if-keeps (λ (e : Sessions). IsDict e) (has_room c d) unique
        (if-keeps (λ (e : Sessions). IsDict e) (has_room c (expired_dropped c clock d))
          expired_dropped-IsDict
          (if-keeps (λ (e : Sessions). IsDict e)
            (has_room c (others_dropped c (expired_dropped c clock d))) others_dropped-IsDict
            (drop_where-IsDict (overflow c (others_dropped c (expired_dropped c clock d))) anyone
              (others_dropped c (expired_dropped c clock d)) others_dropped-IsDict))))

  module _ (u : ℕ) (s : UserSession) where
    abbrev pub Stays : Sessions → Type 0
    Stays e = lookup u e ≡ some s → lookup u d ≡ some s

    expired_dropped-Stays : Stays (expired_dropped c clock d)
    expired_dropped-Stays =
        lookup-drop_where (length (select (expired_at c clock) d)) u (expired_at c clock) d unique

    pub others_dropped-Stays : Stays (others_dropped c (expired_dropped c clock d))
    others_dropped-Stays h = expired_dropped-Stays (
        lookup-drop_where (overflow c (expired_dropped c clock d)) u not_authenticated
          (expired_dropped c clock d) expired_dropped-IsDict h)

    -- A session that is there after `evict` was there before, with the same content.
    pub lookup-evict : Stays (evict c clock d).1
    lookup-evict = rw (evict_lem c clock d unique) (
        if-keeps Stays (has_room c d) (λ h. h)
          (if-keeps Stays (has_room c (expired_dropped c clock d)) expired_dropped-Stays (
            if-keeps Stays (has_room c (others_dropped c (expired_dropped c clock d)))
              others_dropped-Stays
              (λ h. others_dropped-Stays (
                lookup-drop_where (overflow c (others_dropped c (expired_dropped c clock d))) u
                  anyone (others_dropped c (expired_dropped c clock d)) others_dropped-IsDict h)))))
