-- ===== src/Session/Current.antt =====
-- What a method of pytmbot/middleware/session_manager.py sees and leaves behind: its user's session,
-- fresh if there was none, and the other users' sessions, which it can only evict.
use pytmbot.Base.{ℕ, ◌≤◌, ◌≡◌, ◌≢◌, none, some, arith, length, Option-cases, inl, inr}
use pytmbot.Base.Dict.{lookup, IsDict, lookup-insert, contains-lookup, length-insert, insert-IsDict}
use pytmbot.Base.Eq.{nat_eq, ==_iff}
use pytmbot.Session.Store.{UserSession, new_session, Sessions, Config, evict, get_or_create}
use pytmbot.Session.Methods.{with_session}
use pytmbot.Session.Eviction.{evict-room, evict-IsDict, lookup-evict}

-- The session that a method for this user works on.
abbrev pub current : ℕ → Sessions → UserSession
current user d = elim (lookup user d) [ none ↦ new_session | some s ↦ s ]

-- The dictionary lists nobody twice and keeps to the cap.
pub record IsWithin (c : Config) (d : Sessions) : Type 0 where
  pub unique : IsDict d
  pub bounded : length d ≤ c.max_sessions

module _ (c : Config) (clock : ℕ → ℕ) (user : ℕ) (d : Sessions) where
  get_or_create_lem :
      ((get_or_create c clock user d).0 ≡ current user d)
      × (lookup user (get_or_create c clock user d).1 ≡ some (current user d))
  unfolding get_or_create
  get_or_create_lem =
      ground (arith, ==_iff user user, lookup-insert user user new_session (evict c clock d).1)

  get_or_create-other :
      (v : ℕ) (t : UserSession)
      → IsDict d
      → user ≢ v
      → lookup v (get_or_create c clock user d).1 ≡ some t
      → lookup v d ≡ some t
  unfolding get_or_create
  get_or_create-other v t unique ne h = ground (
    arith,
    ==_iff user v,
    lookup-insert user v new_session (evict c clock d).1,
    lookup-evict c clock d unique v t,
  )

  get_or_create-IsWithin :
      1 ≤ c.max_sessions → IsWithin c d → IsWithin c (get_or_create c clock user d).1
  unfolding get_or_create
  get_or_create-IsWithin cap w = elim (Option-cases (lookup user d)) [
    | inl e ↦ rw e (record {
      unique = insert-IsDict user new_session (evict c clock d).1 (evict-IsDict c clock d w.unique);
      bounded = ground (
        arith,
        evict-room c clock d w.unique cap,
        length-insert user new_session (evict c clock d).1,
      );
    })
    | inr (s, e) ↦ rw e w
  ]

module _ {A : Type 0} (c : Config) (clock : ℕ → ℕ) (user : ℕ) (body : UserSession → A × UserSession)
    (d : Sessions) where
  -- The body runs on the user's session, and its result is stored.
  pub with_session_lem :
      let (a, e) = with_session c clock user body d in
      (a ≡ (body (current user d)).0) × (lookup user e ≡ some (body (current user d)).1)
  unfolding with_session
  with_session_lem = (
    rw (get_or_create_lem c clock user d).0,
    rw ((get_or_create_lem c clock user d).0, lookup-insert, ==_iff user user) (ground arith),
  )

  pub with_session-other :
      (v : ℕ) (t : UserSession)
      → IsDict d
      → user ≢ v
      → lookup v (with_session c clock user body d).1 ≡ some t
      → lookup v d ≡ some t
  unfolding with_session
  with_session-other v t unique ne h = ground (
    arith,
    ==_iff user v,
    lookup-insert user v (body (get_or_create c clock user d).0).1 (get_or_create c clock user d).1,
    get_or_create-other c clock user d v t unique ne,
  )

  pub with_session-IsWithin :
      1 ≤ c.max_sessions → IsWithin c d → IsWithin c (with_session c clock user body d).1
  unfolding with_session
  with_session-IsWithin cap w =
      let e : Sessions = (get_or_create c clock user d).1 in
      let s : UserSession = (body (get_or_create c clock user d).0).1 in
      let v : IsWithin c e = get_or_create-IsWithin c clock user d cap w in
      record {
        unique = insert-IsDict user s e v.unique;
        bounded = ground (
          arith,
          v,
          length-insert user s e,
          contains-lookup user e,
          get_or_create_lem c clock user d,
        );
      }
