-- ===== src/Webhook/Rotation.antt =====
-- The credentials that the webhook server of pytmbot/webhook.py accepts, over requests and rotations.
use pytmbot.Base.{
  ℕ, ◌+◌, ◌<◌, ◌≡◌, ◌⊎◌, ltb, All, refl, sym, ◌∙◌, String, false, Option, none, some, List, [], ◌∷◌,
  arith, if◌then◌else◌, Bool-cases, inl, inr,
}
use pytmbot.Base.Dict.{
  Dict, lookup, contains, insert, erase, IsDict, lookup-insert, lookup-erase, insert-IsDict,
  erase-IsDict,
}
use pytmbot.Base.Eq.{◌==◌, string_eq, ==_iff, ==_refl}
use pytmbot.Webhook.Limiter.{is_rate_limited}
use pytmbot.Webhook.Addresses.{is_member}
use pytmbot.Webhook.Server.{
  Credentials, Config, Server, new_server, rate_limiter, is_over, expired_path_tokens, pop_all,
  cleanup_expired, resolve_expected_secret, grace_period, Setup, failed, done, rotate, maybe_rotate,
  Processing, process_update, process_webhook, Request, receive, not_found, Event, request,
  unknown_path, rotation, step, run,
}

-- What is left of an entry at a time.
abbrev pub alive : ℕ → Option (String × Option ℕ) → Option (String × Option ℕ)
alive now none = none
alive now (some (secret, expires_at)) =
    if is_over now expires_at then none else some (secret, expires_at)

lookup-pop_all :
    (p : String) (tokens : List String) (d : Credentials)
    → lookup p (pop_all tokens d) ≡ (if is_member p tokens then none else lookup p d)
unfolding pop_all is_member
lookup-pop_all p [] d = refl
lookup-pop_all p (t ∷ tokens) d =
    ground (arith, lookup-pop_all p tokens (erase t d), lookup-erase t p d, ==_iff t p)

pop_all-IsDict : (tokens : List String) (d : Credentials) → IsDict d → IsDict (pop_all tokens d)
unfolding pop_all
pop_all-IsDict [] d h = h
pop_all-IsDict (t ∷ tokens) d h = pop_all-IsDict tokens (erase t d) (erase-IsDict t d h)

expired-member :
    (now : ℕ) (p : String) (d : Credentials)
    → contains p d ≡ false
    → is_member p (expired_path_tokens now d) ≡ false
unfolding expired_path_tokens contains is_member
expired-member now p [] h = refl
expired-member now p ((t, (v, e)) ∷ d) h = ground (arith, expired-member now p d)

expired-lookup :
    (now : ℕ) (p : String) (d : Credentials)
    → IsDict d
    → (if is_member p (expired_path_tokens now d) then none else lookup p d)
      ≡ alive now (lookup p d)
unfolding expired_path_tokens lookup is_member
expired-lookup now p [] h = refl
expired-lookup now p ((t, (v, e)) ∷ d) h = elim (Bool-cases (t == p)) [
  | inl hit ↦
      let same : t ≡ p = (==_iff t p).0 hit in
      let absent : contains p d ≡ false = rw (sym same) h.0 in
      ground (arith, hit, expired-member now p d absent)
  | inr miss ↦ ground (arith, miss, expired-lookup now p d h.1)
]

pub lookup-cleanup_expired :
    (now : ℕ) (p : String) (d : Credentials)
    → IsDict d
    → lookup p (cleanup_expired now d) ≡ alive now (lookup p d)
lookup-cleanup_expired now p d h =
    lookup-pop_all p (expired_path_tokens now d) d ∙ expired-lookup now p d h

-- What a request leaves of the credentials: the tokens as they are, and of the accepted ones all or
-- those that are not over at its reading of the clock.
abbrev pub IsCleaned : ℕ → Server → Server → Type 0
IsCleaned now s s' =
    (s'.webhook_path_token ≡ s.webhook_path_token)
    × (s'.secret_token ≡ s.secret_token)
    × ((s'.accepted ≡ s.accepted) ⊎ (s'.accepted ≡ cleanup_expired now s.accepted))

module _ (c : Config) where
  process_update-accepted :
      (bot : Processing) (s : Server)
      → ((process_update c bot s).1.webhook_path_token ≡ s.webhook_path_token)
        × ((process_update c bot s).1.secret_token ≡ s.secret_token)
        × ((process_update c bot s).1.accepted ≡ s.accepted)
  unfolding process_update maybe_rotate
  process_update-accepted bot s = ground arith

  process_webhook-accepted :
      (ip : String) (q : Request) (s : Server)
      → ((process_webhook c ip q s).1.webhook_path_token ≡ s.webhook_path_token)
        × ((process_webhook c ip q s).1.secret_token ≡ s.secret_token)
        × ((process_webhook c ip q s).1.accepted ≡ cleanup_expired q.now s.accepted)
  unfolding process_webhook resolve_expected_secret
  process_webhook-accepted ip q s =
      let limiter = (is_rate_limited (rate_limiter c) q.readings ip s.requests).1 in
      let d = cleanup_expired q.now s.accepted in
      ground (arith, process_update-accepted q.bot (record s { accepted = d; requests = limiter }))

  receive-IsCleaned : (q : Request) (s : Server) → IsCleaned q.now s (receive c q s).1
  unfolding receive
  receive-IsCleaned q s = grind (arith, process_webhook-accepted)

-- The current path is accepted with the current secret, without an end.
pub record IsServing (s : Server) : Type 0 where
  pub keys : IsDict s.accepted
  pub current : lookup s.webhook_path_token s.accepted ≡ some (s.secret_token, none)

module _ (c : Config) where
  receive-IsServing : (q : Request) (s : Server) → IsServing s → IsServing (receive c q s).1
  receive-IsServing q s h =
      let (path, secret, accepted) = receive-IsCleaned c q s in
      elim accepted [
        | inl e ↦ record { keys = rw e h.keys; current = rw (e, path, secret) h.current }
        | inr e ↦ record {
          keys = rw e (pop_all-IsDict (expired_path_tokens q.now s.accepted) s.accepted h.keys);
          current = ground (
            arith,
            e,
            path,
            secret,
            h.current,
            lookup-cleanup_expired q.now s.webhook_path_token s.accepted h.keys,
          );
        }
      ]

  rotate-IsServing : (setup : Setup) (s : Server) → IsServing s → IsServing (rotate setup s)
  unfolding rotate
  rotate-IsServing failed s h = record { keys = h.keys; current = h.current }
  rotate-IsServing (done path secret at_time) s h =
      let old : String × Option ℕ = (s.secret_token, some (at_time + grace_period)) in
      let d : Credentials = insert s.webhook_path_token old s.accepted in
      record {
        keys =
            insert-IsDict path (secret, none) d
              (insert-IsDict s.webhook_path_token old s.accepted h.keys);
        current = ground (arith, lookup-insert path path (secret, none) d, ==_refl path);
      }

  step-IsServing : (event : Event) (s : Server) → IsServing s → IsServing (step c event s)
  unfolding step not_found
  step-IsServing (request q) s h = receive-IsServing q s h
  step-IsServing (unknown_path k peer) s h = record { keys = h.keys; current = h.current }
  step-IsServing (rotation setup) s h = rotate-IsServing setup s h

  run-IsServing : (events : List Event) (s : Server) → IsServing s → IsServing (run c events s)
  unfolding run
  run-IsServing [] s h = h
  run-IsServing (event ∷ events) s h =
      run-IsServing events (step c event s) (step-IsServing event s h)

  pub run-IsServing-new :
      (path secret : String) (now : ℕ) (file file_404 : Option (Dict String ℕ))
      (events : List Event)
      → IsServing (run c events (new_server path secret now file file_404))
  unfolding lookup contains
  run-IsServing-new path secret now file file_404 events =
      run-IsServing events (new_server path secret now file file_404)
        (record { keys = (refl, tt); current = ground (arith, ==_refl path) })

-- After any sequence of requests, requests of unknown paths and ends of rotations, at any readings of
-- the clock, the current path of a server is accepted with its current secret.
pub current_path_is_accepted :
    (c : Config) (path secret : String) (start : ℕ) (file file_404 : Option (Dict String ℕ))
    (events : List Event) (now : ℕ)
    → let s = run c events (new_server path secret start file file_404) in
      (resolve_expected_secret now s.webhook_path_token s).0 ≡ some s.secret_token
unfolding resolve_expected_secret
current_path_is_accepted c path secret start file file_404 events now =
    let s = run c events (new_server path secret start file file_404) in
    let h = run-IsServing-new c path secret start file file_404 events in
    ground (arith, h.current, lookup-cleanup_expired now s.webhook_path_token s.accepted h.keys)

-- Requests in a row.
unfoldable pub receive_all : Config → List Request → Server → Server
receive_all c [] s = s
receive_all c (q ∷ qs) s = receive_all c qs (receive c q s).1

module _ (c : Config) (old_path old_secret : String) (deadline : ℕ) where
  receive_all-lookup :
      (qs : List Request) (s : Server)
      → IsServing s
      → lookup old_path s.accepted ≡ some (old_secret, some deadline)
      → All (λ q. q.now < deadline) qs
      → (lookup old_path (receive_all c qs s).accepted ≡ some (old_secret, some deadline))
        × IsServing (receive_all c qs s)
        × ((receive_all c qs s).webhook_path_token ≡ s.webhook_path_token)
        × ((receive_all c qs s).secret_token ≡ s.secret_token)
  unfolding receive_all
  receive_all-lookup [] s h e early = (e, h, refl, refl)
  receive_all-lookup (q ∷ qs) s h e early =
      let (path, secret, accepted) = receive-IsCleaned c q s in
      let kept : lookup old_path (receive c q s).1.accepted ≡ some (old_secret, some deadline) =
        ground
          (arith, e, early.0, accepted, lookup-cleanup_expired q.now old_path s.accepted h.keys) in
      let (rest_kept, serving, rest_path, rest_secret) =
        receive_all-lookup qs (receive c q s).1 (receive-IsServing c q s h) kept early.1 in
      (rest_kept, serving, rest_path ∙ path, rest_secret ∙ secret)

module _ (c : Config) where
  -- Requests bring no credentials.
  receive_all-unknown :
      (path : String) (qs : List Request) (s : Server)
      → IsServing s
      → lookup path s.accepted ≡ none
      → let s' = receive_all c qs s in
        IsServing s'
        × (lookup path s'.accepted ≡ none)
        × (s'.webhook_path_token ≡ s.webhook_path_token)
        × (s'.secret_token ≡ s.secret_token)
  unfolding receive_all
  receive_all-unknown path [] s h e = (h, e, refl, refl)
  receive_all-unknown path (q ∷ qs) s h e =
      let (same_path, same_secret, accepted) = receive-IsCleaned c q s in
      let still : lookup path (receive c q s).1.accepted ≡ none =
        ground (arith, e, accepted, lookup-cleanup_expired q.now path s.accepted h.keys) in
      let (serving, rest, rest_path, rest_secret) =
        receive_all-unknown path qs (receive c q s).1 (receive-IsServing c q s h) still in
      (serving, rest, rest_path ∙ same_path, rest_secret ∙ same_secret)

  after_rotation :
      (path secret : String) (rotated_at : ℕ) (qs : List Request) (s : Server) (now : ℕ)
      → IsServing s
      → lookup path s.accepted ≡ none
      → All (λ q. q.now < rotated_at + grace_period) qs
      → let s' = receive_all c qs (rotate (done path secret rotated_at) s) in
        ((resolve_expected_secret now path s').0 ≡ some secret)
        × ((resolve_expected_secret now s.webhook_path_token s').0
            ≡ (if ltb now (rotated_at + grace_period) then some s.secret_token else none))
  unfolding resolve_expected_secret rotate
  after_rotation path secret rotated_at qs s now h unknown early =
      let s1 = rotate (done path secret rotated_at) s in
      let old : String × Option ℕ = (s.secret_token, some (rotated_at + grace_period)) in
      let stored : lookup s.webhook_path_token s1.accepted ≡ some old = ground (
        arith,
        unknown,
        h.current,
        ==_iff path s.webhook_path_token,
        ==_refl s.webhook_path_token,
        lookup-insert path s.webhook_path_token (secret, none)
            (insert s.webhook_path_token old s.accepted),
        lookup-insert s.webhook_path_token s.webhook_path_token old s.accepted,
      ) in
      let (kept, serving, same_path, same_secret) =
        receive_all-lookup c s.webhook_path_token s.secret_token (rotated_at + grace_period) qs s1
          (rotate-IsServing c (done path secret rotated_at) s h) stored early in
      let s' = receive_all c qs s1 in
      (
        ground (
          arith,
          serving.current,
          same_path,
          same_secret,
          lookup-cleanup_expired now path s'.accepted serving.keys,
        ),
        ground
            (arith, kept, lookup-cleanup_expired now s.webhook_path_token s'.accepted serving.keys),
      )

-- A rotation to a path that the server does not accept yet. While `setup_webhook` has given the new
-- path to Telegram and the credentials are not stored, whatever requests come `between`, the new path
-- is not accepted. Once they are stored, and after any requests before the end of the grace period,
-- the new path is accepted with the new secret, and the path before it with the secret before it as
-- long as the grace period lasts and not after it.
pub rotation_grace :
    (c : Config) (path secret : String) (between : List Request) (rotated_at : ℕ)
    (qs : List Request) (s : Server) (now : ℕ)
    → IsServing s
    → lookup path s.accepted ≡ none
    → All (λ q. q.now < rotated_at + grace_period) qs
    → let s1 = receive_all c between s in
      let s2 = receive_all c qs (rotate (done path secret rotated_at) s1) in
      ((resolve_expected_secret now path s1).0 ≡ none)
      × ((resolve_expected_secret now path s2).0 ≡ some secret)
      × ((resolve_expected_secret now s.webhook_path_token s2).0
          ≡ (if ltb now (rotated_at + grace_period) then some s.secret_token else none))
rotation_grace c path secret between rotated_at qs s now h unknown early =
    let s1 : Server = receive_all c between s in
    let (serving, still, same_path, same_secret) = receive_all-unknown c path between s h unknown in
    let (new, old) = after_rotation c path secret rotated_at qs s1 now serving still early in
    (
      unfold resolve_expected_secret in
          ground (arith, still, lookup-cleanup_expired now path s1.accepted serving.keys),
      new,
      ground (arith, same_path, same_secret, old),
    )
