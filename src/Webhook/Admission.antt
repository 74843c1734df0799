-- ===== src/Webhook/Admission.antt =====
-- Which updates the webhook server of pytmbot/webhook.py gives to the bot.
use pytmbot.Base.{
  ℕ, ◌≡◌, refl, ap, ◌↔◌, ◌⊎◌, String, true, false, Option, none, some, List, [], ◌∷◌, arith,
  Bool-cases, Option-cases, inl, inr,
}
use pytmbot.Base.Dict.{Dict, lookup}
use pytmbot.Base.Eq.{string_eq, ==_iff, ==_refl}
use pytmbot.Webhook.Limiter.{is_rate_limited}
use pytmbot.Webhook.Validation.{uncached, AreSound, is_telegram_ip-AreSound, fresh-AreSound}
use pytmbot.Webhook.Client.{Resolved, refused, resolved, resolve_client_ip}
use pytmbot.Webhook.Server.{
  Config, Server, new_server, rate_limiter, is_over, resolve_expected_secret, failed, done, rotate,
  maybe_rotate, Processing, processed, value_error, other_error, process_update, process_webhook,
  same_secret, Request, receive, not_found, Event, request, unknown_path, rotation, step, run,
}
use pytmbot.Webhook.Rotation.{IsServing, lookup-cleanup_expired, run-IsServing-new}

-- The caches of the server are sound.
abbrev HasSound : Config → Server → Type 0
HasSound c s = AreSound (uncached c.parse c.ranges) s.validator

Resolved-cases :
    (x : Resolved)
    → ((status : ℕ) × (x ≡ refused status))
      ⊎ ((peer_ip : String) × (client_ip : String) × (x ≡ resolved peer_ip client_ip))
Resolved-cases (refused status) = inl (status, refl)
Resolved-cases (resolved peer_ip client_ip) = inr (peer_ip, client_ip, refl)

abbrev client_of : Config → Request → Resolved
client_of c q =
    resolve_client_ip c.to_text c.parse c.trusted_proxy_networks q.peer q.x_forwarded_for

module _ (c : Config) where
  process_webhook-validator :
      (ip : String) (q : Request) (s : Server)
      → (process_webhook c ip q s).1.validator ≡ s.validator
  unfolding process_webhook resolve_expected_secret process_update maybe_rotate
  process_webhook-validator ip q s = ground arith

  receive-HasSound : (q : Request) (s : Server) → HasSound c s → HasSound c (receive c q s).1
  unfolding receive
  receive-HasSound q s h = elim (Resolved-cases (client_of c q)) [
    | inl (status, e) ↦
        let same : (receive c q s).1.validator ≡ s.validator = ground (arith, e) in rw same h
    | inr (peer_ip, client_ip, e) ↦
        let (v, answered, h') = is_telegram_ip-AreSound c.parse c.ranges client_ip s.validator h in
        let same : (receive c q s).1.validator ≡ v = ground (
          arith,
          e,
          answered,
          process_webhook-validator client_ip q (record s { validator = v }),
        ) in
        rw same h'
  ]

  step-HasSound : (event : Event) (s : Server) → HasSound c s → HasSound c (step c event s)
  unfolding step not_found rotate
  step-HasSound (request q) s h = receive-HasSound q s h
  step-HasSound (unknown_path k peer) s h = h
  step-HasSound (rotation failed) s h = h
  step-HasSound (rotation (done path secret at_time)) s h = h

  run-HasSound : (events : List Event) (s : Server) → HasSound c s → HasSound c (run c events s)
  unfolding run
  run-HasSound [] s h = h
  run-HasSound (event ∷ events) s h = run-HasSound events (step c event s) (step-HasSound event s h)

-- The guards that an update passes: the client is resolved and in the ranges of Telegram, the path
-- is accepted with a secret that is not over, the address is within its limit, and the request names
-- this secret.
pub record IsAdmitted (c : Config) (q : Request) (s : Server) : Type 0 where
  pub peer_ip : String
  pub client_ip : String
  pub secret : String
  pub expires_at : Option ℕ
  pub client :
      resolve_client_ip c.to_text c.parse c.trusted_proxy_networks q.peer q.x_forwarded_for
      ≡ resolved peer_ip client_ip
  pub from_telegram : uncached c.parse c.ranges client_ip ≡ true
  pub known_path : lookup q.path_token s.accepted ≡ some (secret, expires_at)
  pub in_time : is_over q.now expires_at ≡ false
  pub within_limit : (is_rate_limited (rate_limiter c) q.readings client_ip s.requests).0 ≡ false
  pub knows_secret : q.secret ≡ some secret

process_update-handed :
    (c : Config) (bot : Processing) (s : Server) → (process_update c bot s).0.handed ≡ true
unfolding process_update
process_update-handed c processed s = refl
process_update-handed c value_error s = refl
process_update-handed c other_error s = refl

same_secret_lem :
    (given : Option String) (secret : String)
    → same_secret given secret ≡ true
    → given ≡ some secret
same_secret_lem none secret h = ground (arith, h)
same_secret_lem (some g) secret h = ap some ((==_iff g secret).0 h)

module _ (c : Config) (q : Request) (s : Server) (serving : IsServing s)
    (sound : HasSound c s) where
  IsAdmitted-handed : IsAdmitted c q s → (receive c q s).0.handed ≡ true
  unfolding receive process_webhook resolve_expected_secret
  IsAdmitted-handed h =
      let (v, e, h') = is_telegram_ip-AreSound c.parse c.ranges h.client_ip s.validator sound in
      let k = lookup-cleanup_expired q.now q.path_token s.accepted serving.keys in
      ground (
        arith,
        e,
        h.client,
        h.from_telegram,
        h.known_path,
        h.in_time,
        h.within_limit,
        h.knows_secret,
        ==_refl h.secret,
        k,
        process_update-handed c q.bot,
      )

  handed-IsAdmitted : (receive c q s).0.handed ≡ true → IsAdmitted c q s
  unfolding receive process_webhook resolve_expected_secret
  handed-IsAdmitted h = elim (Resolved-cases (client_of c q)) [
    | inl (status, e) ↦ absurd (ground (arith, e, h))
    | inr (peer_ip, client_ip, e) ↦
        let (v, answered, h') =
          is_telegram_ip-AreSound c.parse c.ranges client_ip s.validator sound in
        let k = lookup-cleanup_expired q.now q.path_token s.accepted serving.keys in
        elim (Bool-cases (uncached c.parse c.ranges client_ip)) [
          | inr outside ↦ absurd (ground (arith, e, answered, outside, h))
          | inl inside ↦ elim (Option-cases (lookup q.path_token s.accepted)) [
            | inl unknown ↦ absurd (ground (arith, e, answered, inside, k, unknown, h))
            | inr ((secret, expires_at), known) ↦ record {
              peer_ip = peer_ip;
              client_ip = client_ip;
              secret = secret;
              expires_at = expires_at;
              client = e;
              from_telegram = inside;
              known_path = known;
              in_time = ground (arith, e, answered, inside, k, known, h);
              within_limit = ground (arith, e, answered, inside, k, known, h);
              knows_secret =
                  ground (arith, e, answered, inside, k, known, h, same_secret_lem q.secret secret);
            }
          ]
        ]
  ]

-- At every server that requests and rotations reach, an update is given to the bot exactly if it
-- passes every guard: the peer, or the first address of the header of a trusted proxy, is in the
-- ranges of Telegram, the path is accepted and not over, the address is within the limit, and the
-- request names the secret of this path.
pub receive-IsAdmitted :
    (c : Config) (path secret : String) (start : ℕ) (file file_404 : Option (Dict String ℕ))
    (events : List Event) (q : Request)
    → let s = run c events (new_server path secret start file file_404) in
      ((receive c q s).0.handed ≡ true) ↔ IsAdmitted c q s
receive-IsAdmitted c path secret start file file_404 events q =
    let s0 = new_server path secret start file file_404 in
    let serving = run-IsServing-new c path secret start file file_404 events in
    let sound = run-HasSound c events s0 (fresh-AreSound (uncached c.parse c.ranges)) in
    (
      handed-IsAdmitted c q (run c events s0) serving sound,
      IsAdmitted-handed c q (run c events s0) serving sound,
    )
