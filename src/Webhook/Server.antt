-- ===== src/Webhook/Server.antt =====
-- The server of pytmbot/webhook.py: the request of an update with its guards, the request of an
-- unknown path, and the rotation of the credentials. The readings of the clocks are in microseconds.
use pytmbot.Base.{
  ℕ, ◌+◌, String, Bool, true, false, Option, none, some, List, [], ◌∷◌, leb, if◌then◌else◌,
}
use pytmbot.Base.Dict.{Dict, lookup, insert, erase}
use pytmbot.Base.Eq.{◌==◌, nat_eq, string_eq}
use pytmbot.Webhook.Limiter as Limiter
use pytmbot.Webhook.Limiter.{seconds, Limits, CallReadings, is_rate_limited}
use pytmbot.Webhook.Addresses as Addresses
use pytmbot.Webhook.Addresses.{Address, Network, Ranges, Caches, is_telegram_ip}
use pytmbot.Webhook.Client.{refused, resolved, resolve_client_ip}

-- A secret token with the end of its acceptance.
abbrev pub Credentials : Type 0
Credentials = Dict String (String × Option ℕ)

-- The attributes that stay, with the functions of the packages: the reading of an address, and the
-- text of a header's piece.
pub record Config : Type 0 where
  pub to_text : List ℕ → String
  pub parse : String → Option Address
  pub ranges : Ranges
  pub trusted_proxy_networks : List Network
  pub enable_rate_state_persistence : Bool

-- The two limiters of `__init__`; 50 is the default of `ban_threshold`.
abbrev pub rate_limiter : Config → Limits
rate_limiter c = Limiter.create 10 10 50 4_096 c.enable_rate_state_persistence

abbrev pub rate_limiter_404 : Config → Limits
rate_limiter_404 c = Limiter.create 5 10 50 1_024 c.enable_rate_state_persistence

pub record Server : Type 0 where
  pub request_counter : ℕ
  pub webhook_path_token : String
  pub secret_token : String
  pub accepted : Credentials
  pub rotation_in_progress : Bool
  pub last_restart : ℕ
  pub requests : Limiter.State
  pub requests_404 : Limiter.State
  pub validator : Caches

-- `__init__`, with the two generated tokens and the files of the limiters.
abbrev pub new_server :
    String → String → ℕ → Option (Dict String ℕ) → Option (Dict String ℕ) → Server
new_server path_token secret_token now file file_404 = record {
  request_counter = 0;
  webhook_path_token = path_token;
  secret_token = secret_token;
  accepted = (path_token, (secret_token, none)) ∷ [];
  rotation_in_progress = false;
  last_restart = now;
  requests = Limiter.fresh file;
  requests_404 = Limiter.fresh file_404;
  validator = Addresses.fresh;
}

-- `expires_at is not None and now >= expires_at`
abbrev pub is_over : ℕ → Option ℕ → Bool
is_over now none = false
is_over now (some expires_at) = leb expires_at now

unfoldable pub expired_path_tokens : ℕ → Credentials → List String
expired_path_tokens now [] = []
expired_path_tokens now ((path_token, (_, expires_at)) ∷ d) =
    let rest = expired_path_tokens now d in
    if is_over now expires_at then path_token ∷ rest else rest

unfoldable pub pop_all : List String → Credentials → Credentials
pop_all [] d = d
pop_all (path_token ∷ tokens) d = pop_all tokens (erase path_token d)

-- `_cleanup_expired_webhook_credentials`
abbrev pub cleanup_expired : ℕ → Credentials → Credentials
cleanup_expired now d = pop_all (expired_path_tokens now d) d

-- `_resolve_expected_secret`
unfoldable pub resolve_expected_secret : ℕ → String → Server → Option String × Server
unfolding expired_path_tokens pop_all
resolve_expected_secret now path_token s =
    let d = cleanup_expired now s.accepted in
    (
      elim (lookup path_token d) [ none ↦ none | some (secret, _) ↦ some secret ],
      record s { accepted = d },
    )

-- `WEBHOOK_ROTATION_REQUEST_THRESHOLD` and `WEBHOOK_ROTATION_GRACE_PERIOD_SECONDS`
abbrev pub rotation_threshold : ℕ
rotation_threshold = 10_000

abbrev pub grace_period : ℕ
grace_period = seconds 300

-- `_maybe_rotate_webhook`: whether it starts the thread of a rotation.
unfoldable pub maybe_rotate : Server → Bool × Server
maybe_rotate s =
    if leb rotation_threshold s.request_counter
    then if s.rotation_in_progress
      then (false, s)
      else (true, record s { rotation_in_progress = true })
    else (false, s)

-- How `setup_webhook` ends in a rotation: with an exception, or with the new path and secret set at
-- Telegram, and then the reading of the clock.
pub data Setup : Type 0 where
  failed : Setup
  done : (path_token secret_token : String) (rotated_at : ℕ) → Setup

-- `_rotate_webhook_credentials`. `__init__` sets both tokens, so its early return is never taken.
unfoldable pub rotate : Setup → Server → Server
rotate failed s = record s { rotation_in_progress = false }
rotate (done path_token secret_token rotated_at) s = record s {
  accepted =
      insert path_token (secret_token, none)
        (insert s.webhook_path_token (s.secret_token, some (rotated_at + grace_period)) s.accepted);
  webhook_path_token = path_token;
  secret_token = secret_token;
  request_counter = 0;
  last_restart = rotated_at;
  rotation_in_progress = false;
}

-- How the bot ends with an update: as it should, with a `ValueError`, or with another exception.
pub data Processing : Type 0 where
  processed value_error other_error : Processing

-- A request of the route with its readings of the clocks, those of the handler of a 404 included.
-- `bot` is how the bot ends with the update, if it is given to it.
pub record Request : Type 0 where
  pub peer : Option String
  pub x_forwarded_for : Option (List ℕ)
  pub path_token : String
  pub secret : Option String
  pub now : ℕ
  pub readings : CallReadings
  pub readings_404 : CallReadings
  pub bot : Processing

-- The status of the response, whether the update was given to the bot, and whether the request
-- started a rotation.
pub record Response : Type 0 where
  pub status : ℕ
  pub handed : Bool
  pub rotates : Bool

abbrev pub refusal : ℕ → Response
refusal status = record { status = status; handed = false; rotates = false }

abbrev pub same_secret : Option String → String → Bool
same_secret none expected = false
same_secret (some secret) expected = secret == expected

-- `request.client.host if request.client else "unknown"`
abbrev host_or_unknown : Option String → String
host_or_unknown none = "unknown"
host_or_unknown (some host) = host

-- What changes the server: the requests, and the ends of the rotations. A rotation runs in its own
-- thread, so that requests come between its start and its end.
pub data Event : Type 0 where
  request : Request → Event
  unknown_path : CallReadings → Option String → Event
  rotation : Setup → Event

module _ (c : Config) where
  -- What follows the guards in `process_webhook`.
  unfoldable pub process_update : Processing → Server → Response × Server
  unfolding maybe_rotate
  process_update bot s =
      let counted : Server = record s { request_counter = s.request_counter + 1 } in
      elim bot [
        | processed ↦
            let (rotates, s') = maybe_rotate counted in
            (record { status = 200; handed = true; rotates = rotates }, s')
        | value_error ↦ (record { status = 400; handed = true; rotates = false }, counted)
        | other_error ↦ (record { status = 500; handed = true; rotates = false }, counted)
      ]

  -- `process_webhook`, for the client that `verify_telegram_ip` resolved.
  unfoldable pub process_webhook : String → Request → Server → Response × Server
  unfolding process_update resolve_expected_secret
  process_webhook client_ip q s =
      let (expected, s1) = resolve_expected_secret q.now q.path_token s in
      elim expected [
        | none ↦
            let (limited, limiter) =
              is_rate_limited (rate_limiter_404 c) q.readings client_ip s1.requests_404 in
            (refusal (if limited then 429 else 404), record s1 { requests_404 = limiter })
        | some secret ↦
            let (limited, limiter) =
              is_rate_limited (rate_limiter c) q.readings client_ip s1.requests in
            let s2 : Server = record s1 { requests = limiter } in
            if limited
            then (refusal 429, s2)
            else if same_secret q.secret secret
            then process_update q.bot s2
            else (refusal 403, s2)
      ]

  -- `not_found_handler`
  unfoldable pub not_found : CallReadings → Option String → Server → Response × Server
  not_found k peer s =
      let client_ip = host_or_unknown peer in
      let (limited, limiter) = is_rate_limited (rate_limiter_404 c) k client_ip s.requests_404 in
      (refusal (if limited then 429 else 404), record s { requests_404 = limiter })

  -- An `HTTPException` of 404 goes on to `not_found_handler`, which counts the peer once more.
  unfoldable pub answer_exception : Request → Response × Server → Response × Server
  unfolding not_found
  answer_exception q (response, s) =
      if response.status == 404 then not_found q.readings_404 q.peer s else (response, s)

  -- The route: `verify_telegram_ip` as the dependency of `process_webhook`. The `IndexError` of the
  -- validator is an error of the server.
  unfoldable pub receive : Request → Server → Response × Server
  unfolding process_webhook answer_exception
  receive q s =
      elim (resolve_client_ip c.to_text c.parse c.trusted_proxy_networks q.peer q.x_forwarded_for) [
        | refused status ↦ (refusal status, s)
        | resolved peer_ip client_ip ↦
            elim (is_telegram_ip c.parse c.ranges client_ip s.validator) [
              | none ↦ (refusal 500, s)
              | some (is_telegram, validator) ↦
                  let s1 : Server = record s { validator = validator } in
                  if is_telegram
                  then answer_exception q (process_webhook client_ip q s1)
                  else (refusal 403, s1)
            ]
      ]

  unfoldable pub step : Event → Server → Server
  unfolding receive not_found rotate
  step (request q) s = (receive q s).1
  step (unknown_path k peer) s = (not_found k peer s).1
  step (rotation setup) s = rotate setup s

  unfoldable pub run : List Event → Server → Server
  unfolding step
  run [] s = s
  run (event ∷ events) s = run events (step event s)
