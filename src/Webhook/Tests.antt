-- ===== src/Webhook/Tests.antt =====
-- Runs of the webhook server on small inputs, and the theorems at concrete inputs.
use pytmbot.Base.{
  ℕ, ◌+◌, ◌≡◌, ◌↔◌, refl, String, true, false, Option, none, some, List, [], ◌∷◌, arith, map, ltb,
  if◌then◌else◌,
}
use pytmbot.Base.Dict.{lookup, contains, insert, erase}
use pytmbot.Base.Eq.{◌==◌, string_eq}
use pytmbot.Base.Text.{is_space, strip, skip_spaces, drop_trailing, split_on}
use pytmbot.Webhook.Limiter as Limiter
use pytmbot.Webhook.Limiter.{
  Limits, State, Saving, Readings, CallReadings, create, seconds, is_rate_limited, evict_while,
  evict_oldest_ip, oldest, drop_ip, ensure_loaded, sweep, cleanup_state, is_banned, count_request,
  drop_old, persist,
}
use pytmbot.Webhook.Bounds.{limit_all, IsBounded, limit_all-IsBounded}
use pytmbot.Webhook.Addresses as Addresses
use pytmbot.Webhook.Addresses.{
  Address, v4, network, Ranges, ipv4_ranges, ipv6_ranges, in_any, is_member, is_telegram_ip,
  remember,
}
use pytmbot.Webhook.Validation.{uncached, answer_all, answer_all-uncached}
use pytmbot.Webhook.Client.{is_trusted_proxy, keep_texts, resolve_forwarded, resolve_client_ip}
use pytmbot.Webhook.Server.{
  Config, new_server, Request, processed, done, failed, Event, request, unknown_path, rotation, run,
  step, receive, rotate, resolve_expected_secret, expired_path_tokens, pop_all, grace_period,
  process_webhook, process_update, maybe_rotate,
}
use pytmbot.Webhook.Rotation.{receive_all, rotation_grace}
use pytmbot.Webhook.Admission.{IsAdmitted, receive-IsAdmitted}

abbrev saved : Saving
saved = record { time = seconds 100; written = true }

-- All readings of the clocks of a call at one time.
abbrev readings_at : ℕ → CallReadings
readings_at t = record {
  restored_now = t;
  restored_time = t;
  time = t;
  cleanup_now = t;
  cleanup_saving = saved;
  ban_test = record {
    restored_now = t;
    restored_time = t;
    time = t;
    cleanup_now = t;
    cleanup_saving = saved;
    now = t;
    saving = saved;
  };
  ban_now = t;
  ban_saving = saved;
}

abbrev main_limits : Limits
main_limits = create 10 10 50 4_096 true

abbrev calls : List (CallReadings × String)
calls =
    (readings_at (seconds 100), "149.154.167.220")
    ∷ (readings_at (seconds 101), "149.154.167.220")
    ∷ (readings_at (seconds 200), "91.108.4.1")
    ∷ []

limit_all-IsBounded_example :
    IsBounded main_limits (limit_all main_limits calls (Limiter.fresh none))
unfolding create
limit_all-IsBounded_example =
    limit_all-IsBounded main_limits calls none
      (record { some_limit = omega arith; some_threshold = omega arith; some_room = omega arith })

-- Two addresses above a cap of one.
abbrev crowded : State
crowded = record (Limiter.fresh none) {
  last_seen = ("91.108.4.1", 5) ∷ ("91.108.4.2", 3) ∷ ("91.108.4.3", 4) ∷ [];
}

evict_while-crowded : (evict_while 1 2 crowded).last_seen ≡ ("91.108.4.1", 5) ∷ []
unfolding evict_while evict_oldest_ip oldest drop_ip erase
evict_while-crowded = refl

-- A reader that knows two addresses.
abbrev parse : String → Option Address
parse text =
    if text == "149.154.167.220"
    then some (v4 2_509_940_700)
    else if text == "10.0.0.1"
    then some (v4 167_772_161)
    else none

abbrev ranges : Ranges
ranges = record { ipv4 = ipv4_ranges; ipv6 = ipv6_ranges }

abbrev asked : List String
asked = "149.154.167.220" ∷ "10.0.0.1" ∷ "nobody" ∷ "149.154.167.220" ∷ "10.0.0.1" ∷ []

answer_all-uncached_example :
    answer_all parse ranges asked Addresses.fresh ≡ some (map (uncached parse ranges) asked)
answer_all-uncached_example = answer_all-uncached parse ranges asked

answer_all-asked :
    answer_all parse ranges asked Addresses.fresh ≡ some (true ∷ false ∷ false ∷ true ∷ false ∷ [])
unfolding answer_all is_telegram_ip is_member remember in_any
answer_all-asked = refl

abbrev config : Config
config = record {
  to_text = λ text. "149.154.167.220";
  parse = parse;
  ranges = ranges;
  trusted_proxy_networks = network (v4 167_772_160) 8 ∷ [];
  enable_rate_state_persistence = false;
}

-- A request through a proxy.
abbrev update_at : ℕ → String → String → Request
update_at t path secret = record {
  peer = some "10.0.0.1";
  x_forwarded_for = some (b' ' ∷ b'1' ∷ b',' ∷ b'2' ∷ []);
  path_token = path;
  secret = some secret;
  now = t;
  readings = readings_at t;
  readings_404 = readings_at t;
  bot = processed;
}

abbrev rotated : List Event
rotated =
    request (update_at (seconds 100) "p0" "s0")
    ∷ rotation (done "p1" "s1" (seconds 110))
    ∷ unknown_path (readings_at (seconds 111)) none
    ∷ rotation failed
    ∷ []

rotation_grace_example :
    let s1 =
      receive_all config
        (update_at (seconds 109) "p1" "s1" ∷ [])
        (new_server "p0" "s0" 0 none none) in
    let s2 =
      receive_all config
        (update_at (seconds 120) "p0" "s0" ∷ [])
        (rotate (done "p1" "s1" (seconds 110)) s1) in
    ((resolve_expected_secret (seconds 130) "p1" s1).0 ≡ none)
    × ((resolve_expected_secret (seconds 130) "p1" s2).0 ≡ some "s1")
    × ((resolve_expected_secret (seconds 130) "p0" s2).0
        ≡ (if ltb (seconds 130) (seconds 110 + grace_period) then some "s0" else none))
unfolding lookup contains
rotation_grace_example =
    rotation_grace config "p1" "s1" (update_at (seconds 109) "p1" "s1" ∷ []) (seconds 110)
      (update_at (seconds 120) "p0" "s0" ∷ []) (new_server "p0" "s0" 0 none none) (seconds 130)
      (record { keys = (refl, tt); current = refl }) refl (omega arith, tt)

receive-IsAdmitted_example :
    let s = run config rotated (new_server "p0" "s0" 0 none none) in
    let q = update_at (seconds 120) "p0" "s0" in
    ((receive config q s).0.handed ≡ true) ↔ IsAdmitted config q s
receive-IsAdmitted_example =
    receive-IsAdmitted config "p0" "s0" 0 none none rotated (update_at (seconds 120) "p0" "s0")

receive-old_path :
    let s = run config rotated (new_server "p0" "s0" 0 none none) in
    (receive config (update_at (seconds 120) "p0" "s0") s).0.handed ≡ true
unfolding run step receive rotate process_webhook process_update maybe_rotate
    resolve_expected_secret expired_path_tokens pop_all resolve_client_ip resolve_forwarded
    keep_texts split_on strip skip_spaces drop_trailing is_space is_trusted_proxy in_any
    is_telegram_ip is_member remember is_rate_limited count_request is_banned cleanup_state sweep
    ensure_loaded drop_old persist evict_while evict_oldest_ip oldest drop_ip lookup contains insert
    erase create Limiter.expired_bans Limiter.stale_ips Limiter.lift_bans Limiter.drop_ips
receive-old_path = refl
