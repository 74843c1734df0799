-- ===== src/TwoFactor/Tests.antt =====
-- Runs of two-factor authentication on small inputs, and the theorems at concrete inputs.
use pytmbot.Base.{ℕ, ◌≡◌, ◌≢◌, ◌||◌, refl, true, false, none, some, [], ◌∷◌, ◌&&◌, arith}
use pytmbot.Base.Dict.{lookup, insert}
use pytmbot.Base.Eq.{◌==◌, nat_eq}
use pytmbot.Telegram.{User}
use pytmbot.Access.Command.{first_word, word, without_bot_name}
use pytmbot.Session.Store.{
  is_state, processing, UserSession, new_session, default_config, get_or_create,
}
use pytmbot.Session.Methods.{
  with_session, is_authenticated, get_auth_state, get_blocked_time, get_totp_attempts,
}
use pytmbot.Base.Text.{is_decimal, all_of, skip_spaces, drop_trailing, strip, is_space, text_eq}
use pytmbot.TwoFactor.Digits.{is_digit, matches_pattern, is_valid_totp_code, extract_totp_code}
use pytmbot.TwoFactor.Replay.{
  Code, Register, written, seen, active, active_entries, load_replay_state, persist_replay_state,
  cut, register_code_usage, match_from, resolve_matching_step, verify_totp_code,
}
use pytmbot.TwoFactor.Replays.{Verify, Attempt, attempt, attempt_all, accepted_once}
use pytmbot.TwoFactor.Spellings.{empty, both_spellings_pass}
use pytmbot.TwoFactor.Burst.{
  drop_outside, totp_rate_limit_threshold, consume_totp_attempt, prune_stale_totp_attempts,
}
use pytmbot.TwoFactor.Handler.{
  Auth, Setup, Clocks, can_authenticate, create_referer_keyboard, log_in, check_code, guard_attempt,
  handle_totp_code_verification,
}
use pytmbot.TwoFactor.Login.{is_in, passes_text, only_a_code_logs_in}
use pytmbot.Session.Current.{current}
use pytmbot.TwoFactor.Success.{a_code_logs_in}

abbrev code : Code
code = b'1' ∷ b'2' ∷ b'3' ∷ b'4' ∷ b'5' ∷ b'6' ∷ []

-- The one code of everybody, at one step.
abbrev verify : Verify
verify user c step = text_eq c code && step == 150

abbrev fresh : Register
fresh = record { used = []; loaded = false; file = none }

abbrev at : ℕ → ℕ → Attempt
at user step = record { user = user; code = code; current_step = step; writing = written }

-- " /123456@bot"
extracted :
    extract_totp_code
      (some (32 ∷ b'/' ∷ b'1' ∷ b'2' ∷ b'3' ∷ b'4' ∷ b'5' ∷ b'6' ∷ b'@' ∷ b'b' ∷ []))
    ≡ some code
unfolding extract_totp_code strip skip_spaces drop_trailing is_space first_word word
    without_bot_name matches_pattern all_of is_decimal
extracted = refl

accepted_once_example :
    (attempt verify (at 7 151) (attempt_all verify (at 7 149 ∷ at 8 150 ∷ []) fresh)).0 ≡ false
unfolding verify_totp_code resolve_matching_step match_from matches_pattern all_of is_decimal strip
    skip_spaces drop_trailing is_space register_code_usage seen active active_entries
    load_replay_state persist_replay_state cut lookup insert
accepted_once_example =
    accepted_once verify (at 7 149) (at 7 151) (at 8 150 ∷ []) fresh 150 refl refl refl refl refl
      (omega arith, omega arith, (omega arith, omega arith, tt))

abbrev setup : Setup
setup = record {
  manager = default_config;
  totp_max_attempts = 3;
  has_key_material = true;
  verify = verify;
}

abbrev clocks : Clocks
clocks = record {
  evicting = λ u. 0;
  test = 1_000;
  unblocking = 1_000;
  monotonic = 5;
  step = 150;
  last = 2_000;
  writing = written;
}

abbrev member_named : User
member_named = record { id = 7; username = some (b'a' ∷ []); is_bot = false }

abbrev asked_for_code : UserSession
asked_for_code = record new_session {
  auth_state = processing;
  handler_type = some "message";
  referer_uri = some "Containers";
}

abbrev before : Auth
before = record { sessions = (7, asked_for_code) ∷ []; bursts = []; register = fresh }

after_lem :
    is_in 7
      (handle_totp_code_verification setup clocks (some member_named) (some code) before).state
    ≡ true
unfolding handle_totp_code_verification guard_attempt check_code log_in create_referer_keyboard
    can_authenticate get_auth_state get_blocked_time get_totp_attempts with_session get_or_create
    pytmbot.Session.Methods.set_login_time pytmbot.Session.Methods.assign_state
    pytmbot.Session.Methods.get_handler_type pytmbot.Session.Methods.get_referer_uri
    pytmbot.Session.Methods.reset_referer_data extract_totp_code is_valid_totp_code is_digit
    verify_totp_code resolve_matching_step match_from matches_pattern all_of is_decimal strip
    skip_spaces drop_trailing is_space register_code_usage seen active active_entries
    load_replay_state persist_replay_state cut consume_totp_attempt drop_outside
    totp_rate_limit_threshold prune_stale_totp_attempts lookup insert
after_lem = refl

only_a_code_logs_in_example :
    is_state (current 7 before.sessions).auth_state processing
      && passes_text setup clocks member_named (some code) before
    ≡ true
unfolding lookup
only_a_code_logs_in_example =
    only_a_code_logs_in setup clocks member_named (some code) before refl after_lem

a_code_logs_in_example :
    (is_authenticated default_config
      (λ u. 0)
      7
      3_000
      3_000
      3_000
      (handle_totp_code_verification setup clocks
        (some member_named)
        (some code)
        before).state.sessions).0
    ≡ true
unfolding extract_totp_code is_valid_totp_code is_digit can_authenticate verify_totp_code
    resolve_matching_step match_from matches_pattern all_of is_decimal strip skip_spaces
    drop_trailing is_space register_code_usage seen active active_entries load_replay_state
    persist_replay_state cut consume_totp_attempt drop_outside totp_rate_limit_threshold
    prune_stale_totp_attempts lookup insert
a_code_logs_in_example =
    a_code_logs_in setup clocks member_named (some code) code before refl refl refl refl (λ u. 0)
      3_000 3_000 3_000 (omega arith) (omega arith)

-- The same code in the digits of full width.
abbrev wide_code : Code
wide_code = 65297 ∷ 65298 ∷ 65299 ∷ 65300 ∷ 65301 ∷ 65302 ∷ []

-- The code at its step, in either digits: a comparison after Unicode's compatibility normalisation.
abbrev verify_normalised : Verify
verify_normalised user c step = (text_eq c code || text_eq c wide_code) && step == 150

abbrev wide_at : ℕ → ℕ → Attempt
wide_at user step = record { user = user; code = wide_code; current_step = step; writing = written }

codes_differ : strip code ≢ strip wide_code
unfolding strip skip_spaces drop_trailing is_space
codes_differ e = ground (arith, e)

both_spellings_pass_example :
    ((attempt verify_normalised (at 7 150) empty).0 ≡ true)
    × ((attempt verify_normalised (wide_at 7 151) (attempt verify_normalised (at 7 150) empty).1).0
        ≡ true)
unfolding resolve_matching_step match_from matches_pattern all_of is_decimal strip skip_spaces
    drop_trailing is_space
both_spellings_pass_example =
    both_spellings_pass verify_normalised (at 7 150) (wide_at 7 151) 150 150 refl codes_differ refl
      refl refl refl
