-- ===== src/Protected/Tests.antt =====
-- The guards at concrete inputs.
use pytmbot.Base.{ℕ, String, ◌≡◌, refl, true, false, none, some, List, [], ◌∷◌}
use pytmbot.Base.Dict.{lookup}
use pytmbot.Telegram.{User, Update, message, private_chat}
use pytmbot.Access.{member}
use pytmbot.Session.Store.{Sessions, new_session, authenticated, default_config}
use pytmbot.TwoFactor.Handler.{Auth, referer_main, success, log_in}
use pytmbot.TwoFactor.Replay.{written}
use pytmbot.TwoFactor.Handler.{Setup, Clocks}
use pytmbot.Protected.{
  Accounts, is_valid_context, two_factor_auth_required, Demands, handle_auth_message, auth_required,
}
use pytmbot.Protected.Gatekeeping.{is_called, two_factor_auth_required_lem, asked_and_led_back}

abbrev accounts : Accounts
accounts = record {
  allowed_user_ids = 1 ∷ 2 ∷ [];
  allowed_admins_ids = 1 ∷ [];
  manager = default_config;
}

abbrev user : ℕ → User
user n = record { id = n; username = none; is_bot = false }

abbrev to_text : List ℕ → String
to_text text = "Containers"

abbrev query : Update
query = message (some (user 1)) (some (private_chat 1)) (some (67 ∷ []))

abbrev logged_in : Sessions
logged_in = (1, record new_session { auth_state = authenticated; login_time = some 5 }) ∷ []

two_factor_auth_required_lem_example :
    is_called (two_factor_auth_required accounts to_text (λ u. 0) 6 7 8 query logged_in).0 ≡ true
unfolding is_valid_context member lookup
two_factor_auth_required_lem_example =
    two_factor_auth_required_lem accounts to_text (λ u. 0) 6 7 8 query logged_in

abbrev demands : Demands
demands = record {
  target_user_id = some 1;
  require_owner_match = true;
  require_admin = true;
  require_session = true;
}

abbrev setup : Setup
setup = record {
  manager = default_config;
  totp_max_attempts = 3;
  has_key_material = true;
  verify = λ user code step. false;
}

abbrev clocks : Clocks
clocks = record {
  evicting = λ u. 0;
  test = 1_000;
  unblocking = 1_000;
  monotonic = 5;
  step = 150;
  last = 2_000;
  writing = written;
}

-- What is stored when the administrator asks for the containers.
abbrev asked_for : Sessions
asked_for = (two_factor_auth_required accounts to_text (λ u. 0) 6 7 8 query []).1

abbrev after_asking : Auth
after_asking = record {
  sessions = asked_for;
  bursts = [];
  register = record { used = []; loaded = false; file = none };
}

asked_and_led_back_example :
    ((two_factor_auth_required accounts to_text (λ u. 0) 6 7 8 query []).0
      ≡ handle_auth_message auth_required query)
    × ((log_in setup clocks 1 after_asking).replies ≡ success (referer_main "Containers") ∷ [])
    × ((log_in setup clocks 1 after_asking).raised ≡ none)
unfolding is_valid_context member lookup
asked_and_led_back_example =
    asked_and_led_back accounts to_text (λ u. 0) 6 7 8 query [] (user 1) setup clocks after_asking
      refl refl refl refl refl refl
