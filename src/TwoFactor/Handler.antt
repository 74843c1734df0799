-- ===== src/TwoFactor/Handler.antt =====
-- pytmbot/handlers/auth_processing/twofa_processing.py: the handlers of the request for a code and
-- of the code itself, on the state of the sessions, of the burst limit and of the used codes.
use pytmbot.Base.{
  ℕ, String, Bool, true, false, ◌&&◌, Option, none, some, List, [], ◌∷◌, leb, ltb, if◌then◌else◌,
}
use pytmbot.Base.Eq.{◌==◌, nat_eq, string_eq}
use Prim.Native.String.{find, len}
use pytmbot.Telegram.{User}
use pytmbot.Session.Store.{authenticated, processing, blocked, is_state, Sessions, Config}
use pytmbot.Session.Methods.{
  assign_state, get_auth_state, increment_totp_attempts, get_totp_attempts, reset_totp_attempts,
  set_blocked_time, get_blocked_time, is_blocked, set_login_time, get_referer_uri, get_handler_type,
  reset_referer_data,
}
use pytmbot.Base.Text.{strip}
use pytmbot.TwoFactor.Digits.{extract_totp_code, is_valid_totp_code}
use pytmbot.TwoFactor.Replay.{Register, Writing, verify_totp_code}
use pytmbot.TwoFactor.Replays.{Verify}
use pytmbot.TwoFactor.Burst.{Bursts, consume_totp_attempt}

pub record Auth : Type 0 where
  pub sessions : Sessions
  pub bursts : Bursts
  pub register : Register

pub data Keyboard : Type 0 where
  referer_main referer_inline : String → Keyboard

-- `build_referer_main_keyboard`: no keyboard is the `KeyboardError` on an empty text.
unfoldable pub build_referer_main_keyboard : String → Option Keyboard
build_referer_main_keyboard text = if text == "" then none else some (referer_main text)

-- `split_string_into_octets` finds its second piece, so that it raises no `IndexError`.
abbrev pub has_second_octet : String → Bool
has_second_octet text = ltb (find text ":") (len text)

-- `build_referer_inline_keyboard`: no keyboard is the `KeyboardError` on an empty text, or the
-- `IndexError` on a text without a colon. Data of a callback is no longer than the cut of the button.
unfoldable pub build_referer_inline_keyboard : String → Option Keyboard
build_referer_inline_keyboard text =
    if text == "" then none else if has_second_octet text then some (referer_inline text) else none

-- The replies, by their text.
pub data TotpReply : Type 0 where
  cannot_identify code_request too_many_failed invalid_code too_many_attempts : TotpReply
  max_attempts_reached wrong_code : TotpReply
  success : Keyboard → TotpReply

pub data Raised : Type 0 where
  index_error totp_error handling_exception : Raised

pub record Handled : Type 0 where
  pub state : Auth
  pub replies : List TotpReply
  pub raised : Option Raised

-- The session manager's configuration, `var_config.totp_max_attempts`, whether there is a salt or a
-- token to derive the secrets from, and the codes that the pyotp package takes.
pub record Setup : Type 0 where
  pub manager : Config
  pub totp_max_attempts : ℕ
  pub has_key_material : Bool
  pub verify : Verify

-- The readings of the clocks in one run of a handler: at the sessions, if a first call makes room
-- for a new one (the later calls find the user's session), for the test of a block and the
-- unblocking, of the monotonic clock, of the step, and for what is written to the session.
pub record Clocks : Type 0 where
  pub evicting : ℕ → ℕ
  pub test : ℕ
  pub unblocking : ℕ
  pub monotonic : ℕ
  pub step : ℕ
  pub last : ℕ
  pub writing : Writing

abbrev is_some_blocked : Option ℕ → ℕ → Bool
is_some_blocked none now = false
is_some_blocked (some until) now = ltb now until

abbrev text_or_empty : Option String → String
text_or_empty none = ""
text_or_empty (some text) = text

-- Whether `TwoFactorAuthenticator(user_id, username or "")` raises no `TOTPError`.
unfoldable pub can_authenticate : Setup → User → Bool
can_authenticate p user =
    leb 1 user.id
    && (elim user.username [
      | none ↦ false
      | some name ↦ elim (strip name) [ [] ↦ false | _ ∷ _ ↦ true ]
    ])
    && p.has_key_material

module _ (p : Setup) (k : Clocks) where
  abbrev done : Auth → List TotpReply → Handled
  done a replies = record { state = a; replies = replies; raised = none }

  -- `__create_referer_keyboard`: the keyboard, or no keyboard for the `HandlingException` that any
  -- exception becomes, and in both cases the sessions without the referer's data.
  unfoldable pub create_referer_keyboard : ℕ → Sessions → Option Keyboard × Sessions
  unfolding build_referer_main_keyboard build_referer_inline_keyboard
  create_referer_keyboard user d =
      let (handler, d1) = get_handler_type p.manager k.evicting user d in
      let (uri, d2) = get_referer_uri p.manager k.evicting user d1 in
      (
        (elim handler [
          | none ↦ none
          | some type ↦
              if type == "message"
              then build_referer_main_keyboard (text_or_empty uri)
              else if type == "callback_query"
              then build_referer_inline_keyboard (text_or_empty uri)
              else none
        ]),
        reset_referer_data p.manager k.evicting user d2,
      )

  -- The part after a code is verified. Without a keyboard for the referer the handler raises: the user
  -- is logged in and gets no reply.
  unfoldable pub log_in : ℕ → Auth → Handled
  unfolding create_referer_keyboard
  log_in user a =
      let d1 = assign_state p.manager k.evicting user authenticated a.sessions in
      let d2 = set_login_time p.manager k.evicting user k.last d1 in
      let (keyboard, d3) = create_referer_keyboard user d2 in
      elim keyboard [
        | none ↦ record {
          state = record a { sessions = d3 };
          replies = [];
          raised = some handling_exception;
        }
        | some kb ↦ done (record a { sessions = d3 }) (success kb ∷ [])
      ]

  unfoldable pub count_failure : ℕ → TotpReply → Auth → Handled
  count_failure user reply a =
      done
        (record a {
          sessions = (increment_totp_attempts p.manager k.evicting user k.last a.sessions).1;
        })
        (reply ∷ [])

  -- `_block_user`
  unfoldable pub block_user : ℕ → Sessions → Sessions
  block_user user d = set_blocked_time p.manager k.evicting user none k.last (
      reset_totp_attempts p.manager k.evicting user
        (assign_state p.manager k.evicting user blocked d))

  unfoldable pub check_code : User → List ℕ → Auth → Handled
  unfolding log_in count_failure
  check_code user code a =
      if can_authenticate p user
      then (let (ok, register') =
            verify_totp_code (p.verify user.id) user.id code k.step k.writing a.register in
          let a' : Auth = record a { register = register' } in
          if ok then log_in user.id a' else count_failure user.id wrong_code a')
      else record { state = a; replies = []; raised = some totp_error }

  -- The guards, which are computed together: an attempt counts for the burst limit also while the
  -- user is blocked.
  unfoldable pub guard_attempt : User → List ℕ → Auth → Handled
  unfolding check_code block_user
  guard_attempt user code a =
      let (blocked_until, d1) = get_blocked_time p.manager k.evicting user.id a.sessions in
      let (attempts, d2) = get_totp_attempts p.manager k.evicting user.id d1 in
      let (limited, bursts') =
        consume_totp_attempt p.totp_max_attempts user.id k.monotonic a.bursts in
      let a' : Auth = record a { sessions = d2; bursts = bursts' } in
      if is_some_blocked blocked_until k.test
      then done a' (too_many_failed ∷ [])
      else if limited
      then done
          (record a' {
            sessions = set_blocked_time p.manager k.evicting user.id (some 1) k.last d2;
          })
          (too_many_attempts ∷ [])
      else if leb p.totp_max_attempts attempts
      then done (record a' { sessions = block_user user.id d2 }) (max_attempts_reached ∷ [])
      else check_code user code a'

  unfoldable pub handle_totp_code_verification : Option User → Option (List ℕ) → Auth → Handled
  unfolding guard_attempt count_failure
  handle_totp_code_verification none text a = done a (cannot_identify ∷ [])
  handle_totp_code_verification (some user) text a =
      let (state, d1) = get_auth_state p.manager k.evicting user.id a.sessions in
      let a' : Auth = record a { sessions = d1 } in
      if is_state state processing
      then elim (extract_totp_code text) [
        | none ↦ record { state = a'; replies = []; raised = some index_error }
        | some code ↦
            if is_valid_totp_code code
            then guard_attempt user code a'
            else count_failure user.id invalid_code a'
      ]
      else done a' []

  -- The state is set whatever the login; a blocked user gets the reply alone.
  unfoldable pub handle_twofa_message : Option User → Auth → Handled
  handle_twofa_message none a = done a (cannot_identify ∷ [])
  handle_twofa_message (some user) a =
      let (shut, d1) = is_blocked p.manager k.evicting user.id k.test k.unblocking a.sessions in
      if shut
      then done (record a { sessions = d1 }) (too_many_failed ∷ [])
      else done (record a { sessions = assign_state p.manager k.evicting user.id processing d1 })
          (code_request ∷ [])
