-- ===== src/Protected/Gatekeeping.antt =====
-- Who gets past the guards of pytmbot/middleware/session_wrapper.py and
-- pytmbot/handlers/handlers_util/callback_auth.py.
use pytmbot.Base.{
  ℕ, ◌≡◌, String, Bool, true, false, not, ◌&&◌, ◌||◌, none, some, List, [], ◌∷◌, ap, ◌∙◌,
  if◌then◌else◌, arith, Option-cases, inl, inr,
}
use pytmbot.Base.Dict.{lookup}
use pytmbot.Base.Eq.{◌==◌, nat_eq, string_eq}
use pytmbot.Telegram.{User, Update}
use pytmbot.Access.{member, from_user}
use pytmbot.Session.Store.{authenticated, Sessions, Config}
use pytmbot.Session.Methods.{
  is_authenticated, set_referer_data, get_handler_type, get_referer_uri, assign_state,
  set_login_time,
}
use pytmbot.Session.Current.{current, with_session_lem}
use pytmbot.Session.Authentication.{is_valid_login, is_authenticated_lem}
use pytmbot.TwoFactor.Handler.{
  Auth, Setup, Clocks, Keyboard, referer_main, referer_inline, build_referer_main_keyboard,
  build_referer_inline_keyboard, has_second_octet, success, handling_exception,
  create_referer_keyboard, log_in,
}
use pytmbot.TwoFactor.Login.{current-with_session, current-assign_state, current-set_login_time}
use pytmbot.Protected.{
  Accounts, HandlerType, callback_query_type, message_type, value, is_valid_context, context_of,
  create_auth_context, determine_handler_type, extract_referer_data, AuthMessage, auth_required,
  access_denied, Guarded, called, handle_auth_message, two_factor_auth_required, Demands,
  Authorized, granted, authorize_callback_request,
}

abbrev pub is_called : Guarded → Bool
is_called called = true
is_called _ = false

-- A session that is a valid login.
abbrev pub has_login : Config → (user now last : ℕ) → Sessions → Bool
has_login c user now last d = elim (lookup user d) [
  | none ↦ false
  | some s ↦ is_valid_login c now last s
]

handle_auth_message-refuses :
    (m : AuthMessage) (query : Update) → is_called (handle_auth_message m query) ≡ false
unfolding handle_auth_message
handle_auth_message-refuses m query = ground arith

module _ (p : Accounts) (to_text : List ℕ → String) (clock : ℕ → ℕ) (now later last : ℕ)
    (query : Update) (d : Sessions) where
  -- The handler under the guard is called exactly for a user of a valid context who is an
  -- administrator and whose session is a valid login; all others get an answer or an exception.
  pub two_factor_auth_required_lem :
      is_called (two_factor_auth_required p to_text clock now later last query d).0
      ≡ (elim (from_user query) as (λ x. Bool) [
        | none ↦ false
        | some user ↦
            is_valid_context (context_of to_text query user)
            && member user.id p.allowed_admins_ids
            && has_login p.manager user.id now last d
      ])
  unfolding two_factor_auth_required create_auth_context
  two_factor_auth_required_lem = elim (Option-cases (from_user query)) [
    | inl e ↦ ground arith
    | inr (user, e) ↦ ground (
      arith,
      is_authenticated_lem p.manager clock user.id now later last d,
      handle_auth_message-refuses access_denied query,
      handle_auth_message-refuses auth_required query,
    )
  ]

abbrev pub is_granted : Authorized → Bool
is_granted granted = true
is_granted _ = false

abbrev pub owns : Demands → ℕ → Bool
owns q user = elim q.target_user_id [ none ↦ false | some target ↦ user == target ]

-- A callback is granted exactly to an allowed user who is an administrator, the owner of the button
-- and logged in, as far as each of the three is demanded.
pub authorize_callback_request_lem :
    (p : Accounts) (clock : ℕ → ℕ) (now later last : ℕ) (q : Demands) (user : User) (d : Sessions)
    → is_granted (authorize_callback_request p clock now later last q (some user) d).0 ≡ (
        member user.id p.allowed_user_ids
        && (not q.require_admin || member user.id p.allowed_admins_ids)
        && (not q.require_owner_match || owns q user.id)
        && (not q.require_session || has_login p.manager user.id now last d))
unfolding authorize_callback_request
authorize_callback_request_lem p clock now later last q user d =
    ground (arith, is_authenticated_lem p.manager clock user.id now later last d)

abbrev pub keyboard_of : HandlerType → String → Keyboard
keyboard_of message_type uri = referer_main uri
keyboard_of callback_query_type uri = referer_inline uri

-- A text that a button can lead back to: it is not empty, and for a callback it has a colon.
abbrev pub can_lead_back : HandlerType → String → Bool
can_lead_back message_type uri = not (uri == "")
can_lead_back callback_query_type uri = not (uri == "") && has_second_octet uri

module _ (c : Config) (clock : ℕ → ℕ) (user : ℕ) (d : Sessions) where
  current-get_handler_type :
      ((get_handler_type c clock user d).0 ≡ (current user d).handler_type)
      × (current user (get_handler_type c clock user d).1 ≡ current user d)
  unfolding get_handler_type
  current-get_handler_type = (
    (with_session_lem c clock user (λ s. (s.handler_type, s)) d).0,
    current-with_session c clock user d (λ s. (s.handler_type, s)),
  )

  get_referer_uri_lem : (get_referer_uri c clock user d).0 ≡ (current user d).referer_uri
  unfolding get_referer_uri
  get_referer_uri_lem = (with_session_lem c clock user (λ s. (s.referer_uri, s)) d).0

  current-set_referer_data :
      (handler uri : String)
      → current user (set_referer_data c clock user handler uri d)
        ≡ record (current user d) { referer_uri = some uri; handler_type = some handler }
  unfolding set_referer_data
  current-set_referer_data handler uri =
      current-with_session c clock user d
        (λ s. (tt, record s { referer_uri = some uri; handler_type = some handler }))

-- The keyboard is the one of the session's referer.
keyboard_led_back :
    (s : Setup) (k : Clocks) (user : ℕ) (d : Sessions) (x : HandlerType) (uri : String)
    → (current user d).handler_type ≡ some (value x)
    → (current user d).referer_uri ≡ some uri
    → (create_referer_keyboard s k user d).0
      ≡ (if can_lead_back x uri then some (keyboard_of x uri) else none)
unfolding create_referer_keyboard build_referer_main_keyboard build_referer_inline_keyboard
keyboard_led_back s k user d callback_query_type uri type referer =
    let d1 : Sessions = (get_handler_type s.manager k.evicting user d).1 in
    ground (
      arith,
      type,
      referer,
      current-get_handler_type s.manager k.evicting user d,
      get_referer_uri_lem s.manager k.evicting user d1,
    )
keyboard_led_back s k user d message_type uri type referer =
    let d1 : Sessions = (get_handler_type s.manager k.evicting user d).1 in
    ground (
      arith,
      type,
      referer,
      current-get_handler_type s.manager k.evicting user d,
      get_referer_uri_lem s.manager k.evicting user d1,
    )

-- A login replies with the keyboard of the session's referer, or raises without a reply.
login_led_back :
    (s : Setup) (k : Clocks) (user : ℕ) (a : Auth) (x : HandlerType) (uri : String)
    → (current user a.sessions).handler_type ≡ some (value x)
    → (current user a.sessions).referer_uri ≡ some uri
    → let o = log_in s k user a in
      (o.replies ≡ (if can_lead_back x uri then success (keyboard_of x uri) ∷ [] else []))
      × (o.raised ≡ (if can_lead_back x uri then none else some handling_exception))
unfolding log_in
login_led_back s k user a x uri type referer =
    let d1 : Sessions = assign_state s.manager k.evicting user authenticated a.sessions in
    let d2 : Sessions = set_login_time s.manager k.evicting user k.last d1 in
    ground (
      arith,
      type,
      referer,
      current-assign_state s.manager k.evicting user a.sessions authenticated,
      current-set_login_time s.manager k.evicting user d1 k.last,
      keyboard_led_back s k user d2 x uri,
    )

asked :
    (p : Accounts) (to_text : List ℕ → String) (clock : ℕ → ℕ) (now later last : ℕ) (query : Update)
    (d : Sessions) (user : User)
    → from_user query ≡ some user
    → is_valid_context (context_of to_text query user) ≡ true
    → member user.id p.allowed_admins_ids ≡ true
    → has_login p.manager user.id now last d ≡ false
    → two_factor_auth_required p to_text clock now later last query d ≡ (
      handle_auth_message auth_required query,
      set_referer_data p.manager clock user.id
          (value (determine_handler_type query))
          (extract_referer_data to_text query)
          (is_authenticated p.manager clock user.id now later last d).1,
    )
unfolding two_factor_auth_required create_auth_context
asked p to_text clock now later last query d user e valid admin out =
    ground (arith, is_authenticated_lem p.manager clock user.id now later last d)

-- An administrator of a valid context without a valid login is asked for one, or the answer raises.
-- If the session still has the handler's type and the referer that this call stored, the login
-- (`log_in`) replies with the keyboard of what was asked for: a main keyboard for a message, an inline
-- one for a callback. If what was asked for is empty, as of a message without a text, or the data of
-- a callback has no colon, there is no such keyboard: the login replies nothing and raises.
pub asked_and_led_back :
    (p : Accounts) (to_text : List ℕ → String) (clock : ℕ → ℕ) (now later last : ℕ) (query : Update)
    (d : Sessions) (user : User) (s : Setup) (k : Clocks) (a : Auth)
    → from_user query ≡ some user
    → is_valid_context (context_of to_text query user) ≡ true
    → member user.id p.allowed_admins_ids ≡ true
    → has_login p.manager user.id now last d ≡ false
    → (current user.id a.sessions).handler_type
      ≡ (current user.id
          (two_factor_auth_required p to_text clock now later last query d).1).handler_type
    → (current user.id a.sessions).referer_uri
      ≡ (current user.id
          (two_factor_auth_required p to_text clock now later last query d).1).referer_uri
    → let x = determine_handler_type query in
      let uri = extract_referer_data to_text query in
      let o = log_in s k user.id a in
      ((two_factor_auth_required p to_text clock now later last query d).0
        ≡ handle_auth_message auth_required query)
      × (o.replies ≡ (if can_lead_back x uri then success (keyboard_of x uri) ∷ [] else []))
      × (o.raised ≡ (if can_lead_back x uri then none else some handling_exception))
asked_and_led_back p to_text clock now later last query d user s k a e valid admin out type
      referer =
    let d1 : Sessions = (is_authenticated p.manager clock user.id now later last d).1 in
    let x : HandlerType = determine_handler_type query in
    let uri : String = extract_referer_data to_text query in
    let call = asked p to_text clock now later last query d user e valid admin out in
    let stored = current-set_referer_data p.manager clock user.id d1 (value x) uri in
    let stored_type : (current user.id a.sessions).handler_type ≡ some (value x) =
      type ∙ ap (λ o. (current user.id o.1).handler_type) call ∙ ap (λ r. r.handler_type) stored in
    let stored_uri : (current user.id a.sessions).referer_uri ≡ some uri =
      referer ∙ ap (λ o. (current user.id o.1).referer_uri) call ∙ ap (λ r. r.referer_uri) stored in
    let (replies, raised) = login_led_back s k user.id a x uri stored_type stored_uri in
    (ap (λ o. o.0) call, replies, raised)
