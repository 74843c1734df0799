-- ===== src/Protected.antt =====
-- The guards of privileged handlers: pytmbot/middleware/session_wrapper.py, what it calls of
-- pytmbot/handlers/auth_processing/auth_processing.py, and `authorize_callback_request` of
-- pytmbot/handlers/handlers_util/callback_auth.py.
use pytmbot.Base.{
  ℕ, String, Bool, true, false, not, ◌&&◌, ◌||◌, Option, none, some, List, [], ◌∷◌, leb, ltb,
  length, if◌then◌else◌,
}
use pytmbot.Base.Eq.{◌==◌, nat_eq}
use pytmbot.Telegram.{ChatId, User, Update, message, callback_query}
use pytmbot.Access.{member, from_user}
use pytmbot.Session.Store.{Sessions, Config}
use pytmbot.Session.Methods.{is_authenticated, set_referer_data}
pub mod Gatekeeping
mod Tests

-- `settings.access_control`, and the session manager's configuration.
pub record Accounts : Type 0 where
  pub allowed_user_ids : List ℕ
  pub allowed_admins_ids : List ℕ
  pub manager : Config

pub data HandlerType : Type 0 where
  callback_query_type message_type : HandlerType

-- `HandlerType.value`
abbrev pub value : HandlerType → String
value callback_query_type = "callback_query"
value message_type = "message"

-- The name is used in logs alone: `none` stands for the text of the user's number.
pub record AuthContext : Type 0 where
  pub user_id : ℕ
  pub handler_type : HandlerType
  pub referer_handler : String
  pub username : Option (List ℕ)

abbrev pub max_username_length : ℕ
max_username_length = 64

-- `__post_init__` raises no `ValueError`.
unfoldable pub is_valid_context : AuthContext → Bool
is_valid_context x =
    leb 1 x.user_id
    && (elim x.username [ none ↦ true | some name ↦ leb (length name) max_username_length ])

abbrev pub determine_handler_type : Update → HandlerType
determine_handler_type (callback_query id user chat payload) = callback_query_type
determine_handler_type (message user chat text) = message_type

-- `to_text` is the text of its code points.
abbrev pub extract_referer_data : (List ℕ → String) → Update → String
extract_referer_data to_text (callback_query id user chat none) = ""
extract_referer_data to_text (callback_query id user chat (some payload)) = payload
extract_referer_data to_text (message user chat none) = ""
extract_referer_data to_text (message user chat (some text)) = to_text text

abbrev pub name_or_number : Option (List ℕ) → Option (List ℕ)
name_or_number none = none
name_or_number (some []) = none
name_or_number (some (c ∷ name)) = some (c ∷ name)

abbrev pub context_of : (List ℕ → String) → Update → User → AuthContext
context_of to_text query user = record {
  user_id = user.id;
  handler_type = determine_handler_type query;
  referer_handler = extract_referer_data to_text query;
  username = name_or_number user.username;
}

unfoldable pub create_auth_context : (List ℕ → String) → Update → Option AuthContext
create_auth_context to_text query = elim (from_user query) [
  | none ↦ none
  | some user ↦ let x = context_of to_text query user in if is_valid_context x then some x else none
]

-- The template that `_handle_auth_message` sends.
pub data AuthMessage : Type 0 where
  auth_required access_denied : AuthMessage

-- What a guarded call comes to: an exception, an answer in place of the handler, or the handler.
pub data Guarded : Type 0 where
  type_error auth_error : Guarded
  answered : ChatId → AuthMessage → Guarded
  called : Guarded

abbrev pub chat_of : Update → Option ChatId
chat_of (callback_query id user chat payload) = chat
chat_of (message user chat text) = chat

-- `_handle_auth_message`: an update without a chat to answer in raises.
unfoldable pub handle_auth_message : AuthMessage → Update → Guarded
handle_auth_message m query = elim (chat_of query) [
  | none ↦ auth_error
  | some chat ↦ answered chat m
]

-- The wrapper of `two_factor_auth_required`, up to the call of the handler.
unfoldable pub two_factor_auth_required :
    Accounts
    → (List ℕ → String)
    → (ℕ → ℕ)
    → (now later last : ℕ) → Update
    → Sessions
    → Guarded × Sessions
unfolding handle_auth_message
two_factor_auth_required p to_text clock now later last query d = elim (from_user query) [
  | none ↦ (type_error, d)
  | some user ↦ elim (create_auth_context to_text query) [
    | none ↦ (handle_auth_message access_denied query, d)
    | some x ↦
        if member x.user_id p.allowed_admins_ids
        then (let (ok, d') = is_authenticated p.manager clock x.user_id now later last d in
            if ok then (called, d') else (
              handle_auth_message auth_required query,
              set_referer_data p.manager clock x.user_id (value x.handler_type) x.referer_handler
                  d',
            ))
        else (handle_auth_message access_denied query, d)
  ]
]

-- The arguments of `authorize_callback_request` after the call.
pub record Demands : Type 0 where
  pub target_user_id : Option ℕ
  pub require_owner_match : Bool
  pub require_admin : Bool
  pub require_session : Bool

-- The pair that it returns: granted, or the reason's text.
pub data Authorized : Type 0 where
  granted no_account no_access no_longer_valid another_user login_first : Authorized

abbrev check_owner : Demands → ℕ → Authorized
check_owner q user =
    if q.require_owner_match
    then elim q.target_user_id [
      | none ↦ no_longer_valid
      | some target ↦ if user == target then granted else another_user
    ]
    else granted

unfoldable pub authorize_callback_request :
    Accounts
    → (ℕ → ℕ)
    → (now later last : ℕ) → Demands
    → Option User
    → Sessions
    → Authorized × Sessions
authorize_callback_request p clock now later last q none d = (no_account, d)
authorize_callback_request p clock now later last q (some user) d =
    if not (member user.id p.allowed_user_ids)
      || (q.require_admin && not (member user.id p.allowed_admins_ids))
    then (no_access, d)
    else elim (check_owner q user.id) [
      | granted ↦
          if q.require_session
          then (let (ok, d') = is_authenticated p.manager clock user.id now later last d in
              (if ok then granted else login_first, d'))
          else (granted, d)
      | reason ↦ (reason, d)
    ]
