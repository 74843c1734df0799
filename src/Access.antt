-- ===== src/Access.antt =====
-- pytmbot/middleware/access_control.py: the gate for users that are not allowed, with its attempts,
-- temporary blocks and alerts. Times are whole microseconds since `datetime.min`; each reading of the
-- clock is an argument. A call on the bot is taken to succeed.
pub mod Command
pub mod Entries
pub mod Gate
pub mod Allowed
pub mod Quota
mod Tests
use pytmbot.Base.{
  ℕ, ◌+◌, ◌-◌, ◌*◌, Bool, true, false, not, Option, none, some, List, [], ◌∷◌, ◌++◌, leb, ltb, min,
  if◌then◌else◌,
}
use pytmbot.Base.Dict.{Dict, lookup, insert, erase}
use pytmbot.Base.Eq.{◌==◌, nat_eq}
use pytmbot.Telegram.{
  ChatId, User, Update, message, callback_query, BotCall, send_message, answer_callback_query,
  Verdict, proceed, cancel_update, access_denied, denied, admin_alert,
}
use pytmbot.Access.Command.{Tested, tested, index_error, is_setup_command}

abbrev pub max_attempts : ℕ
max_attempts = 3

abbrev pub seconds : ℕ → ℕ
seconds n = n * 1_000_000

abbrev pub block_duration : ℕ
block_duration = seconds 3600

abbrev pub admin_notify_suppression : ℕ
admin_notify_suppression = seconds 300

-- The configuration: the allowed users, and the chat of the administrators.
pub record Config : Type 0 where
  pub allowed_user_ids : List ℕ
  pub admin_chat : ChatId

pub record State : Type 0 where
  pub attempt_count : Dict ℕ ℕ
  pub blocked_until : Dict ℕ ℕ
  pub last_admin_notify : Dict ℕ ℕ

unfoldable pub member : ℕ → List ℕ → Bool
member x [] = false
member x (y ∷ ys) = if y == x then true else member x ys

abbrev pub or_zero : Option ℕ → ℕ
or_zero none = 0
or_zero (some n) = n

-- The end of a block that has run out: the same three lines in the lazy and the periodic cleanup.
unfoldable pub lift_block : ℕ → State → State
lift_block user s = record {
  attempt_count = insert user 0 s.attempt_count;
  blocked_until = erase user s.blocked_until;
  last_admin_notify = erase user s.last_admin_notify;
}

-- `_should_block_request`
unfoldable pub should_block_request : ℕ → ℕ → State → Bool × State
unfolding lift_block
should_block_request user now s = elim (lookup user s.blocked_until) [
  | none ↦ (false, s)
  | some until ↦ if ltb now until then (true, s) else (false, lift_block user s)
]

-- The locked part of `_handle_unauthorized_access`: the attempt's number.
unfoldable pub count_attempt : ℕ → ℕ → State → ℕ × State
count_attempt user now s =
    let attempt = or_zero (lookup user s.attempt_count) + 1 in
    (
      attempt,
      record s {
        attempt_count = insert user attempt s.attempt_count;
        blocked_until =
            if leb max_attempts attempt
            then insert user (now + block_duration) s.blocked_until
            else s.blocked_until;
      },
    )

-- `_notify_admin`: at most one alert about a user in the suppression time.
unfoldable pub notify_admin : Config → ℕ → ℕ → Bool → ℕ → State → List BotCall × State
notify_admin c user attempt is_setup now s =
    if ltb (now - or_zero (lookup user s.last_admin_notify)) admin_notify_suppression
    then ([], s)
    else (
      send_message c.admin_chat (admin_alert attempt is_setup) ∷ [],
      record s { last_admin_notify = insert user now s.last_admin_notify },
    )

-- `_notify_user_denied` with `_get_message_text`
unfoldable pub notify_user_denied : Update → ℕ → List BotCall
notify_user_denied (callback_query ident user chat payload) attempt =
    answer_callback_query ident (denied (min (attempt - 1) 2) (max_attempts - attempt)) true ∷ []
notify_user_denied (message user none text) attempt = []
notify_user_denied (message user (some chat) text) attempt =
    send_message chat (denied (min (attempt - 1) 2) (max_attempts - attempt)) ∷ []

abbrev pub is_callback : Update → Bool
is_callback (callback_query ident user chat payload) = true
is_callback (message user chat text) = false

abbrev pub from_user : Update → Option User
from_user (message user chat text) = user
from_user (callback_query ident user chat payload) = user

-- Whether the update is a message with a setup command; only a message's text is tested.
abbrev pub setup_test : Update → Tested
setup_test (callback_query ident user chat payload) = tested false
setup_test (message user chat text) = is_setup_command text

-- How `pre_process` ends: with a verdict, or with the `IndexError` of a blank text.
pub data Ending : Type 0 where
  decided : Verdict → Ending
  raised_index_error : Ending

pub record Outcome : Type 0 where
  pub ending : Ending
  pub calls : List BotCall
  pub state : State

-- The rest of `_handle_unauthorized_access`, once the attempt is counted and the text tested.
unfoldable pub answer_unauthorized : Config → ℕ → Update → ℕ → ℕ → Tested → State → Outcome
unfolding notify_admin notify_user_denied
answer_unauthorized c user update attempt now index_error s = record {
  ending = raised_index_error;
  calls = [];
  state = s;
}
answer_unauthorized c user update attempt now (tested is_setup) s =
    if leb max_attempts attempt
    then record { ending = decided cancel_update; calls = []; state = s }
    else let (alerts, s') = notify_admin c user attempt is_setup now s in
      if is_setup then record { ending = decided proceed; calls = alerts; state = s' } else record {
        ending = decided cancel_update;
        calls = alerts ++ notify_user_denied update attempt;
        state = s';
      }

unfoldable pub handle_unauthorized_access : Config → ℕ → Update → ℕ → ℕ → State → Outcome
unfolding count_attempt answer_unauthorized
handle_unauthorized_access c user update now later s =
    let (attempt, s') = count_attempt user now s in
    answer_unauthorized c user update attempt later (setup_test update) s'

-- The answer to a blocked user.
abbrev pub answer_blocked : Update → List BotCall
answer_blocked (callback_query ident user chat payload) =
    answer_callback_query ident access_denied false ∷ []
answer_blocked (message user chat text) = []

-- `pre_process` for a known user, with the three readings of the clock that it may make.
unfoldable pub process_user : Config → ℕ → Update → ℕ → ℕ → ℕ → State → Outcome
unfolding should_block_request handle_unauthorized_access
process_user c user update now later last s =
    let (is_blocked, s') = should_block_request user now s in
    if is_blocked
    then record { ending = decided cancel_update; calls = answer_blocked update; state = s' }
    else if member user c.allowed_user_ids
    then record { ending = decided proceed; calls = []; state = s' }
    else handle_unauthorized_access c user update later last s'

unfoldable pub pre_process : Config → Update → ℕ → ℕ → ℕ → State → Outcome
unfolding process_user
pre_process c update now later last s = elim (from_user update) [
  | none ↦ record { ending = decided cancel_update; calls = []; state = s }
  | some user ↦ process_user c user.id update now later last s
]

-- One round of `_periodic_cleanup`: the users whose block is over, and the loop over them.
unfoldable pub expired_blocks : ℕ → Dict ℕ ℕ → List ℕ
expired_blocks now [] = []
expired_blocks now ((user, until) ∷ d) =
    let rest = expired_blocks now d in if leb until now then user ∷ rest else rest

unfoldable pub lift_all : List ℕ → State → State
unfolding lift_block
lift_all [] s = s
lift_all (user ∷ users) s = lift_all users (lift_block user s)

unfoldable pub clean_up : ℕ → State → State
unfolding lift_all expired_blocks
clean_up now s = lift_all (expired_blocks now s.blocked_until) s
