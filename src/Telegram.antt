-- ===== src/Telegram.antt =====
-- What the middleware and the handlers read of a Telegram update, and the calls that they make on
-- the bot. `Message` and `CallbackQuery` belong to the telebot package: a field that the code reads
-- by `getattr` with a default, and tests for `None`, is an `Option` here.
use pytmbot.Base.{ℕ, String, Bool, Option, List}

-- Chat identifiers are negative for groups.
pub data ChatId : Type 0 where
  private_chat group_chat : ℕ → ChatId

pub record User : Type 0 where
  pub id : ℕ
  pub username : Option (List ℕ)
  pub is_bot : Bool

-- The two update types that the middlewares subscribe to. A callback has an identifier, the user,
-- the chat of its message and its payload; a message has the user, its chat and its text, as
-- code points.
pub data Update : Type 0 where
  message : Option User → Option ChatId → Option (List ℕ) → Update
  callback_query : String → Option User → Option ChatId → Option String → Update

-- The texts of the answers, by the constant or the template that the source sends.
pub data Reply : Type 0 where
  rate_limit_warning access_denied : Reply
  -- one of the texts of `AccessControl._get_message_text`, and the attempts that it says are left
  denied : (text remaining : ℕ) → Reply
  -- the alert to the administrators: the attempt's number, and whether it was a setup command
  admin_alert : ℕ → Bool → Reply

-- The calls on the bot that answer an update.
pub data BotCall : Type 0 where
  send_message : ChatId → Reply → BotCall
  answer_callback_query : String → Reply → Bool → BotCall

-- What `pre_process` tells telebot: go on, or drop the update.
pub data Verdict : Type 0 where
  proceed cancel_update : Verdict
