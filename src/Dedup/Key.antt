-- ===== src/Dedup/Key.antt =====
-- The keys of pytmbot/middleware/update_dedup.py. The source writes a key as a text with one of three
-- prefixes; here the text is its parts, which it determines: `cb:` and an identifier, `upd:` and a
-- number, or `msg:` and two numbers.
use pytmbot.Base.{
  ℕ, ◌≡◌, ◌↔◌, String, Bool, true, false, ◌&&◌, Option, none, some, arith, if◌then◌else◌,
}
use pytmbot.Base.Eq.{Eq, ◌==◌, nat_eq, string_eq, ==_iff}
use pytmbot.Telegram.{ChatId, private_chat, group_chat, Verdict, proceed, cancel_update}
use pytmbot.Dedup.{Settings, State, check_and_register}

pub data DedupKey : Type 0 where
  cb : String → DedupKey
  upd : ℕ → DedupKey
  msg : ChatId → ℕ → DedupKey

abbrev pub chat_beq : ChatId → ChatId → Bool
chat_beq (private_chat a) (private_chat b) = a == b
chat_beq (group_chat a) (group_chat b) = a == b
chat_beq _ _ = false

abbrev pub key_beq : DedupKey → DedupKey → Bool
key_beq (cb a) (cb b) = a == b
key_beq (upd a) (upd b) = a == b
key_beq (msg a i) (msg b j) = chat_beq a b && i == j
key_beq _ _ = false

chat_beq_iff : (a b : ChatId) → (chat_beq a b ≡ true) ↔ (a ≡ b)
chat_beq_iff (private_chat a) (private_chat b) = ground arith
chat_beq_iff (group_chat a) (group_chat b) = ground arith
chat_beq_iff (private_chat a) (group_chat b) = ground arith
chat_beq_iff (group_chat a) (private_chat b) = ground arith

pub key_beq_iff : (a b : DedupKey) → (key_beq a b ≡ true) ↔ (a ≡ b)
key_beq_iff (cb a) (cb b) = ground (arith, ==_iff a b)
key_beq_iff (upd a) (upd b) = ground arith
key_beq_iff (msg a i) (msg b j) = ground (arith, chat_beq_iff a b)
key_beq_iff (cb a) (upd b) = ground arith
key_beq_iff (cb a) (msg b j) = ground arith
key_beq_iff (upd a) (cb b) = ground arith
key_beq_iff (upd a) (msg b j) = ground arith
key_beq_iff (msg a i) (cb b) = ground arith
key_beq_iff (msg a i) (upd b) = ground arith

instance abbrev pub key_eq : Eq DedupKey
key_eq = record { same = key_beq; same_iff = key_beq_iff }

-- What the middleware reads of an update: its class, its `update_id` if it has one that is an
-- integer of zero or more, and the fields that the class's key is built of.
pub data Incoming : Type 0 where
  callback : (update_id : Option ℕ) → (ident : String) → Incoming
  message : (update_id : Option ℕ) → (chat : Option ChatId) → (message_id : Option ℕ) → Incoming
  other : (update_id : Option ℕ) → Incoming

abbrev update_id_of : Incoming → Option ℕ
update_id_of (callback i ident) = i
update_id_of (message i chat m) = i
update_id_of (other i) = i

unfoldable pub extract_callback_key : Incoming → Option DedupKey
extract_callback_key (callback i ident) = if ident == "" then none else some (cb ident)
extract_callback_key _ = none

unfoldable pub extract_message_key : Incoming → Option DedupKey
extract_message_key (message i (some chat) (some m)) = some (msg chat m)
extract_message_key _ = none

-- `_build_dedup_key`: the callback's identifier first, then the update's, then the message's.
unfoldable pub build_dedup_key : Incoming → Option DedupKey
unfolding extract_callback_key extract_message_key
build_dedup_key update = elim (extract_callback_key update) [
  | some key ↦ some key
  | none ↦ elim (update_id_of update) [ some i ↦ some (upd i) | none ↦ extract_message_key update ]
]

-- `pre_process`; the clock is read only for an update that has a key.
unfoldable pub pre_process : Settings → Incoming → ℕ → State DedupKey → Verdict × State DedupKey
pre_process c update now s = elim (build_dedup_key update) [
  | none ↦ (proceed, s)
  | some key ↦
      let (fresh, s') = check_and_register c key now s in
      (if fresh then proceed else cancel_update, s')
]
