-- ===== src/Chain.antt =====
-- The chain of middlewares: `DEFAULT_MIDDLEWARES` and `_setup_middleware_chain` of
-- pytmbot/pytmbot_instance.py, and an update's way through it. telebot calls the `pre_process` of each
-- middleware in the order of their setup, until one cancels the update or raises.
pub mod History
pub mod Answers
pub mod Handled
mod Tests
use pytmbot.Base.{
  ℕ, ◌*◌, Bool, true, false, Option, none, some, List, [], ◌∷◌, ◌++◌, ltb, if◌then◌else◌,
}
use pytmbot.Telegram.{Update, BotCall, Verdict, proceed, cancel_update}
use pytmbot.RateLimit as RateLimit
use pytmbot.Dedup as Dedup
use pytmbot.Dedup.Key as Key
use pytmbot.Dedup.Key.{Incoming, DedupKey}
use pytmbot.Access as Access

pub data Middleware : Type 0 where
  update_dedup access_control rate_limit : Middleware

-- An entry of the list: the class, and the priority among its arguments, if it is a number.
pub record Entry : Type 0 where
  pub middleware : Middleware
  pub priority : Option ℕ

abbrev unordered : Middleware → Entry
unordered m = record { middleware = m; priority = none }

-- `DEFAULT_MIDDLEWARES`
abbrev pub default_middlewares : List Entry
default_middlewares = unordered update_dedup ∷ unordered access_control ∷ unordered rate_limit ∷ []

-- Their arguments: 120 seconds, in the unit of the readings of the filter, and 8192 entries; 8
-- requests in 10 seconds.
abbrev pub dedup_settings : Dedup.Settings
dedup_settings = record { ttl = 120 * 1_000_000_000; max_entries = 8_192 }

abbrev pub rate_limits : RateLimit.Limits
rate_limits = record { limit = 8; period = 10 * 1_000_000 }

-- `_priority`
abbrev priority_of : Entry → ℕ
priority_of e = elim e.priority [ none ↦ 999 | some p ↦ p ]

-- `sorted`, which keeps the order of equal priorities.
unfoldable pub insert_entry : Entry → List Entry → List Entry
insert_entry e [] = e ∷ []
insert_entry e (f ∷ fs) =
    let rest = insert_entry e fs in
    if ltb (priority_of f) (priority_of e) then f ∷ rest else e ∷ f ∷ fs

unfoldable pub sort_entries : List Entry → List Entry
unfolding insert_entry
sort_entries [] = []
sort_entries (e ∷ es) = insert_entry e (sort_entries es)

-- An update as the three middlewares read it, with the readings of their clocks.
pub record Arrival : Type 0 where
  pub incoming : Incoming
  pub update : Update
  pub dedup_now : ℕ
  pub access_now : ℕ
  pub access_later : ℕ
  pub access_last : ℕ
  pub rate_now : ℕ
  pub rate_later : ℕ

pub record State : Type 0 where
  pub dedup : Dedup.State DedupKey
  pub access : Access.State
  pub rate : RateLimit.State

-- Whether an update comes to the handlers, the calls on the bot, and the states after it.
pub record Outcome : Type 0 where
  pub handled : Bool
  pub calls : List BotCall
  pub state : State

abbrev goes_on : Verdict → Bool
goes_on proceed = true
goes_on cancel_update = false

abbrev decided_on : Access.Ending → Bool
decided_on (Access.decided verdict) = goes_on verdict
decided_on Access.raised_index_error = false

module _ (c : Access.Config) where
  -- The `pre_process` of one middleware.
  unfoldable pub pre_process : Middleware → Arrival → State → Outcome
  pre_process update_dedup a s =
      let (verdict, dedup) = Key.pre_process dedup_settings a.incoming a.dedup_now s.dedup in
      record { handled = goes_on verdict; calls = []; state = record s { dedup = dedup } }
  pre_process access_control a s =
      let o = Access.pre_process c a.update a.access_now a.access_later a.access_last s.access in
      record {
        handled = decided_on o.ending;
        calls = o.calls;
        state = record s { access = o.state };
      }
  pre_process rate_limit a s =
      let o = RateLimit.pre_process rate_limits a.update a.rate_now a.rate_later s.rate in
      record { handled = goes_on o.verdict; calls = o.calls; state = record s { rate = o.state } }

  unfoldable pub pass : List Entry → Arrival → State → Outcome
  unfolding pre_process
  pass [] a s = record { handled = true; calls = []; state = s }
  pass (e ∷ es) a s =
      let o = pre_process e.middleware a s in
      let later = pass es a o.state in
      if o.handled then record later { calls = o.calls ++ later.calls } else o

  -- The way of an update through the chain.
  unfoldable pub arrive : Arrival → State → Outcome
  unfolding pass sort_entries
  arrive a s = pass (sort_entries default_middlewares) a s
