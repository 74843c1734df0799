-- ===== src/Access/Allowed.antt =====
-- Sequences of updates and cleanups through pytmbot/middleware/access_control.py, and the users that
-- the configuration allows.
use pytmbot.Base.{ℕ, ◌≡◌, true, none, List, [], ◌∷◌, arith, Option-cases, inl, inr}
use pytmbot.Base.Eq.{nat_eq, ==_iff}
use pytmbot.Telegram.{Update, proceed}
use pytmbot.Access.{
  Config, State, decided, member, from_user, process_user, pre_process, clean_up,
  should_block_request,
}
use pytmbot.Access.Entries.{block_of, process_user_lem, clean_up_lem}

-- An update with the clock's readings, or a round of the cleanup with its reading.
pub data Event : Type 0 where
  update : Update → (now later last : ℕ) → Event
  cleanup : ℕ → Event

unfoldable pub perform : Config → Event → State → State
perform c (update u now later last) s = (pre_process c u now later last s).state
perform c (cleanup now) s = clean_up now s

unfoldable pub perform_all : Config → List Event → State → State
perform_all c [] s = s
perform_all c (e ∷ es) s = perform_all c es (perform c e s)

abbrev pub initial : State
initial = record { attempt_count = []; blocked_until = []; last_admin_notify = [] }

-- No allowed user is blocked.
abbrev pub SparesAllowed : Config → State → Type 0
SparesAllowed c s = (v : ℕ) → member v c.allowed_user_ids ≡ true → block_of v s ≡ none

pub perform-SparesAllowed :
    (c : Config) (e : Event) (s : State) → SparesAllowed c s → SparesAllowed c (perform c e s)
unfolding perform pre_process
perform-SparesAllowed c (update u now later last) s h v allowed =
    elim (Option-cases (from_user u)) [
      | inl e ↦ ground (arith, h v allowed)
      | inr (user, e) ↦
          ground
            (arith, h v allowed, ==_iff user.id v, process_user_lem c user.id u now later last v s)
    ]
perform-SparesAllowed c (cleanup now) s h v allowed =
    ground (arith, h v allowed, clean_up_lem now v s)

pub allowed_passes :
    (c : Config) (user : ℕ) (u : Update) (now later last : ℕ) (s : State)
    → member user c.allowed_user_ids ≡ true
    → block_of user s ≡ none
    → process_user c user u now later last s
      ≡ record { ending = decided proceed; calls = []; state = s }
unfolding process_user should_block_request
allowed_passes c user u now later last s allowed free = ground arith
