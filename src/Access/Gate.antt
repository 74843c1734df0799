-- ===== src/Access/Gate.antt =====
-- Which updates pytmbot/middleware/access_control.py lets pass, and what a blocked user gets.
use pytmbot.Base.{
  ℕ, ◌+◌, ◌≤◌, ◌<◌, ◌≡◌, refl, Bool, true, false, not, ◌&&◌, ◌||◌, none, some, ltb, arith,
  Option-cases, inl, inr,
}
use pytmbot.Base.Eq.{nat_eq, ==_refl}
use pytmbot.Telegram.{Update, proceed, cancel_update}
use pytmbot.Access.Command.{Tested, tested, index_error}
use pytmbot.Access.{
  Config, State, Ending, decided, raised_index_error, max_attempts, block_duration, member,
  should_block_request, count_attempt, answer_unauthorized, handle_unauthorized_access,
  answer_blocked, setup_test, from_user, process_user, pre_process,
}
use pytmbot.Access.Entries.{
  block_of, holds, attempts_at, should_block_request_lem, count_attempt_lem, process_user_lem,
}

abbrev pub lets_pass : Ending → Bool
lets_pass (decided proceed) = true
lets_pass (decided cancel_update) = false
lets_pass raised_index_error = false

abbrev pub is_setup : Tested → Bool
is_setup (tested b) = b
is_setup index_error = false

answer_unauthorized-lets_pass :
    (c : Config) (user : ℕ) (update : Update) (n now : ℕ) (t : Tested) (s : State)
    → lets_pass (answer_unauthorized c user update n now t s).ending
      ≡ (is_setup t && ltb n max_attempts)
unfolding answer_unauthorized
answer_unauthorized-lets_pass c user update n now index_error s = refl
answer_unauthorized-lets_pass c user update n now (tested b) s = ground arith

-- The user is not blocked at the moment, and is allowed, or sends a setup command as an attempt
-- below the maximum.
abbrev pub may_pass : Config → ℕ → Update → ℕ → State → Bool
may_pass c user update now s =
    not (holds (block_of user s) now)
    && (member user c.allowed_user_ids
        || (is_setup (setup_test update) && ltb (attempts_at user now s + 1) max_attempts))

pub process_user-lets_pass :
    (c : Config) (user : ℕ) (update : Update) (now later last : ℕ) (s : State)
    → lets_pass (process_user c user update now later last s).ending ≡ may_pass c user update now s
unfolding process_user handle_unauthorized_access
process_user-lets_pass c user update now later last s = ground (
  arith,
  ==_refl user,
  should_block_request_lem user now user s,
  count_attempt_lem user later user (should_block_request user now s).1,
  answer_unauthorized-lets_pass c user update
      (count_attempt user later (should_block_request user now s).1).0 last (setup_test update)
      (count_attempt user later (should_block_request user now s).1).1,
)

-- `pre_process` lets an update pass exactly if it has a user who is not blocked and is either
-- allowed or sends a setup command as one of the attempts below the maximum. Attempts from before a
-- block that is over do not count.
pub pre_process-lets_pass :
    (c : Config) (update : Update) (now later last : ℕ) (s : State)
    → lets_pass (pre_process c update now later last s).ending
      ≡ (elim (from_user update) as (λ x. Bool) [
        | none ↦ false
        | some user ↦ may_pass c user.id update now s
      ])
unfolding pre_process
pre_process-lets_pass c update now later last s = elim (Option-cases (from_user update)) [
  | inl e ↦ ground arith
  | inr (user, e) ↦ ground (arith, process_user-lets_pass c user.id update now later last s)
]

blocked_answer :
    (c : Config) (user : ℕ) (update : Update) (now later last : ℕ) (s : State)
    → holds (block_of user s) now ≡ true
    → process_user c user update now later last s
      ≡ record { ending = decided cancel_update; calls = answer_blocked update; state = s }
unfolding process_user should_block_request
blocked_answer c user update now later last s h = ground arith

-- The attempt that reaches the maximum blocks the user for the block's duration: it is not let
-- pass, and every update of the user until then is dropped, changes nothing, and gets no answer but
-- that of a callback.
pub last_attempt_blocks :
    (c : Config) (user : ℕ) (update next : Update) (now later last now' later' last' : ℕ)
    (s : State)
    → member user c.allowed_user_ids ≡ false
    → holds (block_of user s) now ≡ false
    → max_attempts ≤ attempts_at user now s + 1
    → now' < later + block_duration
    → let o = process_user c user update now later last s in
      (lets_pass o.ending ≡ false)
      × (process_user c user next now' later' last' o.state
          ≡ record { ending = decided cancel_update; calls = answer_blocked next; state = o.state })
last_attempt_blocks c user update next now later last now' later' last' s stranger free third soon =
    (
      ground (arith, process_user-lets_pass c user update now later last s),
      blocked_answer c user next now' later' last'
          (process_user c user update now later last s).state
          (ground (arith, ==_refl user, process_user_lem c user update now later last user s)),
    )
