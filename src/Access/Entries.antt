-- ===== src/Access/Entries.antt =====
-- What the steps of pytmbot/middleware/access_control.py do to the attempts and the block of a user.
use pytmbot.Base.{
  ℕ, ◌+◌, ◌≡◌, refl, Bool, false, not, ◌&&◌, Option, none, some, List, [], ◌∷◌, leb, ltb,
  if◌then◌else◌, arith, Option-cases, inl, inr,
}
use pytmbot.Base.Dict.{Dict, IsDict, contains-lookup, lookup, lookup-insert, lookup-erase}
use pytmbot.Base.Eq.{◌==◌, nat_eq, ==_iff, ==_refl}
use pytmbot.Telegram.{Update}
use pytmbot.Access.Command.{Tested, tested, index_error}
use pytmbot.Access.{
  Config, State, max_attempts, block_duration, member, or_zero, lift_block, should_block_request,
  count_attempt, answer_unauthorized, handle_unauthorized_access, process_user, setup_test,
  expired_blocks, lift_all, clean_up,
}

abbrev pub attempts : ℕ → State → ℕ
attempts user s = or_zero (lookup user s.attempt_count)

abbrev pub block_of : ℕ → State → Option ℕ
block_of user s = lookup user s.blocked_until

-- The block of the user, if any, is not over.
abbrev pub holds : Option ℕ → ℕ → Bool
holds none now = false
holds (some until) now = ltb now until

-- The attempts that count at a moment: none once a block is over.
abbrev pub attempts_at : ℕ → ℕ → State → ℕ
attempts_at user now s = elim (block_of user s) [
  | none ↦ attempts user s
  | some until ↦ if ltb now until then attempts user s else 0
]

pub should_block_request_lem :
    (user now v : ℕ) (s : State)
    → let (b, s') = should_block_request user now s in
      (b ≡ holds (block_of user s) now)
      × (block_of v s'
          ≡ (if user == v && not (holds (block_of user s) now) then none else block_of v s))
      × (attempts v s' ≡ (if user == v then attempts_at user now s else attempts v s))
unfolding should_block_request
should_block_request_lem user now v s = elim (Option-cases (lookup user s.blocked_until)) [
  | inl e ↦ ground (arith, ==_iff user v)
  | inr (until, e) ↦ ground (
    arith,
    ==_iff user v,
    lookup-insert user v 0 s.attempt_count,
    lookup-erase user v s.blocked_until,
  )
]

pub count_attempt_lem :
    (user now v : ℕ) (s : State)
    → let (n, s') = count_attempt user now s in
      (n ≡ attempts user s + 1)
      × (attempts v s' ≡ (if user == v then attempts user s + 1 else attempts v s))
      × (block_of v s' ≡ (
          if user == v && leb max_attempts (attempts user s + 1)
          then some (now + block_duration)
          else block_of v s))
unfolding count_attempt
count_attempt_lem user now v s = ground (
  arith,
  lookup-insert user v (attempts user s + 1) s.attempt_count,
  lookup-insert user v (now + block_duration) s.blocked_until,
)

pub answer_unauthorized_lem :
    (c : Config) (user : ℕ) (update : Update) (attempt now : ℕ) (t : Tested) (s : State)
    → let s' = (answer_unauthorized c user update attempt now t s).state in
      (s'.attempt_count ≡ s.attempt_count) × (s'.blocked_until ≡ s.blocked_until)
unfolding answer_unauthorized
answer_unauthorized_lem c user update attempt now index_error s = (refl, refl)
answer_unauthorized_lem c user update attempt now (tested is_setup) s = ground arith

pub handle_unauthorized_access_lem :
    (c : Config) (user : ℕ) (update : Update) (now later v : ℕ) (s : State)
    → let s' = (handle_unauthorized_access c user update now later s).state in
      (attempts v s' ≡ (if user == v then attempts user s + 1 else attempts v s))
      × (block_of v s' ≡ (
          if user == v && leb max_attempts (attempts user s + 1)
          then some (now + block_duration)
          else block_of v s))
unfolding handle_unauthorized_access
handle_unauthorized_access_lem c user update now later v s = ground (
  arith,
  count_attempt_lem user now v s,
  answer_unauthorized_lem c user update (count_attempt user now s).0 later (setup_test update)
      (count_attempt user now s).1,
)

-- Attempts of a user who is neither blocked nor allowed are counted, and the third one blocks.
pub process_user_lem :
    (c : Config) (user : ℕ) (update : Update) (now later last v : ℕ) (s : State)
    → let s' = (process_user c user update now later last s).state in
      let counted = not (holds (block_of user s) now) && not (member user c.allowed_user_ids) in
      let n = attempts_at user now s + 1 in
      (attempts v s'
        ≡ (if user == v then (if counted then n else attempts_at user now s) else attempts v s))
      × (block_of v s' ≡ (
          if user == v && not (holds (block_of user s) now)
          then (if counted && leb max_attempts n then some (later + block_duration) else none)
          else block_of v s))
unfolding process_user
process_user_lem c user update now later last v s = ground (
  arith,
  ==_iff user v,
  should_block_request_lem user now v s,
  should_block_request_lem user now user s,
  ==_refl user,
  handle_unauthorized_access_lem c user update later last v (should_block_request user now s).1,
)

-- The blocks that a round of the cleanup leaves were there, and are not over.
lift_all-block :
    (users : List ℕ) (v : ℕ) (s : State)
    → block_of v (lift_all users s) ≡ (if member v users then none else block_of v s)
unfolding lift_all member
lift_all-block [] v s = refl
lift_all-block (u ∷ users) v s =
    ground (arith, lift_all-block users v (lift_block u s), lookup-erase u v s.blocked_until)

lift_all-attempts :
    (users : List ℕ) (v : ℕ) (s : State)
    → attempts v (lift_all users s) ≡ (if member v users then 0 else attempts v s)
unfolding lift_all member
lift_all-attempts [] v s = refl
lift_all-attempts (u ∷ users) v s =
    ground (arith, lift_all-attempts users v (lift_block u s), lookup-insert u v 0 s.attempt_count)

pub clean_up_lem :
    (now v : ℕ) (s : State)
    → let over = member v (expired_blocks now s.blocked_until) in
      (block_of v (clean_up now s) ≡ (if over then none else block_of v s))
      × (attempts v (clean_up now s) ≡ (if over then 0 else attempts v s))
unfolding clean_up
clean_up_lem now v s = (
  lift_all-block (expired_blocks now s.blocked_until) v s,
  lift_all-attempts (expired_blocks now s.blocked_until) v s,
)

-- With one entry for each user, the cleanup takes exactly the users whose block is over.
pub expired_blocks_lem :
    (now v : ℕ) (d : Dict ℕ ℕ)
    → IsDict d
    → member v (expired_blocks now d)
      ≡ (elim (lookup v d) as (λ x. Bool) [ none ↦ false | some until ↦ leb until now ])
unfolding expired_blocks member lookup
expired_blocks_lem now v [] h = refl
expired_blocks_lem now v ((u, until) ∷ d) h =
    ground (arith, ==_iff u v, expired_blocks_lem now v d h.1, contains-lookup u d)
