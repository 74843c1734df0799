-- ===== src/Access/Quota.antt =====
-- How many updates of a user who is not allowed pytmbot/middleware/access_control.py lets pass.
use pytmbot.Base.{
  ℕ, ◌+◌, ◌-◌, ◌≤◌, ◌<◌, ◌≡◌, Bool, false, ◌&&◌, none, some, List, [], ◌∷◌, if◌then◌else◌, arith,
  Option-cases, inl, inr,
}
use pytmbot.Base.Dict.{IsDict, erase-IsDict, insert-IsDict}
use pytmbot.Base.Eq.{◌==◌, nat_eq, ==_iff}
use pytmbot.Telegram.{Update}
use pytmbot.Access.{
  Config, State, max_attempts, block_duration, member, from_user, process_user, pre_process,
  clean_up, lift_all, lift_block, expired_blocks, should_block_request, count_attempt,
  handle_unauthorized_access, setup_test,
}
use pytmbot.Access.Entries.{
  attempts, block_of, process_user_lem, clean_up_lem, expired_blocks_lem, answer_unauthorized_lem,
}
use pytmbot.Access.Gate.{lets_pass, process_user-lets_pass}
use pytmbot.Access.Allowed.{Event, update, cleanup, perform}

-- Whether the event is an update of the user that passes.
abbrev pub passes : Config → ℕ → Event → State → Bool
passes c v (cleanup now) s = false
passes c v (update u now later last) s = elim (from_user u) [
  | none ↦ false
  | some user ↦ user.id == v && lets_pass (pre_process c u now later last s).ending
]

unfoldable pub count_passes : Config → ℕ → List Event → State → ℕ
count_passes c v [] s = 0
count_passes c v (e ∷ es) s =
    (if passes c v e s then 1 else 0) + count_passes c v es (perform c e s)

-- All readings of the clock are from `start` on, and less than a block's duration after it.
abbrev pub IsDuring : ℕ → List Event → Type 0
IsDuring start [] = Unit {0}
IsDuring start (update u now later last ∷ es) =
    (start ≤ now) × (now < start + block_duration) × (start ≤ later) × IsDuring start es
IsDuring start (cleanup now ∷ es) = (now < start + block_duration) × IsDuring start es

-- What is left of the user's attempts.
abbrev budget : ℕ → State → ℕ
budget v s = elim (block_of v s) [ none ↦ max_attempts - 1 - attempts v s | some until ↦ 0 ]

record IsKept (start v : ℕ) (s : State) : Type 0 where
  unique : IsDict s.blocked_until
  long : (until : ℕ) → block_of v s ≡ some until → start + block_duration ≤ until

lift_all-IsDict :
    (us : List ℕ) (s : State) → IsDict s.blocked_until → IsDict (lift_all us s).blocked_until
unfolding lift_all
lift_all-IsDict [] s h = h
lift_all-IsDict (u ∷ us) s h =
    lift_all-IsDict us (lift_block u s) (erase-IsDict u s.blocked_until h)

should_block_request-IsDict :
    (user now : ℕ) (s : State)
    → IsDict s.blocked_until
    → IsDict (should_block_request user now s).1.blocked_until
unfolding should_block_request
should_block_request-IsDict user now s h = ground (arith, erase-IsDict user s.blocked_until h)

count_attempt-IsDict :
    (user now : ℕ) (s : State)
    → IsDict s.blocked_until
    → IsDict (count_attempt user now s).1.blocked_until
unfolding count_attempt
count_attempt-IsDict user now s h =
    ground (arith, insert-IsDict user (now + block_duration) s.blocked_until h)

handle-IsDict :
    (c : Config) (user : ℕ) (u : Update) (now later : ℕ) (s : State)
    → IsDict s.blocked_until
    → IsDict (handle_unauthorized_access c user u now later s).state.blocked_until
unfolding handle_unauthorized_access
handle-IsDict c user u now later s h =
    rw
      (answer_unauthorized_lem c user u (count_attempt user now s).0 later (setup_test u)
        (count_attempt user now s).1).1
      (count_attempt-IsDict user now s h)

process-IsDict :
    (c : Config) (user : ℕ) (u : Update) (now later last : ℕ) (s : State)
    → IsDict s.blocked_until
    → IsDict (process_user c user u now later last s).state.blocked_until
unfolding process_user
process-IsDict c user u now later last s h = ground (
  arith,
  should_block_request-IsDict user now s h,
  handle-IsDict c user u later last (should_block_request user now s).1,
)

module _ (c : Config) (start v : ℕ) (stranger : member v c.allowed_user_ids ≡ false) where
  process-budget :
      (user : ℕ) (u : Update) (now later last : ℕ) (s : State)
      → IsKept start v s
      → now < start + block_duration
      → start ≤ later
      → IsKept start v (process_user c user u now later last s).state
        × ((if user == v && lets_pass (process_user c user u now later last s).ending then 1 else 0)
              + budget v (process_user c user u now later last s).state
            ≤ budget v s)
  process-budget user u now later last s k before from = elim (Option-cases (block_of v s)) [
    | inl free ↦ (
      record {
        unique = process-IsDict c user u now later last s k.unique;
        long =
            λ until e. ground (arith, ==_iff user v, process_user_lem c user u now later last v s);
      },
      ground (
        arith,
        ==_iff user v,
        process_user_lem c user u now later last v s,
        process_user-lets_pass c user u now later last s,
      ),
    )
    | inr (until, held) ↦ (
      record {
        unique = process-IsDict c user u now later last s k.unique;
        long = λ until' e.
            ground (
              arith,
              k.long until held,
              ==_iff user v,
              process_user_lem c user u now later last v s,
            );
      },
      ground (
        arith,
        k.long until held,
        ==_iff user v,
        process_user_lem c user u now later last v s,
        process_user-lets_pass c user u now later last s,
      ),
    )
  ]

  event-budget :
      (e : Event) (es : List Event) (s : State)
      → IsDuring start (e ∷ es)
      → IsKept start v s
      → IsKept start v (perform c e s)
        × ((if passes c v e s then 1 else 0) + budget v (perform c e s) ≤ budget v s)
  unfolding perform pre_process
  event-budget (cleanup now) es s d k = elim (Option-cases (block_of v s)) [
    | inl free ↦ (
      record {
        unique = unfold clean_up in lift_all-IsDict (expired_blocks now s.blocked_until) s k.unique;
        long = λ until e. ground (arith, clean_up_lem now v s);
      },
      ground (arith, clean_up_lem now v s, expired_blocks_lem now v s.blocked_until k.unique),
    )
    | inr (until, held) ↦ (
      record {
        unique = unfold clean_up in lift_all-IsDict (expired_blocks now s.blocked_until) s k.unique;
        long = λ until' e. ground (arith, clean_up_lem now v s, k.long until held);
      },
      ground (
        arith,
        clean_up_lem now v s,
        expired_blocks_lem now v s.blocked_until k.unique,
        k.long until held,
      ),
    )
  ]
  event-budget (update u now later last) es s d k = elim (Option-cases (from_user u)) [
    | inl e ↦ (ground (arith, e, k), ground (arith, e, k))
    | inr (user, e) ↦
        rw (e, passes, e, perform, pre_process)
          (process-budget user.id u now later last s k d.1 d.2)
  ]

  count_passes-budget :
      (es : List Event) (s : State)
      → IsDuring start es
      → IsKept start v s
      → count_passes c v es s ≤ budget v s
  unfolding count_passes
  count_passes-budget [] s d k = omega arith
  count_passes-budget (update u now later last ∷ es) s d k =
      let (k', le) = event-budget (update u now later last) es s d k in
      omega (arith, le, count_passes-budget es (perform c (update u now later last) s) d.3 k')
  count_passes-budget (cleanup now ∷ es) s d k =
      let (k', le) = event-budget (cleanup now) es s d k in
      omega (arith, le, count_passes-budget es (perform c (cleanup now) s) d.1 k')

-- Within the duration of one block, whatever updates and cleanups happen, at most two updates
-- (one less than the maximum of attempts) of a user who is not allowed pass, from a state in which
-- that user has no block.
pub count_passes-lt-max_attempts :
    (c : Config) (start v : ℕ) (es : List Event) (s : State)
    → member v c.allowed_user_ids ≡ false
    → IsDict s.blocked_until
    → block_of v s ≡ none
    → IsDuring start es
    → count_passes c v es s < max_attempts
count_passes-lt-max_attempts c start v es s stranger unique free d =
    let bound : count_passes c v es s ≤ budget v s =
      count_passes-budget c start v stranger es s d
        (record { unique = unique; long = λ until e. absurd (cc (free, e)) }) in
    ground (arith, bound)
