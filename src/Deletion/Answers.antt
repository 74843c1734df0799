-- ===== src/Deletion/Answers.antt =====
-- The answers of `schedule_deletion` of pytmbot/utils/message_deletion.py.
use pytmbot.Base.{
  ℕ, ◌+◌, ◌≡◌, refl, Bool, true, not, ◌&&◌, Option, none, some, List, arith, leb, length,
  if◌then◌else◌, Bool-cases, inl, inr,
}
use pytmbot.Base.Dict.{lookup, contains, lookup-insert, contains-lookup}
use pytmbot.Base.Eq.{==_refl, nat_eq}
use pytmbot.Telegram.{ChatId}
use pytmbot.Deletion.{
  scheduled, limit_exceeded, already_scheduled, Result, Task, key_eq, State, initial, is_in,
  pending_of, Request, task_of, answer, store_task, start_task, schedule_deletion,
}
use pytmbot.Deletion.Steps.{Event, run}
use pytmbot.Deletion.Consistency.{IsConsistent}
use pytmbot.Deletion.Pending.{run-IsConsistent}

-- The answer by the user's pending messages alone: no result for a delay of nothing or of more than
-- an hour; a message that is pending is known; a fourth one is too many; and no result if the thread
-- does not start.
abbrev pub expected : Request → List ℕ → Option Result
expected q pending =
    if not (leb 1 q.delay && leb q.delay 3600)
    then none
    else if is_in q.message pending
    then some (answer q already_scheduled (length pending))
    else if leb 3 (length pending)
    then some (answer q limit_exceeded (length pending))
    else if q.starts
    then some (answer q scheduled (length pending + 1))
    else none

-- After any events from the start on, `schedule_deletion` answers by the messages that are pending
-- for the user, and by whether the thread starts, as `expected` says: neither the other users nor the
-- tasks matter.
pub schedule_answers :
    (es : List Event) (q : Request)
    → (schedule_deletion q (run es initial)).0
      ≡ expected q (pending_of q.by_user (run es initial).user_pending_deletions)
unfolding schedule_deletion
schedule_answers es q = ground (arith, agree)
  where
    all : IsConsistent (run es initial)
    all = run-IsConsistent es

    agree :
        is_in q.message (pending_of q.by_user (run es initial).user_pending_deletions)
        ≡ contains (q.by_user, q.message) (run es initial).active_tasks
    agree = all.agree q.by_user q.message

abbrev in_range : Request → Bool
in_range q = leb 1 q.delay && leb q.delay 3600

-- What the answer `scheduled` says of the call.
scheduled-start_task :
    (q : Request) (count : ℕ) (s : State)
    → (schedule_deletion q s).0 ≡ some (answer q scheduled count)
    → (in_range q ≡ true)
      × (lookup (q.by_user, q.message) (schedule_deletion q s).1.active_tasks ≡ some (task_of q))
unfolding schedule_deletion start_task store_task
scheduled-start_task q count s h = elim (Bool-cases (in_range q)) [
  | inr bad ↦ ground (arith, h, bad)
  | inl good ↦ elim (Bool-cases (contains (q.by_user, q.message) s.active_tasks)) [
    | inl known ↦ ground (arith, h, good, known)
    | inr new ↦ elim (Bool-cases (leb 3 (length (pending_of q.by_user s.user_pending_deletions)))) [
      | inl many ↦ ground (arith, h, good, new, many)
      | inr room ↦
          rw (schedule_deletion, good, new, room)
            (
              refl,
              ground (
                arith,
                lookup-insert (q.by_user, q.message) (q.by_user, q.message) (task_of q)
                    s.active_tasks,
                ==_refl {K = ℕ × ℕ} (q.by_user, q.message),
              ),
            )
    ]
  ]
]

known-answer :
    (q : Request) (t : Task) (s : State)
    → in_range q ≡ true
    → lookup (q.by_user, q.message) s.active_tasks ≡ some t
    → ((schedule_deletion q s).0
        ≡ some
            (answer q already_scheduled (length (pending_of q.by_user s.user_pending_deletions))))
      × (lookup (q.by_user, q.message) (schedule_deletion q s).1.active_tasks ≡ some t)
unfolding schedule_deletion
known-answer q t s good h =
    let known : contains (q.by_user, q.message) s.active_tasks ≡ true =
      ground (arith, contains-lookup (q.by_user, q.message) s.active_tasks, h) in
    rw (schedule_deletion, good, known) (refl, h)

-- Once a deletion is scheduled, a call for a message with the same identifier in any other chat is
-- answered as already scheduled, and the task that is stored is still the one of the first chat.
pub other_chat_is_refused :
    (q : Request) (chat : ChatId) (count : ℕ) (s : State)
    → (schedule_deletion q s).0 ≡ some (answer q scheduled count)
    → let s' = (schedule_deletion q s).1 in
      let q' : Request = record q { in_chat = chat } in
      ((schedule_deletion q' s').0
        ≡ some
            (answer q' already_scheduled (length (pending_of q.by_user s'.user_pending_deletions))))
      × (lookup (q.by_user, q.message) (schedule_deletion q' s').1.active_tasks ≡ some (task_of q))
other_chat_is_refused q chat count s h =
    let (good, stored) = scheduled-start_task q count s h in
    known-answer (record q { in_chat = chat }) (task_of q) (schedule_deletion q s).1 good stored
