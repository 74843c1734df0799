-- ===== src/Deletion/Tests.antt =====
-- Runs of the deletion manager on small inputs, and the theorems at concrete inputs.
use pytmbot.Base.{ℕ, ◌≡◌, refl, Bool, true, false, some, List, [], ◌∷◌, length}
use pytmbot.Base.Dict.{lookup, contains, insert, erase}
use pytmbot.Base.Eq.{nat_eq}
use pytmbot.Telegram.{private_chat, group_chat}
use pytmbot.Deletion.{
  scheduled, already_scheduled, failed, negsuc, Result, Task, task_of, Request, key_eq, State,
  initial, answer, schedule_deletion, pending_of, is_in,
}
use pytmbot.Deletion.Steps.{
  Event, schedule, finish, clean_up, deleted, api_error, run, execute_deletion,
}
use pytmbot.Deletion.Consistency.{IsConsistent}
use pytmbot.Deletion.Pending.{run-IsConsistent, nothing_is_left}
use pytmbot.Deletion.Answers.{expected, schedule_answers, other_chat_is_refused}

abbrev request : ℕ → Request
request m = record {
  for_bot = 1;
  in_chat = private_chat 7;
  message = m;
  by_user = 7;
  delay = 30;
  at_time = 0;
  with_callback = true;
  starts = true;
}

abbrev everyone : ℕ → Bool
everyone bot = true

abbrev nobody : ℕ → Bool
nobody bot = false

abbrev busy : List Event
busy =
    schedule (request 1)
    ∷ schedule (request 2)
    ∷ clean_up everyone
    ∷ schedule (request 3)
    ∷ finish 0 everyone api_error
    ∷ schedule (request 4)
    ∷ schedule (request 5)
    ∷ []

busy-pending : pending_of 7 (run busy initial).user_pending_deletions ≡ 4 ∷ 2 ∷ 1 ∷ []
unfolding lookup run contains insert pytmbot.Deletion.add erase
busy-pending = refl

run-IsConsistent_example : IsConsistent (run busy initial)
run-IsConsistent_example = run-IsConsistent busy

abbrev done_at_last : List Event
done_at_last =
    schedule (request 1)
    ∷ schedule (request 2)
    ∷ clean_up nobody
    ∷ finish 1 nobody deleted
    ∷ finish 0 everyone deleted
    ∷ []

done-threads :
    ((run done_at_last initial).threads ≡ []) × ((run done_at_last initial).unstarted ≡ [])
unfolding run contains lookup insert pytmbot.Deletion.add
done-threads = (refl, refl)

nothing_is_left_example :
    is_in 2 (pending_of 7 (run done_at_last initial).user_pending_deletions) ≡ false
nothing_is_left_example = nothing_is_left done_at_last done-threads.0 done-threads.1 7 2

-- A task that the cleanup has taken away before its thread ends counts itself out all the same.
count_below_zero :
    (execute_deletion nobody deleted
      (task_of (request 1))
      (run (schedule (request 1) ∷ clean_up nobody ∷ []) initial)).0
    ≡ some (record { status = failed; message_id = 1; user_id = 7; pending_count = negsuc 0 })
unfolding execute_deletion lookup run contains insert pytmbot.Deletion.add
count_below_zero = refl

schedule_answers_example :
    (schedule_deletion (request 2) (run busy initial)).0
    ≡ expected (request 2) (pending_of 7 (run busy initial).user_pending_deletions)
schedule_answers_example = schedule_answers busy (request 2)

first_answer : (schedule_deletion (request 1) initial).0 ≡ some (answer (request 1) scheduled 1)
unfolding schedule_deletion contains lookup
first_answer = refl

group_chat_is_refused :
    ((schedule_deletion
        (record (request 1) { in_chat = group_chat 5 })
        (schedule_deletion (request 1) initial).1).0
      ≡ some (
          answer
            (record (request 1) { in_chat = group_chat 5 })
            already_scheduled
            (length
              (pending_of 7 (schedule_deletion (request 1) initial).1.user_pending_deletions))))
    × (lookup
          (7, 1)
          (schedule_deletion
            (record (request 1) { in_chat = group_chat 5 })
            (schedule_deletion (request 1) initial).1).1.active_tasks
        ≡ some (task_of (request 1)))
group_chat_is_refused = other_chat_is_refused (request 1) (group_chat 5) 1 initial first_answer
