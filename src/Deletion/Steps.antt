-- ===== src/Deletion/Steps.antt =====
-- pytmbot/utils/message_deletion.py: the end of a deletion thread, the cleanup, and what happens to
-- the manager as a list of events.
use pytmbot.Base.{ℕ, zero, suc, ◌+◌, Bool, Option, none, some, List, [], ◌∷◌, if◌then◌else◌}
use pytmbot.Base.Dict.{Dict, insert, erase}
use pytmbot.Base.Eq.{nat_eq}
use pytmbot.Deletion.{
  Status, success, failed, Result, pred, Task, key_eq, key_of, State, discard, pending_of,
  get_pending_count, Request, schedule_deletion,
}

-- How the call of Telegram ends.
pub data Attempt : Type 0 where
  deleted api_error other_error : Attempt

-- The part of `_execute_deletion` that makes the result, with the statistics. A failed deletion is
-- not counted: the call is not inside `_update_stats`.
unfoldable pub attempt_deletion : (ℕ → Bool) → Attempt → Task → State → Result × State
unfolding get_pending_count
attempt_deletion is_alive attempt task s =
    let (count, s') = get_pending_count task.user_id s in
    let of_status : Status → Result = λ status. record {
      status = status;
      message_id = task.message_id;
      user_id = task.user_id;
      pending_count = pred count;
    } in
    if is_alive task.bot
    then elim attempt [
      | deleted ↦ (
        of_status success,
        record s' { stats = record s.stats { completed = s.stats.completed + 1 } },
      )
      | _ ↦ (of_status failed, s')
    ]
    else (of_status failed, s')

-- Its `finally`: the tracking data goes, whatever happened.
unfoldable pub forget : ℕ × ℕ → State → State
unfolding discard
forget (user, message_id) s = record s {
  active_tasks = erase (user, message_id) s.active_tasks;
  user_pending_deletions =
      insert user (discard message_id (pending_of user s.user_pending_deletions))
        s.user_pending_deletions;
}

abbrev pub get : ℕ → List Task → Option Task
get i [] = none
get zero (t ∷ ts) = some t
get (suc i) (t ∷ ts) = get i ts

abbrev pub without : ℕ → List Task → List Task
without i [] = []
without zero (t ∷ ts) = ts
without (suc i) (t ∷ ts) = t ∷ without i ts

-- `_execute_deletion` of a task, from the end of its delay on, with the result for its callback.
unfoldable pub execute_deletion : (ℕ → Bool) → Attempt → Task → State → Option Result × State
unfolding attempt_deletion forget
execute_deletion is_alive attempt task s =
    let (result, s') = attempt_deletion is_alive attempt task s in
    (if task.has_callback then some result else none, forget (key_of task) s')

-- The keys of the tasks whose bot is gone.
unfoldable pub stale_keys : (ℕ → Bool) → Dict (ℕ × ℕ) Task → List (ℕ × ℕ)
stale_keys is_alive [] = []
stale_keys is_alive ((key, task) ∷ d) =
    let rest = stale_keys is_alive d in if is_alive task.bot then rest else key ∷ rest

unfoldable pub forget_all : List (ℕ × ℕ) → State → State
unfolding forget
forget_all [] s = s
forget_all (key ∷ keys) s = forget_all keys (forget key s)

-- The users without a pending deletion lose their entry.
unfoldable pub drop_empty : Dict ℕ (List ℕ) → Dict ℕ (List ℕ)
drop_empty [] = []
drop_empty ((user, messages) ∷ d) =
    let rest = drop_empty d in elim messages [ [] ↦ rest | m ∷ ms ↦ (user, m ∷ ms) ∷ rest ]

-- `_cleanup_stale_references`
unfoldable pub cleanup_stale_references : (ℕ → Bool) → State → State
unfolding stale_keys forget_all drop_empty
cleanup_stale_references is_alive s =
    let s' = forget_all (stale_keys is_alive s.active_tasks) s in
    record s' { user_pending_deletions = drop_empty s'.user_pending_deletions }

-- What happens to the manager: a call, the end of the i-th thread that runs, or the cleanup; the
-- last two with the bots that are alive.
pub data Event : Type 0 where
  schedule : Request → Event
  finish : ℕ → (ℕ → Bool) → Attempt → Event
  clean_up : (ℕ → Bool) → Event
  ask : ℕ → Event

unfoldable pub finish_thread : ℕ → (ℕ → Bool) → Attempt → State → State
unfolding execute_deletion
finish_thread i is_alive attempt s = elim (get i s.threads) [
  | none ↦ s
  | some task ↦
      (execute_deletion is_alive attempt task (record s { threads = without i s.threads })).1
]

unfoldable pub handle : Event → State → State
unfolding schedule_deletion finish_thread cleanup_stale_references get_pending_count
handle (schedule q) s = (schedule_deletion q s).1
handle (finish i is_alive attempt) s = finish_thread i is_alive attempt s
handle (clean_up is_alive) s = cleanup_stale_references is_alive s
handle (ask user) s = (get_pending_count user s).1

unfoldable pub run : List Event → State → State
unfolding handle
run [] s = s
run (e ∷ es) s = run es (handle e s)
