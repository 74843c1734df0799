-- ===== src/Deletion.antt =====
-- pytmbot/utils/message_deletion.py: the manager of timed deletions of messages. The manager's lock
-- makes a scheduling and a cleanup one step each; the end of a deletion thread, from the call of
-- Telegram on, is one step as well. Times are whole microseconds.
pub mod Steps
pub mod Sets
pub mod Consistency
pub mod Pending
pub mod Answers
mod Tests
use pytmbot.Base.{
  ℕ, zero, suc, ◌+◌, ◌≡◌, ◌↔◌, refl, Bool, true, false, not, ◌&&◌, ◌||◌, Option, none, some, List,
  [], ◌∷◌, arith, ltb, leb, length, if◌then◌else◌,
}
use pytmbot.Base.Dict.{Dict, lookup, contains, insert, erase}
use pytmbot.Base.Eq.{Eq, ◌==◌, ==_iff, nat_eq}
use pytmbot.Telegram.{ChatId}

-- The integers, for counts that a subtraction makes negative.
pub data ℤ : Type 0 where
  pos negsuc : ℕ → ℤ

abbrev pub pred : ℕ → ℤ
pred zero = negsuc 0
pred (suc n) = pos n

-- `_DeletionStatus`
pub data Status : Type 0 where
  success failed limit_exceeded scheduled already_scheduled : Status

-- `_DeletionResult`, but for the texts of errors.
pub record Result : Type 0 where
  pub status : Status
  pub message_id : ℕ
  pub user_id : ℕ
  pub pending_count : ℤ

-- `__bool__`
abbrev pub is_success : Result → Bool
is_success r = elim r.status [ success ↦ true | scheduled ↦ true | _ ↦ false ]

-- `_DeletionTask`: the bot is the identity of the object that the weak reference is to.
pub record Task : Type 0 where
  pub bot : ℕ
  pub chat_id : ChatId
  pub message_id : ℕ
  pub user_id : ℕ
  pub delay_seconds : ℕ
  pub created_at : ℕ
  pub has_callback : Bool

-- `_TaskKey`: the user and the message.
abbrev pub key_test : ℕ × ℕ → ℕ × ℕ → Bool
key_test (u, m) (v, n) = u == v && m == n

pub key_test_iff : (j k : ℕ × ℕ) → (key_test j k ≡ true) ↔ (j ≡ k)
key_test_iff (u, m) (v, n) = (
  (λ h. ground (arith, h, ==_iff u v, ==_iff m n)),
  λ h. ground (arith, h, ==_iff u v, ==_iff m n),
)

instance abbrev pub key_eq : Eq (ℕ × ℕ)
key_eq = record { same = key_test; same_iff = key_test_iff }

abbrev pub key_of : Task → ℕ × ℕ
key_of task = (task.user_id, task.message_id)

pub record Stats : Type 0 where
  pub scheduled_count : ℕ
  pub completed : ℕ
  pub failed_count : ℕ
  pub limit_exceeded_count : ℕ
  pub already_scheduled_count : ℕ

-- A set is a list without repetitions. `threads` are the started deletion threads that have not
-- ended, `unstarted` the tasks that were stored and whose thread did not start.
pub record State : Type 0 where
  pub user_pending_deletions : Dict ℕ (List ℕ)
  pub active_tasks : Dict (ℕ × ℕ) Task
  pub stats : Stats
  pub threads : List Task
  pub unstarted : List Task

abbrev pub initial : State
initial = record {
  user_pending_deletions = [];
  active_tasks = [];
  stats = record {
    scheduled_count = 0;
    completed = 0;
    failed_count = 0;
    limit_exceeded_count = 0;
    already_scheduled_count = 0;
  };
  threads = [];
  unstarted = [];
}

abbrev pub max_pending_per_user : ℕ
max_pending_per_user = 3

abbrev pub min_delay_seconds : ℕ
min_delay_seconds = 1

abbrev pub max_delay_seconds : ℕ
max_delay_seconds = 3600

-- `m in messages`
unfoldable pub is_in : ℕ → List ℕ → Bool
is_in m [] = false
is_in m (n ∷ ns) = if n == m then true else is_in m ns

-- `messages.add(m)`
unfoldable pub add : ℕ → List ℕ → List ℕ
unfolding is_in
add m ms = if is_in m ms then ms else m ∷ ms

-- `messages.discard(m)`
unfoldable pub discard : ℕ → List ℕ → List ℕ
discard m [] = []
discard m (n ∷ ns) = let rest = discard m ns in if n == m then rest else n ∷ rest

abbrev or_empty : Option (List ℕ) → List ℕ
or_empty none = []
or_empty (some ms) = ms

-- `self._user_pending_deletions[user_id]` of a `defaultdict`.
abbrev pub pending_of : ℕ → Dict ℕ (List ℕ) → List ℕ
pending_of user d = or_empty (lookup user d)

-- Reading the entry of a `defaultdict` stores it.
abbrev pub touch : ℕ → Dict ℕ (List ℕ) → Dict ℕ (List ℕ)
touch user d = insert user (pending_of user d) d

unfoldable pub get_pending_count : ℕ → State → ℕ × State
get_pending_count user s = (
  length (pending_of user s.user_pending_deletions),
  record s { user_pending_deletions = touch user s.user_pending_deletions },
)

-- What a call of `schedule_deletion` is given, with the reading of the clock, and whether the system
-- has a thread for it: `Thread.start` raises a `RuntimeError` where it has none.
pub record Request : Type 0 where
  pub for_bot : ℕ
  pub in_chat : ChatId
  pub message : ℕ
  pub by_user : ℕ
  pub delay : ℕ
  pub at_time : ℕ
  pub with_callback : Bool
  pub starts : Bool

abbrev pub task_of : Request → Task
task_of q = record {
  bot = q.for_bot;
  chat_id = q.in_chat;
  message_id = q.message;
  user_id = q.by_user;
  delay_seconds = q.delay;
  created_at = q.at_time;
  has_callback = q.with_callback;
}

abbrev pub answer : Request → Status → ℕ → Result
answer q status count = record {
  status = status;
  message_id = q.message;
  user_id = q.by_user;
  pending_count = pos count;
}

unfoldable pub store_task : Request → State → State
store_task q s = record s {
  user_pending_deletions =
      insert q.by_user (add q.message (pending_of q.by_user s.user_pending_deletions))
        s.user_pending_deletions;
  active_tasks = insert (q.by_user, q.message) (task_of q) s.active_tasks;
}

-- The task is stored under the lock. After it, where calls that come in between find it pending, its
-- thread is started and counted; if the start raises, the task stays stored.
unfoldable pub start_task : Request → State → State
unfolding store_task
start_task q s =
    let stored = store_task q s in
    if q.starts
    then record stored {
      stats = record stored.stats { scheduled_count = stored.stats.scheduled_count + 1 };
      threads = task_of q ∷ stored.threads;
    }
    else record stored { unstarted = task_of q ∷ stored.unstarted }

-- `schedule_deletion`: no result is the `ValueError` on the delay, or the exception of the start. The check of `_DeletionTask` on
-- the delay is the same, so that it cannot fail here.
unfoldable pub schedule_deletion : Request → State → Option Result × State
unfolding start_task
schedule_deletion q s =
    let current_pending = length (pending_of q.by_user s.user_pending_deletions) in
    let s' : State = record s {
      user_pending_deletions = touch q.by_user s.user_pending_deletions;
    } in
    if not (leb min_delay_seconds q.delay && leb q.delay max_delay_seconds)
    then (none, s)
    else if contains (q.by_user, q.message) s.active_tasks
    then (
      some (answer q already_scheduled current_pending),
      record s' {
        stats = record s.stats { already_scheduled_count = s.stats.already_scheduled_count + 1 };
      },
    )
    else if leb max_pending_per_user current_pending
    then (
      some (answer q limit_exceeded current_pending),
      record s' {
        stats = record s.stats { limit_exceeded_count = s.stats.limit_exceeded_count + 1 };
      },
    )
    else (
      if q.starts then some (answer q scheduled (current_pending + 1)) else none,
      start_task q s',
    )
