-- ===== src/Deletion/Consistency.antt =====
-- The agreement of the sets, the active tasks and the threads of pytmbot/utils/message_deletion.py,
-- and the operations that keep it.
use pytmbot.Base.{
  ℕ, ◌+◌, ◌≤◌, ◌≡◌, refl, inl, inr, Bool, true, false, List, [], ◌∷◌, arith, length, Bool-cases,
  if-keeps, if◌then◌else◌, leb, ◌&&◌, ◌||◌,
}
use pytmbot.Base.Dict.{lookup, contains, IsDict, contains-insert, contains-erase, insert-IsDict}
use pytmbot.Base.Eq.{◌==◌, ==_iff, nat_eq}
use pytmbot.Deletion.{
  Task, key_eq, key_of, State, initial, max_pending_per_user, is_in, add, discard, pending_of,
  touch, Request, store_task, start_task, schedule_deletion, min_delay_seconds, max_delay_seconds,
  task_of,
}
use pytmbot.Deletion.Steps.{forget, stale_keys, forget_all, cleanup_stale_references}
use pytmbot.Deletion.Sets.{
  is_in-add, length-add, is_in-discard, length-discard, pending_of-insert, pending_of-touch,
  drop_empty-IsDict, pending_of-drop_empty,
}

-- A thread that runs is for this user and message.
unfoldable pub has_thread : ℕ × ℕ → List Task → Bool
has_thread k [] = false
has_thread k (t ∷ ts) = if key_of t == k then true else has_thread k ts

-- A message is pending for a user exactly if there is an active task for both; nobody has more than
-- three; each active task has a thread that runs, or one that did not start; and the threads that run and the completed ones
-- are no more than the deletions that were scheduled.
pub record IsConsistent (s : State) : Type 0 where
  pub unique : IsDict s.user_pending_deletions
  pub agree :
      (u m : ℕ) → is_in m (pending_of u s.user_pending_deletions) ≡ contains (u, m) s.active_tasks
  pub few : (u : ℕ) → length (pending_of u s.user_pending_deletions) ≤ max_pending_per_user
  pub threaded :
      (u m : ℕ)
      → contains (u, m) s.active_tasks ≡ true
      → (has_thread (u, m) s.threads || has_thread (u, m) s.unstarted) ≡ true
  pub counted : s.stats.completed + length s.threads ≤ s.stats.scheduled_count

-- The same, but for the threads of one key.
pub record IsConsistentBut (k : ℕ × ℕ) (s : State) : Type 0 where
  pub unique : IsDict s.user_pending_deletions
  pub agree :
      (u m : ℕ) → is_in m (pending_of u s.user_pending_deletions) ≡ contains (u, m) s.active_tasks
  pub few : (u : ℕ) → length (pending_of u s.user_pending_deletions) ≤ max_pending_per_user
  pub threaded :
      (u m : ℕ)
      → contains (u, m) s.active_tasks ≡ true
      → (k == (u, m)) ≡ false
      → (has_thread (u, m) s.threads || has_thread (u, m) s.unstarted) ≡ true
  pub counted : s.stats.completed + length s.threads ≤ s.stats.scheduled_count

pub initial-IsConsistent : IsConsistent initial
unfolding lookup is_in contains
initial-IsConsistent = record {
  unique = tt;
  agree = λ u m. refl;
  few = λ u. omega arith;
  threaded = λ u m h. ground (arith, h);
  counted = omega arith;
}

pub touched-IsConsistent :
    (u : ℕ) (s : State)
    → IsConsistent s
    → IsConsistent (record s { user_pending_deletions = touch u s.user_pending_deletions })
touched-IsConsistent u s h = record {
  unique =
      insert-IsDict u (pending_of u s.user_pending_deletions) s.user_pending_deletions h.unique;
  agree = λ v m. rw (pending_of-touch u v s.user_pending_deletions) (h.agree v m);
  few = λ v. rw (pending_of-touch u v s.user_pending_deletions) (h.few v);
  threaded = h.threaded;
  counted = h.counted;
}

pub forget-restores : (k : ℕ × ℕ) (s : State) → IsConsistentBut k s → IsConsistent (forget k s)
unfolding forget
forget-restores (u, m) s h = record {
  unique =
      insert-IsDict u (discard m (pending_of u s.user_pending_deletions)) s.user_pending_deletions
        h.unique;
  agree = λ v n. ground (
    arith,
    ==_iff u v,
    h.agree v n,
    pending_of-insert u v (discard m (pending_of u s.user_pending_deletions))
        s.user_pending_deletions,
    is_in-discard n m (pending_of u s.user_pending_deletions),
    contains-erase (u, m) (v, n) s.active_tasks,
  );
  few = λ v. ground (
    arith,
    h.few v,
    h.few u,
    pending_of-insert u v (discard m (pending_of u s.user_pending_deletions))
        s.user_pending_deletions,
    length-discard m (pending_of u s.user_pending_deletions),
  );
  threaded = λ v n e.
      h.threaded v n (ground (arith, e, contains-erase (u, m) (v, n) s.active_tasks))
        (ground (arith, e, contains-erase (u, m) (v, n) s.active_tasks));
  counted = h.counted;
}

forget-IsConsistent : (k : ℕ × ℕ) (s : State) → IsConsistent s → IsConsistent (forget k s)
forget-IsConsistent k s h = forget-restores k s (record {
  unique = h.unique;
  agree = h.agree;
  few = h.few;
  threaded = λ u m e o. h.threaded u m e;
  counted = h.counted;
})

forget_all-IsConsistent :
    (ks : List (ℕ × ℕ)) (s : State) → IsConsistent s → IsConsistent (forget_all ks s)
unfolding forget_all
forget_all-IsConsistent [] s h = h
forget_all-IsConsistent (k ∷ ks) s h =
    forget_all-IsConsistent ks (forget k s) (forget-IsConsistent k s h)

pub cleanup-IsConsistent :
    (is_alive : ℕ → Bool) (s : State)
    → IsConsistent s
    → IsConsistent (cleanup_stale_references is_alive s)
unfolding cleanup_stale_references
cleanup-IsConsistent is_alive s h = record {
  unique = drop_empty-IsDict s'.user_pending_deletions h'.unique;
  agree = λ u m. rw (pending_of-drop_empty u s'.user_pending_deletions h'.unique) (h'.agree u m);
  few = λ u. rw (pending_of-drop_empty u s'.user_pending_deletions h'.unique) (h'.few u);
  threaded = h'.threaded;
  counted = h'.counted;
}
  where
    s' : State
    s' = forget_all (stale_keys is_alive s.active_tasks) s

    h' : IsConsistent s'
    h' = forget_all-IsConsistent (stale_keys is_alive s.active_tasks) s h

-- Only the new task has no thread yet.
store_task-IsConsistentBut :
    (q : Request) (s : State)
    → length (pending_of q.by_user s.user_pending_deletions) + 1 ≤ max_pending_per_user
    → IsConsistent s
    → IsConsistentBut (q.by_user, q.message) (store_task q s)
unfolding store_task
store_task-IsConsistentBut q s room h = record {
  unique =
      insert-IsDict q.by_user (add q.message (pending_of q.by_user s.user_pending_deletions))
        s.user_pending_deletions h.unique;
  agree = λ v n. ground (
    arith,
    ==_iff q.by_user v,
    h.agree v n,
    pending_of-insert q.by_user v (add q.message (pending_of q.by_user s.user_pending_deletions))
        s.user_pending_deletions,
    is_in-add n q.message (pending_of q.by_user s.user_pending_deletions),
    contains-insert (q.by_user, q.message) (v, n) (task_of q) s.active_tasks,
  );
  few = λ v. ground (
    arith,
    h.few v,
    pending_of-insert q.by_user v (add q.message (pending_of q.by_user s.user_pending_deletions))
        s.user_pending_deletions,
    length-add q.message (pending_of q.by_user s.user_pending_deletions),
    room,
  );
  threaded = λ v n e other. ground (
    arith,
    e,
    other,
    h.threaded v n,
    contains-insert (q.by_user, q.message) (v, n) (task_of q) s.active_tasks,
  );
  counted = h.counted;
}

-- Then its thread runs, or did not start.
start_task-IsConsistent :
    (q : Request) (s : State)
    → length (pending_of q.by_user s.user_pending_deletions) + 1 ≤ max_pending_per_user
    → IsConsistent s
    → IsConsistent (start_task q s)
unfolding start_task has_thread
start_task-IsConsistent q s room h =
    if-keeps IsConsistent q.starts
      (record {
        unique = stored.unique;
        agree = stored.agree;
        few = stored.few;
        threaded = λ v n e. ground (arith, stored.threaded v n e);
        counted = omega (arith, stored.counted);
      })
      (record {
        unique = stored.unique;
        agree = stored.agree;
        few = stored.few;
        threaded = λ v n e. ground (arith, stored.threaded v n e);
        counted = stored.counted;
      })
  where
    stored : IsConsistentBut (q.by_user, q.message) (store_task q s)
    stored = store_task-IsConsistentBut q s room h

-- The other counts do not matter.
uncounted :
    {s : State} {limit known : ℕ}
    → IsConsistent s
    → IsConsistent (record s {
      stats = record s.stats { limit_exceeded_count = limit; already_scheduled_count = known };
    })
uncounted h = record {
  unique = h.unique;
  agree = h.agree;
  few = h.few;
  threaded = h.threaded;
  counted = h.counted;
}

pub schedule-IsConsistent :
    (q : Request) (s : State) → IsConsistent s → IsConsistent (schedule_deletion q s).1
unfolding schedule_deletion
schedule-IsConsistent q s h = elim (Bool-cases in_range) [
  | inr bad ↦ rw (schedule_deletion, bad) h
  | inl good ↦ elim (Bool-cases (contains (q.by_user, q.message) s.active_tasks)) [
    | inl known ↦
        rw (schedule_deletion, good, known) (uncounted (touched-IsConsistent q.by_user s h))
    | inr new ↦ elim (Bool-cases full) [
      | inl many ↦
          rw (schedule_deletion, good, new, many) (uncounted (touched-IsConsistent q.by_user s h))
      | inr room ↦
          rw (schedule_deletion, good, new, room)
            (start_task-IsConsistent q s'
              (ground (arith, room, pending_of-touch q.by_user q.by_user s.user_pending_deletions))
              (touched-IsConsistent q.by_user s h))
    ]
  ]
]
  where
    in_range : Bool
    in_range = leb min_delay_seconds q.delay && leb q.delay max_delay_seconds

    full : Bool
    full = leb max_pending_per_user (length (pending_of q.by_user s.user_pending_deletions))

    s' : State
    s' = record s { user_pending_deletions = touch q.by_user s.user_pending_deletions }
