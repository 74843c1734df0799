-- ===== src/Deletion/Pending.antt =====
-- What is pending in pytmbot/utils/message_deletion.py: the sets of messages, the active tasks and
-- the threads agree after any events.
use pytmbot.Base.{
  ℕ, zero, suc, ◌+◌, ◌≤◌, ◌≡◌, ◌∙◌, inl, inr, Bool, true, false, some, List, [], ◌∷◌, arith, length,
  Bool-cases, Option-cases, if-keeps,
}
use pytmbot.Base.Dict.{contains}
use pytmbot.Base.Eq.{◌==◌, nat_eq}
use pytmbot.Deletion.{
  Result, Task, key_eq, key_of, State, initial, is_in, pending_of, touch, get_pending_count,
}
use pytmbot.Deletion.Steps.{
  Attempt, deleted, api_error, other_error, attempt_deletion, get, without, execute_deletion, Event,
  schedule, finish, clean_up, ask, finish_thread, handle, run,
}
use pytmbot.Deletion.Consistency.{
  has_thread, IsConsistent, IsConsistentBut, initial-IsConsistent, touched-IsConsistent,
  forget-restores, cleanup-IsConsistent, schedule-IsConsistent,
}

has_thread-without :
    (k : ℕ × ℕ) (i : ℕ) (ts : List Task) {t : Task}
    → get i ts ≡ some t
    → has_thread k ts ≡ true
    → (key_of t == k) ≡ false
    → has_thread k (without i ts) ≡ true
unfolding has_thread
has_thread-without k i [] e h o = ground (arith, h)
has_thread-without k zero (t ∷ ts) e h o = ground (arith, e, h, o)
has_thread-without k (suc i) (t ∷ ts) {t = x} e h o =
    ground (arith, h, has_thread-without k i ts {t = x} e)

length-without :
    (i : ℕ) (ts : List Task) {t : Task} → get i ts ≡ some t → length (without i ts) + 1 ≡ length ts
length-without i [] e = cc
length-without zero (t ∷ ts) e = omega arith
length-without (suc i) (t ∷ ts) {t = x} e = omega (arith, length-without i ts {t = x} e)

module _ (i : ℕ) (s : State) (h : IsConsistent s) (t : Task) (e : get i s.threads ≡ some t) where
  -- The thread has ended, with or without a success to count.
  abbrev ended : ℕ → State
  ended n = record s {
    user_pending_deletions = touch t.user_id s.user_pending_deletions;
    stats = record s.stats { completed = n };
    threads = without i s.threads;
  }

  ended-IsConsistentBut : (n : ℕ) → n ≤ s.stats.completed + 1 → IsConsistentBut (key_of t) (ended n)
  ended-IsConsistentBut n le = record {
    unique = touched.unique;
    agree = touched.agree;
    few = touched.few;
    threaded = λ u m c o.
        ground (arith, o, h.threaded u m c, has_thread-without (u, m) i s.threads {t = t} e);
    counted = omega (arith, length-without i s.threads {t = t} e, h.counted, le);
  }
    where
      touched :
          IsConsistent
            (record s { user_pending_deletions = touch t.user_id s.user_pending_deletions })
      touched = touched-IsConsistent t.user_id s h

  unsuccessful : IsConsistentBut (key_of t) (ended s.stats.completed)
  unsuccessful = ended-IsConsistentBut s.stats.completed (omega arith)

  abbrev IsEnded : Result × State → Type 0
  IsEnded r = IsConsistentBut (key_of t) r.1

  attempted-IsConsistentBut :
      (is_alive : ℕ → Bool) (attempt : Attempt)
      → IsEnded (attempt_deletion is_alive attempt t (record s { threads = without i s.threads }))
  unfolding attempt_deletion get_pending_count
  attempted-IsConsistentBut is_alive deleted =
      if-keeps IsEnded (is_alive t.bot)
        (ended-IsConsistentBut (s.stats.completed + 1) (omega arith)) unsuccessful
  attempted-IsConsistentBut is_alive api_error =
      if-keeps IsEnded (is_alive t.bot) unsuccessful unsuccessful
  attempted-IsConsistentBut is_alive other_error =
      if-keeps IsEnded (is_alive t.bot) unsuccessful unsuccessful

finish-IsConsistent :
    (i : ℕ) (is_alive : ℕ → Bool) (attempt : Attempt) (s : State)
    → IsConsistent s
    → IsConsistent (finish_thread i is_alive attempt s)
unfolding finish_thread execute_deletion
finish-IsConsistent i is_alive attempt s h = elim (Option-cases (get i s.threads)) [
  | inl none_left ↦ rw (finish_thread, none_left) h
  | inr (t, e) ↦
      rw (finish_thread, e)
        (forget-restores (key_of t)
          (attempt_deletion is_alive attempt t (record s { threads = without i s.threads })).1
          (attempted-IsConsistentBut i s h t e is_alive attempt))
]

handle-IsConsistent : (e : Event) (s : State) → IsConsistent s → IsConsistent (handle e s)
unfolding handle get_pending_count
handle-IsConsistent (schedule q) s h = schedule-IsConsistent q s h
handle-IsConsistent (finish i is_alive attempt) s h = finish-IsConsistent i is_alive attempt s h
handle-IsConsistent (clean_up is_alive) s h = cleanup-IsConsistent is_alive s h
handle-IsConsistent (ask user) s h = touched-IsConsistent user s h

run_from-IsConsistent : (es : List Event) (s : State) → IsConsistent s → IsConsistent (run es s)
unfolding run
run_from-IsConsistent [] s h = h
run_from-IsConsistent (e ∷ es) s h =
    run_from-IsConsistent es (handle e s) (handle-IsConsistent e s h)

-- After any events from the start on, calls, ends of threads with any result in any order, and
-- cleanups: a message is pending for a user exactly if a task for both is active, nobody has more
-- than three, each active task has a thread that runs or one whose start raised, and the running threads and the completed
-- deletions are together at most the scheduled ones.
pub run-IsConsistent : (es : List Event) → IsConsistent (run es initial)
run-IsConsistent es = run_from-IsConsistent es initial initial-IsConsistent

-- Once all threads have ended, however they did, and if the start of none raised, nothing is pending
-- for anybody.
pub nothing_is_left :
    (es : List Event)
    → (run es initial).threads ≡ []
    → (run es initial).unstarted ≡ []
    → (user m : ℕ) → is_in m (pending_of user (run es initial).user_pending_deletions) ≡ false
unfolding has_thread
nothing_is_left es h none_failed user m =
    elim (Bool-cases (contains (user, m) (run es initial).active_tasks)) [
      | inl active ↦ absurd (ground (arith, all.threaded user m active, h, none_failed))
      | inr idle ↦ all.agree user m ∙ idle
    ]
  where
    all : IsConsistent (run es initial)
    all = run-IsConsistent es
