-- ===== src/Monitor/Alerts.antt =====
-- When an alert is active in pytmbot/plugins/monitor/methods.py.
use pytmbot.Base.{
  ◌++◌, sym, ℕ, ◌≡◌, refl, ap, ◌∙◌, inl, inr, Bool, true, false, ◌&&◌, Option, none, some, List, [],
  ◌∷◌, arith, if◌then◌else◌, Bool-cases, leb, ltb, if-keeps,
}
use pytmbot.Base.Dict.{Dict, lookup}
use pytmbot.Base.Eq.{◌==◌, ==_iff, nat_eq}
use pytmbot.Base.Text.{codes_eq}
use pytmbot.Monitor.{
  Config, State, Notice, alert, initial, send_notification, find_active_event_id, create_event,
  drop_active, is_dropped, Observation, notify_if_new, create_or_notify_event,
  resolve_event_and_notify, observe, observe_all, maybe_reset_notification_budget,
}
use pytmbot.Monitor.Cycles.{Cycle, observed_in, process_alerts, run_cycles}
use pytmbot.Monitor.Index.{
  IsUnique, IsSound, IsAnswer, find-IsAnswer, unindexed-IsSound, dropped-IsSound, create-IsSound,
  new_id,
}
use pytmbot.Monitor.Events.{has_active, has_active-insert, has_active-drop_active}

-- The last observation of a type was over its threshold.
unfoldable pub last_over : List ℕ → List Observation → Bool → Bool
last_over t [] over = over
last_over t (o ∷ os) over = last_over t os (if o.of_type == t then o.is_over else over)

-- The observations of cycles, in their order.
unfoldable pub all_observations : Config → List Cycle → List Observation
all_observations c [] = []
all_observations c (q ∷ qs) = observed_in c q ++ all_observations c qs

last_over-append :
    (t : List ℕ) (os rest : List Observation) (over : Bool)
    → last_over t (os ++ rest) over ≡ last_over t rest (last_over t os over)
unfolding last_over
last_over-append t [] rest over = refl
last_over-append t (o ∷ os) rest over =
    last_over-append t os rest (if o.of_type == t then o.is_over else over)

module _ (c : Config) (uuid4 : ℕ → ℕ) where
  -- A state with the events, the index and the draws of another.
  abbrev IsSame : State → State → Type 0
  IsSame s s' =
      (s'.active_events ≡ s.active_events)
      × (s'.active_event_ids ≡ s.active_event_ids)
      × (s'.drawn ≡ s.drawn)

  same-IsSound : (s s' : State) → IsSame s s' → IsSound uuid4 s → IsSound uuid4 s'
  same-IsSound s s' (events, ids, draws) h = record {
    unique = rw events (h.unique);
    known = rw (events, draws) (h.known);
    indexed = rw (ids, draws) (h.indexed);
    typed = rw (events, ids) (h.typed);
  }

  reset-IsSame : (now : ℕ) (s : State) → IsSame s (maybe_reset_notification_budget now s)
  unfolding maybe_reset_notification_budget
  reset-IsSame now s =
      if-keeps (λ (s' : State). IsSame s s')
        (ltb 0 s.next_notification_reset_at && leb s.next_notification_reset_at now)
        (refl, refl, refl) (refl, refl, refl)

  send-IsSame :
      (works : Bool) (now : ℕ) (n : Notice) (s : State)
      → IsSame s (send_notification c true works now n s).1
  unfolding send_notification
  send-IsSame works now n s =
      if-keeps (λ (r : List Notice × State). IsSame s r.1)
        (leb c.max_notifications (maybe_reset_notification_budget now s).notification_count)
        (reset-IsSame now s)
        (if-keeps (λ (r : List Notice × State). IsSame s r.1) works (reset-IsSame now s)
          (reset-IsSame now s))

  -- The state is sound, and an event of a type is active exactly if `f` says so.
  abbrev Follows : (List ℕ → Bool) → State → Type 0
  Follows f s = IsSound uuid4 s × ((t : List ℕ) → has_active t s.active_events ≡ f t)

  abbrev after : Observation → State → List ℕ → Bool
  after o s t = if o.of_type == t then o.is_over else has_active t s.active_events

  resolve-Follows :
      (o : Observation) (s : State)
      → o.is_over ≡ false
      → IsSound uuid4 s
      → Follows (after o s) (resolve_event_and_notify c uuid4 o s).1
  unfolding resolve_event_and_notify
  resolve-Follows o s low h = (
    if-keeps
        (λ (ids : Dict (List ℕ) ℕ). IsSound uuid4 (record s {
          active_events = drop_active o.of_type s.active_events;
          active_event_ids = ids;
        }))
        (is_dropped o.of_type (lookup o.of_type s.active_event_ids) s.active_events)
        (unindexed-IsSound uuid4 o.of_type
          (record s { active_events = drop_active o.of_type s.active_events }) dropped)
        dropped,
    λ t. ground (arith, low, has_active-drop_active t o.of_type s.active_events),
  )
    where
      dropped : IsSound uuid4 (record s { active_events = drop_active o.of_type s.active_events })
      dropped = dropped-IsSound uuid4 o.of_type s h

  module _ (distinct : IsUnique uuid4) where
    notify-Follows :
        (o : Observation) (s : State) (found : Option ℕ) (s' : State)
        → o.is_over ≡ true
        → IsAnswer uuid4 o.of_type s (found, s')
        → Follows (after o s) (notify_if_new c uuid4 o (found, s')).1
    unfolding notify_if_new create_event
    notify-Follows o s (some i) s' high (active, events, draws, sound) =
        (sound, λ t. ground (arith, high, active, events, ==_iff o.of_type t))
    notify-Follows o s none s' high (idle, events, draws, sound) = (
      same-IsSound created sent.1 (send-IsSame o.works o.now (alert o.of_type) created)
          (create-IsSound uuid4 distinct o.now o.of_type s' sound),
      λ t. rw ((send-IsSame o.works o.now (alert o.of_type) created).0) (entered t),
    )
      where
        created : State
        created = create_event uuid4 o.now o.of_type s'

        sent : List Notice × State
        sent = send_notification c true o.works o.now (alert o.of_type) created

        entered : (t : List ℕ) → has_active t created.active_events ≡ after o s t
        entered t = ground (
          arith,
          high,
          idle,
          events,
          ==_iff o.of_type t,
          has_active-insert (uuid4 s'.drawn)
              (record { event_type = o.of_type; start_time = o.now; resolved = false }) t
              s'.active_events (new_id uuid4 distinct o.now o.of_type s' sound),
        )

    observe-Follows :
        (o : Observation) (s : State)
        → IsSound uuid4 s
        → Follows (after o s) (observe c uuid4 o s).1
    unfolding observe create_or_notify_event
    observe-Follows o s h = elim (Bool-cases o.is_over) [
      | inl high ↦
          let r : Follows (after o s) (create_or_notify_event c uuid4 o s).1 =
            notify-Follows o s (find_active_event_id o.of_type s).0
              (find_active_event_id o.of_type s).1 high (find-IsAnswer uuid4 o.of_type s h) in
          simp (observe, high) (simp high at r)
      | inr low ↦
          let r : Follows (after o s) (resolve_event_and_notify c uuid4 o s).1 =
            resolve-Follows o s low h in
          simp (observe, low) (simp low at r)
    ]

    -- What the observations leave.
    observe_all-Follows :
        (os : List Observation) (s : State)
        → IsSound uuid4 s
        → Follows (λ t. last_over t os (has_active t s.active_events)) (observe_all c uuid4 os s)
    unfolding observe_all last_over
    observe_all-Follows [] s h = (h, λ t. refl)
    observe_all-Follows (o ∷ os) s h =
        let (sound, follows) = observe-Follows o s h in
        let (later, rest) = observe_all-Follows os (observe c uuid4 o s).1 sound in
        (later, λ t. rest t ∙ ap (last_over t os) (follows t))

  run_cycles-Follows :
      (distinct : IsUnique uuid4) (qs : List Cycle) (s : State) (t : List ℕ)
      → IsSound uuid4 s
      → has_active t (run_cycles c uuid4 qs s).active_events
        ≡ last_over t (all_observations c qs) (has_active t s.active_events)
  unfolding run_cycles process_alerts all_observations last_over
  run_cycles-Follows distinct [] s t h = refl
  run_cycles-Follows distinct (q ∷ qs) s t h =
      let (sound, follows) = observe_all-Follows distinct (observed_in c q) s h in
      run_cycles-Follows distinct qs (process_alerts c uuid4 q s) t sound
      ∙ ap (last_over t (all_observations c qs)) (follows t)
      ∙ sym (
          last_over-append t (observed_in c q) (all_observations c qs)
            (has_active t s.active_events))

  -- If `uuid4` never returns an identifier twice: after any cycles from the start on, whatever their
  -- metrics are and whatever the budget and the sendings do, an event of a type is active exactly if
  -- the last value of this type was over its threshold.
  pub active-last_over :
      (distinct : IsUnique uuid4) (qs : List Cycle) (t : List ℕ)
      → has_active t (run_cycles c uuid4 qs (initial c)).active_events
        ≡ last_over t (all_observations c qs) false
  unfolding has_active lookup
  active-last_over distinct qs t =
      run_cycles-Follows distinct qs (initial c) t
        (record { unique = tt; known = tt; indexed = λ u i e. ground (arith, e); typed = tt })
