-- ===== src/Chain/Answers.antt =====
-- The filter and the limiter in the chain of pytmbot/pytmbot_instance.py answer by the histories.
use pytmbot.Base.{
  ℕ, ◌+◌, ◌≤◌, ◌∙◌, ap, ◌<◌, ◌≡◌, ◌⊎◌, false, not, none, some, List, [], ◌∷◌, length, arith,
  if◌then◌else◌, Option-cases, inl, inr,
}
use pytmbot.Base.Eq.{nat_eq}
use pytmbot.Telegram.{User}
use pytmbot.RateLimit as RateLimit
use pytmbot.RateLimit.Spec as Spec
use pytmbot.RateLimit.Spec.{History}
use pytmbot.RateLimit.Window.{IsAscending-later}
use pytmbot.Dedup as Dedup
use pytmbot.Dedup.Key as Key
use pytmbot.Dedup.Key.{DedupKey, key_eq, build_dedup_key}
use pytmbot.Dedup.Spec as Filter
use pytmbot.Dedup.Spec.{is_duplicate}
use pytmbot.Access as Access
use pytmbot.Access.{from_user}
use pytmbot.Chain.{
  dedup_settings, rate_limits, insert_entry, sort_entries, Arrival, State, pre_process, pass,
  arrive,
}
use pytmbot.Chain.History.{
  initial, Event, arrival, cleanup, perform, perform_all, Keys, is_repeated, accept, accepted_keys,
  add_request, handled_requests, is_fresh, is_limited, IsTimely, is_known,
}

-- The states of the filter and of the limiter follow the histories up to these times.
pub record IsFollowed (last_key last_request : ℕ) (s : State) (keys : Keys) (h : History)
    : Type 0 where
  pub filter : Filter.Represents dedup_settings last_key s.dedup keys
  pub limiter : Spec.Represents rate_limits last_request s.rate h

limiter-later :
    (last now : ℕ) (s t : RateLimit.State) (h : History)
    → last ≤ now
    → t.user_requests ≡ s.user_requests
    → Spec.Represents rate_limits last s h
    → Spec.Represents rate_limits now t h
limiter-later last now s t h later same rep = record {
  ascending =
      λ u. rw same (IsAscending-later last now (RateLimit.requests_of u s) later (rep.ascending u));
  counts = λ u c recent. rw same (rep.counts u c (omega (arith, recent, later)));
}

filter-later :
    (last now : ℕ) (s : Dedup.State DedupKey) (keys : Keys)
    → last ≤ now
    → Filter.Represents dedup_settings last s keys
    → Filter.Represents dedup_settings now s keys
filter-later last now s keys later rep = record {
  sound = rep.sound;
  complete = λ k t at live. rep.complete k t at (omega (arith, live, later));
  small = rep.small;
}

module _ (c : Access.Config) (a : Arrival) (s : State) where
  arrive-filter :
      (arrive c a s).state.dedup ≡ (Key.pre_process dedup_settings a.incoming a.dedup_now s.dedup).1
  unfolding arrive pass sort_entries insert_entry pre_process
  arrive-filter = ground arith

  -- An update that is not handled by a decision of the filter or of the access control changes
  -- nothing in the limiter; for the others its check decides.
  arrive-limiter :
      (user : User)
      → from_user a.update ≡ some user
      → (((arrive c a s).handled ≡ false) × ((arrive c a s).state.rate ≡ s.rate))
        ⊎ (((arrive c a s).handled ≡ not (is_limited user.id a s))
            × ((arrive c a s).state.rate.user_requests
                ≡ (RateLimit.check_and_track rate_limits user.id a.rate_now
                    s.rate).1.user_requests))
  unfolding arrive pass sort_entries insert_entry pre_process RateLimit.pre_process
      RateLimit.process_user RateLimit.handle_rate_limit RateLimit.track_violation
      RateLimit.should_log_violation
  arrive-limiter user e = ground arith

  arrive-nobody : from_user a.update ≡ none → (arrive c a s).state.rate ≡ s.rate
  unfolding arrive pass sort_entries insert_entry pre_process RateLimit.pre_process
  arrive-nobody e = ground arith

  module _ (last_key last_request : ℕ) (keys : Keys) (h : History)
      (timely : (last_key ≤ a.dedup_now) × (last_request ≤ a.rate_now)) (room : length keys < 8_192)
      (follows : IsFollowed last_key last_request s keys h) where
    fresh-is_repeated : is_fresh a s ≡ not (is_repeated a keys)
    unfolding Key.pre_process
    fresh-is_repeated = elim (Option-cases (build_dedup_key a.incoming)) [
      | inl e ↦ ground arith
      | inr (key, e) ↦ ground (
        arith,
        e,
        Filter.check-answer dedup_settings key last_key a.dedup_now s.dedup keys timely.0 room
            follows.filter,
      )
    ]

    limited-refused :
        (user : ℕ) → is_limited user a s ≡ Spec.spec_refuses rate_limits user a.rate_now h
    limited-refused user = Spec.check-refuses rate_limits user timely.1 follows.limiter

    arrive-filter_follows :
        Filter.Represents dedup_settings a.dedup_now (arrive c a s).state.dedup (accept a keys)
    arrive-filter_follows = elim (Option-cases (build_dedup_key a.incoming)) [
      | inl e ↦
          let same : (arrive c a s).state.dedup ≡ s.dedup =
            arrive-filter ∙ (unfold Key.pre_process in ground (arith, e)) in
          let accepted : accept a keys ≡ keys = ground (arith, e) in
          rw (same, accepted)
            (filter-later last_key a.dedup_now s.dedup keys timely.0 follows.filter)
      | inr (key, e) ↦
          let checked = Dedup.check_and_register dedup_settings key a.dedup_now s.dedup in
          let same : (arrive c a s).state.dedup ≡ checked.1 =
            arrive-filter ∙ (unfold Key.pre_process in ground (arith, e)) in
          let accepted : accept a keys ≡ (if checked.0 then (key, a.dedup_now) ∷ keys else keys) =
            ground (
              arith,
              e,
              Filter.check-answer dedup_settings key last_key a.dedup_now s.dedup keys timely.0 room
                  follows.filter,
            ) in
          rw (same, accepted)
            (Filter.check-Represents dedup_settings key last_key a.dedup_now s.dedup keys timely.0
              room follows.filter)
    ]

    arrive-limiter_follows :
        Spec.Represents rate_limits a.rate_now
          (arrive c a s).state.rate
          (add_request (arrive c a s).handled a h)
    arrive-limiter_follows = elim (Option-cases (from_user a.update)) [
      | inl e ↦
          let no_request : add_request (arrive c a s).handled a h ≡ h = ground (arith, e) in
          rw no_request (
            limiter-later last_request a.rate_now s.rate (arrive c a s).state.rate h timely.1
              (ap (λ r. r.user_requests) (arrive-nobody e)) follows.limiter)
      | inr (user, e) ↦ elim (arrive-limiter user e) [
        | inl (out, same) ↦
            let no_request : add_request (arrive c a s).handled a h ≡ h = ground (arith, e, out) in
            rw no_request (
              limiter-later last_request a.rate_now s.rate (arrive c a s).state.rate h timely.1
                (ap (λ r. r.user_requests) same) follows.limiter)
        | inr (decided, tracked) ↦
            let refused = Spec.spec_refuses rate_limits user.id a.rate_now h in
            let extended : add_request (arrive c a s).handled a h
                ≡ Spec.extend refused (user.id, a.rate_now) h =
              ground (arith, e, decided, limited-refused user.id) in
            rw extended (
              limiter-later a.rate_now a.rate_now
                (RateLimit.check_and_track rate_limits user.id a.rate_now s.rate).1
                (arrive c a s).state.rate (Spec.extend refused (user.id, a.rate_now) h)
                (omega arith) tracked
                (Spec.check-Represents rate_limits user.id timely.1 follows.limiter))
      ]
    ]

    arrive-IsFollowed :
        IsFollowed a.dedup_now a.rate_now
          (arrive c a s).state
          (accept a keys)
          (add_request (arrive c a s).handled a h)
    arrive-IsFollowed = record { filter = arrive-filter_follows; limiter = arrive-limiter_follows }

    length-accept : length (accept a keys) ≤ length keys + 1
    length-accept = ground arith

module _ (c : Access.Config) (a : Arrival) (user : ℕ) where
  answers_from :
      (es : List Event) (last_key last_request : ℕ) (s : State) (keys : Keys) (h : History)
      → IsTimely last_key last_request es a
      → length keys + length es < 8_192
      → IsFollowed last_key last_request s keys h
      → (is_fresh a (perform_all c es s) ≡ not (is_repeated a (accepted_keys es keys)))
        × (is_limited user a (perform_all c es s)
            ≡ Spec.spec_refuses rate_limits user a.rate_now (handled_requests c es s h))
  unfolding perform_all accepted_keys handled_requests
  answers_from [] last_key last_request s keys h timely room follows = (
    fresh-is_repeated c a s last_key last_request keys h timely (omega (arith, room)) follows,
    limited-refused c a s last_key last_request keys h timely (omega (arith, room)) follows user,
  )
  answers_from (arrival b ∷ es) last_key last_request s keys h timely room follows =
      let now : (last_key ≤ b.dedup_now) × (last_request ≤ b.rate_now) = (timely.0, timely.1) in
      let free : length keys < 8_192 = omega (arith, room) in
      answers_from es b.dedup_now b.rate_now (arrive c b s).state (accept b keys)
        (add_request (arrive c b s).handled b h) timely.2
        (omega (arith, room, length-accept c b s last_key last_request keys h now free follows))
        (arrive-IsFollowed c b s last_key last_request keys h now free follows)
  answers_from (cleanup now ∷ es) last_key last_request s keys h timely room follows =
      answers_from es last_key last_request (perform c (cleanup now) s) keys h timely
        (omega (arith, room)) (record { filter = follows.filter; limiter = follows.limiter })

  -- After fewer updates than the filter has room for, the filter and the limiter answer by the
  -- histories.
  pub answers :
      (es : List Event)
      → IsTimely 0 0 es a
      → length es < 8_192
      → (is_fresh a (perform_all c es initial) ≡ not (is_known es a))
        × (is_limited user a (perform_all c es initial)
            ≡ Spec.spec_refuses rate_limits user a.rate_now (handled_requests c es initial []))
  answers es timely room = answers_from es 0 0 initial [] [] timely (omega (arith, room)) (record {
    filter = Filter.initial-Represents dedup_settings;
    limiter = Spec.initial-Represents rate_limits;
  })
