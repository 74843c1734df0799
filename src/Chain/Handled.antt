-- ===== src/Chain/Handled.antt =====
-- Which updates come through the chain of pytmbot/pytmbot_instance.py to the handlers.
use pytmbot.Base.{
  ◌≡◌, ◌⊎◌, refl, true, false, not, ◌&&◌, none, some, List, [], ◌∷◌, ◌<◌, ltb, length, arith, inl,
  inr,
}
use pytmbot.Telegram.{User}
use pytmbot.RateLimit as RateLimit
use pytmbot.RateLimit.Spec as Spec
use pytmbot.Access as Access
use pytmbot.Access.{member, from_user}
use pytmbot.Access.Allowed as Allowed
use pytmbot.Access.Entries.{block_of}
use pytmbot.Access.Gate.{lets_pass}
use pytmbot.Base.Dict.{lookup}
use pytmbot.Base.Eq.{nat_eq}
use pytmbot.Dedup.Key.{key_eq}
use pytmbot.Chain.History.{
  initial, Event, arrival, cleanup, perform, perform_all, is_fresh, is_limited, IsTimely, is_known,
  recent_requests,
}
use pytmbot.Chain.Answers.{answers}
use pytmbot.Chain.{
  default_middlewares, insert_entry, sort_entries, Arrival, State, pre_process, pass, arrive,
}

default-order : sort_entries default_middlewares ≡ default_middlewares
unfolding sort_entries insert_entry
default-order = refl

module _ (c : Access.Config) where
  -- The access control's part of the state changes as by one of its own events, or not at all.
  arrive-access :
      (a : Arrival) (s : State)
      → let s' = (arrive c a s).state in
        (s'.access ≡ s.access)
        ⊎ (s'.access
            ≡ Allowed.perform c
                (Allowed.update a.update a.access_now a.access_later a.access_last)
                s.access)
  unfolding arrive pass sort_entries insert_entry pre_process Allowed.perform
  arrive-access a s = ground arith

  perform-access :
      (e : Event) (s : State)
      → Allowed.SparesAllowed c s.access
      → Allowed.SparesAllowed c (perform c e s).access
  unfolding perform Access.clean_up Allowed.perform
  perform-access (cleanup now) s h =
      Allowed.perform-SparesAllowed c (Allowed.cleanup now) s.access h
  perform-access (arrival a) s h = elim (arrive-access a s) [
    | inl e ↦ rw e h
    | inr e ↦ rw e (
        Allowed.perform-SparesAllowed c
          (Allowed.update a.update a.access_now a.access_later a.access_last) s.access h)
  ]

  perform_all-access :
      (es : List Event) (s : State)
      → Allowed.SparesAllowed c s.access
      → Allowed.SparesAllowed c (perform_all c es s).access
  unfolding perform_all
  perform_all-access [] s h = h
  perform_all-access (e ∷ es) s h = perform_all-access es (perform c e s) (perform-access e s h)

  -- An update of a user who is allowed and not blocked.
  arrive-handled :
      (a : Arrival) (user : User) (s : State)
      → member user.id c.allowed_user_ids ≡ true
      → from_user a.update ≡ some user
      → block_of user.id s.access ≡ none
      → (arrive c a s).handled ≡ (is_fresh a s && not (is_limited user.id a s))
  unfolding arrive pass sort_entries insert_entry pre_process Access.pre_process
      RateLimit.pre_process RateLimit.process_user RateLimit.handle_rate_limit
  arrive-handled a user s allowed from free = ground (
    arith,
    allowed,
    from,
    free,
    Allowed.allowed_passes c user.id a.update a.access_now a.access_later a.access_last s.access
        allowed free,
  )

-- After fewer than 8192 updates of any users and any cleanups, if the clocks of the filter and of the
-- limiter do not go back from update to update, an update of an allowed user comes to the handlers
-- exactly if no update with its key was accepted less than two minutes ago, and fewer than eight
-- updates of this user were handled in the last ten seconds: access control stops no allowed user.
-- Both are read off the history: the accepted keys with their times, and the handled updates with
-- theirs.
pub arrive-handled_lem :
    (c : Access.Config) (es : List Event) (a : Arrival) (user : User)
    → member user.id c.allowed_user_ids ≡ true
    → from_user a.update ≡ some user
    → IsTimely 0 0 es a
    → length es < 8_192
    → (arrive c a (perform_all c es initial)).handled
      ≡ (not (is_known es a) && ltb (recent_requests c es a user.id) 8)
unfolding lookup Spec.spec_refuses
arrive-handled_lem c es a user allowed from timely room = ground (
  arith,
  arrive-handled c a user (perform_all c es initial) allowed from
      (perform_all-access c es initial (λ v m. refl) user.id allowed),
  answers c a user.id es timely room,
)

-- An update that the filter knows costs its user nothing: it is not handled and not answered, and
-- neither an attempt nor a request is counted. A request is only counted for an update that the filter
-- does not know and that access control lets pass.
pub stopped_is_free :
    (c : Access.Config) (a : Arrival) (s : State)
    → let o = arrive c a s in
      ((is_fresh a s ≡ true)
        ⊎ ((o.handled ≡ false)
            × (o.calls ≡ [])
            × (o.state.access ≡ s.access)
            × (o.state.rate ≡ s.rate)))
      × ((o.state.rate ≡ s.rate)
          ⊎ ((is_fresh a s ≡ true)
              × (lets_pass
                    (Access.pre_process c a.update a.access_now a.access_later a.access_last
                      s.access).ending
                  ≡ true)))
unfolding arrive pass sort_entries insert_entry pre_process
stopped_is_free c a s = ground arith
