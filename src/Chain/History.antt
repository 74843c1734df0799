-- ===== src/Chain/History.antt =====
-- The chain of pytmbot/pytmbot_instance.py over many updates: the histories of what the filter for
-- duplicates accepted and of what was handled, with the times.
use pytmbot.Base.{ℕ, ◌-◌, ◌≤◌, Bool, true, false, none, some, List, [], ◌∷◌, if◌then◌else◌}
use pytmbot.Base.Eq.{nat_eq}
use pytmbot.Telegram.{proceed, cancel_update}
use pytmbot.RateLimit as RateLimit
use pytmbot.RateLimit.Spec as Spec
use pytmbot.RateLimit.Spec.{History}
use pytmbot.Dedup as Dedup
use pytmbot.Dedup.Key as Key
use pytmbot.Dedup.Key.{DedupKey, key_eq, build_dedup_key}
use pytmbot.Dedup.Spec.{is_duplicate}
use pytmbot.Dedup.Capacity as Capacity
use pytmbot.Access as Access
use pytmbot.Access.{from_user}
use pytmbot.Access.Allowed as Allowed
use pytmbot.Chain.{dedup_settings, rate_limits, Arrival, State, arrive}

abbrev pub initial : State
initial = record { dedup = Capacity.initial; access = Allowed.initial; rate = Spec.initial }

-- Updates, and rounds of the cleanup of the access control.
pub data Event : Type 0 where
  arrival : Arrival → Event
  cleanup : ℕ → Event

unfoldable pub perform : Access.Config → Event → State → State
unfolding arrive
perform c (arrival a) s = (arrive c a s).state
perform c (cleanup now) s = record s { access = Access.clean_up now s.access }

unfoldable pub perform_all : Access.Config → List Event → State → State
unfolding perform
perform_all c [] s = s
perform_all c (e ∷ es) s = perform_all c es (perform c e s)

-- What the filter is set up to promise: two minutes, in the unit of its readings, and 8192 keys.
abbrev promised : Dedup.Settings
promised = record { ttl = 120_000_000_000; max_entries = 8_192 }

-- Keys of updates with the times of their acceptance, newest first.
abbrev pub Keys : Type 0
Keys = List (DedupKey × ℕ)

-- The update's key was accepted less than the TTL, two minutes, ago.
abbrev pub is_repeated : Arrival → Keys → Bool
is_repeated a keys = elim (build_dedup_key a.incoming) [
  | none ↦ false
  | some key ↦ is_duplicate promised key a.dedup_now keys
]

-- An update that has a key and is not repeated is accepted.
abbrev pub accept : Arrival → Keys → Keys
accept a keys = elim (build_dedup_key a.incoming) [
  | none ↦ keys
  | some key ↦ if is_repeated a keys then keys else (key, a.dedup_now) ∷ keys
]

unfoldable pub accepted_keys : List Event → Keys → Keys
accepted_keys [] keys = keys
accepted_keys (arrival a ∷ es) keys = accepted_keys es (accept a keys)
accepted_keys (cleanup now ∷ es) keys = accepted_keys es keys

-- A handled update of a user is a request of this user.
abbrev pub add_request : Bool → Arrival → History → History
add_request handled a h = elim (from_user a.update) [
  | none ↦ h
  | some user ↦ if handled then (user.id, a.rate_now) ∷ h else h
]

-- The updates that came to the handlers: of whom, and when.
unfoldable pub handled_requests : Access.Config → List Event → State → History → History
handled_requests c [] s h = h
handled_requests c (arrival a ∷ es) s h =
    handled_requests c es (perform c (arrival a) s) (add_request (arrive c a s).handled a h)
handled_requests c (cleanup now ∷ es) s h = handled_requests c es (perform c (cleanup now) s) h

-- The filter for duplicates does not know the update.
abbrev pub is_fresh : Arrival → State → Bool
is_fresh a s = elim (Key.pre_process dedup_settings a.incoming a.dedup_now s.dedup).0 [
  | proceed ↦ true
  | cancel_update ↦ false
]

-- The user has the limit's number of requests in the window.
abbrev pub is_limited : ℕ → Arrival → State → Bool
is_limited user a s = (RateLimit.check_and_track rate_limits user a.rate_now s.rate).0.0

-- The clocks of the filter and of the limiter do not go back from update to update, the last of
-- which is this one.
abbrev pub IsTimely : ℕ → ℕ → List Event → Arrival → Type 0
IsTimely last_key last_request [] a = (last_key ≤ a.dedup_now) × (last_request ≤ a.rate_now)
IsTimely last_key last_request (arrival b ∷ es) a =
    (last_key ≤ b.dedup_now) × (last_request ≤ b.rate_now) × IsTimely b.dedup_now b.rate_now es a
IsTimely last_key last_request (cleanup now ∷ es) a = IsTimely last_key last_request es a

-- What the histories say of an update after the events: whether the filter knows it, and how many
-- requests of a user are in the window of ten seconds.
abbrev pub is_known : List Event → Arrival → Bool
is_known es a = is_repeated a (accepted_keys es [])

abbrev pub recent_requests : Access.Config → List Event → Arrival → ℕ → ℕ
recent_requests c es a user =
    Spec.accepted_since user (a.rate_now - 10_000_000) (handled_requests c es initial [])
