-- ===== src/Monitor.antt =====
-- pytmbot/plugins/monitor/methods.py and utils.py: the alerts of the monitor plugin, its budget of
-- notifications and its interval. Times are whole microseconds;
-- usages and temperatures are numbers in one unit, and the clock does not go back within an event. A
-- failed sending is an argument.
pub mod Cycles
pub mod Events
pub mod Index
pub mod Alerts
pub mod Limits
mod Tests
use pytmbot.Base.{
  ℕ, ◌+◌, ◌-◌, ◌*◌, Bool, true, false, not, ◌&&◌, ◌||◌, Option, none, some, List, [], ◌∷◌, ◌++◌,
  ltb, leb, max, min, if◌then◌else◌,
}
use pytmbot.Base.Dict.{Dict, lookup, insert, erase}
use pytmbot.Base.Eq.{◌==◌, nat_eq}
use pytmbot.Base.Text.{lower, codes_eq}

-- `ResourceThresholds` and the settings that are read later.
pub record Config : Type 0 where
  pub cpu_temp : ℕ
  pub gpu_temp : ℕ
  pub disk_temp : ℕ
  pub pch_temp : ℕ
  pub cpu_usage : ℕ
  pub memory_usage : ℕ
  pub disk_usage : ℕ
  pub load : ℕ
  pub max_notifications : ℕ
  pub reset_window : ℕ
  pub configured_interval : ℕ

-- An entry of `active_events`.
pub record Event : Type 0 where
  pub event_type : List ℕ
  pub start_time : ℕ
  pub resolved : Bool

-- What a message is about.
pub data Notice : Type 0 where
  alert : List ℕ → Notice
  normalized : List ℕ → ℕ → Notice

-- `drawn` counts the calls of `uuid4`.
pub record State : Type 0 where
  pub active_events : Dict ℕ Event
  pub active_event_ids : Dict (List ℕ) ℕ
  pub drawn : ℕ
  pub notification_count : ℕ
  pub max_notifications_reached : Bool
  pub next_notification_reset_at : ℕ
  pub check_interval : ℕ

abbrev pub initial : Config → State
initial c = record {
  active_events = [];
  active_event_ids = [];
  drawn = 0;
  notification_count = 0;
  max_notifications_reached = false;
  next_notification_reset_at = 0;
  check_interval = max 1 c.configured_interval;
}

-- `_maybe_reset_notification_budget`
unfoldable pub maybe_reset_notification_budget : ℕ → State → State
maybe_reset_notification_budget now s =
    if ltb 0 s.next_notification_reset_at && leb s.next_notification_reset_at now
    then record s {
      notification_count = 0;
      max_notifications_reached = false;
      next_notification_reset_at = 0;
    }
    else s

-- The text `disk` in another text.
abbrev starts_with : List ℕ → List ℕ → Bool
starts_with [] text = true
starts_with (c ∷ word) [] = false
starts_with (c ∷ word) (d ∷ text) = c == d && starts_with word text

unfoldable pub occurs_in : List ℕ → List ℕ → Bool
occurs_in word [] = starts_with word []
occurs_in word (c ∷ text) = starts_with word (c ∷ text) || occurs_in word text

module _ (c : Config) where
  -- `_send_notification`, with whether the sending works.
  unfoldable pub send_notification : Bool → Bool → ℕ → Notice → State → List Notice × State
  unfolding maybe_reset_notification_budget
  send_notification false works now notice s = (if works then notice ∷ [] else [], s)
  send_notification true works now notice s =
      let s' = maybe_reset_notification_budget now s in
      if leb c.max_notifications s'.notification_count
      then ([], record s' { max_notifications_reached = true })
      else if works
      then (
        notice ∷ [],
        record s' {
          notification_count = s'.notification_count + 1;
          next_notification_reset_at = now + c.reset_window;
        },
      )
      else ([], s')

  -- `_resolve_temperature_threshold`, with the words that the sensor's name is searched for.
  unfoldable pub temperature_threshold : List ℕ → ℕ
  unfolding occurs_in
  temperature_threshold sensor =
      let has : List ℕ → Bool = λ word. occurs_in word (lower sensor) in
      if has (b'g' ∷ b'p' ∷ b'u' ∷ [])
        || has (b'a' ∷ b'm' ∷ b'd' ∷ b'g' ∷ b'p' ∷ b'u' ∷ [])
        || has (b'n' ∷ b'v' ∷ b'i' ∷ b'd' ∷ b'i' ∷ b'a' ∷ [])
      then c.gpu_temp
      else if has (b'n' ∷ b'v' ∷ b'm' ∷ b'e' ∷ [])
          || has (b'd' ∷ b'i' ∷ b's' ∷ b'k' ∷ [])
          || has (b's' ∷ b's' ∷ b'd' ∷ [])
      then c.disk_temp
      else if has (b'p' ∷ b'c' ∷ b'h' ∷ [])
      then c.pch_temp
      else c.cpu_temp

  -- `_adjust_check_interval`: no load is an exception.
  unfoldable pub adjust_check_interval : Option ℕ → State → State
  adjust_check_interval none s = s
  adjust_check_interval (some load) s = record s {
    check_interval =
        if ltb c.load load then min (s.check_interval * 2) 30 else max 1 c.configured_interval;
  }

abbrev pub is_active : List ℕ → Event → Bool
is_active t e = e.event_type == t && not e.resolved

-- The search of `_find_active_event_id`.
unfoldable pub search_events : List ℕ → Dict ℕ Event → Option ℕ
search_events t [] = none
search_events t ((id, e) ∷ d) = if is_active t e then some id else search_events t d

abbrev pub search_and_index : List ℕ → State → Option ℕ → Option ℕ × State
search_and_index t s none = (none, s)
search_and_index t s (some id) =
    (some id, record s { active_event_ids = insert t id s.active_event_ids })

abbrev pub is_unresolved : Option Event → Bool
is_unresolved none = false
is_unresolved (some e) = not e.resolved

unfoldable pub search_afresh : List ℕ → State → Option ℕ × State
unfolding search_events
search_afresh t s = search_and_index t s (search_events t s.active_events)

abbrev pub use_index : List ℕ → State → Option ℕ → Option ℕ × State
use_index t s none = search_afresh t s
use_index t s (some id) =
    if is_unresolved (lookup id s.active_events)
    then (some id, s)
    else search_afresh t (record s { active_event_ids = erase t s.active_event_ids })

-- `_find_active_event_id`
unfoldable pub find_active_event_id : List ℕ → State → Option ℕ × State
unfolding search_afresh
find_active_event_id t s = use_index t s (lookup t s.active_event_ids)

-- `EventTracker.create_event`, and the entry of the index.
unfoldable pub create_event : (ℕ → ℕ) → ℕ → List ℕ → State → State
create_event uuid4 now t s = record s {
  active_events =
      insert (uuid4 s.drawn) (record { event_type = t; start_time = now; resolved = false })
        s.active_events;
  active_event_ids = insert t (uuid4 s.drawn) s.active_event_ids;
  drawn = s.drawn + 1;
}

-- The events that `_resolve_event_and_notify` leaves: it marks those of the type and deletes them.
unfoldable pub drop_active : List ℕ → Dict ℕ Event → Dict ℕ Event
drop_active t [] = []
drop_active t ((id, e) ∷ d) =
    let rest = drop_active t d in if is_active t e then rest else (id, e) ∷ rest

-- Whether an identifier belongs to an event that is resolved.
unfoldable pub is_dropped : List ℕ → Option ℕ → Dict ℕ Event → Bool
is_dropped t none d = false
is_dropped t (some i) [] = false
is_dropped t (some i) ((id, e) ∷ d) = (id == i && is_active t e) || is_dropped t (some i) d

-- The messages that an event is over: none for a duration of zero.
unfoldable pub resolutions : Bool → ℕ → List ℕ → Dict ℕ Event → List Notice
resolutions works now t [] = []
resolutions works now t ((id, e) ∷ d) =
    let rest = resolutions works now t d in
    if is_active t e && not (now == e.start_time) && works
    then normalized t (now - e.start_time) ∷ rest
    else rest

-- One usage or temperature: its type of event, and whether it is over its threshold; the time, and
-- whether a sending works.
pub record Observation : Type 0 where
  pub of_type : List ℕ
  pub is_over : Bool
  pub now : ℕ
  pub works : Bool

module _ (c : Config) (uuid4 : ℕ → ℕ) where
  unfoldable pub notify_if_new : Observation → Option ℕ × State → List Notice × State
  unfolding create_event send_notification
  notify_if_new o (some id, s) = ([], s)
  notify_if_new o (none, s) =
      send_notification c true o.works o.now (alert o.of_type)
        (create_event uuid4 o.now o.of_type s)

  -- `_create_or_notify_event`
  unfoldable pub create_or_notify_event : Observation → State → List Notice × State
  unfolding find_active_event_id notify_if_new
  create_or_notify_event o s = notify_if_new o (find_active_event_id o.of_type s)

  -- `_resolve_event_and_notify`
  unfoldable pub resolve_event_and_notify : Observation → State → List Notice × State
  unfolding drop_active resolutions is_dropped
  resolve_event_and_notify o s = (
    resolutions o.works o.now o.of_type s.active_events,
    record s {
      active_events = drop_active o.of_type s.active_events;
      active_event_ids =
          if is_dropped o.of_type (lookup o.of_type s.active_event_ids) s.active_events
          then erase o.of_type s.active_event_ids
          else s.active_event_ids;
    },
  )

  -- The body of `_check_cpu_alert` and its three siblings.
  unfoldable pub observe : Observation → State → List Notice × State
  unfolding create_or_notify_event resolve_event_and_notify
  observe o s = if o.is_over then create_or_notify_event o s else resolve_event_and_notify o s

  unfoldable pub observe_all : List Observation → State → State
  unfolding observe
  observe_all [] s = s
  observe_all (o ∷ os) s = observe_all os (observe o s).1
