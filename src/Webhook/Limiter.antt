-- ===== src/Webhook/Limiter.antt =====
-- The limiter of requests by address: `RateLimit` of pytmbot/webhook.py. An address is its text. The
-- readings of `time` and of `datetime.now` are in microseconds.
use pytmbot.Base.{
  ℕ, zero, suc, ◌+◌, ◌*◌, max, String, Bool, true, false, not, ◌&&◌, Option, none, some, List, [],
  ◌∷◌, ◌++◌, leb, ltb, length, if◌then◌else◌,
}
use pytmbot.Base.Dict.{Dict, lookup, contains, insert, erase}
use pytmbot.Base.Eq.{string_eq}

abbrev pub seconds : ℕ → ℕ
seconds n = n * 1_000_000

-- `BAN_TTL_SECONDS`
abbrev pub ban_ttl : ℕ
ban_ttl = seconds 3_600

-- The attributes that stay: the period is in microseconds.
pub record Limits : Type 0 where
  pub limit : ℕ
  pub period : ℕ
  pub ban_threshold : ℕ
  pub max_tracked_ips : ℕ
  pub has_state_file : Bool

-- `__init__`: the cap is at least 128.
unfoldable pub create : (limit period ban_threshold max_tracked_ips : ℕ) → Bool → Limits
create limit period ban_threshold max_tracked_ips has_state_file = record {
  limit = limit;
  period = seconds period;
  ban_threshold = ban_threshold;
  max_tracked_ips = max 128 max_tracked_ips;
  has_state_file = has_state_file;
}

-- `file` has the entries of the state file that are a text with a time; `none` where there is no
-- file, or another one.
pub record State : Type 0 where
  pub requests : Dict String (List ℕ)
  pub banned_ips : Dict String ℕ
  pub last_seen : Dict String ℕ
  pub last_cleanup : ℕ
  pub loaded : Bool
  pub last_persist : ℕ
  pub file : Option (Dict String ℕ)

abbrev pub fresh : Option (Dict String ℕ) → State
fresh file = record {
  requests = [];
  banned_ips = [];
  last_seen = [];
  last_cleanup = 0;
  loaded = false;
  last_persist = 0;
  file = file;
}

-- A call of `_persist_state`: its reading of `time`, and whether the file could be written.
pub record Saving : Type 0 where
  pub time : ℕ
  pub written : Bool

-- The loop of `_restore_state` over the entries of the file.
unfoldable pub restore_bans : ℕ → ℕ → Dict String ℕ → State → State
restore_bans now time [] s = s
restore_bans now time ((ip, banned_at) ∷ bans) s = restore_bans now time bans (
    if leb now (banned_at + ban_ttl)
    then record s {
      banned_ips = insert ip banned_at s.banned_ips;
      last_seen = insert ip time s.last_seen;
    }
    else s)

module _ (l : Limits) where
  -- `_ensure_state_loaded`
  unfoldable pub ensure_loaded : ℕ → ℕ → State → State
  unfolding restore_bans
  ensure_loaded now time s =
      if s.loaded
      then s
      else if l.has_state_file
      then elim s.file [
        | none ↦ record s { loaded = true }
        | some bans ↦ record (restore_bans now time bans s) { loaded = true }
      ]
      else record s { loaded = true }

  -- `_persist_state`, which writes at most once in five seconds.
  unfoldable pub persist : Saving → State → State
  persist k s =
      if not l.has_state_file
      then s
      else if ltb k.time (s.last_persist + seconds 5)
      then s
      else record s {
        last_persist = k.time;
        file = if k.written then some s.banned_ips else s.file;
      }

-- `_drop_ip_state`
unfoldable pub drop_ip : String → State → State
drop_ip ip s = record s {
  requests = erase ip s.requests;
  banned_ips = erase ip s.banned_ips;
  last_seen = erase ip s.last_seen;
}

unfoldable pub drop_ips : List String → State → State
unfolding drop_ip
drop_ips [] s = s
drop_ips (ip ∷ ips) s = drop_ips ips (drop_ip ip s)

-- `min(self._last_seen, key=...)` of a dictionary that is not empty: the first of the least.
unfoldable pub oldest : String → ℕ → Dict String ℕ → String
oldest ip seen [] = ip
oldest ip seen ((jp, t) ∷ d) =
    oldest (if ltb t seen then jp else ip) (if ltb t seen then t else seen) d

-- `_evict_oldest_ip`
unfoldable pub evict_oldest_ip : State → State
unfolding oldest drop_ip
evict_oldest_ip s = elim s.last_seen [ [] ↦ s | (ip, t) ∷ d ↦ drop_ip (oldest ip t d) s ]

-- `while len(self._last_seen) > self.max_tracked_ips`, for so many rounds at most.
unfoldable pub evict_while : ℕ → ℕ → State → State
evict_while cap zero s = s
evict_while cap (suc rounds) s =
    let rest = evict_while cap rounds (evict_oldest_ip s) in
    if ltb cap (length s.last_seen) then rest else s

-- The addresses whose ban is over, as `_cleanup_state` collects them.
unfoldable pub expired_bans : ℕ → Dict String ℕ → List String
expired_bans now [] = []
expired_bans now ((ip, banned_at) ∷ d) =
    let rest = expired_bans now d in if ltb (banned_at + ban_ttl) now then ip ∷ rest else rest

unfoldable pub lift_bans : List String → State → State
lift_bans [] s = s
lift_bans (ip ∷ ips) s = lift_bans ips (record s { banned_ips = erase ip s.banned_ips })

-- The addresses without requests and ban.
unfoldable pub stale_ips : Dict String ℕ → Dict String (List ℕ) → List String
stale_ips banned [] = []
stale_ips banned ((ip, times) ∷ d) =
    let rest = stale_ips banned d in
    elim times [ [] ↦ (if contains ip banned then rest else ip ∷ rest) | _ ∷ _ ↦ rest ]

abbrev pub is_empty : List String → Bool
is_empty [] = true
is_empty (_ ∷ _) = false

-- The readings of one call of `is_banned`: at the restoring, at the cleanup, and at the test.
pub record Readings : Type 0 where
  pub restored_now : ℕ
  pub restored_time : ℕ
  pub time : ℕ
  pub cleanup_now : ℕ
  pub cleanup_saving : Saving
  pub now : ℕ
  pub saving : Saving

module _ (l : Limits) where
  unfoldable pub sweep : ℕ → Saving → State → State
  unfolding evict_while
  sweep now k s =
      let expired = expired_bans now s.banned_ips in
      let s1 = lift_bans expired s in
      let stale = stale_ips s1.banned_ips s1.requests in
      let s2 = drop_ips stale s1 in
      let s3 = evict_while l.max_tracked_ips (length s2.last_seen) s2 in
      if is_empty expired && is_empty stale then s3 else persist l k s3

  -- `_cleanup_state`, at the reading of `time` that it is given and one of `datetime.now`.
  unfoldable pub cleanup_state : ℕ → ℕ → Saving → State → State
  unfolding sweep
  cleanup_state time now k s =
      if ltb time (s.last_cleanup + seconds 60) && leb (length s.last_seen) l.max_tracked_ips
      then s
      else sweep now k (record s { last_cleanup = time })

  unfoldable pub is_banned : Readings → String → State → Bool × State
  unfolding cleanup_state
  is_banned k ip s =
      let s1 = ensure_loaded l k.restored_now k.restored_time s in
      let s2 = cleanup_state k.time k.cleanup_now k.cleanup_saving s1 in
      elim (lookup ip s2.banned_ips) [
        | none ↦ (false, s2)
        | some banned_at ↦
            if ltb (banned_at + ban_ttl) k.now
            then (false, persist l k.saving (record s2 { banned_ips = erase ip s2.banned_ips }))
            else (true, s2)
      ]

-- `while request_times and request_times[0] < current_time - self.period: popleft`
unfoldable pub drop_old : ℕ → ℕ → List ℕ → List ℕ
drop_old period time [] = []
drop_old period time (t ∷ ts) =
    let rest = drop_old period time ts in if ltb (t + period) time then rest else t ∷ ts

abbrev pub times_of : String → State → List ℕ
times_of ip s = elim (lookup ip s.requests) [ none ↦ [] | some ts ↦ ts ]

-- The readings of one call of `is_rate_limited`: those before the test of a ban, its own, and those
-- of a new ban.
pub record CallReadings : Type 0 where
  pub restored_now : ℕ
  pub restored_time : ℕ
  pub time : ℕ
  pub cleanup_now : ℕ
  pub cleanup_saving : Saving
  pub ban_test : Readings
  pub ban_now : ℕ
  pub ban_saving : Saving

module _ (l : Limits) where
  abbrev pub make_room : String → State → State
  make_room ip s =
      if not (contains ip s.requests)
        && not (contains ip s.last_seen)
        && leb l.max_tracked_ips (length s.last_seen)
      then evict_oldest_ip s
      else s

  -- The part of `is_rate_limited` for an address that is not banned.
  unfoldable pub count_request : CallReadings → String → State → Bool × State
  unfolding drop_old persist
  count_request k ip s =
      let times = drop_old l.period k.time (times_of ip s) in
      if leb l.ban_threshold (length times)
      then (
        true,
        persist l k.ban_saving (record s {
          requests = insert ip times s.requests;
          banned_ips = insert ip k.ban_now s.banned_ips;
        }),
      )
      else if leb l.limit (length times)
      then (true, record s { requests = insert ip times s.requests })
      else (false, record s { requests = insert ip (times ++ k.time ∷ []) s.requests })

  unfoldable pub is_rate_limited : CallReadings → String → State → Bool × State
  unfolding count_request
  is_rate_limited k ip s =
      let s1 = ensure_loaded l k.restored_now k.restored_time s in
      let s2 = make_room ip (cleanup_state l k.time k.cleanup_now k.cleanup_saving s1) in
      let s3 : State = record s2 { last_seen = insert ip k.time s2.last_seen } in
      let (banned, s4) = is_banned l k.ban_test ip s3 in
      if banned then (true, s4) else count_request k ip s4
