-- ===== src/Dedup.antt =====
-- pytmbot/middleware/update_dedup.py: the bounded cache of recent updates, over any type of keys. The
-- readings of `time.monotonic()` and the TTL, floats in the source, are numbers of one fine unit
-- (nanoseconds, the clock's resolution); rounding of floats is not modelled. The methods hold one
-- lock, so each is one step.
pub mod Key
pub mod Prune
pub mod Capacity
pub mod Spec
mod Tests
use pytmbot.Base.{
  ℕ, ◌+◌, Bool, true, false, not, ◌&&◌, ◌||◌, Option, none, some, List, [], ◌∷◌, ◌++◌, leb, ltb,
  nat_beq, length, if◌then◌else◌,
}
use pytmbot.Base.Dict.{Dict, lookup, insert, erase}
use pytmbot.Base.Eq.{Eq}

pub record Settings : Type 0 where
  pub ttl : ℕ
  pub max_entries : ℕ

-- The two `ValueError`s of `__init__`.
pub data InitError : Type 0 where
  ttl_not_positive max_entries_not_positive : InitError

pub data Checked : Type 0 where
  accepted_settings : Settings → Checked
  refused_settings : InitError → Checked

unfoldable pub check_settings : ℕ → ℕ → Checked
check_settings ttl max_entries =
    if leb ttl 0
    then refused_settings ttl_not_positive
    else if leb max_entries 0
    then refused_settings max_entries_not_positive
    else accepted_settings (record { ttl = ttl; max_entries = max_entries })

pub record State (K : Type 0) : Type 0 where
  pub entries : Dict K ℕ
  pub queue : List (K × ℕ)
  pub dropped_duplicates : ℕ
  pub accepted_updates : ℕ

abbrev pub is_some_eq : Option ℕ → ℕ → Bool
is_some_eq none x = false
is_some_eq (some y) x = nat_beq y x

-- A live entry: `expires_at is not None and expires_at > now`.
abbrev pub is_live : Option ℕ → ℕ → Bool
is_live none now = false
is_live (some expiry) now = ltb now expiry

module _ {K : Type 0} ⦃e : Eq K⦄ where
  -- `_prune_locked`: the loop over the queue, with the entries that it deletes.
  unfoldable pub prune : Settings → ℕ → List (K × ℕ) → Dict K ℕ → List (K × ℕ) × Dict K ℕ
  prune c now [] entries = ([], entries)
  prune c now ((key, expiry) ∷ queue) entries =
      let current = lookup key entries in
      let is_stale = not (is_some_eq current expiry) in
      let is_expired = is_some_eq current expiry && leb expiry now in
      let is_over_capacity = ltb c.max_entries (length entries) in
      let rest = prune c now queue (
        if is_expired || (is_over_capacity && is_some_eq current expiry)
        then erase key entries
        else entries) in
      if is_stale || is_expired || is_over_capacity then rest else ((key, expiry) ∷ queue, entries)

  unfoldable pub pruned : Settings → ℕ → State K → State K
  pruned c now s =
      let (queue, entries) = prune c now s.queue s.entries in
      record s { entries = entries; queue = queue }

  -- The accepting end of `_check_and_register`, before its second pruning.
  unfoldable pub register : Settings → K → ℕ → State K → State K
  register c key now s = record s {
    entries = insert key (now + c.ttl) s.entries;
    queue = s.queue ++ (key, now + c.ttl) ∷ [];
    accepted_updates = s.accepted_updates + 1;
  }

  -- `_check_and_register`: true if the update goes on.
  unfoldable pub check_and_register : Settings → K → ℕ → State K → Bool × State K
  unfolding pruned register
  check_and_register c key now s =
      let s' = pruned c now s in
      if is_live (lookup key s'.entries) now
      then (false, record s' { dropped_duplicates = s'.dropped_duplicates + 1 })
      else (true, pruned c now (register c key now s'))

  -- `get_stats` reads sizes and counters; `cleanup` empties the cache.
  unfoldable pub get_stats : State K → ℕ × ℕ × ℕ × ℕ
  get_stats s = (length s.entries, length s.queue, s.dropped_duplicates, s.accepted_updates)

  unfoldable pub cleanup : State K → State K
  cleanup s = record s { entries = []; queue = [] }
