-- ===== src/Updates/Fetch.antt =====
-- The fetching of remote tags: `RateLimitHandler`, `_UpdaterTagCache`, `_build_repository_urls`,
-- `_fetch_tags_from_registry_url` and `_fetch_remote_tags_for_repository` of
-- pytmbot/adapters/docker/updates.py. The registry is a function: what it answers to each attempt at
-- each repository name. The readings of `time` are in microseconds.
use pytmbot.Base.{
  ℕ, zero, suc, ◌+◌, ◌*◌, Bool, true, false, not, ◌&&◌, ◌||◌, Option, none, some, List, [], ◌∷◌,
  ◌++◌, leb, ltb, take, if◌then◌else◌,
}
use pytmbot.Base.Eq.{◌==◌, nat_eq}
use pytmbot.Base.Dict.{Dict, lookup, insert, erase}
use pytmbot.Base.Text.{strip, codes_eq}
use pytmbot.Updates.Tags.{TagInfo, Packages, EnhancedTagInfo, valid_tags}

abbrev pub seconds : ℕ → ℕ
seconds n = n * 1_000_000

-- `RATE_LIMIT_BACKOFF`, `CACHE_TTL`, `MAX_RETRIES` and `MAX_TAGS_PER_REPO`
abbrev pub rate_limit_backoff : ℕ
rate_limit_backoff = seconds 300

abbrev pub cache_ttl : ℕ
cache_ttl = seconds 3_600

abbrev pub max_retries : ℕ
max_retries = 3

abbrev pub max_tags : ℕ
max_tags = 100

-- `RateLimitHandler`
pub record Backoff : Type 0 where
  pub last_rate_limit : ℕ
  pub consecutive_limits : ℕ

unfoldable pub should_skip_request : ℕ → Backoff → Bool
should_skip_request now b =
    if ltb 5 b.consecutive_limits
    then ltb now (b.last_rate_limit + rate_limit_backoff * 2)
    else ltb now (b.last_rate_limit + rate_limit_backoff)

abbrev pub handle_rate_limit : ℕ → Backoff → Backoff
handle_rate_limit now b = record {
  last_rate_limit = now;
  consecutive_limits = b.consecutive_limits + 1;
}

abbrev pub handle_success : Backoff → Backoff
handle_success b = record b { consecutive_limits = 0 }

pub record Stats : Type 0 where
  pub api_calls : ℕ
  pub cache_hits : ℕ
  pub cache_misses : ℕ
  pub rate_limits : ℕ
  pub errors : ℕ

-- How an attempt ends: with the results, of which `none` is an entry that is not read as a tag; with
-- a status that is an error, and whether its `Retry-After` is a number or missing; with a timeout;
-- with an error of the network or of the JSON; with any other exception.
pub data Attempt : Type 0 where
  received : List (Option TagInfo) → Attempt
  refused : (status : ℕ) → Bool → Attempt
  timed_out network_error other_error : Attempt

abbrev pub read_entries : List (Option TagInfo) → List TagInfo
read_entries [] = []
read_entries (none ∷ entries) = read_entries entries
read_entries (some info ∷ entries) = info ∷ read_entries entries

-- How the fetching from one URL ends; `exhausted` is the `None` after the loop.
pub data Fetched (V : Type 0) : Type 0 where
  tags : List (EnhancedTagInfo V) → Fetched V
  failed : Attempt → Fetched V
  exhausted : Fetched V

-- Whether another attempt may follow an error.
abbrev pub is_transient : Attempt → Bool
is_transient (received entries) = false
is_transient (refused status numeric) = leb 500 status
is_transient timed_out = true
is_transient network_error = true
is_transient other_error = false

-- `get_valid`: an entry that is too old is removed.
unfoldable pub get_valid :
    {V : Type 0}
    → List ℕ
    → ℕ
    → Dict (List ℕ) (List (EnhancedTagInfo V) × ℕ)
    → Option (List (EnhancedTagInfo V)) × Dict (List ℕ) (List (EnhancedTagInfo V) × ℕ)
get_valid repo current_time entries = elim (lookup repo entries) [
  | none ↦ (none, entries)
  | some (cached_tags, timestamp) ↦
      if ltb current_time (timestamp + cache_ttl)
      then (some cached_tags, entries)
      else (none, erase repo entries)
]

-- `strip("/")`
abbrev skip_slashes : List ℕ → List ℕ
skip_slashes [] = []
skip_slashes (c ∷ text) = if c == b'/' then skip_slashes text else c ∷ text

abbrev drop_slashes : List ℕ → List ℕ
drop_slashes [] = []
drop_slashes (c ∷ text) = elim (drop_slashes text) [
  | [] ↦ (if c == b'/' then [] else c ∷ [])
  | d ∷ rest ↦ c ∷ d ∷ rest
]

abbrev has_slash : List ℕ → Bool
has_slash [] = false
has_slash (c ∷ text) = c == b'/' || has_slash text

abbrev library_prefix : List ℕ
library_prefix = b'l' ∷ b'i' ∷ b'b' ∷ b'r' ∷ b'a' ∷ b'r' ∷ b'y' ∷ b'/' ∷ []

-- `_build_repository_urls`, by the name between the constant parts of each URL.
unfoldable pub build_repository_urls : List ℕ → List (List ℕ)
unfolding strip
build_repository_urls repo =
    let normalized = drop_slashes (skip_slashes (strip repo)) in
    if has_slash normalized
    then normalized ∷ []
    else normalized ∷ (library_prefix ++ normalized) ∷ []

-- The attributes of the updater: its backoff, its cache and its statistics.
pub record Updater (V : Type 0) : Type 0 where
  pub backoff : Backoff
  pub entries : Dict (List ℕ) (List (EnhancedTagInfo V) × ℕ)
  pub stats : Stats

-- How the visit of the URLs ends: with tags; without, and whether there was an error; or with the
-- exception of a 429, or of a `Retry-After` that is no number.
pub data Visited (V : Type 0) : Type 0 where
  found : List (EnhancedTagInfo V) → Visited V
  nothing : Bool → Visited V
  rate_limited invalid_header : Visited V

-- The times of one call: at the test of the backoff, at the reading of the cache, at a 429 and at the
-- storing.
pub record Times : Type 0 where
  pub skip : ℕ
  pub current : ℕ
  pub limited : ℕ
  pub stored : ℕ

-- The tags that a call returns, or its exception.
pub data Answer (V : Type 0) : Type 0 where
  returned : List (EnhancedTagInfo V) → Answer V
  raised : (is_429 : Bool) → Answer V

module _ {V : Type 0} (p : Packages V) (registry : List ℕ → ℕ → Attempt) where
  -- The loop of `_fetch_tags_from_registry_url`, for so many attempts from the given one on; with the
  -- number of calls that it makes.
  unfoldable pub fetch_loop : List ℕ → ℕ → ℕ → Fetched V × ℕ
  unfolding valid_tags
  fetch_loop url zero attempt = (exhausted, 0)
  fetch_loop url (suc left) attempt =
      let (later, calls) = fetch_loop url left (attempt + 1) in
      elim (registry url attempt) [
        | received results ↦ (tags (valid_tags p (read_entries (take max_tags results))), 1)
        | refused status numeric ↦
            if leb 500 status && not (left == 0)
            then (later, calls + 1)
            else (failed (refused status numeric), 1)
        | timed_out ↦ if left == 0 then (failed timed_out, 1) else (later, calls + 1)
        | network_error ↦ if left == 0 then (failed network_error, 1) else (later, calls + 1)
        | other_error ↦ (failed other_error, 1)
      ]

  unfoldable pub fetch_tags_from_url : List ℕ → Updater V → Fetched V × Updater V
  unfolding fetch_loop
  fetch_tags_from_url url u =
      let (result, calls) = fetch_loop url max_retries 0 in
      (result, record u { stats = record u.stats { api_calls = u.stats.api_calls + calls } })

  abbrev pub count_error : Updater V → Updater V
  count_error u = record u { stats = record u.stats { errors = u.stats.errors + 1 } }

  abbrev limit_rate : ℕ → Updater V → Updater V
  limit_rate now u = record u { backoff = handle_rate_limit now u.backoff }

  abbrev count_limit : Updater V → Updater V
  count_limit u = record u { stats = record u.stats { rate_limits = u.stats.rate_limits + 1 } }

  -- The loop over the URLs; the flag is whether an error came before.
  unfoldable pub visit : ℕ → List (List ℕ) → Bool → Updater V → Visited V × Updater V
  unfolding fetch_tags_from_url
  visit now [] error u = (nothing error, u)
  visit now (url ∷ urls) error u =
      let (result, u1) = fetch_tags_from_url url u in
      elim result [
        | tags [] ↦ visit now urls error u1
        | tags (t ∷ ts) ↦ (found (t ∷ ts), record u1 { backoff = handle_success u1.backoff })
        | exhausted ↦ visit now urls error u1
        | failed why ↦ elim why [
          | refused status numeric ↦
              if status == 429
              then if numeric
                then (rate_limited, limit_rate now (count_limit u1))
                else (invalid_header, count_limit u1)
              else visit now urls true u1
          | _ ↦ visit now urls true (count_error u1)
        ]
      ]

  abbrev store : List ℕ → List (EnhancedTagInfo V) → ℕ → Updater V → Updater V
  store repo ts now u = record u { entries = insert repo (ts, now) u.entries }

  -- `_fetch_remote_tags_for_repository`
  unfoldable pub fetch_remote_tags : Times → List ℕ → Updater V → Answer V × Updater V
  unfolding should_skip_request get_valid build_repository_urls visit
  fetch_remote_tags times repo u =
      if should_skip_request times.skip u.backoff
      then (returned [], u)
      else let (cached, entries) = get_valid repo times.current u.entries in
        let u1 : Updater V = record u { entries = entries } in
        elim cached [
          | some ts ↦ (
            returned ts,
            record u1 { stats = record u.stats { cache_hits = u.stats.cache_hits + 1 } },
          )
          | none ↦
              let u2 : Updater V = record u1 {
                stats = record u.stats { cache_misses = u.stats.cache_misses + 1 };
              } in
              let (visited, u3) = visit times.limited (build_repository_urls repo) false u2 in
              elim visited [
                | found ts ↦ (returned ts, store repo ts times.stored u3)
                | nothing error ↦ (returned [], if error then store repo [] times.stored u3 else u3)
                | rate_limited ↦ (raised true, u3)
                | invalid_header ↦ (raised false, u3)
              ]
        ]
