-- ===== src/Updates/Failures.antt =====
-- What a registry out of order leaves in the cache of pytmbot/adapters/docker/updates.py.
use pytmbot.Base.{
  ℕ, ◌+◌, ◌*◌, ◌<◌, ◌≡◌, refl, Bool, true, false, none, some, List, [], ◌∷◌, arith, length,
  if◌then◌else◌,
}
use pytmbot.Base.Dict.{lookup, lookup-insert}
use pytmbot.Base.Text.{codes_eq}
use pytmbot.Base.Eq.{==_refl, nat_eq, ◌==◌}
use pytmbot.Updates.Tags.{Packages}
use pytmbot.Updates.Fetch.{
  cache_ttl, should_skip_request, Attempt, received, refused, timed_out, network_error, other_error,
  failed, is_transient, build_repository_urls, Updater, nothing, Times, returned, fetch_loop,
  fetch_tags_from_url, visit, fetch_remote_tags, get_valid, count_error,
}

module _ {V : Type 0} (p : Packages V) (registry : List ℕ → ℕ → Attempt)
    (fails : (url : List ℕ) (attempt : ℕ) → is_transient (registry url attempt) ≡ true) where
  fetch_fails : (url : List ℕ) → fetch_loop p registry url 3 0 ≡ (failed (registry url 2), 3)
  unfolding fetch_loop
  fetch_fails url = ground (arith, fails url 0, fails url 1, fails url 2)

  -- Three calls for each URL, nothing found, and nothing else changed but the count of errors.
  abbrev HasFailed : ℕ → List (List ℕ) → Bool → Updater V → Type 0
  HasFailed now urls error u =
      let (visited, u') = visit p registry now urls error u in
      (visited ≡ nothing (if 0 == length urls then error else true))
      × (u'.backoff ≡ u.backoff)
      × (u'.entries ≡ u.entries)
      × (u'.stats.api_calls ≡ u.stats.api_calls + 3 * length urls)

  abbrev called : Updater V → Updater V
  called u = record u { stats = record u.stats { api_calls = u.stats.api_calls + 3 } }

  visit_step :
      (now : ℕ) (url : List ℕ) (urls : List (List ℕ)) (error : Bool) (u : Updater V) (why : Attempt)
      → registry url 2 ≡ why
      → HasFailed now urls true (called u)
      → HasFailed now urls true (count_error p registry (called u))
      → HasFailed now (url ∷ urls) error u
  unfolding visit fetch_tags_from_url
  visit_step now url urls error u (received results) e quiet loud =
      absurd (ground (arith, e, fails url 2))
  visit_step now url urls error u (refused status numeric) e quiet loud =
      ground (arith, fetch_fails url, e, fails url 2, quiet)
  visit_step now url urls error u timed_out e quiet loud = ground (arith, fetch_fails url, e, loud)
  visit_step now url urls error u network_error e quiet loud =
      ground (arith, fetch_fails url, e, loud)
  visit_step now url urls error u other_error e quiet loud = absurd (ground (arith, e, fails url 2))

  visit_fails :
      (now : ℕ) (urls : List (List ℕ)) (error : Bool) (u : Updater V) → HasFailed now urls error u
  unfolding visit
  visit_fails now [] error u = (refl, refl, refl, omega arith)
  visit_fails now (url ∷ urls) error u =
      visit_step now url urls error u (registry url 2) refl (visit_fails now urls true (called u))
        (visit_fails now urls true (count_error p registry (called u)))

build_repository_urls-nonempty :
    (repo : List ℕ) → (0 == length (build_repository_urls repo)) ≡ false
unfolding build_repository_urls
build_repository_urls-nonempty repo = ground arith

module _ {V : Type 0} (p : Packages V) (registry registry' : List ℕ → ℕ → Attempt)
    (fails : (url : List ℕ) (attempt : ℕ) → is_transient (registry url attempt) ≡ true)
    (times times' : Times) (repo : List ℕ) (u : Updater V) where
  fetch_fails_lem :
      should_skip_request times.skip u.backoff ≡ false
      → lookup repo u.entries ≡ none
      → let (answer, u') = fetch_remote_tags p registry times repo u in
        (answer ≡ returned [])
        × (u'.backoff ≡ u.backoff)
        × (lookup repo u'.entries ≡ some ([], times.stored))
        × (u'.stats.api_calls ≡ u.stats.api_calls + 3 * length (build_repository_urls repo))
  unfolding fetch_remote_tags get_valid
  fetch_fails_lem awake missing =
      let u2 : Updater V = record u {
        stats = record u.stats { cache_misses = u.stats.cache_misses + 1 };
      } in
      let (visited, backoff, entries, calls) =
        visit_fails p registry fails times.limited (build_repository_urls repo) false u2 in
      ground (
        arith,
        awake,
        missing,
        visited,
        backoff,
        entries,
        calls,
        build_repository_urls-nonempty repo,
        ==_refl repo,
        lookup-insert repo repo ([], times.stored) u.entries,
      )

  from_cache :
      (u' : Updater V)
      → should_skip_request times'.skip u'.backoff ≡ false
      → lookup repo u'.entries ≡ some ([], times.stored)
      → times'.current < times.stored + cache_ttl
      → ((fetch_remote_tags p registry' times' repo u').0 ≡ returned [])
        × ((fetch_remote_tags p registry' times' repo u').1.stats.api_calls ≡ u'.stats.api_calls)
  unfolding fetch_remote_tags get_valid
  from_cache u' awake there early = ground (arith, awake, there, early)

-- Where every attempt at the registry fails by an error of the server, of the network or of time, a
-- call for a repository that is not cached makes three calls for each of its URLs and returns no
-- tags. The failure is cached like an answer: for an hour, calls for this repository return no tags
-- and make no calls, though the registry may be in order again.
pub failure_is_remembered :
    {V : Type 0} (p : Packages V) (registry registry' : List ℕ → ℕ → Attempt) (times times' : Times)
    (repo : List ℕ) (u : Updater V)
    → ((url : List ℕ) (attempt : ℕ) → is_transient (registry url attempt) ≡ true)
    → should_skip_request times.skip u.backoff ≡ false
    → lookup repo u.entries ≡ none
    → should_skip_request times'.skip u.backoff ≡ false
    → times'.current < times.stored + cache_ttl
    → let (answer, u') = fetch_remote_tags p registry times repo u in
      let (answer', u'') = fetch_remote_tags p registry' times' repo u' in
      (answer ≡ returned [])
      × (u'.stats.api_calls ≡ u.stats.api_calls + 3 * length (build_repository_urls repo))
      × (answer' ≡ returned [])
      × (u''.stats.api_calls ≡ u'.stats.api_calls)
failure_is_remembered p registry registry' times times' repo u fails awake missing awake' early =
    let u' = (fetch_remote_tags p registry times repo u).1 in
    let (answer, backoff, stored, calls) =
      fetch_fails_lem p registry registry' fails times times' repo u awake missing in
    let still_awake : should_skip_request times'.skip u'.backoff ≡ false = rw backoff awake' in
    let (answer', calls') =
      from_cache p registry registry' fails times times' repo u u' still_awake stored early in
    (answer, calls, answer', calls')
