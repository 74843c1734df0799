-- ===== src/Updates/Silence.antt =====
-- When pytmbot/adapters/docker/updates.py does not ask the registry.
use pytmbot.Base.{
  ℕ, ◌+◌, ◌<◌, ◌≡◌, ◌⊎◌, refl, Bool, true, false, List, [], ◌∷◌, arith, Bool-cases, inl, inr,
}
use pytmbot.Base.Text.{codes_eq}
use pytmbot.Base.Eq.{◌==◌, nat_eq}
use pytmbot.Updates.Tags.{Packages, EnhancedTagInfo}
use pytmbot.Updates.Fetch.{
  rate_limit_backoff, should_skip_request, Attempt, received, refused, timed_out, network_error,
  other_error, Fetched, tags, failed, exhausted, build_repository_urls, Updater, rate_limited,
  Times, returned, raised, fetch_tags_from_url, visit, fetch_remote_tags, get_valid, count_error,
}

abbrev is_refused : Attempt → Bool
is_refused (refused status numeric) = true
is_refused _ = false

-- What the loop over the URLs does with the end of a fetching.
data Next {V : Type 0} (result : Fetched V) : Type 0 where
  go_on : (result ≡ tags []) ⊎ (result ≡ exhausted) → Next result
  stop :
      (t : EnhancedTagInfo V) (ts : List (EnhancedTagInfo V)) → result ≡ tags (t ∷ ts) → Next result
  limited : (numeric : Bool) → result ≡ failed (refused 429 numeric) → Next result
  other_status :
      (status : ℕ) (numeric : Bool)
      → result ≡ failed (refused status numeric)
      → (status == 429) ≡ false
      → Next result
  other_failure : (why : Attempt) → result ≡ failed why → is_refused why ≡ false → Next result

refused_next :
    {V : Type 0} (result : Fetched V) (status : ℕ) (numeric : Bool)
    → result ≡ failed (refused status numeric)
    → Next result
refused_next result status numeric e = elim (Bool-cases (status == 429)) [
  | inl hit ↦ limited numeric (ground (arith, e, hit))
  | inr miss ↦ other_status status numeric e miss
]

next : {V : Type 0} (result : Fetched V) → Next result
next (tags []) = go_on (inl refl)
next (tags (t ∷ ts)) = stop t ts refl
next exhausted = go_on (inr refl)
next (failed (refused status numeric)) =
    refused_next (failed (refused status numeric)) status numeric refl
next (failed (received results)) = other_failure (received results) refl refl
next (failed timed_out) = other_failure timed_out refl refl
next (failed network_error) = other_failure network_error refl refl
next (failed other_error) = other_failure other_error refl refl

module _ {V : Type 0} (p : Packages V) (registry : List ℕ → ℕ → Attempt) where
  -- A visit that ends with a 429 records its time.
  visit-rate_limited :
      (now : ℕ) (urls : List (List ℕ)) (error : Bool) (u : Updater V)
      → (visit p registry now urls error u).0 ≡ rate_limited
      → (visit p registry now urls error u).1.backoff.last_rate_limit ≡ now
  unfolding visit
  visit-rate_limited now [] error u h = absurd (ground (arith, h))
  visit-rate_limited now (url ∷ urls) error u h =
      elim (next (fetch_tags_from_url p registry url u).0) [
        | go_on (inl e) ↦ ground (arith, h, e, visit-rate_limited now urls error u1)
        | go_on (inr e) ↦ ground (arith, h, e, visit-rate_limited now urls error u1)
        | stop t ts e ↦ absurd (ground (arith, h, e))
        | limited numeric e ↦ ground (arith, h, e)
        | other_status status numeric e miss ↦
            ground (arith, h, e, miss, visit-rate_limited now urls true u1)
        | other_failure why e different ↦
            failure (visit-rate_limited now urls true (count_error p registry u1)) why e different
      ]
    where
      u1 : Updater V
      u1 = (fetch_tags_from_url p registry url u).1

      failure :
          ((visit p registry now urls true (count_error p registry u1)).0 ≡ rate_limited
            → (visit p registry now urls true (count_error p registry u1)).1.backoff.last_rate_limit
              ≡ now)
          → (why : Attempt) → (fetch_tags_from_url p registry url u).0 ≡ failed why
          → is_refused why ≡ false
          → (visit p registry now (url ∷ urls) error u).1.backoff.last_rate_limit ≡ now
      failure rest (refused status numeric) e f = absurd (ground (arith, f))
      failure rest why e f = ground (arith, h, e, f, rest)

  fetch_remote_tags-rate_limited :
      (times : Times) (repo : List ℕ) (u : Updater V)
      → (fetch_remote_tags p registry times repo u).0 ≡ raised true
      → (fetch_remote_tags p registry times repo u).1.backoff.last_rate_limit ≡ times.limited
  unfolding fetch_remote_tags get_valid
  fetch_remote_tags-rate_limited times repo u h =
      let u1 : Updater V = record u { entries = (get_valid repo times.current u.entries).1 } in
      let u2 : Updater V = record u1 {
        stats = record u.stats { cache_misses = u.stats.cache_misses + 1 };
      } in
      ground (arith, h, visit-rate_limited times.limited (build_repository_urls repo) false u2)

  silent :
      (times : Times) (repo : List ℕ) (u : Updater V)
      → times.skip < u.backoff.last_rate_limit + rate_limit_backoff
      → fetch_remote_tags p registry times repo u ≡ (returned [], u)
  unfolding fetch_remote_tags should_skip_request
  silent times repo u h = ground (arith, h)

-- After a 429 with a `Retry-After` that is a number or missing, no repository is asked for five
-- minutes: every call returns no tags and changes nothing.
pub rate_limit_silences :
    {V : Type 0} (p : Packages V) (registry registry' : List ℕ → ℕ → Attempt) (times times' : Times)
    (repo repo' : List ℕ) (u : Updater V)
    → let (answer, u') = fetch_remote_tags p registry times repo u in
      answer ≡ raised true
      → times'.skip < times.limited + rate_limit_backoff
      → fetch_remote_tags p registry' times' repo' u' ≡ (returned [], u')
rate_limit_silences p registry registry' times times' repo repo' u h early =
    let u' = (fetch_remote_tags p registry times repo u).1 in
    let at_limit = fetch_remote_tags-rate_limited p registry times repo u h in
    silent p registry' times' repo' u' (omega (arith, at_limit, early))
