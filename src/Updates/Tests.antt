-- ===== src/Updates/Tests.antt =====
-- Runs of the search for newer images on small inputs, and the theorems at concrete inputs.
use mathlib.Core.List.{Permᴰ}
use pytmbot.Base.{
  ℕ, zero, suc, ◌+◌, ◌*◌, ◌-◌, ◌/◌, ◌<◌, ◌≡◌, ◌⊎◌, ◌↔◌, inl, refl, true, false, none, some, List,
  [], ◌∷◌, arith, map, take, length, ltb, All, if◌then◌else◌,
}
use pytmbot.Base.Dict.{lookup}
use pytmbot.Base.Eq.{◌==◌, nat_eq}
use pytmbot.Base.Text.{skip_spaces, drop_trailing, is_space, lower, codes_eq}
use pytmbot.Updates.Patterns.{matches_sha, match_semver}
use pytmbot.Updates.Tags.{TagInfo, aware, Packages, EnhancedTagInfo, analyze_tag, valid_tags}
use pytmbot.Updates.Compare.{
  UpdateInfo, update_of, max_updates, is_compatible, compatible_tags, find_updates,
}
use pytmbot.Updates.Compatible.{IsUpdateFor}
use pytmbot.Updates.Newest.{IsSorted}
use pytmbot.Updates.Best.{IsOrder, find_updates_lem}
use pytmbot.Updates.Fetch.{
  Answer, seconds, Attempt, received, refused, timed_out, Updater, Times, returned,
  should_skip_request, build_repository_urls, fetch_loop, fetch_remote_tags, is_transient,
  max_retries,
}
use pytmbot.Updates.Retries.{answers, concluded, fetch_ends}
use pytmbot.Updates.Silence.{rate_limit_silences}
use pytmbot.Updates.Failures.{failure_is_remembered}
use pytmbot.Updates.Local.{count, parse_normalized}

abbrev number : ℕ → List ℕ → ℕ
number value [] = value
number value (c ∷ text) = number (if c == b'.' then value else value * 10 + (c - b'0')) text

-- Versions of three digits, and times of creation by the length of their texts.
abbrev packages : Packages ℕ
packages = record {
  parse = λ text. some (number 0 text);
  major = λ v. v / 100;
  older = λ v w. ltb v w;
  isoparse = λ text. elim text [ [] ↦ none | c ∷ rest ↦ some (aware (length rest)) ];
}

packages-IsOrder : IsOrder packages
packages-IsOrder = record {
  asymmetric = λ v w h. ground (arith, h);
  transitive = λ u v w h k. ground (arith, h, k);
}

abbrev tag : List ℕ → List ℕ → TagInfo
tag name created_at = record { name = name; created_at = created_at; digest = none }

abbrev local : TagInfo
local = tag (b'v' ∷ b'1' ∷ b'.' ∷ b'2' ∷ b'.' ∷ b'3' ∷ []) (b'a' ∷ [])

abbrev remotes : List TagInfo
remotes =
    tag (b'1' ∷ b'.' ∷ b'2' ∷ b'.' ∷ b'4' ∷ []) []
    ∷ tag (b'2' ∷ b'.' ∷ b'0' ∷ b'.' ∷ b'0' ∷ []) (b'b' ∷ [])
    ∷ tag (b'1' ∷ b'.' ∷ b'3' ∷ b'.' ∷ b'0' ∷ b'-' ∷ b'r' ∷ b'c' ∷ b'1' ∷ []) (b'b' ∷ [])
    ∷ []

-- The release candidate is read as its release.
found :
    find_updates packages (analyze_tag packages local) (valid_tags packages remotes)
    ≡ some (
        map (update_of (analyze_tag packages local)) (
          analyze_tag packages
            (tag (b'1' ∷ b'.' ∷ b'3' ∷ b'.' ∷ b'0' ∷ b'-' ∷ b'r' ∷ b'c' ∷ b'1' ∷ []) (b'b' ∷ []))
          ∷ analyze_tag packages (tag (b'1' ∷ b'.' ∷ b'2' ∷ b'.' ∷ b'4' ∷ []) [])
          ∷ []))
unfolding find_updates analyze_tag drop_trailing skip_spaces is_space lower matches_sha match_semver
    valid_tags
found = refl

find_updates_lem_example :
    let s = analyze_tag packages local in
    let rs = valid_tags packages remotes in
    (sorted : List (EnhancedTagInfo ℕ)) × (find_updates packages s rs
      ≡ some (map (update_of s) (take max_updates sorted)))
    × IsSorted packages sorted
    × Permᴰ sorted (compatible_tags packages s rs)
    × All (λ t. IsUpdateFor packages s t) sorted
    × All (λ t. (is_compatible packages s t ≡ true) ↔ IsUpdateFor packages s t) rs
unfolding analyze_tag drop_trailing skip_spaces is_space lower matches_sha match_semver
find_updates_lem_example = find_updates_lem packages local remotes packages-IsOrder (inl refl)

-- A registry out of order, and one that answers the third attempt.
abbrev broken : List ℕ → ℕ → Attempt
broken url attempt = timed_out

abbrev slow : List ℕ → ℕ → Attempt
slow url zero = timed_out
slow url (suc zero) = refused 503 true
slow url (suc (suc n)) = received (some local ∷ none ∷ [])

abbrev limiting : List ℕ → ℕ → Attempt
limiting url attempt = refused 429 true

abbrev repo : List ℕ
repo = b'a' ∷ b'p' ∷ b'p' ∷ []

fetch_ends_example :
    let (result, calls) = fetch_loop packages slow repo max_retries 0 in
    (n : ℕ) × (n < max_retries)
    × (calls ≡ n + 1)
    × (result ≡ concluded packages (slow repo n))
    × All (λ a. is_transient a ≡ true) (answers (slow repo) 0 n)
    × ((n ≡ 2) ⊎ (is_transient (slow repo n) ≡ false))
fetch_ends_example = fetch_ends packages slow repo

abbrev updater : Updater ℕ
updater = record {
  backoff = record { last_rate_limit = 0; consecutive_limits = 0 };
  entries = [];
  stats = record { api_calls = 0; cache_hits = 0; cache_misses = 0; rate_limits = 0; errors = 0 };
}

abbrev at_time : ℕ → Times
at_time t = record { skip = t; current = t; limited = t; stored = t }

rate_limit_silences_example :
    let u' = (fetch_remote_tags packages limiting (at_time (seconds 1_000)) repo updater).1 in
    fetch_remote_tags packages slow (at_time (seconds 1_299)) (b'd' ∷ b'b' ∷ []) u'
    ≡ (returned [], u')
unfolding fetch_remote_tags lookup drop_trailing skip_spaces is_space
rate_limit_silences_example =
    rate_limit_silences packages limiting slow (at_time (seconds 1_000)) (at_time (seconds 1_299))
      repo (b'd' ∷ b'b' ∷ []) updater refl (omega arith)

failure_is_remembered_example :
    let (answer, u') = fetch_remote_tags packages broken (at_time (seconds 1_000)) repo updater in
    let (answer', u'') = fetch_remote_tags packages slow (at_time (seconds 4_599)) repo u' in
    (answer ≡ returned [])
    × (u'.stats.api_calls ≡ updater.stats.api_calls + 3 * length (build_repository_urls repo))
    × (answer' ≡ returned [])
    × (u''.stats.api_calls ≡ u'.stats.api_calls)
unfolding should_skip_request lookup
failure_is_remembered_example =
    failure_is_remembered packages broken slow (at_time (seconds 1_000)) (at_time (seconds 4_599))
      repo updater (λ url attempt. refl) refl refl refl (omega arith)

abbrev update_at : List ℕ → List ℕ → UpdateInfo
update_at name created_at = record {
  current_tag = local.name;
  newer_tag = name;
  created_at_local = local.created_at;
  created_at_remote = created_at;
  current_digest = "";
}

-- The tag of an image `org/app`.
abbrev org_app : List ℕ
org_app = b'o' ∷ b'r' ∷ b'g' ∷ b'/' ∷ b'a' ∷ b'p' ∷ b'p' ∷ b':' ∷ b'1' ∷ []

-- Without a tag, the port of a registry is taken for one.
port :
    parse_normalized (b'h' ∷ b':' ∷ b'5' ∷ b'/' ∷ b'a' ∷ [])
    ≡ some (b'h' ∷ [], b'5' ∷ b'/' ∷ b'a' ∷ [])
unfolding parse_normalized count
port = refl

-- A repository that was limited, and one whose tags were fetched.
abbrev repos : List (List TagInfo × Answer ℕ)
repos = (local ∷ [], returned (valid_tags packages remotes)) ∷ []
