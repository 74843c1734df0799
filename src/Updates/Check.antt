-- ===== src/Updates/Check.antt =====
-- The check of all repositories: `_check_updates_async` of pytmbot/adapters/docker/updates.py, after
-- the fetching of the remote tags.
use pytmbot.Base.{
  ℕ, ◌+◌, Bool, true, false, not, ◌&&◌, Option, none, some, List, [], ◌∷◌, ◌++◌, ltb, take,
  if◌then◌else◌,
}
use pytmbot.Base.Eq.{◌==◌, nat_eq}
use pytmbot.Updates.Tags.{TagInfo, Stamp, naive, Packages, EnhancedTagInfo, is_valid, analyze_tag}
use pytmbot.Updates.Compare.{earlier, UpdateInfo, max_updates, find_updates}
use pytmbot.Updates.Fetch.{Answer, returned, raised}

-- What `process_repo` returns: the updates, and the error, if there is one, with whether it is that
-- of a 429.
pub record RepoData : Type 0 where
  pub updates : List UpdateInfo
  pub error : Bool
  pub is_429 : Bool

abbrev pub failure : Bool → RepoData
failure is_429 = record { updates = []; error = true; is_429 = is_429 }

-- An update with the key of the sort: the time of the remote tag, or the earliest one without a time
-- zone where there is none; `none` is the exception of `isoparse`.
abbrev pub Keyed : Type 0
Keyed = Stamp × UpdateInfo

module _ {V : Type 0} (p : Packages V) where
  abbrev pub key_of : UpdateInfo → Option Stamp
  key_of u = elim u.created_at_remote [ [] ↦ some (naive 0) | c ∷ text ↦ p.isoparse (c ∷ text) ]

  unfoldable pub keys_of : List UpdateInfo → Option (List Keyed)
  keys_of [] = some []
  keys_of (u ∷ us) = elim (key_of u) [
    | none ↦ none
    | some key ↦ elim (keys_of us) [ none ↦ none | some rest ↦ some ((key, u) ∷ rest) ]
  ]

  unfoldable pub insert_update : Keyed → List Keyed → Option (List Keyed)
  insert_update k [] = some (k ∷ [])
  insert_update k (j ∷ js) =
      let rest = insert_update k js in
      elim (earlier k.0 j.0) [
        | none ↦ none
        | some false ↦ some (k ∷ j ∷ js)
        | some true ↦ elim rest [ none ↦ none | some us ↦ some (j ∷ us) ]
      ]

  unfoldable pub sort_keyed : List Keyed → Option (List Keyed)
  unfolding insert_update
  sort_keyed [] = some []
  sort_keyed (k ∷ ks) = elim (sort_keyed ks) [ none ↦ none | some us ↦ insert_update k us ]

  abbrev values : List Keyed → List UpdateInfo
  values [] = []
  values ((key, u) ∷ ks) = u ∷ values ks

  -- `repo_updates.sort(...)`: the latest first.
  unfoldable pub sort_updates : List UpdateInfo → Option (List UpdateInfo)
  unfolding keys_of sort_keyed
  sort_updates us = elim (keys_of us) [
    | none ↦ none
    | some ks ↦ elim (sort_keyed ks) [ none ↦ none | some sorted ↦ some (values sorted) ]
  ]

  -- The updates of a local tag: none where it is not valid or the search raises.
  abbrev updates_of : EnhancedTagInfo V → List (EnhancedTagInfo V) → List UpdateInfo
  updates_of s remotes =
      if is_valid s then elim (find_updates p s remotes) [ none ↦ [] | some us ↦ us ] else []

  unfoldable pub repo_updates : List TagInfo → List (EnhancedTagInfo V) → List UpdateInfo
  unfolding analyze_tag find_updates
  repo_updates [] remotes = []
  repo_updates (info ∷ infos) remotes =
      updates_of (analyze_tag p info) remotes ++ repo_updates infos remotes

  -- `process_repo`, for the tags of the local images and what the fetching answered.
  unfoldable pub process_repo : List TagInfo → Answer V → RepoData
  unfolding repo_updates sort_updates
  process_repo infos (raised is_429) = failure is_429
  process_repo infos (returned []) = failure false
  process_repo infos (returned (t ∷ ts)) = elim (sort_updates (repo_updates infos (t ∷ ts))) [
    | none ↦ failure false
    | some sorted ↦ record { updates = take max_updates sorted; error = false; is_429 = false }
  ]

-- `UpdaterStatus` of a check that was not broken off.
pub data UpdaterStatus : Type 0 where
  success partial_success rate_limited error validation_error : UpdaterStatus

pub record UpdaterResponse : Type 0 where
  pub status : UpdaterStatus
  pub repositories_processed : ℕ
  pub repositories_failed : ℕ

unfoldable pub count_where : (RepoData → Bool) → List RepoData → ℕ
count_where test [] = 0
count_where test (d ∷ ds) = let rest = count_where test ds in if test d then rest + 1 else rest

abbrev pub has_error : RepoData → Bool
has_error d = d.error

abbrev pub is_fine : RepoData → Bool
is_fine d = not d.error

abbrev pub is_limited : RepoData → Bool
is_limited d = d.is_429

-- The end of `_check_updates_async`, from the results of the repositories; there is a result for each
-- repository.
unfoldable pub summarize : List RepoData → UpdaterResponse
unfolding count_where
summarize [] = record {
  status = validation_error;
  repositories_processed = 0;
  repositories_failed = 0;
}
summarize (d ∷ ds) =
    let failed = count_where has_error (d ∷ ds) in
    let processed = count_where is_fine (d ∷ ds) in
    let status : UpdaterStatus =
      if ltb 0 (count_where is_limited (d ∷ ds))
      then rate_limited
      else if ltb 0 failed && processed == 0
      then error
      else if ltb 0 failed
      then partial_success
      else success in
    record { status = status; repositories_processed = processed; repositories_failed = failed }
