-- ===== src/Updates/Summary.antt =====
-- What the response of a check in pytmbot/adapters/docker/updates.py says of its repositories.
use pytmbot.Base.{suc, ◌+◌, ◌≤◌, ◌<◌, ◌≡◌, ◌↔◌, refl, true, List, [], ◌∷◌, arith, length}
use pytmbot.Updates.Tags.{TagInfo, Packages}
use pytmbot.Updates.Fetch.{Answer, returned, raised}
use pytmbot.Updates.Check.{
  RepoData, process_repo, success, rate_limited, error, count_where, has_error, is_fine, is_limited,
  summarize,
}

-- The results of the repositories, each with the tags of its local images and the answer to its
-- fetching.
unfoldable pub results : {V : Type 0} → Packages V → List (List TagInfo × Answer V) → List RepoData
results p [] = []
results p ((infos, answer) ∷ repos) = process_repo p infos answer ∷ results p repos

length-results :
    {V : Type 0} (p : Packages V) (repos : List (List TagInfo × Answer V))
    → length (results p repos) ≡ length repos
unfolding results
length-results p [] = refl
length-results p ((infos, answer) ∷ repos) = ground (arith, length-results p repos)

process_repo-limited :
    {V : Type 0} (p : Packages V) (infos : List TagInfo) (answer : Answer V)
    → is_limited (process_repo p infos answer) ≡ true
    → has_error (process_repo p infos answer) ≡ true
unfolding process_repo
process_repo-limited p infos (raised b) h = refl
process_repo-limited p infos (returned []) h = refl
process_repo-limited p infos (returned (t ∷ ts)) h = ground (arith, h)

count_where-total :
    (ds : List RepoData) → count_where is_fine ds + count_where has_error ds ≡ length ds
unfolding count_where
count_where-total [] = omega arith
count_where-total (d ∷ ds) = ground (arith, count_where-total ds)

count_where-limited :
    {V : Type 0} (p : Packages V) (repos : List (List TagInfo × Answer V))
    → count_where is_limited (results p repos) ≤ count_where has_error (results p repos)
unfolding count_where results
count_where-limited p [] = omega arith
count_where-limited p ((infos, answer) ∷ repos) =
    ground (arith, process_repo-limited p infos answer, count_where-limited p repos)

-- Each repository is counted once, as processed or as failed. The status is success exactly if none
-- failed, that of a rate limit exactly if one was answered with a 429, and an error exactly if none
-- was, and none was processed.
pub summarize_lem :
    {V : Type 0} (p : Packages V) (repo : List TagInfo × Answer V)
    (repos : List (List TagInfo × Answer V))
    → let ds = results p (repo ∷ repos) in
      let r = summarize ds in
      (r.repositories_processed + r.repositories_failed ≡ suc (length repos))
      × ((r.status ≡ success) ↔ (r.repositories_failed ≡ 0))
      × ((r.status ≡ rate_limited) ↔ (0 < count_where is_limited ds))
      × ((r.status ≡ error) ↔ ((count_where is_limited ds ≡ 0) × (r.repositories_processed ≡ 0)))
unfolding summarize results
summarize_lem p (infos, answer) repos = ground (
  arith,
  count_where-total (results p ((infos, answer) ∷ repos)),
  count_where-limited p ((infos, answer) ∷ repos),
  length-results p repos,
)
