-- ===== src/Updates/Retries.antt =====
-- The attempts at the registry and what follows their failures, of
-- pytmbot/adapters/docker/updates.py.
use pytmbot.Base.{
  ℕ, zero, suc, ◌+◌, ◌≤◌, ◌<◌, ◌≡◌, ◌⊎◌, refl, true, false, List, [], ◌∷◌, arith, take, All,
  Bool-cases, inl, inr,
}
use pytmbot.Base.Text.{codes_eq}
use pytmbot.Updates.Tags.{Packages, valid_tags}
use pytmbot.Updates.Fetch.{
  max_retries, Attempt, received, refused, timed_out, network_error, other_error, Fetched, tags,
  failed, is_transient, fetch_loop, read_entries, max_tags,
}

-- The registry's answers to so many attempts, from the given one on.
unfoldable pub answers : (ℕ → Attempt) → ℕ → ℕ → List Attempt
answers attempts first zero = []
answers attempts first (suc n) = attempts first ∷ answers attempts (first + 1) n

-- What one answer means for the fetching that it ends.
abbrev pub concluded : {V : Type 0} → Packages V → Attempt → Fetched V
concluded p (received results) = tags (valid_tags p (read_entries (take max_tags results)))
concluded p (refused status numeric) = failed (refused status numeric)
concluded p timed_out = failed timed_out
concluded p network_error = failed network_error
concluded p other_error = failed other_error

module _ {V : Type 0} (p : Packages V) (registry : List ℕ → ℕ → Attempt) (url : List ℕ) where
  fetch_loop_lem :
      (left first : ℕ)
      → (n : ℕ) × (n ≤ left)
        × ((fetch_loop p registry url (suc left) first).1 ≡ n + 1)
        × ((fetch_loop p registry url (suc left) first).0 ≡ concluded p (registry url (first + n)))
        × All (λ a. is_transient a ≡ true) (answers (registry url) first n)
        × ((n ≡ left) ⊎ (is_transient (registry url (first + n)) ≡ false))
  unfolding fetch_loop answers
  fetch_loop_lem zero first = (0, ground arith, ground arith, ground arith, tt, inl refl)
  fetch_loop_lem (suc left) first = elim (Bool-cases (is_transient (registry url first))) [
    | inr final ↦ (
      0,
      ground arith,
      ground (arith, final),
      ground (arith, final),
      tt,
      inr (ground (arith, final)),
    )
    | inl transient ↦
        let (n, few, calls, result, before, end) = fetch_loop_lem left (first + 1) in
        let moved : first + 1 + n ≡ first + suc n = omega arith in
        (
          suc n,
          omega (arith, few),
          ground (arith, transient, calls),
          ground (arith, transient, result, moved),
          (transient, before),
          ground (arith, end, moved),
        )
  ]

-- The fetching from one URL ends after at most three attempts, with the answer to its last one; all
-- before it failed in a way that is worth another attempt, and the last one did not, unless it is the
-- third. A status from 400 to 499 is never tried again.
pub fetch_ends :
    {V : Type 0} (p : Packages V) (registry : List ℕ → ℕ → Attempt) (url : List ℕ)
    → let (result, calls) = fetch_loop p registry url max_retries 0 in
      (n : ℕ) × (n < max_retries)
      × (calls ≡ n + 1)
      × (result ≡ concluded p (registry url n))
      × All (λ a. is_transient a ≡ true) (answers (registry url) 0 n)
      × ((n ≡ 2) ⊎ (is_transient (registry url n) ≡ false))
fetch_ends p registry url =
    let (n, few, calls, result, before, end) = fetch_loop_lem p registry url 2 0 in
    (n, omega (arith, few), calls, ground (arith, result), before, ground (arith, end))
