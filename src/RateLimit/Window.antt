-- ===== src/RateLimit/Window.antt =====
-- The deque of one user in pytmbot/middleware/rate_limit.py: what cleaning and registering do to
-- the requests of each user.
use pytmbot.Base.{
  ℕ, ◌+◌, ◌-◌, ◌≤◌, ◌≡◌, refl, true, List, [], ◌∷◌, ◌++◌, arith, leb, length, All, if◌then◌else◌,
}
use pytmbot.Base.Dict.{lookup-insert, lookup-erase}
use pytmbot.Base.Eq.{◌==◌, nat_eq, ==_iff}
use pytmbot.RateLimit.{
  Limits, State, requests_of, drop_stale, store_cleaned, clean_requests, clean_old_requests,
  register_request, check_and_track,
}

-- The timestamps at or after a moment.
unfoldable pub count_since : ℕ → List ℕ → ℕ
count_since c [] = 0
count_since c (t ∷ ts) = (if leb c t then 1 else 0) + count_since c ts

-- Oldest first, and none after `last`.
abbrev pub IsAscending : ℕ → List ℕ → Type 0
IsAscending last [] = Unit {0}
IsAscending last (t ∷ ts) = (t ≤ last) × All (λ u. t ≤ u) ts × IsAscending last ts

count_since-append :
    (c : ℕ) (xs ys : List ℕ) → count_since c (xs ++ ys) ≡ count_since c xs + count_since c ys
unfolding count_since
count_since-append c [] ys = omega arith
count_since-append c (x ∷ xs) ys = ground (arith, count_since-append c xs ys)

pub count_since-register :
    (c now : ℕ) (q : List ℕ)
    → count_since c (q ++ now ∷ []) ≡ count_since c q + (if leb c now then 1 else 0)
unfolding count_since
count_since-register c now q = ground (arith, count_since-append c q (now ∷ []))

count_since-All : (c : ℕ) (q : List ℕ) → All (λ u. c ≤ u) q → count_since c q ≡ length q
unfolding count_since
count_since-All c [] h = refl
count_since-All c (t ∷ ts) h = ground (arith, count_since-All c ts h.1)

All-weaken : (c t : ℕ) (q : List ℕ) → c ≤ t → All (λ u. t ≤ u) q → All (λ u. c ≤ u) q
All-weaken c t [] le h = tt
All-weaken c t (u ∷ us) le h = (omega arith, All-weaken c t us le h.1)

-- On an ascending deque the loop keeps exactly the timestamps of the window.
pub length-drop_stale :
    (c last : ℕ) (q : List ℕ) → IsAscending last q → length (drop_stale c q) ≡ count_since c q
unfolding drop_stale count_since
length-drop_stale c last [] h = refl
length-drop_stale c last (t ∷ ts) h = ground (
  arith,
  length-drop_stale c last ts h.2,
  λ (le : c ≤ t). count_since-All c ts (All-weaken c t ts le h.1),
)

pub count_since-drop_stale :
    (c d : ℕ) (q : List ℕ) → c ≤ d → count_since d (drop_stale c q) ≡ count_since d q
unfolding drop_stale count_since
count_since-drop_stale c d [] h = refl
count_since-drop_stale c d (t ∷ ts) h = ground (arith, count_since-drop_stale c d ts h)

pub drop_stale-IsAscending :
    (c last : ℕ) (q : List ℕ) → IsAscending last q → IsAscending last (drop_stale c q)
unfolding drop_stale
drop_stale-IsAscending c last [] h = tt
drop_stale-IsAscending c last (t ∷ ts) h = ground (arith, drop_stale-IsAscending c last ts h.2)

All-register :
    (t now : ℕ) (q : List ℕ) → t ≤ now → All (λ u. t ≤ u) q → All (λ u. t ≤ u) (q ++ now ∷ [])
All-register t now [] le h = (le, tt)
All-register t now (u ∷ us) le h = (h.0, All-register t now us le h.1)

pub IsAscending-later :
    (last now : ℕ) (q : List ℕ) → last ≤ now → IsAscending last q → IsAscending now q
IsAscending-later last now [] le h = tt
IsAscending-later last now (t ∷ ts) le h = (omega arith, h.1, IsAscending-later last now ts le h.2)

pub IsAscending-register :
    (last now : ℕ) (q : List ℕ) → last ≤ now → IsAscending last q → IsAscending now (q ++ now ∷ [])
IsAscending-register last now [] le h = (omega arith, tt, tt)
IsAscending-register last now (t ∷ ts) le h =
    (omega arith, All-register t now ts (omega arith) h.1, IsAscending-register last now ts le h.2)

drop_stale-fresh : (c t : ℕ) (ts : List ℕ) → leb c t ≡ true → drop_stale c (t ∷ ts) ≡ t ∷ ts
unfolding drop_stale
drop_stale-fresh c t ts h = ground arith

store_cleaned-requests :
    (user other : ℕ) (q : List ℕ) (s : State)
    → requests_of other (store_cleaned user q s)
      ≡ (if user == other then q else requests_of other s)
unfolding store_cleaned
store_cleaned-requests user other [] s = ground (arith, lookup-erase user other s.user_requests)
store_cleaned-requests user other (t ∷ ts) s =
    ground (arith, lookup-insert user other (t ∷ ts) s.user_requests)

clean_requests_lem :
    (user cutoff other : ℕ) (q : List ℕ) (s : State)
    → requests_of user s ≡ q
    → (requests_of other (clean_requests user cutoff q s).1
        ≡ (if user == other then drop_stale cutoff q else requests_of other s))
      × ((clean_requests user cutoff q s).0.1 ≡ length (drop_stale cutoff q))
unfolding clean_requests drop_stale
clean_requests_lem user cutoff other [] s e = ground (arith, ==_iff user other)
clean_requests_lem user cutoff other (t ∷ ts) s e = ground (
  arith,
  ==_iff user other,
  drop_stale-fresh cutoff t ts,
  store_cleaned-requests user other (drop_stale cutoff (t ∷ ts)) s,
)

-- Cleaning drops the user's stale requests, counts the rest, and touches nobody else's.
pub clean_old_requests_lem :
    (l : Limits) (user now other : ℕ) (s : State)
    → (requests_of other (clean_old_requests l user now s).1 ≡ (
        if user == other
        then drop_stale (now - l.period) (requests_of user s)
        else requests_of other s))
      × ((clean_old_requests l user now s).0.1
          ≡ length (drop_stale (now - l.period) (requests_of user s)))
unfolding clean_old_requests
clean_old_requests_lem l user now other s =
    clean_requests_lem user (now - l.period) other (requests_of user s) s refl

register_request-requests :
    (user now other : ℕ) (s : State)
    → requests_of other (register_request user now s).1
      ≡ (if user == other then requests_of user s ++ now ∷ [] else requests_of other s)
unfolding register_request
register_request-requests user now other s =
    ground (arith, lookup-insert user other (requests_of user s ++ now ∷ []) s.user_requests)

-- A request is limited exactly if the cleaned deque is full; otherwise it is put at its end.
pub check_and_track_lem :
    (l : Limits) (user now other : ℕ) (s : State)
    → let kept = drop_stale (now - l.period) (requests_of user s) in
      let (r, s') = check_and_track l user now s in
      (r.0 ≡ leb l.limit (length kept))
      × (requests_of other s' ≡ (
          if user == other
          then (if leb l.limit (length kept) then kept else kept ++ now ∷ [])
          else requests_of other s))
unfolding check_and_track
check_and_track_lem l user now other s = ground (
  arith,
  clean_old_requests_lem l user now other s,
  clean_old_requests_lem l user now user s,
  ==_iff user user,
  register_request-requests user now other (clean_old_requests l user now s).1,
)
