-- ===== src/RateLimit/Spec.antt =====
-- The promise of pytmbot/middleware/rate_limit.py: a sliding window over the whole history of
-- accepted requests, and the deques as an implementation of it.
use pytmbot.Base.{
  ℕ, ◌+◌, ◌-◌, ◌≤◌, ◌≡◌, refl, Bool, true, false, List, [], ◌∷◌, ◌&&◌, arith, leb, length, All,
  if◌then◌else◌, Bool-cases, inl, inr,
}
use pytmbot.Base.Dict.{lookup}
use pytmbot.Base.Eq.{◌==◌, nat_eq, ==_iff}
use pytmbot.RateLimit.{Limits, State, requests_of, drop_stale, check_and_track}
use pytmbot.RateLimit.Window.{
  count_since, IsAscending, length-drop_stale, count_since-drop_stale, count_since-register,
  drop_stale-IsAscending, IsAscending-later, IsAscending-register, check_and_track_lem,
}

-- The accepted requests, newest first: who, and when.
abbrev pub History : Type 0
History = List (ℕ × ℕ)

unfoldable pub accepted_since : ℕ → ℕ → History → ℕ
accepted_since user c [] = 0
accepted_since user c ((u, t) ∷ h) =
    (if u == user && leb c t then 1 else 0) + accepted_since user c h

unfoldable pub accepted_within : ℕ → ℕ → ℕ → History → ℕ
accepted_within user from to [] = 0
accepted_within user from to ((u, t) ∷ h) =
    (if u == user && leb from t && leb t to then 1 else 0) + accepted_within user from to h

-- What the limiter promises: refuse exactly while `limit` accepted requests of the user are at most
-- `period` old.
unfoldable pub spec_refuses : Limits → ℕ → ℕ → History → Bool
spec_refuses l user now h = leb l.limit (accepted_since user (now - l.period) h)

abbrev pub extend : Bool → ℕ × ℕ → History → History
extend refused r h = if refused then h else r ∷ h

-- The refusals of a sequence of requests, by the history and by the deques.
unfoldable pub spec_run : Limits → List (ℕ × ℕ) → History → List Bool
spec_run l [] h = []
spec_run l ((u, now) ∷ rs) h =
    spec_refuses l u now h ∷ spec_run l rs (extend (spec_refuses l u now h) (u, now) h)

unfoldable pub run : Limits → List (ℕ × ℕ) → State → List Bool
run l [] s = []
run l ((u, now) ∷ rs) s = let (r, s') = check_and_track l u now s in r.0 ∷ run l rs s'

-- The requests that were accepted, added to a history.
unfoldable pub history : List (ℕ × ℕ) → List Bool → History → History
history (r ∷ rs) (b ∷ bs) h = history rs bs (extend b r h)
history _ _ h = h

-- The clock does not go back between the requests.
abbrev pub IsOrdered : ℕ → List (ℕ × ℕ) → Type 0
IsOrdered last [] = Unit {0}
IsOrdered last ((u, t) ∷ rs) = (last ≤ t) × IsOrdered t rs

abbrev pub initial : State
initial = record { user_requests = []; violation_count = []; last_violation_log = [] }

-- The deques agree with the history from the start of the newest window on.
pub record Represents (l : Limits) (last : ℕ) (s : State) (h : History) : Type 0 where
  pub ascending : (u : ℕ) → IsAscending last (requests_of u s)
  pub counts :
      (u c : ℕ) → last ≤ c + l.period → count_since c (requests_of u s) ≡ accepted_since u c h

module _ (l : Limits) {last now : ℕ} (user : ℕ) {s : State} {h : History} (later : last ≤ now)
    (rep : Represents l last s h) where
  pub check-refuses : (check_and_track l user now s).0.0 ≡ spec_refuses l user now h
  unfolding spec_refuses
  check-refuses = ground (
    arith,
    check_and_track_lem l user now user s,
    length-drop_stale (now - l.period) last (requests_of user s) (rep.ascending user),
    rep.counts user (now - l.period),
  )

  check-IsAscending : (u : ℕ) → IsAscending now (requests_of u (check_and_track l user now s).1)
  check-IsAscending u = elim (Bool-cases (user == u)) [
    | inl same ↦ elim (Bool-cases (leb l.limit (length kept))) [
      | inl full ↦
          rw ((check_and_track_lem l user now u s).1, same, full)
            (IsAscending-later last now kept later kept-ascending)
      | inr free ↦
          rw ((check_and_track_lem l user now u s).1, same, free)
            (IsAscending-register last now kept later kept-ascending)
    ]
    | inr other ↦
        rw ((check_and_track_lem l user now u s).1, other)
          (IsAscending-later last now (requests_of u s) later (rep.ascending u))
  ]
    where
      kept : List ℕ
      kept = drop_stale (now - l.period) (requests_of user s)

      kept-ascending : IsAscending last kept
      kept-ascending =
          drop_stale-IsAscending (now - l.period) last (requests_of user s) (rep.ascending user)

  check-counts :
      (u c : ℕ)
      → now ≤ c + l.period
      → count_since c (requests_of u (check_and_track l user now s).1)
        ≡ accepted_since u c (extend (spec_refuses l user now h) (user, now) h)
  unfolding accepted_since
  check-counts u c recent = ground (
    arith,
    check-refuses,
    check_and_track_lem l user now u s,
    ==_iff user u,
    rep.counts u c,
    rep.counts user c,
    count_since-drop_stale (now - l.period) c (requests_of user s),
    count_since-register c now (drop_stale (now - l.period) (requests_of user s)),
  )

  pub check-Represents :
      Represents l now
        (check_and_track l user now s).1
        (extend (spec_refuses l user now h) (user, now) h)
  check-Represents = record { ascending = check-IsAscending; counts = check-counts }

run-spec_run :
    (l : Limits) {last : ℕ} (rs : List (ℕ × ℕ)) (s : State) (h : History)
    → IsOrdered last rs
    → Represents l last s h
    → run l rs s ≡ spec_run l rs h
unfolding run spec_run
run-spec_run l [] s h o rep = refl
run-spec_run l ((u, now) ∷ rs) s h o rep = cc (
  check-refuses l u o.0 rep,
  run-spec_run l rs (check_and_track l u now s).1 (extend (spec_refuses l u now h) (u, now) h) o.1
      (check-Represents l u o.0 rep),
)

pub initial-Represents : (l : Limits) → Represents l 0 initial []
unfolding lookup count_since accepted_since
initial-Represents l = record { ascending = λ u. tt; counts = λ u c le. refl }

-- For requests of any users at times that do not go back, the limiter with its deques refuses
-- exactly the requests that the sliding window over the full history of accepted requests refuses.
pub run-refines-spec :
    (l : Limits) (rs : List (ℕ × ℕ)) → IsOrdered 0 rs → run l rs initial ≡ spec_run l rs []
run-refines-spec l rs o = run-spec_run l rs initial [] o (initial-Represents l)

accepted_since_mono :
    (user c d : ℕ) (h : History) → c ≤ d → accepted_since user d h ≤ accepted_since user c h
unfolding accepted_since
accepted_since_mono user c d [] le = omega arith
accepted_since_mono user c d ((u, t) ∷ h) le = ground (arith, accepted_since_mono user c d h le)

accepted_within-recent :
    (user from to last : ℕ) (h : History)
    → All (λ r. r.1 ≤ last) h
    → last ≤ to
    → accepted_within user from to h ≡ accepted_since user from h
unfolding accepted_within accepted_since
accepted_within-recent user from to last [] a le = refl
accepted_within-recent user from to last ((u, t) ∷ h) a le =
    ground (arith, accepted_within-recent user from to last h a.1 le)

All-later :
    (last now : ℕ) (h : History) → last ≤ now → All (λ r. r.1 ≤ last) h → All (λ r. r.1 ≤ now) h
All-later last now [] le a = tt
All-later last now ((u, t) ∷ h) le a = (omega arith, All-later last now h le a.1)

module _ (l : Limits) (user from : ℕ) where
  extend-bound :
      {last now : ℕ} (u : ℕ) (h : History)
      → last ≤ now
      → All (λ r. r.1 ≤ last) h
      → accepted_within user from (from + l.period) h ≤ l.limit
      → accepted_within user from (from + l.period) (extend (spec_refuses l u now h) (u, now) h)
        ≤ l.limit
  unfolding spec_refuses accepted_within
  extend-bound {last} {now} u h later a bound = ground (
    arith,
    ==_iff u user,
    accepted_within-recent user from (from + l.period) last h a,
    accepted_since_mono user (now - l.period) from h,
  )

  All-extend :
      {last now : ℕ} (u : ℕ) (b : Bool) (h : History)
      → last ≤ now
      → All (λ r. r.1 ≤ last) h
      → All (λ r. r.1 ≤ now) (extend b (u, now) h)
  All-extend {last} {now} u true h later a = All-later last now h later a
  All-extend {last} {now} u false h later a = (omega arith, All-later last now h later a)

  spec_bound :
      (last : ℕ) (rs : List (ℕ × ℕ)) (h : History)
      → IsOrdered last rs
      → All (λ r. r.1 ≤ last) h
      → accepted_within user from (from + l.period) h ≤ l.limit
      → accepted_within user from (from + l.period) (history rs (spec_run l rs h) h) ≤ l.limit
  unfolding history spec_run
  spec_bound last [] h o a bound = bound
  spec_bound last ((u, now) ∷ rs) h o a bound =
      spec_bound now rs (extend (spec_refuses l u now h) (u, now) h) o.1
        (All-extend u (spec_refuses l u now h) h o.0 a) (extend-bound u h o.0 a bound)

-- Of requests at times that do not go back, at most `limit` of one user are accepted in any window
-- that is `period` long, its two ends included.
pub window_bound :
    (l : Limits) (user from : ℕ) (rs : List (ℕ × ℕ))
    → IsOrdered 0 rs
    → accepted_within user from (from + l.period) (history rs (run l rs initial) []) ≤ l.limit
unfolding accepted_within
window_bound l user from rs o =
    rw (run-refines-spec l rs o) (spec_bound l user from 0 rs [] o tt (omega arith))
