-- ===== src/TwoFactor/Burst.antt =====
-- The burst limit of pytmbot/handlers/auth_processing/twofa_processing.py: at most a threshold of
-- attempts of a user within a window. Readings of `time.monotonic` are in microseconds.
use pytmbot.Base.{
  ℕ, ◌+◌, ◌*◌, max, Bool, true, false, none, some, List, [], ◌∷◌, ◌++◌, leb, ltb, length,
  if◌then◌else◌,
}
use pytmbot.Base.Dict.{Dict, lookup, insert}
use pytmbot.Base.Eq.{◌==◌, nat_eq}

-- `_TOTP_RATE_LIMIT_WINDOW_SECONDS` and `_TOTP_ATTEMPT_CACHE_COMPACT_THRESHOLD`
abbrev pub window : ℕ
window = 60_000_000

abbrev pub compact_threshold : ℕ
compact_threshold = 256

-- `_totp_attempt_times`
abbrev pub Bursts : Type 0
Bursts = Dict ℕ (List ℕ)

unfoldable pub totp_rate_limit_threshold : ℕ → ℕ
totp_rate_limit_threshold totp_max_attempts = max 5 (totp_max_attempts * 2)

-- `while attempts and now - attempts[0] > window: attempts.popleft()`
unfoldable pub drop_outside : ℕ → List ℕ → List ℕ
drop_outside now [] = []
drop_outside now (t ∷ ts) =
    let rest = drop_outside now ts in if ltb (t + window) now then rest else t ∷ ts

-- The two loops of `_prune_stale_totp_attempts`: the other users whose deque is left empty go.
unfoldable pub prune_stale : ℕ → ℕ → Bursts → Bursts
unfolding drop_outside
prune_stale now user [] = []
prune_stale now user ((u, ts) ∷ d) =
    let rest = prune_stale now user d in
    if u == user
    then (u, ts) ∷ rest
    else elim (drop_outside now ts) [ [] ↦ rest | k ∷ ks ↦ (u, k ∷ ks) ∷ rest ]

unfoldable pub prune_stale_totp_attempts : ℕ → ℕ → Bursts → Bursts
prune_stale_totp_attempts now user d =
    if leb (length d) compact_threshold then d else prune_stale now user d

abbrev pub attempts_of : ℕ → Bursts → List ℕ
attempts_of user d = elim (lookup user d) [ none ↦ [] | some ts ↦ ts ]

-- `_consume_totp_attempt`: true for an attempt over the limit, which is not recorded.
unfoldable pub consume_totp_attempt : ℕ → ℕ → ℕ → Bursts → Bool × Bursts
unfolding prune_stale_totp_attempts totp_rate_limit_threshold
consume_totp_attempt totp_max_attempts user now d =
    let attempts = drop_outside now (attempts_of user d) in
    if leb (totp_rate_limit_threshold totp_max_attempts) (length attempts)
    then (true, insert user attempts d)
    else (false, prune_stale_totp_attempts now user (insert user (attempts ++ now ∷ []) d))
