-- ===== src/Containers/Admission.antt =====
-- The interval between the operations of a user, of `validate_access` in
-- pytmbot/adapters/docker/container_manager.py.
use pytmbot.Base.{
  ℕ, zero, suc, ◌+◌, ◌≤◌, ◌<◌, ◌≡◌, ◌≢◌, refl, true, false, some, List, [], ◌∷◌, arith, ltb, length,
  All, if◌then◌else◌,
}
use pytmbot.Base.Dict.{
  Dict, lookup, contains, insert, erase, lookup-insert, length-insert, length-erase-le,
}
use pytmbot.Base.Eq.{nat_eq, ==_iff, ==_refl}
use pytmbot.Containers.{
  seconds, stale_user_ids, pop_users, oldest_user, pop_oldest, pop_while, clean_rate_limits,
  max_rate_limited_users, min_operation_interval, or_zero, check_interval,
}

length-pop_users : (us : List ℕ) (d : Dict ℕ ℕ) → length (pop_users us d) ≤ length d
unfolding pop_users
length-pop_users [] d = omega arith
length-pop_users (u ∷ us) d = omega (arith, length-pop_users us (erase u d), length-erase-le u d)

length-erase-lt : (u : ℕ) (d : Dict ℕ ℕ) → contains u d ≡ true → length (erase u d) < length d
unfolding contains erase
length-erase-lt u [] h = ground (arith, h)
length-erase-lt u ((v, t) ∷ d) h = ground (arith, length-erase-lt u d, length-erase-le u d)

contains-oldest_user : (u t : ℕ) (d : Dict ℕ ℕ) → contains (oldest_user u t d) ((u, t) ∷ d) ≡ true
unfolding contains oldest_user
contains-oldest_user u t [] = ground (arith, ==_refl u)
contains-oldest_user u t ((v, r) ∷ d) =
    ground (arith, contains-oldest_user u t d, contains-oldest_user v r d)

length-pop_oldest : (d : Dict ℕ ℕ) → 1 ≤ length d → length (pop_oldest d) < length d
unfolding pop_oldest
length-pop_oldest [] h = omega arith
length-pop_oldest ((u, t) ∷ d) h =
    length-erase-lt (oldest_user u t d) ((u, t) ∷ d) (contains-oldest_user u t d)

-- The rounds are enough: the loop ends with the cap kept.
length-pop_while :
    (rounds : ℕ) (d : Dict ℕ ℕ)
    → length d ≤ rounds + max_rate_limited_users
    → length (pop_while rounds d) ≤ max_rate_limited_users
unfolding pop_while
length-pop_while zero d h = omega arith
length-pop_while (suc rounds) d h =
    ground (arith, length-pop_oldest d, length-pop_while rounds (pop_oldest d))

pub length-clean_rate_limits :
    (now : ℕ) (d : Dict ℕ ℕ) → length (clean_rate_limits now d) ≤ max_rate_limited_users
unfolding clean_rate_limits
length-clean_rate_limits now d = ground (
  arith,
  length-pop_while (length (pop_users (stale_user_ids now d) d))
      (pop_users (stale_user_ids now d) d),
)

pub length-check_interval :
    (now user : ℕ) (d : Dict ℕ ℕ)
    → length (check_interval now user d).1 ≤ max_rate_limited_users + 1
unfolding check_interval
length-check_interval now user d =
    ground (arith, length-clean_rate_limits now d, length-insert user now (clean_rate_limits now d))

clean_rate_limits_small :
    (now : ℕ) (d : Dict ℕ ℕ) → length d ≤ max_rate_limited_users → clean_rate_limits now d ≡ d
unfolding clean_rate_limits
clean_rate_limits_small now d h = ground arith

pub check_interval_lem :
    (now user : ℕ) (d : Dict ℕ ℕ)
    → length d ≤ max_rate_limited_users
    → check_interval now user d ≡ (
        if ltb now (or_zero (lookup user d) + min_operation_interval)
        then (false, d)
        else (true, insert user now d))
unfolding check_interval
check_interval_lem now user d h = rw (clean_rate_limits_small now d h)

-- The tests of the interval by one operation, each a time and a user, one after the other.
unfoldable pub checks : List (ℕ × ℕ) → Dict ℕ ℕ → Dict ℕ ℕ
checks [] d = d
checks ((now, user) ∷ rest) d = checks rest (check_interval now user d).1

-- Only the user's own tests move the user's time, while there is room.
checks-other :
    (user : ℕ) (between : List (ℕ × ℕ)) (d : Dict ℕ ℕ)
    → length d + length between ≤ max_rate_limited_users
    → All (λ e. e.1 ≢ user) between
    → (lookup user (checks between d) ≡ lookup user d)
      × (length (checks between d) ≤ max_rate_limited_users)
unfolding checks
checks-other user [] d room others = (refl, ground arith)
checks-other user ((now, v) ∷ rest) d room others = ground (
  arith,
  check_interval_lem now v d,
  lookup-insert v user now d,
  length-insert v now d,
  ==_iff v user,
  checks-other user rest (check_interval now v d).1,
)

admitted-lookup :
    (user now : ℕ) (d : Dict ℕ ℕ)
    → (check_interval now user d).0 ≡ true
    → lookup user (check_interval now user d).1 ≡ some now
unfolding check_interval
admitted-lookup user now d ok =
    ground (arith, ok, lookup-insert user user now (clean_rate_limits now d), ==_refl user)

-- Once an operation of a user is admitted, a further one of the same kind is refused for a second,
-- whatever other users ask for in between, as long as they and the users tracked are at most 2048.
pub admitted_once_a_second :
    (user now later : ℕ) (between : List (ℕ × ℕ)) (d : Dict ℕ ℕ)
    → (check_interval now user d).0 ≡ true
    → length (check_interval now user d).1 + length between ≤ max_rate_limited_users
    → All (λ e. e.1 ≢ user) between
    → later < now + seconds 1
    → (check_interval later user (checks between (check_interval now user d).1)).0 ≡ false
admitted_once_a_second user now later between d ok room others soon = ground (
  arith,
  checks-other user between (check_interval now user d).1 room others,
  check_interval_lem later user (checks between (check_interval now user d).1),
  admitted-lookup user now d ok,
)
