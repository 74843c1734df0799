-- ===== src/Webhook/Evictions.antt =====
-- What the evictions and cleanups of `RateLimit` of pytmbot/webhook.py leave.
use pytmbot.Base.{ℕ, zero, suc, ◌+◌, ◌≤◌, ◌<◌, ◌≡◌, refl, String, true, [], ◌∷◌, arith, length}
use pytmbot.Base.Dict.{Dict, contains, erase, length-erase-le}
use pytmbot.Base.Eq.{string_eq, ==_refl}
use pytmbot.Webhook.Limiter.{
  Limits, State, Saving, persist, drop_ips, oldest, evict_oldest_ip, evict_while, expired_bans,
  lift_bans, stale_ips, sweep, cleanup_state,
}

pub length-erase-lt :
    (k : String) (d : Dict String ℕ) → contains k d ≡ true → length (erase k d) < length d
unfolding contains erase
length-erase-lt k [] h = ground (arith, h)
length-erase-lt k ((j, v) ∷ d) h = ground (arith, length-erase-le k d, length-erase-lt k d)

contains-oldest :
    (ip : String) (t : ℕ) (d : Dict String ℕ) → contains (oldest ip t d) ((ip, t) ∷ d) ≡ true
unfolding contains oldest
contains-oldest ip t [] = ground (arith, ==_refl ip)
contains-oldest ip t ((j, u) ∷ d) = ground (arith, contains-oldest ip t d, contains-oldest j u d)

-- An eviction makes the dictionary of addresses shorter, if there are any.
pub length-evict_oldest_ip :
    (s : State) → 0 < length s.last_seen → length (evict_oldest_ip s).last_seen < length s.last_seen
unfolding evict_oldest_ip
length-evict_oldest_ip s h = by_cases s.last_seen refl
  where
    by_cases :
        (d : Dict String ℕ)
        → s.last_seen ≡ d
        → length (evict_oldest_ip s).last_seen < length s.last_seen
    by_cases [] e = ground (arith, h)
    by_cases ((ip, t) ∷ d) e =
        ground (arith, contains-oldest ip t d, length-erase-lt (oldest ip t d) ((ip, t) ∷ d))

-- The loop ends by its test: the rounds that `sweep` gives it are enough.
evict_while-bounded :
    (cap rounds : ℕ) (s : State)
    → length s.last_seen ≤ cap + rounds
    → length (evict_while cap rounds s).last_seen ≤ cap
unfolding evict_while
evict_while-bounded cap zero s h = omega arith
evict_while-bounded cap (suc rounds) s h =
    ground (arith, length-evict_oldest_ip s, evict_while-bounded cap rounds (evict_oldest_ip s))

pub persist-last_seen :
    (l : Limits) (k : Saving) (s : State) → (persist l k s).last_seen ≡ s.last_seen
unfolding persist
persist-last_seen l k s = ground arith

length-sweep :
    (l : Limits) (now : ℕ) (k : Saving) (s : State)
    → length (sweep l now k s).last_seen ≤ l.max_tracked_ips
unfolding sweep
length-sweep l now k s =
    let s1 : State = lift_bans (expired_bans now s.banned_ips) s in
    let s2 : State = drop_ips (stale_ips s1.banned_ips s1.requests) s1 in
    let s3 : State = evict_while l.max_tracked_ips (length s2.last_seen) s2 in
    ground (
      arith,
      evict_while-bounded l.max_tracked_ips (length s2.last_seen) s2,
      persist-last_seen l k s3,
    )

-- After a cleanup there are no more addresses than the cap, whether it swept or not.
pub length-cleanup_state :
    (l : Limits) (time now : ℕ) (k : Saving) (s : State)
    → length (cleanup_state l time now k s).last_seen ≤ l.max_tracked_ips
unfolding cleanup_state
length-cleanup_state l time now k s =
    ground (arith, length-sweep l now k (record s { last_cleanup = time }))
