-- ===== src/Webhook/Tracked.antt =====
-- What `RateLimit` of pytmbot/webhook.py stores of an address goes when the address does: requests
-- and bans are kept for addresses that were seen, and of those alone.
use pytmbot.Base.{
  ℕ, zero, suc, ◌+◌, ◌≤◌, ◌<◌, ◌≡◌, String, true, not, ◌&&◌, List, [], ◌∷◌, arith, leb, ltb, length,
  All, Bool-cases, Option-cases, inl, inr, if-keeps,
}
use pytmbot.Base.Dict.{Dict, lookup, contains, insert, erase, IsDict, contains-erase, erase-IsDict}
use pytmbot.Base.Eq.{string_eq, ==_iff, ==_refl}
use pytmbot.Webhook.Limiter.{
  Limits, State, Saving, Readings, ban_ttl, ensure_loaded, persist, drop_ip, drop_ips, oldest,
  evict_oldest_ip, evict_while, expired_bans, lift_bans, stale_ips, sweep, cleanup_state, is_empty,
  is_banned, make_room,
}
use pytmbot.Webhook.Evictions.{length-erase-lt}

-- A dictionary whose keys are all in another is no longer than it.
pub length-le :
    {A : Type 0} (d : Dict String A) (e : Dict String ℕ)
    → IsDict d
    → ((k : String) → contains k d ≡ true → contains k e ≡ true)
    → length d ≤ length e
unfolding contains
length-le [] e h sub = omega arith
length-le ((k, v) ∷ d) e h sub =
    let there : contains k e ≡ true = sub k (ground (arith, ==_refl k)) in
    let rest : length d ≤ length (erase k e) =
      length-le d (erase k e) h.1
        (λ j c. ground (arith, c, h.0, ==_iff k j, sub j, contains-erase k j e)) in
    omega (arith, rest, length-erase-lt k e there)

-- No deque is empty.
abbrev pub AreFilled : Dict String (List ℕ) → Type 0
AreFilled d = All (λ e. 0 < length e.1) d

erase-AreFilled : (k : String) (d : Dict String (List ℕ)) → AreFilled d → AreFilled (erase k d)
unfolding erase
erase-AreFilled k [] h = tt
erase-AreFilled k ((j, ts) ∷ d) h = ground (arith, erase-AreFilled k d)

pub insert-AreFilled :
    (k : String) (ts : List ℕ) (d : Dict String (List ℕ))
    → 0 < length ts
    → AreFilled d
    → AreFilled (insert k ts d)
unfolding insert
insert-AreFilled k ts [] le h = (le, tt)
insert-AreFilled k ts ((j, us) ∷ d) le h = ground (arith, insert-AreFilled k ts d)

-- Every key of the one is a key of the other.
abbrev pub AreSeen : {A : Type 0} → Dict String A → Dict String ℕ → Type 0
AreSeen d e = (k : String) → contains k d ≡ true → contains k e ≡ true

-- The state is loaded, and every address with requests or a ban is among the addresses seen.
pub record IsTracked (s : State) : Type 0 where
  pub restored : s.loaded ≡ true
  pub keys : IsDict s.requests
  pub bans : IsDict s.banned_ips
  pub filled : AreFilled s.requests
  pub seen : AreSeen s.requests s.last_seen
  pub bans_seen : AreSeen s.banned_ips s.last_seen

drop_ip-IsTracked : (ip : String) (s : State) → IsTracked s → IsTracked (drop_ip ip s)
unfolding drop_ip
drop_ip-IsTracked ip s h = record {
  restored = h.restored;
  keys = erase-IsDict ip s.requests h.keys;
  bans = erase-IsDict ip s.banned_ips h.bans;
  filled = erase-AreFilled ip s.requests h.filled;
  seen = λ k c.
      ground (arith, c, h.seen k, contains-erase ip k s.requests, contains-erase ip k s.last_seen);
  bans_seen = λ k c.
      ground (
        arith,
        c,
        h.bans_seen k,
        contains-erase ip k s.banned_ips,
        contains-erase ip k s.last_seen,
      );
}

drop_ips-IsTracked : (ips : List String) (s : State) → IsTracked s → IsTracked (drop_ips ips s)
unfolding drop_ips
drop_ips-IsTracked [] s h = h
drop_ips-IsTracked (ip ∷ ips) s h = drop_ips-IsTracked ips (drop_ip ip s) (drop_ip-IsTracked ip s h)

evict_oldest_ip-IsTracked : (s : State) → IsTracked s → IsTracked (evict_oldest_ip s)
unfolding evict_oldest_ip
evict_oldest_ip-IsTracked s h = by_cases s.last_seen
  where
    by_cases :
        (d : Dict String ℕ)
        → IsTracked (elim d as (λ x. State) [ [] ↦ s | (ip, t) ∷ e ↦ drop_ip (oldest ip t e) s ])
    by_cases [] = h
    by_cases ((ip, t) ∷ e) = drop_ip-IsTracked (oldest ip t e) s h

evict_while-IsTracked :
    (cap rounds : ℕ) (s : State) → IsTracked s → IsTracked (evict_while cap rounds s)
unfolding evict_while
evict_while-IsTracked cap zero s h = h
evict_while-IsTracked cap (suc rounds) s h =
    if-keeps IsTracked (ltb cap (length s.last_seen))
      (evict_while-IsTracked cap rounds (evict_oldest_ip s) (evict_oldest_ip-IsTracked s h)) h

lift_ban-IsTracked :
    (ip : String) (s : State)
    → IsTracked s
    → IsTracked (record s { banned_ips = erase ip s.banned_ips })
lift_ban-IsTracked ip s h = record {
  restored = h.restored;
  keys = h.keys;
  bans = erase-IsDict ip s.banned_ips h.bans;
  filled = h.filled;
  seen = h.seen;
  bans_seen = λ k c. ground (arith, c, h.bans_seen k, contains-erase ip k s.banned_ips);
}

lift_bans-IsTracked : (ips : List String) (s : State) → IsTracked s → IsTracked (lift_bans ips s)
unfolding lift_bans
lift_bans-IsTracked [] s h = h
lift_bans-IsTracked (ip ∷ ips) s h =
    lift_bans-IsTracked ips (record s { banned_ips = erase ip s.banned_ips })
      (lift_ban-IsTracked ip s h)

pub persist-IsTracked :
    (l : Limits) (k : Saving) (s : State) → IsTracked s → IsTracked (persist l k s)
unfolding persist
persist-IsTracked l k s h = if-keeps IsTracked (not l.has_state_file) h (
    if-keeps IsTracked (ltb k.time (s.last_persist + 5_000_000)) h (record {
      restored = h.restored;
      keys = h.keys;
      bans = h.bans;
      filled = h.filled;
      seen = h.seen;
      bans_seen = h.bans_seen;
    }))

module _ (l : Limits) where
  sweep-IsTracked : (now : ℕ) (k : Saving) (s : State) → IsTracked s → IsTracked (sweep l now k s)
  unfolding sweep
  sweep-IsTracked now k s h =
      let s1 : State = lift_bans (expired_bans now s.banned_ips) s in
      let stale : List String = stale_ips s1.banned_ips s1.requests in
      let s2 : State = drop_ips stale s1 in
      let s3 : State = evict_while l.max_tracked_ips (length s2.last_seen) s2 in
      let h3 : IsTracked s3 =
        evict_while-IsTracked l.max_tracked_ips (length s2.last_seen) s2
          (drop_ips-IsTracked stale s1 (lift_bans-IsTracked (expired_bans now s.banned_ips) s h)) in
      if-keeps IsTracked (is_empty (expired_bans now s.banned_ips) && is_empty stale) h3
        (persist-IsTracked l k s3 h3)

  pub cleanup_state-IsTracked :
      (time now : ℕ) (k : Saving) (s : State)
      → IsTracked s
      → IsTracked (cleanup_state l time now k s)
  unfolding cleanup_state
  cleanup_state-IsTracked time now k s h =
      if-keeps IsTracked
        (ltb time (s.last_cleanup + 60_000_000) && leb (length s.last_seen) l.max_tracked_ips) h
        (sweep-IsTracked now k (record s { last_cleanup = time })
          (record {
            restored = h.restored;
            keys = h.keys;
            bans = h.bans;
            filled = h.filled;
            seen = h.seen;
            bans_seen = h.bans_seen;
          }))

  pub ensure_loaded-loaded :
      (now time : ℕ) (s : State) → s.loaded ≡ true → ensure_loaded l now time s ≡ s
  unfolding ensure_loaded
  ensure_loaded-loaded now time s h = ground (arith, h)

  pub make_room-IsTracked : (ip : String) (s : State) → IsTracked s → IsTracked (make_room l ip s)
  make_room-IsTracked ip s h =
      if-keeps IsTracked
        (not (contains ip s.requests)
          && not (contains ip s.last_seen)
          && leb l.max_tracked_ips (length s.last_seen))
        (evict_oldest_ip-IsTracked s h) h

  pub is_banned-IsTracked :
      (k : Readings) (ip : String) (s : State) → IsTracked s → IsTracked (is_banned l k ip s).1
  unfolding is_banned
  is_banned-IsTracked k ip s h =
      let s1 : State = ensure_loaded l k.restored_now k.restored_time s in
      let h1 : IsTracked s1 =
        rw (ensure_loaded-loaded k.restored_now k.restored_time s h.restored) h in
      let s2 : State = cleanup_state l k.time k.cleanup_now k.cleanup_saving s1 in
      let h2 : IsTracked s2 = cleanup_state-IsTracked k.time k.cleanup_now k.cleanup_saving s1 h1 in
      let s3 : State = record s2 { banned_ips = erase ip s2.banned_ips } in
      elim (Option-cases (lookup ip s2.banned_ips)) [
        | inl e ↦ rw (is_banned, e) h2
        | inr (banned_at, e) ↦ elim (Bool-cases (ltb (banned_at + ban_ttl) k.now)) [
          | inl over ↦
              rw (is_banned, e, over)
                (persist-IsTracked l k.saving s3 (lift_ban-IsTracked ip s2 h2))
          | inr holds ↦ rw (is_banned, e, holds) h2
        ]
      ]
