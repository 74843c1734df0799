-- ===== src/Webhook/Seen.antt =====
-- `is_rate_limited` of pytmbot/webhook.py keeps the addresses tracked: its second cleanup, the one of
-- `is_banned`, takes no address away before the request is stored.
use pytmbot.Base.{
  ℕ, zero, suc, ◌+◌, ◌≤◌, ◌<◌, ◌≡◌, refl, Option, String, true, none, some, List, [], ◌∷◌, ◌++◌,
  arith, leb, length, length-append, Bool-cases, inl, inr, if-keeps,
}
use pytmbot.Base.Dict.{
  Dict, contains, insert, erase, IsDict, contains-insert, insert-IsDict, length-insert,
}
use pytmbot.Base.Eq.{string_eq, ==_iff, ==_refl}
use pytmbot.Webhook.Limiter.{
  Limits, State, Saving, Readings, CallReadings, ban_ttl, fresh, restore_bans, ensure_loaded,
  drop_ips, evict_oldest_ip, evict_while, expired_bans, lift_bans, stale_ips, sweep, cleanup_state,
  is_banned, drop_old, times_of, make_room, count_request, is_rate_limited,
}
use pytmbot.Webhook.Evictions.{length-evict_oldest_ip, length-cleanup_state, persist-last_seen}
use pytmbot.Webhook.Keeps.{restore_bans-requests}
use pytmbot.Webhook.Tracked.{
  AreFilled, insert-AreFilled, AreSeen, IsTracked, cleanup_state-IsTracked, persist-IsTracked,
  make_room-IsTracked, is_banned-IsTracked, ensure_loaded-loaded,
}

lift_bans-kept :
    (ips : List String) (s : State)
    → ((lift_bans ips s).requests ≡ s.requests) × ((lift_bans ips s).last_seen ≡ s.last_seen)
unfolding lift_bans
lift_bans-kept [] s = (refl, refl)
lift_bans-kept (ip ∷ ips) s = lift_bans-kept ips (record s { banned_ips = erase ip s.banned_ips })

stale_ips-filled :
    (banned : Dict String ℕ) (d : Dict String (List ℕ)) → AreFilled d → stale_ips banned d ≡ []
unfolding stale_ips
stale_ips-filled banned [] h = refl
stale_ips-filled banned ((ip, []) ∷ d) h = absurd (omega (arith, h.0))
stale_ips-filled banned ((ip, t ∷ ts) ∷ d) h = stale_ips-filled banned d h.1

evict_while-idle :
    (cap rounds : ℕ) (s : State) → length s.last_seen ≤ cap → evict_while cap rounds s ≡ s
unfolding evict_while
evict_while-idle cap zero s h = refl
evict_while-idle cap (suc rounds) s h = ground (arith, h)

module _ (l : Limits) where
  -- Where no deque is empty and the addresses are within the cap, a cleanup takes none away.
  sweep-last_seen :
      (now : ℕ) (k : Saving) (s : State)
      → AreFilled s.requests
      → length s.last_seen ≤ l.max_tracked_ips
      → (sweep l now k s).last_seen ≡ s.last_seen
  unfolding sweep drop_ips
  sweep-last_seen now k s filled le =
      let s1 : State = lift_bans (expired_bans now s.banned_ips) s in
      let kept = lift_bans-kept (expired_bans now s.banned_ips) s in
      let none_stale : stale_ips s1.banned_ips s1.requests ≡ [] =
        stale_ips-filled s1.banned_ips s1.requests (rw kept.0 filled) in
      let idle =
        evict_while-idle l.max_tracked_ips (length s1.last_seen) s1 (ground (arith, le, kept)) in
      ground (arith, none_stale, idle, kept, persist-last_seen l k s1)

  cleanup_state-last_seen :
      (time now : ℕ) (k : Saving) (s : State)
      → AreFilled s.requests
      → length s.last_seen ≤ l.max_tracked_ips
      → (cleanup_state l time now k s).last_seen ≡ s.last_seen
  unfolding cleanup_state
  cleanup_state-last_seen time now k s filled le =
      ground (arith, sweep-last_seen now k (record s { last_cleanup = time }) filled le)

  is_banned-last_seen :
      (k : Readings) (ip : String) (s : State)
      → IsTracked s
      → length s.last_seen ≤ l.max_tracked_ips
      → (is_banned l k ip s).1.last_seen ≡ s.last_seen
  unfolding is_banned
  is_banned-last_seen k ip s h le =
      let s2 : State = cleanup_state l k.time k.cleanup_now k.cleanup_saving s in
      ground (
        arith,
        ensure_loaded-loaded l k.restored_now k.restored_time s h.restored,
        cleanup_state-last_seen k.time k.cleanup_now k.cleanup_saving s h.filled le,
        persist-last_seen l k.saving (record s2 { banned_ips = erase ip s2.banned_ips }),
      )

  -- With room made there is a place for the address.
  length-make_room :
      (ip : String) (time : ℕ) (s : State)
      → 0 < l.max_tracked_ips
      → IsTracked s
      → length s.last_seen ≤ l.max_tracked_ips
      → length (insert ip time (make_room l ip s).last_seen) ≤ l.max_tracked_ips
  length-make_room ip time s cap h le = ground (
    arith,
    h.seen ip,
    length-evict_oldest_ip s,
    length-insert ip time s.last_seen,
    length-insert ip time (evict_oldest_ip s).last_seen,
  )

insert-AreSeen :
    {A : Type 0} (ip : String) (a : A) (d : Dict String A) (e : Dict String ℕ)
    → contains ip e ≡ true
    → AreSeen d e
    → AreSeen (insert ip a d) e
insert-AreSeen ip a d e there sub k c =
    ground (arith, c, there, sub k, ==_iff ip k, contains-insert ip k a d)

see-AreSeen :
    {A : Type 0} (ip : String) (time : ℕ) (d : Dict String A) (e : Dict String ℕ)
    → AreSeen d e
    → AreSeen d (insert ip time e)
see-AreSeen ip time d e sub k c = ground (arith, c, sub k, contains-insert ip k time e)

store-IsTracked :
    (ip : String) (times : List ℕ) (s : State)
    → 0 < length times
    → contains ip s.last_seen ≡ true
    → IsTracked s
    → IsTracked (record s { requests = insert ip times s.requests })
store-IsTracked ip times s some_times there h = record {
  restored = h.restored;
  keys = insert-IsDict ip times s.requests h.keys;
  bans = h.bans;
  filled = insert-AreFilled ip times s.requests some_times h.filled;
  seen = insert-AreSeen ip times s.requests s.last_seen there h.seen;
  bans_seen = h.bans_seen;
}

ban-IsTracked :
    (ip : String) (now : ℕ) (s : State)
    → contains ip s.last_seen ≡ true
    → IsTracked s
    → IsTracked (record s { banned_ips = insert ip now s.banned_ips })
ban-IsTracked ip now s there h = record {
  restored = h.restored;
  keys = h.keys;
  bans = insert-IsDict ip now s.banned_ips h.bans;
  filled = h.filled;
  seen = h.seen;
  bans_seen = insert-AreSeen ip now s.banned_ips s.last_seen there h.bans_seen;
}

see-IsTracked :
    (ip : String) (time : ℕ) (s : State)
    → IsTracked s
    → IsTracked (record s { last_seen = insert ip time s.last_seen })
see-IsTracked ip time s h = record {
  restored = h.restored;
  keys = h.keys;
  bans = h.bans;
  filled = h.filled;
  seen = see-AreSeen ip time s.requests s.last_seen h.seen;
  bans_seen = see-AreSeen ip time s.banned_ips s.last_seen h.bans_seen;
}

-- A limiter that lets something through and has room for it; both of the server are such.
pub record IsOpen (l : Limits) : Type 0 where
  pub some_limit : 0 < l.limit
  pub some_threshold : 0 < l.ban_threshold
  pub some_room : 0 < l.max_tracked_ips

module _ (l : Limits) (open_limits : IsOpen l) where
  count_request-IsTracked :
      (k : CallReadings) (ip : String) (s : State)
      → contains ip s.last_seen ≡ true
      → IsTracked s
      → IsTracked (count_request l k ip s).1
  unfolding count_request
  count_request-IsTracked k ip s there h =
      let times : List ℕ = drop_old l.period k.time (times_of ip s) in
      let s1 : State = record s { requests = insert ip times s.requests } in
      let s2 : State = record s1 { banned_ips = insert ip k.ban_now s1.banned_ips } in
      elim (Bool-cases (leb l.ban_threshold (length times))) [
        | inl high ↦
            rw (count_request, high)
              (persist-IsTracked l k.ban_saving s2 (
                ban-IsTracked ip k.ban_now s1 there (
                  store-IsTracked ip times s (ground (arith, high, open_limits.some_threshold))
                    there h)))
        | inr low ↦ elim (Bool-cases (leb l.limit (length times))) [
          | inl full ↦
              rw (count_request, low, full)
                (store-IsTracked ip times s (ground (arith, full, open_limits.some_limit)) there h)
          | inr room ↦
              rw (count_request, low, room)
                (store-IsTracked ip (times ++ k.time ∷ []) s
                  (ground (arith, length-append times (k.time ∷ []))) there h)
        ]
      ]

  -- A call leaves the addresses tracked, if loading the file did.
  pub is_rate_limited-IsTracked :
      (k : CallReadings) (ip : String) (s : State)
      → IsTracked (ensure_loaded l k.restored_now k.restored_time s)
      → IsTracked (is_rate_limited l k ip s).1
  unfolding is_rate_limited
  is_rate_limited-IsTracked k ip s h1 =
      let s1 : State = ensure_loaded l k.restored_now k.restored_time s in
      let s2 : State = cleanup_state l k.time k.cleanup_now k.cleanup_saving s1 in
      let h2 : IsTracked s2 =
        cleanup_state-IsTracked l k.time k.cleanup_now k.cleanup_saving s1 h1 in
      let s3 : State = make_room l ip s2 in
      let s4 : State = record s3 { last_seen = insert ip k.time s3.last_seen } in
      let h4 : IsTracked s4 = see-IsTracked ip k.time s3 (make_room-IsTracked l ip s2 h2) in
      let small : length s4.last_seen ≤ l.max_tracked_ips =
        length-make_room l ip k.time s2 open_limits.some_room h2
          (length-cleanup_state l k.time k.cleanup_now k.cleanup_saving s1) in
      let s5 : State = (is_banned l k.ban_test ip s4).1 in
      let h5 : IsTracked s5 = is_banned-IsTracked l k.ban_test ip s4 h4 in
      let there : contains ip s5.last_seen ≡ true = ground (
        arith,
        is_banned-last_seen l k.ban_test ip s4 h4 small,
        contains-insert ip ip k.time s3.last_seen,
        ==_refl ip,
      ) in
      elim (Bool-cases (is_banned l k.ban_test ip s4).0) [
        | inl banned ↦ rw (is_rate_limited, banned) h5
        | inr free ↦ rw (is_rate_limited, free) (count_request-IsTracked k ip s5 there h5)
      ]

restore_bans-bans :
    (now time : ℕ) (bans : Dict String ℕ) (s : State)
    → IsDict s.banned_ips
    → AreSeen s.banned_ips s.last_seen
    → let s' = restore_bans now time bans s in
      IsDict s'.banned_ips × AreSeen s'.banned_ips s'.last_seen
unfolding restore_bans
restore_bans-bans now time [] s h sub = (h, sub)
restore_bans-bans now time ((ip, banned_at) ∷ bans) s h sub =
    let s1 : State = record s {
      banned_ips = insert ip banned_at s.banned_ips;
      last_seen = insert ip time s.last_seen;
    } in
    let there : contains ip s1.last_seen ≡ true =
      ground (arith, contains-insert ip ip time s.last_seen, ==_refl ip) in
    elim (Bool-cases (leb now (banned_at + ban_ttl))) [
      | inl holds ↦
          rw (restore_bans, holds)
            (restore_bans-bans now time bans s1 (insert-IsDict ip banned_at s.banned_ips h) (
              insert-AreSeen ip banned_at s.banned_ips s1.last_seen there
                (see-AreSeen ip time s.banned_ips s.last_seen sub)))
      | inr over ↦ rw (restore_bans, over) (restore_bans-bans now time bans s h sub)
    ]

-- The first loading of a new limiter, from whatever file.
pub loaded-IsTracked :
    (l : Limits) (now time : ℕ) (file : Option (Dict String ℕ))
    → IsTracked (ensure_loaded l now time (fresh file))
unfolding ensure_loaded contains
loaded-IsTracked l now time none = if-keeps IsTracked l.has_state_file new new
  where
    new : IsTracked (record (fresh none) { loaded = true })
    new = record {
      restored = refl;
      keys = tt;
      bans = tt;
      filled = tt;
      seen = λ k c. absurd (ground (arith, c));
      bans_seen = λ k c. absurd (ground (arith, c));
    }
loaded-IsTracked l now time (some bans) =
    if-keeps IsTracked l.has_state_file
      (record {
        restored = refl;
        keys = rw (restore_bans-requests now time bans (fresh (some bans))) tt;
        bans = kept.0;
        filled = rw (restore_bans-requests now time bans (fresh (some bans))) tt;
        seen =
            rw (restore_bans-requests now time bans (fresh (some bans)))
              (λ k c. absurd (ground (arith, c)));
        bans_seen = kept.1;
      })
      (record {
        restored = refl;
        keys = tt;
        bans = tt;
        filled = tt;
        seen = λ k c. absurd (ground (arith, c));
        bans_seen = λ k c. absurd (ground (arith, c));
      })
  where
    kept :
        let s = restore_bans now time bans (fresh (some bans)) in
        IsDict s.banned_ips × AreSeen s.banned_ips s.last_seen
    kept =
        restore_bans-bans now time bans (fresh (some bans)) tt (λ k c. absurd (ground (arith, c)))
