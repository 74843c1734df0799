-- ===== src/Webhook/Keeps.antt =====
-- What every operation of `RateLimit` of pytmbot/webhook.py keeps: short deques, and no bans.
use pytmbot.Base.{
  ℕ, zero, suc, ◌+◌, ◌≤◌, ◌<◌, ◌≡◌, refl, String, Bool, true, not, ◌&&◌, Option, none, some, List,
  [], ◌∷◌, ◌++◌, arith, leb, ltb, length, length-append, All, Bool-cases, Option-cases, inl, inr,
  if-keeps,
}
use pytmbot.Base.Dict.{Dict, lookup, contains, insert, erase}
use pytmbot.Base.Eq.{string_eq}
use pytmbot.Webhook.Limiter.{
  Limits, State, Saving, Readings, CallReadings, ban_ttl, restore_bans, ensure_loaded, persist,
  drop_ip, drop_ips, oldest, evict_oldest_ip, evict_while, expired_bans, lift_bans, stale_ips,
  sweep, cleanup_state, is_empty, is_banned, drop_old, times_of, make_room, count_request,
  is_rate_limited,
}

-- No deque holds more than `limit` times.
abbrev pub AreShort : ℕ → Dict String (List ℕ) → Type 0
AreShort limit d = All (λ e. length e.1 ≤ limit) d

erase-AreShort :
    (limit : ℕ) (k : String) (d : Dict String (List ℕ))
    → AreShort limit d
    → AreShort limit (erase k d)
unfolding erase
erase-AreShort limit k [] h = tt
erase-AreShort limit k ((j, ts) ∷ d) h = ground (arith, erase-AreShort limit k d)

insert-AreShort :
    (limit : ℕ) (k : String) (ts : List ℕ) (d : Dict String (List ℕ))
    → length ts ≤ limit
    → AreShort limit d
    → AreShort limit (insert k ts d)
unfolding insert
insert-AreShort limit k ts [] le h = (le, tt)
insert-AreShort limit k ts ((j, us) ∷ d) le h = ground (arith, insert-AreShort limit k ts d)

abbrev pub bans_of : Option (Dict String ℕ) → Dict String ℕ
bans_of none = []
bans_of (some bans) = bans

-- The deques are short and, if `quiet` holds, nobody is banned, in the state or in its file.
pub record IsKept (limit : ℕ) (quiet : Bool) (s : State) : Type 0 where
  pub short : AreShort limit s.requests
  pub unbanned : quiet ≡ true → (s.banned_ips ≡ []) × (bans_of s.file ≡ [])

pub restore_bans-requests :
    (now time : ℕ) (bans : Dict String ℕ) (s : State)
    → (restore_bans now time bans s).requests ≡ s.requests
unfolding restore_bans
restore_bans-requests now time [] s = refl
restore_bans-requests now time ((ip, banned_at) ∷ bans) s = ground (
  arith,
  restore_bans-requests now time bans s,
  restore_bans-requests now time bans (record s {
    banned_ips = insert ip banned_at s.banned_ips;
    last_seen = insert ip time s.last_seen;
  }),
)

module _ (limit : ℕ) (quiet : Bool) where
  drop_ip-IsKept :
      (ip : String) (s : State) → IsKept limit quiet s → IsKept limit quiet (drop_ip ip s)
  unfolding drop_ip erase
  drop_ip-IsKept ip s h = record {
    short = erase-AreShort limit ip s.requests h.short;
    unbanned = λ q. ground (arith, h.unbanned q);
  }

  drop_ips-IsKept :
      (ips : List String) (s : State) → IsKept limit quiet s → IsKept limit quiet (drop_ips ips s)
  unfolding drop_ips
  drop_ips-IsKept [] s h = h
  drop_ips-IsKept (ip ∷ ips) s h = drop_ips-IsKept ips (drop_ip ip s) (drop_ip-IsKept ip s h)

  evict_oldest_ip-IsKept :
      (s : State) → IsKept limit quiet s → IsKept limit quiet (evict_oldest_ip s)
  unfolding evict_oldest_ip
  evict_oldest_ip-IsKept s h = by_cases s.last_seen
    where
      by_cases :
          (d : Dict String ℕ)
          → IsKept limit quiet
              (elim d as (λ x. State) [ [] ↦ s | (ip, t) ∷ e ↦ drop_ip (oldest ip t e) s ])
      by_cases [] = h
      by_cases ((ip, t) ∷ e) = drop_ip-IsKept (oldest ip t e) s h

  evict_while-IsKept :
      (cap rounds : ℕ) (s : State)
      → IsKept limit quiet s
      → IsKept limit quiet (evict_while cap rounds s)
  unfolding evict_while
  evict_while-IsKept cap zero s h = h
  evict_while-IsKept cap (suc rounds) s h =
      if-keeps (IsKept limit quiet) (ltb cap (length s.last_seen))
        (evict_while-IsKept cap rounds (evict_oldest_ip s) (evict_oldest_ip-IsKept s h)) h

  lift_bans-IsKept :
      (ips : List String) (s : State) → IsKept limit quiet s → IsKept limit quiet (lift_bans ips s)
  unfolding lift_bans erase
  lift_bans-IsKept [] s h = h
  lift_bans-IsKept (ip ∷ ips) s h =
      lift_bans-IsKept ips (record s { banned_ips = erase ip s.banned_ips })
        (record { short = h.short; unbanned = λ q. ground (arith, h.unbanned q) })

  persist-IsKept :
      (l : Limits) (k : Saving) (s : State)
      → IsKept limit quiet s
      → IsKept limit quiet (persist l k s)
  unfolding persist
  persist-IsKept l k s h = record {
    short = ground (arith, h.short);
    unbanned = λ q. ground (arith, h.unbanned q);
  }

  sweep-IsKept :
      (l : Limits) (now : ℕ) (k : Saving) (s : State)
      → IsKept limit quiet s
      → IsKept limit quiet (sweep l now k s)
  unfolding sweep
  sweep-IsKept l now k s h =
      let s1 : State = lift_bans (expired_bans now s.banned_ips) s in
      let stale : List String = stale_ips s1.banned_ips s1.requests in
      let s2 : State = drop_ips stale s1 in
      let s3 : State = evict_while l.max_tracked_ips (length s2.last_seen) s2 in
      let h3 : IsKept limit quiet s3 =
        evict_while-IsKept l.max_tracked_ips (length s2.last_seen) s2
          (drop_ips-IsKept stale s1 (lift_bans-IsKept (expired_bans now s.banned_ips) s h)) in
      if-keeps (IsKept limit quiet) (is_empty (expired_bans now s.banned_ips) && is_empty stale) h3
        (persist-IsKept l k s3 h3)

  cleanup_state-IsKept :
      (l : Limits) (time now : ℕ) (k : Saving) (s : State)
      → IsKept limit quiet s
      → IsKept limit quiet (cleanup_state l time now k s)
  unfolding cleanup_state
  cleanup_state-IsKept l time now k s h =
      if-keeps (IsKept limit quiet)
        (ltb time (s.last_cleanup + 60_000_000) && leb (length s.last_seen) l.max_tracked_ips) h
        (sweep-IsKept l now k (record s { last_cleanup = time })
          (record { short = h.short; unbanned = h.unbanned }))

  ensure_loaded-IsKept :
      (l : Limits) (now time : ℕ) (s : State)
      → IsKept limit quiet s
      → IsKept limit quiet (ensure_loaded l now time s)
  unfolding ensure_loaded restore_bans
  ensure_loaded-IsKept l now time s h = elim (Option-cases s.file) [
    | inl e ↦ record {
      short = ground (arith, h.short);
      unbanned = λ q. ground (arith, h.unbanned q);
    }
    | inr (bans, e) ↦ record {
      short = ground (arith, h.short, restore_bans-requests now time bans s);
      unbanned = λ q. by_bans bans e (h.unbanned q);
    }
  ]
    where
      by_bans :
          (bans : Dict String ℕ)
          → s.file ≡ some bans
          → (s.banned_ips ≡ []) × (bans_of s.file ≡ [])
          → ((ensure_loaded l now time s).banned_ips ≡ [])
            × (bans_of (ensure_loaded l now time s).file ≡ [])
      by_bans [] e u = ground (arith, u)
      by_bans ((ip, t) ∷ bans) e u = ground (arith, u)

  is_banned-IsKept :
      (l : Limits) (k : Readings) (ip : String) (s : State)
      → IsKept limit quiet s
      → IsKept limit quiet (is_banned l k ip s).1
  unfolding is_banned erase
  is_banned-IsKept l k ip s h =
      let s1 : State = ensure_loaded l k.restored_now k.restored_time s in
      let s2 : State = cleanup_state l k.time k.cleanup_now k.cleanup_saving s1 in
      let h2 : IsKept limit quiet s2 =
        cleanup_state-IsKept l k.time k.cleanup_now k.cleanup_saving s1
          (ensure_loaded-IsKept l k.restored_now k.restored_time s h) in
      let s3 : State = record s2 { banned_ips = erase ip s2.banned_ips } in
      let h3 : IsKept limit quiet s3 = record {
        short = h2.short;
        unbanned = λ q. ground (arith, h2.unbanned q);
      } in
      elim (Option-cases (lookup ip s2.banned_ips)) [
        | inl e ↦ rw (is_banned, e) h2
        | inr (banned_at, e) ↦ elim (Bool-cases (ltb (banned_at + ban_ttl) k.now)) [
          | inl over ↦ rw (is_banned, e, over) (persist-IsKept l k.saving s3 h3)
          | inr holds ↦ rw (is_banned, e, holds) h2
        ]
      ]

  make_room-IsKept :
      (l : Limits) (ip : String) (s : State)
      → IsKept limit quiet s
      → IsKept limit quiet (make_room l ip s)
  make_room-IsKept l ip s h =
      if-keeps (IsKept limit quiet)
        (not (contains ip s.requests)
          && not (contains ip s.last_seen)
          && leb l.max_tracked_ips (length s.last_seen))
        (evict_oldest_ip-IsKept s h) h

length-drop_old : (period time : ℕ) (ts : List ℕ) → length (drop_old period time ts) ≤ length ts
unfolding drop_old
length-drop_old period time [] = omega arith
length-drop_old period time (t ∷ ts) = ground (arith, length-drop_old period time ts)

length-lookup :
    (limit : ℕ) (ip : String) (d : Dict String (List ℕ))
    → AreShort limit d
    → length (elim (lookup ip d) as (λ x. List ℕ) [ none ↦ [] | some ts ↦ ts ]) ≤ limit
unfolding lookup
length-lookup limit ip [] h = omega arith
length-lookup limit ip ((j, ts) ∷ d) h = ground (arith, length-lookup limit ip d)

module _ (l : Limits) (quiet : Bool) (order : quiet ≡ true → l.limit < l.ban_threshold) where
  count_request-IsKept :
      (k : CallReadings) (ip : String) (s : State)
      → IsKept l.limit quiet s
      → IsKept l.limit quiet (count_request l k ip s).1
  unfolding count_request
  count_request-IsKept k ip s h =
      let times : List ℕ = drop_old l.period k.time (times_of ip s) in
      let le : length times ≤ l.limit = omega (
        arith,
        length-drop_old l.period k.time (times_of ip s),
        length-lookup l.limit ip s.requests h.short,
      ) in
      let s1 : State = record s { requests = insert ip times s.requests } in
      let h1 : IsKept l.limit quiet s1 = record {
        short = insert-AreShort l.limit ip times s.requests le h.short;
        unbanned = h.unbanned;
      } in
      elim (Bool-cases (leb l.ban_threshold (length times))) [
        | inl high ↦
            rw (count_request, high)
              (persist-IsKept l.limit quiet l k.ban_saving
                (record s1 { banned_ips = insert ip k.ban_now s.banned_ips })
                (record { short = h1.short; unbanned = λ q. ground (arith, order q) }))
        | inr low ↦ elim (Bool-cases (leb l.limit (length times))) [
          | inl full ↦ rw (count_request, low, full) h1
          | inr room ↦
              rw (count_request, low, room)
                (record {
                  short =
                      insert-AreShort l.limit ip (times ++ k.time ∷ []) s.requests
                        (ground (arith, length-append times (k.time ∷ []))) h.short;
                  unbanned = h.unbanned;
                })
        ]
      ]

  pub is_rate_limited-IsKept :
      (k : CallReadings) (ip : String) (s : State)
      → IsKept l.limit quiet s
      → IsKept l.limit quiet (is_rate_limited l k ip s).1
  unfolding is_rate_limited
  is_rate_limited-IsKept k ip s h =
      let s1 : State = ensure_loaded l k.restored_now k.restored_time s in
      let s2 : State = cleanup_state l k.time k.cleanup_now k.cleanup_saving s1 in
      let s3 : State = make_room l ip s2 in
      let h3 : IsKept l.limit quiet s3 = make_room-IsKept l.limit quiet l ip s2 (
        cleanup_state-IsKept l.limit quiet l k.time k.cleanup_now k.cleanup_saving s1
          (ensure_loaded-IsKept l.limit quiet l k.restored_now k.restored_time s h)) in
      let s4 : State = record s3 { last_seen = insert ip k.time s3.last_seen } in
      let h5 : IsKept l.limit quiet (is_banned l k.ban_test ip s4).1 =
        is_banned-IsKept l.limit quiet l k.ban_test ip s4
          (record { short = h3.short; unbanned = h3.unbanned }) in
      elim (Bool-cases (is_banned l k.ban_test ip s4).0) [
        | inl banned ↦ rw (is_rate_limited, banned) h5
        | inr free ↦
            rw (is_rate_limited, free)
              (count_request-IsKept k ip (is_banned l k.ban_test ip s4).1 h5)
      ]
