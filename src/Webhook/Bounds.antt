-- ===== src/Webhook/Bounds.antt =====
-- What stays bounded in `RateLimit` of pytmbot/webhook.py, and who is banned.
use pytmbot.Base.{
  ℕ, ◌≤◌, ◌<◌, ◌≡◌, refl, String, Bool, true, false, Option, List, [], ◌∷◌, arith, length,
}
use pytmbot.Base.Dict.{Dict, insert, erase}
use pytmbot.Base.Eq.{string_eq}
use pytmbot.Webhook.Limiter.{
  Limits, State, Readings, CallReadings, fresh, ensure_loaded, cleanup_state, is_banned, drop_old,
  times_of, make_room, count_request, is_rate_limited,
}
use pytmbot.Webhook.Evictions.{length-cleanup_state, persist-last_seen}
use pytmbot.Webhook.Tracked.{length-le, IsTracked, ensure_loaded-loaded}
use pytmbot.Webhook.Seen.{IsOpen, is_rate_limited-IsTracked, loaded-IsTracked}
use pytmbot.Webhook.Keeps.{AreShort, bans_of, IsKept, is_rate_limited-IsKept}

length-is_banned :
    (l : Limits) (k : Readings) (ip : String) (s : State)
    → length (is_banned l k ip s).1.last_seen ≤ l.max_tracked_ips
unfolding is_banned
length-is_banned l k ip s =
    let s1 : State = ensure_loaded l k.restored_now k.restored_time s in
    let s2 : State = cleanup_state l k.time k.cleanup_now k.cleanup_saving s1 in
    ground (
      arith,
      length-cleanup_state l k.time k.cleanup_now k.cleanup_saving s1,
      persist-last_seen l k.saving (record s2 { banned_ips = erase ip s2.banned_ips }),
    )

length-is_rate_limited :
    (l : Limits) (k : CallReadings) (ip : String) (s : State)
    → length (is_rate_limited l k ip s).1.last_seen ≤ l.max_tracked_ips
unfolding is_rate_limited count_request
length-is_rate_limited l k ip s =
    let s1 : State = ensure_loaded l k.restored_now k.restored_time s in
    let s2 : State = cleanup_state l k.time k.cleanup_now k.cleanup_saving s1 in
    let s3 : State = make_room l ip s2 in
    let s4 : State = record s3 { last_seen = insert ip k.time s3.last_seen } in
    let s5 : State = (is_banned l k.ban_test ip s4).1 in
    let times : List ℕ = drop_old l.period k.time (times_of ip s5) in
    ground (
      arith,
      length-is_banned l k.ban_test ip s4,
      persist-last_seen l k.ban_saving (record s5 {
        requests = insert ip times s5.requests;
        banned_ips = insert ip k.ban_now s5.banned_ips;
      }),
    )

unfoldable pub limit_all : Limits → List (CallReadings × String) → State → State
limit_all l [] s = s
limit_all l ((k, ip) ∷ calls) s = limit_all l calls (is_rate_limited l k ip s).1

-- The addresses seen, those with stored requests and those with a ban are no more than the cap, and
-- for each there are no more times of requests than the limit.
pub record IsBounded (l : Limits) (s : State) : Type 0 where
  pub tracked : length s.last_seen ≤ l.max_tracked_ips
  pub counted : length s.requests ≤ l.max_tracked_ips
  pub banned : length s.banned_ips ≤ l.max_tracked_ips
  pub short : AreShort l.limit s.requests

limit_all-IsKept :
    (l : Limits) (quiet : Bool) (calls : List (CallReadings × String)) (s : State)
    → (quiet ≡ true → l.limit < l.ban_threshold)
    → IsKept l.limit quiet s
    → IsKept l.limit quiet (limit_all l calls s)
unfolding limit_all
limit_all-IsKept l quiet [] s order h = h
limit_all-IsKept l quiet ((k, ip) ∷ calls) s order h =
    limit_all-IsKept l quiet calls (is_rate_limited l k ip s).1 order
      (is_rate_limited-IsKept l quiet order k ip s h)

limit_all-tracked :
    (l : Limits) (calls : List (CallReadings × String)) (s : State)
    → length s.last_seen ≤ l.max_tracked_ips
    → length (limit_all l calls s).last_seen ≤ l.max_tracked_ips
unfolding limit_all
limit_all-tracked l [] s h = h
limit_all-tracked l ((k, ip) ∷ calls) s h =
    limit_all-tracked l calls (is_rate_limited l k ip s).1 (length-is_rate_limited l k ip s)

-- Requests and bans are stored of no more addresses than were seen.
abbrev AreNoMore : State → Type 0
AreNoMore s = (length s.requests ≤ length s.last_seen) × (length s.banned_ips ≤ length s.last_seen)

IsTracked-AreNoMore : (s : State) → IsTracked s → AreNoMore s
IsTracked-AreNoMore s h = (
  length-le s.requests s.last_seen h.keys h.seen,
  length-le s.banned_ips s.last_seen h.bans h.bans_seen,
)

limit_all-AreNoMore :
    (l : Limits) (calls : List (CallReadings × String)) (s : State)
    → IsOpen l
    → AreNoMore s
    → ((now time : ℕ) → IsTracked (ensure_loaded l now time s))
    → AreNoMore (limit_all l calls s)
unfolding limit_all
limit_all-AreNoMore l [] s limits fewer ready = fewer
limit_all-AreNoMore l ((k, ip) ∷ calls) s limits fewer ready =
    let s' : State = (is_rate_limited l k ip s).1 in
    let h : IsTracked s' =
      is_rate_limited-IsTracked l limits k ip s (ready k.restored_now k.restored_time) in
    limit_all-AreNoMore l calls s' limits (IsTracked-AreNoMore s' h)
      (λ now time. rw (ensure_loaded-loaded l now time s' h.restored) h)

-- After any sequence of requests, from whatever file, at any readings of the clocks, if the limit, the
-- threshold of bans and the cap are not zero: there are at most as many addresses as the cap among
-- those seen, among those with stored requests and among the banned ones, and of each address at most
-- as many times of requests as the limit.
pub limit_all-IsBounded :
    (l : Limits) (calls : List (CallReadings × String)) (file : Option (Dict String ℕ))
    → IsOpen l
    → IsBounded l (limit_all l calls (fresh file))
limit_all-IsBounded l calls file limits =
    let seen = limit_all-tracked l calls (fresh file) (omega arith) in
    let fewer =
      limit_all-AreNoMore l calls (fresh file) limits (omega arith, omega arith)
        (λ now time. loaded-IsTracked l now time file) in
    record {
      tracked = seen;
      counted = omega (arith, seen, fewer);
      banned = omega (arith, seen, fewer);
      short =
          (limit_all-IsKept l false calls (fresh file) (λ q. ground (arith, q))
            (record { short = tt; unbanned = λ q. ground (arith, q) })).short;
    }

-- A limiter whose limit is below its threshold for bans, as both of the server are, bans nobody: a
-- deque stops growing at the limit. After any sequence of requests, from a file without bans, there
-- is no ban in the state and none in the file.
pub nobody_is_banned :
    (l : Limits) (calls : List (CallReadings × String)) (file : Option (Dict String ℕ))
    → l.limit < l.ban_threshold
    → bans_of file ≡ []
    → ((limit_all l calls (fresh file)).banned_ips ≡ [])
      × (bans_of (limit_all l calls (fresh file)).file ≡ [])
nobody_is_banned l calls file order empty =
    (limit_all-IsKept l true calls (fresh file) (λ q. order)
        (record { short = tt; unbanned = λ q. (refl, empty) })).unbanned
      refl
