-- ===== src/Dedup/Capacity.antt =====
-- The bounds of the cache in pytmbot/middleware/update_dedup.py: after every update it holds at most
-- `max_entries` entries, none of them expired, each with its record in the queue.
use pytmbot.Base.{
  ℕ, ◌+◌, ◌≤◌, ◌<◌, ◌≡◌, refl, true, false, ◌&&◌, some, List, [], ◌∷◌, ◌++◌, nat_beq, length, All,
  All-append, arith, Bool-cases, inl, inr,
}
use pytmbot.Base.Dict.{Dict, lookup, erase, IsDict, lookup-erase, lookup-insert, insert-IsDict}
use pytmbot.Base.Eq.{Eq, ◌==◌, ==_iff, ==_refl}
use pytmbot.Dedup.{
  Settings, State, is_some_eq, is_live, prune, pruned, register, check_and_register,
}
use pytmbot.Dedup.Prune.{queued, queued-append, prune_round, prune-IsDict}

-- Ordered by expiry, and none later than `last`.
abbrev pub IsAscending : {K : Type 0} → ℕ → List (K × ℕ) → Type 0
IsAscending last [] = Unit {0}
IsAscending last ((k, x) ∷ q) = (x ≤ last) × All (λ r. x ≤ r.1) q × IsAscending last q

module _ {K : Type 0} ⦃e : Eq K⦄ where
  -- Every entry has its record in the queue.
  abbrev pub IsQueued : List (K × ℕ) → Dict K ℕ → Type 0
  IsQueued q entries =
      (key : K) (expiry : ℕ) → lookup key entries ≡ some expiry → queued key expiry q ≡ true

  pub record IsConsistent (c : Settings) (last : ℕ) (s : State K) : Type 0 where
    pub unique : IsDict s.entries
    pub recorded : IsQueued s.queue s.entries
    pub ascending : IsAscending (last + c.ttl) s.queue

  none_queued : (entries : Dict K ℕ) → IsQueued [] entries → length entries ≡ 0
  unfolding queued lookup
  none_queued [] h = refl
  none_queued ((k, x) ∷ d) h = cc (h k x (ground (arith, ==_refl k)))

  erase-IsQueued :
      (k : K) (x : ℕ) (q : List (K × ℕ)) (entries : Dict K ℕ)
      → IsQueued ((k, x) ∷ q) entries
      → IsQueued q (erase k entries)
  unfolding queued
  erase-IsQueued k x q entries h key expiry l =
      ground (arith, h key expiry, lookup-erase k key entries)

  skip-IsQueued :
      (k : K) (x : ℕ) (q : List (K × ℕ)) (entries : Dict K ℕ)
      → is_some_eq (lookup k entries) x ≡ false
      → IsQueued ((k, x) ∷ q) entries
      → IsQueued q entries
  unfolding queued
  skip-IsQueued k x q entries stale h key expiry l = ground (arith, h key expiry, ==_iff k key)

  -- Where the loop stops: at an empty queue, or at a live record within the capacity.
  abbrev IsStopped : Settings → ℕ → List (K × ℕ) × Dict K ℕ → Type 0
  IsStopped c now ([], entries) = Unit {0}
  IsStopped c now ((k, x) ∷ q, entries) = (now < x) × (length entries ≤ c.max_entries)

  abbrev IsPruned : Settings → ℕ → ℕ → List (K × ℕ) × Dict K ℕ → Type 0
  IsPruned c now last r = IsQueued r.0 r.1 × IsAscending last r.0 × IsStopped c now r

  prune-IsPruned :
      (c : Settings) (now last : ℕ) (q : List (K × ℕ)) (entries : Dict K ℕ)
      → IsQueued q entries
      → IsAscending last q
      → IsPruned c now last (prune c now q entries)
  prune-IsPruned c now last [] entries h a = unfold prune in (h, a, tt)
  prune-IsPruned c now last ((k, x) ∷ q) entries h a =
      prune_round c now (IsPruned c now last) k x q entries (λ _ live room. (h, a, (live, room)))
        (λ _. prune-IsPruned c now last q (erase k entries) (erase-IsQueued k x q entries h) a.2)
        (λ stale. prune-IsPruned c now last q entries (skip-IsQueued k x q entries stale h) a.2)

  queued-All :
      (P : ℕ → Type 0) (key : K) (expiry : ℕ) (q : List (K × ℕ))
      → All (λ r. P r.1) q
      → queued key expiry q ≡ true
      → P expiry
  unfolding queued
  queued-All P key expiry [] a h = cc
  queued-All P key expiry ((k, x) ∷ q) a h = elim (Bool-cases (k == key && nat_beq x expiry)) [
    | inl here ↦ let same : x ≡ expiry = ground arith in rw same at (a.0)
    | inr there ↦ queued-All P key expiry q a.1 (ground arith)
  ]

  All-later :
      (now x : ℕ) (q : List (K × ℕ)) → now < x → All (λ r. x ≤ r.1) q → All (λ r. now < r.1) q
  All-later now x [] lt a = tt
  All-later now x ((k, y) ∷ q) lt a = (omega arith, All-later now x q lt a.1)

  live_of_pruned :
      (c : Settings) (now last : ℕ) (r : List (K × ℕ) × Dict K ℕ)
      → IsPruned c now last r
      → (key : K) (expiry : ℕ) → lookup key r.1 ≡ some expiry
      → now < expiry
  live_of_pruned c now last ([], entries) p key expiry l = unfold queued in cc (p.0 key expiry l)
  live_of_pruned c now last ((k, x) ∷ q, entries) p key expiry l =
      queued-All (λ y. now < y) key expiry ((k, x) ∷ q) (p.2.0, All-later now x q p.2.0 p.1.1)
        (p.0 key expiry l)

  room_of_pruned :
      (c : Settings) (now last : ℕ) (r : List (K × ℕ) × Dict K ℕ)
      → IsPruned c now last r
      → length r.1 ≤ c.max_entries
  room_of_pruned c now last ([], entries) p = omega (arith, none_queued entries p.0)
  room_of_pruned c now last ((k, x) ∷ q, entries) p = p.2.1

  append-IsAscending :
      (last now : ℕ) (k : K) (q : List (K × ℕ))
      → last ≤ now
      → IsAscending last q
      → IsAscending now (q ++ (k, now) ∷ [])
  append-IsAscending last now k [] le a = (omega arith, tt, tt)
  append-IsAscending last now k ((j, y) ∷ q) le a = (
    omega arith,
    All-append (λ r. y ≤ r.1) q ((k, now) ∷ []) a.1 (omega arith, tt),
    append-IsAscending last now k q le a.2,
  )

  later-IsAscending :
      (last now : ℕ) (q : List (K × ℕ)) → last ≤ now → IsAscending last q → IsAscending now q
  later-IsAscending last now [] le a = tt
  later-IsAscending last now ((j, y) ∷ q) le a =
      (omega arith, a.1, later-IsAscending last now q le a.2)

  -- A state that a call can leave behind at a moment.
  pub record IsSettled (c : Settings) (now : ℕ) (s : State K) : Type 0 where
    pub consistent : IsConsistent c now s
    pub bounded : length s.entries ≤ c.max_entries
    pub live : (key : K) (expiry : ℕ) → lookup key s.entries ≡ some expiry → now < expiry

  module _ (c : Settings) (last now : ℕ) (later : last ≤ now) where
    pruned-IsConsistent :
        (s : State K) → IsConsistent c last s → IsConsistent c now (pruned c now s)
    unfolding pruned
    pruned-IsConsistent s h =
        let p = prune-IsPruned c now (last + c.ttl) s.queue s.entries h.recorded h.ascending in
        record {
          unique = prune-IsDict c now s.queue s.entries h.unique;
          recorded = p.0;
          ascending =
              later-IsAscending (last + c.ttl) (now + c.ttl) (prune c now s.queue s.entries).0
                (omega arith) p.1;
        }

    pruned-IsSettled : (s : State K) → IsConsistent c last s → IsSettled c now (pruned c now s)
    unfolding pruned
    pruned-IsSettled s h =
        let p = prune-IsPruned c now (last + c.ttl) s.queue s.entries h.recorded h.ascending in
        let r : List (K × ℕ) × Dict K ℕ = prune c now s.queue s.entries in
        record {
          consistent = pruned-IsConsistent s h;
          bounded = room_of_pruned c now (last + c.ttl) r p;
          live = live_of_pruned c now (last + c.ttl) r p;
        }

  register-IsConsistent :
      (c : Settings) (key : K) (now : ℕ) (s : State K)
      → IsConsistent c now s
      → IsConsistent c now (register c key now s)
  unfolding register
  register-IsConsistent c key now s h = record {
    unique = insert-IsDict key (now + c.ttl) s.entries h.unique;
    recorded = λ k x l. ground (
      arith,
      ==_iff key k,
      h.recorded k x,
      queued-append k x key (now + c.ttl) s.queue,
      lookup-insert key k (now + c.ttl) s.entries,
    );
    ascending =
        append-IsAscending (now + c.ttl) (now + c.ttl) key s.queue (omega arith) h.ascending;
  }

  check-IsSettled :
      (c : Settings) (key : K) (last now : ℕ) (s : State K)
      → last ≤ now
      → IsConsistent c last s
      → IsSettled c now (check_and_register c key now s).1
  unfolding check_and_register
  check-IsSettled c key last now s later h =
      elim (Bool-cases (is_live (lookup key (pruned c now s).entries) now)) [
        | inl duplicate ↦ rw duplicate (
            let t = pruned-IsSettled c last now later s h in
            record {
              consistent = record {
                unique = t.consistent.unique;
                recorded = t.consistent.recorded;
                ascending = t.consistent.ascending;
              };
              bounded = t.bounded;
              live = t.live;
            })
        | inr fresh ↦ rw fresh (
            pruned-IsSettled c now now (omega arith) (register c key now (pruned c now s)) (
              register-IsConsistent c key now (pruned c now s)
                (pruned-IsConsistent c last now later s h)))
      ]

  -- The state after a sequence of keyed updates, and the time of the last of them.
  unfoldable pub after : Settings → List (K × ℕ) → State K → State K
  after c [] s = s
  after c ((key, now) ∷ us) s = after c us (check_and_register c key now s).1

  abbrev pub last_time : ℕ → List (K × ℕ) → ℕ
  last_time last [] = last
  last_time last ((key, now) ∷ us) = last_time now us

  -- The monotonic clock does not go back.
  abbrev pub IsOrdered : ℕ → List (K × ℕ) → Type 0
  IsOrdered last [] = Unit {0}
  IsOrdered last ((key, now) ∷ us) = (last ≤ now) × IsOrdered now us

  after-keeps :
      (c : Settings) (last : ℕ) (us : List (K × ℕ)) (s : State K)
      → IsOrdered last us
      → IsSettled c last s
      → IsSettled c (last_time last us) (after c us s)
  unfolding after
  after-keeps c last [] s o h = h
  after-keeps c last ((key, now) ∷ us) s o h =
      after-keeps c now us (check_and_register c key now s).1 o.1
        (check-IsSettled c key last now s o.0 h.consistent)

  abbrev pub initial : State K
  initial = record { entries = []; queue = []; dropped_duplicates = 0; accepted_updates = 0 }

  initial-IsSettled : (c : Settings) → IsSettled c 0 initial
  unfolding queued lookup
  initial-IsSettled c = record {
    consistent = record { unique = tt; recorded = λ k x l. cc; ascending = tt };
    bounded = omega arith;
    live = λ k x l. cc;
  }

  -- After any keyed updates at times that do not go back, the cache holds no key twice and at most
  -- `max_entries` entries, each has its record in the queue, and each expires only after the time of
  -- the last update: what has expired is gone.
  pub after-IsSettled :
      (c : Settings) (us : List (K × ℕ))
      → IsOrdered 0 us
      → IsSettled c (last_time 0 us) (after c us initial)
  after-IsSettled c us o = after-keeps c 0 us initial o (initial-IsSettled c)
