-- ===== src/Dedup/Spec.antt =====
-- The promise of pytmbot/middleware/update_dedup.py: an update is dropped exactly if its key was
-- accepted less than a TTL ago; under pressure on its capacity the cache may forget, but it never
-- drops an update that is no duplicate.
use pytmbot.Base.{
  ℕ, ◌+◌, ◌≤◌, ◌<◌, ◌≡◌, refl, Bool, true, false, not, Option, none, some, List, [], ◌∷◌, ◌++◌, ltb,
  length, if◌then◌else◌, arith, Option-cases, Bool-cases, inl, inr,
}
use pytmbot.Base.Dict.{Dict, lookup, insert, length-insert, lookup-insert}
use pytmbot.Base.Eq.{Eq, ◌==◌}
use pytmbot.Dedup.{Settings, State, is_live, prune, register, check_and_register}
use pytmbot.Dedup.Prune.{lookup-prune, lookup-prune_kept, length-prune}
use pytmbot.Dedup.Capacity.{initial, after, IsOrdered}

module _ {K : Type 0} ⦃e : Eq K⦄ where
  -- When a key was accepted last; the history is newest first.
  unfoldable pub accepted_at : K → List (K × ℕ) → Option ℕ
  accepted_at key [] = none
  accepted_at key ((k, t) ∷ h) = if k == key then some t else accepted_at key h

  -- The key was accepted less than a TTL ago.
  abbrev pub is_duplicate : Settings → K → ℕ → List (K × ℕ) → Bool
  is_duplicate c key now h = elim (accepted_at key h) [
    | none ↦ false
    | some t ↦ ltb now (t + c.ttl)
  ]

  -- The answers of a sequence of updates, with the history that the accepted ones make.
  unfoldable pub run : Settings → List (K × ℕ) → State K → List Bool
  run c [] s = []
  run c ((key, now) ∷ us) s =
      let (fresh, s') = check_and_register c key now s in fresh ∷ run c us s'

  unfoldable pub spec_run : Settings → List (K × ℕ) → List (K × ℕ) → List Bool
  spec_run c [] h = []
  spec_run c ((key, now) ∷ us) h =
      let fresh = not (is_duplicate c key now h) in
      fresh ∷ spec_run c us (if fresh then (key, now) ∷ h else h)

  -- The history that the cache's own answers make.
  unfoldable pub history : Settings → List (K × ℕ) → State K → List (K × ℕ) → List (K × ℕ)
  history c [] s h = h
  history c ((key, now) ∷ us) s h =
      let (fresh, s') = check_and_register c key now s in
      history c us s' (if fresh then (key, now) ∷ h else h)

  -- Every entry is of an accepted update, the last of its key.
  abbrev pub IsSound : Settings → Dict K ℕ → List (K × ℕ) → Type 0
  IsSound c d h =
      (k : K) (x : ℕ) → lookup k d ≡ some x → (t : ℕ) × (accepted_at k h ≡ some t) × (x ≡ t + c.ttl)

  -- The last accepted update of a key has an entry until it expires.
  abbrev pub IsComplete : Settings → ℕ → Dict K ℕ → List (K × ℕ) → Type 0
  IsComplete c last d h =
      (k : K) (t : ℕ) → accepted_at k h ≡ some t → last < t + c.ttl → lookup k d ≡ some (t + c.ttl)

  module _ (c : Settings) (key : K) (now : ℕ) where
    prune-IsSound :
        (q : List (K × ℕ)) (d : Dict K ℕ) (h : List (K × ℕ))
        → IsSound c d h
        → IsSound c (prune c now q d).1 h
    prune-IsSound q d h sound k x l = sound k x (lookup-prune c now q d k x l)

    insert-IsSound :
        (d : Dict K ℕ) (h : List (K × ℕ))
        → IsSound c d h
        → IsSound c (insert key (now + c.ttl) d) ((key, now) ∷ h)
    unfolding accepted_at
    insert-IsSound d h sound k x l = elim (Bool-cases (key == k)) [
      | inl same ↦ (now, rw same, ground (arith, lookup-insert key k (now + c.ttl) d))
      | inr differ ↦ rw differ (sound k x (ground (arith, lookup-insert key k (now + c.ttl) d)))
    ]

    check-IsSound :
        (s : State K) (h : List (K × ℕ))
        → IsSound c s.entries h
        → let (fresh, s') = check_and_register c key now s in
          IsSound c s'.entries (if fresh then (key, now) ∷ h else h)
    unfolding check_and_register
    check-IsSound s h sound =
        let d : Dict K ℕ = (prune c now s.queue s.entries).1 in
        let sound' : IsSound c d h = prune-IsSound s.queue s.entries h sound in
        elim (Bool-cases (is_live (lookup key d) now)) [
          | inl live ↦ rw live sound'
          | inr dead ↦ rw dead (
              prune-IsSound _ (insert key (now + c.ttl) d) ((key, now) ∷ h)
                (insert-IsSound d h sound'))
        ]

    check-duplicate :
        (s : State K) (h : List (K × ℕ))
        → IsSound c s.entries h
        → (check_and_register c key now s).0 ≡ false
        → is_duplicate c key now h ≡ true
    unfolding check_and_register
    check-duplicate s h sound dropped =
        elim (Option-cases (lookup key (prune c now s.queue s.entries).1)) [
          | inl e ↦ ground arith
          | inr (x, e) ↦
              let (t, at, expiry) = prune-IsSound s.queue s.entries h sound key x e in
              ground (arith, at, expiry, e)
        ]

  after-IsSound :
      (c : Settings) (us : List (K × ℕ)) (s : State K) (h : List (K × ℕ))
      → IsSound c s.entries h
      → IsSound c (after c us s).entries (history c us s h)
  unfolding after history
  after-IsSound c [] s h sound = sound
  after-IsSound c ((key, now) ∷ us) s h sound =
      after-IsSound c us (check_and_register c key now s).1
        (if (check_and_register c key now s).0 then (key, now) ∷ h else h)
        (check-IsSound c key now s h sound)

  -- After any updates, at any times and under any pressure on the capacity, an update is dropped
  -- only if its key was accepted less than a TTL ago.
  dropped-is_duplicate :
      (c : Settings) (us : List (K × ℕ)) (key : K) (now : ℕ)
      → (check_and_register c key now (after c us initial)).0 ≡ false
      → is_duplicate c key now (history c us initial []) ≡ true
  unfolding lookup
  dropped-is_duplicate c us key now =
      check-duplicate c key now (after c us initial) (history c us initial [])
        (after-IsSound c us initial [] (λ k x l. cc))

  module _ (c : Settings) (last now : ℕ) (later : last ≤ now) where
    prune-IsComplete :
        (q : List (K × ℕ)) (d : Dict K ℕ) (h : List (K × ℕ))
        → length d ≤ c.max_entries
        → IsComplete c last d h
        → IsComplete c now (prune c now q d).1 h
    prune-IsComplete q d h room complete k t at live =
        lookup-prune_kept c now q d k (t + c.ttl) room live (complete k t at (omega arith))

    insert-IsComplete :
        (key : K) (d : Dict K ℕ) (h : List (K × ℕ))
        → IsComplete c now d h
        → IsComplete c now (insert key (now + c.ttl) d) ((key, now) ∷ h)
    unfolding accepted_at
    insert-IsComplete key d h complete k t at live =
        ground (arith, lookup-insert key k (now + c.ttl) d, complete k t)

  pub record Represents (c : Settings) (last : ℕ) (s : State K) (h : List (K × ℕ)) : Type 0 where
    pub sound : IsSound c s.entries h
    pub complete : IsComplete c last s.entries h
    pub small : length s.entries ≤ length h

  module _ (c : Settings) (key : K) (last now : ℕ) (s : State K) (h : List (K × ℕ))
      (later : last ≤ now) (room : length h < c.max_entries) (rep : Represents c last s h) where
    abbrev kept : Dict K ℕ
    kept = (prune c now s.queue s.entries).1

    kept-IsComplete : IsComplete c now kept h
    kept-IsComplete =
        prune-IsComplete c last now later s.queue s.entries h (omega (arith, rep.small))
          rep.complete

    pub check-answer : (check_and_register c key now s).0 ≡ not (is_duplicate c key now h)
    unfolding check_and_register
    check-answer = elim (Option-cases (lookup key kept)) [
      | inl e ↦ elim (Option-cases (accepted_at key h)) [
        | inl f ↦ ground arith
        | inr (t, f) ↦ ground (arith, kept-IsComplete key t f)
      ]
      | inr (x, e) ↦
          let (t, at, expiry) = prune-IsSound c key now s.queue s.entries h rep.sound key x e in
          ground (arith, at, expiry, e)
    ]

    check-small :
        let (fresh, s') = check_and_register c key now s in
        length s'.entries ≤ length (if fresh then (key, now) ∷ h else h)
    unfolding check_and_register register
    check-small = ground (
      arith,
      rep.small,
      length-prune c now s.queue s.entries,
      length-insert key (now + c.ttl) kept,
      length-prune c now ((prune c now s.queue s.entries).0 ++ (key, now + c.ttl) ∷ [])
          (insert key (now + c.ttl) kept),
    )

    check-IsComplete :
        let (fresh, s') = check_and_register c key now s in
        IsComplete c now s'.entries (if fresh then (key, now) ∷ h else h)
    unfolding check_and_register
    check-IsComplete = elim (Bool-cases (is_live (lookup key kept) now)) [
      | inl live ↦ rw live kept-IsComplete
      | inr dead ↦ rw dead (
          prune-IsComplete c now now (omega arith) _ (insert key (now + c.ttl) kept)
            ((key, now) ∷ h)
            (ground (
              arith,
              rep.small,
              length-prune c now s.queue s.entries,
              length-insert key (now + c.ttl) kept,
            ))
            (insert-IsComplete c last now later key kept h kept-IsComplete))
    ]

    pub check-Represents :
        let (fresh, s') = check_and_register c key now s in
        Represents c now s' (if fresh then (key, now) ∷ h else h)
    check-Represents = record {
      sound = check-IsSound c key now s h rep.sound;
      complete = check-IsComplete;
      small = check-small;
    }

  run-spec_run :
      (c : Settings) (last : ℕ) (us : List (K × ℕ)) (s : State K) (h : List (K × ℕ))
      → IsOrdered last us
      → length h + length us ≤ c.max_entries
      → Represents c last s h
      → run c us s ≡ spec_run c us h
  unfolding run spec_run
  run-spec_run c last [] s h o room rep = refl
  run-spec_run c last ((key, now) ∷ us) s h o room rep = cc (
    check-answer c key last now s h o.0 (omega arith) rep,
    run-spec_run c now us (check_and_register c key now s).1
        (if (check_and_register c key now s).0 then (key, now) ∷ h else h) o.1 (ground arith)
        (check-Represents c key last now s h o.0 (omega arith) rep),
  )

  pub initial-Represents : (c : Settings) → Represents c 0 initial []
  unfolding lookup accepted_at
  initial-Represents c = record {
    sound = λ k x l. cc;
    complete = λ k t at live. cc;
    small = omega arith;
  }

  -- For up to `max_entries` updates, at times that do not go back, the cache answers exactly as the
  -- history does: it drops an update if and only if its key was accepted less than a TTL ago.
  pub run-refines-spec_run :
      (c : Settings) (us : List (K × ℕ))
      → IsOrdered 0 us
      → length us ≤ c.max_entries
      → run c us initial ≡ spec_run c us []
  run-refines-spec_run c us o room =
      run-spec_run c 0 us initial [] o (omega arith) (initial-Represents c)
