-- ===== src/Dedup/Prune.antt =====
-- `_prune_locked` of pytmbot/middleware/update_dedup.py: what the loop removes and what it keeps.
use pytmbot.Base.{
  ℕ, ◌≤◌, ◌<◌, ◌≡◌, sym, Bool, true, false, ◌&&◌, ◌||◌, some, List, [], ◌∷◌, ◌++◌, leb, ltb,
  nat_beq, length, if◌then◌else◌, arith, Bool-cases, inl, inr,
}
use mathlib.Core.Path.{subst}
use pytmbot.Base.Dict.{Dict, lookup, erase, IsDict, lookup-erase, length-erase-le, erase-IsDict}
use pytmbot.Base.Eq.{Eq, ◌==◌, ==_iff}
use pytmbot.Dedup.{Settings, is_some_eq, prune}

module _ {K : Type 0} ⦃e : Eq K⦄ where
  -- The pair stands in the queue.
  unfoldable pub queued : K → ℕ → List (K × ℕ) → Bool
  queued key expiry [] = false
  queued key expiry ((k, x) ∷ q) = (k == key && nat_beq x expiry) || queued key expiry q

  pub queued-append :
      (key : K) (expiry : ℕ) (k : K) (x : ℕ) (q : List (K × ℕ))
      → queued key expiry (q ++ (k, x) ∷ [])
        ≡ (queued key expiry q || (k == key && nat_beq x expiry))
  unfolding queued
  queued-append key expiry k x [] = ground arith
  queued-append key expiry k x ((j, y) ∷ q) = ground (arith, queued-append key expiry k x q)

  module _ (c : Settings) (now : ℕ) where
    -- No entry is added or changed.
    pub lookup-prune :
        (q : List (K × ℕ)) (entries : Dict K ℕ) (key : K) (expiry : ℕ)
        → lookup key (prune c now q entries).1 ≡ some expiry
        → lookup key entries ≡ some expiry
    unfolding prune
    lookup-prune [] entries key expiry h = h
    lookup-prune ((k, x) ∷ q) entries key expiry h = ground (
      arith,
      lookup-prune q entries key expiry,
      lookup-prune q (erase k entries) key expiry,
      lookup-erase k key entries,
    )

    pub length-prune :
        (q : List (K × ℕ)) (entries : Dict K ℕ) → length (prune c now q entries).1 ≤ length entries
    unfolding prune
    length-prune [] entries = omega arith
    length-prune ((k, x) ∷ q) entries =
        ground (
          arith,
          length-prune q entries,
          length-prune q (erase k entries),
          length-erase-le k entries,
        )

    -- Within the capacity only expired entries go.
    pub lookup-prune_kept :
        (q : List (K × ℕ)) (entries : Dict K ℕ) (key : K) (expiry : ℕ)
        → length entries ≤ c.max_entries
        → now < expiry
        → lookup key entries ≡ some expiry
        → lookup key (prune c now q entries).1 ≡ some expiry
    unfolding prune
    lookup-prune_kept [] entries key expiry room live h = h
    lookup-prune_kept ((k, x) ∷ q) entries key expiry room live h = ground (
      arith,
      lookup-prune_kept q entries key expiry,
      lookup-prune_kept q (erase k entries) key expiry,
      lookup-erase k key entries,
      length-erase-le k entries,
      ==_iff k key,
    )

    pub prune-IsDict :
        (q : List (K × ℕ)) (entries : Dict K ℕ) → IsDict entries → IsDict (prune c now q entries).1
    unfolding prune
    prune-IsDict [] entries h = h
    prune-IsDict ((k, x) ∷ q) entries h =
        ground (
          arith,
          prune-IsDict q entries,
          prune-IsDict q (erase k entries),
          erase-IsDict k entries h,
        )

    -- One round of the loop: it stops at a record that is current, live and within the capacity; it
    -- deletes the entry of another current one, and skips a stale one.
    prune_round_lem :
        (k : K) (x : ℕ) (q : List (K × ℕ)) (entries : Dict K ℕ)
        → prune c now ((k, x) ∷ q) entries ≡ (
            if is_some_eq (lookup k entries) x
            then (if ltb now x && leb (length entries) c.max_entries
                then ((k, x) ∷ q, entries)
                else prune c now q (erase k entries))
            else prune c now q entries)
    unfolding prune
    prune_round_lem k x q entries = ground arith

    pub prune_round {ℓ} :
        (P : List (K × ℕ) × Dict K ℕ → Type ℓ) (k : K) (x : ℕ) (q : List (K × ℕ))
        (entries : Dict K ℕ)
        → (is_some_eq (lookup k entries) x ≡ true
            → now < x
            → length entries ≤ c.max_entries
            → P ((k, x) ∷ q, entries))
        → (is_some_eq (lookup k entries) x ≡ true → P (prune c now q (erase k entries)))
        → (is_some_eq (lookup k entries) x ≡ false → P (prune c now q entries))
        → P (prune c now ((k, x) ∷ q) entries)
    prune_round P k x q entries stop drop skip =
        subst P (sym (prune_round_lem k x q entries))
          (elim (Bool-cases (is_some_eq (lookup k entries) x)) [
            | inr stale ↦ rw stale (skip stale)
            | inl current ↦
                rw current (elim (Bool-cases (ltb now x && leb (length entries) c.max_entries)) [
                  | inl halt ↦ rw halt (stop current (ground arith) (ground arith))
                  | inr go ↦ rw go (drop current)
                ])
          ])
