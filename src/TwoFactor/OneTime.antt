-- ===== src/TwoFactor/OneTime.antt =====
-- A one-time code is one-time: the register of pytmbot/utils/totp.py remembers what it accepted.
use pytmbot.Base.Text.{text_eq}
use pytmbot.Base.{
  ℕ, ◌≤◌, ◌<◌, ◌≡◌, refl, true, false, not, none, some, List, [], ◌∷◌, ◌++◌, arith, length,
  length-append, if◌then◌else◌,
}
use pytmbot.Base.Dict.{Dict, lookup, insert, lookup-insert}
use pytmbot.Base.Eq.{nat_eq, ==_iff, ==_refl}
use pytmbot.TwoFactor.Replay.{
  Marker, same_marker, max_tracked_codes, Register, Writing, no_directory, not_written, written,
  seen, active, active_entries, load_replay_state, persist_replay_state, cut, markers_of,
  oldest_step, register_code_usage,
}

text_eq_refl : (xs : List ℕ) → text_eq xs xs ≡ true
text_eq_refl [] = refl
text_eq_refl (x ∷ xs) = ground (arith, ==_refl x, text_eq_refl xs)

same_marker_refl : (m : Marker) → same_marker m m ≡ true
same_marker_refl m = ground (arith, text_eq_refl m.code, ==_refl m.step)

seen-append : (m n : Marker) (ms : List Marker) → seen m ms ≡ true → seen m (ms ++ n ∷ []) ≡ true
unfolding seen
seen-append m n [] h = ground arith
seen-append m n (k ∷ ms) h = ground (arith, seen-append m n ms)

seen-added : (m : Marker) (ms : List Marker) → seen m (ms ++ m ∷ []) ≡ true
unfolding seen
seen-added m [] = ground (arith, same_marker_refl m)
seen-added m (k ∷ ms) = ground (arith, seen-added m ms)

-- Dropping old markers keeps one that is not old.
pub seen-active :
    (m : Marker) (min_step : ℕ) (ms : List Marker)
    → min_step ≤ m.step
    → seen m ms ≡ true
    → seen m (active min_step ms) ≡ true
unfolding seen active
seen-active m min_step [] le h = ground arith
seen-active m min_step (n ∷ ms) le h =
    ground (arith, ==_iff n.step m.step, seen-active m min_step ms le)

abbrev at_user : ℕ → Dict ℕ (List Marker) → List Marker
at_user user d = elim (lookup user d) [ none ↦ [] | some ms ↦ ms ]

active_entries-keeps :
    (m : Marker) (min_step user : ℕ) (d : Dict ℕ (List Marker))
    → min_step ≤ m.step
    → seen m (at_user user d) ≡ true
    → seen m (at_user user (active_entries min_step d)) ≡ true
unfolding active_entries lookup seen
active_entries-keeps m min_step user [] le h = ground arith
active_entries-keeps m min_step user ((u, ms) ∷ d) le h =
    ground (
      arith,
      ==_iff u user,
      seen-active m min_step ms le,
      active_entries-keeps m min_step user d le,
    )

persist-keeps :
    (m : Marker) (min_step user : ℕ) (w : Writing) (r : Register)
    → min_step ≤ m.step
    → seen m (markers_of user r) ≡ true
    → seen m (markers_of user (persist_replay_state min_step w r)) ≡ true
unfolding persist_replay_state
persist-keeps m min_step user no_directory r le h = h
persist-keeps m min_step user not_written r le h = active_entries-keeps m min_step user r.used le h
persist-keeps m min_step user written r le h = active_entries-keeps m min_step user r.used le h

persist-loaded :
    (min_step : ℕ) (w : Writing) (r : Register)
    → (persist_replay_state min_step w r).loaded ≡ r.loaded
unfolding persist_replay_state
persist-loaded min_step no_directory r = refl
persist-loaded min_step not_written r = refl
persist-loaded min_step written r = refl

load-loaded : (min_step : ℕ) (r : Register) → (load_replay_state min_step r).loaded ≡ true
unfolding load_replay_state
load-loaded min_step r = ground arith

load-again : (min_step : ℕ) (r : Register) → r.loaded ≡ true → load_replay_state min_step r ≡ r
unfolding load_replay_state
load-again min_step r h = ground arith

-- The register has the marker, and will not read its file again.
pub record Remembers (user : ℕ) (m : Marker) (r : Register) : Type 0 where
  pub read : r.loaded ≡ true
  pub kept : seen m (markers_of user r) ≡ true

-- The user's markers that are not too old at a step, once the file is read.
abbrev pub tracked : ℕ → ℕ → Register → List Marker
tracked user current_step r =
    active (oldest_step current_step)
      (markers_of user (load_replay_state (oldest_step current_step) r))

-- One more marker does not exceed the cap.
abbrev pub HasRoom : ℕ → ℕ → Register → Type 0
HasRoom user current_step r = length (tracked user current_step r) < max_tracked_codes

module _ (user : ℕ) (n : Marker) (t : ℕ) (w : Writing) (r : Register) where
  abbrev loaded_register : Register
  loaded_register = load_replay_state (oldest_step t) r

  abbrev stored : Register
  stored = record loaded_register {
    used =
        insert user
          (if seen n (tracked user t r) then tracked user t r else cut (tracked user t r ++ n ∷ []))
          loaded_register.used;
  }

  -- The answer says whether the marker is new; the user's tracked markers with it are stored.
  register_lem :
      ((register_code_usage user n t w r).0 ≡ not (seen n (tracked user t r)))
      × ((register_code_usage user n t w r).1 ≡ persist_replay_state (oldest_step t) w stored)
  unfolding register_code_usage
  register_lem = ground arith

cut-roomy :
    (m : Marker) (ms : List Marker)
    → length ms < max_tracked_codes
    → cut (ms ++ m ∷ []) ≡ ms ++ m ∷ []
unfolding cut
cut-roomy m ms h = ground (arith, length-append ms (m ∷ []))

module _ (user : ℕ) (n : Marker) (t : ℕ) (w : Writing) (r : Register) where
  Remembers-stored :
      (v : ℕ) (m : Marker)
      → oldest_step t ≤ m.step
      → seen m (markers_of v (stored user n t w r)) ≡ true
      → Remembers v m (register_code_usage user n t w r).1
  Remembers-stored v m le h = rw ((register_lem user n t w r).1) (record {
    read = ground (
      arith,
      persist-loaded (oldest_step t) w (stored user n t w r),
      load-loaded (oldest_step t) r,
    );
    kept = persist-keeps m (oldest_step t) v w (stored user n t w r) le h;
  })

  -- An accepted marker is remembered.
  pub register-Remembers :
      HasRoom user t r
      → oldest_step t ≤ n.step
      → (register_code_usage user n t w r).0 ≡ true
      → Remembers user n (register_code_usage user n t w r).1
  register-Remembers room le h = Remembers-stored user n le (
      ground (
        arith,
        register_lem user n t w r,
        cut-roomy n (tracked user t r) room,
        seen-added n (tracked user t r),
        ==_refl user,
        lookup-insert user user
            (if seen n (tracked user t r)
              then tracked user t r
              else cut (tracked user t r ++ n ∷ []))
            (load_replay_state (oldest_step t) r).used,
      ))

  -- A marker that is not too old stays remembered, whoever's code is registered.
  pub register-keeps :
      (v : ℕ) (m : Marker)
      → HasRoom user t r
      → oldest_step t ≤ m.step
      → Remembers v m r
      → Remembers v m (register_code_usage user n t w r).1
  register-keeps v m room le k = Remembers-stored v m le (
      ground (
        arith,
        k.read,
        k.kept,
        cut-roomy n (tracked user t r) room,
        load-again (oldest_step t) r k.read,
        seen-active m (oldest_step t) (markers_of user r) le,
        seen-append m n (tracked user t r),
        ==_iff user v,
        lookup-insert user v
            (if seen n (tracked user t r)
              then tracked user t r
              else cut (tracked user t r ++ n ∷ []))
            (load_replay_state (oldest_step t) r).used,
      ))

  -- A remembered marker that is not too old is refused.
  pub register-refuses :
      oldest_step t ≤ n.step → Remembers user n r → (register_code_usage user n t w r).0 ≡ false
  register-refuses le k = ground (
    arith,
    register_lem user n t w r,
    load-again (oldest_step t) r k.read,
    seen-active n (oldest_step t) (markers_of user r) le k.kept,
  )
