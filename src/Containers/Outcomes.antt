-- ===== src/Containers/Outcomes.antt =====
-- What the answers of pytmbot/adapters/docker/container_manager.py say.
use pytmbot.Base.{
  ℕ, ◌≡◌, refl, sym, ap, ◌⊎◌, inl, inr, true, Option, none, some, List, [], ◌∷◌, arith, Bool-cases,
  Option-cases, leb,
}
use pytmbot.Base.Eq.{◌==◌, ==_iff}
use pytmbot.Base.Text.{strip, lower, strip-strip, codes_eq}
use pytmbot.Containers.{
  Operation, start, stop, restart, rename, Invalid, Error, value_error, key_error, permission_error,
  unexpected, timed_out, other_error, Outcome, done, raised, Container, Fetched, found, failed,
  Daemon, Config, Readings, State, normalize_container_id, check_interval, authorize, set_limits,
  validate_access, and_then,
}
use pytmbot.Containers.Actions.{from_str, is_expected, check_name, run_with_timeout, timeout_of}
use pytmbot.Containers.Manager.{
  manage, managing_container, body_of, execute, set_and_check, rename_to,
  execute_lifecycle_operation, rename_container, reported, note, fetch, ended, check_status,
  check_new_name,
}
use pytmbot.Containers.Guarded.{list_cases}

pub Fetched-cases :
    (f : Fetched) → ((e : Error) × (f ≡ failed e)) ⊎ ((x : Container) × (f ≡ found x))
Fetched-cases (failed e) = inl (e, refl)
Fetched-cases (found x) = inr (x, refl)

pub check_name-cases :
    (r : Invalid ⊎ List ℕ) → ((e : Invalid) × (r ≡ inl e)) ⊎ ((n : List ℕ) × (r ≡ inr n))
check_name-cases (inl e) = inl (e, refl)
check_name-cases (inr n) = inr (n, refl)

normalize_container_id-strip :
    (t ref : List ℕ) → normalize_container_id t ≡ some ref → ref ≡ strip t
unfolding normalize_container_id
normalize_container_id-strip t ref h = elim (list_cases (strip t)) [
  | inl e ↦ ground (arith, h, e)
  | inr (x, rest, e) ↦ ground (arith, h, e)
]

module _ {W : Type 0} (c : Config) (d : Daemon W) (k : Readings) where
  -- The container has a status that the operation expects, or the name that was asked for, as the
  -- daemon tells it.
  abbrev pub IsShown : Operation → List ℕ → List ℕ → W → Type 0
  IsShown rename new_name ref w =
      (x : Container) × ((d.reload ref w ≡ found x) ⊎ (fetch c d k ref w ≡ found x))
      × (check_name new_name ≡ inr x.name)
  IsShown op new_name ref w =
      (x : Container) × (d.reload ref w ≡ found x) × (is_expected op (lower x.status) ≡ true)

  abbrev HasStatus : Operation → List ℕ → W → Type 0
  HasStatus op ref w =
      (x : Container) × (d.reload ref w ≡ found x) × (is_expected op (lower x.status) ≡ true)

  ended-done : (f : Option Error) (o : Outcome) → ended c d k f o ≡ done → o ≡ done
  ended-done none o h = h
  ended-done (some e) o h = cc

  check_status-done :
      (op : Operation) (f : Fetched)
      → check_status c d k op f ≡ done
      → (x : Container) × (f ≡ found x) × (is_expected op (lower x.status) ≡ true)
  check_status-done op (failed e) h = cc
  check_status-done op (found x) h = elim (Bool-cases (is_expected op (lower x.status))) [
    | inl shown ↦ (x, refl, shown)
    | inr other ↦ ground (arith, h, other)
  ]

  check_new_name-done :
      (n : List ℕ) (f : Fetched)
      → check_new_name c d k n f ≡ done
      → (x : Container) × (f ≡ found x) × (x.name ≡ n)
  check_new_name-done n (failed e) h = cc
  check_new_name-done n (found x) h = elim (Bool-cases (x.name == n)) [
    | inl same ↦ (x, refl, (==_iff x.name n).0 same)
    | inr other ↦ ground (arith, h, other)
  ]

  execute-HasStatus :
      (op : Operation) (ref : List ℕ) (s : State W)
      → (execute c d k op ref s).0 ≡ done
      → HasStatus op ref (execute c d k op ref s).1.world
  unfolding execute
  execute-HasStatus op ref s h = check_status-done op (d.reload ref (d.run op ref s.world).1) (
      ended-done (run_with_timeout (timeout_of c op) (d.run op ref s.world).0)
        (check_status c d k op (d.reload ref (d.run op ref s.world).1)) h)

  lifecycle-HasStatus :
      (op : Operation) (id : List ℕ) (s : State W)
      → (execute_lifecycle_operation c d k op id s).0 ≡ done
      → HasStatus op (strip id) (execute_lifecycle_operation c d k op id s).1.world
  unfolding execute_lifecycle_operation
  lifecycle-HasStatus op id s h = elim (Option-cases (normalize_container_id id)) [
    | inl empty ↦ ground (arith, h, empty)
    | inr (ref, e) ↦ elim (Fetched-cases (fetch c d k ref s.world)) [
      | inl (error, f) ↦ ground (arith, h, e, f)
      | inr (x, f) ↦
          rw (execute_lifecycle_operation, e, f, sym (normalize_container_id-strip id ref e))
            (execute-HasStatus op ref (note c d k op ref s)
              (rw (execute_lifecycle_operation, e, f) at h))
    ]
  ]

  set_and_check-name :
      (ref n : List ℕ) (s : State W)
      → (set_and_check c d k ref n s).0 ≡ done
      → (x : Container) × (d.reload ref (set_and_check c d k ref n s).1.world ≡ found x)
        × (x.name ≡ n)
  unfolding set_and_check
  set_and_check-name ref n s h = check_new_name-done n (d.reload ref (d.set_name ref n s.world).1) (
      ended-done (d.set_name ref n s.world).0
        (check_new_name c d k n (d.reload ref (d.set_name ref n s.world).1)) h)

  abbrev HasName : List ℕ → List ℕ → W → Type 0
  HasName n ref w =
      (x : Container) × ((d.reload ref w ≡ found x) ⊎ (fetch c d k ref w ≡ found x)) × (x.name ≡ n)

  rename_to-HasName :
      (ref n : List ℕ) (s : State W)
      → (rename_to c d k ref n s).0 ≡ done
      → HasName n ref (rename_to c d k ref n s).1.world
  unfolding rename_to
  rename_to-HasName ref n s h = elim (Fetched-cases (fetch c d k ref s.world)) [
    | inl (error, f) ↦ ground (arith, h, f)
    | inr (x, f) ↦ elim (Bool-cases (x.name == n)) [
      | inl same ↦ rw (rename_to, f, same) (x, inr f, (==_iff x.name n).0 same)
      | inr other ↦
          rw (rename_to, f, other)
            (let (y, shown, named) =
                set_and_check-name ref n (note c d k rename ref s)
                  (rw (rename_to, f, other) at h) in
              (y, inl shown, named))
    ]
  ]

  rename_container-IsShown :
      (new_name id : List ℕ) (s : State W)
      → (rename_container c d k new_name id s).0 ≡ done
      → IsShown rename new_name (strip id) (rename_container c d k new_name id s).1.world
  unfolding rename_container
  rename_container-IsShown new_name id s h = elim (Option-cases (normalize_container_id id)) [
    | inl empty ↦ ground (arith, h, empty)
    | inr (ref, e) ↦ elim (check_name-cases (check_name new_name)) [
      | inl (wrong, f) ↦ ground (arith, h, e, f)
      | inr (n, f) ↦
          rw (rename_container, e, f, sym (normalize_container_id-strip id ref e))
            (let (y, shown, named) = rename_to-HasName ref n s (rw (rename_container, e, f) at h) in
              (y, shown, ap inr (sym named)))
    ]
  ]

  body_of-IsShown :
      (op : Operation) (new_name id : List ℕ) (s : State W)
      → (body_of c d k op new_name id s).0 ≡ done
      → IsShown op new_name (strip id) (body_of c d k op new_name id s).1.world
  body_of-IsShown start new_name id s h = lifecycle-HasStatus start id s h
  body_of-IsShown stop new_name id s h = lifecycle-HasStatus stop id s h
  body_of-IsShown restart new_name id s h = lifecycle-HasStatus restart id s h
  body_of-IsShown rename new_name id s h = rename_container-IsShown new_name id s h

module _ {W : Type 0} (c : Config) (d : Daemon W) (k : Readings) (user : ℕ) where
  abbrev Ran : (List ℕ → State W → Outcome × State W) → List ℕ → Outcome × State W → Type 0
  Ran body ref r = (s : State W) × ((body ref s).0 ≡ done) × (r.1 ≡ (body ref s).1)

  and_then-Ran :
      (body : List ℕ → State W → Outcome × State W) (ref : List ℕ) (r : Outcome × State W)
      → (and_then r (body ref)).0 ≡ done
      → Ran body ref (and_then r (body ref))
  and_then-Ran body ref (done, s) h = (s, h, refl)
  and_then-Ran body ref (raised e, s) h = cc

  validate_access-Ran :
      (op : Operation) (body : List ℕ → State W → Outcome × State W) (id : List ℕ) (s : State W)
      → (validate_access c k user op body id s).0 ≡ done
      → Ran body (strip id) (validate_access c k user op body id s)
  unfolding validate_access
  validate_access-Ran op body id s h = elim (Bool-cases (leb user 0)) [
    | inl bad ↦ ground (arith, h, bad)
    | inr positive ↦ elim (Option-cases (normalize_container_id id)) [
      | inl empty ↦ ground (arith, h, positive, empty)
      | inr (ref, e) ↦ elim (Bool-cases (check_interval k.limited_at user (s.rate_limits op)).0) [
        | inr soon ↦ ground (arith, h, positive, e, soon)
        | inl late ↦
            rw (validate_access, positive, e, late, sym (normalize_container_id-strip id ref e))
              (and_then-Ran body ref
                (authorize c k user (
                  set_limits c k user op (check_interval k.limited_at user (s.rate_limits op)).1 s))
                (rw (validate_access, positive, e, late) at h))
      ]
    ]
  ]

  reported-done : (action : List ℕ) (r : Outcome) → reported c d k action r ≡ done → r ≡ done
  reported-done action done h = refl
  reported-done action (raised (value_error v)) h = cc
  reported-done action (raised (key_error key)) h = cc
  reported-done action (raised (permission_error p)) h = h
  reported-done action (raised (unexpected t)) h = h
  reported-done action (raised timed_out) h = h
  reported-done action (raised (other_error t)) h = h

  module _ (new_name : Option (List ℕ)) (s : State W) where
    -- The keyword argument, or the empty text.
    abbrev pub given : List ℕ
    given = elim new_name [ none ↦ [] | some n ↦ n ]

    -- The action names an operation, and the daemon shows its effect on the container.
    abbrev pub IsCarriedOut : List ℕ → List ℕ → W → Type 0
    IsCarriedOut action ref w =
        (op : Operation) × (from_str action ≡ some op) × IsShown c d k op given ref w

    manage-IsCarriedOut :
        (ref action : List ℕ)
        → (manage c d k user ref action new_name s).0 ≡ done
        → IsCarriedOut action (strip ref) (manage c d k user ref action new_name s).1.world
    unfolding manage
    manage-IsCarriedOut ref action h = elim (Option-cases (from_str action)) [
      | inl unknown ↦ ground (arith, h, unknown)
      | inr (op, e) ↦
          let h' : reported c d k action
                (validate_access c k user op (body_of c d k op given) ref s).0
              ≡ done =
            rw (manage, e) at h in
          let (s0, ok, same) = validate_access-Ran op (body_of c d k op given) ref s (
            reported-done action (validate_access c k user op (body_of c d k op given) ref s).0
              h') in
          rw (manage, e, same)
            (op, refl, (rw (strip-strip ref) at (body_of-IsShown c d k op given (strip ref) s0 ok)))
    ]

    -- Where `managing_container` returns without an exception, its action names an operation, and
    -- the daemon as it is then shows the container with a status that this operation is to lead to,
    -- or, for a renaming, under the new name, stripped.
    pub managing_container-IsCarriedOut :
        (container_id action : List ℕ)
        → (managing_container c d k user container_id action new_name s).0 ≡ done
        → IsCarriedOut
            (lower (strip action))
            (strip container_id)
            (managing_container c d k user container_id action new_name s).1.world
    unfolding managing_container
    managing_container-IsCarriedOut id action h = elim (list_cases (strip action)) [
      | inl empty ↦ ground (arith, h, empty)
      | inr (x, text, e) ↦ elim (Option-cases (normalize_container_id id)) [
        | inl bad ↦ ground (arith, h, e, bad)
        | inr (ref, f) ↦
            let shown : IsCarriedOut (lower (x ∷ text)) (strip ref)
                (manage c d k user ref (lower (x ∷ text)) new_name s).1.world =
              manage-IsCarriedOut ref (lower (x ∷ text)) (rw (managing_container, e, f) at h) in
            rw (managing_container, e, f, normalize_container_id-strip id ref f)
              (rw (normalize_container_id-strip id ref f, strip-strip id) at shown)
      ]
    ]
