-- ===== src/Containers/Reports.antt =====
-- What exceptions leave pytmbot/adapters/docker/container_manager.py.
use pytmbot.Base.{ℕ, ◌≡◌, refl, ◌⊎◌, inl, inr, Option, List, Option-cases}
use pytmbot.Base.Text.{strip, lower, codes_eq}
use pytmbot.Containers.{
  empty_action, empty_container, invalid_action, value_error, key_error, permission_error,
  unexpected, timed_out, other_error, Outcome, done, raised, Daemon, Config, Readings, State,
  normalize_container_id, validate_access,
}
use pytmbot.Containers.Actions.{from_str}
use pytmbot.Containers.Manager.{manage, managing_container, body_of, reported}
use pytmbot.Containers.Guarded.{list_cases}
use pytmbot.Containers.Outcomes.{given}

module _ {W : Type 0} (c : Config) (d : Daemon W) (k : Readings) (user : ℕ)
    (new_name : Option (List ℕ)) (s : State W) where
  abbrev pub IsSummedUp : List ℕ → Outcome → Type 0
  IsSummedUp action done = Unit
  IsSummedUp action (raised (value_error v)) =
      (v ≡ empty_action) ⊎ ((v ≡ empty_container) ⊎ (v ≡ invalid_action (lower (strip action))))
  IsSummedUp action (raised (key_error key)) = ⊥
  IsSummedUp action (raised _) = Unit

  reported-IsSummedUp :
      (action : List ℕ) (r : Outcome) → IsSummedUp action (reported c d k (lower (strip action)) r)
  reported-IsSummedUp action done = tt
  reported-IsSummedUp action (raised (value_error v)) = inr (inr refl)
  reported-IsSummedUp action (raised (key_error key)) = inr (inr refl)
  reported-IsSummedUp action (raised (permission_error p)) = tt
  reported-IsSummedUp action (raised (unexpected t)) = tt
  reported-IsSummedUp action (raised timed_out) = tt
  reported-IsSummedUp action (raised (other_error t)) = tt

  manage-IsSummedUp :
      (ref action : List ℕ)
      → IsSummedUp action (manage c d k user ref (lower (strip action)) new_name s).0
  unfolding manage
  manage-IsSummedUp ref action = elim (Option-cases (from_str (lower (strip action)))) [
    | inl unknown ↦ rw (manage, unknown) (inr (inr refl))
    | inr (op, e) ↦
        rw (manage, e)
          (reported-IsSummedUp action
            (validate_access c k user op (body_of c d k op (given c d k user new_name s)) ref s).0)
  ]

  -- Whatever a call raises, a `KeyError` does not leave `managing_container`, and a `ValueError`
  -- that does is about an empty action or an empty container, or says that the action is invalid:
  -- so also where it is the user or the new name that is wrong.
  pub managing_container-IsSummedUp :
      (container_id action : List ℕ)
      → IsSummedUp action (managing_container c d k user container_id action new_name s).0
  unfolding managing_container
  managing_container-IsSummedUp id action = elim (list_cases (strip action)) [
    | inl empty ↦ rw (managing_container, empty) (inl refl)
    | inr (x, text, e) ↦ elim (Option-cases (normalize_container_id id)) [
      | inl bad ↦ rw (managing_container, e, bad) (inr (inl refl))
      | inr (ref, f) ↦ rw (managing_container, e, f) (rw e at (manage-IsSummedUp ref action))
    ]
  ]
