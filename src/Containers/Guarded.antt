-- ===== src/Containers/Guarded.antt =====
-- Who can change a container through pytmbot/adapters/docker/container_manager.py.
use pytmbot.Base.{
  ℕ, ◌+◌, ◌≤◌, ◌≡◌, refl, ◌⊎◌, inl, inr, true, Option, none, some, List, [], ◌∷◌, arith, length,
  Bool-cases, Option-cases, leb,
}
use pytmbot.Base.Dict.{lookup}
use pytmbot.Base.Eq.{nat_eq}
use pytmbot.Base.Text.{strip, lower}
use pytmbot.Session.Methods.{is_authenticated}
use pytmbot.Containers.{
  Operation, Outcome, Daemon, Config, Readings, State, max_rate_limited_users,
  min_operation_interval, or_zero, check_interval, is_listed, authorize, normalize_container_id,
  set_limits, validate_access, and_then,
}
use pytmbot.Containers.Actions.{from_str}
use pytmbot.Containers.Manager.{manage, managing_container, body_of}
use pytmbot.Containers.Admission.{check_interval_lem}

pub list_cases : (xs : List ℕ) → (xs ≡ []) ⊎ ((x : ℕ) × (rest : List ℕ) × (xs ≡ x ∷ rest))
list_cases [] = inl refl
list_cases (x ∷ rest) = inr (x, rest, refl)

module _ {W : Type 0} (c : Config) (k : Readings) (user : ℕ) where
  -- The user is an administrator with a valid login, whose last operation of the kind is a second
  -- ago unless the operation's dictionary is to be cleaned up.
  abbrev pub IsPermitted : Operation → State W → Type 0
  IsPermitted op s =
      (1 ≤ user)
      × (is_listed user c.allowed_admins_ids ≡ true)
      × ((is_authenticated c.session k.session_clock user k.blocked_at k.unblocked_at k.expired_at
            s.sessions).0
          ≡ true)
      × (length (s.rate_limits op) ≤ max_rate_limited_users
          → or_zero (lookup user (s.rate_limits op)) + min_operation_interval ≤ k.limited_at)

  -- Neither a container nor the history of operations has changed.
  abbrev pub IsUntouched : State W → State W → Type 0
  IsUntouched s s' = (s'.world ≡ s.world) × (s'.operation_history ≡ s.operation_history)

  authorize-IsGuarded :
      (s : State W) (body : State W → Outcome × State W)
      → IsUntouched s (and_then (authorize c k user s) body).1
        ⊎ ((is_listed user c.allowed_admins_ids ≡ true)
            × ((is_authenticated c.session k.session_clock user k.blocked_at k.unblocked_at
                  k.expired_at s.sessions).0
                ≡ true))
  unfolding authorize
  authorize-IsGuarded s body = elim (Bool-cases (is_listed user c.allowed_admins_ids)) [
    | inr other ↦ inl (rw other (refl, refl))
    | inl admin ↦
        elim (Bool-cases
          (is_authenticated c.session k.session_clock user k.blocked_at k.unblocked_at k.expired_at
            s.sessions).0) [
              | inl valid ↦ inr (admin, valid)
              | inr invalid ↦ inl (rw (admin, invalid) (refl, refl))
            ]
  ]

  pub validate_access-IsGuarded :
      (op : Operation) (body : List ℕ → State W → Outcome × State W) (container_id : List ℕ)
      (s : State W)
      → IsUntouched s (validate_access c k user op body container_id s).1 ⊎ IsPermitted op s
  unfolding validate_access
  validate_access-IsGuarded op body container_id s = elim (Bool-cases (leb user 0)) [
    | inl bad ↦ inl (rw bad (refl, refl))
    | inr positive ↦ elim (Option-cases (normalize_container_id container_id)) [
      | inl empty ↦ inl (rw (positive, empty) (refl, refl))
      | inr (ref, e) ↦ elim (Bool-cases (check_interval k.limited_at user (s.rate_limits op)).0) [
        | inr soon ↦ inl (rw (positive, e, soon) (refl, refl))
        | inl late ↦
            rw (positive, e, late)
              (elim (authorize-IsGuarded
                (set_limits c k user op (check_interval k.limited_at user (s.rate_limits op)).1 s)
                (body ref)) [
                  | inl untouched ↦ inl untouched
                  | inr (admin, valid) ↦ inr (
                    ground arith,
                    admin,
                    valid,
                    λ small. ground (
                      arith,
                      late,
                      check_interval_lem k.limited_at user (s.rate_limits op) small,
                    ),
                  )
                ])
      ]
    ]
  ]

module _ {W : Type 0} (c : Config) (d : Daemon W) (k : Readings) (user : ℕ)
    (new_name : Option (List ℕ)) (s : State W) where
  manage-IsGuarded :
      (container_ref action : List ℕ)
      → IsUntouched c k user s (manage c d k user container_ref action new_name s).1
        ⊎ ((op : Operation) × (from_str action ≡ some op) × IsPermitted c k user op s)
  unfolding manage
  manage-IsGuarded container_ref action = elim (Option-cases (from_str action)) [
    | inl unknown ↦ inl (rw (manage, unknown) (refl, refl))
    | inr (op, e) ↦
        rw (manage, e)
          (elim (validate_access-IsGuarded c k user op
            (body_of c d k op (elim new_name [ none ↦ [] | some n ↦ n ])) container_ref s) [
              | inl untouched ↦ inl untouched
              | inr permitted ↦ inr (op, refl, permitted)
            ])
  ]

  -- For every container, action and new name: `managing_container` leaves the Docker daemon and the
  -- history of operations as they are, unless the action's text names an operation and the user is
  -- listed as an administrator, is authenticated by the session manager, and has not had this kind
  -- of operation admitted within the last second, if at most 2048 users are tracked for it.
  pub managing_container-IsGuarded :
      (container_id action : List ℕ)
      → IsUntouched c k user s (managing_container c d k user container_id action new_name s).1
        ⊎ ((op : Operation) × (from_str (lower (strip action)) ≡ some op)
            × IsPermitted c k user op s)
  unfolding managing_container
  managing_container-IsGuarded container_id action = elim (list_cases (strip action)) [
    | inl empty ↦ inl (rw (managing_container, empty) (refl, refl))
    | inr (x, text, e) ↦
        rw (managing_container, e)
          (elim (Option-cases (normalize_container_id container_id)) [
            | inl bad ↦ inl (rw bad (refl, refl))
            | inr (ref, e') ↦ rw e' (manage-IsGuarded ref (lower (x ∷ text)))
          ])
  ]
