-- ===== src/Containers/Bounds.antt =====
-- How much pytmbot/adapters/docker/container_manager.py keeps.
use pytmbot.Base.{
  ℕ, ◌+◌, ◌≤◌, inl, inr, Option, List, [], ◌∷◌, arith, length, Bool-cases, Option-cases, leb,
}
use pytmbot.Base.Eq.{◌==◌, nat_eq}
use pytmbot.Base.Text.{codes_eq, strip, lower}
use pytmbot.Containers.{
  Operation, start, stop, restart, rename, Outcome, Daemon, Config, Readings, State,
  max_rate_limited_users, check_interval, authorize, normalize_container_id, set_limits,
  validate_access, and_then, is_listed,
}
use pytmbot.Containers.Actions.{from_str, check_name}
use pytmbot.Containers.Manager.{
  execute, set_and_check, rename_to, execute_lifecycle_operation, rename_container, body_of, manage,
  managing_container, note, fetch,
}
use pytmbot.Session.Methods.{is_authenticated}
use pytmbot.Containers.Guarded.{list_cases}
use pytmbot.Containers.Outcomes.{Fetched-cases, check_name-cases, given}
use pytmbot.Containers.History.{length-record_operation}
use pytmbot.Containers.Admission.{length-check_interval}

module _ {W : Type 0} where
  abbrev pub IsBounded : State W → Type 0
  IsBounded s =
      ((op : Operation) → length (s.rate_limits op) ≤ max_rate_limited_users + 1)
      × (length s.operation_history ≤ 100)

  module _ (c : Config) (d : Daemon W) (k : Readings) where
    execute-IsBounded :
        (op : Operation) (ref : List ℕ) (s : State W)
        → IsBounded s
        → IsBounded (execute c d k op ref s).1
    unfolding execute
    execute-IsBounded op ref s h = h

    note-IsBounded :
        (op : Operation) (ref : List ℕ) (s : State W)
        → IsBounded s
        → IsBounded (note c d k op ref s)
    note-IsBounded op ref s h =
        (h.0, length-record_operation k.recorded_at op ref s.operation_history h.1)

    lifecycle-IsBounded :
        (op : Operation) (id : List ℕ) (s : State W)
        → IsBounded s
        → IsBounded (execute_lifecycle_operation c d k op id s).1
    unfolding execute_lifecycle_operation
    lifecycle-IsBounded op id s h = elim (Option-cases (normalize_container_id id)) [
      | inl empty ↦ rw (execute_lifecycle_operation, empty) h
      | inr (ref, e) ↦ elim (Fetched-cases (fetch c d k ref s.world)) [
        | inl (error, f) ↦ rw (execute_lifecycle_operation, e, f) h
        | inr (x, f) ↦
            rw (execute_lifecycle_operation, e, f)
              (execute-IsBounded op ref (note c d k op ref s) (note-IsBounded op ref s h))
      ]
    ]

    rename_to-IsBounded :
        (ref n : List ℕ) (s : State W) → IsBounded s → IsBounded (rename_to c d k ref n s).1
    unfolding rename_to set_and_check
    rename_to-IsBounded ref n s h = elim (Fetched-cases (fetch c d k ref s.world)) [
      | inl (error, f) ↦ rw (rename_to, f) h
      | inr (x, f) ↦ elim (Bool-cases (x.name == n)) [
        | inl same ↦ rw (rename_to, f, same) h
        | inr other ↦ rw (rename_to, f, other) (note-IsBounded rename ref s h)
      ]
    ]

    rename_container-IsBounded :
        (new_name id : List ℕ) (s : State W)
        → IsBounded s
        → IsBounded (rename_container c d k new_name id s).1
    unfolding rename_container
    rename_container-IsBounded new_name id s h = elim (Option-cases (normalize_container_id id)) [
      | inl empty ↦ rw (rename_container, empty) h
      | inr (ref, e) ↦ elim (check_name-cases (check_name new_name)) [
        | inl (wrong, f) ↦ rw (rename_container, e, f) h
        | inr (n, f) ↦ rw (rename_container, e, f) (rename_to-IsBounded ref n s h)
      ]
    ]

    body_of-IsBounded :
        (op : Operation) (new_name id : List ℕ) (s : State W)
        → IsBounded s
        → IsBounded (body_of c d k op new_name id s).1
    body_of-IsBounded start new_name id s h = lifecycle-IsBounded start id s h
    body_of-IsBounded stop new_name id s h = lifecycle-IsBounded stop id s h
    body_of-IsBounded restart new_name id s h = lifecycle-IsBounded restart id s h
    body_of-IsBounded rename new_name id s h = rename_container-IsBounded new_name id s h

    module _ (user : ℕ) where
      set_limits-IsBounded :
          (op : Operation) (s : State W)
          → IsBounded s
          → IsBounded
              (set_limits c k user op (check_interval k.limited_at user (s.rate_limits op)).1 s)
      set_limits-IsBounded op s h = (
        (λ o. ground (arith, h.0 o, length-check_interval k.limited_at user (s.rate_limits op))),
        h.1,
      )

      and_then-IsBounded :
          (body : State W → Outcome × State W) (s : State W)
          → ((s' : State W) → IsBounded s' → IsBounded (body s').1)
          → IsBounded s
          → IsBounded (and_then (authorize c k user s) body).1
      unfolding authorize
      and_then-IsBounded body s keeps h = elim (Bool-cases (is_listed user c.allowed_admins_ids)) [
        | inr other ↦ rw other h
        | inl admin ↦
            elim (Bool-cases
              (is_authenticated c.session k.session_clock user k.blocked_at k.unblocked_at
                k.expired_at s.sessions).0) [
                  | inl valid ↦
                      rw (admin, valid)
                        (keeps
                          (record s {
                            sessions =
                                (is_authenticated c.session k.session_clock user k.blocked_at
                                  k.unblocked_at k.expired_at s.sessions).1;
                          })
                          h)
                  | inr invalid ↦ rw (admin, invalid) h
                ]
      ]

      validate_access-IsBounded :
          (op : Operation) (body : List ℕ → State W → Outcome × State W) (id : List ℕ) (s : State W)
          → ((ref : List ℕ) (s' : State W) → IsBounded s' → IsBounded (body ref s').1)
          → IsBounded s
          → IsBounded (validate_access c k user op body id s).1
      unfolding validate_access
      validate_access-IsBounded op body id s keeps h = elim (Bool-cases (leb user 0)) [
        | inl bad ↦ rw (validate_access, bad) h
        | inr positive ↦ elim (Option-cases (normalize_container_id id)) [
          | inl empty ↦ rw (validate_access, positive, empty) h
          | inr (ref, e) ↦
              elim (Bool-cases (check_interval k.limited_at user (s.rate_limits op)).0) [
                | inr soon ↦ rw (validate_access, positive, e, soon) (set_limits-IsBounded op s h)
                | inl late ↦
                    rw (validate_access, positive, e, late)
                      (and_then-IsBounded (body ref)
                        (set_limits c k user op
                          (check_interval k.limited_at user (s.rate_limits op)).1 s)
                        (keeps ref) (set_limits-IsBounded op s h))
              ]
        ]
      ]

      manage-IsBounded :
          (ref action : List ℕ) (new_name : Option (List ℕ)) (s : State W)
          → IsBounded s
          → IsBounded (manage c d k user ref action new_name s).1
      unfolding manage
      manage-IsBounded ref action new_name s h = elim (Option-cases (from_str action)) [
        | inl unknown ↦ rw (manage, unknown) h
        | inr (op, e) ↦
            rw (manage, e)
              (validate_access-IsBounded op (body_of c d k op (given c d k user new_name s)) ref s
                (body_of-IsBounded op (given c d k user new_name s)) h)
      ]

      managing_container-IsBounded :
          (id action : List ℕ) (new_name : Option (List ℕ)) (s : State W)
          → IsBounded s
          → IsBounded (managing_container c d k user id action new_name s).1
      unfolding managing_container
      managing_container-IsBounded id action new_name s h = elim (list_cases (strip action)) [
        | inl empty ↦ rw (managing_container, empty) h
        | inr (x, text, e) ↦ elim (Option-cases (normalize_container_id id)) [
          | inl bad ↦ rw (managing_container, e, bad) h
          | inr (ref, f) ↦
              rw (managing_container, e, f) (manage-IsBounded ref (lower (x ∷ text)) new_name s h)
        ]
      ]

pub record Call : Type 0 where
  pub user_id : ℕ
  pub container_id : List ℕ
  pub action : List ℕ
  pub new_container_name : Option (List ℕ)
  pub readings : Readings

module _ {W : Type 0} (c : Config) (d : Daemon W) where
  unfoldable pub manage_all : List Call → State W → State W
  manage_all [] s = s
  manage_all (q ∷ qs) s =
      manage_all qs
        (managing_container c d q.readings q.user_id q.container_id q.action q.new_container_name
          s).1

  -- Whatever calls are made, by whomever and in whatever order: each operation tracks at most 2049
  -- users, and the history has at most 100 entries, if so at the start.
  pub manage_all-IsBounded :
      (qs : List Call) (s : State W) → IsBounded s → IsBounded (manage_all qs s)
  unfolding manage_all
  manage_all-IsBounded [] s h = h
  manage_all-IsBounded (q ∷ qs) s h =
      manage_all-IsBounded qs
        (managing_container c d q.readings q.user_id q.container_id q.action q.new_container_name
          s).1
        (managing_container-IsBounded c d q.readings q.user_id q.container_id q.action
          q.new_container_name s h)
