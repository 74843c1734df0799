-- ===== src/Containers/Manager.antt =====
-- pytmbot/adapters/docker/container_manager.py: `ContainerManager`, the four operations and their
-- choice by name. Texts are lists of code points.
use pytmbot.Base.{ℕ, Option, none, some, List, [], ◌∷◌, inl, inr, if◌then◌else◌}
use pytmbot.Base.Eq.{◌==◌, nat_eq, string_eq}
use pytmbot.Base.Text.{strip, lower, codes_eq}
use pytmbot.Containers.{
  Operation, start, stop, restart, rename, empty_action, empty_container, invalid_action, Error,
  value_error, key_error, unexpected, other_error, Outcome, done, raised, Fetched, found, failed,
  Daemon, Config, Readings, State, normalize_container_id, validate_access,
}
use pytmbot.Containers.Actions.{
  from_str, is_expected, record_operation, timeout_of, run_with_timeout, check_name,
}

-- The exceptions of `get_container_safely`, by the names of their classes.
abbrev pub wrapped : Error → Error
wrapped (other_error name) =
    if name == "NotFound"
    then other_error "ContainerNotFoundError"
    else if name == "DockerConnectionError"
    then other_error name
    else other_error "DockerOperationException"
wrapped e = other_error "DockerOperationException"

module _ {W : Type 0} (c : Config) (d : Daemon W) (k : Readings) where
  -- `get_container_safely`: an exception that is not about the connection is wrapped.
  unfoldable pub get_container_safely : List ℕ → W → Fetched
  get_container_safely container_id w = elim (d.get (strip container_id) w) [
    | found container ↦ found container
    | failed e ↦ failed (wrapped e)
  ]

  -- The same in a `docker_client_context`.
  unfoldable pub fetch : List ℕ → W → Fetched
  unfolding get_container_safely
  fetch container_id w = elim (d.connect w) [
    | some e ↦ failed e
    | none ↦ get_container_safely container_id w
  ]

  abbrev pub check_status : Operation → Fetched → Outcome
  check_status op (failed e) = raised e
  check_status op (found container) =
      if is_expected op (lower container.status) then done else raised (unexpected container.status)

  abbrev pub note : Operation → List ℕ → State W → State W
  note op container_id s = record s {
    operation_history = record_operation k.recorded_at op container_id s.operation_history;
  }

  abbrev pub ended : Option Error → Outcome → Outcome
  ended none after = after
  ended (some e) after = raised e

  -- `execute_operation` and the check of the status that the container has after it.
  unfoldable pub execute : Operation → List ℕ → State W → Outcome × State W
  unfolding run_with_timeout
  execute op container_ref s =
      let (r, w) = d.run op container_ref s.world in
      (
        ended (run_with_timeout (timeout_of c op) r) (check_status op (d.reload container_ref w)),
        record s { world = w },
      )

  -- `_execute_lifecycle_operation`. `_validate_container_state_for_operation` only logs.
  unfoldable pub execute_lifecycle_operation : Operation → List ℕ → State W → Outcome × State W
  unfolding execute record_operation fetch
  execute_lifecycle_operation op container_id s = elim (normalize_container_id container_id) [
    | none ↦ (raised (value_error empty_container), s)
    | some container_ref ↦ elim (fetch container_ref s.world) [
      | failed e ↦ (raised e, s)
      | found container ↦ execute op container_ref (note op container_ref s)
    ]
  ]

  abbrev pub check_new_name : List ℕ → Fetched → Outcome
  check_new_name name (failed e) = raised e
  check_new_name name (found container) =
      if container.name == name then done else raised (unexpected container.name)

  unfoldable pub set_and_check : List ℕ → List ℕ → State W → Outcome × State W
  set_and_check container_ref name s =
      let (failure, w) = d.set_name container_ref name s.world in
      (ended failure (check_new_name name (d.reload container_ref w)), record s { world = w })

  unfoldable pub rename_to : List ℕ → List ℕ → State W → Outcome × State W
  unfolding set_and_check record_operation fetch
  rename_to container_ref name s = elim (fetch container_ref s.world) [
    | failed e ↦ (raised e, s)
    | found container ↦
        let changed = set_and_check container_ref name (note rename container_ref s) in
        if container.name == name then (done, s) else changed
  ]

  -- `_rename_container`
  unfoldable pub rename_container : List ℕ → List ℕ → State W → Outcome × State W
  unfolding check_name rename_to
  rename_container new_container_name container_id s = elim (normalize_container_id container_id) [
    | none ↦ (raised (value_error empty_container), s)
    | some container_ref ↦ elim (check_name new_container_name) [
      | inl wrong ↦ (raised (value_error wrong), s)
      | inr name ↦ rename_to container_ref name s
    ]
  ]

  -- The decorated operations.
  abbrev pub body_of : Operation → List ℕ → List ℕ → State W → Outcome × State W
  body_of rename name = rename_container name
  body_of start name = execute_lifecycle_operation start
  body_of stop name = execute_lifecycle_operation stop
  body_of restart name = execute_lifecycle_operation restart

  -- The `except` clauses of `managing_container`, for the action `action`.
  abbrev pub reported : List ℕ → Outcome → Outcome
  reported action (raised (value_error _)) = raised (value_error (invalid_action action))
  reported action (raised (key_error _)) = raised (value_error (invalid_action action))
  reported action (raised e) = raised e
  reported action done = done

  unfoldable pub manage : ℕ → List ℕ → List ℕ → Option (List ℕ) → State W → Outcome × State W
  unfolding from_str validate_access rename_container execute_lifecycle_operation
  manage user container_ref action new_name s = elim (from_str action) [
    | none ↦ (raised (value_error (invalid_action action)), s)
    | some op ↦
        let (r, s') =
          validate_access c k user op (body_of op (elim new_name [ none ↦ [] | some n ↦ n ]))
            container_ref s in
        (reported action r, s')
  ]

  -- `managing_container(user_id, container_id, action, new_container_name=...)`
  unfoldable pub managing_container :
      ℕ → List ℕ → List ℕ → Option (List ℕ) → State W → Outcome × State W
  unfolding manage
  managing_container user container_id action new_name s = elim (strip action) [
    | [] ↦ (raised (value_error empty_action), s)
    | x ∷ text ↦ elim (normalize_container_id container_id) [
      | none ↦ (raised (value_error empty_container), s)
      | some container_ref ↦ manage user container_ref (lower (x ∷ text)) new_name s
    ]
  ]
