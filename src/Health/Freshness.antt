-- ===== src/Health/Freshness.antt =====
-- How old the results of pytmbot/health_system/health_system.py are after a check.
use pytmbot.Base.{
  ℕ, ◌+◌, ◌≤◌, ◌<◌, ◌≡◌, refl, ◌⊎◌, inl, inr, String, Bool, true, false, Option, none, some, List,
  [], ◌∷◌, arith, if◌then◌else◌, Bool-cases, Option-cases,
}
use pytmbot.Base.Dict.{Dict, lookup, contains, insert, IsDict, lookup-insert}
use pytmbot.Base.Eq.{◌==◌, nat_eq, string_eq, ==_iff}
use pytmbot.Health.{HealthResult, SystemHealth}
use pytmbot.Health.Monitor.{
  State, components_of, is_due, to_check, or_critical, update_components, health_now, or_compute,
  check_all, is_empty,
}

unfoldable pub is_named : String → List String → Bool
is_named n [] = false
is_named n (m ∷ ms) = if m == n then true else is_named n ms

pub lookup-update_components :
    (n : String) (now : ℕ) (check : String → Option HealthResult) (names : List String)
    (d : Dict String HealthResult)
    → lookup n (update_components now check names d)
      ≡ (if is_named n names then some (or_critical n now (check n)) else lookup n d)
unfolding update_components is_named
lookup-update_components n now check [] d = refl
lookup-update_components n now check (m ∷ ms) d = ground (
  arith,
  ==_iff m n,
  lookup-update_components n now check ms (insert m (or_critical m now (check m)) d),
  lookup-insert m n (or_critical m now (check m)) d,
)

pub named_absent :
    (n : String) (now : ℕ) (latest : Option SystemHealth) (d : Dict String ℕ)
    → contains n d ≡ false
    → is_named n (to_check now latest d) ≡ false
unfolding contains to_check is_named
named_absent n now latest [] h = refl
named_absent n now latest ((m, interval) ∷ d) h = ground (arith, h, named_absent n now latest d)

is_named-to_check :
    (n : String) (interval now : ℕ) (latest : Option SystemHealth) (d : Dict String ℕ)
    → IsDict d
    → lookup n d ≡ some interval
    → is_named n (to_check now latest d) ≡ is_due now latest n interval
unfolding lookup to_check is_named
is_named-to_check n interval now latest [] u h = ground (arith, h)
is_named-to_check n interval now latest ((m, i) ∷ d) u h = elim (Bool-cases (m == n)) [
  | inl same ↦ ground (arith, h, same, ==_iff m n, ==_iff n n, named_absent m now latest d u.0)
  | inr other ↦ ground (arith, h, other, is_named-to_check n interval now latest d u.1)
]

-- The component has a result, which is of this check or younger than the interval.
abbrev pub IsFresh : ℕ → (String → Option HealthResult) → String → ℕ → SystemHealth → Type 0
IsFresh now check name interval h =
    (r : HealthResult) × (lookup name h.components ≡ some r)
    × ((r ≡ or_critical name now (check name)) ⊎ (now < r.timestamp + interval))

module _ (now duration : ℕ) (check : String → Option HealthResult) (name : String) (interval : ℕ)
    (late : interval ≤ now) where
  recent-IsFresh :
      (h : SystemHealth)
      → is_due now (some h) name interval ≡ false
      → IsFresh now check name interval h
  recent-IsFresh h idle = elim (Option-cases (lookup name h.components)) [
    | inl missing ↦ ground (arith, idle, missing, late)
    | inr (r, found) ↦ (r, found, inr (ground (arith, idle, found)))
  ]

  health_now-IsFresh :
      (s : State)
      → IsDict s.checkers
      → lookup name s.checkers ≡ some interval
      → IsFresh now check name interval (health_now now duration check s)
  unfolding health_now
  health_now-IsFresh s u listed = elim (Bool-cases (is_due now s.latest name interval)) [
    | inl due ↦ (
      or_critical name now (check name),
      ground (
        arith,
        due,
        is_named-to_check name interval now s.latest s.checkers u listed,
        lookup-update_components name now check (to_check now s.latest s.checkers)
            (components_of s.latest),
      ),
      inl refl,
    )
    | inr idle ↦ elim (Option-cases (lookup name (components_of s.latest))) [
      | inl missing ↦ ground (arith, idle, missing, late)
      | inr (r, found) ↦ (
        r,
        ground (
          arith,
          idle,
          found,
          is_named-to_check name interval now s.latest s.checkers u listed,
          lookup-update_components name now check (to_check now s.latest s.checkers)
              (components_of s.latest),
        ),
        inr (ground (arith, idle, found)),
      )
    ]
  ]

  empty-is_named : (names : List String) → is_empty names ≡ true → is_named name names ≡ false
  unfolding is_named
  empty-is_named [] h = refl
  empty-is_named (m ∷ ms) h = ground (arith, h)

  or_compute-IsFresh :
      (fresh : SystemHealth) (s : State) (latest : Option SystemHealth)
      → IsDict s.checkers
      → lookup name s.checkers ≡ some interval
      → IsFresh now check name interval fresh
      → IsFresh now check name interval
          (or_compute fresh (is_empty (to_check now latest s.checkers)) s latest).0
  or_compute-IsFresh fresh s none u listed h = h
  or_compute-IsFresh fresh s (some l) u listed h =
      elim (Bool-cases (is_empty (to_check now (some l) s.checkers))) [
        | inr busy ↦ rw busy h
        | inl idle ↦ rw idle (
            recent-IsFresh l (
              ground (
                arith,
                empty-is_named (to_check now (some l) s.checkers) idle,
                is_named-to_check name interval now (some l) s.checkers u listed,
              )))
      ]

  -- For each registered checker whose interval has passed since the beginning of time: what
  -- `check_all` returns has a result of its component, which either is of this very check, critical
  -- if that raised, or is younger than the interval.
  pub check_all-IsFresh :
      (s : State)
      → IsDict s.checkers
      → lookup name s.checkers ≡ some interval
      → IsFresh now check name interval (check_all now duration check s).0
  unfolding check_all
  check_all-IsFresh s u listed =
      or_compute-IsFresh (health_now now duration check s) s s.latest u listed
        (health_now-IsFresh s u listed)
