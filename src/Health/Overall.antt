-- ===== src/Health/Overall.antt =====
-- What the overall level of pytmbot/health_system/health_system.py says of the components.
use pytmbot.Base.{
  ℕ, ◌*◌, ◌≤◌, ◌≡◌, ◌↔◌, refl, String, Bool, true, false, Option, [], ◌∷◌, arith, leb, length,
}
use pytmbot.Base.Dict.{Dict}
use pytmbot.Base.Eq.{nat_eq}
use pytmbot.Health.{
  HealthLevel, healthy, degraded, unhealthy, critical, offline, value, HealthResult, is_operational,
  count_levels, operational_count, total_count,
}
use pytmbot.Health.Monitor.{State, worse, worst, lowest, overall_of, health_now}

-- No worse than unhealthy.
abbrev pub is_tolerable : HealthLevel → Bool
is_tolerable level = leb (value unhealthy) (value level)

value-gap : (l : HealthLevel) → is_tolerable l ≡ true → is_operational l ≡ false → value l ≡ 50
value-gap healthy h o = ground (arith, o)
value-gap degraded h o = ground (arith, o)
value-gap unhealthy h o = refl
value-gap critical h o = ground (arith, h)
value-gap offline h o = ground (arith, h)

count_levels-le :
    (p : HealthLevel → Bool) (d : Dict String HealthResult) → count_levels p d ≤ length d
count_levels-le p [] = omega arith
count_levels-le p ((name, r) ∷ d) = ground (arith, count_levels-le p d)

-- The worst of levels reaches a bound exactly if all of them do.
worst-reaches :
    (n : ℕ) (l : HealthLevel) (d : Dict String HealthResult)
    → (n ≤ value (worst l d)) ↔ ((n ≤ value l) × (count_levels (λ x. leb n (value x)) d ≡ length d))
unfolding worst
worst-reaches n l [] = ((λ h. (h, refl)), λ h. h.0)
worst-reaches n l ((name, r) ∷ d) = (
  (λ h.
      ground
        (arith, h, worst-reaches n (worse l r.level) d, count_levels-le (λ x. leb n (value x)) d)),
  λ h.
      ground
        (arith, h, worst-reaches n (worse l r.level) d, count_levels-le (λ x. leb n (value x)) d),
)

lowest-reaches :
    (n : ℕ) (d : Dict String HealthResult)
    → 1 ≤ length d
    → (n ≤ value (lowest d)) ↔ (count_levels (λ x. leb n (value x)) d ≡ length d)
unfolding lowest
lowest-reaches n [] h = ground (arith, h)
lowest-reaches n ((name, r) ∷ d) h = (
  (λ e. ground (arith, e, worst-reaches n r.level d, count_levels-le (λ x. leb n (value x)) d)),
  λ e. ground (arith, e, worst-reaches n r.level d, count_levels-le (λ x. leb n (value x)) d),
)

abbrev IsFit : Dict String HealthResult → Type 0
IsFit d =
    (1 ≤ length d)
    × (count_levels is_tolerable d ≡ length d)
    × (7 * length d ≤ 10 * count_levels is_operational d)

overall_of-IsFit : (d : Dict String HealthResult) → (is_operational (overall_of d) ≡ true) ↔ IsFit d
unfolding overall_of
overall_of-IsFit [] = ((λ h. ground (arith, h)), λ h. ground (arith, h))
overall_of-IsFit (e ∷ d) = (
  (λ h.
      ground (
        arith,
        h,
        value-gap (lowest (e ∷ d)),
        lowest-reaches 50 (e ∷ d),
        lowest-reaches 75 (e ∷ d),
      )),
  λ h.
      ground (
        arith,
        h,
        value-gap (lowest (e ∷ d)),
        lowest-reaches 50 (e ∷ d),
        lowest-reaches 75 (e ∷ d),
      ),
)

-- The snapshot that `check_all` makes of any state counts as operational exactly if it has
-- components, none of them is critical or offline, and at least seven in ten are operational.
pub health_now-IsFit :
    (now duration : ℕ) (check : String → Option HealthResult) (s : State)
    → let h = health_now now duration check s in
      (is_operational h.overall ≡ true) ↔ (
        (1 ≤ total_count h)
        × (count_levels is_tolerable h.components ≡ total_count h)
        × (7 * total_count h ≤ 10 * operational_count h))
unfolding health_now
health_now-IsFit now duration check s =
    overall_of-IsFit (health_now now duration check s).components
