-- ===== src/Monitor/Events.antt =====
-- The events of pytmbot/plugins/monitor/methods.py: their search, their entry and their removal.
use pytmbot.Base.{
  ℕ, ◌≡◌, ◌≢◌, refl, sym, inl, inr, Bool, true, false, ◌||◌, none, some, List, [], ◌∷◌, arith, All,
  if-keeps, if◌then◌else◌, Bool-cases,
}
use pytmbot.Base.Dict.{Dict, lookup, contains, insert, IsDict}
use pytmbot.Base.Eq.{◌==◌, ==_iff, nat_eq}
use pytmbot.Base.Text.{codes_eq}
use pytmbot.Monitor.{Event, is_active, search_events, drop_active}

-- There is an event of the type that is not resolved.
unfoldable pub has_active : List ℕ → Dict ℕ Event → Bool
has_active t [] = false
has_active t ((id, e) ∷ d) = is_active t e || has_active t d

pub search-has_active :
    (t : List ℕ) (d : Dict ℕ Event) → search_events t d ≡ none → has_active t d ≡ false
unfolding search_events has_active
search-has_active t [] h = refl
search-has_active t ((id, e) ∷ d) h = ground (arith, h, search-has_active t d)

pub search-found :
    (t : List ℕ) (d : Dict ℕ Event) {i : ℕ} → search_events t d ≡ some i → has_active t d ≡ true
unfolding search_events has_active
search-found t [] h = ground (arith, h)
search-found t ((id, e) ∷ d) {i} h = ground (arith, h, search-found t d {i = i})

pub lookup-has_active :
    (i : ℕ) (t : List ℕ) (d : Dict ℕ Event) {e : Event}
    → lookup i d ≡ some e
    → is_active t e ≡ true
    → has_active t d ≡ true
unfolding lookup has_active
lookup-has_active i t [] h a = ground (arith, h)
lookup-has_active i t ((j, x) ∷ d) {e} h a = elim (Bool-cases (j == i)) [
  | inl hit ↦
      let same : x ≡ e = ground (arith, h, hit) in
      let active : is_active t x ≡ true = rw (sym same) at a in ground (arith, active)
  | inr miss ↦ ground (arith, lookup-has_active i t d {e = e} (ground (arith, h, miss)) a)
]

pub has_active-insert :
    (i : ℕ) (x : Event) (t : List ℕ) (d : Dict ℕ Event)
    → contains i d ≡ false
    → has_active t (insert i x d) ≡ (is_active t x || has_active t d)
unfolding insert contains has_active
has_active-insert i x t [] h = refl
has_active-insert i x t ((j, y) ∷ d) h = ground (arith, h, has_active-insert i x t d)

pub has_active-drop_active :
    (u t : List ℕ) (d : Dict ℕ Event)
    → has_active u (drop_active t d) ≡ (if t == u then false else has_active u d)
unfolding drop_active has_active
has_active-drop_active u t [] = ground arith
has_active-drop_active u t ((j, y) ∷ d) =
    ground (
      arith,
      ==_iff t u,
      ==_iff y.event_type t,
      ==_iff y.event_type u,
      has_active-drop_active u t d,
    )

pub All-insert :
    (P : ℕ × Event → Type 0) (i : ℕ) (x : Event) (d : Dict ℕ Event)
    → P (i, x)
    → All P d
    → All P (insert i x d)
unfolding insert
All-insert P i x [] p h = (p, tt)
All-insert P i x ((j, y) ∷ d) p h = elim (Bool-cases (j == i)) [
  | inl hit ↦ rw hit (rw (sym ((==_iff j i).0 hit)) at p, h.1)
  | inr miss ↦ rw miss (h.0, All-insert P i x d p h.1)
]

pub All-lookup :
    (P : ℕ × Event → Type 0) (i : ℕ) (d : Dict ℕ Event) {x : Event}
    → All P d
    → lookup i d ≡ some x
    → P (i, x)
unfolding lookup
All-lookup P i [] h e = ground (arith, e)
All-lookup P i ((j, y) ∷ d) {x} h e = elim (Bool-cases (j == i)) [
  | inl hit ↦
      let same : y ≡ x = ground (arith, e, hit) in rw (sym same, sym ((==_iff j i).0 hit)) (h.0)
  | inr miss ↦ All-lookup P i d h.1 (ground (arith, e, miss))
]

pub All-drop_active :
    (P : ℕ × Event → Type 0) (t : List ℕ) (d : Dict ℕ Event) → All P d → All P (drop_active t d)
unfolding drop_active
All-drop_active P t [] h = tt
All-drop_active P t ((j, y) ∷ d) h =
    if-keeps (λ (r : Dict ℕ Event). All P r) (is_active t y) (All-drop_active P t d h.1)
      (h.0, All-drop_active P t d h.1)

pub All-map :
    (P Q : ℕ × Event → Type 0) (d : Dict ℕ Event)
    → ((e : ℕ × Event) → P e → Q e)
    → All P d
    → All Q d
All-map P Q [] f h = tt
All-map P Q (e ∷ d) f h = (f e h.0, All-map P Q d f h.1)

pub absent-All : (i : ℕ) (d : Dict ℕ Event) → contains i d ≡ false → All (λ e. e.0 ≢ i) d
unfolding contains
absent-All i [] h = tt
absent-All i ((j, y) ∷ d) h =
    ((λ e. ground (arith, h, e, ==_iff j i)), absent-All i d (ground (arith, h)))

pub All-absent : (i : ℕ) (d : Dict ℕ Event) → All (λ e. e.0 ≢ i) d → contains i d ≡ false
unfolding contains
All-absent i [] h = refl
All-absent i ((j, y) ∷ d) h = ground (arith, h.0, ==_iff j i, All-absent i d h.1)

pub drop_active-IsDict : (t : List ℕ) (d : Dict ℕ Event) → IsDict d → IsDict (drop_active t d)
unfolding drop_active
drop_active-IsDict t [] h = tt
drop_active-IsDict t ((j, y) ∷ d) h =
    if-keeps (λ (r : Dict ℕ Event). IsDict r) (is_active t y) (drop_active-IsDict t d h.1)
      (
        All-absent j (drop_active t d) (All-drop_active (λ e. e.0 ≢ j) t d (absent-All j d h.0)),
        drop_active-IsDict t d h.1,
      )

pub search-contains :
    (t : List ℕ) (d : Dict ℕ Event) {i : ℕ} → search_events t d ≡ some i → contains i d ≡ true
unfolding search_events contains
search-contains t [] h = ground (arith, h)
search-contains t ((j, y) ∷ d) {i} h = ground (arith, h, ==_iff j i, search-contains t d {i = i})

-- What the search finds is the identifier of events of the type alone.
pub search-typed :
    (t : List ℕ) (d : Dict ℕ Event) {i : ℕ}
    → IsDict d
    → search_events t d ≡ some i
    → All (λ e. e.0 ≡ i → e.1.event_type ≡ t) d
unfolding search_events
search-typed t [] u h = tt
search-typed t ((j, y) ∷ d) {i} u h = elim (Bool-cases (is_active t y)) [
  | inl hit ↦
      let same : j ≡ i = ground (arith, h, hit) in
      (
        (λ e. ground (arith, hit, ==_iff y.event_type t)),
        All-map (λ e. e.0 ≢ j) (λ e. e.0 ≡ i → e.1.event_type ≡ t) d
            (λ e n k. ground (arith, n, k, same)) (absent-All j d u.0),
      )
  | inr miss ↦
      let found : search_events t d ≡ some i = ground (arith, h, miss) in
      (
        (λ e.
            let there : contains j d ≡ true = rw e (search-contains t d {i = i} found) in
            ground (arith, u.0, there)),
        search-typed t d {i = i} u.1 found,
      )
]
