-- ===== src/Session/Select.antt =====
-- The comprehensions and deletion loops of pytmbot/middleware/session_manager.py: deleting the first
-- `n` users that a test selects drops their entries and keeps all others, in order.
use pytmbot.Base.{
  ℕ, zero, suc, ◌+◌, ◌≤◌, ◌≡◌, ◌≢◌, refl, Bool, false, none, some, List, [], ◌∷◌, arith, length,
  take, min, All, if◌then◌else◌, Bool-cases, inl, inr,
}
use pytmbot.Base.Dict.{lookup, contains, erase, IsDict, erase-absent, contains-lookup}
use pytmbot.Base.Eq.{nat_eq, ==_iff}
use pytmbot.Session.Store.{UserSession, Sessions, select, erase_all}

unfoldable pub drop_where : ℕ → (ℕ → UserSession → Bool) → Sessions → Sessions
drop_where zero p d = d
drop_where (suc n) p [] = []
drop_where (suc n) p ((u, s) ∷ d) =
    let rest = drop_where (suc n) p d in if p u s then drop_where n p d else (u, s) ∷ rest

select-absent :
    (u : ℕ) (p : ℕ → UserSession → Bool) (d : Sessions)
    → contains u d ≡ false
    → All (λ v. v ≢ u) (select p d)
unfolding select contains
select-absent u p [] h = tt
select-absent u p ((v, s) ∷ d) h = ground (arith, ==_iff v u, select-absent u p d)

take-All : (P : ℕ → Type 0) (n : ℕ) (us : List ℕ) → All P us → All P (take n us)
take-All P zero us h = tt
take-All P (suc n) [] h = tt
take-All P (suc n) (u ∷ us) h = (h.0, take-All P n us h.1)

erase_all-skip :
    (us : List ℕ) (u : ℕ) (s : UserSession) (d : Sessions)
    → All (λ v. v ≢ u) us
    → erase_all us ((u, s) ∷ d) ≡ (u, s) ∷ erase_all us d
unfolding erase_all erase
erase_all-skip [] u s d h = refl
erase_all-skip (v ∷ us) u s d h = ground (arith, ==_iff u v, erase_all-skip us u s (erase v d) h.1)

erase_all-drop :
    (us : List ℕ) (u : ℕ) (s : UserSession) (d : Sessions)
    → contains u d ≡ false
    → erase_all (u ∷ us) ((u, s) ∷ d) ≡ erase_all us d
unfolding erase_all erase
erase_all-drop us u s d h = ground (arith, ==_iff u u, erase-absent u d)

pub erase_all-take-select :
    (n : ℕ) (p : ℕ → UserSession → Bool) (d : Sessions)
    → IsDict d
    → erase_all (take n (select p d)) d ≡ drop_where n p d
unfolding drop_where select erase_all
erase_all-take-select zero p d h = refl
erase_all-take-select (suc n) p [] h = refl
erase_all-take-select (suc n) p ((u, s) ∷ d) h = elim (Bool-cases (p u s)) [
  | inl hit ↦
      rw (hit, erase_all-drop (take n (select p d)) u s d h.0) (erase_all-take-select n p d h.1)
  | inr miss ↦ rw (
    miss,
    erase_all-skip (take (suc n) (select p d)) u s d
        (take-All (λ v. v ≢ u) (suc n) (select p d) (select-absent u p d h.0)),
    erase_all-take-select (suc n) p d h.1,
  )
]

pub take-length {ℓ} : {A : Type ℓ} (xs : List A) → take (length xs) xs ≡ xs
take-length [] = refl
take-length (x ∷ xs) = rw (take-length xs)

pub erase_all-select :
    (p : ℕ → UserSession → Bool) (d : Sessions)
    → IsDict d
    → erase_all (select p d) d ≡ drop_where (length (select p d)) p d
erase_all-select p d h =
    let e : take (length (select p d)) (select p d) ≡ select p d = take-length (select p d) in
    rw e at (erase_all-take-select (length (select p d)) p d h)

pub length-drop_where :
    (n : ℕ) (p : ℕ → UserSession → Bool) (d : Sessions)
    → length (drop_where n p d) + min n (length (select p d)) ≡ length d
unfolding drop_where select
length-drop_where zero p d = omega arith
length-drop_where (suc n) p [] = omega arith
length-drop_where (suc n) p ((u, s) ∷ d) =
    ground (arith, length-drop_where n p d, length-drop_where (suc n) p d)

pub drop_where-All :
    (n : ℕ) (p : ℕ → UserSession → Bool) (d : Sessions)
    → length (select p d) ≤ n
    → All (λ e. p e.0 e.1 ≡ false) (drop_where n p d)
unfolding drop_where select
drop_where-All zero p [] h = tt
drop_where-All zero p ((u, s) ∷ d) h = ground (arith, drop_where-All zero p d)
drop_where-All (suc n) p [] h = tt
drop_where-All (suc n) p ((u, s) ∷ d) h =
    ground (arith, drop_where-All n p d, drop_where-All (suc n) p d)

pub drop_where-subset :
    (n : ℕ) (Q : ℕ × UserSession → Type 0) (p : ℕ → UserSession → Bool) (d : Sessions)
    → All Q d
    → All Q (drop_where n p d)
unfolding drop_where
drop_where-subset zero Q p d h = h
drop_where-subset (suc n) Q p [] h = tt
drop_where-subset (suc n) Q p ((u, s) ∷ d) h = elim (Bool-cases (p u s)) [
  | inl hit ↦ rw hit (drop_where-subset n Q p d h.1)
  | inr miss ↦ rw miss (h.0, drop_where-subset (suc n) Q p d h.1)
]

drop_where-absent :
    (n u : ℕ) (p : ℕ → UserSession → Bool) (d : Sessions)
    → contains u d ≡ false
    → contains u (drop_where n p d) ≡ false
unfolding drop_where contains
drop_where-absent zero u p d h = h
drop_where-absent (suc n) u p [] h = refl
drop_where-absent (suc n) u p ((v, s) ∷ d) h =
    ground (arith, drop_where-absent n u p d, drop_where-absent (suc n) u p d)

pub drop_where-IsDict :
    (n : ℕ) (p : ℕ → UserSession → Bool) (d : Sessions) → IsDict d → IsDict (drop_where n p d)
unfolding drop_where
drop_where-IsDict zero p d h = h
drop_where-IsDict (suc n) p [] h = tt
drop_where-IsDict (suc n) p ((u, s) ∷ d) h = elim (Bool-cases (p u s)) [
  | inl hit ↦ rw hit (drop_where-IsDict n p d h.1)
  | inr miss ↦ rw miss (drop_where-absent (suc n) u p d h.0, drop_where-IsDict (suc n) p d h.1)
]

-- A session that the test does not select stays as it is.
pub lookup-drop_where_kept :
    (n u : ℕ) (p : ℕ → UserSession → Bool) (d : Sessions) {s : UserSession}
    → lookup u d ≡ some s
    → p u s ≡ false
    → lookup u (drop_where n p d) ≡ some s
unfolding drop_where lookup
lookup-drop_where_kept zero u p d e h = e
lookup-drop_where_kept (suc n) u p [] e h = e
lookup-drop_where_kept (suc n) u p ((v, t) ∷ d) {s} e h = ground (
  arith,
  ==_iff v u,
  lookup-drop_where_kept n u p d {s = s},
  lookup-drop_where_kept (suc n) u p d {s = s},
)

lookup-absent : (u : ℕ) (d : Sessions) → contains u d ≡ false → lookup u d ≡ none
lookup-absent u d h = ground (arith, contains-lookup u d)

-- No session is changed or added.
pub lookup-drop_where :
    (n u : ℕ) (p : ℕ → UserSession → Bool) (d : Sessions) {s : UserSession}
    → IsDict d
    → lookup u (drop_where n p d) ≡ some s
    → lookup u d ≡ some s
unfolding drop_where lookup
lookup-drop_where zero u p d h e = e
lookup-drop_where (suc n) u p [] h e = e
lookup-drop_where (suc n) u p ((v, t) ∷ d) {s} h e = ground (
  arith,
  ==_iff v u,
  lookup-drop_where n u p d {s = s} h.1,
  lookup-drop_where (suc n) u p d {s = s} h.1,
  lookup-absent v d,
)
