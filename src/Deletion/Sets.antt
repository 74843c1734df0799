-- ===== src/Deletion/Sets.antt =====
-- The sets of pytmbot/utils/message_deletion.py and the dictionary of them.
use pytmbot.Base.{
  ℕ, ◌+◌, ◌≤◌, ◌≡◌, refl, inl, inr, true, false, List, [], ◌∷◌, arith, length, Bool-cases,
  if◌then◌else◌,
}
use pytmbot.Base.Dict.{Dict, lookup, contains, insert, IsDict, lookup-insert, contains-lookup}
use pytmbot.Base.Eq.{◌==◌, ==_iff, nat_eq}
use pytmbot.Deletion.{key_eq, is_in, add, discard, pending_of, touch}
use pytmbot.Deletion.Steps.{drop_empty}

pub is_in-add : (j m : ℕ) (ms : List ℕ) → is_in j (add m ms) ≡ (if m == j then true else is_in j ms)
unfolding is_in add
is_in-add j m ms = elim (Bool-cases (is_in m ms)) [
  | inl here ↦ ground (arith, here, ==_iff m j)
  | inr new ↦ ground (arith, new)
]

pub length-add : (m : ℕ) (ms : List ℕ) → length (add m ms) ≤ length ms + 1
unfolding add
length-add m ms = ground arith

pub is_in-discard :
    (j m : ℕ) (ms : List ℕ) → is_in j (discard m ms) ≡ (if m == j then false else is_in j ms)
unfolding is_in discard
is_in-discard j m [] = ground arith
is_in-discard j m (n ∷ ns) =
    ground (arith, ==_iff m j, ==_iff n m, ==_iff n j, is_in-discard j m ns)

pub length-discard : (m : ℕ) (ms : List ℕ) → length (discard m ms) ≤ length ms
unfolding discard
length-discard m [] = omega arith
length-discard m (n ∷ ns) = ground (arith, length-discard m ns)

pub pending_of-insert :
    (u v : ℕ) (ms : List ℕ) (d : Dict ℕ (List ℕ))
    → pending_of v (insert u ms d) ≡ (if u == v then ms else pending_of v d)
pending_of-insert u v ms d = ground (arith, lookup-insert u v ms d)

pub pending_of-touch : (u v : ℕ) (d : Dict ℕ (List ℕ)) → pending_of v (touch u d) ≡ pending_of v d
pending_of-touch u v d = ground (arith, ==_iff u v, pending_of-insert u v (pending_of u d) d)

contains-drop_empty :
    (u : ℕ) (d : Dict ℕ (List ℕ)) → contains u d ≡ false → contains u (drop_empty d) ≡ false
unfolding contains drop_empty
contains-drop_empty u [] h = refl
contains-drop_empty u ((v, []) ∷ d) h = ground (arith, h, contains-drop_empty u d)
contains-drop_empty u ((v, m ∷ ms) ∷ d) h = ground (arith, h, contains-drop_empty u d)

pub drop_empty-IsDict : (d : Dict ℕ (List ℕ)) → IsDict d → IsDict (drop_empty d)
unfolding drop_empty
drop_empty-IsDict [] h = tt
drop_empty-IsDict ((v, []) ∷ d) h = drop_empty-IsDict d h.1
drop_empty-IsDict ((v, m ∷ ms) ∷ d) h = (contains-drop_empty v d h.0, drop_empty-IsDict d h.1)

pending_of-absent : (u : ℕ) (d : Dict ℕ (List ℕ)) → contains u d ≡ false → pending_of u d ≡ []
pending_of-absent u d h = ground (arith, h, contains-lookup u d)

pub pending_of-drop_empty :
    (u : ℕ) (d : Dict ℕ (List ℕ)) → IsDict d → pending_of u (drop_empty d) ≡ pending_of u d
unfolding drop_empty lookup
pending_of-drop_empty u [] h = refl
pending_of-drop_empty u ((v, []) ∷ d) h =
    ground (arith, ==_iff v u, pending_of-drop_empty u d h.1, pending_of-absent v d h.0)
pending_of-drop_empty u ((v, m ∷ ms) ∷ d) h = ground (arith, pending_of-drop_empty u d h.1)
