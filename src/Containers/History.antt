-- ===== src/Containers/History.antt =====
-- The history of operations of pytmbot/adapters/docker/container_manager.py: it is cut back to 100.
use pytmbot.Base.{ℕ, ◌≤◌, ◌<◌, ◌≡◌, Bool, true, false, List, [], ◌∷◌, ◌++◌, arith, length, take}
use pytmbot.Base.Dict.{Dict, contains, insert, erase, length-insert, length-erase-le}
use pytmbot.Base.Eq.{==_refl, nat_eq}
use pytmbot.Base.Text.{codes_eq}
use pytmbot.Containers.{Operation}
use pytmbot.Containers.Actions.{insert_by_time, sort_by_time, del_keys, record_operation, name_of}

length-del_keys :
    (keys : List (List ℕ × ℕ)) (d : Dict (List ℕ) ℕ) → length (del_keys keys d) ≤ length d
unfolding del_keys
length-del_keys [] d = omega arith
length-del_keys ((key, t) ∷ keys) d =
    omega (arith, length-del_keys keys (erase key d), length-erase-le key d)

length-erase-lt :
    (key : List ℕ) (d : Dict (List ℕ) ℕ) → contains key d ≡ true → length (erase key d) < length d
unfolding contains erase
length-erase-lt key [] h = ground (arith, h)
length-erase-lt key ((j, t) ∷ d) h = ground (arith, length-erase-lt key d, length-erase-le key d)

-- Whether the first entry of a dictionary, if there is one, is under a key of another.
abbrev heads : Dict (List ℕ) ℕ → Dict (List ℕ) ℕ → Bool
heads [] d = false
heads ((key, t) ∷ rest) d = contains key d

insert_by_time-heads :
    (key : List ℕ) (t : ℕ) (rest d : Dict (List ℕ) ℕ)
    → contains key d ≡ true
    → (1 ≤ length rest → heads rest d ≡ true)
    → heads (insert_by_time (key, t) rest) d ≡ true
unfolding insert_by_time
insert_by_time-heads key t [] d h hr = h
insert_by_time-heads key t ((j, u) ∷ rest) d h hr = ground (arith, h, hr)

heads-cons :
    (rest d : Dict (List ℕ) ℕ) (key : List ℕ) (t : ℕ)
    → heads rest d ≡ true
    → heads rest ((key, t) ∷ d) ≡ true
unfolding contains
heads-cons [] d key t h = h
heads-cons ((j, u) ∷ rest) d key t h = ground (arith, h)

sort_by_time-heads :
    (key : List ℕ) (t : ℕ) (d : Dict (List ℕ) ℕ)
    → heads (sort_by_time ((key, t) ∷ d)) ((key, t) ∷ d) ≡ true
unfolding sort_by_time contains
sort_by_time-heads key t [] =
    insert_by_time-heads key t [] ((key, t) ∷ []) (ground (arith, ==_refl key))
      (λ h. ground (arith, h))
sort_by_time-heads key t ((j, u) ∷ d) =
    insert_by_time-heads key t (sort_by_time ((j, u) ∷ d)) ((key, t) ∷ (j, u) ∷ d)
      (ground (arith, ==_refl key))
      (λ h. heads-cons (sort_by_time ((j, u) ∷ d)) ((j, u) ∷ d) key t (sort_by_time-heads j u d))

del_keys-lt :
    (rest d : Dict (List ℕ) ℕ) → heads rest d ≡ true → length (del_keys (take 10 rest) d) < length d
unfolding del_keys
del_keys-lt [] d h = ground (arith, h)
del_keys-lt ((key, t) ∷ rest) d h =
    omega (arith, length-del_keys (take 9 rest) (erase key d), length-erase-lt key d h)

trimmed :
    (d : Dict (List ℕ) ℕ) → length d ≤ 101 → length (del_keys (take 10 (sort_by_time d)) d) ≤ 100
unfolding sort_by_time del_keys
trimmed [] h = omega arith
trimmed ((key, t) ∷ d) h = omega (
  arith,
  del_keys-lt (sort_by_time ((key, t) ∷ d)) ((key, t) ∷ d) (sort_by_time-heads key t d),
  h,
)

pub length-record_operation :
    (now : ℕ) (op : Operation) (id : List ℕ) (d : Dict (List ℕ) ℕ)
    → length d ≤ 100
    → length (record_operation now op id d) ≤ 100
unfolding record_operation
length-record_operation now op id d h = ground (
  arith,
  length-insert (name_of op ++ b':' ∷ id) now d,
  trimmed (insert (name_of op ++ b':' ∷ id) now d),
)
