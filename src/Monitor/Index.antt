-- ===== src/Monitor/Index.antt =====
-- The index of events of pytmbot/plugins/monitor/methods.py: it leads to events of its types.
use pytmbot.Base.{
  ℕ, ◌+◌, ◌<◌, ◌≡◌, ◌≢◌, refl, sym, ◌∙◌, inl, inr, true, false, Option, none, some, List, [], ◌∷◌,
  arith, All, Bool-cases, Option-cases,
}
use pytmbot.Base.Dict.{
  Dict, lookup, contains, insert, erase, IsDict, lookup-insert, lookup-erase, insert-IsDict,
}
use pytmbot.Base.Eq.{◌==◌, ==_iff, nat_eq}
use pytmbot.Base.Text.{codes_eq}
use pytmbot.Monitor.{
  Event, State, search_events, search_afresh, use_index, find_active_event_id, create_event,
  drop_active,
}
use pytmbot.Monitor.Events.{
  has_active, search-has_active, search-found, lookup-has_active, All-insert, All-lookup,
  All-drop_active, All-map, All-absent, drop_active-IsDict, search-typed, search-contains,
}

-- Different calls of `uuid4` return different identifiers.
abbrev pub IsUnique : (ℕ → ℕ) → Type 0
IsUnique uuid4 = (m n : ℕ) → uuid4 m ≡ uuid4 n → m ≡ n

All-both :
    (P Q : ℕ × Event → Type 0) (d : Dict ℕ Event) → All P d → All Q d → All (λ e. P e × Q e) d
All-both P Q [] p q = tt
All-both P Q (e ∷ d) p q = ((p.0, q.0), All-both P Q d p.1 q.1)

module _ (uuid4 : ℕ → ℕ) where
  abbrev pub IsDrawn : ℕ → ℕ → Type 0
  IsDrawn n i = (k : ℕ) × (k < n) × (i ≡ uuid4 k)

  abbrev pub IsTyped : Dict (List ℕ) ℕ → ℕ × Event → Type 0
  IsTyped ids e = (t : List ℕ) → lookup t ids ≡ some e.0 → e.1.event_type ≡ t

  -- The identifiers are drawn ones, and the index leads to events of its types.
  pub record IsSound (s : State) : Type 0 where
    pub unique : IsDict s.active_events
    pub known : All (λ e. IsDrawn s.drawn e.0) s.active_events
    pub indexed : (t : List ℕ) (i : ℕ) → lookup t s.active_event_ids ≡ some i → IsDrawn s.drawn i
    pub typed : All (IsTyped s.active_event_ids) s.active_events

  pub unindexed-IsSound :
      (t : List ℕ) (s : State)
      → IsSound s
      → IsSound (record s { active_event_ids = erase t s.active_event_ids })
  unindexed-IsSound t s h = record {
    unique = h.unique;
    known = h.known;
    indexed = λ u i e. h.indexed u i (ground (arith, e, lookup-erase t u s.active_event_ids));
    typed =
        All-map (IsTyped s.active_event_ids) (IsTyped (erase t s.active_event_ids)) s.active_events
          (λ x f u e. f u (ground (arith, e, lookup-erase t u s.active_event_ids))) h.typed;
  }

  pub dropped-IsSound :
      (t : List ℕ) (s : State)
      → IsSound s
      → IsSound (record s { active_events = drop_active t s.active_events })
  dropped-IsSound t s h = record {
    unique = drop_active-IsDict t s.active_events h.unique;
    known = All-drop_active (λ e. IsDrawn s.drawn e.0) t s.active_events h.known;
    indexed = h.indexed;
    typed = All-drop_active (IsTyped s.active_event_ids) t s.active_events h.typed;
  }

  -- What `_find_active_event_id` returns, and that it changes no event.
  abbrev pub IsAnswer : List ℕ → State → Option ℕ × State → Type 0
  IsAnswer t s r =
      (has_active t s.active_events ≡ elim r.0 [ none ↦ false | some i ↦ true ])
      × (r.1.active_events ≡ s.active_events)
      × (r.1.drawn ≡ s.drawn)
      × IsSound r.1

  contains-IsDrawn :
      (n i : ℕ) (d : Dict ℕ Event) → All (λ e. IsDrawn n e.0) d → contains i d ≡ true → IsDrawn n i
  unfolding contains
  contains-IsDrawn n i [] h c = ground (arith, c)
  contains-IsDrawn n i ((j, x) ∷ d) h c = elim (Bool-cases (j == i)) [
    | inl hit ↦ rw ((==_iff j i).0 hit) at (h.0)
    | inr miss ↦ contains-IsDrawn n i d h.1 (ground (arith, c, miss))
  ]

  found-IsSound :
      (t : List ℕ) (i : ℕ) (s : State)
      → IsSound s
      → search_events t s.active_events ≡ some i
      → IsSound (record s { active_event_ids = insert t i s.active_event_ids })
  found-IsSound t i s h e = record {
    unique = h.unique;
    known = h.known;
    indexed = λ u j l. elim (Bool-cases (t == u)) [
      | inl same ↦
          let it : i ≡ j = ground (arith, l, same, lookup-insert t u i s.active_event_ids) in
          rw it at drawn
      | inr other ↦ h.indexed u j (ground (arith, l, other, lookup-insert t u i s.active_event_ids))
    ];
    typed =
        All-map (λ x. IsTyped s.active_event_ids x × (x.0 ≡ i → x.1.event_type ≡ t))
          (IsTyped (insert t i s.active_event_ids)) s.active_events
          (λ x fg u l. elim (Bool-cases (t == u)) [
            | inl same ↦
                let it : i ≡ x.0 =
                  ground (arith, l, same, lookup-insert t u i s.active_event_ids) in
                fg.1 (sym it) ∙ (==_iff t u).0 same
            | inr other ↦ fg.0 u (ground (arith, l, other, lookup-insert t u i s.active_event_ids))
          ])
          (All-both (IsTyped s.active_event_ids) (λ x. x.0 ≡ i → x.1.event_type ≡ t) s.active_events
            h.typed (search-typed t s.active_events {i = i} h.unique e));
  }
    where
      drawn : IsDrawn s.drawn i
      drawn =
          contains-IsDrawn s.drawn i s.active_events h.known
            (search-contains t s.active_events {i = i} e)

  search_afresh-IsAnswer : (t : List ℕ) (s : State) → IsSound s → IsAnswer t s (search_afresh t s)
  unfolding search_afresh
  search_afresh-IsAnswer t s h = elim (Option-cases (search_events t s.active_events)) [
    | inl absent ↦
        rw (search_afresh, absent) (search-has_active t s.active_events absent, refl, refl, h)
    | inr (i, e) ↦
        rw (search_afresh, e)
          (search-found t s.active_events {i = i} e, refl, refl, found-IsSound t i s h e)
  ]

  use_index-IsAnswer :
      (t : List ℕ) (s : State) (o : Option ℕ)
      → IsSound s
      → lookup t s.active_event_ids ≡ o
      → IsAnswer t s (use_index t s o)
  use_index-IsAnswer t s none h e = search_afresh-IsAnswer t s h
  use_index-IsAnswer t s (some i) h e = elim (Option-cases (lookup i s.active_events)) [
    | inl gone ↦ rw gone (
        search_afresh-IsAnswer t (record s { active_event_ids = erase t s.active_event_ids })
          (unindexed-IsSound t s h))
    | inr (x, there) ↦ elim (Bool-cases x.resolved) [
      | inl over ↦
          rw (there, over)
            (search_afresh-IsAnswer t (record s { active_event_ids = erase t s.active_event_ids })
              (unindexed-IsSound t s h))
      | inr live ↦
          let of_type : x.event_type ≡ t =
            All-lookup (IsTyped s.active_event_ids) i s.active_events {x = x} h.typed there t e in
          rw (there, live)
            (
              lookup-has_active i t s.active_events {e = x} there
                  (ground (arith, live, ==_iff x.event_type t, of_type)),
              refl,
              refl,
              h,
            )
    ]
  ]

  pub find-IsAnswer : (t : List ℕ) (s : State) → IsSound s → IsAnswer t s (find_active_event_id t s)
  unfolding find_active_event_id
  find-IsAnswer t s h = use_index-IsAnswer t s (lookup t s.active_event_ids) h refl

  IsDrawn-later : (n i : ℕ) → IsDrawn n i → IsDrawn (n + 1) i
  IsDrawn-later n i (k, lt, e) = (k, omega (arith, lt), e)

  module _ (distinct : IsUnique uuid4) (now : ℕ) (t : List ℕ) (s : State) (h : IsSound s) where
    undrawn : (i : ℕ) → IsDrawn s.drawn i → uuid4 s.drawn ≢ i
    undrawn i (k, lt, e) same = omega (arith, lt, distinct s.drawn k (same ∙ e))

    pub new_id : contains (uuid4 s.drawn) s.active_events ≡ false
    new_id = All-absent (uuid4 s.drawn) s.active_events (
        All-map (λ e. IsDrawn s.drawn e.0) (λ e. e.0 ≢ uuid4 s.drawn) s.active_events
          (λ e drawn same. undrawn e.0 drawn (sym same)) h.known)

    pub create-IsSound : IsSound (create_event uuid4 now t s)
    unfolding create_event
    create-IsSound = record {
      unique = insert-IsDict (uuid4 s.drawn) new s.active_events h.unique;
      known =
          All-insert (λ e. IsDrawn (s.drawn + 1) e.0) (uuid4 s.drawn) new s.active_events latest
            (All-map (λ e. IsDrawn s.drawn e.0) (λ e. IsDrawn (s.drawn + 1) e.0) s.active_events
              (λ e. IsDrawn-later s.drawn e.0) h.known);
      indexed = λ u i l. elim (Bool-cases (t == u)) [
        | inl same ↦
            let it : uuid4 s.drawn ≡ i =
              ground (arith, l, same, lookup-insert t u (uuid4 s.drawn) s.active_event_ids) in
            rw it at latest
        | inr other ↦ IsDrawn-later s.drawn i (
            h.indexed u i
              (ground (arith, l, other, lookup-insert t u (uuid4 s.drawn) s.active_event_ids)))
      ];
      typed = All-insert (IsTyped ids) (uuid4 s.drawn) new s.active_events of_new (
          All-map (λ e. IsTyped s.active_event_ids e × IsDrawn s.drawn e.0) (IsTyped ids)
            s.active_events of_old
            (All-both (IsTyped s.active_event_ids) (λ e. IsDrawn s.drawn e.0) s.active_events
              h.typed h.known));
    }
      where
        new : Event
        new = record { event_type = t; start_time = now; resolved = false }

        ids : Dict (List ℕ) ℕ
        ids = insert t (uuid4 s.drawn) s.active_event_ids

        latest : IsDrawn (s.drawn + 1) (uuid4 s.drawn)
        latest = (s.drawn, omega arith, refl)

        of_new : IsTyped ids (uuid4 s.drawn, new)
        of_new u l = elim (Bool-cases (t == u)) [
          | inl same ↦ (==_iff t u).0 same
          | inr other ↦
              let old : lookup u s.active_event_ids ≡ some (uuid4 s.drawn) =
                ground (arith, l, other, lookup-insert t u (uuid4 s.drawn) s.active_event_ids) in
              elim (undrawn (uuid4 s.drawn) (h.indexed u (uuid4 s.drawn) old) refl) [ ]
        ]

        of_old :
            (e : ℕ × Event) → IsTyped s.active_event_ids e × IsDrawn s.drawn e.0 → IsTyped ids e
        of_old e fd u l = elim (Bool-cases (t == u)) [
          | inl same ↦
              let it : uuid4 s.drawn ≡ e.0 =
                ground (arith, l, same, lookup-insert t u (uuid4 s.drawn) s.active_event_ids) in
              elim (undrawn e.0 fd.1 it) [ ]
          | inr other ↦
              fd.0 u
                (ground (arith, l, other, lookup-insert t u (uuid4 s.drawn) s.active_event_ids))
        ]
