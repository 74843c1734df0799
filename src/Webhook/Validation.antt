-- ===== src/Webhook/Validation.antt =====
-- The two caches of `TelegramIPValidator` of pytmbot/models/telegram_models.py change no answer.
use pytmbot.Base.{
  ◌≤◌, ◌<◌, ◌≡◌, refl, ap, String, Bool, true, false, Option, none, some, List, [], ◌∷◌, ◌++◌,
  arith, leb, length, length-append, All, All-append, if◌then◌else◌, Bool-cases, Option-cases, inl,
  inr, map,
}
use pytmbot.Base.Eq.{◌==◌, string_eq, ==_iff, ==_refl}
use pytmbot.Webhook.Addresses.{
  Address, Ranges, Cache, Caches, fresh, max_ips, is_member, discard, append, remember, in_ranges,
  is_telegram_ip,
}

-- No address is listed twice.
abbrev pub AreDistinct : List String → Type 0
AreDistinct [] = Unit {0}
AreDistinct (ip ∷ ips) = (is_member ip ips ≡ false) × AreDistinct ips

is_member-append :
    (ip jp : String) (ips : List String)
    → is_member ip (ips ++ jp ∷ []) ≡ (if jp == ip then true else is_member ip ips)
unfolding is_member
is_member-append ip jp [] = refl
is_member-append ip jp (kp ∷ ips) = ground (arith, is_member-append ip jp ips)

append-AreDistinct :
    (ip : String) (ips : List String)
    → is_member ip ips ≡ false
    → AreDistinct ips
    → AreDistinct (ips ++ ip ∷ [])
unfolding is_member
append-AreDistinct ip [] new h = (refl, tt)
append-AreDistinct ip (jp ∷ ips) new h =
    ground
      (arith, ==_iff ip jp, ==_iff jp ip, is_member-append jp ip ips, append-AreDistinct ip ips)

discard-absent : (ip : String) (ips : List String) → is_member ip ips ≡ false → discard ip ips ≡ ips
unfolding is_member discard
discard-absent ip [] h = refl
discard-absent ip (jp ∷ ips) h = ground (arith, discard-absent ip ips)

discard-first :
    (ip : String) (ips : List String) → is_member ip ips ≡ false → discard ip (ip ∷ ips) ≡ ips
unfolding discard
discard-first ip ips h = ground (arith, ==_refl ip, discard-absent ip ips h)

All-member :
    (f : String → Bool) (b : Bool) (ip : String) (ips : List String)
    → All (λ jp. f jp ≡ b) ips
    → is_member ip ips ≡ true
    → f ip ≡ b
unfolding is_member
All-member f b ip [] h m = ground (arith, m)
All-member f b ip (jp ∷ ips) h m = elim (Bool-cases (jp == ip)) [
  | inl hit ↦ let e : jp ≡ ip = (==_iff jp ip).0 hit in rw e at (h.0)
  | inr miss ↦ All-member f b ip ips h.1 (ground arith)
]

-- A cache of addresses with one answer, in the order of their arrival.
pub record IsSound (f : String → Bool) (b : Bool) (c : Cache) : Type 0 where
  pub ordered : c.order ≡ c.members
  pub distinct : AreDistinct c.members
  pub answered : All (λ ip. f ip ≡ b) c.members
  pub bounded : length c.members ≤ max_ips

module _ (f : String → Bool) (b : Bool) (ip : String) (same : f ip ≡ b) where
  append-IsSound :
      (c : Cache)
      → IsSound f b c
      → is_member ip c.members ≡ false
      → length c.members < max_ips
      → IsSound f b (append ip c)
  append-IsSound c h new room = record {
    ordered = ap (λ ips. ips ++ ip ∷ []) h.ordered;
    distinct = append-AreDistinct ip c.members new h.distinct;
    answered = All-append (λ jp. f jp ≡ b) c.members (ip ∷ []) h.answered (same, tt);
    bounded = omega (arith, room, length-append c.members (ip ∷ []));
  }

  evict_first :
      (members : List String)
      → is_member ip members ≡ false
      → AreDistinct members
      → max_ips ≤ length members
      → (rest : List String) × (old : String) × (members ≡ old ∷ rest)
        × (is_member ip rest ≡ false)
        × (remember ip (record { members = members; order = members })
            ≡ some (append ip (record { members = rest; order = rest })))
  unfolding remember is_member
  evict_first [] new distinct full = absurd (omega (arith, full))
  evict_first (old ∷ rest) new distinct full =
      (rest, old, refl, ground (arith, new), ground (arith, discard-first old rest distinct.0))

  -- `remember` never raises; a full cache gives up its first member.
  remember-IsSound :
      (c : Cache) → IsSound f b c → (c' : Cache) × (remember ip c ≡ some c') × IsSound f b c'
  unfolding remember
  remember-IsSound c h = elim (Bool-cases (is_member ip c.members)) [
    | inl there ↦ (c, ground (arith, there), h)
    | inr new ↦ elim (Bool-cases (leb max_ips (length c.members))) [
      | inr room ↦
          (append ip c, ground (arith, new, room), append-IsSound c h new (ground (arith, room)))
      | inl full ↦
          let (rest, old, e, gone, stored) =
            evict_first c.members new h.distinct (ground (arith, full)) in
          let same_cache : c ≡ record { members = c.members; order = c.members } =
            ground (arith, h.ordered) in
          (
            append ip (record { members = rest; order = rest }),
            rw same_cache stored,
            append-IsSound (record { members = rest; order = rest })
                (record {
                  ordered = refl;
                  distinct = ground (arith, e, h.distinct);
                  answered = ground (arith, e, h.answered);
                  bounded = ground (arith, e, h.bounded);
                })
                gone (ground (arith, e, h.bounded)),
          )
    ]
  ]

-- What an address is answered without the caches.
unfoldable pub uncached : (String → Option Address) → Ranges → String → Bool
uncached parse r ip = elim (parse ip) [ none ↦ false | some address ↦ in_ranges r address ]

-- Addresses asked in turn, each from the caches that the one before leaves.
unfoldable pub answer_all :
    (String → Option Address) → Ranges → List String → Caches → Option (List Bool)
answer_all parse r [] c = some []
answer_all parse r (ip ∷ ips) c = elim (is_telegram_ip parse r ip c) [
  | none ↦ none
  | some (answer, c') ↦ elim (answer_all parse r ips c') [
    | none ↦ none
    | some answers ↦ some (answer ∷ answers)
  ]
]

pub record AreSound (f : String → Bool) (c : Caches) : Type 0 where
  pub validated : IsSound f true c.validated
  pub rejected : IsSound f false c.rejected

module _ (parse : String → Option Address) (r : Ranges) where
  abbrev answer : String → Bool
  answer = uncached parse r

  pub is_telegram_ip-AreSound :
      (ip : String) (c : Caches)
      → AreSound answer c
      → (c' : Caches) × (is_telegram_ip parse r ip c ≡ some (answer ip, c')) × AreSound answer c'
  unfolding is_telegram_ip uncached
  is_telegram_ip-AreSound ip c h = elim (Bool-cases (is_member ip c.validated.members)) [
    | inl hit ↦
        let e : answer ip ≡ true =
          All-member answer true ip c.validated.members h.validated.answered hit in
        (c, ground (arith, e, hit), h)
    | inr miss ↦ elim (Bool-cases (is_member ip c.rejected.members)) [
      | inl hit ↦
          let e : answer ip ≡ false =
            All-member answer false ip c.rejected.members h.rejected.answered hit in
          (c, ground (arith, e, hit, miss), h)
      | inr miss_too ↦ elim (Option-cases (parse ip)) [
        | inl unread ↦ (c, ground (arith, unread, miss, miss_too), h)
        | inr (a, read) ↦ elim (Bool-cases (in_ranges r a)) [
          | inl inside ↦
              let (c', e, h') =
                remember-IsSound answer true ip (ground (arith, read, inside)) c.validated
                  h.validated in
              (
                record c { validated = c' },
                ground (arith, read, inside, miss, miss_too, e),
                record { validated = h'; rejected = h.rejected },
              )
          | inr outside ↦
              let (c', e, h') =
                remember-IsSound answer false ip (ground (arith, read, outside)) c.rejected
                  h.rejected in
              (
                record c { rejected = c' },
                ground (arith, read, outside, miss, miss_too, e),
                record { validated = h.validated; rejected = h' },
              )
        ]
      ]
    ]
  ]

  answer_all-AreSound :
      (ips : List String) (c : Caches)
      → AreSound answer c
      → answer_all parse r ips c ≡ some (map answer ips)
  unfolding answer_all
  answer_all-AreSound [] c h = refl
  answer_all-AreSound (ip ∷ ips) c h =
      let (c', e, h') = is_telegram_ip-AreSound ip c h in
      ground (arith, e, answer_all-AreSound ips c' h')

pub fresh-AreSound : (f : String → Bool) → AreSound f fresh
fresh-AreSound f = record {
  validated = record { ordered = refl; distinct = tt; answered = tt; bounded = omega arith };
  rejected = record { ordered = refl; distinct = tt; answered = tt; bounded = omega arith };
}

-- However many addresses are asked of a fresh validator, and in whatever order, none of its calls
-- raises, and the two bounded caches change no answer: each address is answered as its text is read
-- and found in the ranges or not.
pub answer_all-uncached :
    (parse : String → Option Address) (r : Ranges) (ips : List String)
    → answer_all parse r ips fresh ≡ some (map (uncached parse r) ips)
answer_all-uncached parse r ips =
    answer_all-AreSound parse r ips fresh (fresh-AreSound (uncached parse r))
