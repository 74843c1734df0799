-- ===== src/Polling/Backoff.antt =====
-- The end of the polling of pytmbot/pytmbot_instance.py, and its sleeps.
use pytmbot.Base.{
  ℕ, ◌≤◌, ◌≡◌, ◌⊎◌, refl, Bool, true, false, not, ◌||◌, Option, none, some, List, [], ◌∷◌, ◌++◌,
  arith, All, All-append, Bool-cases, inl, inr,
}
use pytmbot.Base.Eq.{◌==◌, nat_eq}
use pytmbot.Polling.{
  Error, critical, api, connection, unexpected, Circuit, count_limit, handle_rate_limited,
  handle_api_error, State, initial, back_off, handle_polling_error, Round, polled, broken, round,
  poll, max_sleep_time, base_sleep_time,
}

-- The errors that no retry can help: those of the process, the codes for a token that is refused, and
-- what is not expected at all.
abbrev is_fatal : Error → Bool
is_fatal critical = true
is_fatal (api code raw) = code == 401 || (code == 403 || code == 404)
is_fatal connection = false
is_fatal unexpected = true

abbrev pub ends : Round → Bool
ends polled = false
ends (broken error now) = is_fatal error

abbrev pub any_ends : List Round → Bool
any_ends [] = false
any_ends (r ∷ rs) = ends r || any_ends rs

-- Every sleep so far is at most five minutes, and so is the next, which is at least ten seconds.
pub record IsPatient (s : State) : Type 0 where
  pub next_low : base_sleep_time ≤ s.sleep_time
  pub next_high : s.sleep_time ≤ max_sleep_time
  pub past : All (λ n. n ≤ max_sleep_time) s.slept

handle_api_error-sleeps :
    (code : ℕ) (raw : Option ℕ) (now : ℕ) (c : Circuit)
    → All (λ n. n ≤ max_sleep_time) (handle_api_error code raw now c).sleeps
unfolding handle_api_error handle_rate_limited count_limit
handle_api_error-sleeps code raw now c = ground arith

handle_api_error-recovered :
    (code : ℕ) (raw : Option ℕ) (now : ℕ) (c : Circuit)
    → (handle_api_error code raw now c).recovered ≡ not (is_fatal (api code raw))
unfolding handle_api_error handle_rate_limited count_limit
handle_api_error-recovered code raw now c = ground arith

back_off-IsPatient :
    (sleeps : List ℕ) (circuit : Circuit) (s : State)
    → All (λ n. n ≤ max_sleep_time) sleeps
    → IsPatient s
    → IsPatient
        (back_off (record s { circuit = circuit; slept = sleeps ++ s.sleep_time ∷ s.slept }))
back_off-IsPatient sleeps circuit s short h = record {
  next_low = omega (arith, h.next_low);
  next_high = omega arith;
  past = (
    h.next_high,
    All-append (λ n. n ≤ max_sleep_time) sleeps (s.sleep_time ∷ s.slept) short
        (h.next_high, h.past),
  );
}

round_lem :
    (r : Round) (s : State)
    → IsPatient s
    → ((ends r ≡ true) × (round r s ≡ none))
      ⊎ ((ends r ≡ false) × (s' : State) × (round r s ≡ some s') × IsPatient s')
unfolding round handle_polling_error
round_lem polled s h = inr (
  refl,
  record initial { slept = s.slept },
  refl,
  record { next_low = omega arith; next_high = omega arith; past = h.past },
)
round_lem (broken critical now) s h = inl (refl, refl)
round_lem (broken unexpected now) s h = inl (refl, refl)
round_lem (broken connection now) s h = inr (
  refl,
  back_off (record s { slept = s.sleep_time ∷ s.slept }),
  refl,
  back_off-IsPatient [] s.circuit s tt h,
)
round_lem (broken (api code raw) now) s h =
    let o = handle_api_error code raw now s.circuit in
    let answer = handle_api_error-recovered code raw now s.circuit in
    elim (Bool-cases (is_fatal (api code raw))) [
      | inl fatal ↦ inl (fatal, ground (arith, answer, fatal))
      | inr mild ↦ inr (
        mild,
        back_off (record s { circuit = o.circuit; slept = o.sleeps ++ s.sleep_time ∷ s.slept }),
        ground (arith, answer, mild),
        back_off-IsPatient o.sleeps o.circuit s (handle_api_error-sleeps code raw now s.circuit) h,
      )
    ]

poll_lem :
    (rs : List Round) (s : State)
    → IsPatient s
    → ((any_ends rs ≡ true) × (poll rs s ≡ none))
      ⊎ ((any_ends rs ≡ false) × (s' : State) × (poll rs s ≡ some s') × IsPatient s')
unfolding poll
poll_lem [] s h = inr (refl, s, refl, h)
poll_lem (r ∷ rs) s h = elim (round_lem r s h) [
  | inl (end, e) ↦ inl (ground (arith, end), ground (arith, e))
  | inr (go, s1, e, h1) ↦ elim (poll_lem rs s1 h1) [
    | inl (end, f) ↦ inl (ground (arith, go, end), ground (arith, e, f))
    | inr (on, s2, f, h2) ↦ inr (ground (arith, go, on), s2, ground (arith, e, f), h2)
  ]
]

-- The polling ends exactly with the first error that no retry can help: an error of the process, a
-- 401, 403 or 404, or one that is not expected. Through all other errors, whatever a 429 asks for, it
-- goes on, and no sleep is longer than five minutes.
pub poll_ends :
    (rs : List Round)
    → ((any_ends rs ≡ true) × (poll rs initial ≡ none))
      ⊎ ((any_ends rs ≡ false) × (s : State) × (poll rs initial ≡ some s) × IsPatient s)
poll_ends rs =
    poll_lem rs initial (record { next_low = omega arith; next_high = omega arith; past = tt })
