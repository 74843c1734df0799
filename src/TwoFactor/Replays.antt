-- ===== src/TwoFactor/Replays.antt =====
-- Sequences of attempts to pass `verify_totp_code` of pytmbot/utils/totp.py.
use pytmbot.Base.{
  ℕ, zero, suc, ◌+◌, ◌-◌, ◌≤◌, ◌<◌, ◌≡◌, sym, Bool, true, false, some, List, [], ◌∷◌, arith,
  Option-cases, Bool-cases, inl, inr,
}
use pytmbot.Base.Text.{strip}
use pytmbot.TwoFactor.Digits.{matches_pattern}
use pytmbot.TwoFactor.Replay.{
  Code, Marker, Register, Writing, oldest_step, match_from, resolve_matching_step, verify_totp_code,
}
use pytmbot.TwoFactor.OneTime.{
  Remembers, HasRoom, register-Remembers, register-keeps, register-refuses,
}

pub record Attempt : Type 0 where
  pub user : ℕ
  pub code : Code
  pub current_step : ℕ
  pub writing : Writing

-- The codes that the pyotp package takes for a user and a step.
abbrev pub Verify : Type 0
Verify = ℕ → Code → ℕ → Bool

abbrev pub attempt : Verify → Attempt → Register → Bool × Register
attempt verify a = verify_totp_code (verify a.user) a.user a.code a.current_step a.writing

unfoldable pub attempt_all : Verify → List Attempt → Register → Register
attempt_all verify [] r = r
attempt_all verify (a ∷ rest) r = attempt_all verify rest (attempt verify a r).1

-- Until `last`, and never at the cap of a user's markers.
abbrev pub AreBefore : Verify → ℕ → List Attempt → Register → Type 0
AreBefore verify last [] r = Unit {0}
AreBefore verify last (a ∷ rest) r =
    (a.current_step ≤ last)
    × HasRoom a.user a.current_step r
    × AreBefore verify last rest (attempt verify a r).1

match_from-within :
    (verify : Code → ℕ → Bool) (code : Code) (first n step : ℕ)
    → match_from verify code first n ≡ some step
    → (first ≤ step) × (step < first + n) × (verify code step ≡ true)
unfolding match_from
match_from-within verify code first zero step h = ground arith
match_from-within verify code first (suc n) step h =
    ground (arith, match_from-within verify code (first + 1) n step)

-- The step that matches is at most one before the current step, and the code is the step's.
pub resolve-within :
    (verify : Code → ℕ → Bool) (code : Code) (t step : ℕ)
    → resolve_matching_step verify code t ≡ some step
    → (t ≤ step + 1) × (verify code step ≡ true)
unfolding resolve_matching_step
resolve-within verify code t step h = ground (arith, match_from-within verify code (t - 1) 3 step h)

module _ (verify : Verify) where
  attempt-keeps :
      (a : Attempt) (r : Register) (user : ℕ) (m : Marker)
      → HasRoom a.user a.current_step r
      → oldest_step a.current_step ≤ m.step
      → Remembers user m r
      → Remembers user m (attempt verify a r).1
  unfolding verify_totp_code
  attempt-keeps a r user m room le k = elim (Bool-cases (matches_pattern (strip a.code))) [
    | inr e ↦ rw e k
    | inl e ↦
        elim (Option-cases (resolve_matching_step (verify a.user) (strip a.code) a.current_step)) [
          | inl f ↦ rw (e, f) k
          | inr (step, f) ↦
              rw (e, f)
                (register-keeps a.user (record { code = strip a.code; step = step }) a.current_step
                  a.writing r user m room le k)
        ]
  ]

  attempt_all-keeps :
      (rest : List Attempt) (r : Register) (last user : ℕ) (m : Marker)
      → AreBefore verify last rest r
      → oldest_step last ≤ m.step
      → Remembers user m r
      → Remembers user m (attempt_all verify rest r)
  unfolding attempt_all
  attempt_all-keeps [] r last user m before le k = k
  attempt_all-keeps (a ∷ rest) r last user m before le k =
      attempt_all-keeps rest (attempt verify a r).1 last user m before.2 le
        (attempt-keeps a r user m before.1 (omega (arith, le, before.0)) k)

  accepted :
      (a : Attempt) (r : Register) (step : ℕ)
      → (attempt verify a r).0 ≡ true
      → resolve_matching_step (verify a.user) (strip a.code) a.current_step ≡ some step
      → HasRoom a.user a.current_step r
      → Remembers a.user (record { code = strip a.code; step = step }) (attempt verify a r).1
  unfolding verify_totp_code
  accepted a r step h f room = elim (Bool-cases (matches_pattern (strip a.code))) [
    | inr e ↦ ground (arith, h)
    | inl e ↦
        rw (e, f)
          (register-Remembers a.user (record { code = strip a.code; step = step }) a.current_step
            a.writing r room
            (omega (arith, resolve-within (verify a.user) (strip a.code) a.current_step step f))
            (ground (arith, h)))
  ]

  -- A code that was accepted for a step is refused for that step at any later attempt of the user,
  -- however it is padded with white space, whatever attempts of all users lie between and whether
  -- or not the file can be written, as long as no user comes to the cap of markers meanwhile.
  pub accepted_once :
      (a b : Attempt) (between : List Attempt) (r : Register) (step : ℕ)
      → a.user ≡ b.user
      → strip a.code ≡ strip b.code
      → (attempt verify a r).0 ≡ true
      → resolve_matching_step (verify a.user) (strip a.code) a.current_step ≡ some step
      → resolve_matching_step (verify b.user) (strip b.code) b.current_step ≡ some step
      → AreBefore verify b.current_step (a ∷ between) r
      → (attempt verify b (attempt_all verify (a ∷ between) r)).0 ≡ false
  unfolding verify_totp_code attempt_all
  accepted_once a b between r step same same_code h f g before =
      let m : Marker = record { code = strip a.code; step = step } in
      let k : Remembers b.user m (attempt_all verify between (attempt verify a r).1) =
        attempt_all-keeps between (attempt verify a r).1 b.current_step b.user m before.2
          (omega (arith, resolve-within (verify b.user) (strip b.code) b.current_step step g))
          (rw (sym same) (accepted a r step h f before.1)) in
      elim (Bool-cases (matches_pattern (strip b.code))) [
        | inr e ↦ ground (arith, e)
        | inl e ↦
            rw (e, g)
              (register-refuses b.user (record { code = strip b.code; step = step }) b.current_step
                b.writing (attempt_all verify between (attempt verify a r).1)
                (omega (arith, resolve-within (verify b.user) (strip b.code) b.current_step step g))
                (rw (sym same_code) k))
      ]
