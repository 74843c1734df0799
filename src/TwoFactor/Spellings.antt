-- ===== src/TwoFactor/Spellings.antt =====
-- Codes in other digits: what the register of pytmbot/utils/totp.py takes for one code.
use pytmbot.Base.{
  ℕ, ◌≤◌, ◌≡◌, ◌≢◌, refl, true, false, none, some, List, [], ◌∷◌, arith, Bool-cases, inl, inr,
}
use pytmbot.Base.Dict.{lookup, insert}
use pytmbot.Base.Eq.{nat_eq, ==_iff}
use pytmbot.Base.Text.{strip, text_eq}
use pytmbot.TwoFactor.Digits.{matches_pattern}
use pytmbot.TwoFactor.Replay.{
  Marker, same_marker, Register, Writing, no_directory, not_written, written, seen, active,
  active_entries, load_replay_state, persist_replay_state, cut, oldest_step, register_code_usage,
  resolve_matching_step, verify_totp_code,
}
use pytmbot.TwoFactor.Replays.{Verify, Attempt, attempt, resolve-within}

text_eq_sound : (xs ys : List ℕ) → text_eq xs ys ≡ true → xs ≡ ys
text_eq_sound [] [] h = refl
text_eq_sound [] (y ∷ ys) h = ground (arith, h)
text_eq_sound (x ∷ xs) [] h = ground (arith, h)
text_eq_sound (x ∷ xs) (y ∷ ys) h = ground (arith, ==_iff x y, text_eq_sound xs ys)

-- The register that has read its file and holds nothing.
abbrev pub empty : Register
empty = record { used = []; loaded = true; file = none }

first_markers :
    (user t : ℕ) (m : Marker) (w : Writing)
    → oldest_step t ≤ m.step
    → ((register_code_usage user m t w empty).1.used ≡ (user, m ∷ []) ∷ [])
      × ((register_code_usage user m t w empty).1.loaded ≡ true)
      × ((register_code_usage user m t w empty).0 ≡ true)
unfolding register_code_usage load_replay_state persist_replay_state lookup insert seen active
    active_entries cut
first_markers user t m no_directory le = ground (arith, le)
first_markers user t m not_written le = ground (arith, le)
first_markers user t m written le = ground (arith, le)

second_passes :
    (user v t : ℕ) (m n : Marker) (w : Writing) (r : Register)
    → user ≡ v
    → r.used ≡ (user, m ∷ []) ∷ []
    → r.loaded ≡ true
    → same_marker m n ≡ false
    → (register_code_usage v n t w r).0 ≡ true
unfolding register_code_usage load_replay_state lookup seen active
second_passes user v t m n w r same e loaded other = ground (arith, ==_iff user v)

same_marker-differ : (m n : Marker) → m.code ≢ n.code → same_marker m n ≡ false
same_marker-differ m n differ = elim (Bool-cases (text_eq m.code n.code)) [
  | inl e ↦ absurd (differ (text_eq_sound m.code n.code e))
  | inr e ↦ ground (arith, e)
]

attempt-registers :
    (verify : Verify) (a : Attempt) (r : Register) (i : ℕ)
    → matches_pattern (strip a.code) ≡ true
    → resolve_matching_step (verify a.user) (strip a.code) a.current_step ≡ some i
    → attempt verify a r
      ≡ register_code_usage a.user
          (record { code = strip a.code; step = i })
          a.current_step
          a.writing
          r
unfolding verify_totp_code
attempt-registers verify a r i p e = rw (p, e) refl

-- The register tells codes apart by their spelling: from the register that has read its file and
-- holds nothing, of two different texts of six digits that the pyotp package takes for one user and
-- for steps in reach, both pass, one after the other, even if they are one code in different digits.
pub both_spellings_pass :
    (verify : Verify) (a b : Attempt) (i j : ℕ)
    → a.user ≡ b.user
    → strip a.code ≢ strip b.code
    → matches_pattern (strip a.code) ≡ true
    → matches_pattern (strip b.code) ≡ true
    → resolve_matching_step (verify a.user) (strip a.code) a.current_step ≡ some i
    → resolve_matching_step (verify b.user) (strip b.code) b.current_step ≡ some j
    → ((attempt verify a empty).0 ≡ true) × ((attempt verify b (attempt verify a empty).1).0 ≡ true)
both_spellings_pass verify a b i j same differ pa pb ra rb =
    let m : Marker = record { code = strip a.code; step = i } in
    let n : Marker = record { code = strip b.code; step = j } in
    let first =
      first_markers a.user a.current_step m a.writing
        (omega (arith, resolve-within (verify a.user) (strip a.code) a.current_step i ra)) in
    rw (attempt-registers verify a empty i pa ra) (
      first.2,
      rw
          (attempt-registers verify b
            (register_code_usage a.user m a.current_step a.writing empty).1 j pb rb)
          (second_passes a.user b.user b.current_step m n b.writing
            (register_code_usage a.user m a.current_step a.writing empty).1 same first.0 first.1
            (same_marker-differ m n differ)),
    )
