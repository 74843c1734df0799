-- ===== src/RateLimit/Tests.antt =====
-- Runs of the rate limiter on small inputs, and the theorems at concrete inputs.
use pytmbot.Base.{ℕ, ◌≤◌, ◌≡◌, refl, true, false, none, some, List, [], ◌∷◌, arith}
use pytmbot.Base.Dict.{lookup, contains, insert, erase}
use pytmbot.Telegram.{Update, message, private_chat}
use pytmbot.RateLimit.{Limits, State, minutes, check_and_track, drop_stale}
use pytmbot.RateLimit.Spec.{
  initial, run, history, spec_run, accepted_within, run-refines-spec, window_bound,
}

abbrev two_in_ten : Limits
two_in_ten = record { limit = 2; period = 10 }

abbrev burst : List (ℕ × ℕ)
burst = (1, 0) ∷ (1, 3) ∷ (1, 9) ∷ (2, 9) ∷ (1, 10) ∷ (1, 11) ∷ (1, 14) ∷ []

run-burst : run two_in_ten burst initial ≡ false ∷ false ∷ true ∷ false ∷ true ∷ false ∷ false ∷ []
unfolding run check_and_track drop_stale lookup contains insert erase
run-burst = refl

run-refines-spec_example : run two_in_ten burst initial ≡ spec_run two_in_ten burst []
run-refines-spec_example = run-refines-spec two_in_ten burst (omega arith)

window_bound_example : accepted_within 1 3 13 (history burst (run two_in_ten burst initial) []) ≤ 2
window_bound_example = window_bound two_in_ten 1 3 burst (omega arith)

-- A user who was logged at minute 3 and has been reset since.
abbrev after_reset : State
after_reset = record {
  user_requests = (1, minutes 3 ∷ []) ∷ [];
  violation_count = (1, 0) ∷ [];
  last_violation_log = (1, minutes 3) ∷ [];
}

abbrev hello : Update
hello =
    message (some (record { id = 1; username = none; is_bot = false })) (some (private_chat 1))
      (some (b'h' ∷ b'i' ∷ []))
