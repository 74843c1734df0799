-- ===== src/Polling/Tests.antt =====
-- Runs of the polling, and the theorems at concrete inputs.
use pytmbot.Base.{◌≡◌, ◌⊎◌, refl, true, false, none, some, List, [], ◌∷◌}
use pytmbot.Polling.{api, connection, unexpected, State, initial, Round, polled, broken, poll}
use pytmbot.Polling.Backoff.{any_ends, IsPatient, poll_ends}

abbrev rounds : List Round
rounds =
    broken connection 1
    ∷ polled
    ∷ broken (api 429 (some 1_000)) 1_000_000
    ∷ broken (api 429 (some 1_000)) 2_000_000
    ∷ broken (api 429 none) 3_000_000
    ∷ broken (api 429 none) 4_000_000
    ∷ []

poll_ends_example :
    ((any_ends rounds ≡ true) × (poll rounds initial ≡ none))
    ⊎ ((any_ends rounds ≡ false) × (s : State) × (poll rounds initial ≡ some s) × IsPatient s)
poll_ends_example = poll_ends rounds

-- The third limit in a row opens the circuit for three minutes.
slept :
    poll rounds initial
    ≡ some (record {
      consecutive_errors = 4;
      sleep_time = 160;
      circuit = record { consecutive = 3; open_until = some 183_000_000 };
      slept = 80 ∷ 179 ∷ 80 ∷ 40 ∷ 180 ∷ 40 ∷ 20 ∷ 300 ∷ 20 ∷ 10 ∷ 300 ∷ 10 ∷ 10 ∷ 10 ∷ [];
    })
unfolding poll
slept = refl

poll-unexpected : poll (broken unexpected 5 ∷ polled ∷ []) initial ≡ none
unfolding poll
poll-unexpected = refl
