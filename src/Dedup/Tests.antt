-- ===== src/Dedup/Tests.antt =====
-- Runs of the duplicate filter on small inputs, and the theorems at concrete inputs.
use pytmbot.Base.{ℕ, ◌≡◌, refl, true, false, none, some, List, [], ◌∷◌, arith}
use pytmbot.Base.Dict.{lookup, insert, erase}
use pytmbot.Base.Eq.{nat_eq}
use pytmbot.Telegram.{private_chat}
use pytmbot.Dedup.{Settings, prune, check_and_register}
use pytmbot.Dedup.Key.{cb, upd, msg, key_eq, callback, message, other, build_dedup_key}
use pytmbot.Dedup.Capacity.{initial}
use pytmbot.Dedup.Spec.{run, spec_run, run-refines-spec_run}

abbrev settings : Settings
settings = record { ttl = 10; max_entries = 2 }

-- The third key pushes the first one out, and the fourth update is no longer known.
abbrev pressed : List (ℕ × ℕ)
pressed = (7, 0) ∷ (8, 1) ∷ (9, 2) ∷ (7, 3) ∷ (9, 4) ∷ []

run-pressed : run settings pressed initial ≡ true ∷ true ∷ true ∷ true ∷ false ∷ []
unfolding run check_and_register prune lookup insert erase
run-pressed = refl

abbrev pair : List (ℕ × ℕ)
pair = (7, 0) ∷ (7, 9) ∷ []

run-refines-spec_run_example : run settings pair initial ≡ spec_run settings pair []
run-refines-spec_run_example = run-refines-spec_run settings pair (omega arith) (omega arith)

keys :
    (build_dedup_key (callback (some 5) "abc") ≡ some (cb "abc"))
    × (build_dedup_key (callback (some 5) "") ≡ some (upd 5))
    × (build_dedup_key (message none (some (private_chat 3)) (some 4))
        ≡ some (msg (private_chat 3) 4))
    × (build_dedup_key (other none) ≡ none)
unfolding build_dedup_key
keys = (refl, refl, refl, refl)
