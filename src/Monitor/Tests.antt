-- ===== src/Monitor/Tests.antt =====
-- Runs of the monitor plugin on small inputs, and the theorems at concrete inputs.
use pytmbot.Base.{ℕ, ◌≡◌, refl, true, false, none, some, List, [], ◌∷◌, Option}
use pytmbot.Base.Dict.{lookup, insert, erase}
use pytmbot.Base.Eq.{nat_eq}
use pytmbot.Base.Text.{codes_eq}
use pytmbot.Monitor.{
  Config, initial, Observation, observe, observe_all, temperature_threshold, adjust_check_interval,
}
use pytmbot.Monitor.Cycles.{Cycle, run_cycles, temperature_type, cpu_type}
use pytmbot.Monitor.Events.{has_active}
use pytmbot.Monitor.Alerts.{last_over, all_observations, active-last_over}
use pytmbot.Monitor.Limits.{Step, adjusted, observed, run, IsWithin, run-IsWithin}

abbrev config : Config
config = record {
  cpu_temp = 85;
  gpu_temp = 90;
  disk_temp = 60;
  pch_temp = 85;
  cpu_usage = 80;
  memory_usage = 80;
  disk_usage = 80;
  load = 70;
  max_notifications = 1;
  reset_window = 300_000_000;
  configured_interval = 60;
}

abbrev in_order : ℕ → ℕ
in_order n = n

abbrev cpu : List ℕ
cpu = b'c' ∷ []

abbrev memory : List ℕ
memory = b'm' ∷ []

abbrev seen : List Observation
seen =
    record { of_type = cpu; is_over = true; now = 1; works = true }
    ∷ record { of_type = memory; is_over = true; now = 2; works = true }
    ∷ record { of_type = cpu; is_over = false; now = 9; works = true }
    ∷ []

abbrev cycle : ℕ → ℕ → ℕ → Cycle
cycle now usage temperature = record {
  metrics = record {
    cpu = some usage;
    memory = none;
    temperatures = (b'g' ∷ b'p' ∷ b'u' ∷ [], some temperature) ∷ [];
    disks = (b'/' ∷ [], 81) ∷ [];
  };
  cycle_time = now;
  sending_works = true;
}

abbrev cycles : List Cycle
cycles = cycle 1 90 95 ∷ cycle 2 70 95 ∷ cycle 3 20 91 ∷ []

active-last_over_example :
    has_active
      (temperature_type (b'g' ∷ b'p' ∷ b'u' ∷ []))
      (run_cycles config in_order cycles (initial config)).active_events
    ≡ last_over (temperature_type (b'g' ∷ b'p' ∷ b'u' ∷ [])) (all_observations config cycles) false
active-last_over_example =
    active-last_over config in_order (λ m n e. e) cycles
      (temperature_type (b'g' ∷ b'p' ∷ b'u' ∷ []))

active_types :
    has_active
      (temperature_type (b'g' ∷ b'p' ∷ b'u' ∷ []))
      (run_cycles config in_order cycles (initial config)).active_events
    ≡ true
unfolding has_active run_cycles lookup pytmbot.Base.Text.lower insert erase
active_types = refl

normal_cpu :
    has_active cpu_type (run_cycles config in_order cycles (initial config)).active_events ≡ false
unfolding has_active run_cycles lookup pytmbot.Base.Text.lower insert erase
normal_cpu = refl

-- The alert for the memory is over the budget, and is not sent later.
no_second_alert :
    (observe config in_order
      (record { of_type = memory; is_over = true; now = 400_000_000; works = true })
      (observe_all config in_order seen (initial config))).0
    ≡ []
unfolding observe lookup observe_all insert erase
no_second_alert = refl

-- A high load makes a configured interval of a minute shorter.
shorter_interval : (adjust_check_interval config (some 90) (initial config)).check_interval ≡ 30
unfolding adjust_check_interval
shorter_interval = refl

nvme_threshold : temperature_threshold config (b'N' ∷ b'V' ∷ b'M' ∷ b'e' ∷ b'_' ∷ b'a' ∷ []) ≡ 60
unfolding temperature_threshold pytmbot.Base.Text.lower
nvme_threshold = refl

abbrev steps : List Step
steps =
    adjusted (some 90)
    ∷ observed (record { of_type = cpu; is_over = true; now = 1; works = true })
    ∷ observed (record { of_type = memory; is_over = true; now = 2; works = false })
    ∷ adjusted none
    ∷ []

steps-IsWithin : IsWithin config in_order (run config in_order steps (initial config))
steps-IsWithin = run-IsWithin config in_order steps
