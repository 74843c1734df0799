-- ===== src/Monitor/Cycles.antt =====
-- pytmbot/plugins/monitor/methods.py: the metrics of a cycle and the alerts that they lead to.
use pytmbot.Base.{ℕ, Bool, Option, none, some, List, [], ◌∷◌, ◌++◌, ltb}
use pytmbot.Monitor.{Config, State, Observation, temperature_threshold, observe_all}

-- What `_process_alerts` reads of a cycle's metrics: a value that is no number is `none`.
pub record Metrics : Type 0 where
  pub cpu : Option ℕ
  pub memory : Option ℕ
  pub temperatures : List (List ℕ × Option ℕ)
  pub disks : List (List ℕ × ℕ)

-- The types of events.
abbrev pub cpu_type : List ℕ
cpu_type = b'c' ∷ b'p' ∷ b'u' ∷ b'_' ∷ b'u' ∷ b's' ∷ b'a' ∷ b'g' ∷ b'e' ∷ []

abbrev pub memory_type : List ℕ
memory_type = b'm' ∷ b'e' ∷ b'm' ∷ b'o' ∷ b'r' ∷ b'y' ∷ b'_' ∷ b'u' ∷ b's' ∷ b'a' ∷ b'g' ∷ b'e' ∷ []

abbrev pub temperature_type : List ℕ → List ℕ
temperature_type sensor = b't' ∷ b'e' ∷ b'm' ∷ b'p' ∷ b'_' ∷ sensor

abbrev pub disk_type : List ℕ → List ℕ
disk_type disk = b'd' ∷ b'i' ∷ b's' ∷ b'k' ∷ b'_' ∷ disk

module _ (c : Config) (now : ℕ) (works : Bool) where
  abbrev compare_with : ℕ → List ℕ → ℕ → Observation
  compare_with threshold t value = record {
    of_type = t;
    is_over = ltb threshold value;
    now = now;
    works = works;
  }

  abbrev if_number : ℕ → List ℕ → Option ℕ → List Observation
  if_number threshold t none = []
  if_number threshold t (some value) = compare_with threshold t value ∷ []

  -- `_check_temperature_alerts`
  unfoldable pub temperature_observations : List (List ℕ × Option ℕ) → List Observation
  unfolding temperature_threshold
  temperature_observations [] = []
  temperature_observations ((sensor, current) ∷ rest) =
      if_number (temperature_threshold c sensor) (temperature_type sensor) current
      ++ temperature_observations rest

  -- `_check_disk_alerts`
  unfoldable pub disk_observations : List (List ℕ × ℕ) → List Observation
  disk_observations [] = []
  disk_observations ((disk, usage) ∷ rest) =
      compare_with c.disk_usage (disk_type disk) usage ∷ disk_observations rest

  unfoldable pub observations : Metrics → List Observation
  unfolding temperature_observations disk_observations
  observations m =
      if_number c.cpu_usage cpu_type m.cpu
      ++ if_number c.memory_usage memory_type m.memory
      ++ temperature_observations m.temperatures
      ++ disk_observations m.disks

-- A cycle of the monitor: its metrics, the time, and whether sendings work.
pub record Cycle : Type 0 where
  pub metrics : Metrics
  pub cycle_time : ℕ
  pub sending_works : Bool

abbrev pub observed_in : Config → Cycle → List Observation
observed_in c q = observations c q.cycle_time q.sending_works q.metrics

module _ (c : Config) (uuid4 : ℕ → ℕ) where
  -- `_process_alerts`
  unfoldable pub process_alerts : Cycle → State → State
  unfolding observe_all observations
  process_alerts q s = observe_all c uuid4 (observed_in c q) s

  unfoldable pub run_cycles : List Cycle → State → State
  unfolding process_alerts
  run_cycles [] s = s
  run_cycles (q ∷ qs) s = run_cycles qs (process_alerts q s)
