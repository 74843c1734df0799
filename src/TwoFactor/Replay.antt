-- ===== src/TwoFactor/Replay.antt =====
-- pytmbot/utils/totp.py: the register of used one-time codes, its file, and `verify_totp_code`.
--
-- A set of markers is a list without repetition; the order in which a Python set is read is not
-- fixed, and matters only for the order of markers of one step when the register is cut to its cap.
-- The file is read as the entries that pass the tests on the types of its parts. Steps count from
-- 1970, so a current step is at least one.
use pytmbot.Base.{
  ℕ, zero, suc, ◌+◌, ◌-◌, Bool, true, false, ◌&&◌, Option, none, some, List, [], ◌∷◌, ◌++◌, leb,
  ltb, length, drop, if◌then◌else◌,
}
use pytmbot.Base.Dict.{Dict, lookup, insert}
use pytmbot.Base.Eq.{◌==◌, nat_eq}
use pytmbot.Base.Text.{strip, text_eq}
use pytmbot.TwoFactor.Digits.{matches_pattern}

abbrev pub Code : Type 0
Code = List ℕ

pub record Marker : Type 0 where
  pub code : Code
  pub step : ℕ

abbrev pub same_marker : Marker → Marker → Bool
same_marker m n = text_eq m.code n.code && m.step == n.step

-- `_REPLAY_WINDOW_STEPS` and `_MAX_TRACKED_CODES_PER_USER`
abbrev pub replay_window_steps : ℕ
replay_window_steps = 4

abbrev pub max_tracked_codes : ℕ
max_tracked_codes = 64

-- `_used_totp_codes`, `_replay_state_loaded`, and the entries of the file; `none` where it is
-- missing, or is not such a file.
pub record Register : Type 0 where
  pub used : Dict ℕ (List Marker)
  pub loaded : Bool
  pub file : Option (Dict ℕ (List Marker))

-- How far the writing of the file comes: its directory is refused, the file is, or neither.
pub data Writing : Type 0 where
  no_directory not_written written : Writing

unfoldable pub seen : Marker → List Marker → Bool
seen m [] = false
seen m (n ∷ ms) = if same_marker n m then true else seen m ms

-- `{marker for marker in markers if marker[1] >= min_step}`
unfoldable pub active : ℕ → List Marker → List Marker
active min_step [] = []
active min_step (m ∷ ms) =
    let rest = active min_step ms in if leb min_step m.step then m ∷ rest else rest

-- The users whose markers are not all gone.
unfoldable pub active_entries : ℕ → Dict ℕ (List Marker) → Dict ℕ (List Marker)
active_entries min_step [] = []
active_entries min_step ((u, ms) ∷ d) =
    let rest = active_entries min_step d in
    elim (active min_step ms) [ [] ↦ rest | n ∷ ns ↦ (u, n ∷ ns) ∷ rest ]

-- `dict.update`
unfoldable pub update_all : Dict ℕ (List Marker) → Dict ℕ (List Marker) → Dict ℕ (List Marker)
update_all [] d = d
update_all ((u, ms) ∷ new) d = update_all new (insert u ms d)

-- `_load_replay_state_locked`
unfoldable pub load_replay_state : ℕ → Register → Register
load_replay_state min_step r = if r.loaded then r else elim r.file [
  | none ↦ record r { loaded = true }
  | some entries ↦ record r {
    used = update_all (active_entries min_step entries) r.used;
    loaded = true;
  }
]

-- `_persist_replay_state_locked`
unfoldable pub persist_replay_state : ℕ → Writing → Register → Register
persist_replay_state min_step no_directory r = r
persist_replay_state min_step not_written r = record r { used = active_entries min_step r.used }
persist_replay_state min_step written r = record r {
  used = active_entries min_step r.used;
  file = some (active_entries min_step r.used);
}

-- `sorted(user_entries, key=lambda marker: marker[1])`
unfoldable pub insert_by_step : Marker → List Marker → List Marker
insert_by_step m [] = m ∷ []
insert_by_step m (n ∷ ms) =
    let rest = insert_by_step m ms in if leb m.step n.step then m ∷ n ∷ ms else n ∷ rest

unfoldable pub sort_by_step : List Marker → List Marker
unfolding insert_by_step
sort_by_step [] = []
sort_by_step (m ∷ ms) = insert_by_step m (sort_by_step ms)

unfoldable pub cut : List Marker → List Marker
cut ms =
    if ltb max_tracked_codes (length ms)
    then drop (length ms - max_tracked_codes) (sort_by_step ms)
    else ms

abbrev pub markers_of : ℕ → Register → List Marker
markers_of user r = elim (lookup user r.used) [ none ↦ [] | some ms ↦ ms ]

abbrev pub oldest_step : ℕ → ℕ
oldest_step current_step = current_step - replay_window_steps

-- `_register_code_usage`
unfoldable pub register_code_usage : ℕ → Marker → ℕ → Writing → Register → Bool × Register
unfolding seen active
register_code_usage user m current_step w r =
    let min_step = oldest_step current_step in
    let r' = load_replay_state min_step r in
    let entries = active min_step (markers_of user r') in
    if seen m entries
    then (false, persist_replay_state min_step w (record r' { used = insert user entries r'.used }))
    else (
      true,
      persist_replay_state min_step w
          (record r' { used = insert user (cut (entries ++ m ∷ [])) r'.used }),
    )

-- The steps from `step` on, `n` of them: the first whose code matches.
unfoldable pub match_from : (Code → ℕ → Bool) → Code → ℕ → ℕ → Option ℕ
match_from verify code step zero = none
match_from verify code step (suc n) =
    let rest = match_from verify code (step + 1) n in if verify code step then some step else rest

-- `verify code step` stands for `totp.verify` of the pyotp package, with the user's secret, at the
-- time of the step and without a window.
unfoldable pub resolve_matching_step : (Code → ℕ → Bool) → Code → ℕ → Option ℕ
resolve_matching_step verify code current_step = match_from verify code (current_step - 1) 3

unfoldable pub verify_totp_code :
    (Code → ℕ → Bool) → ℕ → Code → ℕ → Writing → Register → Bool × Register
unfolding resolve_matching_step
verify_totp_code verify user code current_step w r =
    let cleaned = strip code in
    if matches_pattern cleaned
    then elim (resolve_matching_step verify cleaned current_step) [
      | none ↦ (false, r)
      | some step ↦
          register_code_usage user (record { code = cleaned; step = step }) current_step w r
    ]
    else (false, r)
