-- ===== src/Access/Tests.antt =====
-- Runs of the access gate on small inputs, and the theorems at concrete inputs.
use pytmbot.Base.{ℕ, ◌<◌, ◌≡◌, refl, true, false, none, some, List, [], ◌∷◌, arith}
use pytmbot.Base.Dict.{lookup, insert, erase}
use pytmbot.Telegram.{Update, User, message, private_chat, group_chat}
use pytmbot.Base.Text.{is_space}
use pytmbot.Access.Command.{tested, is_setup_command, getmyid}
use pytmbot.Access.{Config, State, seconds, max_attempts, member, pre_process, clean_up}
use pytmbot.Access.Gate.{lets_pass, pre_process-lets_pass}
use pytmbot.Access.Allowed.{Event, update, cleanup, initial, perform}
use pytmbot.Access.Quota.{count_passes, count_passes-lt-max_attempts}

abbrev config : Config
config = record { allowed_user_ids = 1 ∷ []; admin_chat = group_chat 9 }

abbrev user : ℕ → User
user n = record { id = n; username = none; is_bot = false }

abbrev getmyid_of : ℕ → Update
getmyid_of n = message (some (user n)) (some (private_chat n)) (some getmyid)

-- " /GetMyID@bot now"
setup_with_bot_name :
    is_setup_command (
      some
        (32 ∷ b'/' ∷ b'G' ∷ b'e' ∷ b't' ∷ b'M' ∷ b'y' ∷ b'I' ∷ b'D' ∷ b'@' ∷ b'b' ∷ 32 ∷ b'n' ∷ []))
    ≡ tested true
unfolding is_setup_command is_space
setup_with_bot_name = refl

abbrev at : ℕ → ℕ → Event
at n t = update (getmyid_of n) (seconds t) (seconds t) (seconds t)

abbrev visits : List Event
visits = at 5 1000 ∷ at 1 1001 ∷ at 5 1002 ∷ cleanup (seconds 1003) ∷ at 5 1004 ∷ at 5 1005 ∷ []

-- The first two attempts pass, the third blocks.
count_passes-visits : count_passes config 5 visits initial ≡ 2
unfolding count_passes perform pre_process clean_up member lookup insert erase is_setup_command
    is_space
count_passes-visits = refl

pre_process-lets_pass_example :
    lets_pass (pre_process config (getmyid_of 5) 7 7 7 initial).ending ≡ true
unfolding member lookup is_setup_command is_space
pre_process-lets_pass_example = pre_process-lets_pass config (getmyid_of 5) 7 7 7 initial

abbrev twice : State
twice = record { attempt_count = (5, 2) ∷ []; blocked_until = []; last_admin_notify = [] }

count_passes-lt-max_attempts_example : count_passes config 5 visits initial < max_attempts
unfolding member lookup
count_passes-lt-max_attempts_example =
    count_passes-lt-max_attempts config (seconds 1000) 5 visits initial refl tt refl (omega arith)
