-- ===== src/Chain/Tests.antt =====
-- Runs of the chain of middlewares, and the theorems at concrete inputs.
use pytmbot.Base.{ℕ, arith, ltb, ◌*◌, ◌≡◌, refl, true, false, not, ◌&&◌, none, some, List, [], ◌∷◌}
use pytmbot.Base.Eq.{nat_eq}
use pytmbot.Base.Dict.{lookup, insert}
use pytmbot.Telegram.{User, Update, private_chat}
use pytmbot.Telegram as Telegram
use pytmbot.Dedup.Key as Key
use pytmbot.Access as Access
use pytmbot.Access.Command.{is_setup_command}
use pytmbot.Base.Text.{is_space}
use pytmbot.Dedup as Dedup
use pytmbot.RateLimit as RateLimit
use pytmbot.Chain.{Arrival, arrive}
use pytmbot.Chain.History.{initial, Event, arrival, cleanup, perform_all, is_known, recent_requests}
use pytmbot.Chain.Handled.{arrive-handled_lem}

abbrev config : Access.Config
config = record { allowed_user_ids = 1 ∷ []; admin_chat = private_chat 9 }

abbrev user : ℕ → User
user n = record { id = n; username = none; is_bot = false }

-- An update with an identifier, of a user, after so many seconds.
abbrev arrives : ℕ → ℕ → ℕ → Arrival
arrives ident n seconds = record {
  incoming = Key.message (some ident) (some (private_chat n)) (some ident);
  update = Telegram.message (some (user n)) (some (private_chat n)) (some (b'h' ∷ b'i' ∷ []));
  dedup_now = seconds * 1_000_000_000;
  access_now = seconds * 1_000_000;
  access_later = seconds * 1_000_000;
  access_last = seconds * 1_000_000;
  rate_now = seconds * 1_000_000;
  rate_later = seconds * 1_000_000;
}

abbrev before : List Event
before = arrival (arrives 7 2 100) ∷ arrival (arrives 8 1 101) ∷ cleanup 200 ∷ []

arrive-handled_lem_example :
    (arrive config (arrives 8 1 110) (perform_all config before initial)).handled ≡ (
      not (is_known before (arrives 8 1 110))
      && ltb (recent_requests config before (arrives 8 1 110) 1) 8)
unfolding Access.member
arrive-handled_lem_example =
    arrive-handled_lem config before (arrives 8 1 110) (user 1) refl refl (omega arith)
      (omega arith)

-- The first update of the allowed user is handled, its repetition is not.
handled_once :
    ((arrive config (arrives 8 1 101) initial).handled ≡ true)
    × ((arrive config (arrives 8 1 110) (perform_all config before initial)).handled ≡ false)
unfolding arrive perform_all Key.pre_process Key.build_dedup_key Dedup.check_and_register lookup
    Dedup.prune Access.pre_process Access.member RateLimit.pre_process is_setup_command is_space
    insert
handled_once = (refl, refl)
