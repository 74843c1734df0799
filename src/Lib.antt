-- ===== src/Lib.antt =====
-- pyTMBot: a Telegram bot for Docker containers and servers. This library models the part of it
-- that decides who may do what, and how often: the middlewares that every update passes, the
-- sessions, two-factor authentication, the guards of the privileged handlers, and the webhook
-- server that receives the updates; the search for newer images of the containers; the manager
-- that starts, stops and renames them; the timed deletion of messages; the monitor of the bot's
-- own health; and the alerts of the monitor plugin.
--
-- Parts, and how they interact. Telegram's updates come as messages and callback queries
-- (Telegram), either by the polling of pytmbot/pytmbot_instance.py (Polling), which goes on after
-- errors, or by the server of pytmbot/webhook.py (Webhook), which takes a request for an update
-- only from an address of Telegram (pytmbot/models/telegram_models.py), on a path and with a
-- secret that it rotates. Each passes pytmbot/middleware/update_dedup.py (Dedup), which drops what
-- it has seen; pytmbot/middleware/access_control.py (Access), which lets allowed users pass and
-- blocks the others after three attempts; and pytmbot/middleware/rate_limit.py (RateLimit), a
-- sliding window for each user; pytmbot/pytmbot_instance.py puts the three in this order (Chain).
-- A handler of the privileged kind is wrapped by `two_factor_auth_required` of
-- pytmbot/middleware/session_wrapper.py, and a privileged button is tested by
-- `authorize_callback_request` of pytmbot/handlers/handlers_util/callback_auth.py (both
-- Protected): they ask the session manager of pytmbot/middleware/session_manager.py (Session) for
-- a login. A login is made by pytmbot/handlers/auth_processing/twofa_processing.py, with the codes
-- of pytmbot/utils/totp.py (both TwoFactor). Long lists are shown in pages by
-- pytmbot/handlers/docker_handlers/pagination.py (Pagination). The handlers of Docker ask
-- pytmbot/adapters/docker/updates.py (Updates) for newer images: it fetches the tags of a
-- repository from the registry and compares them with the local ones. They start, stop, restart
-- and rename a container through pytmbot/adapters/docker/container_manager.py (Containers), which
-- asks the session manager once more. Messages that show secrets are deleted after a time by
-- pytmbot/utils/message_deletion.py (Deletion). A thread of pytmbot/health_system/health_system.py
-- (Health) checks the parts of the bot at intervals. The plugin of
-- pytmbot/plugins/monitor/methods.py (Monitor) sends alerts on usages and temperatures over their
-- thresholds.
--
-- Files. Base has the shared notation: numbers' tests, lists, the interface of equality, Dict, a
-- Python dictionary as an association list in insertion order, and Text, Python's methods on
-- texts. Each part is a module of its name, with the definitions at its top or, where there are
-- more, in child modules: Session.Store (`_UserSession`, the dictionary and its cap) and
-- Session.Methods (the methods of `SessionManager`), Dedup.Key (the keys), Access.Command
-- (`_is_setup_command`), TwoFactor.Digits (the reading of a code), TwoFactor.Replay (the register
-- of used codes), TwoFactor.Burst (the burst limit) and TwoFactor.Handler (the handlers, with the
-- two keyboards of pytmbot/keyboards/keyboards.py that they build), Webhook.Limiter (`RateLimit`),
-- Webhook.Addresses (`TelegramIPValidator`), Webhook.Client (`_resolve_client_ip`), Webhook.Server
-- (the routes and the rotation of `WebhookServer`, of which the call of Telegram and the storing
-- of the credentials are apart), Updates.Patterns (the patterns of tags), Updates.Tags
-- (`TagAnalyzer`), Updates.Compare (`__lt__` and `_find_compatible_tag_updates`), Updates.Local
-- (the catalog of the local images), Updates.Fetch (the registry, its backoff and cache) and
-- Updates.Check (`_check_updates_async`), Containers (`validate_access`), Containers.Actions and
-- Containers.Manager (`ContainerManager`), Deletion (`schedule_deletion`) and Deletion.Steps (the
-- end of a deletion thread and the cleanup, with the events that happen to the manager), Health
-- (the checkers), Health.Monitor (`HealthMonitor`) and Monitor and Monitor.Cycles
-- (`SystemMonitorPlugin` and `EventTracker`). The other children are named for what they prove;
-- Chain.History holds the histories of the chain, and those named Tests hold runs and the theorems
-- at concrete inputs. A definition has the name of the function that it translates, without its
-- leading underscore; a part of a long function has a name of its own and the function's name in
-- its comment.
--
-- Conventions. The state of a part is a record or a dictionary that each operation takes and
-- returns; an operation holds the lock of its part in the source, so it is one step. Times are
-- natural numbers, in microseconds for the clocks of datetime and of `time.monotonic`, and
-- durations are in the units of the source. Each reading of a clock is an argument, in the order
-- of the readings, and the theorems say what they ask of it. Calls on the bot are values in the
-- result, and are taken to succeed. The fetching of several repositories, which the source does at
-- once, is a sequence of calls here. An exception is a value too. Texts that are looked into are
-- lists of code points. Settings are records that the operations take. What the packages do is an
-- argument of the definitions that use them: the codes that pyotp accepts, the reading of an
-- address, the versions of packaging with their order, the times that dateutil reads, what the
-- registry answers to each attempt, the Docker daemon as a state with its calls, and the
-- identifiers that uuid4 draws. Loops are structural recursion. Only the evictions of addresses in
-- Webhook.Limiter and of users in Containers have a bound of their rounds, the number of entries,
-- and Webhook.Evictions and Containers.Admission show that it is enough.
--
-- Not modelled: the threads themselves (the bodies of their loops are, as steps), what is logged,
-- texts of messages beyond their kind, `post_process` of the middlewares and the statistics of the
-- rate limiter, which only report, the derivation of TOTP secrets and their QR codes, which are
-- calls of packages, and the rest of the bot: the start of the webhook server and its calls of
-- Telegram, the other calls of the Docker adapter, the adapter of psutil, the rest of the plugins,
-- the templates and the other keyboards, and the handlers that render them.
pub mod Base
pub mod Telegram
pub mod RateLimit
pub mod Session
pub mod Dedup
pub mod Access
pub mod TwoFactor
pub mod Updates
pub mod Protected
pub mod Chain
pub mod Containers
pub mod Deletion
pub mod Health
pub mod Monitor
pub mod Pagination
pub mod Polling
pub mod Webhook
