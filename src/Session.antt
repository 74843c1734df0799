-- ===== src/Session.antt =====
-- pytmbot/middleware/session_manager.py: the sessions of the users that go through two-factor
-- authentication. Times are whole microseconds since `datetime.min`; the configured durations are
-- whole minutes, as in the source. All methods hold the class's lock, so each is one step.
pub mod Store
pub mod Methods
pub mod Select
pub mod Eviction
pub mod Spares
pub mod Current
pub mod Capacity
pub mod Authentication
pub mod Blocking
pub mod Cleanup
mod Tests
