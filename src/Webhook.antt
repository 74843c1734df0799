-- ===== src/Webhook.antt =====
-- The webhook server: pytmbot/webhook.py and pytmbot/models/telegram_models.py.
pub mod Limiter
pub mod Evictions
pub mod Keeps
pub mod Tracked
pub mod Seen
pub mod Bounds
pub mod Addresses
pub mod Validation
pub mod Client
pub mod Server
pub mod Admission
pub mod Rotation
mod Tests
