-- ===== src/TwoFactor.antt =====
-- Two-factor authentication: pytmbot/utils/totp.py and
-- pytmbot/handlers/auth_processing/twofa_processing.py.
pub mod Digits
pub mod Replay
pub mod OneTime
pub mod Replays
pub mod Burst
pub mod Handler
pub mod Login
pub mod Success
mod Tests
pub mod Spellings
