-- ===== src/Updates.antt =====
-- The search for newer images: pytmbot/adapters/docker/updates.py.
pub mod Patterns
pub mod Tags
-- pub mod Dates
pub mod Compare
pub mod Analysis
pub mod Compatible
pub mod Newest
pub mod Best
pub mod Fetch
pub mod Retries
pub mod Silence
pub mod Failures
pub mod Numbers
pub mod Local
pub mod Check
pub mod Mixed
pub mod Summary
mod Tests
