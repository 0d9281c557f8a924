-- ===== src/Limiting.antt =====
-- The package gateway/radicalbit_ai_gateway/limiting: what routes, credentials and projects do with
-- the limiters.
pub mod Floats
pub mod World
pub mod Event
pub mod Config
pub mod Room
pub mod Entries
pub mod Credential
pub mod Project
pub mod Route
