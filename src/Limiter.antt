-- ===== src/Limiter.antt =====
-- The package gateway/radicalbit_ai_gateway/limiter: counters in fixed windows.
pub mod Machine
pub mod Storage
pub mod Window
pub mod Base
