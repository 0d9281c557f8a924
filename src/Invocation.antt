-- ===== src/Invocation.antt =====
-- The package invocation/: the models of a route with their fallbacks, and the calls of chat models.
pub mod Registry
pub mod Fallbacks
pub mod Stream
pub mod Metrics
