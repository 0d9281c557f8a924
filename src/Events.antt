-- ===== src/Events.antt =====
-- events/: what leaves the gateway for the workers.
pub mod Buffer
