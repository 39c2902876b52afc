-- ===== src/Worker.antt =====
-- internal/worker: the loop that leases searches, and when it pauses.
pub mod MediaBreaker
pub mod RouteGate
