-- ===== src/Routing.antt =====
-- routing/: the choice of a route, and bounded fallback along it.
pub mod Policy
pub mod Fallback
pub mod Samples
pub mod Stream
