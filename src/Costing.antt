-- ===== src/Costing.antt =====
-- costing/: rates and allocations, the cost of a run in its two views, and the size of a fleet.
pub mod Rates
pub mod Engine
pub mod Tokens
pub mod Capacity
pub mod Grid
