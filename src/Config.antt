-- ===== src/Config.antt =====
-- config/schema.py and config/pricing.py: the validated configuration of the gateway.
pub mod Routing
pub mod Providers
pub mod Gateway
pub mod Pricing
