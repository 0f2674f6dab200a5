-- ===== src/Models.antt =====
-- models/: the enumerations, errors and values that the gateway's parts exchange.
pub mod Enums
pub mod Errors
pub mod Domain
