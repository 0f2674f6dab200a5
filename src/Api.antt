-- ===== src/Api.antt =====
-- api/: the HTTP surface of the gateway.
pub mod Schemas
pub mod Record
pub mod Response
pub mod Respond
pub mod Handler
pub mod Samples
