-- ===== src/Security.antt =====
-- security/: who may call the gateway.
pub mod Auth
