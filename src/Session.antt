-- ===== src/Session.antt =====
-- The proxy session: what the API hands out, the engine that runs it, and its configuration.
pub mod Boots
pub mod Selection
pub mod Proxies
pub mod Engine
