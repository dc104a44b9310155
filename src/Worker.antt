-- ===== src/Worker.antt =====
-- backend/worker: action definitions, the in-memory foundation store and the engine that runs an
-- action once for an idempotency key.
pub mod Action
pub mod Store
pub mod Engine
