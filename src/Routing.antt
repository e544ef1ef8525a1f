-- ===== src/Routing.antt =====
-- internal/routing: the circuit breaker of the targets and the engine that resolves aliases.
mod Examples
pub mod Circuit
pub mod Engine
