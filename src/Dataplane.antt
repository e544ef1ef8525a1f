-- ===== src/Dataplane.antt =====
-- internal/api/dataplane.go: the handlers of /v1/chat/completions and /v1/models. The children hold
-- the parts: State the shared stores, the request and what the outside delivers; Forward the loop
-- over the targets; Chat and Models the handlers; Making the constructors.
mod Examples
pub mod Making
pub mod State
pub mod Forward
pub mod Chat
pub mod Models
