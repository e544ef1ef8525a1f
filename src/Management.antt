-- ===== src/Management.antt =====
-- internal/api/management.go: the handlers of /api/v1. The children hold the parts: State the
-- handler's fields and what a request brings, Proxies, Keys and Settings the handlers, Operations all
-- of them as one function, and the theorems.
pub mod Examples
pub mod State
pub mod Proxies
pub mod Keys
pub mod Settings
pub mod Operations
pub mod Outcomes
pub mod Filing
pub mod Refinement
pub mod Invariant
pub mod Auditing
pub mod Secrecy
pub mod Effects
