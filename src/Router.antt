-- ===== src/Router.antt =====
-- internal/api/router.go, as cmd/proxygateway-api/main.go wires it: both handlers over one set of
-- stores, behind the middleware stack. net/http's ServeMux and the Prometheus exporter are outside.
mod Examples
pub mod State
pub mod Wrapping
pub mod Table
pub mod Chosen
pub mod Serving
pub mod Custody
pub mod Doors
pub mod Headers
pub mod Refusals
pub mod Streams
pub mod Start
pub mod Lifetime
