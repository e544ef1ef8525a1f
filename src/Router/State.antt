-- ===== src/Router/State.antt =====
-- The stores that main wires the handlers to, and what a request brings.
use ai_proxy_centranity.Base.{ℕ, Bool, Option, none, some, List}
use ai_proxy_centranity.Base.Text.{Text}
use ai_proxy_centranity.Config.{AdminConfig}
use ai_proxy_centranity.Health.{HealthChecker}
use ai_proxy_centranity.Http.{Header, Writer, Decoded}
use ai_proxy_centranity.Ninerouter.{ModelInfo, Payload}
use ai_proxy_centranity.Policy
use ai_proxy_centranity.Proxy
use ai_proxy_centranity.Telemetry
use ai_proxy_centranity.Dataplane.State.{Gateway, Env, Body}
use ai_proxy_centranity.Management.State.{Console, Visit}
use ai_proxy_centranity.Management.Keys.{KeyRequest}
use ai_proxy_centranity.Management.Proxies.{ProxyRequest}
use ai_proxy_centranity.Management.Settings.{Runtime, PoliciesRequest}

-- The data plane's stores and the proxy store. The key store, the routing engine, the policy engine
-- and the audit store are the same objects for both handlers.
pub record Server : Type 0 where
  pub admin : AdminConfig
  pub gateway : Gateway
  pub proxy_store : Option Proxy.Store

-- The stores as the management handler sees them, and what it leaves of them.
abbrev pub console_of : Server → Console
console_of s = record {
  key_store = s.gateway.key_store;
  route_engine = s.gateway.routing_engine;
  policy_engine = some s.gateway.policy_engine;
  proxy_store = s.proxy_store;
  audit_store = s.gateway.audit_store;
}

abbrev or_policy : Option Policy.Engine → Policy.Engine → Policy.Engine
or_policy none old = old
or_policy (some e) old = e

abbrev pub put_console : Console → Server → Server
put_console c s = record s {
  gateway = record s.gateway {
    key_store = c.key_store;
    routing_engine = c.route_engine;
    policy_engine = or_policy c.policy_engine s.gateway.policy_engine;
    audit_store = c.audit_store;
  };
  proxy_store = c.proxy_store;
}

-- A request: the segments of its path as ServeMux cuts them, its bodies as the handlers decode them,
-- and what the outside delivers to it. `scrape` is the Prometheus exporter.
pub record Call : Type 0 where
  pub method : Text
  pub path : Text
  pub segments : List Text
  pub header : Header
  pub id_bytes : List ℕ
  pub auth_now : ℕ
  pub failure_id : Text
  pub failure_now : ℕ
  pub scrape : Telemetry.Metrics → Writer → Writer
  pub checkers : List HealthChecker
  pub shown_now : Text
  pub models_now : ℕ
  pub upstream_models : Decoded (List ModelInfo)
  pub body : Body
  pub env : Env
  pub visit : Visit
  pub runtime : Runtime
  pub random_bytes : Option (List ℕ)
  pub profile_bytes : List ℕ
  pub profile_body : Decoded ProxyRequest
  pub key_body : Decoded KeyRequest
  pub policies_body : Decoded PoliciesRequest
  pub targets_body : Decoded (List Text)

-- What a handler leaves: the stores, the response, the payloads that went to the upstream, and
-- whether it has panicked.
pub record Served : Type 0 where
  pub server : Server
  pub writer : Writer
  pub sent : List Payload
  pub panicked : Bool

-- `http.Handler`, for one request.
abbrev pub Handler : Type 0
Handler = Server → Writer → Served
