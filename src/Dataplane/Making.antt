-- ===== src/Dataplane/Making.antt =====
-- The constructors and setters of internal/api/dataplane.go, and what they put where an argument is nil.
use ai_proxy_centranity.Base.{Option, none, some, []}
use ai_proxy_centranity.Audit
use ai_proxy_centranity.Auth.{KeyStore}
use ai_proxy_centranity.Limiter.{Limiter}
use ai_proxy_centranity.Policy
use ai_proxy_centranity.Routing.Engine
use ai_proxy_centranity.Telemetry
use ai_proxy_centranity.Dataplane.State.{Gateway}

abbrev policy_or_new : Option Policy.Engine → Policy.Engine
policy_or_new none = Policy.new
policy_or_new (some e) = e

abbrev limiter_or_new : Option Limiter → Limiter
limiter_or_new none = []
limiter_or_new (some l) = l

abbrev routing_or_new : Option Engine.Engine → Engine.Engine
routing_or_new none = Engine.new none
routing_or_new (some e) = e

-- `NewDataPlaneHandlerWithRouting`
unfoldable pub new_with_routing :
    Option KeyStore → Option Policy.Engine → Option Limiter → Option Engine.Engine → Gateway
new_with_routing key_store policy_engine rate_limiter routing_engine = record {
  key_store = key_store;
  policy_engine = policy_or_new policy_engine;
  rate_limiter = limiter_or_new rate_limiter;
  routing_engine = routing_or_new routing_engine;
  quota_store = [];
  audit_store = none;
  metrics = none;
}

-- `NewDataPlaneHandlerWithPolicy`
abbrev pub new_with_policy : Option KeyStore → Option Policy.Engine → Option Limiter → Gateway
new_with_policy key_store policy_engine rate_limiter =
    new_with_routing key_store policy_engine rate_limiter (some (Engine.new none))

-- `NewDataPlaneHandler`
abbrev pub new_handler : Gateway
new_handler = new_with_routing none (some Policy.new) (some []) (some (Engine.new none))

abbrev pub set_audit_store : Option Audit.Store → Gateway → Gateway
set_audit_store store g = record g { audit_store = store }

abbrev pub set_metrics : Option Telemetry.Metrics → Gateway → Gateway
set_metrics metrics g = record g { metrics = metrics }
