-- ===== src/Router/Start.antt =====
-- The server that cmd/proxygateway-api/main.go starts: empty stores, the built-in aliases, and the global
-- denylist of the environment.
use ai_proxy_centranity.Base.{Bool, true, false, ◌||◌, none, some, List, [], ◌∷◌, if◌then◌else◌}
use ai_proxy_centranity.Base.Text.{Text, text}
use ai_proxy_centranity.Audit
use ai_proxy_centranity.Config.{Source, AdminConfig, get_env_slice}
use ai_proxy_centranity.Http.{fresh}
use ai_proxy_centranity.Policy
use ai_proxy_centranity.Routing.Engine
use ai_proxy_centranity.Telemetry
use ai_proxy_centranity.Dataplane.Making.{new_with_routing, set_audit_store, set_metrics}
use ai_proxy_centranity.Router.State.{Server, Call}
use ai_proxy_centranity.Router.Serving.{serve}

abbrev is_some_list : List Text → Bool
is_some_list [] = false
is_some_list (s ∷ ss) = true

unfoldable pub denying : Source → Policy.Engine
denying e =
    let models = get_env_slice e (text "PG_GLOBAL_DENY_MODELS") [] in
    let providers = get_env_slice e (text "PG_GLOBAL_DENY_PROVIDERS") [] in
    if is_some_list models || is_some_list providers
    then Policy.set_global_deny Policy.new models providers
    else Policy.new

-- The stores of `main`, with the administrator's part of the configuration that it has loaded.
unfoldable pub start : Source → AdminConfig → Server
start e admin = record {
  admin = admin;
  gateway = set_metrics (some Telemetry.new) (
      set_audit_store (some Audit.new)
        (new_with_routing (some []) (some (denying e)) (some []) (some (Engine.new none))));
  proxy_store = some [];
}

-- The server after requests that are served one after the other, each with a fresh response.
unfoldable pub serve_all : (Text → Text) → List Call → Server → Server
serve_all hash_key [] s = s
serve_all hash_key (call ∷ calls) s = serve_all hash_key calls (serve hash_key call s fresh).server
