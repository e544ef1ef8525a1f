-- ===== src/Router/Examples.antt =====
-- Concrete runs of the theorems on internal/api/router.go.
use ai_proxy_centranity.Base.{
  ◌++◌, ◌+◌, ◌≡◌, ◌↔◌, refl, true, false, some, none, [], ◌∷◌, computing,
}
use ai_proxy_centranity.Base.Int.{pos}
use ai_proxy_centranity.Base.Text.{text}
use ai_proxy_centranity.Audit
use ai_proxy_centranity.Auth.{authenticate}
use ai_proxy_centranity.Http.{set_header, malformed, fresh, decoded, get_header, str}
use ai_proxy_centranity.Ninerouter.{responded}
use ai_proxy_centranity.Policy
use ai_proxy_centranity.Routing.Engine
use ai_proxy_centranity.Telemetry
use ai_proxy_centranity.Dataplane.State.{Env, ChatRequest, bytes}
use ai_proxy_centranity.Management.Operations
use ai_proxy_centranity.Management.Examples.{new_key, tag, keys, profiles, visit, switch_off}
use ai_proxy_centranity.Router.State.{Server, Call}
use ai_proxy_centranity.Router.Table
use ai_proxy_centranity.Router.Table.{fit, find, routes}
use ai_proxy_centranity.Router.Serving.{serve}
use ai_proxy_centranity.Router.Custody.{IsUnconfigured, has_token, serve-IsUnconfigured}
use ai_proxy_centranity.Router.Chosen.{IsChatFound, find_chat_iff}
use ai_proxy_centranity.Router.Doors.{Sends, IsAdmitted, serve-Sends_iff}
use ai_proxy_centranity.Router.Streams.{serve-flushes}
use ai_proxy_centranity.Middleware.{valid_admin_token}
use ai_proxy_centranity.Config.Examples.{source}
use ai_proxy_centranity.Router.Start.{start, serve_all}
use ai_proxy_centranity.Router.Lifetime.{IsOrdered, serve_all-IsOrdered}
use ai_proxy_centranity.Base.Utf8.{valid_utf8}

abbrev server : Server
server = record {
  admin = record { management_token = text "root"; allowed_origins = [] };
  gateway = record {
    key_store = some keys;
    policy_engine = Policy.new;
    rate_limiter = [];
    routing_engine = Engine.new none;
    quota_store = [];
    audit_store = some Audit.new;
    metrics = some Telemetry.new;
  };
  proxy_store = some profiles;
}

abbrev chat : ChatRequest
chat = record {
  model = text "coding";
  stream = true;
  messages = text "{\"role\":\"user\",\"content\":\"hi\"}" ∷ [];
  payload = (text "model", str (text "coding")) ∷ [];
}

abbrev env : Env
env = record {
  resolve_now = λ i. 100 + i;
  limit_now = 110;
  attempt_now = λ i. 120 + i;
  audit_now = λ i. 130 + i;
  audit_id = λ i. text "evt";
  upstream = λ i payload header.
      responded (record { status = 200; header = []; chunks = text "data: {}" ∷ [] });
  gone = λ i. false;
  show_duration = λ d. text "1s";
}

-- A chat call with the key of the store.
abbrev chat_call : Call
chat_call = record {
  method = text "POST";
  path = text "/v1/chat/completions";
  segments = text "v1" ∷ text "chat" ∷ text "completions" ∷ [];
  header = (text "Authorization", text "Bearer k1" ∷ []) ∷ [];
  id_bytes = 1 ∷ [];
  auth_now = 60;
  failure_id = text "evt";
  failure_now = 61;
  scrape = λ m w. w;
  checkers = [];
  shown_now = text "then";
  models_now = 62;
  upstream_models = decoded [];
  body = bytes (decoded chat);
  env = env;
  visit = visit;
  runtime = record {
    go_version = text "go1";
    arch = text "amd64";
    num_cpu = pos 4;
    uptime_sec = text "1.5";
  };
  random_bytes = none;
  profile_bytes = [];
  profile_body = malformed (text "EOF");
  key_body = decoded switch_off;
  policies_body = malformed (text "EOF");
  targets_body = malformed (text "EOF");
}

-- The same client asks to switch the key off.
abbrev admin_call : Call
admin_call = record chat_call {
  method = text "PUT";
  path = text "/api/v1/keys/key_1";
  segments = text "api" ∷ text "v1" ∷ text "keys" ∷ text "key_1" ∷ [];
}

no_token : has_token admin_call server ≡ false
unfolding computing valid_admin_token get_header set_header
no_token = refl

chat_found : find routes chat_call.method chat_call.segments ≡ some (Table.chat, [])
unfolding computing find routes fit
chat_found = refl

serve-IsUnconfigured_example : IsUnconfigured server (serve tag admin_call server fresh)
serve-IsUnconfigured_example = serve-IsUnconfigured tag admin_call server fresh no_token

find_chat_iff_example :
    IsChatFound (find routes (text "HEAD") (text "v1" ∷ text "models" ∷ []))
    ↔ (text "HEAD" ≡ text "POST")
      × (text "v1" ∷ text "models" ∷ [] ≡ text "v1" ∷ text "chat" ∷ text "completions" ∷ [])
find_chat_iff_example = find_chat_iff (text "HEAD") (text "v1" ∷ text "models" ∷ [])

serve-Sends_iff_example :
    Sends (serve tag chat_call server fresh)
    ↔ ((chat_call.method ≡ text "POST")
        × (chat_call.segments ≡ text "v1" ∷ text "chat" ∷ text "completions" ∷ []))
      × IsAdmitted tag chat_call server
          (authenticate tag keys 60 (get_header (text "Authorization") chat_call.header))
serve-Sends_iff_example = serve-Sends_iff tag chat_call server fresh keys refl

serve-flushes_example : (serve tag chat_call server fresh).writer.flushes ≡ 0
serve-flushes_example = serve-flushes tag chat_call server fresh [] chat_found

-- The administrator creates a key.
abbrev create_call : Call
create_call = record admin_call {
  method = text "POST";
  path = text "/api/v1/keys";
  segments = text "api" ∷ text "v1" ∷ text "keys" ∷ [];
  header = (text "Authorization", text "Bearer root" ∷ []) ∷ [];
  random_bytes = some (1 ∷ 2 ∷ []);
  key_body = decoded new_key;
}

serve_all-IsOrdered_example :
    IsOrdered
      (serve_all tag (create_call ∷ chat_call ∷ admin_call ∷ []) (start source server.admin))
serve_all-IsOrdered_example =
    serve_all-IsOrdered tag (create_call ∷ chat_call ∷ admin_call ∷ []) source server.admin

-- An accented letter, a byte that begins nothing, and a surrogate.
accent_valid : valid_utf8 (195 ∷ 169 ∷ []) ≡ true
unfolding computing valid_utf8
accent_valid = refl

byte_invalid : valid_utf8 (text "/api/v1/keys/" ++ 255 ∷ []) ≡ false
unfolding computing valid_utf8
byte_invalid = refl

surrogate_invalid : valid_utf8 (237 ∷ 160 ∷ 128 ∷ []) ≡ false
unfolding computing valid_utf8
surrogate_invalid = refl
