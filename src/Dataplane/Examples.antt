-- ===== src/Dataplane/Examples.antt =====
-- Concrete runs of the theorems on internal/api/dataplane.go.
use ai_proxy_centranity.Base.{
  refl, Any, List, ◌≡◌, ◌↔◌, ◌+◌, true, false, some, none, [], ◌∷◌, map, eqb, if◌then◌else◌,
}
use ai_proxy_centranity.Base.Int.{◌+ℤ◌, wrap64, pos}
use ai_proxy_centranity.Base.Text.{◌==◌, Text, text}
use ai_proxy_centranity.Auth.{ApiKey}
use ai_proxy_centranity.Audit
use ai_proxy_centranity.Policy
use ai_proxy_centranity.Telemetry
use ai_proxy_centranity.Http.{write_json, Writer, str, decoded}
use ai_proxy_centranity.Ninerouter.{responded}
use ai_proxy_centranity.Routing.Engine
use ai_proxy_centranity.Ninerouter.{ModelInfo}
use ai_proxy_centranity.Policy.Precedence.{Permits}
use ai_proxy_centranity.Dataplane.Models.{OpenAiModel, list_doc, list_models, list_models_lem}
use ai_proxy_centranity.Dataplane.Chat.Charging.{Bills}
use ai_proxy_centranity.Dataplane.Chat.Billing.{amount, chat-Bills}
use ai_proxy_centranity.Routing.Engine.{RouteDecision}
use ai_proxy_centranity.Quota.{usage_of}
use ai_proxy_centranity.Dataplane.Chat.{forward_step}
use ai_proxy_centranity.Dataplane.Chat.Charges.{forward_step_charges}
use ai_proxy_centranity.Dataplane.State.{estimate_tokens, Gateway, Env, Request, ChatRequest, bytes}
use ai_proxy_centranity.Dataplane.Forward.{forward_all}
use ai_proxy_centranity.Dataplane.Forward.Attempts.{for_model, served, tried, forward_all_lem}
use ai_proxy_centranity.Dataplane.Chat.{chat_completions}
use ai_proxy_centranity.Dataplane.Chat.Gatekeeping.{Forwards, IsCleared, chat-Forwards_iff}
use ai_proxy_centranity.Dataplane.Chat.Completion.{chat-no_panic}
use ai_proxy_centranity.Base.Memory.{can_make}

abbrev a_key : ApiKey
a_key = record {
  id = text "key_1";
  name = text "ci";
  prefix = text "k1";
  hash = text "hk1";
  enabled = true;
  expires_at = none;
  allowed_models = [];
  denied_models = text "cc-haiku" ∷ [];
  allowed_providers = [];
  denied_providers = [];
  rpm_limit = pos 60;
  rps_limit = pos 10;
  tpm_limit = pos 100000;
  daily_token_quota = pos 1000000;
  monthly_token_quota = pos 30000000;
  budget_limit = pos 0;
  created_at = 5;
  updated_at = 5;
}

abbrev gateway : Gateway
gateway = record {
  key_store = some [];
  policy_engine = Policy.new;
  rate_limiter = [];
  routing_engine = Engine.new none;
  quota_store = [];
  audit_store = some Audit.new;
  metrics = some Telemetry.new;
}

abbrev chat : ChatRequest
chat = record {
  model = text "coding";
  stream = false;
  messages = text "{\"role\":\"user\",\"content\":\"hi\"}" ∷ [];
  payload = (text "model", str (text "coding")) ∷ [];
}

abbrev request : Request
request = record {
  method = text "POST";
  header = [];
  key = some a_key;
  body = bytes (decoded chat);
}

-- The first attempt is answered by 503, the second by 200.
abbrev env : Env
env = record {
  resolve_now = λ i. 100 + i;
  limit_now = 110;
  attempt_now = λ i. 120 + i;
  audit_now = λ i. 130 + i;
  audit_id = λ i. text "evt";
  upstream = λ i payload header.
      responded
        (record { status = if eqb i 0 then 503 else 200; header = []; chunks = text "{}" ∷ [] });
  gone = λ i. false;
  show_duration = λ d. text "1s";
}

abbrev writer : Writer
writer = record { header = []; sent = none; codes = []; body = []; can_flush = false; flushes = 0 }

chat-Forwards_iff_example :
    Forwards (chat_completions env request gateway writer) ↔ IsCleared env request gateway
chat-Forwards_iff_example = chat-Forwards_iff env request gateway writer

forward_all_lem_example :
    ((forward_all env [] (text "cc-sonnet") (text "cc-haiku" ∷ []) chat.payload gateway).result
      ≡ served env [] chat.payload 0 (text "cc-sonnet" ∷ text "cc-haiku" ∷ []))
    × ((forward_all env [] (text "cc-sonnet") (text "cc-haiku" ∷ []) chat.payload gateway).sent
        ≡ map
            (for_model chat.payload)
            (tried env [] chat.payload 0 (text "cc-sonnet" ∷ text "cc-haiku" ∷ [])))
forward_all_lem_example =
    forward_all_lem env [] (text "cc-sonnet") (text "cc-haiku" ∷ []) chat.payload gateway

chat-no_panic_example : (chat_completions env request gateway writer).panicked ≡ false
unfolding can_make
chat-no_panic_example = chat-no_panic env request gateway writer refl

abbrev models : List ModelInfo
models =
    record { id = text "cc-haiku"; object = text "model"; owned_by = text "a" }
    ∷ record { id = text "cc-opus"; object = text "model"; owned_by = text "a" }
    ∷ []

list_models_lem_example :
    (listed : List OpenAiModel) × (list_models 7 (decoded models) (some a_key) gateway writer
      ≡ write_json 200 (list_doc listed) writer)
    × ((id : Text)
        → Any (λ m. m.id ≡ id) listed
          ↔ Any (λ m. m.id ≡ id) models
            × Permits gateway.policy_engine.models a_key.denied_models a_key.allowed_models id)
list_models_lem_example = list_models_lem 7 models a_key gateway writer

chat-Bills_example :
    Bills
      (text "key_1")
      gateway.quota_store
      request.key
      (amount request.body)
      (chat_completions env request gateway writer)
chat-Bills_example = chat-Bills env request gateway writer (text "key_1")

abbrev decision : RouteDecision
decision = record {
  target_model = text "cc-sonnet";
  fallback_chain = text "cc-haiku" ∷ [];
  is_alias = true;
  reason = text "RESOLVED_ALIAS_CODING";
}

forward_step_charges_example :
    usage_of (forward_step env request chat decision gateway writer).gateway.quota_store a_key.id
    ≡ (if a_key.id == a_key.id
        then record {
          daily =
              wrap64
                ((usage_of gateway.quota_store a_key.id).daily +ℤ estimate_tokens chat.messages);
          monthly =
              wrap64
                ((usage_of gateway.quota_store a_key.id).monthly +ℤ estimate_tokens chat.messages);
        }
        else usage_of gateway.quota_store a_key.id)
unfolding served
forward_step_charges_example =
    forward_step_charges env request chat decision gateway writer a_key (text "cc-haiku")
      (record { status = 200; header = []; chunks = text "{}" ∷ [] }) refl refl a_key.id
