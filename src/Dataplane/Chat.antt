-- ===== src/Dataplane/Chat.antt =====
-- `ChatCompletions` and `ListModels` of internal/api/dataplane.go, composed as the source composes
-- them: the checks of the request, routing, policy, rate limit, quota, forwarding, accounting and
-- the copy of the response.
pub mod Relay
pub mod Gatekeeping
pub mod Completion
pub mod Charging
pub mod Billing
pub mod Quiet
pub mod Custody
pub mod Charges
use ai_proxy_centranity.Base.{
  ℕ, ◌+◌, ◌/◌, Bool, true, false, not, Option, none, some, List, [], ◌∷◌, ◌++◌, if◌then◌else◌,
}
use ai_proxy_centranity.Base.Int.{ℤ, pos, ltb_ℤ, pos_part}
use ai_proxy_centranity.Base.Text.{Text, text, ◌==◌, is_empty}
use ai_proxy_centranity.Audit.{event_route_resolved, event_policy_deny, event_rate_limited}
use ai_proxy_centranity.Auth.{ApiKey, KeyStore}
use ai_proxy_centranity.Http.{Writer, decoded, malformed, set, show, write_json, error_doc}
use ai_proxy_centranity.Limiter
use ai_proxy_centranity.Ninerouter.{Payload, Response}
use ai_proxy_centranity.Policy
use ai_proxy_centranity.Quota
use ai_proxy_centranity.Routing.Engine
use ai_proxy_centranity.Routing.Engine.{RouteDecision, Resolution, routed, failed}
use ai_proxy_centranity.Telemetry
use ai_proxy_centranity.Dataplane.State.{
  Gateway, Env, Request, ChatRequest, Body, unreadable, empty, bytes, log_audit, key_id_or_unknown,
  with_metrics, estimate_tokens,
}
use ai_proxy_centranity.Dataplane.Forward.{Loop, forward_all, give_up}
use ai_proxy_centranity.Dataplane.Chat.Relay.{relay}

-- What a call of the handler leaves: the stores, the response, and the payloads sent upstream.
-- `panicked` tells that the limiter's slice access failed.
pub record Outcome : Type 0 where
  pub gateway : Gateway
  pub writer : Writer
  pub sent : List Payload
  pub panicked : Bool

abbrev stop : Gateway → Writer → Outcome
stop g w = record { gateway = g; writer = w; sent = []; panicked = false }

-- `writeError`, and return.
abbrev pub reject : ℕ → Text → Text → Text → Gateway → Writer → Outcome
reject status message error_type code g w =
    stop g (write_json status (error_doc message error_type code) w)

-- The metrics and the quota of a request that was served by `model`.
unfoldable pub account : Request → ChatRequest → Text → Gateway → Gateway
account req r model g =
    let tokens = estimate_tokens r.messages in
    let counted = record g {
      metrics =
          with_metrics
            (λ m.
              Telemetry.observe Telemetry.chat_path model
                (Telemetry.add_tokens (key_id_or_unknown req.key) model (text "input") tokens m))
            g.metrics;
    } in
    elim req.key [
      | none ↦ counted
      | some key ↦ record counted { quota_store = Quota.record_tokens g.quota_store key.id tokens }
    ]

-- What follows the loop over the targets.
unfoldable pub after_loop :
    Env → Request → ChatRequest → Writer → Option (Text × Response) → Loop → Outcome
after_loop env req r w none s =
    let (g, w') = give_up s w in
    record { gateway = g; writer = w'; sent = s.sent; panicked = false }
after_loop env req r w (some (model, resp)) s = record {
  gateway = account req r model s.gateway;
  writer = relay r.stream env.gone resp w;
  sent = s.sent;
  panicked = false;
}

unfoldable pub forward_step :
    Env → Request → ChatRequest → RouteDecision → Gateway → Writer → Outcome
forward_step env req r d g w =
    let s = forward_all env req.header d.target_model d.fallback_chain r.payload g in
    after_loop env req r w s.result s

-- Step 3b: token quotas.
unfoldable pub quota_step :
    Env → Request → ChatRequest → RouteDecision → Option ApiKey → Gateway → Writer → Outcome
quota_step env req r d none g w = forward_step env req r d g w
quota_step env req r d (some key) g w =
    let (q, a) =
      Quota.allow g.quota_store key.id key.daily_token_quota key.monthly_token_quota
        (estimate_tokens r.messages) in
    let g' = record g { quota_store = q } in
    let w' =
      set (text "X-RateLimit-Quota-Monthly-Remaining") (show a.monthly_rem)
        (set (text "X-RateLimit-Quota-Daily-Remaining") (show a.daily_rem) w) in
    if a.allowed
    then forward_step env req r d g' w'
    else reject 429 (text "Token quota exceeded") (text "quota_error") (text "quota_exceeded") g' w'

-- `int(retryAfter.Seconds()) + 1` of a wait that is not negative.
abbrev retry_seconds : ℤ → ℤ
retry_seconds wait = pos (pos_part wait / Limiter.second + 1)

-- The answer of the limiter: the headers, and the refusal.
unfoldable pub after_limit :
    Env
    → Request
    → ChatRequest
    → RouteDecision
    → ApiKey
    → Option Limiter.Answer
    → Gateway
    → Writer
    → Outcome
after_limit env req r d key none g w = record {
  gateway = g;
  writer = w;
  sent = [];
  panicked = true;
}
after_limit env req r d key (some a) g w =
    let w' =
      set (text "X-RateLimit-Remaining") (show a.remaining)
        (set (text "X-RateLimit-Limit-RPM") (show key.rpm_limit) w) in
    if a.allowed
    then quota_step env req r d (some key) g w'
    else reject 429
        (text "Rate limit exceeded ("
          ++ show key.rpm_limit
          ++ text " RPM). Retry after "
          ++ env.show_duration a.retry_after)
        (text "rate_limit_error") (text "rate_limited")
        (log_audit env 1 event_rate_limited key.id (text "chat.completions") (text "rate_limited")
          ((text "limit", text "rpm") ∷ []) g)
        (set (text "Retry-After") (show (retry_seconds a.retry_after)) w')

-- Step 3: rate limits.
unfoldable pub rate_step :
    Env → Request → ChatRequest → RouteDecision → Option ApiKey → Gateway → Writer → Outcome
rate_step env req r d none g w = quota_step env req r d none g w
rate_step env req r d (some key) g w =
    if ltb_ℤ (pos 0) key.rpm_limit
    then (let (l, a) = Limiter.allow key.id key.rpm_limit env.limit_now g.rate_limiter in
        after_limit env req r d key a (record g { rate_limiter = l }) w)
    else quota_step env req r d (some key) g w

-- Step 2: the policy on the chosen target.
unfoldable pub policy_step :
    Env → Request → ChatRequest → RouteDecision → Option ApiKey → Gateway → Writer → Outcome
policy_step env req r d none g w = rate_step env req r d none g w
policy_step env req r d (some key) g w =
    let decision = Policy.evaluate_model g.policy_engine (some key) d.target_model in
    if decision.allowed
    then rate_step env req r d (some key) g w
    else reject 403
        (text "Access to model '"
          ++ d.target_model
          ++ text "' is denied by policy ("
          ++ decision.reason
          ++ text ")")
        (text "policy_error") (text "model_not_allowed")
        (log_audit env 1 event_policy_deny key.id (text "chat.completions") (text "forbidden")
          ((text "model", d.target_model) ∷ []) g)
        w

-- Step 1: the resolution of the model.
unfoldable pub route_step : Env → Request → ChatRequest → Resolution → Gateway → Writer → Outcome
route_step env req r (failed e) g w =
    reject 503 (text "Routing error: " ++ e) (text "routing_error") (text "routing_failed") g w
route_step env req r (routed d) g w =
    policy_step env req r d req.key
      (log_audit env 0 event_route_resolved (key_id_or_unknown req.key) d.target_model
        (text "resolved") ((text "requested", r.model) ∷ (text "strategy", d.reason) ∷ []) g)
      w

abbrev pub invalid : Text → Text → Gateway → Writer → Outcome
invalid message code = reject 400 message (text "invalid_request_error") code

-- The messages must not be empty; then the model is resolved.
unfoldable pub resolve_step : Env → Request → ChatRequest → List Text → Gateway → Writer → Outcome
resolve_step env req r [] g w =
    invalid (text "field 'messages' is required") (text "missing_messages") g w
resolve_step env req r (m ∷ ms) g w =
    let (engine, resolution) = Engine.resolve g.routing_engine env.resolve_now r.model in
    route_step env req r resolution (record g { routing_engine = engine }) w

-- A request with its fields decoded.
unfoldable pub serve_decoded : Env → Request → ChatRequest → Gateway → Writer → Outcome
serve_decoded env req r g w =
    if is_empty r.model
    then invalid (text "field 'model' is required") (text "missing_model") g w
    else resolve_step env req r r.messages g w

unfoldable pub serve_body : Env → Request → Body → Gateway → Writer → Outcome
serve_body env req unreadable g w =
    invalid (text "failed to read request body") (text "bad_request") g w
serve_body env req empty g w = invalid (text "request body cannot be empty") (text "empty_body") g w
serve_body env req (bytes (malformed e)) g w =
    invalid (text "invalid JSON payload: " ++ e) (text "invalid_json") g w
serve_body env req (bytes (decoded r)) g w = serve_decoded env req r g w

-- `h.keyStore != nil && key == nil`
abbrev pub lacks_key : Option KeyStore → Option ApiKey → Bool
lacks_key (some store) none = true
lacks_key _ _ = false

-- `ChatCompletions`
unfoldable pub chat_completions : Env → Request → Gateway → Writer → Outcome
chat_completions env req g w =
    if not (req.method == text "POST")
    then reject 405 (text "method not allowed") (text "invalid_request_error")
        (text "method_not_allowed") g w
    else if lacks_key g.key_store req.key
    then reject 401 (text "Authentication required") (text "auth_error") (text "unauthorized") g w
    else serve_body env req req.body g w
