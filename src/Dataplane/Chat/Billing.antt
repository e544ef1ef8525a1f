-- ===== src/Dataplane/Chat/Billing.antt =====
-- What a call of ChatCompletions of internal/api/dataplane.go charges, step by step and as a whole.
use ai_proxy_centranity.Base.{
  not, Bool, true, false, Option, some, none, List, [], ◌∷◌, refl, if◌then◌else◌,
}
use ai_proxy_centranity.Base.Int.{pos, ℤ}
use ai_proxy_centranity.Base.Text.{is_empty, text, Text, ◌==◌}
use ai_proxy_centranity.Auth.{ApiKey}
use ai_proxy_centranity.Http.{Writer, decoded, malformed}
use ai_proxy_centranity.Limiter
use ai_proxy_centranity.Routing.Engine
use ai_proxy_centranity.Quota.{QuotaStore}
use ai_proxy_centranity.Quota.Accounting.{usage_of-allow}
use ai_proxy_centranity.Routing.Engine.{Resolution, routed, failed, RouteDecision}
use ai_proxy_centranity.Dataplane.State.{
  bytes, unreadable, empty, Body, Gateway, Env, Request, ChatRequest, estimate_tokens, log_audit,
}
use ai_proxy_centranity.Dataplane.Chat.{
  invalid, reject, lacks_key, serve_decoded, serve_body, route_step, resolve_step, chat_completions,
  Outcome, quota_step, after_limit, rate_step, policy_step,
}
use ai_proxy_centranity.Dataplane.Chat.Charging.{
  Bills, forward_step-Bills, refused-BillsTo, later-BillsTo, either-Bills,
}

quota_step-Bills :
    (env : Env) (req : Request) (r : ChatRequest) (d : RouteDecision) (key : Option ApiKey)
    (g : Gateway) (w : Writer) (k : Text)
    → Bills k g.quota_store req.key (estimate_tokens r.messages) (quota_step env req r d key g w)
unfolding quota_step
quota_step-Bills env req r d none g w k = forward_step-Bills env req r d g w k
quota_step-Bills env req r d (some key) g w k =
    let n = estimate_tokens r.messages in
    let same =
      usage_of-allow g.quota_store key.id k key.daily_token_quota key.monthly_token_quota n in
    either-Bills k g.quota_store req.key n _ _ _
      (later-BillsTo k _ g.quota_store req.key n _ _ same (forward_step-Bills env req r d _ _ k))
      (refused-BillsTo k g.quota_store req.key n _ _ same)

after_limit-Bills :
    (env : Env) (req : Request) (r : ChatRequest) (d : RouteDecision) (key : ApiKey)
    (a : Option Limiter.Answer) (g : Gateway) (w : Writer) (k : Text)
    → Bills k g.quota_store req.key (estimate_tokens r.messages) (after_limit env req r d key a g w)
unfolding after_limit log_audit
after_limit-Bills env req r d key none g w k = refused-BillsTo k g.quota_store req.key _ _ _ refl
after_limit-Bills env req r d key (some a) g w k =
    either-Bills k g.quota_store req.key _ _ _ _ (quota_step-Bills env req r d (some key) g _ k)
      (refused-BillsTo k g.quota_store req.key _ _ _ refl)

rate_step-Bills :
    (env : Env) (req : Request) (r : ChatRequest) (d : RouteDecision) (key : Option ApiKey)
    (g : Gateway) (w : Writer) (k : Text)
    → Bills k g.quota_store req.key (estimate_tokens r.messages) (rate_step env req r d key g w)
unfolding rate_step
rate_step-Bills env req r d none g w k = quota_step-Bills env req r d none g w k
rate_step-Bills env req r d (some key) g w k =
    either-Bills k g.quota_store req.key _ _ _ _ (after_limit-Bills env req r d key _ _ w k)
      (quota_step-Bills env req r d (some key) g w k)

policy_step-Bills :
    (env : Env) (req : Request) (r : ChatRequest) (d : RouteDecision) (key : Option ApiKey)
    (g : Gateway) (w : Writer) (k : Text)
    → Bills k g.quota_store req.key (estimate_tokens r.messages) (policy_step env req r d key g w)
unfolding policy_step log_audit
policy_step-Bills env req r d none g w k = rate_step-Bills env req r d none g w k
policy_step-Bills env req r d (some key) g w k =
    either-Bills k g.quota_store req.key _ _ _ _ (rate_step-Bills env req r d (some key) g w k)
      (refused-BillsTo k g.quota_store req.key _ _ _ refl)

route_step-Bills :
    (env : Env) (req : Request) (r : ChatRequest) (res : Resolution) (g : Gateway) (w : Writer)
    (k : Text)
    → Bills k g.quota_store req.key (estimate_tokens r.messages) (route_step env req r res g w)
unfolding route_step log_audit
route_step-Bills env req r (failed e) g w k = refused-BillsTo k g.quota_store req.key _ _ _ refl
route_step-Bills env req r (routed d) g w k = policy_step-Bills env req r d req.key _ w k

resolve_step-Bills :
    (env : Env) (req : Request) (r : ChatRequest) (ms : List Text) (g : Gateway) (w : Writer)
    (k : Text)
    → Bills k g.quota_store req.key (estimate_tokens r.messages) (resolve_step env req r ms g w)
unfolding resolve_step
resolve_step-Bills env req r [] g w k = refused-BillsTo k g.quota_store req.key _ _ _ refl
resolve_step-Bills env req r (m ∷ ms) g w k =
    route_step-Bills env req r (Engine.resolve g.routing_engine env.resolve_now r.model).1
      (record g { routing_engine = (Engine.resolve g.routing_engine env.resolve_now r.model).0 }) w
      k

-- The estimate of a body, where it has one.
abbrev pub amount : Body → ℤ
amount unreadable = pos 0
amount empty = pos 0
amount (bytes (malformed e)) = pos 0
amount (bytes (decoded r)) = estimate_tokens r.messages

serve_body-Bills :
    (env : Env) (req : Request) (b : Body) (g : Gateway) (w : Writer) (k : Text)
    → Bills k g.quota_store req.key (amount b) (serve_body env req b g w)
unfolding serve_body serve_decoded
serve_body-Bills env req unreadable g w k = refused-BillsTo k g.quota_store req.key _ _ _ refl
serve_body-Bills env req empty g w k = refused-BillsTo k g.quota_store req.key _ _ _ refl
serve_body-Bills env req (bytes (malformed e)) g w k =
    refused-BillsTo k g.quota_store req.key _ _ _ refl
serve_body-Bills env req (bytes (decoded r)) g w k =
    either-Bills k g.quota_store req.key _ (is_empty r.model)
      (invalid (text "field 'model' is required") (text "missing_model") g w)
      (resolve_step env req r r.messages g w) (refused-BillsTo k g.quota_store req.key _ _ _ refl)
      (resolve_step-Bills env req r r.messages g w k)

guard-Bills :
    (k : Text) (q : QuotaStore) (key : Option ApiKey) (n : ℤ) (b c : Bool) (x y z : Outcome)
    → Bills k q key n x
    → Bills k q key n y
    → Bills k q key n z
    → Bills k q key n (if not b then x else if c then y else z)
guard-Bills k q key n true true x y z p s u = s
guard-Bills k q key n true false x y z p s u = u
guard-Bills k q key n false c x y z p s u = p

-- A call of the handler leaves the counters of every key as they were, or charges the request's key
-- its estimate once; and it charges nothing if it has not called the upstream.
pub chat-Bills :
    (env : Env) (req : Request) (g : Gateway) (w : Writer) (k : Text)
    → Bills k g.quota_store req.key (amount req.body) (chat_completions env req g w)
unfolding chat_completions
chat-Bills env req g w k =
    guard-Bills k g.quota_store req.key (amount req.body) (req.method == text "POST")
      (lacks_key g.key_store req.key)
      (reject 405 (text "method not allowed") (text "invalid_request_error")
        (text "method_not_allowed") g w)
      (reject 401 (text "Authentication required") (text "auth_error") (text "unauthorized") g w)
      (serve_body env req req.body g w) (refused-BillsTo k g.quota_store req.key _ _ _ refl)
      (refused-BillsTo k g.quota_store req.key _ _ _ refl) (serve_body-Bills env req req.body g w k)
