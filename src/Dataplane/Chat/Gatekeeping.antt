-- ===== src/Dataplane/Chat/Gatekeeping.antt =====
-- When ChatCompletions of internal/api/dataplane.go hands a request to the upstream.
use ai_proxy_centranity.Base.{
  not, if◌then◌else◌, Bool, ◌≡◌, ◌↔◌, true, false, Option, some, none, List, [], ◌∷◌, arith, refl,
}
use ai_proxy_centranity.Base.Int.{ltb_ℤ, pos}
use ai_proxy_centranity.Base.Text.{is_empty, Text, text, ◌==◌}
use ai_proxy_centranity.Auth.{ApiKey}
use ai_proxy_centranity.Http.{Writer, decoded, malformed}
use ai_proxy_centranity.Limiter
use ai_proxy_centranity.Policy
use ai_proxy_centranity.Quota
use ai_proxy_centranity.Routing.Engine
use ai_proxy_centranity.Routing.Engine.{RouteDecision, Resolution, routed, failed}
use ai_proxy_centranity.Dataplane.State.{
  log_audit, Body, Gateway, Env, Request, ChatRequest, bytes, empty, unreadable, estimate_tokens,
}
use ai_proxy_centranity.Dataplane.Forward.{forward_all}
use ai_proxy_centranity.Dataplane.Forward.Attempts.{forward_all_lem, tried}
use ai_proxy_centranity.Dataplane.Chat.{
  invalid, log_audit, Body, chat_completions, Outcome, forward_step, quota_step, after_limit,
  rate_step, policy_step, route_step, serve_decoded, resolve_step, serve_body, lacks_key,
  after_loop,
}

-- The handler has called the upstream.
abbrev pub Forwards : Outcome → Type 0
Forwards o = ¬ (o.sent ≡ [])

-- The quota covers the estimate of the request.
abbrev QuotaPasses : ChatRequest → Option ApiKey → Quota.QuotaStore → Type 0
QuotaPasses r none q = Unit
QuotaPasses r (some key) q =
    (Quota.allow q key.id key.daily_token_quota key.monthly_token_quota
      (estimate_tokens r.messages)).1.allowed
    ≡ true

abbrev Admits : Option Limiter.Answer → Type 0
Admits none = ⊥
Admits (some a) = a.allowed ≡ true

-- A key with a limit per minute is within it.
abbrev RatePasses : Env → Option ApiKey → Limiter.Limiter → Type 0
RatePasses env none l = Unit
RatePasses env (some key) l =
    ltb_ℤ (pos 0) key.rpm_limit ≡ true
    → Admits (Limiter.allow key.id key.rpm_limit env.limit_now l).1

-- The policy lets the key use the model.
abbrev PolicyPasses : Option ApiKey → Text → Policy.Engine → Type 0
PolicyPasses none model e = Unit
PolicyPasses (some key) model e = (Policy.evaluate_model e (some key) model).allowed ≡ true

forward_step-Forwards :
    (env : Env) (req : Request) (r : ChatRequest) (d : RouteDecision) (g : Gateway) (w : Writer)
    → (forward_step env req r d g w).sent
      ≡ (forward_all env req.header d.target_model d.fallback_chain r.payload g).sent
unfolding forward_step after_loop
forward_step-Forwards env req r d g w =
    elim (forward_all env req.header d.target_model d.fallback_chain r.payload g).result
      as (λ x.
        (after_loop env req r w x
          (forward_all env req.header d.target_model d.fallback_chain r.payload g)).sent
        ≡ (forward_all env req.header d.target_model d.fallback_chain r.payload g).sent) [
          | none ↦ refl
          | some _ ↦ refl
        ]

pub forward_step_sends :
    (env : Env) (req : Request) (r : ChatRequest) (d : RouteDecision) (g : Gateway) (w : Writer)
    → Forwards (forward_step env req r d g w)
unfolding tried
forward_step_sends env req r d g w = ground (
  arith,
  forward_step-Forwards env req r d g w,
  forward_all_lem env req.header d.target_model d.fallback_chain r.payload g,
)

guard_iff :
    {P : Type 0} (b : Bool) (x y : Outcome)
    → Forwards x ↔ P
    → y.sent ≡ []
    → Forwards (if b then x else y) ↔ (b ≡ true) × P
guard_iff true x y e s = ground (arith, e, s)
guard_iff false x y e s = ground (arith, e, s)

guard_last :
    (b : Bool) (x y : Outcome) → Forwards x → y.sent ≡ [] → Forwards (if b then x else y) ↔ b ≡ true
guard_last true x y f s = ground (arith, f, s)
guard_last false x y f s = ground (arith, f, s)

choice_iff :
    {P Q : Type 0} (b : Bool) (x y : Outcome)
    → Forwards x ↔ P × Q
    → Forwards y ↔ Q
    → Forwards (if b then x else y) ↔ (b ≡ true → P) × Q
choice_iff true x y e s = ground (arith, e, s)
choice_iff false x y e s = ground (arith, e, s)

quota_step_iff :
    (env : Env) (req : Request) (r : ChatRequest) (d : RouteDecision) (k : Option ApiKey)
    (g : Gateway) (w : Writer)
    → Forwards (quota_step env req r d k g w) ↔ QuotaPasses r k g.quota_store
unfolding quota_step
quota_step_iff env req r d none g w = ground (arith, forward_step_sends env req r d g w)
quota_step_iff env req r d (some key) g w =
    guard_last _ _ _ (forward_step_sends env req r d _ _) refl

after_limit_iff :
    (env : Env) (req : Request) (r : ChatRequest) (d : RouteDecision) (key : ApiKey)
    (a : Option Limiter.Answer) (g : Gateway) (w : Writer)
    → Forwards (after_limit env req r d key a g w)
      ↔ Admits a × QuotaPasses r (some key) g.quota_store
unfolding after_limit
after_limit_iff env req r d key none g w = ground arith
after_limit_iff env req r d key (some a) g w =
    guard_iff a.allowed _ _ (quota_step_iff env req r d (some key) g _) refl

rate_step_iff :
    (env : Env) (req : Request) (r : ChatRequest) (d : RouteDecision) (k : Option ApiKey)
    (g : Gateway) (w : Writer)
    → Forwards (rate_step env req r d k g w)
      ↔ RatePasses env k g.rate_limiter × QuotaPasses r k g.quota_store
unfolding rate_step after_limit
rate_step_iff env req r d none g w = ground (arith, quota_step_iff env req r d none g w)
rate_step_iff env req r d (some key) g w =
    choice_iff _ _ _ (after_limit_iff env req r d key _ _ w)
      (quota_step_iff env req r d (some key) g w)

policy_step_iff :
    (env : Env) (req : Request) (r : ChatRequest) (d : RouteDecision) (k : Option ApiKey)
    (g : Gateway) (w : Writer)
    → Forwards (policy_step env req r d k g w)
      ↔ PolicyPasses k d.target_model g.policy_engine
        × (RatePasses env k g.rate_limiter × QuotaPasses r k g.quota_store)
unfolding policy_step
policy_step_iff env req r d none g w = ground (arith, rate_step_iff env req r d none g w)
policy_step_iff env req r d (some key) g w =
    guard_iff (Policy.evaluate_model g.policy_engine (some key) d.target_model).allowed _ _
      (rate_step_iff env req r d (some key) g w) refl

abbrev RoutePasses :
    Env
    → Request
    → ChatRequest
    → Policy.Engine
    → Limiter.Limiter
    → Quota.QuotaStore
    → Resolution
    → Type 0
RoutePasses env req r e l q (failed message) = ⊥
RoutePasses env req r e l q (routed d) =
    PolicyPasses req.key d.target_model e × (RatePasses env req.key l × QuotaPasses r req.key q)

abbrev ChatPasses : Env → Request → Gateway → ChatRequest → Type 0
ChatPasses env req g r =
    ¬ (r.model ≡ [])
    × (¬ (r.messages ≡ [])
        × RoutePasses env req r g.policy_engine g.rate_limiter g.quota_store
            (Engine.resolve g.routing_engine env.resolve_now r.model).1)

abbrev BodyPasses : Env → Request → Gateway → Body → Type 0
BodyPasses env req g unreadable = ⊥
BodyPasses env req g empty = ⊥
BodyPasses env req g (bytes (malformed e)) = ⊥
BodyPasses env req g (bytes (decoded r)) = ChatPasses env req g r

-- What the handler checks of a request, in the state it finds.
abbrev pub IsCleared : Env → Request → Gateway → Type 0
IsCleared env req g =
    ((req.method == text "POST") ≡ true)
    × ((lacks_key g.key_store req.key ≡ false) × BodyPasses env req g req.body)

stops : {P : Type 0} (x : Outcome) → x.sent ≡ [] → ¬ P → Forwards x ↔ P
stops x s n = ground (arith, s, n)

route_step_iff :
    (env : Env) (req : Request) (r : ChatRequest) (res : Resolution) (g : Gateway) (w : Writer)
    → Forwards (route_step env req r res g w)
      ↔ RoutePasses env req r g.policy_engine g.rate_limiter g.quota_store res
unfolding route_step log_audit
route_step_iff env req r (failed e) g w = stops (route_step env req r (failed e) g w) refl (λ x. x)
route_step_iff env req r (routed d) g w = policy_step_iff env req r d req.key _ w

unless_iff :
    {P : Type 0} (s : Text) (x y : Outcome)
    → x.sent ≡ []
    → Forwards y ↔ P
    → Forwards (if is_empty s then x else y) ↔ ¬ (s ≡ []) × P
unfolding is_empty
unless_iff [] x y s e = ground (arith, e, s)
unless_iff (c ∷ cs) x y s e = ground (arith, e, s)

resolve_step_iff :
    (env : Env) (req : Request) (r : ChatRequest) (ms : List Text) (g : Gateway) (w : Writer)
    → Forwards (resolve_step env req r ms g w)
      ↔ ¬ (ms ≡ [])
        × RoutePasses env req r g.policy_engine g.rate_limiter g.quota_store
            (Engine.resolve g.routing_engine env.resolve_now r.model).1
unfolding resolve_step
resolve_step_iff env req r [] g w = stops (resolve_step env req r [] g w) refl (λ p. p.0 refl)
resolve_step_iff env req r (m ∷ ms) g w =
    let (engine, resolution) = Engine.resolve g.routing_engine env.resolve_now r.model in
    ground (arith, route_step_iff env req r resolution (record g { routing_engine = engine }) w)

serve_decoded_iff :
    (env : Env) (req : Request) (r : ChatRequest) (g : Gateway) (w : Writer)
    → Forwards (serve_decoded env req r g w) ↔ ChatPasses env req g r
unfolding serve_decoded
serve_decoded_iff env req r g w =
    unless_iff r.model (invalid (text "field 'model' is required") (text "missing_model") g w)
      (resolve_step env req r r.messages g w) refl (resolve_step_iff env req r r.messages g w)

serve_body_iff :
    (env : Env) (req : Request) (b : Body) (g : Gateway) (w : Writer)
    → Forwards (serve_body env req b g w) ↔ BodyPasses env req g b
unfolding serve_body
serve_body_iff env req unreadable g w = stops (serve_body env req unreadable g w) refl (λ x. x)
serve_body_iff env req empty g w = stops (serve_body env req empty g w) refl (λ x. x)
serve_body_iff env req (bytes (malformed e)) g w =
    stops (serve_body env req (bytes (malformed e)) g w) refl (λ x. x)
serve_body_iff env req (bytes (decoded r)) g w = serve_decoded_iff env req r g w

post_iff :
    {P : Type 0} (b c : Bool) (x y z : Outcome)
    → x.sent ≡ []
    → y.sent ≡ []
    → Forwards z ↔ P
    → Forwards (if not b then x else if c then y else z) ↔ (b ≡ true) × ((c ≡ false) × P)
post_iff true true x y z s s' e = ground (arith, e, s, s')
post_iff true false x y z s s' e = ground (arith, e, s, s')
post_iff false c x y z s s' e = ground (arith, e, s, s')

-- The handler calls the upstream exactly if the request is a POST with a key where keys are
-- required, its body decodes to a request with a model and messages, the routing engine finds a
-- target, the policy lets the key use that target, the limiter admits a call of a key that has a
-- limit per minute, and the quota covers the estimate.
pub chat-Forwards_iff :
    (env : Env) (req : Request) (g : Gateway) (w : Writer)
    → Forwards (chat_completions env req g w) ↔ IsCleared env req g
unfolding chat_completions
chat-Forwards_iff env req g w = post_iff _ _ _ _ _ refl refl (serve_body_iff env req req.body g w)
