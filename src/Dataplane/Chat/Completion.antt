-- ===== src/Dataplane/Chat/Completion.antt =====
-- ChatCompletions of internal/api/dataplane.go comes to its end: the limiter does not panic.
use ai_proxy_centranity.Base.{
  ◌≡◌, Bool, true, false, Option, some, none, List, [], ◌∷◌, arith, refl, if◌then◌else◌,
}
use ai_proxy_centranity.Base.Text.{Text}
use ai_proxy_centranity.Auth.{ApiKey}
use ai_proxy_centranity.Http.{Writer, decoded, malformed}
use ai_proxy_centranity.Limiter
use ai_proxy_centranity.Limiter.Retry.{allow_total}
use ai_proxy_centranity.Ninerouter.{Response}
use ai_proxy_centranity.Routing.Engine.{RouteDecision, Resolution, routed, failed}
use ai_proxy_centranity.Dataplane.State.{
  Gateway, Env, Request, ChatRequest, Body, bytes, empty, unreadable,
}
use ai_proxy_centranity.Dataplane.Forward.{Loop}
use ai_proxy_centranity.Dataplane.Chat.{
  chat_completions, Outcome, forward_step, quota_step, after_limit, rate_step, policy_step,
  route_step, serve_decoded, resolve_step, serve_body, after_loop,
}
use ai_proxy_centranity.Base.Memory.{can_make}
use ai_proxy_centranity.Limiter.{time_size}

-- The limiter can make an entry for the key of the request.
abbrev pub IsMakeable : Option ApiKey → Type 0
IsMakeable none = Unit
IsMakeable (some key) = can_make time_size key.rpm_limit ≡ true

abbrev Ends : Outcome → Type 0
Ends o = o.panicked ≡ false

either : (b : Bool) (x y : Outcome) → Ends x → Ends y → Ends (if b then x else y)
either true x y p q = p
either false x y p q = q

after_loop-Ends :
    (env : Env) (req : Request) (r : ChatRequest) (w : Writer) (o : Option (Text × Response))
    (s : Loop)
    → Ends (after_loop env req r w o s)
unfolding after_loop
after_loop-Ends env req r w none s = refl
after_loop-Ends env req r w (some (model, resp)) s = refl

quota_step-Ends :
    (env : Env) (req : Request) (r : ChatRequest) (d : RouteDecision) (k : Option ApiKey)
    (g : Gateway) (w : Writer)
    → Ends (quota_step env req r d k g w)
unfolding quota_step forward_step
quota_step-Ends env req r d none g w = after_loop-Ends env req r w _ _
quota_step-Ends env req r d (some key) g w = either _ _ _ (after_loop-Ends env req r _ _ _) refl

after_limit-Ends :
    (env : Env) (req : Request) (r : ChatRequest) (d : RouteDecision) (key : ApiKey)
    (a : Option Limiter.Answer) (g : Gateway) (w : Writer)
    → ¬ (a ≡ none)
    → Ends (after_limit env req r d key a g w)
unfolding after_limit
after_limit-Ends env req r d key none g w h = ground (arith, h refl)
after_limit-Ends env req r d key (some a) g w h =
    either _ _ _ (quota_step-Ends env req r d (some key) g _) refl

rate_step-Ends :
    (env : Env) (req : Request) (r : ChatRequest) (d : RouteDecision) (k : Option ApiKey)
    (g : Gateway) (w : Writer)
    → IsMakeable k
    → Ends (rate_step env req r d k g w)
unfolding rate_step
rate_step-Ends env req r d none g w m = quota_step-Ends env req r d none g w
rate_step-Ends env req r d (some key) g w m =
    either _ _ _
      (after_limit-Ends env req r d key _ _ w
        (allow_total key.id key.rpm_limit env.limit_now g.rate_limiter m))
      (quota_step-Ends env req r d (some key) g w)

policy_step-Ends :
    (env : Env) (req : Request) (r : ChatRequest) (d : RouteDecision) (k : Option ApiKey)
    (g : Gateway) (w : Writer)
    → IsMakeable k
    → Ends (policy_step env req r d k g w)
unfolding policy_step
policy_step-Ends env req r d none g w m = rate_step-Ends env req r d none g w m
policy_step-Ends env req r d (some key) g w m =
    either _ _ _ (rate_step-Ends env req r d (some key) g w m) refl

route_step-Ends :
    (env : Env) (req : Request) (r : ChatRequest) (res : Resolution) (g : Gateway) (w : Writer)
    → IsMakeable req.key
    → Ends (route_step env req r res g w)
unfolding route_step
route_step-Ends env req r (failed e) g w m = refl
route_step-Ends env req r (routed d) g w m = policy_step-Ends env req r d req.key _ w m

resolve_step-Ends :
    (env : Env) (req : Request) (r : ChatRequest) (ms : List Text) (g : Gateway) (w : Writer)
    → IsMakeable req.key
    → Ends (resolve_step env req r ms g w)
unfolding resolve_step
resolve_step-Ends env req r [] g w h = refl
resolve_step-Ends env req r (m ∷ ms) g w h = route_step-Ends env req r _ _ w h

serve_body-Ends :
    (env : Env) (req : Request) (b : Body) (g : Gateway) (w : Writer)
    → IsMakeable req.key
    → Ends (serve_body env req b g w)
unfolding serve_body serve_decoded
serve_body-Ends env req unreadable g w h = refl
serve_body-Ends env req empty g w h = refl
serve_body-Ends env req (bytes (malformed e)) g w h = refl
serve_body-Ends env req (bytes (decoded r)) g w h =
    either _ _ _ refl (resolve_step-Ends env req r r.messages g w h)

-- A call of the handler does not panic in the limiter where the request has no key, or one whose
-- limit of requests per minute leaves room for a slice of that many times: neither that slice nor the
-- access to its oldest time fails, whatever the stores hold, the request is and the upstream answers.
pub chat-no_panic :
    (env : Env) (req : Request) (g : Gateway) (w : Writer)
    → IsMakeable req.key
    → (chat_completions env req g w).panicked ≡ false
unfolding chat_completions
chat-no_panic env req g w h = ground (arith, serve_body-Ends env req req.body g w h)
