-- ===== src/Dataplane/Chat/Charges.antt =====
-- A request that ChatCompletions of internal/api/dataplane.go has served is charged.
use mathlib.Core.Option.{some-injective}
use ai_proxy_centranity.Base.{if◌then◌else◌, ◌≡◌, ◌∙◌, ap, Option, none, some, ◌∷◌, arith}
use ai_proxy_centranity.Base.Text.{◌==◌, Text}
use ai_proxy_centranity.Auth.{ApiKey}
use ai_proxy_centranity.Http.{Writer}
use ai_proxy_centranity.Ninerouter.{Response}
use ai_proxy_centranity.Quota.{usage_of, record_tokens}
use ai_proxy_centranity.Routing.Engine.{RouteDecision}
use ai_proxy_centranity.Dataplane.State.{Gateway, Env, Request, ChatRequest, estimate_tokens}
use ai_proxy_centranity.Dataplane.Forward.{forward_all}
use ai_proxy_centranity.Dataplane.Forward.Attempts.{served, forward_all_lem}
use ai_proxy_centranity.Dataplane.Chat.{account, after_loop, forward_step}
use ai_proxy_centranity.Dataplane.Chat.Charging.{forward-quota}
use ai_proxy_centranity.Base.Int.{◌+ℤ◌, wrap64}
use ai_proxy_centranity.Quota.Accounting.{usage_of-record}

account-charges :
    (req : Request) (r : ChatRequest) (model : Text) (g : Gateway) (key : ApiKey)
    (k : Option ApiKey)
    → k ≡ some key
    → (account (record req { key = k }) r model g).quota_store
      ≡ record_tokens g.quota_store key.id (estimate_tokens r.messages)
unfolding account
account-charges req r model g key none e = ground (arith, e)
account-charges req r model g key (some k) e =
    ap (λ x. record_tokens g.quota_store x.id (estimate_tokens r.messages)) (some-injective _ _ e)

forward_step_records :
    (env : Env) (req : Request) (r : ChatRequest) (d : RouteDecision) (g : Gateway) (w : Writer)
    (key : ApiKey) (model : Text) (resp : Response)
    → req.key ≡ some key
    → served env req.header r.payload 0 (d.target_model ∷ d.fallback_chain) ≡ some (model, resp)
    → (forward_step env req r d g w).gateway.quota_store
      ≡ record_tokens g.quota_store key.id (estimate_tokens r.messages)
unfolding forward_step after_loop forward_all
forward_step_records env req r d g w key model resp k e =
    let s = forward_all env req.header d.target_model d.fallback_chain r.payload g in
    let found : s.result ≡ some (model, resp) =
      (forward_all_lem env req.header d.target_model d.fallback_chain r.payload g).0 ∙ e in
    let same : s.gateway.quota_store ≡ g.quota_store = forward-quota env req.header 0 _ _ in
    ap (λ o. (after_loop env req r w o s).gateway.quota_store) found
    ∙ account-charges req r model s.gateway key req.key k
    ∙ ap (λ q. record_tokens q key.id (estimate_tokens r.messages)) same

-- If a target gives a usable response, the estimate is added once to both counters of the request's
-- key, as they were before the targets were asked, with int64's wrap-around; every other key's
-- counters are what they were.
pub forward_step_charges :
    (env : Env) (req : Request) (r : ChatRequest) (d : RouteDecision) (g : Gateway) (w : Writer)
    (key : ApiKey) (model : Text) (resp : Response)
    → req.key ≡ some key
    → served env req.header r.payload 0 (d.target_model ∷ d.fallback_chain) ≡ some (model, resp)
    → (j : Text)
    → usage_of (forward_step env req r d g w).gateway.quota_store j ≡ (
        if key.id == j
        then record {
          daily = wrap64 ((usage_of g.quota_store key.id).daily +ℤ estimate_tokens r.messages);
          monthly = wrap64 ((usage_of g.quota_store key.id).monthly +ℤ estimate_tokens r.messages);
        }
        else usage_of g.quota_store j)
forward_step_charges env req r d g w key model resp k e j =
    ap (λ q. usage_of q j) (forward_step_records env req r d g w key model resp k e)
    ∙ usage_of-record g.quota_store key.id j (estimate_tokens r.messages)
