-- ===== src/Dataplane/State.antt =====
-- The state that the data plane's handlers of internal/api/dataplane.go share, a chat request as it
-- comes in, and what the outside delivers while it is served.
use ai_proxy_centranity.Base.{
  ℕ, ◌+◌, ◌/◌, Bool, Option, none, some, List, [], ◌∷◌, length, eqb, leb, if◌then◌else◌,
}
use ai_proxy_centranity.Base.Int.{ℤ, pos}
use ai_proxy_centranity.Base.Text.{Text, text}
use ai_proxy_centranity.Base.Assoc.{Assoc}
use ai_proxy_centranity.Audit
use ai_proxy_centranity.Auth.{ApiKey, KeyStore}
use ai_proxy_centranity.Http.{Header, Decoded}
use ai_proxy_centranity.Limiter
use ai_proxy_centranity.Ninerouter.{
  Payload, Answer, err_upstream_auth, err_upstream_rate_limit, err_upstream_unavail,
}
use ai_proxy_centranity.Policy
use ai_proxy_centranity.Quota
use ai_proxy_centranity.Routing.Engine
use ai_proxy_centranity.Telemetry

-- `DataPlaneHandler`. The constructors always set the policy engine, the limiter, the routing engine
-- and the quota store; the key store, the audit store and the metrics may be absent.
pub record Gateway : Type 0 where
  pub key_store : Option KeyStore
  pub policy_engine : Policy.Engine
  pub rate_limiter : Limiter.Limiter
  pub routing_engine : Engine.Engine
  pub quota_store : Quota.QuotaStore
  pub audit_store : Option Audit.Store
  pub metrics : Option Telemetry.Metrics

-- The fields that the handler decodes. A message is kept as the text that `json.Marshal` writes for
-- it; `payload` is the same body decoded into a map.
pub record ChatRequest : Type 0 where
  pub model : Text
  pub stream : Bool
  pub messages : List Text
  pub payload : Payload

pub data Body : Type 0 where
  unreadable : Body
  empty : Body
  bytes : Decoded ChatRequest → Body

pub record Request : Type 0 where
  pub method : Text
  pub header : Header
  -- the key that the authentication middleware has put into the context
  pub key : Option ApiKey
  pub body : Body

-- The times that are read, the identifiers that are drawn, the answers of the upstream to the
-- attempts in turn, whether the client has gone at a round of the stream, and `%v` of a duration.
pub record Env : Type 0 where
  pub resolve_now : ℕ → ℕ
  pub limit_now : ℕ
  pub attempt_now : ℕ → ℕ
  pub audit_now : ℕ → ℕ
  pub audit_id : ℕ → Text
  pub upstream : ℕ → Payload → Header → Answer
  pub gone : ℕ → Bool
  pub show_duration : ℤ → Text

-- `keyIDOrUnknown`
abbrev pub key_id_or_unknown : Option ApiKey → Text
key_id_or_unknown none = text "unknown"
key_id_or_unknown (some key) = key.id

-- `emitAudit`, with the identifier that is drawn and the time that is read.
abbrev pub emit :
    Text → ℕ → Text → Text → Text → Text → Assoc Text → Option Audit.Store → Option Audit.Store
emit id now event_type actor target status meta none = none
emit id now event_type actor target status meta (some s) = some (
    Audit.log s (record {
      id = id;
      timestamp = now;
      actor = actor;
      event_type = event_type;
      target = target;
      status = status;
      metadata = meta;
    }))

-- `logAudit`, the `i`-th of a request.
unfoldable pub log_audit : Env → ℕ → Text → Text → Text → Text → Assoc Text → Gateway → Gateway
log_audit env i event_type actor target status meta g = record g {
  audit_store =
      emit (env.audit_id i) (env.audit_now i) event_type actor target status meta g.audit_store;
}

abbrev pub with_metrics :
    (Telemetry.Metrics → Telemetry.Metrics) → Option Telemetry.Metrics → Option Telemetry.Metrics
with_metrics f none = none
with_metrics f (some m) = some (f m)

-- `upstreamErrorCode`
unfoldable pub upstream_error_code : ℕ → Text
upstream_error_code status =
    if eqb status 401
    then err_upstream_auth
    else if eqb status 429
    then err_upstream_rate_limit
    else if leb 500 status
    then err_upstream_unavail
    else err_upstream_unavail

-- The length of `json.Marshal` of a list of messages: brackets, messages, and commas between them.
abbrev marshalled_rest : List Text → ℕ
marshalled_rest [] = 0
marshalled_rest (m ∷ ms) = 1 + length m + marshalled_rest ms

unfoldable pub marshalled : List Text → ℕ
marshalled [] = 2
marshalled (m ∷ ms) = 2 + length m + marshalled_rest ms

-- `estimateTokens`
unfoldable pub estimate_tokens : List Text → ℤ
estimate_tokens [] = pos 0
estimate_tokens (m ∷ ms) = pos (marshalled (m ∷ ms) / 4)
