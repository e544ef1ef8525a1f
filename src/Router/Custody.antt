-- ===== src/Router/Custody.antt =====
-- Who may change the configuration of the server of internal/api/router.go.
use ai_proxy_centranity.Base.{
  ◌≡◌, refl, Bool, false, Option, none, some, Bool-cases, Option-cases, inl, inr, eqb,
}
use ai_proxy_centranity.Base.Text.{◌==◌, Text, text}
use ai_proxy_centranity.Auth.{ApiKey, KeyStore, Verdict, accepted, rejected}
use ai_proxy_centranity.Audit
use ai_proxy_centranity.Http.{Writer, get_header}
use ai_proxy_centranity.Middleware.{valid_admin_token, admin_auth, cors}
use ai_proxy_centranity.Dataplane.Chat.Custody.{IsSettled, chat-IsKept}
use ai_proxy_centranity.Router.State.{Server, Call, Served, Handler}
use ai_proxy_centranity.Router.Wrapping.{
  uncountable, answer, wrapped, recorded, audit_auth_failures, audited_if, with_verdict, with_key,
  with_admin, log_failure, counted, measured, identified, shared, recovered, stack,
}
use ai_proxy_centranity.Telemetry
use ai_proxy_centranity.Router.Table
use ai_proxy_centranity.Router.Table.{Target, find, routes}
use ai_proxy_centranity.Router.Serving.{
  scraped, serve, serve_mux, serve_found, serve_target, serve_management, serve_chat, serve_models,
  serve_root,
}

-- The keys, the policy, the aliases, the proxy profiles and the administrator's settings are the same.
abbrev pub IsUnconfigured : Server → Served → Type 0
IsUnconfigured s r =
    IsSettled s.gateway r.server.gateway
    × ((r.server.proxy_store ≡ s.proxy_store) × (r.server.admin ≡ s.admin))

-- The token that the call brings is the administrator's.
abbrev pub has_token : Call → Server → Bool
has_token call s =
    valid_admin_token s.admin.management_token (get_header (text "Authorization") call.header)

same : (s : Server) (w : Writer) → IsUnconfigured s (answer s w)
same s w = ((refl, (refl, refl)), (refl, refl))

module _ (hash_key : Text → Text) (call : Call) (s : Server) where
  -- A handler that keeps the configuration behind a wrapped writer.
  abbrev pub IsTame : Handler → Type 0
  IsTame next = (w : Writer) → w.can_flush ≡ false → IsUnconfigured s (next s w)

  audit-IsTame : (next : Handler) → IsTame next → IsTame (audit_auth_failures call next)
  unfolding audit_auth_failures log_failure
  audit-IsTame next tame w q =
      let kept = tame (wrapped w) refl in
      elim (Bool-cases ((next s (wrapped w)).panicked)) [
        | inl y ↦ rw (y) kept
        | inr m ↦ elim (Bool-cases (eqb (recorded w (next s (wrapped w)).writer) 401)) [
          | inl y ↦ rw (m, y) kept
          | inr k ↦ rw (m, k) kept
        ]
      ]

  pub audited_if-IsTame :
      (o : Option Audit.Store) (next : Handler) → IsTame next → IsTame (audited_if o call next)
  audited_if-IsTame none next tame = tame
  audited_if-IsTame (some store) next tame = audit-IsTame next tame

  with_verdict-IsTame :
      (v : Verdict) (next : Option ApiKey → Handler)
      → ((k : Option ApiKey) → IsTame (next k))
      → IsTame (with_verdict v next)
  with_verdict-IsTame (rejected e) next tame w q = same s w
  with_verdict-IsTame (accepted k) next tame w q = tame (some k) w q

  pub with_key-IsTame :
      (o : Option KeyStore) (next : Option ApiKey → Handler)
      → ((k : Option ApiKey) → IsTame (next k))
      → IsTame (with_key hash_key o call next)
  with_key-IsTame none next tame = tame none
  with_key-IsTame (some store) next tame = with_verdict-IsTame _ next tame

  with_admin-IsTame : (next : Handler) → has_token call s ≡ false → IsTame (with_admin call next)
  unfolding with_admin admin_auth
  with_admin-IsTame next h w q = rw (h) (same s w)

  pub serve_chat-IsTame : (k : Option ApiKey) → IsTame (serve_chat call k)
  unfolding serve_chat
  serve_chat-IsTame k w q =
      ((chat-IsKept call.env _ s.gateway w.flushes w (q, refl)).0, (refl, refl))

  pub serve_models-IsTame : (k : Option ApiKey) → IsTame (serve_models call k)
  unfolding serve_models
  serve_models-IsTame k w q = same s w

  pub serve_root-IsTame : IsTame (serve_root call)
  unfolding serve_root
  serve_root-IsTame w q = elim (Bool-cases (call.path == text "/")) [
    | inl y ↦ rw (y) (same s w)
    | inr m ↦ rw (m) (same s w)
  ]

  pub scraped-IsTame : (m : Option Telemetry.Metrics) → IsTame (scraped m call)
  scraped-IsTame none w q = serve_root-IsTame w q
  scraped-IsTame (some m) w q = same s w

  serve_target-IsTame :
      (t : Target) (value : Text)
      → has_token call s ≡ false
      → IsTame (serve_target hash_key call t value)
  unfolding serve_target
  serve_target-IsTame Table.live value h w q = same s w
  serve_target-IsTame Table.ready value h w q = same s w
  serve_target-IsTame Table.metrics value h w q = scraped-IsTame s.gateway.metrics w q
  serve_target-IsTame Table.models value h w q =
      audited_if-IsTame s.gateway.audit_store _
        (with_key-IsTame s.gateway.key_store (serve_models call) serve_models-IsTame) w q
  serve_target-IsTame Table.chat value h w q =
      audited_if-IsTame s.gateway.audit_store _
        (with_key-IsTame s.gateway.key_store (serve_chat call) serve_chat-IsTame) w q
  serve_target-IsTame (Table.manage op) value h w q =
      audited_if-IsTame s.gateway.audit_store _
        (with_admin-IsTame (serve_management hash_key call (op call) value) h) w q
  serve_target-IsTame Table.root value h w q = serve_root-IsTame w q

  serve_mux-IsTame : has_token call s ≡ false → IsTame (serve_mux hash_key call)
  unfolding serve_mux serve_found
  serve_mux-IsTame h w q = elim (Option-cases (find routes call.method call.segments)) [
    | inl n ↦ rw (n) (same s w)
    | inr ((t, value), e) ↦ rw (e) (serve_target-IsTame t value h w q)
  ]

  measured-keeps :
      (next : Handler) → IsTame next → (w : Writer) → IsUnconfigured s (measured call next s w)
  unfolding measured counted
  measured-keeps next tame w = elim (Bool-cases ((next s (wrapped w)).panicked)) [
    | inl y ↦ rw (y) (tame (wrapped w) refl)
    | inr m ↦
        elim (Bool-cases (
          uncountable call (recorded w (next s (wrapped w)).writer)
            (next s (wrapped w)).server.gateway.metrics)) [
              | inl z ↦ rw (m, z) (tame (wrapped w) refl)
              | inr z ↦ rw (m, z) (tame (wrapped w) refl)
            ]
  ]

  -- Only a request with the administrator's token changes the configuration: after any other request,
  -- whatever its method, path, key and body, and however it ends, the API keys, the global policy, the
  -- aliases, the proxy profiles and the administrator's settings are what they were.
  pub serve-IsUnconfigured :
      (w : Writer) → has_token call s ≡ false → IsUnconfigured s (serve hash_key call s w)
  unfolding serve stack recovered shared identified cors
  serve-IsUnconfigured w h = elim (Bool-cases (call.method == text "OPTIONS")) [
    | inl y ↦ rw (y) (same s w)
    | inr m ↦ rw (m) (measured-keeps (serve_mux hash_key call) (serve_mux-IsTame h) _)
  ]
