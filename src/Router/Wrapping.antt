-- ===== src/Router/Wrapping.antt =====
-- The middleware that internal/api/router.go puts around the handlers. The wrapping writers embed an
-- http.ResponseWriter and have no Flush, so behind them no writer is an http.Flusher.
use ai_proxy_centranity.Base.{
  ℕ, Bool, true, false, Option, none, some, List, [], ◌∷◌, length, drop, eqb, if◌then◌else◌,
}
use ai_proxy_centranity.Base.Text.{Text, text}
use ai_proxy_centranity.Audit
use ai_proxy_centranity.Audit.{event_auth_failure}
use ai_proxy_centranity.Auth.{KeyStore, ApiKey, Verdict, accepted, rejected, authenticate}
use ai_proxy_centranity.Http.{Writer, get_header, write_json, error_doc}
use ai_proxy_centranity.Middleware.{
  Ending, returned, panicked, admin_auth, request_id, cors, recover,
}
use ai_proxy_centranity.Telemetry
use ai_proxy_centranity.Dataplane.State.{emit, with_metrics}
use ai_proxy_centranity.Router.State.{Server, Call, Served, Handler}

-- The response alone, with the stores as they are.
abbrev pub answer : Server → Writer → Served
answer s w = record { server = s; writer = w; sent = []; panicked = false }

-- `&responseWriter{ResponseWriter: w}`
abbrev pub wrapped : Writer → Writer
wrapped w = record w { can_flush = false }

abbrev pub last_code : List ℕ → ℕ → ℕ
last_code [] code = code
last_code (c ∷ cs) code = last_code cs c

-- The status that the wrapper has recorded: the last argument of WriteHeader, or 200.
unfoldable pub recorded : Writer → Writer → ℕ
recorded before after = last_code (drop (length before.codes) after.codes) 200

unfoldable pub log_failure : Call → Server → Server
log_failure call s = record s {
  gateway = record s.gateway {
    audit_store =
        emit call.failure_id call.failure_now event_auth_failure (text "unknown") call.path
          (text "unauthorized") [] s.gateway.audit_store;
  };
}

-- `auditAuthFailures`; nothing follows a handler that panics.
unfoldable pub audit_auth_failures : Call → Handler → Handler
audit_auth_failures call next s w =
    let r = next s (wrapped w) in
    if r.panicked
    then r
    else if eqb (recorded w r.writer) 401
    then record r { server = log_failure call r.server }
    else r

-- The wrapping only where there is an audit store.
abbrev pub audited_if : Option Audit.Store → Call → Handler → Handler
audited_if none call next = next
audited_if (some store) call next = audit_auth_failures call next

abbrev pub with_verdict : Verdict → (Option ApiKey → Handler) → Handler
with_verdict (rejected e) next s w =
    answer s (write_json 401 (error_doc e.message e.error_type e.code) w)
with_verdict (accepted key) next s w = next (some key) s w

-- `auth.AuthMiddleware`, where there is a key store.
abbrev pub with_key : (Text → Text) → Option KeyStore → Call → (Option ApiKey → Handler) → Handler
with_key hash_key none call next = next none
with_key hash_key (some store) call next =
    with_verdict
      (authenticate hash_key store call.auth_now (get_header (text "Authorization") call.header))
      next

-- `AdminAuthMiddleware`
unfoldable pub with_admin : Call → Handler → Handler
with_admin call next s w =
    let (w', passed) =
      admin_auth s.admin.management_token (get_header (text "Authorization") call.header) w in
    if passed then next s w' else answer s w'

abbrev or_old : Option Telemetry.Metrics → Telemetry.Metrics → Telemetry.Metrics
or_old none m = m
or_old (some m) old = m

abbrev fails : Option Telemetry.Metrics → Bool
fails none = true
fails (some m) = false

-- The collectors panic; without metrics there is no such middleware.
abbrev pub uncountable : Call → ℕ → Option Telemetry.Metrics → Bool
uncountable call status none = false
uncountable call status (some m) = fails (Telemetry.after_request call.method call.path status m)

-- The collectors after the handler has returned.
unfoldable pub counted : Call → ℕ → Server → Server
counted call status s = record s {
  gateway = record s.gateway {
    metrics =
        with_metrics (λ m. or_old (Telemetry.after_request call.method call.path status m) m)
          s.gateway.metrics;
  };
}

-- The metrics middleware; the logging middleware, which only logs, wraps the writer as well.
unfoldable pub measured : Call → Handler → Handler
measured call next s w =
    let r = next s (wrapped w) in
    if r.panicked
    then r
    else if uncountable call (recorded w r.writer) r.server.gateway.metrics
    then record r { panicked = true }
    else record r { server = counted call (recorded w r.writer) r.server }

unfoldable pub identified : Call → Handler → Handler
identified call next s w =
    let (id, w') = request_id call.id_bytes (get_header (text "X-Request-ID") call.header) w in
    next s w'

unfoldable pub shared : Call → Handler → Handler
shared call next s w =
    let (w', passed) =
      cors s.admin.allowed_origins call.method (get_header (text "Origin") call.header) w in
    if passed then next s w' else answer s w'

abbrev ending : Bool → Writer → Ending
ending true w = panicked w
ending false w = returned w

unfoldable pub recovered : Handler → Handler
recovered next s w =
    let r = next s w in record r { writer = recover (ending r.panicked r.writer); panicked = false }

-- The stack around the mux.
unfoldable pub stack : Call → Handler → Handler
stack call mux = recovered (shared call (identified call (measured call mux)))
