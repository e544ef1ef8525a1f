-- ===== src/Router/Serving.antt =====
-- The handlers that internal/api/router.go registers, and the answer to a request.
use ai_proxy_centranity.Base.{ℕ, Option, none, some, List, [], ◌∷◌, ◌++◌, if◌then◌else◌}
use ai_proxy_centranity.Base.Text.{Text, text, ◌==◌}
use ai_proxy_centranity.Auth.{ApiKey}
use ai_proxy_centranity.Health
use ai_proxy_centranity.Http.{Writer, raw, set, write_header, write}
use ai_proxy_centranity.Telemetry
use ai_proxy_centranity.Dataplane.State.{Request}
use ai_proxy_centranity.Dataplane.Models.{list_models}
use ai_proxy_centranity.Dataplane.Chat
use ai_proxy_centranity.Dataplane.Chat.{chat_completions}
use ai_proxy_centranity.Management.Operations.{Operation, perform}
use ai_proxy_centranity.Management.State.{Visit}
use ai_proxy_centranity.Router.State.{Server, Call, Served, Handler, console_of, put_console}
use ai_proxy_centranity.Router.Wrapping.{answer, audited_if, with_key, with_admin, stack}
use ai_proxy_centranity.Router.Table
use ai_proxy_centranity.Router.Table.{Target, routes, find, allowed_methods}

-- `http.Error`
unfoldable pub http_error : Text → ℕ → Writer → Writer
http_error message status w = write (raw (message ++ 10 ∷ [])) (
    write_header status (
      set (text "X-Content-Type-Options") (text "nosniff")
        (set (text "Content-Type") (text "text/plain; charset=utf-8") w)))

-- The root information endpoint.
unfoldable pub serve_root : Call → Handler
serve_root call s w =
    if call.path == text "/"
    then answer s (
        write
          (raw (
            text
              "{\"name\":\"ProxyGateway Enterprise\",\"version\":\"2.0\",\"status\":\"operational\"}"))
          (write_header 200 (set (text "Content-Type") (text "application/json") w)))
    else answer s (http_error (text "404 page not found") 404 w)

-- Without metrics the pattern is not registered, and the one of the root endpoint fits.
abbrev pub scraped : Option Telemetry.Metrics → Call → Handler
scraped none call s w = serve_root call s w
scraped (some m) call s w = answer s (call.scrape m w)

unfoldable pub serve_models : Call → Option ApiKey → Handler
serve_models call key s w =
    answer s (list_models call.models_now call.upstream_models key s.gateway w)

abbrev pub request_of : Call → Option ApiKey → Request
request_of call key = record {
  method = call.method;
  header = call.header;
  key = key;
  body = call.body;
}

abbrev from_chat : Server → Chat.Outcome → Served
from_chat s o = record {
  server = record s { gateway = o.gateway };
  writer = o.writer;
  sent = o.sent;
  panicked = o.panicked;
}

unfoldable pub serve_chat : Call → Option ApiKey → Handler
serve_chat call key s w = from_chat s (chat_completions call.env (request_of call key) s.gateway w)

abbrev pub visit_of : Call → Text → Visit
visit_of call value = record call.visit { path = call.path; path_value = value }

unfoldable pub serve_management : (Text → Text) → Call → Operation → Text → Handler
serve_management hash_key call op value s w =
    let (c, w') = perform hash_key op (visit_of call value) (console_of s) w in
    answer (put_console c s) w'

-- The handler of each pattern, with the middleware of its own.
unfoldable pub serve_target : (Text → Text) → Call → Target → Text → Handler
serve_target hash_key call Table.live value s w = answer s (Health.live call.shown_now w)
serve_target hash_key call Table.ready value s w =
    answer s (Health.ready call.checkers call.shown_now w)
serve_target hash_key call Table.metrics value s w = scraped s.gateway.metrics call s w
serve_target hash_key call Table.models value s w =
    audited_if s.gateway.audit_store call
      (with_key hash_key s.gateway.key_store call (serve_models call)) s w
serve_target hash_key call Table.chat value s w =
    audited_if s.gateway.audit_store call
      (with_key hash_key s.gateway.key_store call (serve_chat call)) s w
serve_target hash_key call (Table.manage op) value s w =
    audited_if s.gateway.audit_store call
      (with_admin call (serve_management hash_key call (op call) value)) s w
serve_target hash_key call Table.root value s w = serve_root call s w

abbrev joined : List Text → Text
joined [] = []
joined (m ∷ []) = m
joined (m ∷ ms) = m ++ text ", " ++ joined ms

-- ServeMux: the pattern that fits, or 405 with the methods that would.
unfoldable pub serve_found : (Text → Text) → Call → Option (Target × Text) → Handler
serve_found hash_key call none s w = answer s (
    http_error (text "Method Not Allowed") 405
      (set (text "Allow") (joined (allowed_methods call.segments)) w))
serve_found hash_key call (some (t, value)) s w = serve_target hash_key call t value s w

unfoldable pub serve_mux : (Text → Text) → Call → Handler
serve_mux hash_key call s w = serve_found hash_key call (find routes call.method call.segments) s w

-- The handler that NewRouterWithTelemetry returns.
unfoldable pub serve : (Text → Text) → Call → Handler
serve hash_key call = stack call (serve_mux hash_key call)
