-- ===== src/Router/Streams.antt =====
-- What the wrapping writers of internal/api/router.go do to a streamed answer: neither responseWriter nor
-- statusRecorder has a Flush method, so the chat handler never finds an http.Flusher.
use ai_proxy_centranity.Base.{ap, ℕ, ◌≡◌, refl, ◌∙◌, Option, none, some, Bool-cases, inl, inr, eqb}
use ai_proxy_centranity.Base.Text.{Text, text}
use ai_proxy_centranity.Auth.{KeyStore, Verdict, accepted, rejected}
use ai_proxy_centranity.Audit
use ai_proxy_centranity.Http.{Writer, get_header, write_json, write, write_header, set}
use ai_proxy_centranity.Middleware.{cors, recover, request_id}
use ai_proxy_centranity.Dataplane.Chat.Custody.{chat-IsKept}
use ai_proxy_centranity.Dataplane.Chat.Quiet.{IsQuiet}
use ai_proxy_centranity.Router.State.{Server, Call, Handler}
use ai_proxy_centranity.Router.Wrapping.{
  uncountable, wrapped, recorded, audit_auth_failures, audited_if, with_verdict, with_key, measured,
  identified, shared, recovered, stack,
}
use ai_proxy_centranity.Router.Table
use ai_proxy_centranity.Router.Table.{find, routes}
use ai_proxy_centranity.Router.Serving.{serve, serve_mux, serve_found, serve_target, serve_chat}
use ai_proxy_centranity.Router.Headers.{cors-IsBarely}
use ai_proxy_centranity.Router.Headers.{found_not_options, shared_passes}

module _ (hash_key : Text → Text) (call : Call) (s : Server) where
  abbrev IsStill : Handler → Type 0
  IsStill next = (n : ℕ) (x : Writer) → IsQuiet n x → IsQuiet n (next s x).writer

  audited_if-IsStill :
      (o : Option Audit.Store) (next : Handler) → IsStill next → IsStill (audited_if o call next)
  unfolding audit_auth_failures
  audited_if-IsStill none next still n x q = still n x q
  audited_if-IsStill (some store) next still n x q =
      let r = still n (wrapped x) (refl, q.1) in
      elim (Bool-cases ((next s (wrapped x)).panicked)) [
        | inl y ↦ rw (y) r
        | inr m ↦ elim (Bool-cases (eqb (recorded x (next s (wrapped x)).writer) 401)) [
          | inl y ↦ rw (m, y) r
          | inr k ↦ rw (m, k) r
        ]
      ]

  with_verdict-IsStill : (v : Verdict) → IsStill (with_verdict v (serve_chat call))
  unfolding serve_chat write_json write write_header set
  with_verdict-IsStill (rejected e) n x q = q
  with_verdict-IsStill (accepted k) n x q = (chat-IsKept call.env _ s.gateway n x q).1

  with_key-IsStill : (o : Option KeyStore) → IsStill (with_key hash_key o call (serve_chat call))
  unfolding serve_chat
  with_key-IsStill none n x q = (chat-IsKept call.env _ s.gateway n x q).1
  with_key-IsStill (some store) n x q = with_verdict-IsStill _ n x q

  -- The request that is handed to the chat handler.
  mux-IsStill :
      (value : Text)
      → find routes call.method call.segments ≡ some (Table.chat, value)
      → IsStill (serve_mux hash_key call)
  unfolding serve_mux serve_found serve_target
  mux-IsStill value e n x q = rw (e) (
      audited_if-IsStill s.gateway.audit_store
        (with_key hash_key s.gateway.key_store call (serve_chat call))
        (with_key-IsStill s.gateway.key_store) n x q)

  measured-flushes :
      (next : Handler) (x : Writer)
      → IsStill next
      → (measured call next s x).writer.flushes ≡ x.flushes
  unfolding measured
  measured-flushes next x still =
      let r = (still x.flushes (wrapped x) (refl, refl)).1 in
      elim (Bool-cases ((next s (wrapped x)).panicked)) [
        | inl y ↦ rw (y) r
        | inr m ↦
            elim (Bool-cases (
              uncountable call (recorded x (next s (wrapped x)).writer)
                (next s (wrapped x)).server.gateway.metrics)) [
                  | inl z ↦ rw (m, z) r
                  | inr z ↦ rw (m, z) r
                ]
      ]

  recovered-flushes :
      (next : Handler) (x : Writer)
      → (recovered next s x).writer.flushes ≡ (next s x).writer.flushes
  unfolding recovered recover write_json write write_header set
  recovered-flushes next x = elim (Bool-cases ((next s x).panicked)) [
    | inl y ↦ rw (y) refl
    | inr m ↦ rw (m) refl
  ]

  -- No answer of the chat handler is flushed on its way through the server, however it is streamed:
  -- the writer's count of flushes stays what it was.
  pub serve-flushes :
      (w : Writer) (value : Text)
      → find routes call.method call.segments ≡ some (Table.chat, value)
      → (serve hash_key call s w).writer.flushes ≡ w.flushes
  unfolding serve stack identified request_id set
  serve-flushes w value e =
      let n = found_not_options call.method call.segments _ e in
      let before =
        cors s.admin.allowed_origins call.method (get_header (text "Origin") call.header) w in
      recovered-flushes (shared call (identified call (measured call (serve_mux hash_key call)))) w
      ∙ (ap (λ r. r.writer.flushes)
            (shared_passes call s w (identified call (measured call (serve_mux hash_key call))) n)
          ∙ (measured-flushes (serve_mux hash_key call)
                (request_id call.id_bytes (get_header (text "X-Request-ID") call.header)
                  (before.0)).1
                (mux-IsStill value e)
              ∙ (cors-IsBarely s.admin.allowed_origins call.method
                  (get_header (text "Origin") call.header) w n).1))
