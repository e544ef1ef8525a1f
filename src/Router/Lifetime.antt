-- ===== src/Router/Lifetime.antt =====
-- What holds of the stores for as long as the server of internal/api/router.go runs.
use ai_proxy_centranity.Base.{
  ◌≡◌, refl, sym, subst, ◌∙◌, true, false, Option, none, some, List, [], ◌∷◌, Bool-cases,
  Option-cases, inl, inr, eqb,
}
use ai_proxy_centranity.Base.Text.{Text, text, ◌==◌}
use ai_proxy_centranity.Audit
use ai_proxy_centranity.Config.{Source, AdminConfig}
use ai_proxy_centranity.Http.{Writer, fresh, get_header, set}
use ai_proxy_centranity.Middleware.{admin_auth, valid_admin_token, cors, request_id}
use ai_proxy_centranity.Management.Operations.{Operation}
use ai_proxy_centranity.Management.Filing.{IsFiled, KeysFiled, ProxiesFiled}
use ai_proxy_centranity.Management.Invariant.{perform-IsFiled}
use ai_proxy_centranity.Router.State.{Server, Call, Served, Handler, console_of}
use ai_proxy_centranity.Router.Wrapping.{
  uncountable, wrapped, recorded, audit_auth_failures, audited_if, with_key, with_admin,
  log_failure, counted, measured, identified, shared, recovered, stack,
}
use ai_proxy_centranity.Router.Table
use ai_proxy_centranity.Router.Table.{Target, find, routes}
use ai_proxy_centranity.Router.Serving.{
  scraped, serve_root, serve, serve_mux, serve_found, serve_target, serve_management, serve_chat,
  serve_models, visit_of,
}
use ai_proxy_centranity.Router.Custody.{
  IsUnconfigured, IsTame, audited_if-IsTame, with_key-IsTame, serve_chat-IsTame,
  serve_models-IsTame, serve_root-IsTame, scraped-IsTame,
}
use ai_proxy_centranity.Router.Headers.{cors-IsBarely, shared_passes}
use ai_proxy_centranity.Router.Start.{start, serve_all}
use ai_proxy_centranity.Dataplane.Making.{new_with_routing}

-- Each key stands under its hash, and each proxy profile under its identifier.
abbrev pub IsOrdered : Server → Type 0
IsOrdered s = IsFiled (console_of s)

module _ (hash_key : Text → Text) (call : Call) (s : Server) (ordered : IsOrdered s) where
  -- A handler that keeps this, behind a wrapped writer that has sent nothing.
  abbrev IsTidy : Handler → Type 0
  IsTidy next = (w : Writer) → w.can_flush ≡ false → w.sent ≡ none → IsOrdered (next s w).server

  unchanged : (r : Served) → IsUnconfigured s r → IsOrdered r.server
  unchanged r u =
      (subst KeysFiled (sym (u.0.0)) (ordered.0), subst ProxiesFiled (sym (u.1.0)) (ordered.1))

  tame-IsTidy : (next : Handler) → IsTame hash_key call s next → IsTidy next
  tame-IsTidy next tame w q n = unchanged (next s w) (tame w q)

  audited_if-IsTidy :
      (o : Option Audit.Store) (next : Handler) → IsTidy next → IsTidy (audited_if o call next)
  unfolding audit_auth_failures log_failure
  audited_if-IsTidy none next tidy w q n = tidy w q n
  audited_if-IsTidy (some store) next tidy w q n =
      let kept = tidy (wrapped w) refl n in
      elim (Bool-cases ((next s (wrapped w)).panicked)) [
        | inl y ↦ rw (y) kept
        | inr m ↦ elim (Bool-cases (eqb (recorded w (next s (wrapped w)).writer) 401)) [
          | inl y ↦ rw (m, y) kept
          | inr k ↦ rw (m, k) kept
        ]
      ]

  with_admin-IsTidy :
      (op : Operation) (value : Text)
      → IsTidy (with_admin call (serve_management hash_key call op value))
  unfolding with_admin admin_auth serve_management
  with_admin-IsTidy op value w q n =
      elim (Bool-cases (
        valid_admin_token s.admin.management_token
          (get_header (text "Authorization") call.header))) [
            | inl y ↦
                rw (y)
                  (perform-IsFiled hash_key op (visit_of call value) (console_of s) w n ordered)
            | inr m ↦ rw (m) ordered
          ]

  serve_target-IsTidy : (t : Target) (value : Text) → IsTidy (serve_target hash_key call t value)
  unfolding serve_target
  serve_target-IsTidy Table.live value w q n = ordered
  serve_target-IsTidy Table.ready value w q n = ordered
  serve_target-IsTidy Table.metrics value w q n =
      unchanged (scraped s.gateway.metrics call s w)
        (scraped-IsTame hash_key call s s.gateway.metrics w q)
  serve_target-IsTidy Table.models value w q n =
      unchanged
        (audited_if s.gateway.audit_store call
          (with_key hash_key s.gateway.key_store call (serve_models call)) s w)
        (audited_if-IsTame hash_key call s s.gateway.audit_store _
          (with_key-IsTame hash_key call s s.gateway.key_store (serve_models call)
            (serve_models-IsTame hash_key call s))
          w q)
  serve_target-IsTidy Table.chat value w q n =
      unchanged
        (audited_if s.gateway.audit_store call
          (with_key hash_key s.gateway.key_store call (serve_chat call)) s w)
        (audited_if-IsTame hash_key call s s.gateway.audit_store _
          (with_key-IsTame hash_key call s s.gateway.key_store (serve_chat call)
            (serve_chat-IsTame hash_key call s))
          w q)
  serve_target-IsTidy (Table.manage op) value w q n =
      audited_if-IsTidy s.gateway.audit_store _ (with_admin-IsTidy (op call) value) w q n
  serve_target-IsTidy Table.root value w q n =
      unchanged (serve_root call s w) (serve_root-IsTame hash_key call s w q)

  serve_mux-IsTidy : IsTidy (serve_mux hash_key call)
  unfolding serve_mux serve_found
  serve_mux-IsTidy w q n = elim (Option-cases (find routes call.method call.segments)) [
    | inl a ↦ rw (a) ordered
    | inr ((t, value), e) ↦ rw (e) (serve_target-IsTidy t value w q n)
  ]

  measured-IsOrdered :
      (w : Writer) → w.sent ≡ none → IsOrdered (measured call (serve_mux hash_key call) s w).server
  unfolding measured counted
  measured-IsOrdered w n =
      let kept = serve_mux-IsTidy (wrapped w) refl n in
      elim (Bool-cases ((serve_mux hash_key call s (wrapped w)).panicked)) [
        | inl y ↦ rw (y) kept
        | inr m ↦
            elim (Bool-cases (
              uncountable call (recorded w (serve_mux hash_key call s (wrapped w)).writer)
                (serve_mux hash_key call s (wrapped w)).server.gateway.metrics)) [
                  | inl z ↦ rw (m, z) kept
                  | inr z ↦ rw (m, z) kept
                ]
      ]

  preflight :
      (w : Writer)
      → call.method == text "OPTIONS" ≡ true
      → IsOrdered
          (shared call (identified call (measured call (serve_mux hash_key call))) s w).server
  unfolding shared cors
  preflight w y = rw (y) ordered

  shared-IsOrdered :
      (w : Writer)
      → w.sent ≡ none
      → IsOrdered
          (shared call (identified call (measured call (serve_mux hash_key call))) s w).server
  unfolding identified request_id set
  shared-IsOrdered w n = elim (Bool-cases (call.method == text "OPTIONS")) [
    | inl y ↦ preflight w y
    | inr m ↦
        rw (shared_passes call s w (identified call (measured call (serve_mux hash_key call))) m) (
          measured-IsOrdered _ (
            (cors-IsBarely s.admin.allowed_origins call.method
              (get_header (text "Origin") call.header) w m).0
            ∙ n))
  ]

  serve-IsOrdered : (w : Writer) → w.sent ≡ none → IsOrdered (serve hash_key call s w).server
  unfolding serve stack recovered
  serve-IsOrdered w n = shared-IsOrdered w n

serve_all_keeps :
    (hash_key : Text → Text) (calls : List Call) (s : Server)
    → IsOrdered s
    → IsOrdered (serve_all hash_key calls s)
unfolding serve_all
serve_all_keeps hash_key [] s h = h
serve_all_keeps hash_key (call ∷ calls) s h =
    serve_all_keeps hash_key calls _ (serve-IsOrdered hash_key call s h fresh refl)

-- Whatever requests come in after the server has started, in whatever order, each API key stands in the
-- key store under the hash that it holds, and each egress proxy profile under its own identifier.
pub serve_all-IsOrdered :
    (hash_key : Text → Text) (calls : List Call) (e : Source) (admin : AdminConfig)
    → IsOrdered (serve_all hash_key calls (start e admin))
unfolding start new_with_routing
serve_all-IsOrdered hash_key calls e admin = serve_all_keeps hash_key calls (start e admin) (tt, tt)
