-- ===== src/Router/Doors.antt =====
-- Which requests to the server of internal/api/router.go reach the upstream.
use ai_proxy_centranity.Base.{
  sym, subst, ◌≡◌, ◌↔◌, refl, arith, true, Option, none, some, [], ◌∷◌, Bool-cases, Option-cases,
  inl, inr, eqb,
}
use ai_proxy_centranity.Base.Text.{eq_iff, Text, text, ◌==◌}
use ai_proxy_centranity.Auth.{ApiKey, KeyStore, Verdict, accepted, rejected, authenticate}
use ai_proxy_centranity.Audit
use ai_proxy_centranity.Http.{Writer, get_header}
use ai_proxy_centranity.Middleware.{cors}
use ai_proxy_centranity.Dataplane.Chat.Gatekeeping.{IsCleared, chat-Forwards_iff}
use ai_proxy_centranity.Router.State.{Server, Call, Served, Handler}
use ai_proxy_centranity.Router.Wrapping.{
  uncountable, answer, wrapped, recorded, audit_auth_failures, audited_if, with_verdict, with_key,
  with_admin, measured, identified, shared, recovered, stack,
}
use ai_proxy_centranity.Telemetry
use ai_proxy_centranity.Management.Operations.{Operation}
use ai_proxy_centranity.Middleware.{admin_auth, valid_admin_token}
use ai_proxy_centranity.Router.Chosen.{IsChat, IsChatFound, find_chat_iff}
use ai_proxy_centranity.Router.Table
use ai_proxy_centranity.Router.Table.{Target, find, routes}
use ai_proxy_centranity.Router.Serving.{
  scraped, serve, serve_mux, serve_found, serve_target, serve_management, serve_chat, serve_models,
  serve_root, request_of,
}

-- Something has been sent to the upstream.
abbrev pub Sends : Served → Type 0
Sends r = ¬ (r.sent ≡ [])

options_post : (method : Text) → (method == text "OPTIONS") ≡ true → ¬ (method ≡ text "POST")
unfolding ◌==◌
options_post method e p = ground (arith, eq_iff method (text "OPTIONS"), e, p)

accepted_injective : (j k : ApiKey) → accepted j ≡ accepted k → j ≡ k
accepted_injective j k e = cc

nowhere : (A P : Type 0) → (A ↔ ⊥) → A ↔ (⊥ × P)
nowhere A P e = (λ a. (e.0 a, ground (arith, e.0 a)), λ p. e.1 (p.0))

module _ (hash_key : Text → Text) (call : Call) (s : Server) where
  -- A handler that sends something exactly if `P` holds, whatever the writer.
  abbrev SendsIf : Type 0 → Handler → Type 0
  SendsIf P next = (w : Writer) → Sends (next s w) ↔ P

  silent : (w : Writer) → Sends (answer s w) ↔ ⊥
  silent w = ground arith

  audit-SendsIf :
      (P : Type 0) (next : Handler) → SendsIf P next → SendsIf P (audit_auth_failures call next)
  unfolding audit_auth_failures
  audit-SendsIf P next sends w = elim (Bool-cases ((next s (wrapped w)).panicked)) [
    | inl y ↦ rw (y) (sends (wrapped w))
    | inr m ↦ elim (Bool-cases (eqb (recorded w (next s (wrapped w)).writer) 401)) [
      | inl y ↦ rw (m, y) (sends (wrapped w))
      | inr k ↦ rw (m, k) (sends (wrapped w))
    ]
  ]

  audited_if-SendsIf :
      (o : Option Audit.Store) (P : Type 0) (next : Handler)
      → SendsIf P next
      → SendsIf P (audited_if o call next)
  audited_if-SendsIf none P next sends = sends
  audited_if-SendsIf (some store) P next sends = audit-SendsIf P next sends

  measured-SendsIf : (P : Type 0) (next : Handler) → SendsIf P next → SendsIf P (measured call next)
  unfolding measured
  measured-SendsIf P next sends w = elim (Bool-cases ((next s (wrapped w)).panicked)) [
    | inl y ↦ rw (y) (sends (wrapped w))
    | inr m ↦
        elim (Bool-cases (
          uncountable call (recorded w (next s (wrapped w)).writer)
            (next s (wrapped w)).server.gateway.metrics)) [
              | inl z ↦ rw (m, z) (sends (wrapped w))
              | inr z ↦ rw (m, z) (sends (wrapped w))
            ]
  ]

  -- The verdict of the authentication middleware, and the handler's own conditions.
  abbrev pub IsAdmitted : Verdict → Type 0
  IsAdmitted v =
      (key : ApiKey) × ((v ≡ accepted key)
        × IsCleared call.env (request_of call (some key)) s.gateway)

  with_verdict-SendsIf : (v : Verdict) → SendsIf (IsAdmitted v) (with_verdict v (serve_chat call))
  unfolding serve_chat
  with_verdict-SendsIf (rejected e) w =
      (λ n. ground (arith, n refl), λ (k, (y, c)). ground (arith, y))
  with_verdict-SendsIf (accepted key) w =
      let iff = chat-Forwards_iff call.env (request_of call (some key)) s.gateway w in
      (
        λ n. (key, (refl, iff.0 n)),
        λ (k, (y, c)). iff.1 (
            subst (λ k. IsCleared call.env (request_of call (some k)) s.gateway)
              (sym (accepted_injective key k y)) c),
      )

  abbrev verdict_in : KeyStore → Verdict
  verdict_in store =
      authenticate hash_key store call.auth_now (get_header (text "Authorization") call.header)

  models-SendsIf : (o : Option KeyStore) → SendsIf ⊥ (with_key hash_key o call (serve_models call))
  unfolding serve_models
  models-SendsIf none w = silent w
  models-SendsIf (some store) w =
      verdict
        (authenticate hash_key store call.auth_now (get_header (text "Authorization") call.header))
    where
      verdict : (v : Verdict) → Sends (with_verdict v (serve_models call) s w) ↔ ⊥
      verdict (rejected e) = silent w
      verdict (accepted k) = silent w

  with_admin-SendsIf :
      (op : Operation) (value : Text)
      → SendsIf ⊥ (with_admin call (serve_management hash_key call op value))
  unfolding with_admin serve_management admin_auth
  with_admin-SendsIf op value w =
      elim (Bool-cases (
        valid_admin_token s.admin.management_token
          (get_header (text "Authorization") call.header))) [
            | inl y ↦ rw (y) (silent w)
            | inr n ↦ rw (n) (silent w)
          ]

  serve_root-SendsIf : SendsIf ⊥ (serve_root call)
  unfolding serve_root
  serve_root-SendsIf w = elim (Bool-cases (call.path == text "/")) [
    | inl y ↦ rw (y) (silent w)
    | inr m ↦ rw (m) (silent w)
  ]

  scraped-SendsIf : (m : Option Telemetry.Metrics) → SendsIf ⊥ (scraped m call)
  scraped-SendsIf none w = serve_root-SendsIf w
  scraped-SendsIf (some m) w = silent w

  with_key-SendsIf :
      (o : Option KeyStore) (store : KeyStore)
      → o ≡ some store
      → SendsIf (IsAdmitted (verdict_in store)) (with_key hash_key o call (serve_chat call))
  with_key-SendsIf o store h w = rw (h) (with_verdict-SendsIf (verdict_in store) w)

  serve_target-SendsIf :
      (store : KeyStore) (t : Target) (value : Text)
      → s.gateway.key_store ≡ some store
      → SendsIf (IsChat t × IsAdmitted (verdict_in store)) (serve_target hash_key call t value)
  unfolding serve_target
  serve_target-SendsIf store Table.live value h w = nowhere _ _ (silent w)
  serve_target-SendsIf store Table.ready value h w = nowhere _ _ (silent w)
  serve_target-SendsIf store Table.metrics value h w =
      nowhere _ _ (scraped-SendsIf s.gateway.metrics w)
  serve_target-SendsIf store Table.models value h w = nowhere _ _ (
      audited_if-SendsIf s.gateway.audit_store ⊥
        (with_key hash_key s.gateway.key_store call (serve_models call))
        (models-SendsIf s.gateway.key_store) w)
  serve_target-SendsIf store Table.chat value h w =
      let iff =
        audited_if-SendsIf s.gateway.audit_store (IsAdmitted (verdict_in store))
          (with_key hash_key s.gateway.key_store call (serve_chat call))
          (with_key-SendsIf s.gateway.key_store store h) w in
      (λ n. (tt, iff.0 n), λ p. iff.1 (p.1))
  serve_target-SendsIf store (Table.manage op) value h w = nowhere _ _ (
      audited_if-SendsIf s.gateway.audit_store ⊥
        (with_admin call (serve_management hash_key call (op call) value))
        (with_admin-SendsIf (op call) value) w)
  serve_target-SendsIf store Table.root value h w = nowhere _ _ (serve_root-SendsIf w)

  serve_mux-SendsIf :
      (store : KeyStore)
      → s.gateway.key_store ≡ some store
      → SendsIf
          (IsChatFound (find routes call.method call.segments) × IsAdmitted (verdict_in store))
          (serve_mux hash_key call)
  unfolding serve_mux serve_found
  serve_mux-SendsIf store h w = elim (Option-cases (find routes call.method call.segments)) [
    | inl n ↦ rw (n) (nowhere _ _ (silent w))
    | inr ((t, value), e) ↦ rw (e) (serve_target-SendsIf store t value h w)
  ]

  -- With a key store, a request reaches the upstream exactly if it is a POST to
  -- /v1/chat/completions, its Authorization header is accepted for a key, and the chat handler clears
  -- the call of that key in the state that the server is in.
  pub serve-Sends_iff :
      (w : Writer) (store : KeyStore)
      → s.gateway.key_store ≡ some store
      → Sends (serve hash_key call s w)
        ↔ ((call.method ≡ text "POST")
            × (call.segments ≡ text "v1" ∷ text "chat" ∷ text "completions" ∷ []))
          × IsAdmitted (
              authenticate hash_key store call.auth_now
                (get_header (text "Authorization") call.header))
  unfolding serve stack recovered shared identified cors
  serve-Sends_iff w store h =
      let iff = measured-SendsIf _ (serve_mux hash_key call) (serve_mux-SendsIf store h) in
      let chosen = find_chat_iff call.method call.segments in
      elim (Bool-cases (call.method == text "OPTIONS")) [
        | inl y ↦
            rw (y)
              (λ n. ground (arith, n refl), λ p. ground (arith, options_post call.method y (p.0.0)))
        | inr m ↦ rw (m) (
          λ n. let q = (iff _).0 n in (chosen.0 (q.0), q.1),
          λ p. (iff _).1 (chosen.1 (p.0), p.1),
        )
      ]
