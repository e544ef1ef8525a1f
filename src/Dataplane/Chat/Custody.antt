-- ===== src/Dataplane/Chat/Custody.antt =====
-- What ChatCompletions of internal/api/dataplane.go leaves of the configuration, and what it does with a
-- writer that is no http.Flusher.
use ai_proxy_centranity.Base.{
  eqb, Option-cases, inr, inl, ◌∙◌, suc, Bool-cases, ℕ, ◌≡◌, refl, Bool, true, false, Option, none,
  some, List, [], ◌∷◌, if◌then◌else◌,
}
use ai_proxy_centranity.Base.Text.{text, ◌==◌, to_lower, Text}
use ai_proxy_centranity.Auth.{ApiKey}
use ai_proxy_centranity.Http.{
  Header, Writer, decoded, malformed, set, write, write_header, write_json,
}
use ai_proxy_centranity.Limiter
use ai_proxy_centranity.Ninerouter.{Answer, Response, failed, responded}
use ai_proxy_centranity.Routing.Engine
use ai_proxy_centranity.Routing.Engine.{RouteDecision, Resolution, routed}
use ai_proxy_centranity.Dataplane.State.{
  Gateway, Env, Request, ChatRequest, Body, bytes, empty, unreadable, log_audit,
}
use ai_proxy_centranity.Dataplane.Forward.{
  Loop, forward, forward_all, after_answer, send, on_error, on_failure, on_success, record_result,
  count_upstream, is_failure, give_up,
}
use ai_proxy_centranity.Dataplane.Chat.{
  lacks_key, Outcome, chat_completions, account, after_loop, forward_step, quota_step, after_limit,
  rate_step, policy_step, route_step, resolve_step, serve_decoded, serve_body,
}
use ai_proxy_centranity.Base.Assoc.{lookup}
use ai_proxy_centranity.Dataplane.Chat.Quiet.{IsQuiet, relay-IsQuiet}

-- The keys, the policy and the aliases are the same.
abbrev pub IsSettled : Gateway → Gateway → Type 0
IsSettled g h =
    (h.key_store ≡ g.key_store)
    × ((h.policy_engine ≡ g.policy_engine) × (h.routing_engine.aliases ≡ g.routing_engine.aliases))

abbrev pub IsKept : Gateway → ℕ → Outcome → Type 0
IsKept g n o = IsSettled g o.gateway × IsQuiet n o.writer

either :
    (g : Gateway) (n : ℕ) (b : Bool) (x y : Outcome)
    → IsKept g n x
    → IsKept g n y
    → IsKept g n (if b then x else y)
either g n true x y p q = p
either g n false x y p q = q

IsSettled-trans : (f g h : Gateway) → IsSettled f g → IsSettled g h → IsSettled f h
IsSettled-trans f g h (a, (b, c)) (d, (e, k)) = (d ∙ a, (e ∙ b, k ∙ c))

-- The loop over the targets.
after_answer-IsSettled :
    (t : Text) (now : ℕ) (a : Answer) (next : Loop → Loop) (f : Gateway)
    → ((s : Loop) → IsSettled f s.gateway → IsSettled f (next s).gateway)
    → (s : Loop) → IsSettled f s.gateway
    → IsSettled f (after_answer t now a next s).gateway
unfolding after_answer on_error on_failure on_success record_result count_upstream
    Engine.record_result
after_answer-IsSettled t now (failed e) next f h s p = h (on_error t now e s) p
after_answer-IsSettled t now (responded r) next f h s p = elim (Bool-cases (is_failure r.status)) [
  | inl y ↦ rw (y) (h (on_failure t now r.status s) p)
  | inr n ↦ rw (n) p
]

forward-IsSettled :
    (env : Env) (header : Header) (i : ℕ) (ts : List Text) (f : Gateway) (s : Loop)
    → IsSettled f s.gateway
    → IsSettled f (forward env header i ts s).gateway
unfolding forward send
forward-IsSettled env header i [] f s p = p
forward-IsSettled env header i (t ∷ ts) f s p =
    after_answer-IsSettled t _ _ (forward env header (suc i) ts) f
      (forward-IsSettled env header (suc i) ts f) (send t s) p

-- The steps, from the last to the first.
account-IsSettled :
    (req : Request) (r : ChatRequest) (model : Text) (f g : Gateway)
    → IsSettled f g
    → IsSettled f (account req r model g)
unfolding account
account-IsSettled req r model f g p = elim (Option-cases req.key) [
  | inl n ↦ rw (n) p
  | inr (k, e) ↦ rw (e) p
]

give_up-IsKept :
    (s : Loop) (f : Gateway) (n : ℕ) (w : Writer)
    → IsSettled f s.gateway
    → IsQuiet n w
    → IsSettled f (give_up s w).0 × IsQuiet n (give_up s w).1
unfolding give_up count_upstream write_json write write_header set
give_up-IsKept s f n w p q = elim (Bool-cases (eqb s.last_status_code 0)) [
  | inl y ↦ rw (y) (p, q)
  | inr m ↦ rw (m) (p, q)
]

module _ (env : Env) (req : Request) (r : ChatRequest) (f : Gateway) (n : ℕ) where
  after_loop-IsKept :
      (w : Writer) (o : Option (Text × Response)) (s : Loop)
      → IsSettled f s.gateway
      → IsQuiet n w
      → IsKept f n (after_loop env req r w o s)
  unfolding after_loop
  after_loop-IsKept w none s p q = give_up-IsKept s f n w p q
  after_loop-IsKept w (some (model, resp)) s p q =
      (account-IsSettled req r model f s.gateway p, relay-IsQuiet r.stream env.gone resp n w q)

  forward_step-IsKept :
      (d : RouteDecision) (g : Gateway) (w : Writer)
      → IsSettled f g
      → IsQuiet n w
      → IsKept f n (forward_step env req r d g w)
  unfolding forward_step forward_all
  forward_step-IsKept d g w p q =
      after_loop-IsKept w _ _
        (forward-IsSettled env req.header 0 (d.target_model ∷ d.fallback_chain) f _ p) q

  quota_step-IsKept :
      (d : RouteDecision) (k : Option ApiKey) (g : Gateway) (w : Writer)
      → IsSettled f g
      → IsQuiet n w
      → IsKept f n (quota_step env req r d k g w)
  unfolding quota_step set write_json write write_header
  quota_step-IsKept d none g w p q = forward_step-IsKept d g w p q
  quota_step-IsKept d (some key) g w p q = either f n _ _ _ (forward_step-IsKept d _ _ p q) (p, q)

  after_limit-IsKept :
      (d : RouteDecision) (key : ApiKey) (a : Option Limiter.Answer) (g : Gateway) (w : Writer)
      → IsSettled f g
      → IsQuiet n w
      → IsKept f n (after_limit env req r d key a g w)
  unfolding after_limit set write_json write write_header log_audit
  after_limit-IsKept d key none g w p q = (p, q)
  after_limit-IsKept d key (some a) g w p q =
      either f n _ _ _ (quota_step-IsKept d (some key) g _ p q) (p, q)

  rate_step-IsKept :
      (d : RouteDecision) (k : Option ApiKey) (g : Gateway) (w : Writer)
      → IsSettled f g
      → IsQuiet n w
      → IsKept f n (rate_step env req r d k g w)
  unfolding rate_step
  rate_step-IsKept d none g w p q = quota_step-IsKept d none g w p q
  rate_step-IsKept d (some key) g w p q =
      either f n _ _ _ (after_limit-IsKept d key _ _ w p q) (quota_step-IsKept d (some key) g w p q)

  policy_step-IsKept :
      (d : RouteDecision) (k : Option ApiKey) (g : Gateway) (w : Writer)
      → IsSettled f g
      → IsQuiet n w
      → IsKept f n (policy_step env req r d k g w)
  unfolding policy_step log_audit set write_json write write_header
  policy_step-IsKept d none g w p q = rate_step-IsKept d none g w p q
  policy_step-IsKept d (some key) g w p q =
      either f n _ _ _ (rate_step-IsKept d (some key) g w p q) (p, q)

  route_step-IsKept :
      (res : Resolution) (g : Gateway) (w : Writer)
      → IsSettled f g
      → IsQuiet n w
      → IsKept f n (route_step env req r res g w)
  unfolding route_step log_audit set write_json write write_header
  route_step-IsKept (Engine.failed e) g w p q = (p, q)
  route_step-IsKept (routed d) g w p q = policy_step-IsKept d req.key _ w p q

resolve-aliases :
    (e : Engine.Engine) (now : ℕ → ℕ) (m : Text) → (Engine.resolve e now m).0.aliases ≡ e.aliases
unfolding Engine.resolve Engine.resolve_direct Engine.resolve_alias
resolve-aliases e now m = elim (Option-cases (lookup (to_lower m) e.aliases)) [
  | inl n ↦ rw (n) refl
  | inr (ts, h) ↦ rw (h) refl
]

resolve_step-IsKept :
    (env : Env) (req : Request) (r : ChatRequest) (ms : List Text) (g : Gateway) (n : ℕ)
    (w : Writer)
    → IsQuiet n w
    → IsKept g n (resolve_step env req r ms g w)
unfolding resolve_step set write_json write write_header
resolve_step-IsKept env req r [] g n w q = ((refl, (refl, refl)), q)
resolve_step-IsKept env req r (m ∷ ms) g n w q =
    route_step-IsKept env req r g n _ _ w
      (refl, (refl, resolve-aliases g.routing_engine env.resolve_now r.model)) q

serve_body-IsKept :
    (env : Env) (req : Request) (b : Body) (g : Gateway) (n : ℕ) (w : Writer)
    → IsQuiet n w
    → IsKept g n (serve_body env req b g w)
unfolding serve_body serve_decoded set write_json write write_header
serve_body-IsKept env req unreadable g n w q = ((refl, (refl, refl)), q)
serve_body-IsKept env req empty g n w q = ((refl, (refl, refl)), q)
serve_body-IsKept env req (bytes (malformed e)) g n w q = ((refl, (refl, refl)), q)
serve_body-IsKept env req (bytes (decoded r)) g n w q =
    either g n _ _ _ ((refl, (refl, refl)), q) (resolve_step-IsKept env req r r.messages g n w q)

-- A chat call leaves the keys, the policy and the aliases as they are; and a writer that is no
-- http.Flusher is never flushed, whatever the client and the upstream want to stream.
pub chat-IsKept :
    (env : Env) (req : Request) (g : Gateway) (n : ℕ) (w : Writer)
    → IsQuiet n w
    → IsKept g n (chat_completions env req g w)
unfolding chat_completions set write_json write write_header
chat-IsKept env req g n w q = elim (Bool-cases (req.method == text "POST")) [
  | inr m ↦ rw (m) ((refl, (refl, refl)), q)
  | inl y ↦ elim (Bool-cases (lacks_key g.key_store req.key)) [
    | inl z ↦ rw (y, z) ((refl, (refl, refl)), q)
    | inr m ↦ rw (y, m) (serve_body-IsKept env req req.body g n w q)
  ]
]
