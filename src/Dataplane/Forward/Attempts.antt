-- ===== src/Dataplane/Forward/Attempts.antt =====
-- Which targets the loop of ChatCompletions in internal/api/dataplane.go tries, and with what.
use ai_proxy_centranity.Base.{
  eqb, ◌||◌, leb, Bool, true, false, ap, ◌∙◌, map, if◌then◌else◌, ℕ, suc, ◌≡◌, refl, List, [], ◌∷◌,
  ◌++◌, some, none, Option,
}
use mathlib.Core.List.{append-nil, append_assoc}
use ai_proxy_centranity.Base.Text.{Text, text}
use ai_proxy_centranity.Http.{Header, str}
use ai_proxy_centranity.Ninerouter.{Payload, Answer, failed, responded, Response}
use ai_proxy_centranity.Dataplane.State.{Env, Gateway}
use ai_proxy_centranity.Dataplane.Forward.{
  start, insert, Loop, forward, forward_all, send, after_answer, on_error, on_failure, on_success,
  is_failure,
}
use ai_proxy_centranity.Base.Assoc.{insert-insert, insert}

-- The client's payload for another model.
abbrev pub for_model : Payload → Text → Payload
for_model payload t = insert (text "model") (str t) payload

-- The server's failures, a refused key and a rate limit are worth another attempt.
abbrev pub is_retried : ℕ → Bool
is_retried status = leb 500 status || eqb status 401 || eqb status 429

-- A response that ends the loop.
abbrev pub usable : Answer → Option Response
usable (failed e) = none
usable (responded r) = if is_retried r.status then none else some r

abbrev serve_or : Text → Option Response → Option (Text × Response) → Option (Text × Response)
serve_or t none later = later
serve_or t (some r) later = some (t, r)

-- The first of the targets that gives a usable response, with it; the `i`-th is asked `i`-th.
unfoldable pub served : Env → Header → Payload → ℕ → List Text → Option (Text × Response)
served env header payload i [] = none
served env header payload i (t ∷ ts) =
    serve_or t (usable (env.upstream i (for_model payload t) header))
      (served env header payload (suc i) ts)

abbrev stop_or : Option Response → List Text → List Text
stop_or none later = later
stop_or (some r) later = []

-- The targets up to the one that serves, all of them if none does.
unfoldable pub tried : Env → Header → Payload → ℕ → List Text → List Text
tried env header payload i [] = []
tried env header payload i (t ∷ ts) =
    t
    ∷ stop_or (usable (env.upstream i (for_model payload t) header))
        (tried env header payload (suc i) ts)

-- The loop's payload is the client's, but for the model.
record Carries (payload : Payload) (s : Loop) : Type 0 where
  fresh : (t : Text) → for_model s.payload t ≡ for_model payload t
  open_ : s.result ≡ none

abbrev Relays : Payload → Option (Text × Response) → List Text → Loop → Loop → Type 0
Relays payload later ts s f = (f.result ≡ later) × (f.sent ≡ s.sent ++ map (for_model payload) ts)

if_failure :
    (payload : Payload) (t : Text) (now : ℕ) (r : Response) (next : Loop → Loop)
    (later : Option (Text × Response)) (ts : List Text) (s : Loop)
    → Carries payload s
    → ((s : Loop) → Carries payload s → Relays payload later ts s (next s))
    → (b : Bool)
    → Relays payload
        (serve_or t (if b then none else some r) later)
        (stop_or (if b then none else some r) ts)
        s
        (if b then next (on_failure t now r.status s) else on_success t now r s)
unfolding on_failure on_success
if_failure payload t now r next later ts s c ih true =
    ih (on_failure t now r.status s) (record { fresh = c.fresh; open_ = c.open_ })
if_failure payload t now r next later ts s c ih false = (refl, rw append-nil)

after_answer_lem :
    (payload : Payload) (t : Text) (now : ℕ) (a : Answer) (next : Loop → Loop)
    (later : Option (Text × Response)) (ts : List Text) (s : Loop)
    → Carries payload s
    → ((s : Loop) → Carries payload s → Relays payload later ts s (next s))
    → Relays payload
        (serve_or t (usable a) later)
        (stop_or (usable a) ts)
        s
        (after_answer t now a next s)
unfolding after_answer on_error is_failure
after_answer_lem payload t now (failed e) next later ts s c ih =
    ih (on_error t now e s) (record { fresh = c.fresh; open_ = c.open_ })
after_answer_lem payload t now (responded r) next later ts s c ih =
    if_failure payload t now r next later ts s c ih (is_retried r.status)

send-Carries :
    (payload : Payload) (t : Text) (s : Loop) → Carries payload s → Carries payload (send t s)
unfolding send
send-Carries payload t s c = record {
  fresh = λ t'. insert-insert (text "model") _ _ s.payload ∙ c.fresh t';
  open_ = c.open_;
}

forward_results :
    (env : Env) (header : Header) (payload : Payload) (i : ℕ) (ts : List Text) (s : Loop)
    → Carries payload s
    → Relays payload
        (served env header payload i ts)
        (tried env header payload i ts)
        s
        (forward env header i ts s)
unfolding forward served tried send
forward_results env header payload i [] s c = (c.open_, rw append-nil)
forward_results env header payload i (t ∷ ts) s c =
    let (served_eq, sent_eq) =
      after_answer_lem payload t (env.attempt_now i) (env.upstream i (for_model s.payload t) header)
        (forward env header (suc i) ts) (served env header payload (suc i) ts)
        (tried env header payload (suc i) ts) (send t s) (send-Carries payload t s c)
        (λ s' c'. forward_results env header payload (suc i) ts s' c') in
    (
      served_eq
          ∙ ap
              (λ q.
                serve_or t (usable (env.upstream i q header))
                  (served env header payload (suc i) ts))
              (c.fresh t),
      sent_eq ∙ rw (append_assoc, c.fresh t),
    )

-- The loop over the chosen target and its fallback chain asks them in that order, each with the
-- client's payload for its own model, until one responds with a status other than 401, 429 and
-- those from 500 on; that response is the result, and no payload but these is sent.
pub forward_all_lem :
    (env : Env) (header : Header) (target : Text) (chain : List Text) (payload : Payload)
    (g : Gateway)
    → ((forward_all env header target chain payload g).result
        ≡ served env header payload 0 (target ∷ chain))
      × ((forward_all env header target chain payload g).sent
          ≡ map (for_model payload) (tried env header payload 0 (target ∷ chain)))
unfolding forward_all
forward_all_lem env header target chain payload g =
    forward_results env header payload 0 (target ∷ chain) (start g (for_model payload target))
      (record {
        fresh = λ t. insert-insert (text "model") (str t) (str target) payload;
        open_ = refl;
      })
