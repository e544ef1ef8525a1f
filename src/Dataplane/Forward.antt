-- ===== src/Dataplane/Forward.antt =====
-- The loop of ChatCompletions in internal/api/dataplane.go that forwards the request to the chosen
-- target and then to the fallback targets, until one answers.
pub mod Attempts
use ai_proxy_centranity.Base.{
  ℕ, suc, Bool, true, false, ◌||◌, Option, none, some, List, [], ◌∷◌, ◌++◌, eqb, leb, ltb,
  if◌then◌else◌,
}
use ai_proxy_centranity.Base.Text.{Text, text}
use ai_proxy_centranity.Base.Assoc.{insert}
use ai_proxy_centranity.Http.{Header, str, Writer, write_json, error_doc, show_nat}
use ai_proxy_centranity.Ninerouter.{
  Payload, Answer, failed, responded, Response, err_upstream_unreach,
}
use ai_proxy_centranity.Routing.Engine
use ai_proxy_centranity.Telemetry
use ai_proxy_centranity.Dataplane.State.{Gateway, Env, with_metrics, upstream_error_code}

-- The loop's variables. `forwarded` and `successModel` are the result; `sent` lists the payloads
-- that the upstream has been given, and `recorded` is the state of the shared stores.
pub record Loop : Type 0 where
  pub gateway : Gateway
  pub payload : Payload
  pub last_err : Option Text
  pub last_status_code : ℕ
  pub result : Option (Text × Response)
  pub sent : List Payload

-- The statuses after which the next target is tried.
unfoldable pub is_failure : ℕ → Bool
is_failure status = leb 500 status || eqb status 401 || eqb status 429

-- `h.routingEngine.RecordResult`
unfoldable pub record_result : Text → Bool → ℕ → Gateway → Gateway
record_result t success now g = record g {
  routing_engine = Engine.record_result g.routing_engine t success now;
}

unfoldable pub count_upstream : Text → Gateway → Gateway
count_upstream code g = record g {
  metrics = with_metrics (Telemetry.count_error (text "9router") code) g.metrics;
}

-- The branch of a transport error.
unfoldable pub on_error : Text → ℕ → Text → Loop → Loop
on_error t now e s = record s {
  gateway = record_result t false now s.gateway;
  last_err = some e;
  last_status_code = 0;
}

-- The branch of a response that counts as a failure.
unfoldable pub on_failure : Text → ℕ → ℕ → Loop → Loop
on_failure t now status s = record s {
  gateway = record_result t false now (count_upstream (upstream_error_code status) s.gateway);
  last_err = some (text "upstream returned " ++ show_nat status ++ text " for " ++ t);
  last_status_code = status;
}

unfoldable pub on_success : Text → ℕ → Response → Loop → Loop
on_success t now r s = record s {
  gateway = record_result t true now s.gateway;
  result = some (t, r);
}

-- What one round makes of the answer, `next` being the rounds after it.
unfoldable pub after_answer : Text → ℕ → Answer → (Loop → Loop) → Loop → Loop
after_answer t now (failed e) next s = next (on_error t now e s)
after_answer t now (responded r) next s =
    if is_failure r.status then next (on_failure t now r.status s) else on_success t now r s

-- `payloadMap["model"] = t`, and the payload is handed to the upstream.
unfoldable pub send : Text → Loop → Loop
send t s =
    let payload = insert (text "model") (str t) s.payload in
    record s { payload = payload; sent = s.sent ++ payload ∷ [] }

-- The loop; its `i`-th round is the `i`-th attempt.
unfoldable pub forward : Env → Header → ℕ → List Text → Loop → Loop
forward env header i [] s = s
forward env header i (t ∷ ts) s =
    let s' = send t s in
    after_answer t (env.attempt_now i) (env.upstream i s'.payload header)
      (forward env header (suc i) ts) s'

abbrev start : Gateway → Payload → Loop
start g payload = record {
  gateway = g;
  payload = payload;
  last_err = none;
  last_status_code = 0;
  result = none;
  sent = [];
}

-- The model is rewritten to the chosen target, and the loop runs over it and its fallback chain.
unfoldable pub forward_all : Env → Header → Text → List Text → Payload → Gateway → Loop
forward_all env header target chain payload g =
    forward env header 0 (target ∷ chain) (start g (insert (text "model") (str target) payload))

-- The error code of the summary: by the last status, or UNREACHABLE if the last attempt had none.
unfoldable pub final_code : ℕ → Text
final_code status = if ltb 0 status then upstream_error_code status else err_upstream_unreach

abbrev gateway_error : Option Text → Text
gateway_error none = text "upstream gateway error"
gateway_error (some e) = text "upstream gateway error: " ++ e

-- The branch `!forwarded`.
unfoldable pub give_up : Loop → Writer → Gateway × Writer
give_up s w =
    let code = final_code s.last_status_code in
    (
      if eqb s.last_status_code 0 then count_upstream code s.gateway else s.gateway,
      write_json 502 (error_doc (gateway_error s.last_err) (text "upstream_error") code) w,
    )
