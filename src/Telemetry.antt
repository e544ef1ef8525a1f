-- ===== src/Telemetry.antt =====
-- internal/telemetry/metrics.go: the collectors, each as the sequence of its observations, and the
-- middleware that counts requests. What Prometheus makes of the observations is not modelled.
use ai_proxy_centranity.Base.{
  ℕ, Bool, ◌&&◌, ◌||◌, Option, none, some, not, leb, eqb, List, [], ◌∷◌, ◌++◌, if◌then◌else◌,
}
use ai_proxy_centranity.Base.Int.{ℤ}
use ai_proxy_centranity.Base.Text.{Text, text, ◌==◌}
use ai_proxy_centranity.Base.Utf8.{valid_utf8}
use ai_proxy_centranity.Http.{show_nat}

pub record Metrics : Type 0 where
  -- method, path, status
  pub requests_total : List (Text × Text × Text)
  -- path, model
  pub request_duration : List (Text × Text)
  -- key, model, type, tokens
  pub tokens_total : List (Text × Text × Text × ℤ)
  -- provider, code
  pub upstream_errors : List (Text × Text)

-- `NewMetrics`
abbrev pub new : Metrics
new = record { requests_total = []; request_duration = []; tokens_total = []; upstream_errors = [] }

unfoldable pub count_error : Text → Text → Metrics → Metrics
count_error provider code m = record m {
  upstream_errors = m.upstream_errors ++ (provider, code) ∷ [];
}

unfoldable pub add_tokens : Text → Text → Text → ℤ → Metrics → Metrics
add_tokens key_id model kind n m = record m {
  tokens_total = m.tokens_total ++ (key_id, model, kind, n) ∷ [];
}

unfoldable pub observe : Text → Text → Metrics → Metrics
observe path model m = record m { request_duration = m.request_duration ++ (path, model) ∷ [] }

abbrev pub chat_path : Text
chat_path = text "/v1/chat/completions"

-- WithLabelValues panics for a label that is not valid UTF-8; the status is made of digits.
abbrev pub labels_fit : Text → Text → Bool
labels_fit method path = valid_utf8 method && valid_utf8 path

-- The condition under which the middleware itself observes the latency.
unfoldable pub observes : Text → ℕ → Bool
observes path status = not (path == chat_path) || leb 500 status || eqb status 401 || eqb status 429

-- The sample of a request in the counter, and in the histogram.
unfoldable pub sampled : Text → Text → ℕ → Metrics → Metrics
unfolding observe observes
sampled method path status m =
    let counted = record m {
      requests_total = m.requests_total ++ (method, path, show_nat status) ∷ [];
    } in
    if observes path status then observe path [] counted else counted

-- `Middleware`, after the wrapped handler has returned with the recorded status; `none` is a panic,
-- before anything is counted.
unfoldable pub after_request : Text → Text → ℕ → Metrics → Option Metrics
after_request method path status m =
    if labels_fit method path then some (sampled method path status m) else none
