-- ===== src/Health/Readiness.antt =====
-- When internal/health/health.go reports that the server is ready.
use ai_proxy_centranity.Base.{◌≡◌, ◌↔◌, true, none, Option, some, List, [], ◌∷◌, All, arith}
use ai_proxy_centranity.Base.Text.{Text}
use ai_proxy_centranity.Http.{Writer, status_of, write_json}
use ai_proxy_centranity.Health.{HealthChecker, Checks, note_check, run_checks, ready}

note_check_iff :
    (c : HealthChecker) (s : Checks) (e : Option Text)
    → ((note_check c s e).all_healthy ≡ true) ↔ ((s.all_healthy ≡ true) × (e ≡ none))
note_check_iff c s none = ground arith
note_check_iff c s (some e) = ground arith

run_checks_iff :
    (cs : List HealthChecker) (s : Checks)
    → ((run_checks cs s).all_healthy ≡ true)
      ↔ ((s.all_healthy ≡ true) × All (λ c. c.check ≡ none) cs)
unfolding run_checks
run_checks_iff [] s = ground arith
run_checks_iff (c ∷ cs) s =
    ground (arith, run_checks_iff cs (note_check c s c.check), note_check_iff c s c.check)

-- On a response that has not begun, readiness has the status 200 if every check passes and 503 if one
-- fails; no other status occurs.
pub ready-status_iff :
    (checkers : List HealthChecker) (now : Text) (w : Writer)
    → w.sent ≡ none
    → ((status_of (ready checkers now w) ≡ 200) ↔ All (λ c. c.check ≡ none) checkers)
      × ((status_of (ready checkers now w) ≡ 503) ↔ ¬ All (λ c. c.check ≡ none) checkers)
unfolding ready write_json status_of
ready-status_iff checkers now w fresh =
    ground (arith, fresh, run_checks_iff checkers (record { checks = []; all_healthy = true }))
