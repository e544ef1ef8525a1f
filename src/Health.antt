-- ===== src/Health.antt =====
-- internal/health/health.go: the liveness and the readiness handlers.
mod Examples
pub mod Readiness
use ai_proxy_centranity.Base.{
  Bool, true, false, Option, none, some, List, [], ◌∷◌, ◌++◌, if◌then◌else◌,
}
use ai_proxy_centranity.Base.Text.{Text, text}
use ai_proxy_centranity.Base.Assoc.{Assoc, insert}
use ai_proxy_centranity.Http.{Json, Fields, str, obj, field, end, Writer, write_json}

-- A checker as its name and the error, if any, that its check gives to this request.
pub record HealthChecker : Type 0 where
  pub name : Text
  pub check : Option Text

-- `Live`; a time is kept as the text that encoding/json writes for it.
unfoldable pub live : Text → Writer → Writer
live now w =
    write_json 200
      (obj (field (text "status") (str (text "ok")) (field (text "timestamp") (str now) end))) w

-- The variables of the loop in `Ready`.
pub record Checks : Type 0 where
  pub checks : Assoc Text
  pub all_healthy : Bool

abbrev pub note_check : HealthChecker → Checks → Option Text → Checks
note_check c s none = record s { checks = insert c.name (text "healthy") s.checks }
note_check c s (some e) = record {
  checks = insert c.name (text "unhealthy: " ++ e) s.checks;
  all_healthy = false;
}

unfoldable pub run_checks : List HealthChecker → Checks → Checks
run_checks [] s = s
run_checks (c ∷ cs) s = run_checks cs (note_check c s c.check)

abbrev fields_of : Assoc Text → Fields
fields_of [] = end
fields_of ((k, v) ∷ m) = field k (str v) (fields_of m)

abbrev pub ready_doc : Text → Text → Assoc Text → Fields
ready_doc status now checks =
    field (text "status") (str status)
      (field (text "timestamp") (str now) (field (text "checks") (obj (fields_of checks)) end))

-- `Ready`
unfoldable pub ready : List HealthChecker → Text → Writer → Writer
ready checkers now w =
    let s = run_checks checkers (record { checks = []; all_healthy = true }) in
    if s.all_healthy
    then write_json 200 (obj (ready_doc (text "ok") now s.checks)) w
    else write_json 503 (obj (ready_doc (text "unhealthy") now s.checks)) w
